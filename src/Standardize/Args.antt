-- ===== src/Standardize/Args.antt =====
-- The arguments of an ITE call as diagrams, and the function that the call is to compute.
use ibdd.Prelude.{ℕ, ◌<◌, ◌≡◌, refl, Bool, true, false}
use ibdd.Diagram.{leaf, Bdd, bdd, Assignment, eval_tree, eval, top}
use ibdd.Standardize.{Triple}
use ibdd.State.{State}
use ibdd.State.Valid.{Denotes, ite_value}

-- x stands for three diagrams below the bound n, and ite of their functions is φ.
pub record Args (s : State) (x : Triple) (n : ℕ) (φ : Assignment → Bool) : Type 0 where
  pub f : Bdd
  pub g : Bdd
  pub h : Bdd
  pub f_denotes : Denotes s x.f f
  pub g_denotes : Denotes s x.g g
  pub h_denotes : Denotes s x.h h
  pub f_lt : top f < n
  pub g_lt : top g < n
  pub h_lt : top h < n
  pub value : (ρ : Assignment) → φ ρ ≡ ite_value (eval f ρ) (eval g ρ) (eval h ρ)

-- A standard triple has regular edges to f and g.
pub record Standard (s : State) (x : Triple) (n : ℕ) (φ : Assignment → Bool) : Type 0 where
  pub args : Args s x n φ
  pub f_regular : args.f.complement ≡ false
  pub g_regular : args.g.complement ≡ false

pub eval-one : (ρ : Assignment) → eval (bdd false leaf) ρ ≡ true
unfolding eval eval_tree
eval-one ρ = refl

pub eval-zero : (ρ : Assignment) → eval (bdd true leaf) ρ ≡ false
unfolding eval eval_tree
eval-zero ρ = refl
