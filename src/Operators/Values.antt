-- ===== src/Operators/Values.antt =====
-- Each operator computes the BDDNode of its Boolean function.
use ibdd.Prelude.{ℕ, suc, ◌≡◌, refl, ◌∙◌, Bool, not, ◌&&◌, ◌||◌, arith, if◌then◌else◌}
use ibdd.Platform.{Platform}
use ibdd.Diagram.{Bdd, Assignment, eval, top}
use ibdd.Diagram.Cofactor.{eval-negation}
use ibdd.Ite.Split.{largest_lem}
use ibdd.Ite.Total.{ite-IsRight}
use ibdd.Ite.{largest}
use ibdd.Operators.{call_ite, and, more, less, xor, or, nor, xnor, nand}
use ibdd.Standardize.Args.{eval-one, eval-zero}
use ibdd.State.Rep.{Denotes-negate}
use ibdd.State.Returns.{Returns, returns, mono}
use ibdd.State.Valid.{Denotes, Valid, ite_value}
use ibdd.State.{State, Outcome, M, and_then}
use ibdd.Unique.Node.{get_index-Denotes, terminal1-Denotes, terminal0-Denotes}

-- w is a BDDNode of the function φ.
pub record Computes (φ : Assignment → Bool) (w : ℕ) (s : State) : Type 0 where
  pub res : Bdd
  pub denotes : Denotes s w res
  pub value : (ρ : Assignment) → eval res ρ ≡ φ ρ

module _ ⦃m : Platform⦄ {s : State} (v : Valid s) where
  -- In a valid state a call of `ite` on three BDDNodes, with the fuel that the labels of the
  -- roots ask for, returns a BDDNode of ite(f, g, h), in a valid state that keeps every node, or
  -- `new` throws with the memory exhausted.
  pub call_ite-Computes :
      {f g h : ℕ} {a b c : Bdd}
      → Denotes s f a
      → Denotes s g b
      → Denotes s h c
      → Returns s (Computes (λ ρ. ite_value (eval a ρ) (eval b ρ) (eval c ρ))) (call_ite f g h s)
  unfolding call_ite
  call_ite-Computes {f} {g} {h} {a} {b} {c} x y z =
      let n = suc (largest (top a) (top b) (top c)) in
      let (la, lb, lc, bound) = largest_lem (top a) (top b) (top c) in
      rw
        (
          get_index-Denotes v.heap x,
          and_then,
          get_index-Denotes v.heap y,
          and_then,
          get_index-Denotes v.heap z,
        )
        (mono
          (ite-IsRight n s n f g h (λ ρ. ite_value (eval a ρ) (eval b ρ) (eval c ρ)) v (omega arith)
            (record {
              f = a;
              g = b;
              h = c;
              f_denotes = x;
              g_denotes = y;
              h_denotes = z;
              f_lt = omega arith;
              g_lt = omega arith;
              h_lt = omega arith;
              value = λ ρ. refl;
            }))
          (λ w s' k r. returns k (record { res = r.res; denotes = r.denotes; value = r.value })))

-- the operators, and the connectives that they stand for
pub data Operator : Type 0 where
  times greater smaller caret plus bar percent ampersand : Operator

abbrev pub run : ⦃m : Platform⦄ → Operator → ℕ → ℕ → M ℕ
run times = and
run greater = more
run smaller = less
run caret = xor
run plus = or
run bar = nor
run percent = xnor
run ampersand = nand

abbrev pub connective : Operator → Bool → Bool → Bool
connective times a b = a && b
connective greater a b = a && not b
connective smaller a b = not a && b
connective caret a b = if a then not b else b
connective plus a b = a || b
connective bar a b = not (a || b)
connective percent a b = if a then b else not b
connective ampersand a b = not (a && b)

pub Computes-eq :
    ⦃m : Platform⦄ {s : State} {φ ψ : Assignment → Bool} {r : Outcome ℕ}
    → ((ρ : Assignment) → φ ρ ≡ ψ ρ)
    → Returns s (Computes φ) r
    → Returns s (Computes ψ) r
Computes-eq same h = mono h λ w s' k c.
    returns k (record { res = c.res; denotes = c.denotes; value = λ ρ. c.value ρ ∙ same ρ })

module _ ⦃m : Platform⦄ {s : State} (v : Valid s) {f g : ℕ} {a b : Bdd} (x : Denotes s f a)
    (y : Denotes s g b) where
  -- In a valid state each of the eight binary operators, applied to two BDDNodes, returns a
  -- BDDNode of its connective applied to the functions of its operands, in a valid state that
  -- keeps every node, or `new` throws with the memory exhausted.
  pub run-Computes :
      (o : Operator) → Returns s (Computes (λ ρ. connective o (eval a ρ) (eval b ρ))) (run o f g s)
  unfolding and more less xor or nor xnor nand
  run-Computes times =
      Computes-eq (λ ρ. ground (arith, eval-zero ρ))
        (call_ite-Computes v x y (terminal0-Denotes v.heap))
  run-Computes greater =
      Computes-eq (λ ρ. ground (arith, eval-zero ρ, eval-negation b ρ))
        (call_ite-Computes v x (Denotes-negate y) (terminal0-Denotes v.heap))
  run-Computes smaller =
      Computes-eq (λ ρ. ground (arith, eval-zero ρ))
        (call_ite-Computes v x (terminal0-Denotes v.heap) y)
  run-Computes caret =
      Computes-eq (λ ρ. ground (arith, eval-negation b ρ))
        (call_ite-Computes v x (Denotes-negate y) y)
  run-Computes plus =
      Computes-eq (λ ρ. ground (arith, eval-one ρ))
        (call_ite-Computes v x (terminal1-Denotes v.heap) y)
  run-Computes bar =
      Computes-eq (λ ρ. ground (arith, eval-zero ρ, eval-negation b ρ))
        (call_ite-Computes v x (terminal0-Denotes v.heap) (Denotes-negate y))
  run-Computes percent =
      Computes-eq (λ ρ. ground (arith, eval-negation b ρ))
        (call_ite-Computes v x y (Denotes-negate y))
  run-Computes ampersand =
      Computes-eq (λ ρ. ground (arith, eval-one ρ, eval-negation b ρ))
        (call_ite-Computes v x (Denotes-negate y) (terminal1-Denotes v.heap))
