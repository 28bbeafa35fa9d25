-- ===== src/Standardize/Regular.antt =====
-- `standardize` as a whole: a standard triple for the same function, up to the complement it reports.
use ibdd.Prelude.{ℕ, ◌≡◌, inl, inr, Bool, false, arith, Bool-cases}
use ibdd.Platform.{Platform}
use ibdd.Diagram.{Assignment, flip_if}
use ibdd.Diagram.Cofactor.{negation, eval-negation}
use ibdd.Standardize.{Triple, regular_f, regular_g, standardize}
use ibdd.Standardize.Args.{Args, Standard}
use ibdd.Standardize.Rules.{identical-Args, symmetrical-Args}
use ibdd.State.{State, ok}
use ibdd.State.Rep.{Denotes-negate, is_complement_edge-Denotes}
use ibdd.State.Valid.{Valid}

module _ {s : State} {x : Triple} {n : ℕ} {φ : Assignment → Bool} (a : Args s x n φ) where
  -- ite(f, g, h) = ite(f', h, g)
  regular_f-Args : (b : Args s (regular_f x) n φ) × (b.f.complement ≡ false)
  unfolding regular_f
  regular_f-Args = elim (Bool-cases a.f.complement) [
    | inl y ↦
        rw (is_complement_edge-Denotes a.f_denotes, y)
          (
            record {
              f = negation a.f;
              g = a.h;
              h = a.g;
              f_denotes = Denotes-negate a.f_denotes;
              g_denotes = a.h_denotes;
              h_denotes = a.g_denotes;
              f_lt = a.f_lt;
              g_lt = a.h_lt;
              h_lt = a.g_lt;
              value = λ ρ. ground (arith, a.value ρ, eval-negation a.f ρ);
            },
            rw y,
          )
    | inr e ↦ rw (is_complement_edge-Denotes a.f_denotes, e) (a, e)
  ]

  -- ite(f, g, h) = ite(f, g', h')'
  regular_g-Standard :
      a.f.complement ≡ false
      → Standard s (regular_g x false).0 n (λ ρ. flip_if (regular_g x false).1 (φ ρ))
  unfolding regular_g
  regular_g-Standard r = elim (Bool-cases a.g.complement) [
    | inl y ↦
        rw (is_complement_edge-Denotes a.g_denotes, y)
          (record {
            args = record {
              f = a.f;
              g = negation a.g;
              h = negation a.h;
              f_denotes = a.f_denotes;
              g_denotes = Denotes-negate a.g_denotes;
              h_denotes = Denotes-negate a.h_denotes;
              f_lt = a.f_lt;
              g_lt = a.g_lt;
              h_lt = a.h_lt;
              value = λ ρ. ground (arith, a.value ρ, eval-negation a.g ρ, eval-negation a.h ρ);
            };
            f_regular = r;
            g_regular = rw y;
          })
    | inr e ↦
        rw (is_complement_edge-Denotes a.g_denotes, e)
          (record { args = a; f_regular = r; g_regular = e })
  ]

module _ ⦃m : Platform⦄ {s : State} (v : Valid s) {x : Triple} {n : ℕ} {φ : Assignment → Bool} where
  -- In a valid state `standardize` of three BDDNodes with labels below a bound, with
  -- `complementEdge` false, changes nothing but its arguments: the new f and g have regular
  -- edges, the new labels are below the bound, and ite of the new functions is that of the old,
  -- complemented if `complementEdge` has become true.
  pub standardize-Standard :
      Args s x n φ
      → (y : Triple) × (c : Bool) × (standardize x false s ≡ ok (y, c) s)
        × Standard s y n (λ ρ. flip_if c (φ ρ))
  unfolding standardize
  standardize-Standard a =
      let (y, run, b) = symmetrical-Args v (identical-Args v a) in
      let (b', regular) = regular_f-Args b in
      (
        (regular_g (regular_f y) false).0,
        (regular_g (regular_f y) false).1,
        rw run,
        regular_g-Standard b' regular,
      )
