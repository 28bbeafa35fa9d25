-- ===== src/Ite/Total.antt =====
-- Manager::ite is right and total.
use ibdd.Prelude.{ℕ, zero, suc, ◌<◌, ◌≡◌, refl, ◌∙◌, inl, inr, Bool, true, false, arith}
use ibdd.Platform.{Platform}
use ibdd.Diagram.{Assignment, flip_if, top}
use ibdd.Ite.Cache.{has_next-Result}
use ibdd.Ite.Combine.{negate_if-Result, half-regular, top_of-lt_bound, combine-Result}
use ibdd.Ite.Split.{IsRight, top_of, split-Halves, Args-extends}
use ibdd.Ite.Terminal.{Result, is_terminal-cases}
use ibdd.Ite.{split, combine, ite_standard, ite}
use ibdd.Standardize.Args.{Standard}
use ibdd.Standardize.Regular.{standardize-Standard}
use ibdd.Standardize.{Triple}
use ibdd.State.{State, M, ◌>>=◌, and_then}
use ibdd.State.Returns.{Returns, returns, bind, same, mono}
use ibdd.State.Valid.{Valid}

module _ ⦃m : Platform⦄ {s : State} (v : Valid s) {x : Triple} {n : ℕ} {φ : Assignment → Bool}
    (t : Standard s x n φ) where
  -- A call that is neither terminal nor in the computed table.
  synthesis-Result :
      (recur : ℕ → ℕ → ℕ → M ℕ) (c : Bool)
      → IsRight recur (top_of t.args)
      → 0 < top t.args.f
      → Returns s
          (λ w s'. Result s' w n (λ ρ. flip_if c (φ ρ)))
          ((split recur x >>= (λ (i, a, b). combine x c i a b)) s)
  synthesis-Result recur c right pos =
      bind (split-Halves v t.args pos recur right) λ (i, a, b) s₁ k₁ (e, rt, re). rw e (
        combine-Result k₁.valid (Args-extends k₁.extends t.args) pos rt re c
          (half-regular t.args t.f_regular t.g_regular rt))

  -- The body of `ite`: terminal case, hit, or synthesis.
  ite_standard-Result :
      (recur : ℕ → ℕ → ℕ → M ℕ) (c : Bool)
      → IsRight recur (top_of t.args)
      → Returns s (λ w s'. Result s' w n (λ ρ. flip_if c (φ ρ))) (ite_standard recur x c s)
  unfolding ite_standard
  ite_standard-Result recur c right = elim (is_terminal-cases v t.args t.f_regular) [
    | inl (w, e, r) ↦
        rw (ite_standard, ◌>>=◌, and_then, ◌>>=◌, and_then, e) (same v (negate_if-Result c r))
    | inr (e, pos) ↦
        rw (ite_standard, ◌>>=◌, and_then, ◌>>=◌, and_then, e)
          (elim (has_next-Result v t.args) [
            | inl miss ↦ rw miss (synthesis-Result recur c right pos)
            | inr (w, hit, r) ↦ rw hit (same v (negate_if-Result c r))
          ])
  ]

flip_if_twice : (c b : Bool) → flip_if c (flip_if c b) ≡ b
flip_if_twice true true = refl
flip_if_twice true false = refl
flip_if_twice false b = refl

module _ ⦃m : Platform⦄ where
  -- More fuel than the labels of its arguments is enough for `ite`.
  pub ite-IsRight : (fuel : ℕ) → IsRight (ite fuel) fuel
  unfolding ite
  ite-IsRight zero s b f g h φ v le a = absurd (let lt = a.f_lt in omega arith)
  ite-IsRight (suc fuel) s b f g h φ v le a =
      let (x, c, run, t) = standardize-Standard v a in
      let below = top_of-lt_bound t.args in
      rw run (
        mono
          (ite_standard-Result v t (ite fuel) c
            (λ s' b' f' g' h' φ' v' le' a'. ite-IsRight fuel s' b' f' g' h' φ' v' (omega arith) a'))
          λ w s' k r. returns k (record {
            res = r.res;
            denotes = r.denotes;
            bound = r.bound;
            value = λ ρ. r.value ρ ∙ flip_if_twice c (φ ρ);
          }))
