-- ===== src/UTable/Empty.antt =====
-- UTable::empty: whether any bucket has a pair.
use ibdd.Prelude.{
  ℕ, zero, suc, ◌+◌, ◌^◌, ◌<◌, ◌≡◌, ◌↔◌, refl, sym, ◌∙◌, ap, inl, inr, Bool, true, false, Option,
  some, List, [], arith, ltb, ◌==◌, Bool-cases, length, length-append, get_elem?-eq-some,
}
use ibdd.UTable.{UTable, empty_from, empty}
use ibdd.UTable.Lookup.{IsLoaded}
use ibdd.UTable.Iterator.Remaining.{flatten, remaining-end, flatten-remaining}
use ibdd.UTable.Iterator.Visit.{bucket_of, from, from_next}

module _ {ℓ} {K E : Type ℓ} {u : UTable K E} (t : IsLoaded u) where
  -- the answer of the loop from the slot i on
  Answers : ℕ → Option Bool → Type 0
  Answers i r = (b : Bool) × (r ≡ some b) × ((b ≡ true) ↔ (length (from t i 0) ≡ 0))

  empty_from_lem :
      (rounds i : ℕ)
      → u.size < 2 ^ 31
      → i + rounds ≡ u.size
      → Answers i (empty_from rounds i u.items)
  unfolding empty_from Answers
  empty_from_lem zero i small e =
      let size = t.size in
      let nothing = remaining-end t.buckets i (omega arith) in
      (true, refl, (λ q. ap (λ (l : List (K × E)). length l) nothing, λ q. refl))
  empty_from_lem (suc rounds) i small e =
      let size = t.size in
      let lt : i < u.size = omega arith in
      let counts : ltb (i + 1) (2 ^ 31) ≡ true = ground arith in
      let here = get_elem?-eq-some t.buckets i [] (omega arith) in
      let both =
        ap (λ (l : List (K × E)). length l) (from_next t i 0 lt)
        ∙ length-append (bucket_of t i) (from t (i + 1) 0) in
      let (b, run, (forth, back)) = empty_from_lem rounds (i + 1) small (omega arith) in
      elim (Bool-cases (length (bucket_of t i) == 0)) [
        | inl y ↦
            let none_here : length (bucket_of t i) ≡ 0 = ground arith in
            (
              b,
              rw (counts, t.items, here, y)
                  (ap (λ o. empty_from rounds (i + 1) o) (sym t.items) ∙ run),
              (λ q. let r = forth q in omega arith, λ q. back (omega arith)),
            )
        | inr n ↦
            let some_here : 0 < length (bucket_of t i) = ground arith in
            (false, rw (t.items, here, n) refl, (λ q. absurd (clash q), λ q. absurd (omega arith)))
      ]
    where
      clash : false ≡ true → ⊥
      clash q = cc

  -- On a loaded unique table of fewer than 2^31 buckets `empty`, whose loop counts with an `int`,
  -- is defined, and it is true exactly when no bucket has a pair.
  pub empty_lem :
      u.size < 2 ^ 31
      → (b : Bool) × (empty u ≡ some b) × ((b ≡ true) ↔ (length (flatten t.buckets) ≡ 0))
  unfolding empty Answers
  empty_lem small =
      let same = ap (λ (l : List (K × E)). length l) (flatten-remaining t.buckets) in
      let (b, run, (forth, back)) = empty_from_lem u.size 0 small (omega arith) in
      (b, run, (λ q. let r = forth q in omega arith, λ q. back (omega arith)))
