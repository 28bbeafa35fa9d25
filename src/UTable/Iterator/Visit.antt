-- ===== src/UTable/Iterator/Visit.antt =====
-- A loop with the iterator passes through every pair of the table, bucket by bucket.
use ibdd.Prelude.{
  ℕ, zero, suc, ◌+◌, ◌<◌, ◌≡◌, ◌⊎◌, refl, sym, ◌∙◌, ap, subst, inl, inr, true, false, Option, none,
  some, List, [], ◌∷◌, ◌++◌, arith, ltb, leb, ◌==◌, Bool-cases, length, get_or, get_elem?-eq-some,
}
use native.Mathlib.Decide.{dec_lt}
use ibdd.Partial.{◌>>=◌}
use ibdd.UTable.{Bucket, UTable}
use ibdd.UTable.Lookup.{IsLoaded}
use ibdd.UTable.Iterator.{at, deref, skip, next, equal, end, skip_empty, begin, visit}
use ibdd.UTable.Iterator.Remaining.{
  drop, flatten, remaining, flatten-remaining, remaining-next, remaining-end, drop_next, drop_all,
  empty_list,
}

plus_one : (n : ℕ) → suc n ≡ n + 1
plus_one n = omega arith

clash : (n : ℕ) → 0 < n → n ≡ 0 → ⊥
clash n h e = omega arith

module _ {ℓ} {K E : Type ℓ} {u : UTable K E} (t : IsLoaded u) where
  abbrev pub bucket_of : ℕ → Bucket K E
  bucket_of v = get_or t.buckets v []

  abbrev pub from : ℕ → ℕ → List (K × E)
  from v l = remaining t.buckets v l

  at_lem : (v : ℕ) → v < u.size → at u v ≡ some (bucket_of v)
  unfolding at
  at_lem v h = rw t.items (get_elem?-eq-some t.buckets v [] (let e = t.size in omega arith))

  pub from_next : (v l : ℕ) → v < u.size → from v l ≡ drop l (bucket_of v) ++ from (v + 1) 0
  from_next v l h =
      remaining-next t.buckets v l (let e = t.size in omega arith)
      ∙ ap (λ n. drop l (bucket_of v) ++ from n 0) (plus_one v)

  -- where an iterator stands: at a pair, or at the end
  IsAt : ℕ → ℕ → Type 0
  IsAt v l = ((v < u.size) × (l < length (bucket_of v))) ⊎ ((v ≡ u.size) × (l ≡ 0))

  -- a slot at which the loops stop: the first with a pair, from the slot v on, or the end
  Stops : ℕ → ℕ → Type ℓ
  Stops v w = IsAt w 0 × (from v 0 ≡ from w 0)

  -- the slot and the position after a step over the pair x
  Moves : (v l : ℕ) → K × E → Type ℓ
  Moves v l x =
      (w : ℕ) × (k : ℕ) × (next u (record { value = v; last = l })
        ≡ some (record { value = w; last = k }))
      × IsAt w k
      × (from v l ≡ x ∷ from w k)

  skip_lem :
      (rounds v : ℕ)
      → v < u.size
      → u.size < v + rounds + 1
      → (w : ℕ) × (skip u rounds v ≡ some w) × Stops (v + 1) w
  unfolding skip Stops IsAt
  skip_lem zero v h r = absurd (omega arith)
  skip_lem (suc rounds) v h r = elim (Bool-cases (ltb (v + 1) u.size)) [
    | inl y ↦ inside (λ lt. skip_lem rounds (v + 1) lt (omega arith)) (ground arith) y
    | inr n ↦
        let last : u.size ≡ v + 1 = ground arith in
        (v + 1, rw n refl, (inr (omega arith, refl), refl))
  ]
    where
      inside :
          (v + 1 < u.size → (w : ℕ) × (skip u rounds (v + 1) ≡ some w) × Stops (v + 1 + 1) w)
          → v + 1 < u.size
          → ltb (v + 1) u.size ≡ true
          → (w : ℕ) × (skip u (suc rounds) v ≡ some w) × Stops (v + 1) w
      inside next_lem lt y = elim (Bool-cases (length (bucket_of (v + 1)) == 0)) [
        | inl e ↦
            let (w, run, (here, same)) = next_lem lt in
            (
              w,
              rw (y, at_lem (v + 1) lt, e) run,
              (
                here,
                from_next (v + 1) 0 (omega arith)
                    ∙ ap (λ b. b ++ from (v + 1 + 1) 0) (empty_list (bucket_of (v + 1)) e)
                    ∙ same,
              ),
            )
        | inr e ↦ (v + 1, rw (y, at_lem (v + 1) lt, e) refl, (inl (lt, ground arith), refl))
      ]

  -- the loop of `begin`, up to the first slot with a pair
  skip_empty_lem :
      (rounds v : ℕ)
      → u.size < v + rounds
      → 0 < length (from v 0)
      → (w : ℕ) × (skip_empty u rounds v ≡ some w) × Stops v w
  unfolding skip_empty Stops IsAt
  skip_empty_lem zero v r h =
      absurd (nothing (remaining-end t.buckets v (let e = t.size in omega arith)))
    where
      nothing : from v 0 ≡ [] → ⊥
      nothing e = clash (length (from v 0)) h (ap (λ (l : List (K × E)). length l) e)
  skip_empty_lem (suc rounds) v r h = elim (dec_lt v u.size) [
    | no beyond ↦ absurd (nothing (remaining-end t.buckets v (let e = t.size in omega arith)))
    | yes lt ↦ elim (Bool-cases (length (bucket_of v) == 0)) [
      | inr e ↦ (v, rw (at_lem v lt, e) refl, (inl (lt, ground arith), refl))
      | inl e ↦
          let same =
            from_next v 0 lt ∙ ap (λ b. b ++ from (v + 1) 0) (empty_list (bucket_of v) e) in
          let (w, run, (here, rest)) =
            skip_empty_lem rounds (v + 1) (omega arith)
              (subst (λ (l : List (K × E)). 0 < length l) same h) in
          (w, rw (at_lem v lt, e) run, (here, same ∙ rest))
    ]
  ]
    where
      nothing : from v 0 ≡ [] → ⊥
      nothing e = clash (length (from v 0)) h (ap (λ (l : List (K × E)). length l) e)

  -- one step of the loop, at a pair
  step_lem :
      (v l : ℕ)
      → v < u.size
      → l < length (bucket_of v)
      → (x : K × E) × (deref u (record { value = v; last = l }) ≡ some x) × Moves v l x
  unfolding Moves deref next IsAt Stops
  step_lem v l h i =
      let (x, here, cut') = drop_next (bucket_of v) l i in
      let cut = cut' ∙ ap (λ n. x ∷ drop n (bucket_of v)) (plus_one l) in
      let inside : ltb u.size v ≡ false = ground arith in
      let split = from_next v l h ∙ ap (λ b. b ++ from (v + 1) 0) cut in
      (
        x,
        rw (at_lem v h) here,
        elim (Bool-cases (leb (length (bucket_of v)) (l + 1))) [
          | inl y ↦
              let (w, run, (at_w, same)) = skip_lem (u.size + 1) v h (omega arith) in
              (
                w,
                0,
                rw (inside, at_lem v h, y, run) refl,
                at_w,
                split
                    ∙ ap (λ b. x ∷ (b ++ from (v + 1) 0))
                        (drop_all (bucket_of v) (l + 1) (ground arith))
                    ∙ ap (λ r. x ∷ r) same,
              )
          | inr n ↦ (
            v,
            l + 1,
            rw (inside, at_lem v h, n) refl,
            inl (h, ground arith),
            split ∙ ap (λ r. x ∷ r) (sym (from_next v (l + 1) h)),
          )
        ],
      )

  visit_lem :
      (rounds v l : ℕ)
      → IsAt v l
      → length (from v l) < rounds
      → visit u rounds (record { value = v; last = l }) ≡ some (from v l)
  unfolding visit equal end IsAt step_lem Moves
  visit_lem zero v l p h = absurd (omega arith)
  visit_lem (suc rounds) v l (inr (e, z)) h =
      let same : (v == u.size) ≡ true = ground arith in
      let first : (l == 0) ≡ true = ground arith in
      let nothing = ap (from v) z ∙ remaining-end t.buckets v (let size = t.size in omega arith) in
      rw (same, first) (ap some (sym nothing))
  visit_lem (suc rounds) v l (inl (lt, i)) h =
      let (x, here, (w, k, run, at_w, same)) = step_lem v l lt i in
      let before_end : (v == u.size) ≡ false = ground arith in
      let fewer : length (from w k) < rounds =
        let e = ap (λ (r : List (K × E)). length r) same in omega arith in
      rw (before_end, here, run, visit_lem rounds w k at_w fewer) (ap some (sym same))

  begin_lem :
      (w : ℕ)
      → skip_empty u (u.size + 1) 0 ≡ some w
      → begin u ≡ some (record { value = w; last = 0 })
  unfolding begin
  begin_lem w run =
      ap
        (λ (o : Option (List (Bucket K E))). elim o [
          | none ↦ some (end u)
          | some b ↦ do pos ← skip_empty u (u.size + 1) 0; some (record { value = pos; last = 0 })
        ])
        t.items
      ∙ rw run refl

  -- On a loaded unique table that holds a pair, the loop from `begin` to `end`, with a round for
  -- each pair and one more, passes through all pairs, bucket by bucket and each bucket in its
  -- order.
  pub visit-begin :
      0 < length (flatten t.buckets)
      → (begin u >>= visit u (length (flatten t.buckets) + 1)) ≡ some (flatten t.buckets)
  unfolding Stops
  visit-begin h =
      let all = flatten-remaining t.buckets in
      let (w, run, (at_w, same)) =
        skip_empty_lem (u.size + 1) 0 (omega arith)
          (subst (λ (r : List (K × E)). 0 < length r) all h) in
      let whole = all ∙ same in
      rw (begin_lem w run) (
        visit_lem (length (flatten t.buckets) + 1) w 0 at_w
          (let e = ap (λ (r : List (K × E)). length r) whole in omega arith)
        ∙ ap some (sym whole))
