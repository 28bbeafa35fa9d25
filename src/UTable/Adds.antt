-- ===== src/UTable/Adds.antt =====
-- The unique table refines a list of pairs: hashing changes no answer.
use mathlib.Core.List.{append_assoc}
use mathlib.Core.Option.{some-injective}
use ibdd.Prelude.{
  ℕ, ◌^◌, ◌<◌, ◌≤◌, ◌≡◌, refl, sym, ◌∙◌, ap, subst, inl, inr, false, Option, none, some, List, [],
  ◌∷◌, ◌++◌, arith, Bool-cases, length, length-append, get_or, get_or-set_self, get_or-set_ne,
  get_or-replicate,
}
use native.Mathlib.Decide.{ℕ_discrete}
use ibdd.Hashing.{Hashing}
use ibdd.Partial.{◌>>=◌}
use ibdd.UTable.Counted.{find_counted, find_counted_lem}
use ibdd.UTable.Lookup.{
  IsLoaded, load-IsLoaded, slot_of, slot_of-lt, added, added-IsLoaded, bucket_of, find_lem,
  find-load, find-added_key, find-added_ne, find_in-append_ne, add_run,
}
use ibdd.UTable.{Bucket, UTable, load, find_in, find, add}

module _ {ℓ} {K E : Type ℓ} (keys : Hashing K) where
  -- `add` of each pair of a list
  unfoldable pub add_all : List (K × E) → UTable K E → Option (UTable K E)
  add_all [] u = some u
  add_all (item ∷ items) u = do u' ← add keys u item.0 item.1; add_all items u'

  -- The table without a counter answers every key as the list does: by its first pair with the key.
  Answers : UTable K E → List (K × E) → Type ℓ
  Answers u items = (k : K) → find keys u k ≡ some (find_in keys k items)

  -- So does the table with the counter of the loop.
  abbrev pub Finds : UTable K E → List (K × E) → Type ℓ
  Finds u items = (k : K) → find_counted keys u k ≡ some (find_in keys k items)

  -- No bucket has more pairs than the list.
  IsWithin : {u : UTable K E} → IsLoaded u → List (K × E) → Type 0
  IsWithin t items = (i : ℕ) → length (get_or t.buckets i []) ≤ length items

  or_else : Option E → Option E → Option E
  or_else none b = b
  or_else (some a) b = some a

  find_in-append :
      (k : K) (xs ys : List (K × E))
      → find_in keys k (xs ++ ys) ≡ or_else (find_in keys k xs) (find_in keys k ys)
  unfolding find_in or_else
  find_in-append k [] ys = refl
  find_in-append k (x ∷ xs) ys = elim (Bool-cases (keys.equal x.0 k)) [
    | inl y ↦ rw y refl
    | inr n ↦ rw n (find_in-append k xs ys)
  ]

  added-Answers :
      {u : UTable K E} (t : IsLoaded u) (items : List (K × E)) (k : K) (v : E)
      → Answers u items
      → Answers (added keys t k v) (items ++ (k, v) ∷ [])
  unfolding Answers
  added-Answers t items k v h j = elim (Bool-cases (keys.equal k j)) [
    | inl y ↦
        let here = (keys.equal_iff k j).0 y in
        subst (λ x. find keys (added keys t k v) x ≡ some (find_in keys x (items ++ (k, v) ∷ [])))
          here same
    | inr n ↦
        find-added_ne keys t k j v (λ e. clash j n e)
        ∙ h j
        ∙ ap some (sym (find_in-append_ne keys k j v items (λ e. clash j n e)))
  ]
    where
      clash : (j : K) → keys.equal k j ≡ false → k ≡ j → ⊥
      clash j n e = let y = (keys.equal_iff k j).1 e in cc

      same : find keys (added keys t k v) k ≡ some (find_in keys k (items ++ (k, v) ∷ []))
      same =
          let b = bucket_of keys t k in
          let before : find_in keys k b ≡ find_in keys k items =
            some-injective _ _ (sym (find_lem keys t k) ∙ h k) in
          find-added_key keys t k v
          ∙ ap some (
              find_in-append k b ((k, v) ∷ [])
              ∙ ap (λ o. or_else o (find_in keys k ((k, v) ∷ []))) before
              ∙ sym (find_in-append k items ((k, v) ∷ [])))

  added-IsWithin :
      {u : UTable K E} (t : IsLoaded u) (items : List (K × E)) (k : K) (v : E)
      → IsWithin t items
      → IsWithin (added-IsLoaded keys t k v) (items ++ (k, v) ∷ [])
  unfolding IsWithin added-IsLoaded
  added-IsWithin t items k v h i =
      let slot = slot_of keys t k in
      let b = bucket_of keys t k in
      let one_more = length-append items ((k, v) ∷ []) in
      let le = h i in
      elim (ℕ_discrete slot i) [
        | yes e ↦
            let here = get_or-set_self t.buckets slot (b ++ (k, v) ∷ []) [] (slot_of-lt keys t k) in
            let longer = length-append b ((k, v) ∷ []) in
            let before = h slot in rw (← e) (rw here (omega arith))
        | no n ↦ rw (get_or-set_ne t.buckets slot i (b ++ (k, v) ∷ []) [] n) (omega arith)
      ]

  -- What each `add` keeps of a table and the list of its pairs holds after all of them.
  pub add_all-induct {κ} :
      (P : (u : UTable K E) → IsLoaded u → List (K × E) → Type κ)
      → ((u : UTable K E) (t : IsLoaded u) (before : List (K × E)) (k : K) (v : E)
          → P u t before
          → P (added keys t k v) (added-IsLoaded keys t k v) (before ++ (k, v) ∷ []))
      → (items : List (K × E)) {u : UTable K E} (t : IsLoaded u) (before : List (K × E))
      → P u t before
      → (u' : UTable K E) × (t' : IsLoaded u') × (add_all items u ≡ some u')
        × P u' t' (before ++ items)
  unfolding add_all
  add_all-induct P step [] {u} t before h = (u, t, refl, subst (P u t) (append_nil before) h)
    where
      append_nil : (l : List (K × E)) → l ≡ l ++ []
      append_nil [] = refl
      append_nil (x ∷ l) = ap (λ r. x ∷ r) (append_nil l)
  add_all-induct P step ((k, v) ∷ items) {u} t before h =
      let (u', t', run, holds) =
        add_all-induct P step items (added-IsLoaded keys t k v) (before ++ (k, v) ∷ [])
          (step u t before k v h) in
      (
        u',
        t',
        rw (add_run keys t k v) run,
        subst (P u' t') (append_assoc before ((k, v) ∷ []) items) holds,
      )

  -- After `load` with a positive size and `add` of each pair of a list of fewer than 2^31 pairs,
  -- which are all defined, `find`, whose loop counts with an `int`, is defined and answers every
  -- key by the first pair of the list with the key, if there is one.
  pub load-add_all :
      (size : ℕ) (u : UTable K E) (items : List (K × E))
      → 0 < size
      → length items < 2 ^ 31
      → (u' : UTable K E) × (add_all items (load size u) ≡ some u') × Finds u' items
  unfolding find_in Answers IsWithin load-IsLoaded
  load-add_all size u items pos small =
      let (u', t', run, (answers, within)) =
        add_all-induct (λ w t l. Answers w l × IsWithin t l)
          (λ w t before k v (a, i). (added-Answers t before k v a, added-IsWithin t before k v i))
          items (load-IsLoaded size u pos) []
          (
            λ k. find-load keys size u k pos,
            λ i. rw (get_or-replicate {A = Bucket K E} size i []) (omega arith),
          ) in
      (
        u',
        run,
        λ k.
            find_counted_lem keys t' k (let le = within (slot_of keys t' k) in omega arith)
            ∙ sym (find_lem keys t' k)
            ∙ answers k,
      )
