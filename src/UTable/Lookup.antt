-- ===== src/UTable/Lookup.antt =====
-- The unique table as a map: what `find` answers after `load` and after `add`.
use ibdd.Prelude.{
  ℕ, ◌%◌, ◌<◌, ◌≡◌, ◌≢◌, refl, sym, inl, inr, false, Option, none, some, List, [], ◌∷◌, ◌++◌, arith,
  ◌==◌, Bool-cases, length, get_elem?, get_or, set, replicate, length-set, length-replicate,
  get_elem?-eq-some, get_or-set_self, get_or-set_ne, get_or-replicate, ◌∙◌, ap,
}
use native.Mathlib.Decide.{ℕ_discrete}
use ibdd.Hashing.{Hashing, equal_self, equal_of_ne}
use ibdd.UTable.{Bucket, UTable, load, get_key, find_in, find, add}

-- A table that `load` has given buckets: one for each hash code below its size.
pub record IsLoaded {ℓ} {K E : Type ℓ} (u : UTable K E) : Type ℓ where
  pub buckets : List (Bucket K E)
  pub items : u.items ≡ some buckets
  pub size : length buckets ≡ u.size
  pub nonempty : 0 < u.size

module _ {ℓ} {K E : Type ℓ} where
  unfoldable pub load-IsLoaded : (size : ℕ) (u : UTable K E) → 0 < size → IsLoaded (load size u)
  unfolding load
  load-IsLoaded size u h = record {
    buckets = replicate size [];
    items = refl;
    size = length-replicate size [];
    nonempty = h;
  }

module _ {ℓ} {K E : Type ℓ} (keys : Hashing K) where
  find_in-append_self :
      (k : K) (v : E) (b : Bucket K E)
      → find_in keys k b ≡ none
      → find_in keys k (b ++ (k, v) ∷ []) ≡ some v
  unfolding find_in
  find_in-append_self k v [] e = rw (equal_self keys k)
  find_in-append_self k v (x ∷ b) e = elim (Bool-cases (keys.equal x.0 k)) [
    | inl y ↦ absurd (some-ne-none (rw y at e))
    | inr y ↦ rw y (find_in-append_self k v b (rw y at e))
  ]
    where
      some-ne-none : some x.1 ≢ none
      some-ne-none e = cc

  pub find_in-append_ne :
      (k j : K) (v : E) (b : Bucket K E)
      → k ≢ j
      → find_in keys j (b ++ (k, v) ∷ []) ≡ find_in keys j b
  unfolding find_in
  find_in-append_ne k j v [] h = rw (equal_of_ne keys k j h)
  find_in-append_ne k j v (x ∷ b) h = rw (find_in-append_ne k j v b h)

  -- After `load` with a positive size, `find` is defined and finds no key.
  pub find-load :
      (size : ℕ) (u : UTable K E) (k : K) → 0 < size → find keys (load size u) k ≡ some none
  unfolding find load find_in
  find-load size u k h =
      let slot = keys.hash k % size in
      let full : get_elem? (replicate {A = Bucket K E} size []) slot ≡ some [] =
        get_elem?-eq-some _ slot [] (rw (length-replicate {A = Bucket K E} size []) (omega arith))
        ∙ ap some (get_or-replicate size slot []) in
      rw (get_key_at, full)
    where
      get_key_at : (size == 0) ≡ false
      get_key_at = ground arith

module _ {ℓ} {K E : Type ℓ} (keys : Hashing K) {u : UTable K E} (t : IsLoaded u) where
  abbrev pub slot_of : K → ℕ
  slot_of k = keys.hash k % u.size

  abbrev pub bucket_of : K → Bucket K E
  bucket_of k = get_or t.buckets (slot_of k) []

  pub slot_of-lt : (k : K) → slot_of k < length t.buckets
  slot_of-lt k = let h = t.nonempty in let e = t.size in omega arith

  pub get_key_lem : (k : K) → get_key keys u k ≡ some (slot_of k)
  unfolding get_key
  get_key_lem k = let h = t.nonempty in ground arith

  pub get_bucket : (k : K) → get_elem? t.buckets (slot_of k) ≡ some (bucket_of k)
  get_bucket k = get_elem?-eq-some t.buckets (slot_of k) [] (slot_of-lt k)

  pub find_lem : (k : K) → find keys u k ≡ some (find_in keys k (bucket_of k))
  unfolding find
  find_lem k = rw (get_key_lem k, t.items, get_bucket k)

  -- `find` on a loaded table is defined.
  pub find_total : (k : K) → (o : Option E) × (find keys u k ≡ some o)
  find_total k = (find_in keys k (bucket_of k), find_lem k)

  abbrev pub added : K → E → UTable K E
  added k v = record u { items = some (set t.buckets (slot_of k) (bucket_of k ++ (k, v) ∷ [])) }

  unfoldable pub added-IsLoaded : (k : K) (v : E) → IsLoaded (added k v)
  added-IsLoaded k v = record {
    buckets = set t.buckets (slot_of k) (bucket_of k ++ (k, v) ∷ []);
    items = refl;
    size = length-set t.buckets (slot_of k) (bucket_of k ++ (k, v) ∷ []) ∙ t.size;
    nonempty = t.nonempty;
  }

module _ {ℓ} {K E : Type ℓ} (keys : Hashing K) {u : UTable K E} (t : IsLoaded u) where
  pub find-added_key :
      (k : K) (v : E)
      → find keys (added keys t k v) k ≡ some (find_in keys k (bucket_of keys t k ++ (k, v) ∷ []))
  unfolding added-IsLoaded
  find-added_key k v =
      let b = bucket_of keys t k in
      let slot : get_or (set t.buckets (slot_of keys t k) (b ++ (k, v) ∷ [])) (slot_of keys t k) []
          ≡ b ++ (k, v) ∷ [] =
        get_or-set_self t.buckets (slot_of keys t k) (b ++ (k, v) ∷ []) [] (slot_of-lt keys t k) in
      find_lem keys (added-IsLoaded keys t k v) k ∙ ap (λ l. some (find_in keys k l)) slot

  find-added_self :
      (k : K) (v : E) → find keys u k ≡ some none → find keys (added keys t k v) k ≡ some (some v)
  find-added_self k v e =
      let b = bucket_of keys t k in
      let absent : find_in keys k b ≡ none = cc (e, find_lem keys t k) in
      find-added_key k v ∙ ap some (find_in-append_self keys k v b absent)

  pub find-added_ne : (k j : K) (v : E) → k ≢ j → find keys (added keys t k v) j ≡ find keys u j
  unfolding added-IsLoaded
  find-added_ne k j v h =
      let i = slot_of keys t k in
      let b = bucket_of keys t k in
      let same : find_in keys j (get_or (set t.buckets i (b ++ (k, v) ∷ [])) (slot_of keys t j) [])
          ≡ find_in keys j (bucket_of keys t j) =
        elim (ℕ_discrete i (slot_of keys t j)) [
          | yes e ↦ rw (← e) (
              rw (get_or-set_self t.buckets i (b ++ (k, v) ∷ []) [] (slot_of-lt keys t k))
                (find_in-append_ne keys k j v (bucket_of keys t k) h))
          | no n ↦
              ap (find_in keys j)
                (get_or-set_ne t.buckets i (slot_of keys t j) (b ++ (k, v) ∷ []) [] n)
        ] in
      find_lem keys (added-IsLoaded keys t k v) j ∙ ap some same ∙ sym (find_lem keys t j)

pub add_run {ℓ} :
    {K E : Type ℓ} (keys : Hashing K) {u : UTable K E} (t : IsLoaded u) (k : K) (v : E)
    → add keys u k v ≡ some (added keys t k v)
unfolding add
add_run keys t k v = rw (get_key_lem keys t k, t.items, get_bucket keys t k)

-- On a loaded unique table `add` is defined and leaves a loaded table; if the key was absent,
-- `find` returns its value, and every other key has the answer it had.
pub add_lem {ℓ} :
    {K E : Type ℓ} (keys : Hashing K) {u : UTable K E}
    → IsLoaded u
    → (k : K) (v : E)
    → (u' : UTable K E) × (add keys u k v ≡ some u')
      × IsLoaded u'
      × (find keys u k ≡ some none → find keys u' k ≡ some (some v))
      × ((j : K) → k ≢ j → find keys u' j ≡ find keys u j)
add_lem keys t k v = (
  added keys t k v,
  add_run keys t k v,
  added-IsLoaded keys t k v,
  find-added_self keys t k v,
  λ j. find-added_ne keys t k j v,
)
