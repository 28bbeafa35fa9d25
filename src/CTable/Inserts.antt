-- ===== src/CTable/Inserts.antt =====
-- The computed table refines the list of its insertions: it may forget them, but invents nothing.
use ibdd.Prelude.{
  ℕ, ◌%◌, ◌<◌, ◌≡◌, ◌≢◌, ◌⊎◌, refl, sym, ◌∙◌, ap, subst, inl, inr, false, Option, none, some, List,
  [], ◌∷◌, Bool-cases, Option-cases, if◌then◌else◌, length, get_elem?, get_or, length-set,
  get_elem?-eq-some, get_or-set_self, get_or-set_ne,
}
use native.Mathlib.Decide.{ℕ_discrete}
use ibdd.CTable.Slots.{
  Holds, load-Holds, has_next_lem, get_key_lem, slot_of-lt, written, inserted, insert_run,
  inserted-Holds, inserted_hit,
}
use ibdd.CTable.{CTable, load, get_key, has_next, insert}
use ibdd.Hashing.{Hashing, equal_of_ne}
use ibdd.Partial.{◌>>=◌}
use ibdd.UTable.{find_in}

module _ {ℓ} {K E : Type ℓ} (keys : Hashing K) where
  -- `insert` of each pair of a list, the last one first
  unfoldable pub insert_all : List (K × E) → CTable K E → Option (CTable K E)
  insert_all [] c = some c
  insert_all (item ∷ earlier) c = do c' ← insert_all earlier c; insert keys c' item.0 item.1

  abbrev IsAny : K × E → Type 0
  IsAny a = Unit

  -- An insertion takes an entry of another key away, or leaves it.
  module _ {c : CTable K E} (t : Holds IsAny c) (k j : K) (v : E) (ne : k ≢ j) where
    abbrev pos : ℕ
    pos = keys.hash j % c.size

    abbrev slots : List (K × E)
    slots = written keys IsAny t k v

    has_next_at :
        (item : K × E)
        → get_elem? slots pos ≡ some item
        → has_next keys (inserted keys IsAny t k v) j
          ≡ some (if keys.equal j item.0 then some item.1 else none)
    unfolding has_next
    has_next_at item here =
        let key : get_key keys (inserted keys IsAny t k v) j ≡ some pos =
          get_key_lem keys IsAny t j in
        rw (key, here) refl

    pos-lt : pos < length slots
    pos-lt = rw (length-set t.slots (keys.hash k % c.size) (k, v)) (slot_of-lt keys IsAny t j)

    inserted_other :
        (has_next keys (inserted keys IsAny t k v) j ≡ some none)
        ⊎ (has_next keys (inserted keys IsAny t k v) j ≡ has_next keys c j)
    unfolding has_next
    inserted_other =
        let i = keys.hash k % c.size in
        let here = get_elem?-eq-some slots pos (j, v) pos-lt in
        elim (ℕ_discrete i pos) [
          | yes e ↦ inl (
              has_next_at (k, v)
                (here
                  ∙ ap (λ p. some (get_or slots p (j, v))) (sym e)
                  ∙ ap some (get_or-set_self t.slots i (k, v) (j, v) (slot_of-lt keys IsAny t k)))
              ∙ rw (equal_of_ne keys j k (λ q. ne (sym q))) refl)
          | no n ↦ inr (
              let before = get_elem?-eq-some t.slots pos (j, v) (slot_of-lt keys IsAny t j) in
              has_next_at (get_or t.slots pos (j, v))
                (here ∙ ap some (get_or-set_ne t.slots i pos (k, v) (j, v) n))
              ∙ sym (rw (get_key_lem keys IsAny t j, t.items, before) refl))
        ]

  -- A miss, or the value that the latest insertion of the key has given.
  abbrev pub IsLatest : K → List (K × E) → CTable K E → Type ℓ
  IsLatest k items c =
      (has_next keys c k ≡ some none)
      ⊎ ((v : E) × (has_next keys c k ≡ some (some v)) × (find_in keys k items ≡ some v))

  inserted-IsLatest :
      {c : CTable K E} (t : Holds IsAny c) (k j : K) (v : E) (items : List (K × E))
      → IsLatest j items c
      → IsLatest j ((k, v) ∷ items) (inserted keys IsAny t k v)
  unfolding find_in
  inserted-IsLatest t k j v items h = elim (Bool-cases (keys.equal k j)) [
    | inl y ↦
        let here = (keys.equal_iff k j).0 y in
        inr (
          v,
          subst (λ x. has_next keys (inserted keys IsAny t k v) x ≡ some (some v)) here
              (inserted_hit keys IsAny t k v),
          rw y refl,
        )
    | inr n ↦ elim (inserted_other t k j v (apart n)) [
      | inl gone ↦ inl gone
      | inr same ↦ elim h [
        | inl miss ↦ inl (same ∙ miss)
        | inr (u, hit, latest) ↦ inr (u, same ∙ hit, rw n latest)
      ]
    ]
  ]
    where
      apart : keys.equal k j ≡ false → k ≢ j
      apart n e = let y = (keys.equal_iff k j).1 e in cc

  insert_all-IsLatest :
      (items : List (K × E)) {c : CTable K E} (k : K)
      → Holds IsAny c
      → has_next keys c k ≡ some none
      → (c' : CTable K E) × (insert_all items c ≡ some c') × Holds IsAny c' × IsLatest k items c'
  unfolding insert_all
  insert_all-IsLatest [] {c} k t miss = (c, refl, t, inl miss)
  insert_all-IsLatest ((j, v) ∷ items) k t miss =
      let (c', run, t', h) = insert_all-IsLatest items k t miss in
      (
        inserted keys IsAny t' j v,
        rw run (insert_run keys IsAny t' j v),
        inserted-Holds keys IsAny t' j v tt,
        inserted-IsLatest t' j k v items h,
      )

  load_misses :
      (stale : ℕ → K) (nought : E) (size : ℕ) (c : CTable K E) (k : K)
      → 0 < size
      → ((j : ℕ) → stale j ≢ k)
      → has_next keys (load stale nought size c) k ≡ some none
  load_misses stale nought size c k pos apart =
      let fresh = load-Holds (λ (a : K × E). a.0 ≢ k) stale nought size c pos apart in
      let (o, run, only) = has_next_lem keys (λ (a : K × E). a.0 ≢ k) fresh k nought in
      elim (Option-cases o) [ inl e ↦ run ∙ ap some e | inr (v, e) ↦ absurd (only v e refl) ]

  -- After `load` with a positive size and `insert` of each pair of a list, which are all defined,
  -- `hasNext` of a key that no uninitialised entry has misses, or returns the value of the latest
  -- pair of the list with the key.
  pub load-insert_all :
      (stale : ℕ → K) (nought : E) (size : ℕ) (c : CTable K E) (items : List (K × E)) (k : K)
      → 0 < size
      → ((j : ℕ) → stale j ≢ k)
      → (c' : CTable K E) × (insert_all items (load stale nought size c) ≡ some c')
        × IsLatest k items c'
  load-insert_all stale nought size c items k pos apart =
      let (c', run, t, h) =
        insert_all-IsLatest items k (load-Holds IsAny stale nought size c pos (λ j. tt))
          (load_misses stale nought size c k pos apart) in
      (c', run, h)
