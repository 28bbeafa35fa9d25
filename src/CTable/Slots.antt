-- ===== src/CTable/Slots.antt =====
-- The computed table as a set of entries: a hit is an entry, and `insert` adds no other.
use ibdd.Prelude.{
  ℕ, zero, suc, ◌+◌, ◌%◌, ◌<◌, ◌≡◌, refl, inl, inr, false, Option, none, some, List, arith, ◌==◌,
  Bool-cases, if◌then◌else◌, length, get_elem?, get_or, set, length-set, get_elem?-eq-some,
  get_or-set_self, All, All-set, All-get, All-map, ◌∙◌, ap, sym, subst,
}
use mathlib.Core.Option.{some-injective}
use ibdd.Hashing.{Hashing, equal_self}
use ibdd.CTable.{CTable, fresh_items, load, get_key, has_next, insert}

-- A table that `load` has given entries, each of which satisfies `P`.
pub record Holds {ℓ κ} {K E : Type ℓ} (P : K × E → Type κ) (c : CTable K E) : Type (ℓ ⊔ κ) where
  pub slots : List (K × E)
  pub items : c.items ≡ some slots
  pub size : length slots ≡ c.size
  pub nonempty : 0 < c.size
  pub entries : All P slots

module _ {ℓ} {K E : Type ℓ} where
  length-fresh_items :
      (stale : ℕ → K) (nought : E) (n i : ℕ) → length (fresh_items stale nought n i) ≡ n
  unfolding fresh_items
  length-fresh_items stale nought zero i = refl
  length-fresh_items stale nought (suc n) i = ap suc (length-fresh_items stale nought n (i + 1))

module _ {ℓ κ} {K E : Type ℓ} (P : K × E → Type κ) where
  All-fresh_items :
      (stale : ℕ → K) (nought : E) (n i : ℕ)
      → ((j : ℕ) → P (stale j, nought))
      → All P (fresh_items stale nought n i)
  unfolding fresh_items
  All-fresh_items stale nought zero i h = tt
  All-fresh_items stale nought (suc n) i h = (h i, All-fresh_items stale nought n (i + 1) h)

  -- `load` leaves stale keys with null values.
  pub load-Holds :
      (stale : ℕ → K) (nought : E) (size : ℕ) (c : CTable K E)
      → 0 < size
      → ((j : ℕ) → P (stale j, nought))
      → Holds P (load stale nought size c)
  unfolding load
  load-Holds stale nought size c h fresh = record {
    slots = fresh_items stale nought size 0;
    items = refl;
    size = length-fresh_items stale nought size 0;
    nonempty = h;
    entries = All-fresh_items stale nought size 0 fresh;
  }

  pub Holds-map :
      (Q : K × E → Type κ) {c : CTable K E} → ((a : K × E) → P a → Q a) → Holds P c → Holds Q c
  Holds-map Q f t = record {
    slots = t.slots;
    items = t.items;
    size = t.size;
    nonempty = t.nonempty;
    entries = All-map P Q t.slots f t.entries;
  }

module _ {ℓ κ} {K E : Type ℓ} (keys : Hashing K) (P : K × E → Type κ) {c : CTable K E}
    (t : Holds P c) (k : K) where
  pub slot_of-lt : keys.hash k % c.size < length t.slots
  slot_of-lt = let h = t.nonempty in let e = t.size in omega arith

  pub get_key_lem : get_key keys c k ≡ some (keys.hash k % c.size)
  unfolding get_key
  get_key_lem = let h = t.nonempty in ground arith

  -- On a computed table whose entries have a property, a lookup is defined, and the value of a
  -- hit has the property with the key that was looked up.
  pub has_next_lem :
      (nought : E)
      → (o : Option E) × (has_next keys c k ≡ some o) × ((v : E) → o ≡ some v → P (k, v))
  unfolding has_next
  has_next_lem nought =
      let i = keys.hash k % c.size in
      let item = get_or t.slots i (k, nought) in
      let here = get_elem?-eq-some t.slots i (k, nought) slot_of-lt in
      let p : P item = All-get P t.slots i (k, nought) t.entries slot_of-lt in
      (
        (if keys.equal k item.0 then some item.1 else none),
        rw (get_key_lem, t.items, here),
        λ v e. elim (Bool-cases (keys.equal k item.0)) [
          | inl y ↦ hit item p ((keys.equal_iff k item.0).0 y) v (rw y at e)
          | inr n ↦ absurd (miss v (rw n at e))
        ],
      )
    where
      hit : (a : K × E) → P a → k ≡ a.0 → (v : E) → some a.1 ≡ some v → P (k, v)
      hit a p e v q = subst P (λ i. (sym e i, some-injective a.1 v q i)) p

      miss : (v : E) → none ≡ some v → ⊥
      miss v e = cc

  size_ne_zero : (c.size == 0) ≡ false
  size_ne_zero = let h = t.nonempty in ground arith

  -- the slots, and the table, after `insert`
  abbrev pub written : E → List (K × E)
  written v = set t.slots (keys.hash k % c.size) (k, v)

  abbrev pub inserted : E → CTable K E
  inserted v = record c { items = some (written v) }

  pub insert_run : (v : E) → insert keys c k v ≡ some (inserted v)
  unfolding insert
  insert_run v =
      let i = keys.hash k % c.size in
      let here = get_elem?-eq-some t.slots i (k, v) slot_of-lt in rw (get_key_lem, t.items, here)

  pub inserted-Holds : (v : E) → P (k, v) → Holds P (inserted v)
  inserted-Holds v p = record {
    slots = written v;
    items = refl;
    size = length-set t.slots (keys.hash k % c.size) (k, v) ∙ t.size;
    nonempty = t.nonempty;
    entries = All-set P t.slots (keys.hash k % c.size) (k, v) t.entries p;
  }

  pub inserted_hit : (v : E) → has_next keys (inserted v) k ≡ some (some v)
  unfolding has_next
  inserted_hit v =
      let i = keys.hash k % c.size in
      let now : get_elem? (written v) i ≡ some (k, v) =
        get_elem?-eq-some (written v) i (k, v) (rw (length-set t.slots i (k, v)) slot_of-lt)
        ∙ ap some (get_or-set_self t.slots i (k, v) (k, v) slot_of-lt) in
      rw (size_ne_zero, now, equal_self keys k)

  -- On a computed table whose entries have a property, `insert` of an entry that has it is
  -- defined and leaves such a table, in which a lookup of the key returns the value.
  pub insert_lem :
      (v : E)
      → P (k, v)
      → (c' : CTable K E) × (insert keys c k v ≡ some c')
        × Holds P c'
        × (has_next keys c' k ≡ some (some v))
  insert_lem v p = (inserted v, insert_run v, inserted-Holds v p, inserted_hit v)
