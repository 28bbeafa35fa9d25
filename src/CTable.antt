-- ===== src/CTable.antt =====
-- CTable.hpp, the computed table: an array of pairs in which an entry overwrites the one before it.
-- `none` stands for undefined behaviour: `% 0`, or an access through the null pointer or past the
-- end of `items`.
pub mod Slots
pub mod Inserts
use ibdd.Prelude.{
  ℕ, zero, suc, ◌+◌, ◌%◌, Bool, true, false, Option, none, some, List, [], ◌∷◌, ◌==◌, if◌then◌else◌,
  get_elem?, set,
}
use ibdd.Partial.{◌>>=◌}
use ibdd.Hashing.{Hashing}

-- class CTable; `items` is `none` where the pointer is null
pub record CTable {ℓ} (K E : Type ℓ) : Type ℓ where
  pub items : Option (List (K × E))
  pub size : ℕ

module _ {ℓ} {K E : Type ℓ} where
  -- CTable::CTable()
  unfoldable pub new : CTable K E
  new = record { items = none; size = 0 }

  -- CTable::clear
  unfoldable pub clear : CTable K E → CTable K E
  clear c = record { items = elim c.items [ none ↦ none | some _ ↦ none ]; size = 0 }

  -- CTable::~CTable
  unfoldable pub destroy : CTable K E → CTable K E
  unfolding clear
  destroy c = clear c

  -- `new std::pair<K, E>[n]`: the keys from the i-th on are what `stale` says, the values are `zero`
  unfoldable pub fresh_items : (stale : ℕ → K) → E → (n i : ℕ) → List (K × E)
  fresh_items stale nought zero i = []
  fresh_items stale nought (suc n) i = (stale i, nought) ∷ fresh_items stale nought n (i + 1)

  -- CTable::load
  unfoldable pub load : (stale : ℕ → K) → E → ℕ → CTable K E → CTable K E
  unfolding clear fresh_items
  load stale nought size c =
      let c' = clear c in record c' { items = some (fresh_items stale nought size 0); size = size }

  -- CTable::CTable(size)
  unfoldable pub new_sized : (stale : ℕ → K) → E → ℕ → CTable K E
  unfolding load new
  new_sized stale nought size = load stale nought size new

  -- CTable::empty
  unfoldable pub empty : CTable K E → Bool
  empty c = if c.size == 0 then true else false

  -- CTable::operator []
  unfoldable pub at : CTable K E → ℕ → Option (K × E)
  at c pos = do items ← c.items; get_elem? items pos

  -- CTable::getSize
  unfoldable pub get_size : CTable K E → ℕ
  get_size c = c.size

module _ {ℓ} {K E : Type ℓ} (keys : Hashing K) where
  -- CTable::getKey
  unfoldable pub get_key : CTable K E → K → Option ℕ
  get_key c key = if c.size == 0 then none else some (keys.hash key % c.size)

  -- CTable::hasNext: `some (some node)` on a hit, `some none` on a miss
  unfoldable pub has_next : CTable K E → K → Option (Option E)
  unfolding get_key
  has_next c key = do
    pos ← get_key c key
    items ← c.items
    item ← get_elem? items pos
    some (if keys.equal key item.0 then some item.1 else none)

  -- CTable::insert
  unfoldable pub insert : CTable K E → K → E → Option (CTable K E)
  unfolding get_key
  insert c key node = do
    pos ← get_key c key
    items ← c.items
    item ← get_elem? items pos
    some (record c { items = some (set items pos (key, node)) })
