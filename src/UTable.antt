-- ===== src/UTable.antt =====
-- UTable.hpp, the unique table: a vector of buckets, each a vector of pairs. `none` stands for
-- undefined behaviour: `% 0`, a read through the null pointer or past the end of `items`, or an `int`
-- that overflows. The containers of the library are taken to have the memory that they ask for.
pub mod Lookup
pub mod Adds
pub mod Counted
pub mod Iterator
pub mod Empty
use ibdd.Prelude.{
  ℕ, zero, suc, ◌+◌, ◌%◌, ◌^◌, Bool, true, false, not, Option, none, some, List, [], ◌∷◌, ◌++◌, ltb,
  ◌==◌, if◌then◌else◌, length, get_elem?, set, replicate,
}
use ibdd.Partial.{◌>>=◌}
use ibdd.Hashing.{Hashing}

abbrev pub Bucket {ℓ} : Type ℓ → Type ℓ → Type ℓ
Bucket K E = List (K × E)

-- class UTable; `items` is `none` where the pointer is null
pub record UTable {ℓ} (K E : Type ℓ) : Type ℓ where
  pub items : Option (List (Bucket K E))
  pub size : ℕ

module _ {ℓ} {K E : Type ℓ} where
  -- UTable::UTable
  unfoldable pub new : UTable K E
  new = record { items = none; size = 0 }

  -- UTable::clear: the buckets are not deleted, since `items` is set to null before `delete[]`
  unfoldable pub clear : UTable K E → UTable K E
  clear u = record { items = elim u.items [ none ↦ none | some _ ↦ none ]; size = 0 }

  -- UTable::~UTable
  unfoldable pub destroy : UTable K E → UTable K E
  unfolding clear
  destroy u = clear u

  -- UTable::load
  unfoldable pub load : ℕ → UTable K E → UTable K E
  unfolding clear
  load size u = let u' = clear u in record u' { items = some (replicate size []); size = size }

  -- UTable::empty, the loop from `i`, an `int`, with `rounds` left
  unfoldable pub empty_from : (rounds i : ℕ) → Option (List (Bucket K E)) → Option Bool
  empty_from zero i items = some true
  empty_from (suc rounds) i items =
      let rest = empty_from rounds (i + 1) items in
      let next = if ltb (i + 1) (2 ^ 31) then rest else none in
      do
        buckets ← items
        bucket ← get_elem? buckets i
        if not (length bucket == 0) then some false else next

  -- UTable::empty
  unfoldable pub empty : UTable K E → Option Bool
  unfolding empty_from
  empty u = empty_from u.size 0 u.items

  -- UTable::getSize
  unfoldable pub get_size : UTable K E → ℕ
  get_size u = u.size

module _ {ℓ} {K E : Type ℓ} (keys : Hashing K) where
  -- UTable::getKey
  unfoldable pub get_key : UTable K E → K → Option ℕ
  get_key u key = if u.size == 0 then none else some (keys.hash key % u.size)

  -- UTable::find, the loop over a bucket of fewer than 2^31 pairs: `find_from` of UTable.Counted
  -- has its counter
  unfoldable pub find_in : K → Bucket K E → Option E
  find_in key [] = none
  find_in key (item ∷ bucket) = if keys.equal item.0 key then some item.1 else find_in key bucket

  -- UTable::find, with `find_in`
  unfoldable pub find : UTable K E → K → Option (Option E)
  unfolding get_key find_in
  find u key = do
    pos ← get_key u key
    buckets ← u.items
    bucket ← get_elem? buckets pos
    some (find_in key bucket)

  -- UTable::add
  unfoldable pub add : UTable K E → K → E → Option (UTable K E)
  unfolding get_key
  add u key value = do
    pos ← get_key u key
    buckets ← u.items
    bucket ← get_elem? buckets pos
    some (record u { items = some (set buckets pos (bucket ++ (key, value) ∷ [])) })
