-- ===== src/UTable/Iterator.antt =====
-- UTable.hpp, class iterator, with begin and end. An iterator points to the table that it is of, here
-- an argument. `none` stands for undefined behaviour, or for a loop that `rounds` does not suffice for.
pub mod Remaining
pub mod Pairs
pub mod Visit
use ibdd.Prelude.{
  ℕ, zero, suc, ◌+◌, Bool, ◌&&◌, not, Option, none, some, List, [], ◌∷◌, ltb, leb, ◌==◌,
  if◌then◌else◌, length, get_elem?,
}
use ibdd.Partial.{◌>>=◌}
use ibdd.UTable.{Bucket, UTable}

-- class iterator: the slot, and the position in its bucket
pub record Iterator : Type 0 where
  pub value : ℕ
  pub last : ℕ

-- the constructor from a slot and a position
abbrev iterator : (value last : ℕ) → Iterator
iterator value last = record { value = value; last = last }

-- the constructor of a copy
abbrev copy : Iterator → Iterator
copy it = iterator it.value it.last

module _ {ℓ} {K E : Type ℓ} (u : UTable K E) where
  -- UTable::operator []
  unfoldable pub at : ℕ → Option (Bucket K E)
  at key = do buckets ← u.items; get_elem? buckets key

  -- iterator::operator *
  unfoldable pub deref : Iterator → Option (K × E)
  unfolding at
  deref it = do bucket ← at it.value; get_elem? bucket it.last

  -- the loop of iterator::operator ++, with `rounds` left
  unfoldable pub skip : (rounds value : ℕ) → Option ℕ
  skip zero value = none
  skip (suc rounds) value =
      let rest = skip rounds (value + 1) in
      if ltb (value + 1) u.size
      then (do bucket ← at (value + 1); if length bucket == 0 then rest else some (value + 1))
      else some (value + 1)

  -- iterator::operator ++
  unfoldable pub next : Iterator → Option Iterator
  unfolding at
  next it = if ltb u.size it.value then some it else do
    bucket ← at it.value
    if leb (length bucket) (it.last + 1)
        then (do value ← skip (u.size + 1) it.value; some (record { value = value; last = 0 }))
        else some (record { value = it.value; last = it.last + 1 })

  -- iterator::operator ==, of two iterators of this table
  unfoldable pub equal : Iterator → Iterator → Bool
  equal a b = (a.value == b.value) && (a.last == b.last)

  -- iterator::operator !=
  unfoldable pub not_equal : Iterator → Iterator → Bool
  unfolding equal
  not_equal a b = not (equal b a)

  -- iterator::operator =, which does nothing for the iterator itself
  unfoldable pub assign : (it other : Iterator) → Iterator
  assign it other = record { value = other.value; last = other.last }

  -- iterator::operator ++ (int): the copy from before, and the iterator after it
  unfoldable pub post_next : Iterator → Option (Iterator × Iterator)
  unfolding next
  post_next it = do it' ← next it; some (copy it, it')

  -- UTable::end
  unfoldable pub end : Iterator
  end = iterator u.size 0

  -- the loop of UTable::begin, with `rounds` left
  unfoldable pub skip_empty : (rounds pos : ℕ) → Option ℕ
  skip_empty zero pos = none
  skip_empty (suc rounds) pos =
      let rest = skip_empty rounds (pos + 1) in
      do bucket ← at pos; if length bucket == 0 then rest else some pos

  -- UTable::begin
  unfoldable pub begin : Option Iterator
  begin = elim u.items [
    | none ↦ some end
    | some buckets ↦ do pos ← skip_empty (u.size + 1) 0; some (iterator pos 0)
  ]

  -- `for (i = it; i != end(); i++)`, with the pairs `*i`
  unfoldable pub visit : (rounds : ℕ) → Iterator → Option (List (K × E))
  visit zero it = none
  visit (suc rounds) it =
      let rest = (do it' ← next it; visit rounds it') in
      if equal it end then some [] else (do item ← deref it; items ← rest; some (item ∷ items))
