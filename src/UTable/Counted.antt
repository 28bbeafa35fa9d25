-- ===== src/UTable/Counted.antt =====
-- UTable.hpp, UTable::find with the `int i` of its loop, which overflows in a bucket of 2^31 pairs. A
-- Manager scans a whole bucket before it adds a pair, and its model uses the `find` without a counter.
use ibdd.Prelude.{
  ℕ, ◌+◌, ◌^◌, ◌<◌, ◌≡◌, refl, inl, inr, true, Option, none, some, [], ◌∷◌, arith, ltb, Bool-cases,
  if◌then◌else◌, length, get_elem?,
}
use ibdd.Hashing.{Hashing}
use ibdd.Partial.{◌>>=◌}
use ibdd.UTable.Lookup.{IsLoaded, bucket_of, get_bucket, get_key_lem}
use ibdd.UTable.{Bucket, UTable, get_key, find_in}

module _ {ℓ} {K E : Type ℓ} (keys : Hashing K) where
  -- the loop over what is left of a bucket from the position `i` on
  unfoldable pub find_from : ℕ → K → Bucket K E → Option (Option E)
  find_from i key [] = some none
  find_from i key (item ∷ bucket) =
      let rest = find_from (i + 1) key bucket in
      let next = if ltb (i + 1) (2 ^ 31) then rest else none in
      if keys.equal item.0 key then some (some item.1) else next

  -- UTable::find
  unfoldable pub find_counted : UTable K E → K → Option (Option E)
  unfolding find_from
  find_counted u key = do
    pos ← get_key keys u key
    buckets ← u.items
    bucket ← get_elem? buckets pos
    find_from 0 key bucket

  find_from-find_in :
      (i : ℕ) (k : K) (b : Bucket K E)
      → i + length b < 2 ^ 31
      → find_from i k b ≡ some (find_in keys k b)
  unfolding find_from find_in
  find_from-find_in i k [] h = refl
  find_from-find_in i k (x ∷ b) h = elim (Bool-cases (keys.equal x.0 k)) [
    | inl y ↦ rw y refl
    | inr n ↦
        let counts : ltb (i + 1) (2 ^ 31) ≡ true = ground arith in
        rw (n, counts) (find_from-find_in (i + 1) k b (omega arith))
  ]

  -- In a bucket of fewer than 2^31 pairs the counter reaches every pair.
  pub find_counted_lem :
      {u : UTable K E} (t : IsLoaded u) (k : K)
      → length (bucket_of keys t k) < 2 ^ 31
      → find_counted u k ≡ some (find_in keys k (bucket_of keys t k))
  unfolding find_counted
  find_counted_lem t k h =
      rw (get_key_lem keys t k, t.items, get_bucket keys t k)
        (find_from-find_in 0 k (bucket_of keys t k) (omega arith))
