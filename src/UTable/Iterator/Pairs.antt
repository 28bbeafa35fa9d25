-- ===== src/UTable/Iterator/Pairs.antt =====
-- What the iterator of a unique table passes through after `load` and `add`: the pairs that were added.
use mathlib.Core.List.{Perm, perm_middle}
use mathlib.Core.List.Perm
use mathlib.Core.List
use native.Mathlib.Bridge.{from_ℕ}
use ibdd.Prelude.{
  ℕ, zero, suc, ◌+◌, ◌<◌, ◌≡◌, refl, sym, ◌∙◌, ap, some, List, [], ◌∷◌, ◌++◌, arith, length, get_or,
  set, replicate,
}
use ibdd.Hashing.{Hashing}
use ibdd.Partial.{◌>>=◌}
use ibdd.UTable.Adds.{add_all, add_all-induct}
use ibdd.UTable.Iterator.{begin, visit}
use ibdd.UTable.Iterator.Remaining.{flatten}
use ibdd.UTable.Iterator.Visit.{visit-begin}
use ibdd.UTable.Lookup.{load-IsLoaded, slot_of, slot_of-lt, added-IsLoaded}
use ibdd.UTable.{UTable, load}

module _ {ℓ} {A : Type ℓ} where
  -- the length over the native numbers is that of the library
  count_lem : (l : List A) → length l ≡ from_ℕ (List.length l)
  count_lem [] = refl
  count_lem (x ∷ l) = ap suc (count_lem l)

  same_count : {l r : List A} → Perm l r → length l ≡ length r
  same_count {l} {r} p = count_lem l ∙ ap from_ℕ (Perm.length-eq p) ∙ sym (count_lem r)

  -- A pair more at the end of a list, whatever its position, is one at the head.
  append-perm : (a : List A) (x : A) → Perm (a ++ x ∷ []) (x ∷ a)
  append-perm [] x = Perm.rfl
  append-perm (y ∷ a) x = Perm.trans (Perm.cons y (append-perm a x)) (Perm.swap x y a)

  flatten-set :
      (bs : List (List A)) (i : ℕ) (x : A)
      → i < length bs
      → Perm (flatten (set bs i (get_or bs i [] ++ x ∷ []))) (x ∷ flatten bs)
  flatten-set [] i x h = absurd (omega arith)
  flatten-set (b ∷ bs) zero x h = Perm.append (append-perm b x) Perm.rfl
  flatten-set (b ∷ bs) (suc i) x h =
      Perm.trans (Perm.append (Perm.rfl {l = b}) (flatten-set bs i x (omega arith)))
        (perm_middle b (flatten bs))

  flatten-replicate : (n : ℕ) → flatten (replicate {A = List A} n []) ≡ []
  flatten-replicate zero = refl
  flatten-replicate (suc n) = flatten-replicate n

module _ {ℓ} {K E : Type ℓ} (keys : Hashing K) where
  -- After `load` with a positive size and `add` of each pair of a list that is not empty, which
  -- are all defined, the loop from `begin` to `end`, with a round for each pair and one more,
  -- passes through a permutation of the list: every added pair as often as it was added, and no
  -- other.
  pub visit-add_all :
      (size : ℕ) (u : UTable K E) (items : List (K × E))
      → 0 < size
      → 0 < length items
      → (u' : UTable K E) × (visited : List (K × E)) × (add_all keys items (load size u) ≡ some u')
        × ((begin u' >>= visit u' (length items + 1)) ≡ some visited)
        × Perm visited items
  unfolding load-IsLoaded added-IsLoaded
  visit-add_all size u items pos some_pair =
      let (u', t', run, perm) =
        add_all-induct keys (λ w t l. Perm (flatten t.buckets) l)
          (λ w t before k v p.
            Perm.trans (flatten-set t.buckets (slot_of keys t k) (k, v) (slot_of-lt keys t k))
              (Perm.trans (Perm.cons (k, v) p) (Perm.symm (append-perm before (k, v)))))
          items (load-IsLoaded size u pos) [] (rw (flatten-replicate size) Perm.rfl) in
      let count : length (flatten t'.buckets) ≡ length items = same_count perm in
      (
        u',
        flatten t'.buckets,
        run,
        ap (λ n. begin u' >>= visit u' (n + 1)) (sym count) ∙ visit-begin t' (omega arith),
        perm,
      )
