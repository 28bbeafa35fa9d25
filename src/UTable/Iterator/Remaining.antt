-- ===== src/UTable/Iterator/Remaining.antt =====
-- The elements that a loop over a list of lists has left.
use ibdd.Prelude.{
  ℕ, zero, suc, ◌<◌, ◌≤◌, ◌≡◌, refl, ap, true, some, List, [], ◌∷◌, ◌++◌, arith, ◌==◌, length,
  get_elem?, get_or,
}

module _ {ℓ} {A : Type ℓ} where
  abbrev pub drop : ℕ → List A → List A
  drop zero xs = xs
  drop (suc n) [] = []
  drop (suc n) (x ∷ xs) = drop n xs

  abbrev pub flatten : List (List A) → List A
  flatten [] = []
  flatten (xs ∷ xss) = xs ++ flatten xss

  -- the elements from the position l of the v-th list on
  abbrev pub remaining : List (List A) → (v l : ℕ) → List A
  remaining [] v l = []
  remaining (b ∷ bs) zero l = drop l b ++ flatten bs
  remaining (b ∷ bs) (suc v) l = remaining bs v l

  pub flatten-remaining : (bs : List (List A)) → flatten bs ≡ remaining bs 0 0
  flatten-remaining [] = refl
  flatten-remaining (b ∷ bs) = refl

  pub remaining-next :
      (bs : List (List A)) (v l : ℕ)
      → v < length bs
      → remaining bs v l ≡ drop l (get_or bs v []) ++ remaining bs (suc v) 0
  remaining-next [] v l h = absurd (omega arith)
  remaining-next (b ∷ bs) zero l h = ap (λ r. drop l b ++ r) (flatten-remaining bs)
  remaining-next (b ∷ bs) (suc v) l h = remaining-next bs v l (omega arith)

  pub remaining-end : (bs : List (List A)) (v : ℕ) → length bs ≤ v → remaining bs v 0 ≡ []
  remaining-end [] v h = refl
  remaining-end (b ∷ bs) zero h = absurd (omega arith)
  remaining-end (b ∷ bs) (suc v) h = remaining-end bs v (omega arith)

  pub drop_next :
      (b : List A) (l : ℕ)
      → l < length b
      → (x : A) × (get_elem? b l ≡ some x) × (drop l b ≡ x ∷ drop (suc l) b)
  drop_next [] l h = absurd (omega arith)
  drop_next (x ∷ []) zero h = (x, refl, refl)
  drop_next (x ∷ y ∷ b) zero h = (x, refl, refl)
  drop_next (x ∷ b) (suc l) h = drop_next b l (omega arith)

  pub drop_all : (b : List A) (l : ℕ) → length b ≤ l → drop l b ≡ []
  drop_all [] zero h = refl
  drop_all [] (suc l) h = refl
  drop_all (x ∷ b) zero h = absurd (omega arith)
  drop_all (x ∷ b) (suc l) h = drop_all b l (omega arith)

  pub empty_list : (b : List A) → (length b == 0) ≡ true → b ≡ []
  empty_list [] e = refl
  empty_list (x ∷ b) e = absurd (clash (length b) (ground arith))
    where
      clash : (n : ℕ) → suc n ≡ 0 → ⊥
      clash n e = omega arith
