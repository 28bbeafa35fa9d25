-- ===== src/Marks/Bounds.antt =====
-- The counter of countNodes does not overflow: DDNodes lie at multiples of four in a word.
use ibdd.Prelude.{
  ℕ, zero, suc, ◌*◌, ◌%◌, ◌^◌, ◌<◌, ◌≤◌, ◌≡◌, ◌≢◌, refl, sym, ap, subst, inl, inr, Bool, List, [],
  ◌∷◌, arith, ◌==◌, ==_iff, Bool-cases, if◌then◌else◌, length,
}
use ibdd.Marks.Closed.{addresses_node, IsIn-children}
use ibdd.Marks.Distinct.{Distinct}
use ibdd.Marks.Shapes.{Shape, point, fork, Spans, Spans-cell}
use ibdd.Marks.Sweep.{addresses, IsIn}
use ibdd.Platform.{Platform}
use ibdd.State.Valid.{ValidHeap}
use ibdd.State.{State}
use ibdd.Unique.Finds.{cell-IsAddress}
use ibdd.Word.{IsAddress, ptr, word_mod}

erase : ℕ → List ℕ → List ℕ
erase x [] = []
erase x (y ∷ l) = if y == x then erase x l else y ∷ erase x l

IsIn-erase : (x q : ℕ) (l : List ℕ) → IsIn q (erase x l) → IsIn q l × (q ≢ x)
unfolding erase
IsIn-erase x q [] h = absurd h
IsIn-erase x q (y ∷ l) h = elim (Bool-cases (y == x)) [
  | inl e ↦ let (i, ne) = IsIn-erase x q l (rw e at h) in (inr i, ne)
  | inr n ↦ elim (rw n at h) [
    | inl at ↦ (inl at, λ e. (ground arith))
    | inr i ↦ let (j, ne) = IsIn-erase x q l i in (inr j, ne)
  ]
]

Distinct-erase : (x : ℕ) (l : List ℕ) → Distinct l → Distinct (erase x l)
unfolding erase
Distinct-erase x [] d = tt
Distinct-erase x (y ∷ l) (once, d) = elim (Bool-cases (y == x)) [
  | inl e ↦ rw e (Distinct-erase x l d)
  | inr n ↦ rw n ((λ i. once (IsIn-erase x y l i).0), Distinct-erase x l d)
]

erase_absent : (x : ℕ) (l : List ℕ) → (IsIn x l → ⊥) → erase x l ≡ l
unfolding erase
erase_absent x [] never = refl
erase_absent x (y ∷ l) never = elim (Bool-cases (y == x)) [
  | inl e ↦ absurd (never (inl (sym ((==_iff y x).0 e))))
  | inr n ↦ rw n (ap (λ z. y ∷ z) (erase_absent x l (λ i. never (inr i))))
]

length-erase : (x : ℕ) (l : List ℕ) → Distinct l → length l ≤ suc (length (erase x l))
unfolding erase
length-erase x [] d = omega arith
length-erase x (y ∷ l) (once, d) = elim (Bool-cases (y == x)) [
  | inl e ↦
      let at : y ≡ x = (==_iff y x).0 e in
      let kept = erase_absent x l (λ i. once (rw at i)) in rw (e, kept) (omega arith)
  | inr n ↦ rw n (let le = length-erase x l d in omega arith)
]

-- Of the multiples of four below 4 * n there are n.
abbrev IsSlot : ℕ → ℕ → Type 0
IsSlot n p = (p % 4 ≡ 0) × (p < 4 * n)

length-le_slots :
    (n : ℕ) (l : List ℕ) → Distinct l → ((q : ℕ) → IsIn q l → IsSlot n q) → length l ≤ n
length-le_slots zero [] d slots = omega arith
length-le_slots zero (x ∷ l) d slots = absurd (let s = slots x (inl refl) in omega arith)
length-le_slots (suc n) l d slots =
    let fewer =
      length-le_slots n (erase (4 * n) l) (Distinct-erase (4 * n) l d)
        (λ q i. let (j, ne) = IsIn-erase (4 * n) q l i in let s = slots q j in omega arith) in
    let le = length-erase (4 * n) l d in omega arith

module _ ⦃m₀ : Platform⦄ {s : State} (v : ValidHeap s) where
  IsIn-IsAddress :
      (to : Bool) (t : Shape) (p q : ℕ) → Spans s t p → IsIn q (addresses s to t p) → IsAddress q
  IsIn-IsAddress to point p q r (inl at) = rw at (cell-IsAddress v p _ (Spans-cell v point p r).1)
  IsIn-IsAddress to point p q r (inr i) = absurd i
  IsIn-IsAddress to (fork k h l) p q r i = elim (subst (IsIn q) (addresses_node s to k h l p r) i) [
    | inl at ↦ rw at (cell-IsAddress v p _ (Spans-cell v (fork k h l) p r).1)
    | inr below ↦
        elim (IsIn-children s to q (addresses s to l (ptr r.0.low))
          (addresses s to h (ptr r.0.high)) below) [
            | inl x ↦ IsIn-IsAddress to l (ptr r.0.low) q r.5 x
            | inr x ↦ IsIn-IsAddress to h (ptr r.0.high) q r.4 x
          ]
  ]

  pub length-lt_word :
      (to : Bool) (t : Shape) (p : ℕ) (l : List ℕ)
      → Spans s t p
      → Distinct l
      → ((q : ℕ) → IsIn q l → IsIn q (addresses s to t p))
      → length l < word_mod
  length-lt_word to t p l r d inside =
      let le = length-le_slots (2 ^ 62) l d (λ q i.
        let a = IsIn-IsAddress to t p q r (inside q i) in
        let z = a.aligned in let f = a.fits in omega arith) in
      omega arith
