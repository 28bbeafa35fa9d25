-- ===== src/Marks/Sweep.antt =====
-- The nodes of a diagram as a list, and a sweep over it that sets flags and counts the changes.
use ibdd.Prelude.{
  ℕ, ◌+◌, ◌≡◌, ◌⊎◌, refl, sym, ◌∙◌, ap, inl, inr, Bool, true, false, none, some, List, [], ◌∷◌,
  ◌++◌, ◌==◌, ==_iff, Bool-cases, if◌then◌else◌, All,
}
use ibdd.Marks.Shapes.{Shape, point, fork}
use ibdd.Marks.{Marks, mark}
use ibdd.State.{State}
use ibdd.Word.{ptr}

-- The addresses of the nodes of the shape t at p, a node as often as there are paths to it: the low
-- child before the high one, or after it.
abbrev pub addresses : State → (low_first : Bool) → Shape → ℕ → List ℕ
addresses s low_first point p = p ∷ []
addresses s low_first (fork i h l) p = p ∷ elim (s.cell p) [
  | none ↦ []
  | some d ↦
      if low_first
      then addresses s low_first l (ptr d.low) ++ addresses s low_first h (ptr d.high)
      else addresses s low_first h (ptr d.high) ++ addresses s low_first l (ptr d.low)
]

abbrev pub same : Bool → Bool → Bool
same true b = b
same false b = if b then false else true

-- Each address of the list gets the flag `to`; those that did not have it are counted.
abbrev pub sweep : (to : Bool) → List ℕ → Marks → ℕ → Marks × ℕ
sweep to [] m c = (m, c)
sweep to (q ∷ l) m c = if same to (m q) then sweep to l m c else sweep to l (mark m q to) (c + 1)

abbrev pub IsIn : ℕ → List ℕ → Type 0
IsIn q [] = ⊥
IsIn q (x ∷ l) = (q ≡ x) ⊎ IsIn q l

same_iff : (a b : Bool) → same a b ≡ true → b ≡ a
same_iff true b e = e
same_iff false true e = sym e
same_iff false false e = refl

same_self : (a : Bool) → same a a ≡ true
same_self true = refl
same_self false = refl

pub All-append : (P : ℕ → Type 0) (xs ys : List ℕ) → All P (xs ++ ys) → All P xs × All P ys
All-append P [] ys h = (tt, h)
All-append P (x ∷ xs) ys (p, h) = let (a, b) = All-append P xs ys h in ((p, a), b)

pub IsIn-append : (q : ℕ) (xs ys : List ℕ) → IsIn q (xs ++ ys) → IsIn q xs ⊎ IsIn q ys
IsIn-append q [] ys h = inr h
IsIn-append q (x ∷ xs) ys (inl e) = inl (inl e)
IsIn-append q (x ∷ xs) ys (inr h) = elim (IsIn-append q xs ys h) [
  | inl a ↦ inl (inr a)
  | inr b ↦ inr b
]

module _ (to : Bool) where
  abbrev pub HasFlag : Marks → ℕ → Type 0
  HasFlag m q = m q ≡ to

  pub sweep-append :
      (xs ys : List ℕ) (m : Marks) (c : ℕ)
      → sweep to (xs ++ ys) m c ≡ sweep to ys (sweep to xs m c).0 (sweep to xs m c).1
  sweep-append [] ys m c = refl
  sweep-append (x ∷ xs) ys m c = elim (Bool-cases (same to (m x))) [
    | inl y ↦ rw y (sweep-append xs ys m c)
    | inr n ↦ rw n (sweep-append xs ys (mark m x to) (c + 1))
  ]

  -- With all flags set a sweep does nothing.
  pub sweep-All : (l : List ℕ) (m : Marks) (c : ℕ) → All (HasFlag m) l → sweep to l m c ≡ (m, c)
  sweep-All [] m c h = refl
  sweep-All (q ∷ l) m c (e, h) =
      let done : same to (m q) ≡ true = ap (same to) e ∙ same_self to in rw done (sweep-All l m c h)

  pub mark_keeps : (m : Marks) (p q : ℕ) → m q ≡ to → mark m p to q ≡ to
  mark_keeps m p q e = elim (Bool-cases (q == p)) [ inl y ↦ rw y refl | inr n ↦ rw n e ]

  -- A sweep takes no flag back,
  pub sweep_keeps : (l : List ℕ) (m : Marks) (c q : ℕ) → m q ≡ to → (sweep to l m c).0 q ≡ to
  sweep_keeps [] m c q e = e
  sweep_keeps (x ∷ l) m c q e = elim (Bool-cases (same to (m x))) [
    | inl y ↦ rw y (sweep_keeps l m c q e)
    | inr n ↦ rw n (sweep_keeps l (mark m x to) (c + 1) q (mark_keeps m x q e))
  ]

  -- sets those of the list,
  pub sweep_sets : (l : List ℕ) (m : Marks) (c q : ℕ) → IsIn q l → (sweep to l m c).0 q ≡ to
  sweep_sets [] m c q h = absurd h
  sweep_sets (x ∷ l) m c q (inr h) = elim (Bool-cases (same to (m x))) [
    | inl y ↦ rw y (sweep_sets l m c q h)
    | inr n ↦ rw n (sweep_sets l (mark m x to) (c + 1) q h)
  ]
  sweep_sets (x ∷ l) m c q (inl e) = elim (Bool-cases (same to (m x))) [
    | inl y ↦ rw y (sweep_keeps l m c q (ap m e ∙ same_iff to (m x) y))
    | inr n ↦ rw n (sweep_keeps l (mark m x to) (c + 1) q (rw ((==_iff q x).1 e) refl))
  ]

  -- and no other.
  pub sweep_only : (l : List ℕ) (m : Marks) (c q : ℕ) → ((sweep to l m c).0 q ≡ m q) ⊎ IsIn q l
  sweep_only [] m c q = inl refl
  sweep_only (x ∷ l) m c q = elim (Bool-cases (same to (m x))) [
    | inl y ↦ elim (sweep_only l m c q) [ inl e ↦ inl (rw y e) | inr h ↦ inr (inr h) ]
    | inr n ↦ elim (sweep_only l (mark m x to) (c + 1) q) [
      | inr h ↦ inr (inr h)
      | inl e ↦ elim (Bool-cases (q == x)) [
        | inl y ↦ inr (inl ((==_iff q x).0 y))
        | inr k ↦ inl (rw n (e ∙ rw k refl))
      ]
    ]
  ]
