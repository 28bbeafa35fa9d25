-- ===== src/Marks/Distinct.antt =====
-- A sweep counts the distinct addresses of its list.
use ibdd.Prelude.{
  ℕ, ◌+◌, ◌≡◌, ◌⊎◌, refl, ◌∙◌, ap, inl, inr, true, false, List, [], ◌∷◌, arith, ◌==◌, ==_iff,
  Bool-cases, if◌then◌else◌, length, ◌++◌, All,
}
use ibdd.Marks.Sweep.{sweep, IsIn}
use ibdd.Marks.{Marks, mark}

abbrev pub Distinct : List ℕ → Type 0
Distinct [] = Unit
Distinct (x ∷ l) = (IsIn x l → ⊥) × Distinct l

-- the addresses of l without the flag, each once
abbrev pub unmarked : List ℕ → Marks → List ℕ
unmarked [] m = []
unmarked (q ∷ l) m = if m q then unmarked l m else q ∷ unmarked l (mark m q true)

pub sweep-unmarked :
    (l : List ℕ) (m : Marks) (c : ℕ) → (sweep true l m c).1 ≡ c + length (unmarked l m)
sweep-unmarked [] m c = omega arith
sweep-unmarked (q ∷ l) m c = elim (Bool-cases (m q)) [
  | inl y ↦ rw y (sweep-unmarked l m c)
  | inr n ↦ rw n (let e = sweep-unmarked l (mark m q true) (c + 1) in omega arith)
]

unmarked_flag : (l : List ℕ) (m : Marks) (q : ℕ) → IsIn q (unmarked l m) → m q ≡ false
unmarked_flag [] m q h = absurd h
unmarked_flag (x ∷ l) m q h = elim (Bool-cases (m x)) [
  | inl y ↦ unmarked_flag l m q (rw y at h)
  | inr n ↦ elim (rw n at h) [
    | inl e ↦ ap m e ∙ n
    | inr i ↦ later n (unmarked_flag l (mark m x true) q i)
  ]
]
  where
    clash : true ≡ false → ⊥
    clash e = cc

    later : m x ≡ false → mark m x true q ≡ false → m q ≡ false
    later n e = elim (Bool-cases (q == x)) [
      | inl y ↦ absurd (clash (rw y at e))
      | inr k ↦ rw k at e
    ]

pub unmarked-Distinct : (l : List ℕ) (m : Marks) → Distinct (unmarked l m)
unmarked-Distinct [] m = tt
unmarked-Distinct (x ∷ l) m = elim (Bool-cases (m x)) [
  | inl y ↦ rw y (unmarked-Distinct l m)
  | inr n ↦ rw n (once, unmarked-Distinct l (mark m x true))
]
  where
    clash : true ≡ false → ⊥
    clash e = cc

    once : IsIn x (unmarked l (mark m x true)) → ⊥
    once h = let e = unmarked_flag l (mark m x true) x h in clash (rw ((==_iff x x).1 refl) at e)

-- They are the addresses of l, but for those that had the flag.
pub unmarked-IsIn : (l : List ℕ) (m : Marks) (q : ℕ) → IsIn q (unmarked l m) → IsIn q l
unmarked-IsIn [] m q h = h
unmarked-IsIn (x ∷ l) m q h = elim (Bool-cases (m x)) [
  | inl y ↦ inr (unmarked-IsIn l m q (rw y at h))
  | inr n ↦ elim (rw n at h) [ inl e ↦ inl e | inr i ↦ inr (unmarked-IsIn l (mark m x true) q i) ]
]

pub IsIn-unmarked :
    (l : List ℕ) (m : Marks) (q : ℕ) → IsIn q l → (m q ≡ true) ⊎ IsIn q (unmarked l m)
IsIn-unmarked [] m q h = absurd h
IsIn-unmarked (x ∷ l) m q h = elim (Bool-cases (m x)) [
  | inl y ↦ elim h [
    | inl e ↦ inl (ap m e ∙ y)
    | inr i ↦ elim (IsIn-unmarked l m q i) [ inl a ↦ inl a | inr b ↦ inr (rw y b) ]
  ]
  | inr n ↦ elim h [
    | inl e ↦ inr (rw n (inl e))
    | inr i ↦ elim (IsIn-unmarked l (mark m x true) q i) [
      | inr b ↦ inr (rw n (inr b))
      | inl a ↦ elim (Bool-cases (q == x)) [
        | inl y ↦ inr (rw n (inl ((==_iff q x).0 y)))
        | inr k ↦ inl (rw k at a)
      ]
    ]
  ]
]

-- A second list leaves out what a sweep over the first has reached.
pub unmarked-append :
    (xs ys : List ℕ) (m : Marks) (c : ℕ)
    → unmarked (xs ++ ys) m ≡ unmarked xs m ++ unmarked ys (sweep true xs m c).0
unmarked-append [] ys m c = refl
unmarked-append (x ∷ xs) ys m c = elim (Bool-cases (m x)) [
  | inl y ↦ rw y (unmarked-append xs ys m c)
  | inr n ↦ rw n (ap (λ l. x ∷ l) (unmarked-append xs ys (mark m x true) (c + 1)))
]

pub unmarked-All : (l : List ℕ) (m : Marks) → All (λ q. m q ≡ true) l → unmarked l m ≡ []
unmarked-All [] m h = refl
unmarked-All (q ∷ l) m (e, h) = rw e (unmarked-All l m h)
