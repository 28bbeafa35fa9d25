-- ===== src/References/Counting.antt =====
-- The reference counter counts the BDDNodes that point at the node, modulo 2 ^ 16.
use ibdd.Prelude.{
  ℕ, ◌+◌, ◌%◌, ◌^◌, ◌<◌, ◌≡◌, refl, sym, ◌∙◌, ap, subst, inl, inr, true, false, List, [], ◌∷◌, ◌++◌,
  arith, ◌==◌, ==_iff, Bool-cases, if◌then◌else◌,
}
use ibdd.References.{
  Counters, increment, decrement, acquire, release, assign, Machine, references, Step,
  construct_empty, construct, destroy, reassign, allocate, Reachable, start, then_step,
}
use ibdd.Word.{ptr}

-- one reference or none
abbrev pub points : ℕ → ℕ → ℕ
points w p = if ptr w == p then 1 else 0

references-append :
    (p w : ℕ) (before after : List ℕ)
    → references p (before ++ w ∷ after) ≡ points w p + references p (before ++ after)
unfolding references
references-append p w [] after = refl
references-append p w (x ∷ before) after =
    let rest = references-append p w before after in omega arith

-- id is 1 and the number of references, modulo 2 ^ 16
abbrev pub IsCount : ℕ → ℕ → Type 0
IsCount id n = id ≡ (1 + n) % 2 ^ 16

acquire-IsCount :
    (p w n : ℕ) (ids : Counters)
    → 0 < p
    → IsCount (ids p) n
    → IsCount (acquire w ids p) (points w p + n)
unfolding acquire increment
acquire-IsCount p w n ids pos e = ground arith

release-IsCount :
    (p w n : ℕ) (ids : Counters)
    → 0 < p
    → IsCount (ids p) (points w p + n)
    → IsCount (release w ids p) n
unfolding release decrement
release-IsCount p w n ids pos e = ground arith

abbrev pub IsCounted : Machine → Type 0
IsCounted m = (p : ℕ) → 0 < p → m.allocated p ≡ true → IsCount (m.ids p) (references p m.live)

null-points : (p : ℕ) → 0 < p → points 0 p ≡ 0
unfolding ptr
null-points p pos = ground arith

Step-IsCounted : {m m' : Machine} → Step m m' → IsCounted m → IsCounted m'
unfolding references assign
Step-IsCounted (construct_empty {live} {ids = ids}) c p pos a =
    let none_more = null-points p pos in
    let old = c p pos a in
    let same : references p live ≡ points 0 p + references p live = omega arith in
    subst (IsCount (ids p)) same old
Step-IsCounted (construct {live} {ids = ids} w) c p pos a =
    acquire-IsCount p w (references p live) ids pos (c p pos a)
Step-IsCounted (destroy {ids = ids} before after w) c p pos a =
    release-IsCount p w (references p (before ++ after)) ids pos
      (subst (IsCount (ids p)) (references-append p w before after) (c p pos a))
Step-IsCounted (reassign {ids = ids} before after w other) c p pos a =
    assign-IsCount (subst (IsCount (ids p)) (references-append p w before after) (c p pos a))
  where
    n : ℕ
    n = references p (before ++ after)

    assign-IsCount :
        IsCount (ids p) (points w p + n)
        → IsCount (assign w other ids p) (references p (before ++ other ∷ after))
    assign-IsCount e =
        subst (IsCount (assign w other ids p)) (sym (references-append p other before after))
          (acquire-IsCount p other n (release w ids) pos (release-IsCount p w n ids pos e))
Step-IsCounted (allocate {live} {allocated} {ids} q unused) c p pos a = elim (Bool-cases (p == q)) [
  | inl y ↦
      let same = (==_iff p q).0 y in
      let none_yet : references p live ≡ 0 = ap (λ z. references z live) same ∙ unused in
      rw (y, none_yet) refl
  | inr n ↦ rw n (c p pos (rw n at a))
]

-- In every machine that constructions, destructions and assignments of BDDNodes and allocations
-- of DDNodes can reach, the counter of an allocated node at a positive address is 1 and the
-- number of BDDNodes alive that point at it, modulo 2^16.
pub Reachable-IsCounted :
    {m : Machine}
    → Reachable m
    → (p : ℕ) → 0 < p
    → m.allocated p ≡ true
    → m.ids p ≡ (1 + references p m.live) % 2 ^ 16
Reachable-IsCounted start p pos a = absurd (clash a)
  where
    clash : false ≡ true → ⊥
    clash e = cc
Reachable-IsCounted (then_step r s) p pos a = Step-IsCounted s (Reachable-IsCounted r) p pos a
