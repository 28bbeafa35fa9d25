-- ===== src/Diagram/Canonical.antt =====
-- Bryant's theorem: reduced ordered diagrams of one function are one diagram.
use ibdd.Prelude.{
  ℕ, zero, suc, ◌+◌, ◌<◌, ◌≤◌, ◌≡◌, refl, sym, ◌∙◌, ap, Bool, true, false, not, arith,
}
use ibdd.Diagram.{
  Tree, leaf, node, Bdd, bdd, Assignment, flip_if, eval_tree, eval, top_tree, top, IsReduced,
}
use ibdd.Diagram.Cofactor.{update, update_self, eval_tree-update_above}
use native.Mathlib.Decide.{dec_lt}

-- Every regular edge is true where all variables are.
pub eval_tree-all_true : (t : Tree) → eval_tree t (λ _. true) ≡ true
unfolding eval_tree
eval_tree-all_true leaf = refl
eval_tree-all_true (node v h c l) = eval_tree-all_true h

pub eval-all_true : (e : Bdd) → eval e (λ _. true) ≡ not e.complement
unfolding eval
eval-all_true e = ground (arith, eval_tree-all_true e.tree)

-- The children of a node, as functions.
eval-update_high :
    (v : ℕ) (h l : Tree) (c : Bool) (ρ : Assignment)
    → IsReduced h
    → top_tree h < v
    → eval_tree (node v h c l) (update ρ v true) ≡ eval_tree h ρ
unfolding eval_tree
eval-update_high v h l c ρ r p = rw (update_self ρ v true) (eval_tree-update_above h v true ρ r p)

eval-update_low :
    (v : ℕ) (h l : Tree) (c : Bool) (ρ : Assignment)
    → IsReduced l
    → top_tree l < v
    → eval_tree (node v h c l) (update ρ v false) ≡ flip_if c (eval_tree l ρ)
unfolding eval_tree
eval-update_low v h l c ρ r p =
    rw (update_self ρ v false) (ap (flip_if c) (eval_tree-update_above l v false ρ r p))

flip_if_cancel : (c x y : Bool) → flip_if c x ≡ flip_if c y → x ≡ y
flip_if_cancel c x y e = ground arith

-- Canonicity below a bound, for trees.
CanonicalBelow : ℕ → Type 0
CanonicalBelow n =
    (s t : Tree)
    → top_tree s < n
    → top_tree t < n
    → IsReduced s
    → IsReduced t
    → ((ρ : Assignment) → eval_tree s ρ ≡ eval_tree t ρ)
    → s ≡ t

-- From trees to edges: the edge is the value where all variables are true.
bdd-canonical :
    (n : ℕ) (d e : Bdd)
    → CanonicalBelow n
    → top d < n
    → top e < n
    → IsReduced d.tree
    → IsReduced e.tree
    → ((ρ : Assignment) → eval d ρ ≡ eval e ρ)
    → d ≡ e
unfolding CanonicalBelow eval
bdd-canonical n d e rec p q rd re same =
    let edges : d.complement ≡ e.complement =
      ground (arith, same (λ _. true), eval_tree-all_true d.tree, eval_tree-all_true e.tree) in
    let trees : d.tree ≡ e.tree =
      rec d.tree e.tree p q rd re (λ ρ. flip_if_cancel e.complement _ _ (rw edges at (same ρ))) in
    λ i. record { complement = edges i; tree = trees i }

-- A reduced node depends on its variable.
node-depends :
    (n v : ℕ) (h l : Tree) (c : Bool)
    → CanonicalBelow n
    → v ≤ n
    → IsReduced (node v h c l)
    → ((ρ : Assignment)
        → eval_tree (node v h c l) (update ρ v true) ≡ eval_tree (node v h c l) (update ρ v false))
    → ⊥
unfolding eval
node-depends n v h l c rec b (p, q, small, ne, rh, rl) same = ne (
    bdd-canonical n (bdd false h) (bdd c l) rec (omega arith) (omega arith) rh rl
      λ ρ. sym (eval-update_high v h l c ρ rh p) ∙ same ρ ∙ eval-update_low v h l c ρ rl q)

-- So no diagram of smaller variables has the same function.
ne-above :
    (n v : ℕ) (s h l : Tree) (c : Bool)
    → CanonicalBelow n
    → v ≤ n
    → IsReduced (node v h c l)
    → IsReduced s
    → top_tree s < v
    → ((ρ : Assignment) → eval_tree s ρ ≡ eval_tree (node v h c l) ρ)
    → ⊥
ne-above n v s h l c rec b r rs p same = node-depends n v h l c rec b r λ ρ.
    sym (same (update ρ v true))
    ∙ eval_tree-update_above s v true ρ rs p
    ∙ sym (eval_tree-update_above s v false ρ rs p)
    ∙ same (update ρ v false)

node-canonical :
    (n v : ℕ) (h l : Tree) (c : Bool) (h' l' : Tree) (c' : Bool)
    → CanonicalBelow n
    → v ≤ n
    → IsReduced (node v h c l)
    → IsReduced (node v h' c' l')
    → ((ρ : Assignment) → eval_tree (node v h c l) ρ ≡ eval_tree (node v h' c' l') ρ)
    → node v h c l ≡ node v h' c' l'
unfolding CanonicalBelow eval
node-canonical n v h l c h' l' c' rec b (p, q, small, ne, rh, rl) (p', q', small', ne', rh', rl')
      same =
    let highs : h ≡ h' = rec h h' (omega arith) (omega arith) rh rh' λ ρ.
      sym (eval-update_high v h l c ρ rh p)
      ∙ same (update ρ v true)
      ∙ eval-update_high v h' l' c' ρ rh' p' in
    let lows : bdd c l ≡ bdd c' l' =
      bdd-canonical n (bdd c l) (bdd c' l') rec (omega arith) (omega arith) rl rl' λ ρ.
        sym (eval-update_low v h l c ρ rl q)
        ∙ same (update ρ v false)
        ∙ eval-update_low v h' l' c' ρ rl' q' in
    λ i. node v (highs i) (lows i).complement (lows i).tree

tree-canonical : (n : ℕ) → CanonicalBelow n
unfolding CanonicalBelow
tree-canonical zero s t p q rs rt same = absurd (omega arith)
tree-canonical (suc n) leaf leaf p q rs rt same = refl
tree-canonical (suc n) leaf (node v h c l) p q rs rt same =
    absurd (ne-above n v leaf h l c (tree-canonical n) (omega arith) rt rs (omega arith) same)
tree-canonical (suc n) (node v h c l) leaf p q rs rt same = absurd (
    ne-above n v leaf h l c (tree-canonical n) (omega arith) rs rt (omega arith)
      (λ ρ. sym (same ρ)))
tree-canonical (suc n) (node v h c l) (node w h' c' l') p q rs rt same = elim (dec_lt v w) [
  | yes lt ↦
      absurd (ne-above n w (node v h c l) h' l' c' (tree-canonical n) (omega arith) rt rs lt same)
  | no ge ↦ elim (dec_lt w v) [
    | yes lt ↦ absurd (
        ne-above n v (node w h' c' l') h l c (tree-canonical n) (omega arith) rs rt lt
          (λ ρ. sym (same ρ)))
    | no le ↦
        let e : w ≡ v = omega arith in
        rw e (
          node-canonical n v h l c h' l' c' (tree-canonical n) (omega arith) rs (rw e at rt)
            (rw e at same))
  ]
]

-- Two reduced diagrams of one Boolean function are the same diagram behind the same edge.
pub eval_injective :
    (d e : Bdd)
    → IsReduced d.tree
    → IsReduced e.tree
    → ((ρ : Assignment) → eval d ρ ≡ eval e ρ)
    → d ≡ e
eval_injective d e rd re same =
    let n = suc (top d + top e) in
    bdd-canonical n d e (tree-canonical n) (omega arith) (omega arith) rd re same
