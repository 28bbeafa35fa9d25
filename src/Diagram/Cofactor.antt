-- ===== src/Diagram/Cofactor.antt =====
-- Shannon decomposition of a diagram.
use ibdd.Prelude.{
  ℕ, ◌<◌, ◌≤◌, ◌≡◌, refl, sym, ap, ◌∙◌, inl, inr, Bool, true, false, not, arith, ◌==◌, Bool-cases,
  if◌then◌else◌,
}
use ibdd.Diagram.{
  Tree, leaf, node, Bdd, bdd, Assignment, flip_if, eval_tree, eval, top_tree, top, IsReduced,
}

abbrev pub negation : Bdd → Bdd
negation e = bdd (not e.complement) e.tree

pub eval-negation : (e : Bdd) (ρ : Assignment) → eval (negation e) ρ ≡ not (eval e ρ)
unfolding eval
eval-negation e ρ = ground arith

-- An assignment with one variable set.
unfoldable pub update : Assignment → ℕ → Bool → Assignment
update ρ v b u = if u == v then b else ρ u

-- Variables at or above a bound that lies over the root do not matter.
pub eval_tree-congr :
    (t : Tree) (ρ σ : Assignment)
    → IsReduced t
    → ((u : ℕ) → u ≤ top_tree t → ρ u ≡ σ u)
    → eval_tree t ρ ≡ eval_tree t σ
unfolding eval_tree
eval_tree-congr leaf ρ σ r h = refl
eval_tree-congr (node v a c b) ρ σ (p, q, small, ne, ra, rb) h = ground (
  arith,
  h v,
  eval_tree-congr a ρ σ ra (λ u i. h u (omega arith)),
  eval_tree-congr b ρ σ rb (λ u i. h u (omega arith)),
)

pub update_self : (ρ : Assignment) (v : ℕ) (b : Bool) → update ρ v b v ≡ b
unfolding update
update_self ρ v b = ground arith

pub update_ne : (ρ : Assignment) (v u : ℕ) (b : Bool) → u < v → update ρ v b u ≡ ρ u
unfolding update
update_ne ρ v u b h = ground arith

-- A diagram does not depend on a variable above its root.
pub eval_tree-update_above :
    (t : Tree) (v : ℕ) (b : Bool) (ρ : Assignment)
    → IsReduced t
    → top_tree t < v
    → eval_tree t (update ρ v b) ≡ eval_tree t ρ
eval_tree-update_above t v b ρ r h =
    eval_tree-congr t (update ρ v b) ρ r (λ u i. update_ne ρ v u b (omega arith))

-- The cofactor of a diagram whose root is at or below the variable.
unfoldable pub cofactor : Bool → ℕ → Bdd → Bdd
cofactor b i e = elim e.tree [
  | leaf ↦ e
  | node v h c l ↦
      if v == i then (if b then bdd e.complement h else bdd (flip_if e.complement c) l) else e
]

pub eval-cofactor : (i : ℕ) (e : Bdd) (ρ : Assignment) → eval e ρ ≡ eval (cofactor (ρ i) i e) ρ
unfolding eval eval_tree cofactor
eval-cofactor i e ρ = by_tree e.complement e.tree
  where
    by_tree : (c : Bool) (t : Tree) → eval (bdd c t) ρ ≡ eval (cofactor (ρ i) i (bdd c t)) ρ
    by_tree c leaf = refl
    by_tree c (node v h c' l) = ground arith

-- The cofactor lies below the variable,
pub top-cofactor :
    (b : Bool) (i : ℕ) (e : Bdd) → IsReduced e.tree → 0 < i → top e ≤ i → top (cofactor b i e) < i
unfolding cofactor
top-cofactor b i e r pos le = by_tree e.complement e.tree r le
  where
    by_tree :
        (c : Bool) (t : Tree) → IsReduced t → top_tree t ≤ i → top (cofactor b i (bdd c t)) < i
    by_tree c leaf r le = pos
    by_tree c (node v h c' l) r le = ground arith

-- and the high one has the edge of the diagram.
pub complement-cofactor : (i : ℕ) (e : Bdd) → (cofactor true i e).complement ≡ e.complement
unfolding cofactor
complement-cofactor i e = by_tree e.complement e.tree
  where
    by_tree : (c : Bool) (t : Tree) → (cofactor true i (bdd c t)).complement ≡ c
    by_tree c leaf = refl
    by_tree c (node v h c' l) = ground arith

IsReduced-cofactor :
    (b : Bool) (i : ℕ) (e : Bdd) → IsReduced e.tree → IsReduced (cofactor b i e).tree
unfolding cofactor
IsReduced-cofactor b i e r = by_tree e.complement e.tree r
  where
    by_tree : (c : Bool) (t : Tree) → IsReduced t → IsReduced (cofactor b i (bdd c t)).tree
    by_tree c leaf r = tt
    by_tree c (node v h c' l) r = elim (Bool-cases (v == i)) [
      | inl y ↦ rw y (by_branch b)
      | inr n ↦ rw n r
    ]
      where
        by_branch : (b : Bool) → IsReduced (if b then bdd c h else bdd (flip_if c c') l).tree
        by_branch true = r.4
        by_branch false = r.5

-- The cofactor is the diagram with the variable set.
pub eval-cofactor-update :
    (b : Bool) (i : ℕ) (e : Bdd) (ρ : Assignment)
    → IsReduced e.tree
    → 0 < i
    → top e ≤ i
    → eval (cofactor b i e) ρ ≡ eval e (update ρ i b)
unfolding eval
eval-cofactor-update b i e ρ r pos le =
    let σ = update ρ i b in
    let d = cofactor b i e in
    ap (flip_if d.complement) (
      sym (
        eval_tree-update_above d.tree i b ρ (IsReduced-cofactor b i e r)
          (top-cofactor b i e r pos le)))
    ∙ ap (λ x. eval (cofactor x i e) σ) (sym (update_self ρ i b))
    ∙ sym (eval-cofactor i e σ)
