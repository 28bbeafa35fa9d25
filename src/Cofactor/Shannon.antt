-- ===== src/Cofactor/Shannon.antt =====
-- getCofactor at the label of the root or above it, where ite and existRecur call it.
use ibdd.Prelude.{
  ℕ, suc, ◌<◌, ◌≤◌, ◌≡◌, inl, inr, refl, ◌∙◌, subst, Bool, true, false, arith, ltb, ◌==◌, ==_iff,
  Bool-cases,
}
use ibdd.Platform.{Platform}
use ibdd.Cofactor.{child, get_cofactor_recur, get_cofactor, is_high, negate_if, Factor}
use ibdd.Diagram.{Tree, leaf, node, Bdd, bdd, flip_if, top_tree, top}
use ibdd.Diagram.Cofactor.{cofactor}
use ibdd.State.{State, Outcome, ok, and_then}
use ibdd.State.Rep.{Denotes-negate, is_complement_edge-Denotes}
use ibdd.State.Valid.{Denotes, ValidHeap}
use ibdd.Unique.Node.{
  get_index-Denotes, ptr-ne-zero, get_high-Denotes, get_low-Denotes, high-Denotes, low-Denotes,
}
use ibdd.Word.{edge_of, regular, to_word}

-- A command that reads a BDDNode and changes nothing.
abbrev pub Reads : State → Outcome ℕ → Bdd → Type 0
Reads s r e = (w : ℕ) × (r ≡ ok w s) × Denotes s w e

pub negate_if-Denotes :
    {s : State} {w : ℕ} {e : Bdd} (b : Bool)
    → Denotes s w e
    → Denotes s (negate_if b w) (bdd (flip_if b e.complement) e.tree)
negate_if-Denotes true d = Denotes-negate d
negate_if-Denotes false d = d

flip_if-false : (c : Bool) → flip_if c false ≡ c
flip_if-false true = refl
flip_if-false false = refl

module _ ⦃m : Platform⦄ {s : State} (v : ValidHeap s) where
  child-Denotes :
      {w i : ℕ} {c c' : Bool} {h l : Tree} (b : Bool)
      → Denotes s w (bdd c (node i h c' l))
      → Reads s (child w b s) (cofactor b i (bdd c (node i h c' l)))
  unfolding child cofactor
  child-Denotes {w} {i} {c} {h} true d = (
    negate_if c (to_word d.rep.0 regular),
    rw (get_high-Denotes v d, is_complement_edge-Denotes d),
    rw ((==_iff i i).1 refl) (
        subst (λ b. Denotes s (negate_if c (to_word d.rep.0 regular)) (bdd b h)) (flip_if-false c)
          (negate_if-Denotes c (high-Denotes v d))),
  )
  child-Denotes {w} {i} {c} {c'} false d = (
    negate_if c (to_word d.rep.1 (edge_of c')),
    rw (get_low-Denotes v d, is_complement_edge-Denotes d),
    rw ((==_iff i i).1 refl) (negate_if-Denotes c (low-Denotes v d)),
  )

  pub above :
      {w : ℕ} {e : Bdd} (i : ℕ) (b : Bool)
      → Denotes s w e
      → top e < i
      → (get_cofactor_recur (suc (top e)) w i b s ≡ ok w s) × (cofactor b i e ≡ e)
  unfolding get_cofactor_recur cofactor
  above {e} i b d lt =
      let test : ltb (top e) i ≡ true = ground arith in
      (
        rw (ptr-ne-zero v d, get_index-Denotes v d, and_then, test),
        unchanged e.complement e.tree lt,
      )
    where
      unchanged : (c : Bool) (t : Tree) → top_tree t < i → cofactor b i (bdd c t) ≡ bdd c t
      unchanged c leaf lt = refl
      unchanged c (node j h c' l) lt = let test : (j == i) ≡ false = ground arith in rw test

  at_root :
      {w i : ℕ} {c c' : Bool} {h l : Tree} (b : Bool)
      → Denotes s w (bdd c (node i h c' l))
      → get_cofactor_recur (suc i) w i b s ≡ child w b s
  unfolding get_cofactor_recur
  at_root {i} b d =
      let test : ltb i i ≡ false = ground arith in
      rw (ptr-ne-zero v d, get_index-Denotes v d, and_then, test, (==_iff i i).1 refl)

  by_tree :
      {w : ℕ} (c : Bool) (t : Tree) (i : ℕ) (b : Bool)
      → Denotes s w (bdd c t)
      → 0 < i
      → top_tree t ≤ i
      → Reads s (get_cofactor_recur (suc (top_tree t)) w i b s) (cofactor b i (bdd c t))
  by_tree {w} c leaf i b d pos le = let (run, same) = above i b d pos in (w, run, rw same d)
  by_tree {w} c (node j h c' l) i b d pos le = elim (Bool-cases (ltb j i)) [
    | inl y ↦ let (run, same) = above i b d (ground arith) in (w, run, rw same d)
    | inr n ↦
        let e : j ≡ i = ground arith in
        subst
          (λ k. Reads s (get_cofactor_recur (suc j) w k b s) (cofactor b k (bdd c (node j h c' l))))
          e (let (u, run, du) = child-Denotes b d in (u, at_root b d ∙ run, du))
  ]

  -- In a valid heap `getCofactor` at a positive index that is at the label of the root or above
  -- it returns a BDDNode of the cofactor and changes nothing.
  pub get_cofactor-Denotes :
      {w : ℕ} {e : Bdd} (i : ℕ) (factor : Factor)
      → Denotes s w e
      → 0 < i
      → top e ≤ i
      → Reads s (get_cofactor w i factor s) (cofactor (is_high factor) i e)
  unfolding get_cofactor
  get_cofactor-Denotes {e} i factor d pos le =
      rw (get_index-Denotes v d) (by_tree e.complement e.tree i (is_high factor) d pos le)
