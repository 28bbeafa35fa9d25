-- ===== src/Marks/Size.antt =====
-- countNodes of a BDDNode of a reduced diagram: the number of the different diagrams below it.
use ibdd.Prelude.{
  ℕ, suc, ◌≡◌, refl, ◌∙◌, ap, subst, inl, inr, Bool, true, false, List, [], ◌∷◌, ◌++◌, ◌==◌, ==_iff,
  Bool-cases, if◌then◌else◌, length,
}
use ibdd.Diagram.Reference.{Tree-discrete}
use ibdd.Diagram.{Tree, leaf, node, Bdd}
use ibdd.Marks.Distinct.{unmarked}
use ibdd.Marks.Nodes.{no_marks, nodes, distinct, cleared, count_run, cleared_lem, counted-distinct}
use ibdd.Marks.Shapes.{Spans, Spans-unique, shape_of, Rep-Spans, Denotes-Spanned}
use ibdd.Marks.Sweep.{addresses}
use ibdd.Marks.{Marks, mark, count_nodes}
use ibdd.Platform.{Platform}
use ibdd.State.Rep.{Rep-IsAddress, Rep-unique, ptr-Denotes}
use ibdd.State.Unique.{Rep-injective}
use ibdd.State.Valid.{Rep, Denotes, ValidHeap}
use ibdd.State.{State, ok}
use ibdd.Word.Laws.{ptr-to_word}

-- the diagrams below one, a diagram as often as there are paths to it
abbrev pub subtrees : Tree → List Tree
subtrees leaf = leaf ∷ []
subtrees (node i h c l) = node i h c l ∷ subtrees l ++ subtrees h

abbrev or_seen : {t u : Tree} → Dec (u ≡ t) → Bool → Bool
or_seen (yes same) b = true
or_seen (no differ) b = b

abbrev add : (Tree → Bool) → Tree → Tree → Bool
add seen t u = or_seen (Tree-discrete u t) (seen u)

-- the different diagrams of a list, but for those seen before
abbrev pub unseen : List Tree → (Tree → Bool) → List Tree
unseen [] seen = []
unseen (t ∷ l) seen = if seen t then unseen l seen else t ∷ unseen l (add seen t)

-- How many different diagrams are below an edge, itself among them.
abbrev pub size : Bdd → ℕ
size e = length (unseen (subtrees e.tree) (λ _. false))

-- The addresses of a list are the roots of the diagrams of another.
abbrev Names : State → List ℕ → List Tree → Type 0
Names s [] [] = Unit
Names s (p ∷ l) (t ∷ ts) = Rep s t p × Names s l ts
Names s _ _ = ⊥

Names-append :
    (s : State) (l l' : List ℕ) (ts ts' : List Tree)
    → Names s l ts
    → Names s l' ts'
    → Names s (l ++ l') (ts ++ ts')
Names-append s [] l' [] ts' n n' = n'
Names-append s [] l' (t ∷ ts) ts' n n' = absurd n
Names-append s (p ∷ l) l' [] ts' n n' = absurd n
Names-append s (p ∷ l) l' (t ∷ ts) ts' (r, n) n' = (r, Names-append s l l' ts ts' n n')

Names-addresses :
    (s : State) (t : Tree) (p : ℕ)
    → Rep s t p
    → Names s (addresses s true (shape_of t) p) (subtrees t)
Names-addresses s leaf p r = (r, tt)
Names-addresses s (node i h c l) p (q, r, cell, a, ne, hr, lr) =
    let low = ptr-to_word (Rep-IsAddress s l r lr) c in
    let high = ptr-to_word (Rep-IsAddress s h q hr) false in
    (
      (q, r, cell, a, ne, hr, lr),
      rw (cell, low, high)
          (Names-append s (addresses s true (shape_of l) r) (addresses s true (shape_of h) q)
            (subtrees l) (subtrees h) (Names-addresses s l r lr) (Names-addresses s h q hr)),
    )

module _ ⦃m₀ : Platform⦄ {s : State} (v : ValidHeap s) where
  -- The marked addresses are the roots of the diagrams seen.
  Agree : Marks → (Tree → Bool) → Type 0
  Agree m seen = (p : ℕ) (t : Tree) → Rep s t p → m p ≡ seen t

  Agree-mark :
      (m : Marks) (seen : Tree → Bool) (p : ℕ) (t : Tree)
      → Rep s t p
      → Agree m seen
      → Agree (mark m p true) (add seen t)
  unfolding Agree
  Agree-mark m seen p t r agree q u r' = by_same (Tree-discrete u t)
    where
      at : (u ≡ t) → (q == p) ≡ true
      at same = (==_iff q p).1 (Rep-injective v t q p (subst (λ z. Rep s z q) same r') r)

      by_same : (d : Dec (u ≡ t)) → mark m p true q ≡ or_seen d (seen u)
      by_same (yes same) = rw (at same) refl
      by_same (no differ) = elim (Bool-cases (q == p)) [
        | inl y ↦ absurd (differ (Rep-unique s u t p (subst (Rep s u) ((==_iff q p).0 y) r') r))
        | inr n ↦ rw n (agree q u r')
      ]

  length-unmarked :
      (l : List ℕ) (ts : List Tree) (m : Marks) (seen : Tree → Bool)
      → Names s l ts
      → Agree m seen
      → length (unmarked l m) ≡ length (unseen ts seen)
  unfolding Agree
  length-unmarked [] [] m seen n agree = refl
  length-unmarked [] (t ∷ ts) m seen n agree = absurd n
  length-unmarked (p ∷ l) [] m seen n agree = absurd n
  length-unmarked (p ∷ l) (t ∷ ts) m seen (r, n) agree = elim (Bool-cases (seen t)) [
    | inl y ↦ rw (agree p t r, y) (length-unmarked l ts m seen n agree)
    | inr k ↦
        rw (agree p t r, k)
          (ap suc
            (length-unmarked l ts (mark m p true) (add seen t) n (Agree-mark m seen p t r agree)))
  ]

  module _ {w : ℕ} {e : Bdd} (d : Denotes s w e) where
    distinct-size : length (distinct v (Denotes-Spanned d)) ≡ size e
    unfolding Agree
    distinct-size =
        let x = Denotes-Spanned d in
        let at = ptr-Denotes d in
        let shapes =
          Spans-unique s x.shape (shape_of e.tree) d.node (subst (Spans s x.shape) at x.spans)
            (Rep-Spans s e.tree d.node d.rep) in
        length-unmarked (nodes v x true) (subtrees e.tree) no_marks (λ _. false)
          (rw (at, shapes) (Names-addresses s e.tree d.node d.rep)) (λ q t r. refl)

    pub count_nodes-size :
        (marks : Marks) × (count_nodes w no_marks s ≡ ok (size e, marks) s)
        × ((q : ℕ) → marks q ≡ false)
    count_nodes-size = (
      cleared v (Denotes-Spanned d),
      count_run v (Denotes-Spanned d)
          ∙ ap (λ n. ok (n, cleared v (Denotes-Spanned d)) s)
              (counted-distinct v (Denotes-Spanned d) ∙ distinct-size),
      cleared_lem v (Denotes-Spanned d),
    )
