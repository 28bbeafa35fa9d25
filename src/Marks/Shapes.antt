-- ===== src/Marks/Shapes.antt =====
-- What a walk over a diagram sees of it: a tree of labels, whatever its functions are.
use mathlib.Core.Option.{some-injective}
use ibdd.Prelude.{ℕ, ◌<◌, ◌≡◌, ◌≢◌, refl, sym, ◌∙◌, ap, subst, some, Bool, arith}
use ibdd.Diagram.{Tree, leaf, node, top_tree, Bdd, IsReduced}
use ibdd.Platform.{Platform}
use ibdd.State.Rep.{Rep-IsAddress, ptr-Denotes}
use ibdd.State.Valid.{Rep, Denotes, ValidHeap}
use ibdd.State.{State, DdNode}
use ibdd.Unique.Finds.{triple}
use ibdd.Word.{ptr}
use ibdd.Word.Laws.{ptr-to_word}

pub data Shape : Type 0 where
  point : Shape
  fork : ℕ → (high low : Shape) → Shape

abbrev pub label : Shape → ℕ
label point = 0
label (fork i h l) = i

-- The labels fall from a node to its children.
abbrev pub IsOrdered : Shape → Type 0
IsOrdered point = Unit
IsOrdered (fork i h l) = (label h < i) × (label l < i) × IsOrdered h × IsOrdered l

-- The DDNodes below the address p have the shape.
abbrev pub Spans : State → Shape → ℕ → Type 0
Spans s point p = p ≡ s.leaf
Spans s (fork i h l) p =
    (d : DdNode) × (s.cell p ≡ some d)
    × (p ≢ s.leaf)
    × (d.index ≡ i)
    × Spans s h (ptr d.high)
    × Spans s l (ptr d.low)

-- w is the word of a node whose labels fall: of any BDDNode, also one that is not reduced.
pub record Spanned (s : State) (w : ℕ) : Type 0 where
  pub shape : Shape
  pub spans : Spans s shape (ptr w)
  pub ordered : IsOrdered shape

pub Spans-unique : (s : State) (t u : Shape) (p : ℕ) → Spans s t p → Spans s u p → t ≡ u
Spans-unique s point point p x y = refl
Spans-unique s point (fork i h l) p x y = absurd (y.2 x)
Spans-unique s (fork i h l) point p x y = absurd (x.2 y)
Spans-unique s (fork i h l) (fork j h' l') p (d, cell, ne, e, hs, ls)
      (d', cell', ne', e', hs', ls') =
    let same = some-injective d d' (sym cell ∙ cell') in
    let indices = sym e ∙ (λ i. (same i).index) ∙ e' in
    let highs =
      Spans-unique s h h' (ptr d.high) hs (subst (λ z. Spans s h' (ptr z.high)) (sym same) hs') in
    let lows =
      Spans-unique s l l' (ptr d.low) ls (subst (λ z. Spans s l' (ptr z.low)) (sym same) ls') in
    λ i. fork (indices i) (highs i) (lows i)

pub Spans-cell :
    ⦃m : Platform⦄ {s : State} (v : ValidHeap s) (t : Shape) (p : ℕ)
    → Spans s t p
    → (d : DdNode) × (s.cell p ≡ some d) × (d.index ≡ label t)
Spans-cell {s} v point p e = (triple 0 0 0, ap s.cell e ∙ v.leaf_cell, refl)
Spans-cell v (fork i h l) p (d, cell, ne, e, hs, ls) = (d, cell, e)

-- The shape of a reduced diagram.
abbrev pub shape_of : Tree → Shape
shape_of leaf = point
shape_of (node i h c l) = fork i (shape_of h) (shape_of l)

label-shape_of : (t : Tree) → label (shape_of t) ≡ top_tree t
label-shape_of leaf = refl
label-shape_of (node i h c l) = refl

shape_of-IsOrdered : (t : Tree) → IsReduced t → IsOrdered (shape_of t)
shape_of-IsOrdered leaf r = tt
shape_of-IsOrdered (node i h c l) (h_lt, l_lt, small, differ, hr, lr) =
    let eh = label-shape_of h in
    let el = label-shape_of l in
    (omega arith, omega arith, shape_of-IsOrdered h hr, shape_of-IsOrdered l lr)

pub Rep-Spans : (s : State) (t : Tree) (p : ℕ) → Rep s t p → Spans s (shape_of t) p
Rep-Spans s leaf p (e, a) = e
Rep-Spans s (node i h c l) p (q, r, cell, a, ne, hr, lr) = (
  _,
  cell,
  ne,
  refl,
  subst (Spans s (shape_of h)) (sym (ptr-to_word (Rep-IsAddress s h q hr) Bool.false))
      (Rep-Spans s h q hr),
  subst (Spans s (shape_of l)) (sym (ptr-to_word (Rep-IsAddress s l r lr) c)) (Rep-Spans s l r lr),
)

pub Denotes-Spanned : {s : State} {w : ℕ} {e : Bdd} → Denotes s w e → Spanned s w
Denotes-Spanned {s} {e} d = record {
  shape = shape_of e.tree;
  spans = subst (Spans s (shape_of e.tree)) (sym (ptr-Denotes d)) (Rep-Spans s e.tree d.node d.rep);
  ordered = shape_of-IsOrdered e.tree d.reduced;
}
