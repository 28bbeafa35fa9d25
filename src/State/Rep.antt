-- ===== src/State/Rep.antt =====
-- Reading a BDDNode: what it stands for is unique, survives later steps, and is what the accessors see.
use ibdd.Prelude.{ℕ, ◌≡◌, refl, sym, ◌∙◌, ap, subst, false, Option, some}
use mathlib.Core.Option.{some-injective}
use ibdd.Word.{IsAddress, ptr, negate, is_complement_edge}
use ibdd.Word.Laws.{ptr-to_word, is_complement_edge-to_word, negate-to_word, to_word_injective}
use ibdd.Diagram.{Tree, leaf, node, Bdd}
use ibdd.Diagram.Cofactor.{negation}
use ibdd.State.{DdNode, State}
use ibdd.State.Valid.{Rep, Denotes, Extends, IsIte}

pub Rep-IsAddress : (s : State) (t : Tree) (p : ℕ) → Rep s t p → IsAddress p
Rep-IsAddress s leaf p r = r.1
Rep-IsAddress s (node v h c l) p r = r.3

pub Rep-extends : {s s' : State} → Extends s s' → (t : Tree) (p : ℕ) → Rep s t p → Rep s' t p
Rep-extends x leaf p (e, a) = (e ∙ sym x.leaf, a)
Rep-extends x (node v h c l) p (q, r, cell, a, ne, hr, lr) =
    (q, r, x.cells p _ cell, a, (λ e. ne (e ∙ x.leaf)), Rep-extends x h q hr, Rep-extends x l r lr)

pub Denotes-extends :
    {s s' : State} {w : ℕ} {e : Bdd} → Extends s s' → Denotes s w e → Denotes s' w e
Denotes-extends {e} x d = record {
  node = d.node;
  word = d.word;
  rep = Rep-extends x e.tree d.node d.rep;
  reduced = d.reduced;
}

pub IsIte-extends : {s s' : State} → Extends s s' → (k : _) (r : ℕ) → IsIte s k r → IsIte s' k r
IsIte-extends x k r i = record {
  f = i.f;
  g = i.g;
  h = i.h;
  res = i.res;
  f_denotes = Denotes-extends x i.f_denotes;
  g_denotes = Denotes-extends x i.g_denotes;
  h_denotes = Denotes-extends x i.h_denotes;
  res_denotes = Denotes-extends x i.res_denotes;
  value = i.value;
  bound = i.bound;
}

-- The same cell is the same node.
cell_unique : {o : Option DdNode} {d e : DdNode} → o ≡ some d → o ≡ some e → d ≡ e
cell_unique {d} {e} x y = some-injective d e (sym x ∙ y)

-- A DDNode is the root of one diagram.
pub Rep-unique : (s : State) (t u : Tree) (p : ℕ) → Rep s t p → Rep s u p → t ≡ u
Rep-unique s leaf leaf p x y = refl
Rep-unique s leaf (node v h c l) p x y = absurd (y.4 x.0)
Rep-unique s (node v h c l) leaf p x y = absurd (x.4 y.0)
Rep-unique s (node v h c l) (node v' h' c' l') p (q, r, cell, a, ne, hr, lr)
      (q', r', cell', a', ne', hr', lr') =
    let same = cell_unique cell cell' in
    let highs =
      to_word_injective false false (Rep-IsAddress s h q hr) (Rep-IsAddress s h' q' hr')
        (λ i. (same i).high) in
    let lows =
      to_word_injective c c' (Rep-IsAddress s l r lr) (Rep-IsAddress s l' r' lr')
        (λ i. (same i).low) in
    let th = Rep-unique s h h' q hr (subst (Rep s h') (sym highs.0) hr') in
    let tl = Rep-unique s l l' r lr (subst (Rep s l') (sym lows.0) lr') in
    λ i. node ((same i).index) (th i) (lows.1 i) (tl i)

pub Denotes-unique : {s : State} {w : ℕ} (d e : Bdd) → Denotes s w d → Denotes s w e → d ≡ e
Denotes-unique {s} d e x y =
    let same =
      to_word_injective d.complement e.complement (Rep-IsAddress s d.tree x.node x.rep)
        (Rep-IsAddress s e.tree y.node y.rep) (sym x.word ∙ y.word) in
    let trees = Rep-unique s d.tree e.tree x.node x.rep (subst (Rep s e.tree) (sym same.0) y.rep) in
    λ i. record { complement = same.1 i; tree = trees i }

module _ {s : State} {w : ℕ} {e : Bdd} (d : Denotes s w e) where
  pub Denotes-IsAddress : IsAddress d.node
  Denotes-IsAddress = Rep-IsAddress s e.tree d.node d.rep

  pub ptr-Denotes : ptr w ≡ d.node
  ptr-Denotes = ap ptr d.word ∙ ptr-to_word Denotes-IsAddress e.complement

  pub is_complement_edge-Denotes : is_complement_edge w ≡ e.complement
  is_complement_edge-Denotes =
      ap is_complement_edge d.word ∙ is_complement_edge-to_word Denotes-IsAddress e.complement

  -- operator ! negates
  pub Denotes-negate : Denotes s (negate w) (negation e)
  Denotes-negate = record {
    node = d.node;
    word = ap negate d.word ∙ negate-to_word Denotes-IsAddress e.complement;
    rep = d.rep;
    reduced = d.reduced;
  }
