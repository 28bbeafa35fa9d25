-- ===== src/Unique/Node.antt =====
-- The terminals and the nodes that `findAdd` returns, as diagrams; what the accessors of a BDDNode read.
use ibdd.Prelude.{
  ℕ, ◌^◌, ◌<◌, ◌≡◌, ◌≢◌, refl, sym, ◌∙◌, ap, subst, Bool, true, false, some, arith, ◌==◌, ==_iff,
}
use mathlib.Core.Option.{some-injective}
use ibdd.Platform.{Platform}
use ibdd.Diagram.{Tree, leaf, node, Bdd, bdd, top_tree, top}
use ibdd.Node.{get_high, get_low, get_index, is_leaf}
use ibdd.State.{DdNode, State, ok}
use ibdd.State.Rep.{Denotes-extends, Denotes-IsAddress, ptr-Denotes}
use ibdd.State.Returns.{Returns, returns, mono, bind, same}
use ibdd.State.Unique.{Denotes-injective}
use ibdd.State.Valid.{Rep, Denotes, Valid, ValidHeap}
use ibdd.Unique.Finds.{triple, cell-IsAddress}
use ibdd.Unique.FindAdd.{find_add-cell}
use ibdd.Unique.{find_add, bdd_node}
use ibdd.Word.{IsAddress, edge_of, regular, ptr, to_word}
use ibdd.Word.Laws.{to_word-regular}

module _ ⦃m : Platform⦄ {s : State} (v : ValidHeap s) where
  pub leaf-IsAddress : IsAddress s.leaf
  leaf-IsAddress = cell-IsAddress v s.leaf _ v.leaf_cell

  pub terminal1-Denotes : Denotes s s.terminal1 (bdd false leaf)
  terminal1-Denotes = record {
    node = s.leaf;
    word = v.terminal1;
    rep = (refl, leaf-IsAddress);
    reduced = tt;
  }

  pub terminal0-Denotes : Denotes s s.terminal0 (bdd true leaf)
  terminal0-Denotes = record {
    node = s.leaf;
    word = v.terminal0;
    rep = (refl, leaf-IsAddress);
    reduced = tt;
  }

  -- The node of a triple (i, g, h) whose children are lower, differ, and the first is regular.
  pub triple-Denotes :
      {g h : ℕ} {a : Tree} {e : Bdd} (i p : ℕ)
      → Denotes s g (bdd false a)
      → Denotes s h e
      → top_tree a < i
      → top e < i
      → i < 2 ^ 16
      → g ≢ h
      → s.cell p ≡ some (triple i g h)
      → Denotes s p (bdd false (node i a e.complement e.tree))
  triple-Denotes {g} {h} {a} {e} i p dg dh la le small ne cell = record {
    node = p;
    word = sym (to_word-regular (cell-IsAddress v p _ cell));
    rep = (
      dg.node,
      dh.node,
      (cell ∙ (λ j. some (triple i (dg.word j) (dh.word j)))),
      cell-IsAddress v p _ cell,
      not_leaf,
      dg.rep,
      dh.rep,
    );
    reduced = (la, le, small, differ, dg.reduced, dh.reduced);
  }
    where
      not_leaf : p ≢ s.leaf
      not_leaf q =
          let same : triple i g h ≡ triple 0 0 0 =
            some-injective (triple i g h) (triple 0 0 0) (sym cell ∙ ap s.cell q ∙ v.leaf_cell) in
          let zero_index : i ≡ 0 = λ j. (same j).index in omega arith

      differ : bdd false a ≢ bdd e.complement e.tree
      differ q = ne (Denotes-injective v e g h (subst (Denotes s g) q dg) dh)

module _ ⦃m : Platform⦄ {s : State} (v : Valid s) where
  -- `findAdd` on such a triple
  pub find_add-Denotes :
      {g h : ℕ} {a : Tree} {e : Bdd} (i : ℕ)
      → Denotes s g (bdd false a)
      → Denotes s h e
      → top_tree a < i
      → top e < i
      → i < 2 ^ 16
      → g ≢ h
      → Returns s
          (λ p s'. Denotes s' p (bdd false (node i a e.complement e.tree)))
          (find_add i g h s)
  find_add-Denotes {g} {h} i dg dh la le small ne =
      mono (find_add-cell v i g h small) λ p s' k (cell, others). returns k (
        triple-Denotes k.valid.heap i p (Denotes-extends k.extends dg)
          (Denotes-extends k.extends dh) la le small ne cell)

-- A regular BDDNode is the address of its node, and may be read behind either edge.
pub to_word-Denotes :
    {s : State} {p : ℕ} {t : Tree} (c : Bool)
    → Denotes s p (bdd false t)
    → Denotes s (to_word p (edge_of c)) (bdd c t)
to_word-Denotes {s} {p} {t} c d =
    let same : p ≡ d.node = d.word ∙ to_word-regular (Denotes-IsAddress d) in
    record {
      node = d.node;
      word = ap (λ z. to_word z (edge_of c)) same;
      rep = d.rep;
      reduced = d.reduced;
    }

module _ ⦃m : Platform⦄ {s : State} (v : Valid s) where
  -- the constructor `BDDNode(i, g, h, edge)`
  pub bdd_node-Denotes :
      {g h : ℕ} {a : Tree} {e : Bdd} (i : ℕ) (c : Bool)
      → Denotes s g (bdd false a)
      → Denotes s h e
      → top_tree a < i
      → top e < i
      → i < 2 ^ 16
      → g ≢ h
      → Returns s
          (λ w s'. Denotes s' w (bdd c (node i a e.complement e.tree)))
          (bdd_node i g h (edge_of c) s)
  unfolding bdd_node
  bdd_node-Denotes i c dg dh la le small ne =
      let nonzero : (i == 0) ≡ false = ground arith in
      rw nonzero (
        bind (find_add-Denotes v i dg dh la le small ne)
          λ p s' k d. same k.valid (to_word-Denotes c d))

module _ ⦃m : Platform⦄ {s : State} (v : ValidHeap s) where
  -- What the accessors of a BDDNode read.
  pub Rep-index :
      (t : Tree) (p : ℕ) → Rep s t p → (d : DdNode) × (s.cell p ≡ some d) × (d.index ≡ top_tree t)
  Rep-index leaf p (e, a) = (triple 0 0 0, ap s.cell e ∙ v.leaf_cell, refl)
  Rep-index (node i h c l) p (q, r, cell, a, ne, hr, lr) = (_, cell, refl)

  pub get_index-Denotes : {w : ℕ} {e : Bdd} → Denotes s w e → get_index w s ≡ ok (top e) s
  unfolding get_index
  get_index-Denotes {w} {e} d =
      let (n, cell, index) = Rep-index e.tree d.node d.rep in rw (ptr-Denotes d, cell, index)

  pub is_leaf-Denotes : {w : ℕ} {c : Bool} → Denotes s w (bdd c leaf) → is_leaf w s ≡ ok true s
  unfolding is_leaf
  is_leaf-Denotes d = rw (ptr-Denotes d) (ap (λ b. ok b s) ((==_iff d.node s.leaf).1 d.rep.0))

  pub is_leaf-Denotes_node :
      {w i : ℕ} {b c : Bool} {h l : Tree}
      → Denotes s w (bdd c (node i h b l))
      → is_leaf w s ≡ ok false s
  unfolding is_leaf
  is_leaf-Denotes_node d = let ne = d.rep.4 in rw (ptr-Denotes d) (ap (λ b. ok b s) (ground arith))

  pub ptr-ne-zero : {w : ℕ} {e : Bdd} → Denotes s w e → (ptr w == 0) ≡ false
  ptr-ne-zero d = let a = Denotes-IsAddress d in rw (ptr-Denotes d) (ground arith)

  module _ {w i : ℕ} {c c' : Bool} {h l : Tree} (d : Denotes s w (bdd c (node i h c' l))) where
    pub get_high-Denotes : get_high w s ≡ ok (to_word d.rep.0 regular) s
    unfolding get_high
    get_high-Denotes = rw (ptr-ne-zero d, ptr-Denotes d, d.rep.2)

    pub get_low-Denotes : get_low w s ≡ ok (to_word d.rep.1 (edge_of c')) s
    unfolding get_low
    get_low-Denotes = rw (ptr-ne-zero d, ptr-Denotes d, d.rep.2)

    pub high-Denotes : Denotes s (to_word d.rep.0 regular) (bdd false h)
    high-Denotes = record { node = d.rep.0; word = refl; rep = d.rep.5; reduced = d.reduced.4 }

    pub low-Denotes : Denotes s (to_word d.rep.1 (edge_of c')) (bdd c' l)
    low-Denotes = record { node = d.rep.1; word = refl; rep = d.rep.6; reduced = d.reduced.5 }
