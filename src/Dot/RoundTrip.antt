-- ===== src/Dot/RoundTrip.antt =====
-- The reader gets the diagram back from the file, but for its labels.
use mathlib.Core.List.{append_assoc}
use Prim.Native.String.{String}
use ibdd.Prelude.{
  ℕ, zero, suc, ◌<◌, ◌≤◌, ◌≡◌, refl, sym, ◌∙◌, ap, subst, inl, inr, Bool, true, false, Option, none,
  some, List, [], ◌∷◌, ◌++◌, arith, ◌==◌, ==_iff, Bool-cases, if◌then◌else◌, Option-cases, drop,
  length, length-append,
}
use ibdd.Diagram.{Tree, leaf, node, top_tree, top, Bdd, IsReduced}
use ibdd.Dot.Lines.{name, blocks}
use ibdd.Dot.Printed.{print_node_lem}
use ibdd.Dot.Reader.{
  Drawing, drawing, target, is_circled, Entry, read_entries, find_entry, follow, read_graph,
}
use ibdd.Dot.{arrow, node_lines, head_lines, last_lines, print_node}
use ibdd.Marks.Nodes.{no_marks, IsIn-append_left, IsIn-append_right}
use ibdd.Marks.Shapes.{Spans, Spans-unique, shape_of, Rep-Spans, Denotes-Spanned}
use ibdd.Marks.Sweep.{addresses, IsIn}
use ibdd.Marks.{Marks}
use ibdd.Output.{Piece, address}
use ibdd.Platform.{Platform}
use ibdd.State.Rep.{Rep-IsAddress, ptr-Denotes, is_complement_edge-Denotes}
use ibdd.State.Valid.{Rep, Denotes, ValidHeap}
use ibdd.State.{DdNode, State, ok}
use ibdd.Word.Laws.{ptr-to_word, is_complement_edge-to_word}
use ibdd.Word.{ptr, is_complement_edge}

is_circled-arrow : (c : Bool) → is_circled (arrow c) ≡ c
unfolding arrow
is_circled-arrow true = refl
is_circled-arrow false = refl

module _ (s : State) where
  -- What the name of the DDNode at p is read as.
  abbrev target_of : ℕ → Option ℕ
  target_of p = if p == s.leaf then none else some p

  target-name : (p : ℕ) → target (name s p) ≡ target_of p
  target-name p = elim (Bool-cases (p == s.leaf)) [ inl y ↦ rw y refl | inr n ↦ rw n refl ]

  abbrev entry : ℕ → DdNode → Entry
  entry p d = record {
    node = p;
    low = target_of (ptr d.low);
    circled = is_complement_edge d.low;
    high = target_of (ptr d.high);
  }

  abbrev entries : List ℕ → List Entry
  entries [] = []
  entries (p ∷ l) =
      if p == s.leaf
      then entries l
      else elim (s.cell p) [ none ↦ entries l | some d ↦ entry p d ∷ entries l ]

  read_entries-block :
      (rounds p : ℕ) (d : DdNode) (rest : List Piece)
      → read_entries (suc rounds) (
          node_lines
            (address p)
            (name s (ptr d.low))
            (name s (ptr d.high))
            (is_complement_edge d.low)
          ++ rest)
        ≡ entry p d ∷ read_entries rounds rest
  unfolding read_entries node_lines
  read_entries-block rounds p d rest =
      rw
        (
          target-name (ptr d.low),
          target-name (ptr d.high),
          is_circled-arrow (is_complement_edge d.low),
        )
        refl

  read_entries-blocks :
      (l : List ℕ) (rounds : ℕ)
      → length (entries l) < rounds
      → read_entries rounds (blocks s l ++ last_lines) ≡ entries l
  unfolding read_entries last_lines
  read_entries-blocks l zero lt = absurd (omega arith)
  read_entries-blocks [] (suc rounds) lt = refl
  read_entries-blocks (p ∷ l) (suc rounds) lt = elim (Bool-cases (p == s.leaf)) [
    | inl y ↦ rw y (read_entries-blocks l (suc rounds) (rw y at lt))
    | inr n ↦ elim (Option-cases (s.cell p)) [
      | inl e ↦ rw (n, e) (read_entries-blocks l (suc rounds) (rw (n, e) at lt))
      | inr (d, e) ↦
          let fewer : suc (length (entries l)) < suc rounds = rw (n, e) at lt in
          let lines =
            node_lines (address p) (name s (ptr d.low)) (name s (ptr d.high))
              (is_complement_edge d.low) in
          rw (n, e)
            (ap (read_entries (suc rounds)) (append_assoc lines (blocks s l) last_lines)
              ∙ read_entries-block rounds p d (blocks s l ++ last_lines)
              ∙ ap (λ z. entry p d ∷ z) (read_entries-blocks l rounds (omega arith)))
    ]
  ]

  length-entries : (l : List ℕ) → length (entries l) ≤ length (blocks s l)
  unfolding node_lines
  length-entries [] = omega arith
  length-entries (p ∷ l) = elim (Bool-cases (p == s.leaf)) [
    | inl y ↦ rw y (length-entries l)
    | inr n ↦ elim (Option-cases (s.cell p)) [
      | inl e ↦ rw (n, e) (length-entries l)
      | inr (d, e) ↦ rw (n, e) (let le = length-entries l in omega arith)
    ]
  ]

  first_entry : {q : ℕ} (e : Entry) (es : List Entry) → e.node ≡ q → find_entry q (e ∷ es) ≡ some e
  first_entry {q} e es at = rw ((==_iff e.node q).1 at) refl

  -- The entry of a node among those of a list.
  find_entry-entries :
      (l : List ℕ) (q : ℕ) {d : DdNode}
      → IsIn q l
      → (q == s.leaf) ≡ false
      → s.cell q ≡ some d
      → find_entry q (entries l) ≡ some (entry q d)
  find_entry-entries [] q i inner cell = absurd i
  find_entry-entries (p ∷ l) q {d} i inner cell = elim (Bool-cases (p == q)) [
    | inl y ↦
        let at : p ≡ q = (==_iff p q).0 y in
        let inner_here = subst (λ z. (z == s.leaf) ≡ false) (sym at) inner in
        let cell_here = ap s.cell at ∙ cell in
        subst (λ z. find_entry z (entries (p ∷ l)) ≡ some (entry z d)) at
          (rw (inner_here, cell_here) (first_entry (entry p d) (entries l) refl))
    | inr other ↦
        let below : IsIn q l = elim i [ inl at ↦ absurd (ground arith) | inr j ↦ j ] in
        let found = find_entry-entries l q below inner cell in
        elim (Bool-cases (p == s.leaf)) [
          | inl y ↦ rw y found
          | inr n ↦ elim (Option-cases (s.cell p)) [
            | inl e ↦ rw (n, e) found
            | inr (d', e) ↦ rw (n, e, other) found
          ]
        ]
  ]

  read_graph-lines :
      (title : String) (p : ℕ) (c : Bool) (l : List ℕ) (depth : ℕ) {d : Drawing}
      → follow depth (entries l) (target_of p) ≡ some d
      → read_graph depth (head_lines title (name s p) c ++ blocks s l ++ last_lines) ≡ some (c, d)
  unfolding read_graph head_lines
  read_graph-lines title p c l depth followed =
      let le = length-entries l in
      let long = length-append (blocks s l) last_lines in
      let file = head_lines title (name s p) c ++ blocks s l ++ last_lines in
      let nodes : read_entries (length file) (drop 19 file) ≡ entries l =
        read_entries-blocks l (length file) (omega arith) in
      rw (target-name p, is_circled-arrow c, nodes, followed) refl

module _ ⦃m : Platform⦄ {s : State} (v : ValidHeap s) where
  -- With the entries of the nodes below it a diagram is read back.
  follow-entries :
      (t : Tree) (p depth : ℕ) (l : List ℕ)
      → Rep s t p
      → IsReduced t
      → top_tree t < depth
      → ((q : ℕ) → IsIn q (addresses s true (shape_of t) p) → IsIn q l)
      → follow depth (entries s l) (target_of s p) ≡ some (drawing t)
  unfolding follow
  follow-entries leaf p depth l (e, a) r lt inside = rw ((==_iff p s.leaf).1 e) refl
  follow-entries (node i h c b) p zero l r reduced lt inside = absurd (omega arith)
  follow-entries (node i h c b) p (suc depth) l (q, k, cell, a, ne, hr, br)
        (h_lt, b_lt, small, differ, rh, rb) lt inside =
      let whole : Rep s (node i h c b) p = (q, k, cell, a, ne, hr, br) in
      let inner : (p == s.leaf) ≡ false = ground arith in
      let high = ptr-to_word (Rep-IsAddress s h q hr) false in
      let low = ptr-to_word (Rep-IsAddress s b k br) c in
      let edge = is_complement_edge-to_word (Rep-IsAddress s b k br) c in
      let highs = addresses s true (shape_of h) q in
      let lows = addresses s true (shape_of b) k in
      let all : addresses s true (shape_of (node i h c b)) p ≡ p ∷ (lows ++ highs) =
        rw (cell, low, high) refl in
      let into =
        λ (x : ℕ) (j : IsIn x (p ∷ (lows ++ highs))). inside x (subst (IsIn x) (sym all) j) in
      let found = find_entry-entries s l p (into p (inl refl)) inner cell in
      let on_high =
        follow-entries h q depth l hr rh (omega arith)
          (λ x j. into x (inr (IsIn-append_right x lows highs j))) in
      let on_low =
        follow-entries b k depth l br rb (omega arith)
          (λ x j. into x (inr (IsIn-append_left x lows highs j))) in
      rw (inner, found, high, on_high, low, on_low, edge) refl

  module _ {w : ℕ} {e : Bdd} (d : Denotes s w e) where
    -- In a valid heap where no node is marked, printNode of a BDDNode of a reduced diagram into
    -- an empty file returns, and from the file a reader that has no heap, with more depth than
    -- the label of the root, gets back the edge of the root and the diagram without its labels:
    -- which nodes are the leaf, which children each other node has, and which low edges are
    -- complemented.
    pub print_node-read_graph :
        (title : String) (depth : ℕ)
        → top e < depth
        → (file : List Piece) × (marks : Marks) × (print_node w title [] no_marks s
            ≡ ok (file, marks) s)
          × (read_graph depth file ≡ some (e.complement, drawing e.tree))
    print_node-read_graph title depth lt =
        let (l, marks, run, none_marked, once, same) =
          print_node_lem v (Denotes-Spanned d) title [] in
        let x = Denotes-Spanned d in
        let at = ptr-Denotes d in
        let shapes =
          Spans-unique s x.shape (shape_of e.tree) d.node (subst (Spans s x.shape) at x.spans)
            (Rep-Spans s e.tree d.node d.rep) in
        let inside = λ (q : ℕ) (i : IsIn q (addresses s true (shape_of e.tree) d.node)).
          (same q).1 (rw (at, shapes) i) in
        let followed = follow-entries e.tree d.node depth l d.rep d.reduced lt inside in
        (
          _,
          marks,
          run,
          rw (at, is_complement_edge-Denotes d)
              (read_graph-lines s title d.node e.complement l depth followed),
        )
