-- ===== src/Dot/Lines.antt =====
-- The lines of a node, and a run of printNodeRecur at an inner node.
use mathlib.Core.List.{append_assoc}
use ibdd.Prelude.{
  ℕ, suc, ◌≡◌, refl, sym, ◌∙◌, ap, inl, inr, true, false, none, some, List, [], ◌∷◌, ◌++◌, ◌==◌,
  Bool-cases, if◌then◌else◌,
}
use ibdd.Dot.{print_index, node_lines, print_node_recur}
use ibdd.Marks.{Marks, mark}
use ibdd.Node.{is_leaf, get_high, get_low}
use ibdd.Output.{Piece, text, address}
use ibdd.State.{State, DdNode, ok, load, ◌>>=◌, and_then}
use ibdd.Word.{ptr, is_complement_edge}

-- What the lines call the DDNode at p.
abbrev pub name : State → ℕ → Piece
name s p = if p == s.leaf then text "terminal" else address p

-- The lines of the DDNode at p: its edges to its two children. The leaf has none.
abbrev pub block : State → ℕ → List Piece
block s p = if p == s.leaf then [] else elim (s.cell p) [
  | none ↦ []
  | some d ↦
      node_lines (address p) (name s (ptr d.low)) (name s (ptr d.high)) (is_complement_edge d.low)
]

abbrev pub blocks : State → List ℕ → List Piece
blocks s [] = []
blocks s (q ∷ l) = block s q ++ blocks s l

pub blocks-append : (s : State) (xs ys : List ℕ) → blocks s (xs ++ ys) ≡ blocks s xs ++ blocks s ys
blocks-append s [] ys = refl
blocks-append s (x ∷ xs) ys =
    ap (λ l. block s x ++ l) (blocks-append s xs ys)
    ∙ sym (append_assoc (block s x) (blocks s xs) (blocks s ys))

pub print_index_lem : (s : State) (w : ℕ) → print_index w s ≡ ok (name s (ptr w)) s
unfolding print_index is_leaf
print_index_lem s w = elim (Bool-cases (ptr w == s.leaf)) [
  | inl y ↦ rw (y, ◌>>=◌) refl
  | inr n ↦ rw (n, ◌>>=◌) refl
]

module _ (s : State) (w p : ℕ) {d : DdNode} where
  get_high_run : ptr w ≡ p → s.cell p ≡ some d → (p == 0) ≡ false → get_high w s ≡ ok d.high s
  unfolding get_high
  get_high_run at cell nonnull = rw (at, nonnull, and_then, cell) refl

  get_low_run : ptr w ≡ p → s.cell p ≡ some d → (p == 0) ≡ false → get_low w s ≡ ok d.low s
  unfolding get_low
  get_low_run at cell nonnull = rw (at, nonnull, and_then, cell) refl

module _ (s : State) (w p : ℕ) {d : DdNode} (at : ptr w ≡ p) (cell : s.cell p ≡ some d)
    (inner : (p == s.leaf) ≡ false) where
  own_block :
      block s p
      ≡ node_lines (address p) (name s (ptr d.low)) (name s (ptr d.high)) (is_complement_edge d.low)
  own_block = rw (inner, cell) refl

  is_leaf_run : is_leaf w s ≡ ok false s
  unfolding is_leaf
  is_leaf_run = rw (at, inner) refl

  -- At an inner node without the flag its block is written, and then those of its children.
  pub inner_run :
      (fuel : ℕ) (m : Marks) (file : List Piece) {m₁ m₂ : Marks} {file₁ file₂ : List Piece}
      → (p == 0) ≡ false
      → m p ≡ false
      → print_node_recur fuel d.low (file ++ block s p) (mark m p true) s ≡ ok (file₁, m₁) s
      → print_node_recur fuel d.high file₁ m₁ s ≡ ok (file₂, m₂) s
      → print_node_recur (suc fuel) w file m s ≡ ok (file₂, m₂) s
  unfolding print_node_recur load
  inner_run fuel m file nonnull new low_run high_run =
      rw
        (
          at,
          cell,
          and_then,
          new,
          ◌>>=◌,
          is_leaf_run,
          get_high_run s w p at cell nonnull,
          get_low_run s w p at cell nonnull,
          print_index_lem s w,
          print_index_lem s d.low,
          print_index_lem s d.high,
          at,
          inner,
          rw own_block at low_run,
          and_then,
          high_run,
        )
        refl
