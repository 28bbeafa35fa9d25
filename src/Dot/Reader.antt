-- ===== src/Dot/Reader.antt =====
-- A reader of the graph that printNode writes: it has the file alone, and finds the lines by their places.
use package.text.Mathlib.Text.{◌==◌}
use ibdd.Prelude.{
  ℕ, zero, suc, Bool, true, false, Option, none, some, List, [], ◌∷◌, length, get_or, drop,
  if◌then◌else◌,
}
use ibdd.Prelude
use ibdd.Diagram.{Tree, leaf, node}
use ibdd.Output.{Piece, text, address, number, end_line}
use ibdd.Partial.{◌>>=◌}

-- A diagram as it is drawn, without its labels: the square of the leaf, and an oval with its two edges.
pub data Drawing : Type 0 where
  square : Drawing
  oval : (high : Drawing) → (circled : Bool) → (low : Drawing) → Drawing

abbrev pub drawing : Tree → Drawing
drawing leaf = square
drawing (node i h c l) = oval (drawing h) c (drawing l)

-- the node that an edge leads to, `none` for the terminal
abbrev pub target : Piece → Option ℕ
target (address p) = some p
target (text t) = none
target (number n) = none
target end_line = none

abbrev pub is_circled : Piece → Bool
is_circled (address p) = false
is_circled (text t) = t == " [arrowhead=odot]"
is_circled (number n) = false
is_circled end_line = false

-- the edges of one node
pub record Entry : Type 0 where
  pub node : ℕ
  pub low : Option ℕ
  pub circled : Bool
  pub high : Option ℕ

abbrev pub read_entry : ℕ → List Piece → Entry
read_entry p file = record {
  node = p;
  low = target (get_or file 6 end_line);
  circled = is_circled (get_or file 8 end_line);
  high = target (get_or file 13 end_line);
}

-- the nodes: 17 pieces each, the first of which is followed by an address
unfoldable pub read_entries : (rounds : ℕ) → List Piece → List Entry
read_entries zero file = []
read_entries (suc rounds) file = elim (target (get_or file 1 end_line)) [
  | none ↦ []
  | some p ↦ read_entry p file ∷ read_entries rounds (drop 17 file)
]

abbrev pub find_entry : ℕ → List Entry → Option Entry
find_entry p [] = none
find_entry p (e ∷ entries) = if Prelude.◌==◌ e.node p then some e else find_entry p entries

unfoldable pub follow : (depth : ℕ) → List Entry → Option ℕ → Option Drawing
follow depth entries none = some square
follow zero entries (some p) = none
follow (suc depth) entries (some p) = do
  e ← find_entry p entries
  h ← follow depth entries e.high
  l ← follow depth entries e.low
  some (oval h e.circled l)

-- the edge at the root, after 19 pieces of the head, and the diagram below it
unfoldable pub read_graph : (depth : ℕ) → List Piece → Option (Bool × Drawing)
unfolding read_entries follow
read_graph depth file = do
  d ← follow depth (read_entries (length file) (drop 19 file)) (target (get_or file 15 end_line))
  some (is_circled (get_or file 17 end_line), d)
