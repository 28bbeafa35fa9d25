-- ===== src/Dot.antt =====
-- Manager::printIndex, Manager::printNodeRecur and Manager::printNode, which write a diagram in DOT.
pub mod Lines
pub mod Blocks
pub mod Printed
pub mod Reader
pub mod RoundTrip
use Prim.Native.String.{String}
use ibdd.Prelude.{ℕ, zero, suc, Bool, true, false, List, [], ◌∷◌, ◌++◌, if◌then◌else◌}
use ibdd.Marks.{Marks, is_marked, mark, set_marked}
use ibdd.Node.{get_index, get_high, get_low, is_leaf}
use ibdd.Output.{Piece, text, address, end_line}
use ibdd.State.{State, M, out_of_fuel, pure, ◌>>=◌, ◌>>◌, load}
use ibdd.Word.{ptr, is_complement_edge}

-- Manager::printIndex
unfoldable pub print_index : ℕ → M Piece
print_index w = do
  at_leaf ← is_leaf w
  elim at_leaf [ true ↦ pure (text "terminal") | false ↦ pure (address (ptr w)) ]

-- the end of an edge
unfoldable pub arrow : (complement : Bool) → Piece
arrow complement = text (if complement then " [arrowhead=odot]" else ";")

-- the lines that printNodeRecur writes of an inner node
unfoldable pub node_lines : (node low high : Piece) → (complement : Bool) → List Piece
unfolding arrow
node_lines node low high complement =
    text "\t { rank=same; \""
    ∷ node
    ∷ text "\"; }\n"
    ∷ text "\t \""
    ∷ node
    ∷ text "\" -> \""
    ∷ low
    ∷ text "\" [style=dotted]"
    ∷ arrow complement
    ∷ end_line
    ∷ text "\t \""
    ∷ node
    ∷ text "\" -> \""
    ∷ high
    ∷ text "\""
    ∷ text ";"
    ∷ end_line
    ∷ []

-- Manager::printNodeRecur, with `file` returned
unfoldable pub print_node_recur :
    (fuel : ℕ) → ℕ → (file : List Piece) → Marks → M (List Piece × Marks)
print_node_recur zero w file marks = λ _. out_of_fuel
print_node_recur (suc fuel) w file marks = do
  d ← load (ptr w)
  elim (is_marked marks (ptr w)) [
    | true ↦ pure (file, marks)
    | false ↦ do
      at_leaf ← is_leaf w
      elim at_leaf [
        | true ↦ pure (file, mark marks (ptr w) true)
        | false ↦ do
          high ← get_high w
          low ← get_low w
          node_name ← print_index w
          low_name ← print_index low
          high_name ← print_index high
          (file', marks') ←
              print_node_recur fuel low
                (file ++ node_lines node_name low_name high_name (is_complement_edge low))
                (mark marks (ptr w) true)
          print_node_recur fuel high file' marks'
      ]
  ]

-- the lines of printNode before the nodes
unfoldable pub head_lines : (name : String) → (node : Piece) → (complement : Bool) → List Piece
unfolding arrow
head_lines name node complement =
    text "digraph {"
    ∷ end_line
    ∷ text "\t node [shape=plaintext];"
    ∷ end_line
    ∷ text "\t terminal [label=\"1\", shape=square];"
    ∷ end_line
    ∷ text "\t { rank=source; \""
    ∷ text name
    ∷ text "\"; }"
    ∷ end_line
    ∷ text "\t node [shape=oval];"
    ∷ end_line
    ∷ text "\t \""
    ∷ text name
    ∷ text "\" -> \""
    ∷ node
    ∷ text "\""
    ∷ arrow complement
    ∷ end_line
    ∷ []

-- and after them
unfoldable pub last_lines : List Piece
last_lines = text "\t { rank=same; \"terminal\"; }" ∷ end_line ∷ text "}" ∷ end_line ∷ []

-- Manager::printNode
unfoldable pub print_node :
    ℕ → (name : String) → (file : List Piece) → Marks → M (List Piece × Marks)
print_node w name file marks = do
  node ← print_index w
  let file = file ++ head_lines name node (is_complement_edge w)
  index ← get_index w
  (file', marks') ← print_node_recur (suc index) w file marks
  marks'' ← set_marked (suc index) w false marks'
  pure (file' ++ last_lines, marks'')
