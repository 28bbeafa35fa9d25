-- ===== src/Output.antt =====
-- BDDNode::showInfo and operator << of BDDNode. What has been written to the stream is a list of pieces
-- that grows at its end; the flags `marked` and the reference counters are arrays beside the heap. The
-- text of DEBUG is there if the counters are given. Fuel as for countNodes.
pub mod Shown
pub mod Printed
use Prim.Native.String.{String}
use ibdd.Prelude.{
  ℕ, zero, suc, ◌+◌, ◌%◌, Bool, true, false, not, Option, none, some, List, [], ◌∷◌, ◌++◌, ◌==◌,
  if◌then◌else◌,
}
use ibdd.Cofactor.{Factor, low, high, root}
use ibdd.Marks.{Marks, is_marked, mark, set_marked}
use ibdd.Node.{get_index, is_leaf}
use ibdd.References.{Counters, get_id}
use ibdd.State.{State, M, out_of_fuel, pure, ◌>>=◌, ◌>>◌, assert, load}
use ibdd.Word.{ptr, is_complement_edge, word_mod}

-- What one `<<` writes: a text, the address that a pointer is, a number, or std::endl.
pub data Piece : Type 0 where
  text : String → Piece
  address : ℕ → Piece
  number : ℕ → Piece
  end_line : Piece

-- the sign of the edge by which showInfo came to the node
unfoldable pub edge_sign : Factor → (complement : Bool) → Piece
edge_sign root complement = text (if complement then "~" else "+")
edge_sign high complement = text "+"
edge_sign low complement = text (if complement then "~" else "-")

module _ (debug : Option Counters) where
  -- the part of showInfo under DEBUG
  unfoldable pub debug_info : (w index : ℕ) → Factor → (marked : Bool) → List Piece
  unfolding edge_sign
  debug_info w index factor marked = elim debug [
    | none ↦ []
    | some ids ↦
        text "["
        ∷ number index
        ∷ text ", "
        ∷ edge_sign factor (is_complement_edge w)
        ∷ text ", "
        ∷ number (get_id ids (ptr w))
        ∷ text (if marked then ", X] " else "] ")
        ∷ []
  ]

  -- BDDNode::showInfo, with `output` and `counter` returned
  unfoldable pub show_info :
      (fuel : ℕ)
      → ℕ
      → (output : List Piece) → Marks
      → (counter : ℕ) → Factor
      → M (List Piece × Marks × ℕ)
  unfolding debug_info
  show_info zero w output marks counter factor = λ _. out_of_fuel
  show_info (suc fuel) w output marks counter factor = do
    assert (not (ptr w == 0))
    d ← load (ptr w)
    let output =
        output ++ address (ptr w) ∷ text " " ∷ debug_info w d.index factor (is_marked marks (ptr w))
    elim (is_marked marks (ptr w)) [
      | true ↦ pure (output, marks, counter)
      | false ↦ do
        at_leaf ← is_leaf w
        elim at_leaf [
          | true ↦ pure (output, mark marks (ptr w) true, (counter + 1) % word_mod)
          | false ↦ do
            (output', marks', counter') ←
                show_info fuel d.low (output ++ text "( " ∷ []) (mark marks (ptr w) true)
                  ((counter + 1) % word_mod) low
            (output'', marks'', counter'') ← show_info fuel d.high output' marks' counter' high
            pure (output'' ++ text ") " ∷ [], marks'', counter'')
        ]
    ]

  -- operator <<
  unfoldable pub print : (output : List Piece) → ℕ → Marks → M (List Piece × Marks)
  print output w marks = do
    index ← get_index w
    (output', marks', counter) ← show_info (suc index) w output marks 0 root
    marks'' ← set_marked (suc index) w false marks'
    pure (output' ++ end_line ∷ text "#Knoten: " ∷ number counter ∷ end_line ∷ [], marks'')
