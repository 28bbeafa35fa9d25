-- ===== src/Marks.antt =====
-- BDDNode::countNodes and BDDNode::setMarked: walks over a diagram that stop at the nodes whose flag
-- `marked` says so. The flags are an array beside the heap. Both walks go down one level at each call,
-- so the index of the root and one more are enough fuel.
pub mod Shapes
pub mod Sweep
pub mod Closed
pub mod Count
pub mod Unmark
pub mod Distinct
pub mod Bounds
pub mod Nodes
pub mod Size
use ibdd.Prelude.{ℕ, zero, suc, ◌+◌, ◌%◌, Bool, true, false, not, ◌==◌, if◌then◌else◌}
use ibdd.Node.{get_index, is_leaf}
use ibdd.State.{State, M, out_of_fuel, pure, ◌>>=◌, ◌>>◌, assert, load}
use ibdd.Word.{ptr, word_mod}

-- `marked` by the address of the DDNode
abbrev pub Marks : Type 0
Marks = ℕ → Bool

-- DDNode::isMarked
abbrev pub is_marked : Marks → ℕ → Bool
is_marked marks p = marks p

-- DDNode::setMarked
abbrev pub mark : Marks → ℕ → Bool → Marks
mark marks p marked q = if q == p then marked else marks q

-- BDDNode::countNodesRecur, with `counter` returned
unfoldable pub count_nodes_recur : (fuel : ℕ) → ℕ → Marks → ℕ → M (Marks × ℕ)
count_nodes_recur zero w marks counter = λ _. out_of_fuel
count_nodes_recur (suc fuel) w marks counter = do
  d ← load (ptr w)
  elim (is_marked marks (ptr w)) [
    | true ↦ pure (marks, counter)
    | false ↦ do
      at_leaf ← is_leaf w
      elim at_leaf [
        | true ↦ pure (mark marks (ptr w) true, (counter + 1) % word_mod)
        | false ↦ do
          (marks', counter') ←
              count_nodes_recur fuel d.low (mark marks (ptr w) true) ((counter + 1) % word_mod)
          count_nodes_recur fuel d.high marks' counter'
      ]
  ]

-- BDDNode::setMarked
unfoldable pub set_marked : (fuel : ℕ) → ℕ → Bool → Marks → M Marks
set_marked zero w marked marks = λ _. out_of_fuel
set_marked (suc fuel) w marked marks = do
  assert (not (ptr w == 0))
  d ← load (ptr w)
  elim (is_marked marks (ptr w)) [
    | false ↦ pure marks
    | true ↦ do
      at_leaf ← is_leaf w
      elim at_leaf [
        | true ↦ pure (mark marks (ptr w) marked)
        | false ↦ do
          marks' ← set_marked fuel d.high marked (mark marks (ptr w) marked)
          set_marked fuel d.low marked marks'
      ]
  ]

-- BDDNode::countNodes
unfoldable pub count_nodes : ℕ → Marks → M (ℕ × Marks)
count_nodes w marks = do
  index ← get_index w
  (marks', counter) ← count_nodes_recur (suc index) w marks 0
  marks'' ← set_marked (suc index) w false marks'
  pure (counter, marks'')
