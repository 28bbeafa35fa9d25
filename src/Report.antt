-- ===== src/Report.antt =====
-- Manager::showInfo, which reports the sum of the nodes of some BDDNodes. What it prints of the time, and
-- what getrusage says of the memory, are arguments. `int` has 32 bits, and the conversion of a size_t to
-- it drops the others; a count is kept as its residue.
pub mod Total
use Prim.Native.String.{String}
use mathlib.Core.List.{reverse}
use ibdd.Prelude.{ℕ, ◌+◌, ◌-◌, ◌%◌, ◌^◌, List, [], ◌∷◌, ◌++◌, ltb, if◌then◌else◌}
use ibdd.Marks.{Marks, count_nodes}
use ibdd.Output.{Piece, text, number, end_line}
use ibdd.State.{M, pure, ◌>>=◌}

-- `bddNodeCount += bddNode.countNodes()` for each of a list
unfoldable pub count_all : List ℕ → (total : ℕ) → Marks → M (ℕ × Marks)
count_all [] total marks = pure (total, marks)
count_all (w ∷ nodes) total marks = do
  (n, marks') ← count_nodes w marks
  count_all nodes ((total + n) % 2 ^ 32) marks'

-- an `int` in decimal
unfoldable pub integer : ℕ → List Piece
integer n = if ltb n (2 ^ 31) then number n ∷ [] else text "-" ∷ number (2 ^ 32 - n) ∷ []

-- Manager::showInfo
unfoldable pub show_info :
    (compared_time : String)
    → (maxrss : ℕ) → (nodes : List ℕ) → (output : List Piece) → Marks
    → M (List Piece × Marks)
show_info compared_time maxrss nodes output marks = do
  (total, marks') ← count_all (reverse nodes) 0 marks
  pure (
    output
        ++ text "Nodes count: " ∷ integer total
        ++ end_line
          ∷ text "Time in seconds: "
          ∷ text compared_time
          ∷ end_line
          ∷ text "Memory usage: "
          ∷ number maxrss
          ∷ end_line
          ∷ [],
    marks',
  )
