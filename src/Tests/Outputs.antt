-- ===== src/Tests/Outputs.antt =====
-- The texts of operator << and printNode on a small machine.
use ibdd.Prelude.{
  ℕ, ◌%◌, ◌^◌, ◌≡◌, ◌↔◌, refl, none, some, List, [], ◌∷◌, ◌++◌, length, true, false, arith,
}
use ibdd.Cofactor.{root}
use ibdd.Dot.{head_lines, last_lines, print_node, print_index, print_node_recur, node_lines, arrow}
use ibdd.Dot.Lines.{name, blocks}
use ibdd.Dot.Printed.{print_node_lem}
use ibdd.Dot.Reader.{square, oval, drawing, read_graph}
use ibdd.Dot.RoundTrip.{print_node-read_graph}
use ibdd.Setup.Vector.{variable}
use ibdd.Marks.{Marks, set_marked}
use ibdd.Marks.Distinct.{Distinct}
use ibdd.Marks.Nodes.{no_marks}
use ibdd.Marks.Shapes.{Spanned, Denotes-Spanned}
use ibdd.Marks.Sweep.{addresses, IsIn}
use ibdd.Output.{Piece, text, number, end_line, address, print, show_info, debug_info, edge_sign}
use ibdd.Output.Printed.{print_lem}
use ibdd.Output.Shown.{Mirrors, IsShown, show_info-Mirrors}
use ibdd.Marks.{count_nodes, count_nodes_recur}
use ibdd.Report
use ibdd.Report.{count_all, integer}
use ibdd.Report.Total.{Handle, words, nodes_total, show_info_lem}
use ibdd.State.{Outcome, ok}
use ibdd.Tests.Machine.{machine, program}
use ibdd.Tests.ThreeVariables.{three_variables, word2, word3, valid, second, third}
use ibdd.Word.{ptr, is_complement_edge}

abbrev second_Spanned : Spanned three_variables word2
second_Spanned = Denotes-Spanned second

abbrev third_Spanned : Spanned three_variables word3
third_Spanned = Denotes-Spanned third

abbrev written : Outcome (List Piece × Marks) → List Piece
written (ok (pieces, marks) s) = pieces
written _ = []

-- the variable b at 128 with the leaf at 64
shown_b :
    written (print none [] word2 no_marks three_variables)
    ≡ address 128
      ∷ text " "
      ∷ text "( "
      ∷ address 64
      ∷ text " "
      ∷ address 64
      ∷ text " "
      ∷ text ") "
      ∷ end_line
      ∷ text "#Knoten: "
      ∷ number 2
      ∷ end_line
      ∷ []
unfolding print show_info debug_info set_marked program
shown_b = refl

-- with the text of DEBUG, every counter 1
debugged_b :
    written (print (some (λ p. 1)) [] word2 no_marks three_variables)
    ≡ address 128
      ∷ text " "
      ∷ text "["
      ∷ number 2
      ∷ text ", "
      ∷ text "+"
      ∷ text ", "
      ∷ number 1
      ∷ text "] "
      ∷ text "( "
      ∷ address 64
      ∷ text " "
      ∷ text "["
      ∷ number 0
      ∷ text ", "
      ∷ text "~"
      ∷ text ", "
      ∷ number 1
      ∷ text "] "
      ∷ address 64
      ∷ text " "
      ∷ text "["
      ∷ number 0
      ∷ text ", "
      ∷ text "+"
      ∷ text ", "
      ∷ number 1
      ∷ text ", X] "
      ∷ text ") "
      ∷ end_line
      ∷ text "#Knoten: "
      ∷ number 2
      ∷ end_line
      ∷ []
unfolding print show_info debug_info edge_sign set_marked program
debugged_b = refl

-- the graph of b: one inner node, whose low edge is complemented
drawn_b :
    written (print_node word2 "b" [] no_marks three_variables)
    ≡ head_lines "b" (address 128) false
      ++ node_lines (address 128) (text "terminal") (text "terminal") true
      ++ last_lines
unfolding print_node print_index print_node_recur set_marked head_lines node_lines last_lines arrow
    program
drawn_b = refl

print_lem_example :
    (pieces : List Piece) × (l : List ℕ) × (marks : Marks) × (print none [] word2 no_marks
        three_variables
      ≡ ok
          ([] ++ pieces ++ end_line ∷ text "#Knoten: " ∷ number (length l) ∷ end_line ∷ [], marks)
          three_variables)
    × IsShown none three_variables word2 root pieces
    × ((q : ℕ) → marks q ≡ false)
    × Distinct l
    × ((q : ℕ)
        → IsIn q l ↔ IsIn q (addresses three_variables true second_Spanned.shape (ptr word2)))
print_lem_example = print_lem valid.heap second_Spanned none []

print_node_lem_example :
    (l : List ℕ) × (marks : Marks) × (print_node word2 "b" [] no_marks three_variables
      ≡ ok
          (
            []
                ++ head_lines "b" (name three_variables (ptr word2)) (is_complement_edge word2)
                ++ blocks three_variables l
                ++ last_lines,
            marks,
          )
          three_variables)
    × ((q : ℕ) → marks q ≡ false)
    × Distinct l
    × ((q : ℕ)
        → IsIn q l ↔ IsIn q (addresses three_variables true second_Spanned.shape (ptr word2)))
print_node_lem_example = print_node_lem valid.heap second_Spanned "b" []

null : three_variables.cell 0 ≡ none
unfolding program
null = refl

show_info-Mirrors_example :
    Mirrors three_variables []
      (IsShown none three_variables word2 root)
      (show_info none 3 word2 [] no_marks 0 root three_variables)
      (count_nodes_recur 3 word2 no_marks 0 three_variables)
show_info-Mirrors_example = show_info-Mirrors none null 3 word2 [] no_marks 0 root

-- the variables b and c
abbrev handles : List (Handle three_variables)
handles =
    record { word = word2; spanned = second_Spanned }
    ∷ record { word = word3; spanned = third_Spanned }
    ∷ []

show_info_lem_example :
    Report.show_info "0.5" 4096 (words valid.heap handles) [] no_marks three_variables
    ≡ ok
        (
          []
              ++ text "Nodes count: " ∷ integer (nodes_total valid.heap handles % 2 ^ 32)
              ++ end_line
                ∷ text "Time in seconds: "
                ∷ text "0.5"
                ∷ end_line
                ∷ text "Memory usage: "
                ∷ number 4096
                ∷ end_line
                ∷ [],
          no_marks,
        )
        three_variables
show_info_lem_example = show_info_lem valid.heap "0.5" 4096 handles []

reported :
    written (Report.show_info "0.5" 4096 (word2 ∷ word3 ∷ []) [] no_marks three_variables)
    ≡ text "Nodes count: "
      ∷ number 4
      ∷ end_line
      ∷ text "Time in seconds: "
      ∷ text "0.5"
      ∷ end_line
      ∷ text "Memory usage: "
      ∷ number 4096
      ∷ end_line
      ∷ []
unfolding Report.show_info count_all integer count_nodes count_nodes_recur set_marked program
reported = refl

print_node-read_graph_example :
    (file : List Piece) × (marks : Marks) × (print_node word2 "b" [] no_marks three_variables
      ≡ ok (file, marks) three_variables)
    × (read_graph 3 file ≡ some (false, drawing (variable 2).tree))
print_node-read_graph_example = print_node-read_graph valid.heap second "b" 3 (omega arith)

-- the edge of b is regular, and its low edge is circled
read_b :
    read_graph 3 (written (print_node word2 "b" [] no_marks three_variables))
    ≡ some (false, oval square true square)
unfolding print_node print_index print_node_recur set_marked head_lines node_lines last_lines arrow
    program read_graph
read_b = refl
