-- ===== src/Tests/Programs.antt =====
-- Programs with memory enough, and the truth table of a formula.
use native.Mathlib.Decide.{ℕ_discrete}
use mathlib.Core.Option
use ibdd.Prelude.{ℕ, ◌≡◌, refl, Bool, true, false, Option, none, some, subst, ◌↔◌, arith}
use ibdd.Diagram.Reference.{truth_diagram, decide_by, Bdd-discrete, Tree-discrete}
use ibdd.Diagram.Cofactor.{update}
use ibdd.Diagram.{bdd, node, leaf}
use ibdd.Ite.{is_terminal, has_next, insert, ite_standard}
use ibdd.Marks.Size.{size}
use ibdd.Marks.{Marks, count_nodes, count_nodes_recur, set_marked}
use ibdd.Operators.Repeat.{run_repeated}
use ibdd.Operators.Values.{run, times, run-Computes}
use ibdd.Session.Counting.{formula_size}
use ibdd.Session.Equivalence.{IsEquivalent, equivalent}
use ibdd.Session.Formulas.{Formula, choice, letter, value, IsSound, build}
use ibdd.Session.Reference.{diagram, build-Denotes}
use ibdd.Session.Total.{formula_size_total, equivalent_total}
use ibdd.Setup.Clear.{clear}
use ibdd.Setup.Cleared.{clear_faults}
use ibdd.Setup.Create.{Creates, create_variable-Creates}
use ibdd.Setup.Memory.{Fills, manager-Fills}
use ibdd.Setup.{initial, manager, create_variable}
use ibdd.Standardize.{triple}
use ibdd.State.Returns.{Ends, Ends-ok, Keeps, Returns, Extends-refl}
use ibdd.State.Valid.{Denotes}
use ibdd.State.{DdNode, State, Outcome, ok, fault, ◌>>◌}
use ibdd.TableKey.{table_key}
use ibdd.Tests.Machine.{machine, program}
use ibdd.Tests.Sessions.{left_formula, right_formula, within, within', letters}
use ibdd.Tests.ThreeVariables.{
  three_variables, three_variables_built, word1, word2, word3, valid, safe, first, second, one,
  nought, state_of,
}
use ibdd.Unique.{find_add, bdd_node}
use ibdd.Word.{regular, ptr}

-- a ? b : a
abbrev either : Formula
either = choice (letter 1) (letter 2) (letter 1)

build-Denotes_example :
    Ends IsSound three_variables
      (λ w s. Denotes s w (diagram 3 either))
      (build either three_variables)
build-Denotes_example =
    build-Denotes either (safe, valid) letters (omega arith) (within, within', within)

-- it is a * b
either-diagram : diagram 3 either ≡ bdd false (node 2 (node 1 leaf true leaf) true leaf)
unfolding value truth_diagram decide_by Bdd-discrete Tree-discrete update ℕ_discrete
either-diagram = refl

formula_size_total_example :
    (marks : Marks) × (s : State) × (formula_size 3 7 7 left_formula initial
      ≡ ok (size (diagram 3 left_formula), marks) s)
    × ((q : ℕ) → marks q ≡ false)
formula_size_total_example =
    formula_size_total 3 7 7 (omega arith) (omega arith) (omega arith) left_formula
      (within, within') (omega arith)

equivalent_total_example :
    (r : Bool) × (s : State) × (equivalent 3 7 7 left_formula right_formula initial ≡ ok r s)
    × ((r ≡ true) ↔ IsEquivalent left_formula right_formula)
equivalent_total_example =
    equivalent_total 3 7 7 (omega arith) (omega arith) (omega arith) left_formula right_formula
      (within, within') (within, within') (omega arith)

manager-Fills_example : Fills 4 (manager 3 7 7 initial)
manager-Fills_example = manager-Fills 3 7 7 (omega arith) (omega arith) (omega arith)

create_variable-Creates_example : Creates 4 9 three_variables (create_variable 9 three_variables)
create_variable-Creates_example =
    create_variable-Creates 9 valid.heap three_variables_built.1 (omega arith)

clear_faults_example :
    ((clear 1 >> create_variable 2) three_variables ≡ fault)
    × ((clear 1 >> find_add 2 one nought) three_variables ≡ fault)
    × ((clear 1 >> has_next (table_key word1 word2 word3)) three_variables ≡ fault)
    × ((clear 1 >> insert (table_key word1 word2 word3) word1) three_variables ≡ fault)
    × ((clear 1 >> ite_standard (λ f g h. find_add f g h) (triple word1 word2 word3) false)
          three_variables
        ≡ fault)
unfolding is_terminal program
clear_faults_example =
    clear_faults three_variables 0 2 2 one nought word1 (table_key word1 word2 word3)
      (λ f g h. find_add f g h) (triple word1 word2 word3) false refl

-- a * b, and again
abbrev product_state : State
product_state = state_of (run times word1 word2 three_variables)

product_run : run times word1 word2 three_variables ≡ ok 192 product_state
unfolding program
product_run = refl

product_kept : Keeps three_variables product_state
product_kept =
    (Ends-ok
      (subst (Returns three_variables _) product_run (run-Computes valid first second times))).0

abbrev repeated_state : State
repeated_state = state_of (run times word1 word2 product_state)

repeated_run : run times word1 word2 product_state ≡ ok 192 repeated_state
unfolding program
repeated_run = refl

run_repeated_example : ◌≡◌ {A = ℕ} 192 192
run_repeated_example =
    run_repeated valid product_kept.valid first second (Extends-refl product_state) times
      product_run repeated_run

-- the variables a and b and the leaf
counted_product : elim (formula_size 3 7 7 left_formula initial) [ ok (n, marks) s ↦ n | _ ↦ 0 ] ≡ 3
unfolding formula_size build count_nodes count_nodes_recur set_marked program
counted_product = refl

abbrev label_of : Outcome ℕ → Option ℕ
label_of (ok w s) = Option.map (λ (d : DdNode). d.index) (s.cell (ptr w))
label_of _ = none

-- the label of the node of a 65536th variable has 16 bits
wrapped_label : label_of (bdd_node 65536 one nought regular three_variables) ≡ some 0
unfolding program
wrapped_label = refl
