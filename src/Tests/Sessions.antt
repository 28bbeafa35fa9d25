-- ===== src/Tests/Sessions.antt =====
-- Whole programs on a small machine, and single operations in the safe state after the constructor.
use ibdd.Prelude.{ℕ, false, none, get_or, ◌++◌, ◌<◌, ◌≤◌, ◌≡◌, refl, List, [], ◌∷◌, arith, Bool}
use ibdd.Cofactor.{root, high, get_cofactor}
use ibdd.Exist.{exist}
use ibdd.Operators.Values.{times, plus}
use ibdd.Operators.{call_ite}
use ibdd.Safety.Cofactor.{get_cofactor-Safe}
use ibdd.Safety.Exist.{exist-Safe}
use ibdd.Safety.Ite.{call_ite-Safe}
use ibdd.Safety.{Safe, Below, Labelled}
use ibdd.Session.Ends.{Finishes, session-Finishes}
use ibdd.Session.Equivalence.{Answers, IsEquivalent, equivalent, equivalent-Answers}
use ibdd.Session.Formulas
use ibdd.Session.Formulas.{
  Formula, letter, choice, IsSound, Letters, Meets, value, build, build-Meets,
}
use ibdd.Session.{
  result, perform, Call, variable, negation, operation, cofactor, quantification, session,
  IsProgram,
}
use ibdd.Setup.{initial}
use ibdd.Session.Shown.{session-print}
use ibdd.Output.{Piece, text, number, end_line, print}
use ibdd.Output.Shown.{IsShown}
use ibdd.Marks.{Marks}
use ibdd.Marks.Nodes.{no_marks}
use ibdd.State.{State}
use ibdd.State.Returns.{Ends}
use ibdd.State.{ok}
use ibdd.Tests.Machine.{machine, program}
use ibdd.Tests.ThreeVariables.{state_of, three_variables, three_variables_built, word2, safe}

-- a and b, a * b, its cofactor by a, which is wrong, and the quantification of b and then of a
abbrev calls : List Call
calls =
    variable 1
    ∷ variable 2
    ∷ operation times 1 0
    ∷ cofactor 0 1 high
    ∷ quantification 1 2
    ∷ quantification 2 1
    ∷ negation 0
    ∷ []

calls-IsProgram : IsProgram 3 0 calls
calls-IsProgram =
    let a : 1 ≤ 3 = omega arith in
    let b : 2 ≤ 3 = omega arith in
    let product : (1 < 2) × (0 < 2) = (omega arith, omega arith) in
    let restriction : (0 < 3) × (0 < 1) = (omega arith, omega arith) in
    let rest : (1 < 4) × ((2 < 5) × ((0 < 6) × Unit {0})) =
      (omega arith, (omega arith, (omega arith, tt))) in
    (a, (b, (product, (restriction, rest))))

session-Finishes_example : Finishes (session 3 7 7 calls initial)
session-Finishes_example =
    session-Finishes 3 7 7 calls (omega arith) (omega arith) (omega arith) calls-IsProgram

-- !(a * b) and !a + !b
abbrev pub left_formula : Formula
left_formula = Formulas.negation (Formulas.operation times (letter 1) (letter 2))

abbrev pub right_formula : Formula
right_formula =
    Formulas.operation plus (Formulas.negation (letter 1)) (Formulas.negation (letter 2))

abbrev pub within : (0 < 1) × (1 ≤ 3)
within = (omega arith, omega arith)

abbrev pub within' : (0 < 2) × (2 ≤ 3)
within' = (omega arith, omega arith)

equivalent-Answers_example :
    Answers
      (IsEquivalent left_formula right_formula)
      (equivalent 3 7 7 left_formula right_formula initial)
equivalent-Answers_example =
    equivalent-Answers 3 7 7 left_formula right_formula (omega arith) (omega arith) (omega arith)
      (within, within') (within, within')

de_morgan :
    elim (equivalent 3 7 7 left_formula right_formula initial) [ ok b s ↦ b | _ ↦ Bool.false ]
    ≡ Bool.true
unfolding equivalent build program
de_morgan = refl

pub letters : Letters 3 three_variables
letters i pos le = three_variables_built.1.each i pos (omega arith)

node_of_b : Labelled three_variables word2 2
unfolding program
node_of_b = record {
  node = word2;
  complement = Bool.false;
  word = refl;
  cell = record { index = 2; low = three_variables.terminal0; high = three_variables.terminal1 };
  here = refl;
  label = refl;
}

below : Below three_variables word2 3
below = (2, node_of_b, omega arith)

call_ite-Safe_example :
    Ends Safe three_variables (λ w s. Below s w 3) (call_ite word2 word2 word2 three_variables)
call_ite-Safe_example = call_ite-Safe safe below below below

get_cofactor-Safe_example :
    Ends Safe three_variables (λ w s. Below s w 3) (get_cofactor word2 1 high three_variables)
get_cofactor-Safe_example = get_cofactor-Safe 1 high safe node_of_b (omega arith)

exist-Safe_example : Ends Safe three_variables (λ w s. Below s w 3) (exist word2 1 three_variables)
exist-Safe_example = exist-Safe 1 safe node_of_b

abbrev made : List ℕ
made = 97 ∷ 96 ∷ 96 ∷ 224 ∷ 192 ∷ 128 ∷ 96 ∷ []

abbrev end_state : State
end_state = state_of (session 3 7 7 calls initial)

session_run : session 3 7 7 calls initial ≡ ok made end_state
unfolding session perform result program
session_run = refl

-- of the result of getCofactor
session-print_example :
    (pieces : List Piece) × (n : ℕ) × (marks : Marks) × (print none []
        (get_or made 3 0)
        no_marks
        end_state
      ≡ ok
          ([] ++ pieces ++ end_line ∷ text "#Knoten: " ∷ number n ∷ end_line ∷ [], marks)
          end_state)
    × IsShown none end_state (get_or made 3 0) root pieces
    × ((q : ℕ) → marks q ≡ false)
session-print_example =
    session-print 3 7 7 calls (omega arith) (omega arith) (omega arith) calls-IsProgram made
      end_state session_run 3 (omega arith) none []
