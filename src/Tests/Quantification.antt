-- ===== src/Tests/Quantification.antt =====
-- The results on exist in the state that the constructor of Manager leaves for three variables.
use ibdd.Prelude.{◌≡◌, refl, none, arith}
use ibdd.Diagram.{Assignment, eval}
use ibdd.Exist.{exist}
use ibdd.Exist.Root.{Quantifies, exists_value, exist-root, exist-exist}
use ibdd.Exist.Stale.{IsKeyOf}
use ibdd.Ite.{has_next}
use ibdd.TableKey.{TableKey, table_key}
use ibdd.Setup.Vector.{variable}
use ibdd.State.{State, ok}
use ibdd.Exist.Above.{exist-above}
use ibdd.Tests.Machine.{machine, program}
use ibdd.Tests.ThreeVariables.{one, nought, state_of, three_variables, word1, valid, first}

abbrev exist_key : TableKey
exist_key = table_key word1 one nought

exist_key-IsKeyOf : IsKeyOf three_variables word1 1 exist_key
unfolding program
exist_key-IsKeyOf = record {
  high_child = one;
  low_child = nought;
  key = refl;
  high_run = refl;
  low_run = refl;
}

exist_key_miss : has_next exist_key three_variables ≡ ok none three_variables
unfolding program
exist_key_miss = refl

exist-root_example :
    Quantifies three_variables exist_key
      (exists_value (variable 1) 1)
      (exist word1 1 three_variables)
exist-root_example = exist-root valid first exist_key-IsKeyOf exist_key_miss

abbrev quantified_state : State
quantified_state = state_of (exist word1 1 three_variables)

quantified_run : exist word1 1 three_variables ≡ ok one quantified_state
unfolding program
quantified_run = refl

exist-exist_example : exist word1 1 quantified_state ≡ ok one quantified_state
exist-exist_example =
    exist-exist valid first exist_key-IsKeyOf exist_key_miss one quantified_state quantified_run 1
      (omega arith) (omega arith)

exist-above_example :
    (exist word1 3 three_variables ≡ ok word1 three_variables)
    × ((ρ : Assignment) → eval (variable 1) ρ ≡ exists_value (variable 1) 3 ρ)
exist-above_example = exist-above valid.heap 3 first (omega arith)
