-- ===== src/Session.antt =====
-- A program that uses the package as main.cpp does: it starts a Manager and makes BDDNodes by calls of
-- its operations, each on BDDNodes that it has made before.
pub mod Ends
pub mod Formulas
pub mod Equivalence
pub mod Reference
pub mod Counting
pub mod Total
pub mod Shown
use ibdd.Prelude.{ℕ, suc, ◌<◌, ◌≤◌, List, [], ◌∷◌, get_elem?}
use ibdd.Cofactor.{Factor, get_cofactor}
use ibdd.Exist.{exist}
use ibdd.Operators.Values.{Operator, run}
use ibdd.Platform.{Platform}
use ibdd.Setup.{manager, create_variable}
use ibdd.State.{M, pure, ◌>>=◌, ◌>>◌, defined}
use ibdd.Word.{negate}

-- A call, its operands given by their places among the BDDNodes made so far, the last one first.
pub data Call : Type 0 where
  variable : ℕ → Call
  negation : ℕ → Call
  operation : Operator → ℕ → ℕ → Call
  cofactor : ℕ → ℕ → Factor → Call
  quantification : ℕ → ℕ → Call

module _ ⦃m : Platform⦄ where
  unfoldable pub result : Call → List ℕ → M ℕ
  result (variable i) nodes = create_variable i
  result (negation f) nodes = do a ← defined (get_elem? nodes f); pure (negate a)
  result (operation o f g) nodes = do
    a ← defined (get_elem? nodes f)
    b ← defined (get_elem? nodes g)
    run o a b
  result (cofactor f index factor) nodes = do
    a ← defined (get_elem? nodes f)
    get_cofactor a index factor
  result (quantification f index) nodes = do a ← defined (get_elem? nodes f); exist a index

  unfoldable pub perform : List Call → List ℕ → M (List ℕ)
  perform [] nodes = pure nodes
  perform (c ∷ calls) nodes = do node ← result c nodes; perform calls (node ∷ nodes)

  unfoldable pub session : (variables u_table_size c_table_size : ℕ) → List Call → M (List ℕ)
  session variables u_table_size c_table_size calls = do
    manager variables u_table_size c_table_size
    perform calls []

-- The call names variables that there are, BDDNodes that have been made, and no cofactor by index 0.
abbrev pub IsLegal : (variables made : ℕ) → Call → Type 0
IsLegal variables made (variable i) = i ≤ variables
IsLegal variables made (negation f) = f < made
IsLegal variables made (operation o f g) = (f < made) × (g < made)
IsLegal variables made (cofactor f index factor) = (f < made) × (0 < index)
IsLegal variables made (quantification f index) = f < made

abbrev pub IsProgram : (variables made : ℕ) → List Call → Type 0
IsProgram variables made [] = Unit
IsProgram variables made (c ∷ calls) =
    IsLegal variables made c × IsProgram variables (suc made) calls
