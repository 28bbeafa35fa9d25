-- ===== src/Tests.antt =====
-- The constructor and the operators of main.cpp on a machine with small tables, and a run in which
-- getCofactor and existRecur answer wrongly.
pub mod Machine
pub mod ThreeVariables
pub mod Examples
pub mod Quantification
pub mod Tables
pub mod Sessions
pub mod Outputs
pub mod Caches
pub mod Programs
use ibdd.Prelude.{ℕ, suc, ◌≡◌, refl, Bool, true, false, none, some, List, [], ◌∷◌, ◌==◌}
use ibdd.Cofactor.{high, low, get_cofactor}
use ibdd.Exist.{exist}
use ibdd.Operators.{and, xor, nor, or, equal}
use ibdd.Setup.{initial, manager, create_variable}
use ibdd.State.{State, Outcome, ok, fault, thrown, out_of_fuel, M, pure, ◌>>=◌, ◌>>◌, read}
use ibdd.Tests.Machine.{machine, program}
use ibdd.Word.{negate}
use ibdd.Output.{Piece, text, address, number, end_line, show_info, print}
use ibdd.UTable.Iterator
use ibdd.Marks.{set_marked}
use ibdd.Dot.{print_index, print_node_recur, print_node}
use ibdd.Marks.Nodes.{no_marks}
use ibdd.Setup.Clear.{clear, destroy}

abbrev value_of : {A : Type 0} → Outcome A → List A
value_of (ok a s) = a ∷ []
value_of _ = []

-- a * b by either order of the operands, and De Morgan
abbrev commuted : M (Bool × Bool)
commuted = do
  manager 3 7 7
  a ← create_variable 1
  b ← create_variable 2
  f ← and a b
  g ← and b a
  h ← or (negate a) (negate b)
  pure (equal f g, equal f (negate h))

commuted_equal : value_of (commuted initial) ≡ (true, true) ∷ []
unfolding program
commuted_equal = refl

-- the cofactor of b * a by a is b; getCofactor returns another node
abbrev cofactor_below : M Bool
cofactor_below = do
  manager 3 7 7
  a ← create_variable 1
  b ← create_variable 2
  f ← and a b
  g ← get_cofactor f 1 high
  pure (equal g b)

cofactor_below_differs : value_of (cofactor_below initial) ≡ false ∷ []
unfolding program
cofactor_below_differs = refl

-- quantifying b and then a: the second call returns the result of the first
abbrev quantified_twice : M (Bool × Bool)
quantified_twice = do
  manager 3 7 7
  a ← create_variable 1
  b ← create_variable 2
  f ← and a b
  g ← exist f 2
  h ← exist f 1
  pure (equal g a, equal h a)

quantified_twice_stale : value_of (quantified_twice initial) ≡ (true, true) ∷ []
unfolding program
quantified_twice_stale = refl

-- main.cpp up to `f`
unfoldable synthesis : M ℕ
synthesis = do
  manager 4 521 521
  a ← create_variable 1
  b ← create_variable 2
  c ← create_variable 3
  d ← create_variable 4
  p ← and a b
  q ← nor (negate c) d
  g ← xor p q
  h ← get_cofactor g 1 high
  k ← xor g h
  exist k 3

-- main.cpp: what it writes to std::cout and to f.dot; the call of dot reads f.dot only
unfoldable main : M (List Piece × List Piece)
unfolding synthesis
main = do
  f ← synthesis
  (console, marks) ← print none [] f no_marks
  (file, marks') ← print_node f "f" [] marks
  clear 1
  destroy 1
  pure (console, file)

-- a complemented result
synthesis_result : value_of (synthesis initial) ≡ 449 ∷ []
unfolding synthesis program
synthesis_result = refl

abbrev console_of : M (List Piece)
console_of = do (console, file) ← main; pure console

-- 96 is the variable 1, 64 the leaf
main_console :
    value_of (console_of initial)
    ≡ (address 448
        ∷ text " "
        ∷ text "( "
        ∷ address 64
        ∷ text " "
        ∷ address 224
        ∷ text " "
        ∷ text "( "
        ∷ address 64
        ∷ text " "
        ∷ address 96
        ∷ text " "
        ∷ text "( "
        ∷ address 64
        ∷ text " "
        ∷ address 64
        ∷ text " "
        ∷ text ") "
        ∷ text ") "
        ∷ text ") "
        ∷ end_line
        ∷ text "#Knoten: "
        ∷ number 4
        ∷ end_line
        ∷ [])
      ∷ []
unfolding main synthesis print print_node program show_info set_marked print_index print_node_recur
    clear Iterator.begin Iterator.not_equal Iterator.end destroy
main_console = refl

-- getCofactor leaves it with a node for the variable 2 whose children are both terminal1
synthesis_redundant :
    elim (synthesis initial) [
      | ok a s ↦ s.cell 352
      | thrown s ↦ none
      | fault ↦ none
      | out_of_fuel ↦ none
    ]
    ≡ some (record { index = 2; low = 64; high = 64 })
unfolding synthesis program
synthesis_redundant = refl
