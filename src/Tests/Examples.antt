-- ===== src/Tests/Examples.antt =====
-- The results on the state that the constructor of Manager leaves for three variables.
use ibdd.Prelude.{
  ℕ, ◌≢◌, ◌↔◌, ◌⊎◌, if◌then◌else◌, ◌<◌, ◌≡◌, refl, Bool, true, false, some, none, arith, [],
}
use ibdd.Diagram.{leaf, bdd}
use ibdd.Diagram.{Assignment, eval, top, flip_if}
use ibdd.Cofactor.{get_cofactor, high, is_high}
use ibdd.Cofactor.Shannon.{Reads, get_cofactor-Denotes}
use ibdd.Diagram.Cofactor.{cofactor, negation}
use ibdd.Standardize.{Triple, triple, standardize}
use ibdd.Standardize.Args.{Args, Standard}
use ibdd.Standardize.Regular.{standardize-Standard}
use ibdd.State.Rep.{Denotes-negate}
use ibdd.Unique.{find_add}
use ibdd.Unique.Finds.{Finds, find_add-Finds}
use ibdd.Word.{negate}
use ibdd.Cofactor.{join, negate_if}
use ibdd.Cofactor.Join.{low_value, join-Computes}
use ibdd.CTable
use ibdd.CTable.{CTable}
use ibdd.Ite.{is_terminal, has_next}
use ibdd.Ite.Cache.{key_of, has_next-Result}
use ibdd.Ite.Terminal.{Result, is_terminal-cases}
use ibdd.State.Valid.{IsIte}
use ibdd.Standardize.Args.{eval-one, eval-zero}
use ibdd.TableKey.{table_key}
use ibdd.Unique.Node.{terminal1-Denotes, terminal0-Denotes}
use ibdd.Setup.Clear.{clear, clear_lem}
use ibdd.UTable.{Bucket}
use ibdd.UTable
use ibdd.UTable.{UTable}
use ibdd.Operators.{call_ite}
use ibdd.Operators.Values.{Computes, call_ite-Computes, bar, connective, run, run-Computes}
use ibdd.State.Returns.{Returns}
use ibdd.State.Unique.{word_canonical}
use ibdd.Setup.{initial, manager}
use ibdd.Setup.Vector.{variable, HasVariables}
use ibdd.Setup.Variables.{Builds, manager-HasVariables}
use ibdd.State.{ok}
use ibdd.State.Valid.{ite_value}
use ibdd.Prelude.{List, length}
use ibdd.Marks.Distinct.{Distinct}
use ibdd.Marks.Nodes.{no_marks, count_nodes_lem}
use ibdd.Marks.Shapes.{Denotes-Spanned}
use ibdd.Marks.Sweep.{addresses, IsIn}
use ibdd.Marks.{Marks, count_nodes}
use ibdd.Word.{ptr}
use ibdd.Tests.Machine.{machine}
use ibdd.Tests.ThreeVariables.{
  one, nought, three_variables, word1, word2, valid, first, second, third,
}

manager-HasVariables_example : Builds (HasVariables 4) (manager 3 7 7 initial)
manager-HasVariables_example = manager-HasVariables 3 7 7 (omega arith) (omega arith) (omega arith)

word_canonical_example :
    (word1 ≡ word2) ↔ ((ρ : Assignment) → eval (variable 1) ρ ≡ eval (variable 2) ρ)
word_canonical_example = word_canonical valid.heap first second

call_ite-Computes_example :
    Returns three_variables
      (Computes (λ ρ. ite_value (eval (variable 1) ρ) (eval (variable 2) ρ) (eval (variable 3) ρ)))
      (call_ite 96 128 160 three_variables)
call_ite-Computes_example = call_ite-Computes valid first second third

run-Computes_example :
    Returns three_variables
      (Computes (λ ρ. connective bar (eval (variable 1) ρ) (eval (variable 3) ρ)))
      (run bar 96 160 three_variables)
run-Computes_example = run-Computes valid first third bar

find_add-Finds_example : Finds valid.heap 3 word1 word2 (find_add 3 word1 word2 three_variables)
find_add-Finds_example = find_add-Finds valid.heap 3 word1 word2 (omega arith)

get_cofactor-Denotes_example :
    Reads three_variables
      (get_cofactor word2 2 high three_variables)
      (cofactor (is_high high) 2 (variable 2))
get_cofactor-Denotes_example =
    get_cofactor-Denotes valid.heap 2 high second (omega arith) (omega arith)

-- ite(b, a, a') as ite(a, b, b')
abbrev call :
    Args three_variables
      (triple word2 word1 (negate word1))
      3
      (λ ρ. ite_value (eval (variable 2) ρ) (eval (variable 1) ρ) (eval (negation (variable 1)) ρ))
call = record {
  f = variable 2;
  g = variable 1;
  h = negation (variable 1);
  f_denotes = second;
  g_denotes = first;
  h_denotes = Denotes-negate first;
  f_lt = omega arith;
  g_lt = omega arith;
  h_lt = omega arith;
  value = λ ρ. refl;
}

standardize-Standard_example :
    (y : Triple) × (c : Bool) × (standardize
        (triple word2 word1 (negate word1))
        false
        three_variables
      ≡ ok (y, c) three_variables)
    × Standard three_variables y 3 (λ ρ.
      flip_if c
        (ite_value (eval (variable 2) ρ) (eval (variable 1) ρ) (eval (negation (variable 1)) ρ)))
standardize-Standard_example = standardize-Standard valid call

is_terminal-cases_example :
    ((w : ℕ) × (is_terminal three_variables.terminal1 three_variables.terminal0
          (triple word2 word1 (negate word1))
        ≡ some w)
      × Result three_variables w 3 (λ ρ.
        ite_value (eval (variable 2) ρ) (eval (variable 1) ρ) (eval (negation (variable 1)) ρ)))
    ⊎ ((is_terminal three_variables.terminal1 three_variables.terminal0
            (triple word2 word1 (negate word1))
          ≡ none)
        × (0 < top call.f))
is_terminal-cases_example = is_terminal-cases valid call refl

has_next-Result_example :
    (has_next (key_of (triple word2 word1 (negate word1))) three_variables
      ≡ ok none three_variables)
    ⊎ ((r : ℕ) × (has_next (key_of (triple word2 word1 (negate word1))) three_variables
          ≡ ok (some r) three_variables)
        × Result three_variables r 3 (λ ρ.
          ite_value (eval (variable 2) ρ) (eval (variable 1) ρ) (eval (negation (variable 1)) ρ)))
has_next-Result_example = has_next-Result valid call

-- ite(b, 1, 0) = b
projection : IsIte three_variables (table_key word2 one nought) word2
projection = record {
  f = variable 2;
  g = bdd false leaf;
  h = bdd true leaf;
  res = variable 2;
  f_denotes = second;
  g_denotes = terminal1-Denotes valid.heap;
  h_denotes = terminal0-Denotes valid.heap;
  res_denotes = second;
  value = λ ρ. ground (arith, eval-one ρ, eval-zero ρ);
  bound = λ n p q r. p;
}

apart : negate_if (variable 1).complement word1 ≢ negate word1
unfolding negate
apart e = omega arith

join-Computes_example :
    Returns three_variables
      (Computes (λ ρ. flip_if false (
        if ρ 2
        then eval (variable 1) ρ
        else low_value (variable 1).complement (eval (variable 1) ρ))))
      (join word2 word1 word1 three_variables)
join-Computes_example = join-Computes valid second first first (omega arith) (omega arith) apart

clear_lem_example :
    clear 1 three_variables
    ≡ ok tt (record three_variables {
      u_table = UTable.new;
      c_table = CTable.new;
      variable_counter = [];
    })
clear_lem_example = clear_lem 0 three_variables

count_nodes_lem_example :
    (l : List ℕ) × (marks : Marks) × (count_nodes word2 no_marks three_variables
      ≡ ok (length l, marks) three_variables)
    × ((q : ℕ) → marks q ≡ false)
    × Distinct l
    × ((q : ℕ)
        → IsIn q l
          ↔ IsIn q (addresses three_variables true (Denotes-Spanned second).shape (ptr word2)))
count_nodes_lem_example = count_nodes_lem valid.heap (Denotes-Spanned second)
