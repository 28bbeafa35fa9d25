-- ===== src/Tests/Caches.antt =====
-- The tables as lists, and the entry that exist leaves where ite finds it.
use ibdd.Prelude.{
  ℕ, ◌+◌, length, ◌≡◌, ◌≢◌, refl, ap, subst, false, none, some, List, [], ◌∷◌, arith,
}
use ibdd.CTable
use ibdd.CTable.{CTable}
use ibdd.CTable.Inserts.{insert_all, IsLatest, load-insert_all}
use ibdd.Cofactor.{high, get_cofactor}
use ibdd.Diagram.{Bdd, bdd, node}
use ibdd.Exist.{exist}
use ibdd.Exist.Root.{exists_value}
use ibdd.Exist.Shared.{exist-ite}
use ibdd.Exist.Stale.{IsKeyOf}
use ibdd.Ite.{has_next, ite, is_terminal}
use ibdd.Operators.Values.{Computes, call_ite-Computes}
use ibdd.Operators.{call_ite}
use ibdd.Setup.Vector.{variable}
use ibdd.Standardize.{triple, standardize}
use ibdd.State.Rep.{Denotes-extends}
use ibdd.State.Returns.{Ends-ok, Returns, Keeps}
use ibdd.State.Valid.{Denotes}
use ibdd.State.{State, ok, keys}
use ibdd.TableKey.{TableKey, table_key}
use ibdd.Tests.Machine.{machine, program}
use ibdd.Tests.ThreeVariables.{
  state_of, three_variables, word1, word2, word3, valid, first, second, third,
}
use mathlib.Core.List.{Perm}
use ibdd.Partial.{◌>>=◌}
use ibdd.UTable.Iterator
use ibdd.UTable.Iterator.Pairs.{visit-add_all}
use ibdd.UTable
use ibdd.UTable.{UTable}
use ibdd.UTable.Adds.{add_all, Finds, load-add_all}
use ibdd.Unique.Node.{triple-Denotes}

-- two keys in one table of one bucket
abbrev pairs : List (TableKey × ℕ)
pairs = (table_key 1 64 65, 96) ∷ (table_key 2 64 65, 128) ∷ (table_key 1 64 65, 160) ∷ []

load-add_all_example :
    (u : UTable TableKey ℕ) × (add_all keys pairs (UTable.load 1 UTable.new) ≡ some u)
    × Finds keys u pairs
load-add_all_example = load-add_all keys 1 UTable.new pairs (omega arith) (omega arith)

visit-add_all_example :
    (u : UTable TableKey ℕ) × (visited : List (TableKey × ℕ)) × (add_all keys pairs
        (UTable.load 7 UTable.new)
      ≡ some u)
    × ((Iterator.begin u >>= Iterator.visit u (length pairs + 1)) ≡ some visited)
    × Perm visited pairs
visit-add_all_example = visit-add_all keys 7 UTable.new pairs (omega arith) (omega arith)

abbrev stale_keys : ℕ → TableKey
stale_keys i = table_key 0 0 0

stale_keys-ne : (j : ℕ) → stale_keys j ≢ table_key 2 64 65
stale_keys-ne j e = let f = ap (λ (k : TableKey). k.f) e in omega arith

load-insert_all_example :
    (c : CTable TableKey ℕ) × (insert_all keys pairs (CTable.load stale_keys 0 1 CTable.new)
      ≡ some c)
    × IsLatest keys (table_key 2 64 65) pairs c
load-insert_all_example =
    load-insert_all keys stale_keys 0 1 CTable.new pairs (table_key 2 64 65) (omega arith)
      stale_keys-ne

-- f = c ? a : b
abbrev choice_state : State
choice_state = state_of (call_ite word3 word1 word2 three_variables)

abbrev choice : ℕ
choice = 192

choice_run : call_ite word3 word1 word2 three_variables ≡ ok choice choice_state
unfolding program
choice_run = refl

kept : Keeps three_variables choice_state
kept =
    (Ends-ok
      (subst (Returns three_variables _) choice_run (call_ite-Computes valid third first second))).0

abbrev choice_diagram : Bdd
choice_diagram = bdd false (node 3 (variable 1).tree false (variable 2).tree)

choice-Denotes : Denotes choice_state choice choice_diagram
unfolding program
choice-Denotes =
    triple-Denotes kept.valid.heap 3 192 (Denotes-extends kept.extends first)
      (Denotes-extends kept.extends second) (omega arith) (omega arith) (omega arith)
      (λ e. let n : 96 ≡ 128 = e in omega arith) refl

abbrev choice_key : TableKey
choice_key = table_key choice word1 word2

choice_key-IsKeyOf : IsKeyOf choice_state choice 3 choice_key
unfolding program
choice_key-IsKeyOf = record {
  high_child = word1;
  low_child = word2;
  key = refl;
  high_run = refl;
  low_run = refl;
}

miss : has_next choice_key choice_state ≡ ok none choice_state
unfolding program
miss = refl

abbrev quantified_state : State
quantified_state = state_of (exist choice 3 choice_state)

abbrev quantified_word : ℕ
quantified_word = 224

quantified_run : exist choice 3 choice_state ≡ ok quantified_word quantified_state
unfolding program
quantified_run = refl

standard :
    standardize (triple choice word1 word2) false quantified_state
    ≡ ok (triple choice word1 word2, false) quantified_state
unfolding program
standard = refl

open_case :
    is_terminal quantified_state.terminal1 quantified_state.terminal0 (triple choice word1 word2)
    ≡ none
unfolding program
open_case = refl

-- ite(f, a, b) is a + b after the quantification of c in f
exist-ite_example :
    (ite 4 choice word1 word2 quantified_state ≡ ok quantified_word quantified_state)
    × Computes (exists_value choice_diagram 3) quantified_word quantified_state
unfolding choice_key-IsKeyOf
exist-ite_example =
    exist-ite kept.valid choice-Denotes choice_key-IsKeyOf miss quantified_word quantified_state
      quantified_run standard open_case 3

-- without the quantification it is another BDDNode
abbrev undisturbed_state : State
undisturbed_state = state_of (ite 4 choice word1 word2 choice_state)

undisturbed : ite 4 choice word1 word2 choice_state ≡ ok 288 undisturbed_state
unfolding program
undisturbed = refl

-- getCofactor by index 0 reads the children of the leaf, which are null, and makes a node of them
abbrev null_state : State
null_state = state_of (get_cofactor word1 0 high three_variables)

null_children :
    (get_cofactor word1 0 high three_variables ≡ ok 192 null_state)
    × (null_state.cell 192 ≡ some (record { index = 1; low = 0; high = 0 }))
unfolding program
null_children = (refl, refl)
