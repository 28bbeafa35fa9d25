-- ===== src/Setup.antt =====
-- Manager::Manager, which sets up the tables, the leaf and the variables, and Manager::createVariable.
pub mod Vector
pub mod Variables
pub mod Terminals
pub mod Clear
pub mod Memory
pub mod Cleared
pub mod Create
use ibdd.Prelude.{
  ℕ, zero, suc, ◌+◌, ◌-◌, ◌%◌, Bool, not, none, List, [], ◌∷◌, ◌++◌, leb, ◌==◌, if◌then◌else◌,
  length, get_elem?,
}
use ibdd.Platform.{Platform}
use ibdd.CTable
use ibdd.UTable
use ibdd.State.{
  State, M, pure, ◌>>=◌, ◌>>◌, read, modify, defined, assert, set_leaf, set_terminal1,
  set_terminal0, get_terminal1, get_terminal0,
}
use ibdd.Unique.{leaf_node, find_add, bdd_node}
use ibdd.Word.{get_regular_edge, get_complement_edge, get_dd_node, to_word, word_mod}

-- before any Manager: DDNode::leaf is null, BDDNode::terminal0 is 0 and BDDNode::terminal1 is 1
unfoldable pub initial : State
unfolding UTable.new CTable.new
initial = record {
  u_table = UTable.new;
  c_table = CTable.new;
  variable_counter = [];
  leaf = 0;
  terminal1 = 1;
  terminal0 = 0;
  cell = λ _. none;
  count = 0;
}

-- variableCounter.push_back
abbrev pub push_back : ℕ → M (Unit {0})
push_back w = modify (λ s. record s { variable_counter = s.variable_counter ++ w ∷ [] })

module _ ⦃m : Platform⦄ where
  -- uTable.load and cTable.load
  unfoldable pub load_tables : (u_table_size c_table_size : ℕ) → M (Unit {0})
  load_tables u_table_size c_table_size = do
    modify (λ s. record s { u_table = UTable.load u_table_size s.u_table })
    modify (λ s. record s { c_table = CTable.load m.stale 0 c_table_size s.c_table })

  -- setLeaf, setTerminal1 and setTerminal0
  unfoldable pub set_terminals : M (Unit {0})
  unfolding leaf_node
  set_terminals = do
    node ← find_add 0 0 0
    set_leaf node
    one ← leaf_node node get_regular_edge
    set_terminal1 one
    nought ← leaf_node node get_complement_edge
    set_terminal0 nought

  -- the loop over the variables from i on, with `rounds` left
  unfoldable pub add_variables : (rounds i : ℕ) → M (Unit {0})
  add_variables zero i = pure tt
  add_variables (suc rounds) i = do
    one ← get_terminal1
    nought ← get_terminal0
    node ← bdd_node i (get_dd_node one) (get_dd_node nought) get_regular_edge
    push_back node
    add_variables rounds (i + 1)

  -- Manager::Manager
  unfoldable pub manager : (variables u_table_size c_table_size : ℕ) → M (Unit {0})
  manager variables u_table_size c_table_size = do
    load_tables u_table_size c_table_size
    set_terminals
    one ← get_terminal1
    push_back one
    add_variables variables 1

-- Manager::createVariable
unfoldable pub create_variable : ℕ → M ℕ
create_variable variable = do
  variables ← read (λ (s : State). s.variable_counter)
  assert (leb variable ((length variables + word_mod - 1) % word_mod))
  defined (get_elem? variables variable)
