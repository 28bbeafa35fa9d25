-- ===== src/Tests/Machine.antt =====
-- A machine for the tests: 32-byte nodes, and an oversized shift that takes its count modulo 64.
use ibdd.Prelude.{ℕ, ◌+◌, ◌*◌, ◌/◌, ◌%◌, ◌^◌, ◌<◌, ◌≡◌, ◌≢◌, arith}
use ibdd.Cofactor.{join, child, get_cofactor_recur, get_cofactor}
use ibdd.Exist.{rebuild, quantify, exist_recur, exist}
use ibdd.Ite.{is_terminal, largest, has_next, insert, split, combine, ite_standard, ite}
use ibdd.Node.{get_high, get_low, get_index, is_leaf}
use ibdd.Operators.{call_ite, and, more, less, xor, or, nor, xnor, nand, equal}
use ibdd.Platform.{Platform}
use ibdd.Setup.{initial, load_tables, set_terminals, add_variables, manager, create_variable}
use ibdd.Standardize.{
  swap, above, identical, swap_or, swap_less, swap_xnor, swap_implies, swap_and, symmetrical,
  regular_f, regular_g, standardize,
}
use ibdd.State.{dd_node, load, new_dd_node}
use ibdd.TableKey
use ibdd.TableKey.{table_key}
use ibdd.UTable
use ibdd.CTable
use ibdd.Unique.{leaf_node, add_node, find_add, bdd_node}
use ibdd.Word.{IsAddress, ptr, is_complement_edge, negate, to_word}

abbrev pub node_address : ℕ → ℕ
node_address n = 64 + 32 * n

pub node_address-IsAddress : (n : ℕ) → n < 1000 → IsAddress (node_address n)
node_address-IsAddress n h = record {
  nonnull = omega arith;
  aligned = omega arith;
  fits = omega arith;
}

pub node_address_injective :
    (n k : ℕ) → n < 1000 → k < 1000 → node_address n ≡ node_address k → n ≡ k
node_address_injective n k p q e = omega arith

pub zero-ne-address : (i n : ℕ) → ptr 0 ≢ node_address n
unfolding ptr
zero-ne-address i n e = omega arith

instance abbrev pub machine : Platform
machine = record {
  capacity = 1000;
  address = node_address;
  address-IsAddress = node_address-IsAddress;
  address_injective = node_address_injective;
  wide_shift = λ x n. x / 2 ^ (n % 64);
  stale = λ i. table_key 0 0 0;
  stale-ne-address = zero-ne-address;
}

-- the operations that a test runs
unfoldable pub program : Unit {0}
unfolding UTable.new UTable.load UTable.find UTable.add UTable.clear CTable.new CTable.load
    CTable.has_next CTable.insert TableKey.hash TableKey.equal ptr is_complement_edge negate to_word
    dd_node load new_dd_node get_high get_low get_index is_leaf add_node find_add bdd_node join
    child get_cofactor_recur get_cofactor swap above identical swap_or swap_less swap_xnor
    swap_implies swap_and symmetrical regular_f regular_g standardize is_terminal largest has_next
    insert split combine ite_standard ite call_ite and more less xor or nor xnor nand equal rebuild
    quantify exist_recur exist initial leaf_node load_tables set_terminals add_variables manager
    create_variable
program = tt
