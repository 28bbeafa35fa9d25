-- ===== src/Unique.antt =====
-- Manager::findAdd, and the constructors of BDDNode that get a node.
pub mod Finds
pub mod FindAdd
pub mod Node
use ibdd.Prelude.{ℕ, Bool, not, none, some, ◌==◌}
use ibdd.TableKey.{table_key}
use ibdd.Platform.{Platform}
use ibdd.UTable
use ibdd.Word.{Edge, to_word}
use ibdd.State.{
  State, dd_node, M, pure, ◌>>=◌, ◌>>◌, read, modify, defined, assert, new_dd_node, keys,
}

-- BDDNode(DDNode*, edge)
unfoldable pub leaf_node : ℕ → Edge → M ℕ
leaf_node node edge = do assert (not (node == 0)); pure (to_word node edge)

module _ ⦃m : Platform⦄ where
  -- findAdd, where the table has no such node
  unfoldable pub add_node : (f g h : ℕ) → M ℕ
  unfolding new_dd_node
  add_node f g h = do
    node ← new_dd_node (dd_node f h g)
    table ← read (λ s. s.u_table)
    table' ← defined (UTable.add keys table (table_key f g h) node)
    modify (λ s. record s { u_table = table' })
    pure node

  -- Manager::findAdd
  unfoldable pub find_add : (f g h : ℕ) → M ℕ
  find_add f g h = do
    table ← read (λ s. s.u_table)
    found ← defined (UTable.find keys table (table_key f g h))
    elim found [ some node ↦ pure node | none ↦ add_node f g h ]

  -- BDDNode(size_t f, size_t g, size_t h, edge edge)
  unfoldable pub bdd_node : (f g h : ℕ) → Edge → M ℕ
  bdd_node f g h edge = do assert (not (f == 0)); node ← find_add f g h; pure (to_word node edge)
