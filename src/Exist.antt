-- ===== src/Exist.antt =====
-- Manager::existRecur and BDDNode::exist. The recursion goes down one level at each call, so the index
-- of the root and one more are enough fuel.
pub mod Root
pub mod Above
pub mod Stale
pub mod Shared
use ibdd.Prelude.{ℕ, zero, suc, Bool, true, false, none, some, ltb, ◌==◌, if◌then◌else◌}
use ibdd.Platform.{Platform}
use ibdd.TableKey.{TableKey, table_key}
use ibdd.Cofactor.{get_low_factor, get_high_factor, get_cofactor, negate_if}
use ibdd.Ite.{has_next, insert}
use ibdd.Node.{get_index, is_leaf}
use ibdd.Operators.{or}
use ibdd.State.{M, out_of_fuel, pure, ◌>>=◌, ◌>>◌}
use ibdd.Unique.{leaf_node, find_add}
use ibdd.Word.{get_regular_edge, is_complement_edge}

module _ ⦃m : Platform⦄ where
  -- from `bool complementEdge = false;`, with the results of the recursive calls, to the end
  unfoldable pub rebuild : TableKey → (current t e : ℕ) → M ℕ
  rebuild key current t e = elim (t == e) [
    | true ↦ do insert key t; pure t
    | false ↦ do
      let complement_edge = is_complement_edge t
      node ← find_add current (negate_if complement_edge t) (negate_if complement_edge e)
      res ← leaf_node node get_regular_edge
      insert key (negate_if complement_edge res)
      pure (negate_if complement_edge res)
  ]

  -- the case `index == currentIndex`
  unfoldable pub quantify : TableKey → (high_child low_child : ℕ) → M ℕ
  quantify key high_child low_child = do res ← or low_child high_child; insert key res; pure res

  -- Manager::existRecur
  unfoldable pub exist_recur : (fuel : ℕ) → ℕ → ℕ → M ℕ
  exist_recur zero node index = λ _. out_of_fuel
  exist_recur (suc fuel) node index = do
    at_leaf ← is_leaf node
    elim at_leaf [
      | true ↦ pure node
      | false ↦ do
        current ← get_index node
        elim (ltb current index) [
          | true ↦ pure node
          | false ↦ do
            high_child ← get_cofactor node current get_high_factor
            low_child ← get_cofactor node current get_low_factor
            next ← has_next (table_key node high_child low_child)
            elim next [
              | some res ↦ pure res
              | none ↦ elim (index == current) [
                | true ↦ quantify (table_key node high_child low_child) high_child low_child
                | false ↦ do
                  t ← exist_recur fuel high_child index
                  e ← exist_recur fuel low_child index
                  rebuild (table_key node high_child low_child) current t e
              ]
            ]
        ]
    ]

  -- BDDNode::exist
  unfoldable pub exist : ℕ → ℕ → M ℕ
  exist node index = elim (index == 0) [
    | true ↦ pure node
    | false ↦ do current ← get_index node; exist_recur (suc current) node index
  ]
