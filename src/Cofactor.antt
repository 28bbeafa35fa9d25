-- ===== src/Cofactor.antt =====
-- BDDNode::getCofactor. Its recursion goes down one level at each call, so the index of the root and
-- one more are enough fuel.
pub mod Shannon
pub mod Join
use ibdd.Prelude.{ℕ, zero, suc, Bool, true, false, not, ltb, ◌==◌, if◌then◌else◌}
use ibdd.Platform.{Platform}
use ibdd.Node.{get_high, get_low, get_index}
use ibdd.State.{M, out_of_fuel, pure, ◌>>=◌, ◌>>◌, assert}
use ibdd.Unique.{bdd_node}
use ibdd.Word.{edge_of, ptr, is_complement_edge, negate}

-- enum factor
pub data Factor : Type 0 where
  low high root : Factor

-- BDDNode::getLowFactor
abbrev pub get_low_factor : Factor
get_low_factor = low

-- BDDNode::getHighFactor
abbrev pub get_high_factor : Factor
get_high_factor = high

abbrev pub is_high : Factor → Bool
is_high high = true
is_high low = false
is_high root = false

abbrev pub negate_if : Bool → ℕ → ℕ
negate_if true w = negate w
negate_if false w = w

abbrev pub xor : Bool → Bool → Bool
xor true b = not b
xor false b = b

-- the child of w for a factor, behind the edge of w
unfoldable pub child : ℕ → Bool → M ℕ
child w factor = do
  t ← if factor then get_high w else get_low w
  pure (negate_if (is_complement_edge w) t)

module _ ⦃m : Platform⦄ where
  -- the node that getCofactor makes of the cofactors of the children. Of the two lines that stand
  -- indented under `if ( t.isComplementEdge() )` the second one, `e = !e`, is not part of the `if`.
  unfoldable pub join : (w t e : ℕ) → M ℕ
  join w t e =
      let edge = edge_of (xor (is_complement_edge w) (is_complement_edge t)) in
      do index ← get_index w; bdd_node index (negate_if (is_complement_edge t) t) (negate e) edge

  unfoldable pub get_cofactor_recur : (fuel : ℕ) → ℕ → ℕ → Bool → M ℕ
  get_cofactor_recur zero w index factor = λ _. out_of_fuel
  get_cofactor_recur (suc fuel) w index factor = do
    assert (not (ptr w == 0))
    top ← get_index w
    elim (ltb top index) [
      | true ↦ pure w
      | false ↦ elim (index == top) [
        | true ↦ child w factor
        | false ↦ do
          h ← get_high w
          t ← get_cofactor_recur fuel h index factor
          l ← get_low w
          e ← get_cofactor_recur fuel l index factor
          elim (t == e) [ true ↦ pure (negate_if (is_complement_edge w) t) | false ↦ join w t e ]
      ]
    ]

  -- BDDNode::getCofactor
  unfoldable pub get_cofactor : ℕ → ℕ → Factor → M ℕ
  get_cofactor w index factor = do
    top ← get_index w
    get_cofactor_recur (suc top) w index (is_high factor)
