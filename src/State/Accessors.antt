-- ===== src/State/Accessors.antt =====
-- DDNode.cpp: what a DDNode tells of itself, and the leaf.
use ibdd.Prelude.{ℕ}
use ibdd.State.{DdNode, State, M, read}

-- DDNode::getLow
abbrev pub get_low : DdNode → ℕ
get_low d = d.low

-- DDNode::getHigh
abbrev pub get_high : DdNode → ℕ
get_high d = d.high

-- DDNode::getIndex
abbrev pub get_index : DdNode → ℕ
get_index d = d.index

-- DDNode::getLeaf
abbrev pub get_leaf : M ℕ
get_leaf = read (λ (s : State). s.leaf)
