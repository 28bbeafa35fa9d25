-- ===== src/Node.antt =====
-- BDDNode.cpp, what a BDDNode reads through its DDNode.
use ibdd.Prelude.{ℕ, Bool, not, ◌==◌}
use ibdd.State.Accessors
use ibdd.State.{M, pure, ◌>>=◌, ◌>>◌, assert, load}
use ibdd.Word.{ptr}

-- BDDNode::getHigh
unfoldable pub get_high : ℕ → M ℕ
unfolding load
get_high w = do assert (not (ptr w == 0)); d ← load (ptr w); pure (Accessors.get_high d)

-- BDDNode::getLow
unfoldable pub get_low : ℕ → M ℕ
unfolding load
get_low w = do assert (not (ptr w == 0)); d ← load (ptr w); pure (Accessors.get_low d)

-- BDDNode::getIndex
unfoldable pub get_index : ℕ → M ℕ
unfolding load
get_index w = do d ← load (ptr w); pure (Accessors.get_index d)

-- BDDNode::isLeaf
unfoldable pub is_leaf : ℕ → M Bool
is_leaf w = do leaf ← Accessors.get_leaf; pure (ptr w == leaf)
