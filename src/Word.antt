-- ===== src/Word.antt =====
-- BDDNode.cpp, the word `ddNode` of a BDDNode: the address of a DDNode with the edge in its lowest
-- bit. `x & ~3` is `x / 4 * 4`, `x & 1` is `x % 2`, and `x ^ 1` flips the lowest bit.
pub mod Laws
use ibdd.Prelude.{
  ℕ, ◌+◌, ◌-◌, ◌*◌, ◌/◌, ◌%◌, ◌^◌, ◌≤◌, ◌<◌, ◌≡◌, Bool, true, false, ◌==◌, if◌then◌else◌,
}

-- `size_t`
abbrev pub word_mod : ℕ
word_mod = 2 ^ 64

-- enum edge
pub data Edge : Type 0 where
  regular complement : Edge

abbrev pub to_nat : Edge → ℕ
to_nat regular = 0
to_nat complement = 1

-- BDDNode::getComplementEdge
abbrev pub get_complement_edge : Edge
get_complement_edge = complement

-- BDDNode::getRegularEdge
abbrev pub get_regular_edge : Edge
get_regular_edge = regular

-- BDDNode::getDDNode
abbrev pub get_dd_node : ℕ → ℕ
get_dd_node w = w

-- getDDNodeWithEdge: `ddNode & ((~((size_t) 0) >> 2) << 2)`
unfoldable pub ptr : ℕ → ℕ
ptr w = w / 4 * 4

-- isComplementEdge: `ddNode & edge::complement`
unfoldable pub is_complement_edge : ℕ → Bool
is_complement_edge w = w % 2 == 1

-- operator !: `ddNode ^ edge::complement`
unfoldable pub negate : ℕ → ℕ
negate w = if w % 2 == 0 then w + 1 else w - 1

-- `(size_t) node + edge`
unfoldable pub to_word : ℕ → Edge → ℕ
to_word p e = (p + to_nat e) % word_mod

-- An address that `new DDNode` can return: not null, a multiple of four, inside the word.
pub record IsAddress (p : ℕ) : Type 0 where
  pub nonnull : 0 < p
  pub aligned : p % 4 ≡ 0
  pub fits : p + 4 ≤ word_mod

abbrev pub edge_of : Bool → Edge
edge_of true = complement
edge_of false = regular
