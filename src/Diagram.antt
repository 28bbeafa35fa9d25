-- ===== src/Diagram.antt =====
-- The decision diagrams that DDNodes stand for, as trees: the abstract view of the heap.
-- A node's high edge is regular, its low edge may be complemented, and the one leaf is the constant 1.
pub mod Canonical
pub mod Cofactor
pub mod Reference
use ibdd.Prelude.{ℕ, ◌<◌, ◌^◌, ◌≡◌, ◌≢◌, Bool, true, false, not, ◌==◌, if◌then◌else◌}

-- `node v h c l` has the variable v, the high child h, and the low child l behind an edge that is
-- complemented if c.
pub data Tree : Type 0 where
  leaf : Tree
  node : ℕ → Tree → Bool → Tree → Tree

-- What a BDDNode stands for: a diagram behind an edge.
pub record Bdd : Type 0 where
  pub complement : Bool
  pub tree : Tree

abbrev pub bdd : Bool → Tree → Bdd
bdd c t = record { complement = c; tree = t }

-- The value of every variable.
abbrev pub Assignment : Type 0
Assignment = ℕ → Bool

abbrev pub flip_if : Bool → Bool → Bool
flip_if true b = not b
flip_if false b = b

unfoldable pub eval_tree : Tree → Assignment → Bool
eval_tree leaf ρ = true
eval_tree (node v h c l) ρ = if ρ v then eval_tree h ρ else flip_if c (eval_tree l ρ)

-- the Boolean function of a BDDNode
unfoldable pub eval : Bdd → Assignment → Bool
unfolding eval_tree
eval e ρ = flip_if e.complement (eval_tree e.tree ρ)

-- The label, 0 at the leaf.
abbrev pub top_tree : Tree → ℕ
top_tree leaf = 0
top_tree (node v h c l) = v

abbrev pub top : Bdd → ℕ
top e = top_tree e.tree

-- Reduced and ordered: labels are positive, fit the 16 bits of `index` and fall towards the leaf, and
-- the two edges of a node differ.
abbrev pub IsReduced : Tree → Type 0
IsReduced leaf = Unit
IsReduced (node v h c l) =
    (top_tree h < v)
    × (top_tree l < v)
    × (v < 2 ^ 16)
    × (bdd false h ≢ bdd c l)
    × IsReduced h
    × IsReduced l
