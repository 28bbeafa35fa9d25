-- ===== src/Safety.antt =====
-- What every operation keeps, also those that compute a wrong function: words lead to nodes, labels
-- fall from a node to its children, and a result in the computed table has no label above its key's.
pub mod Nodes
pub mod FindAdd
pub mod Cofactor
pub mod Standardize
pub mod Cache
pub mod Ite
pub mod Exist
pub mod Setup
pub mod Walks
use ibdd.Prelude.{ℕ, ◌<◌, ◌≤◌, length, ◌^◌, ◌≡◌, ◌≢◌, ◌⊎◌, Bool, some, get_elem?}
use ibdd.CTable.Slots.{Holds}
use ibdd.Platform.{Platform}
use ibdd.State.Valid.{ValidHeap}
use ibdd.State.{DdNode, State}
use ibdd.TableKey.{TableKey}
use ibdd.Word.{edge_of, ptr, to_word}

-- w is the word of a BDDNode whose DDNode has the label i.
pub record Labelled (s : State) (w i : ℕ) : Type 0 where
  pub node : ℕ
  pub complement : Bool
  pub word : w ≡ to_word node (edge_of complement)
  pub cell : DdNode
  pub here : s.cell node ≡ some cell
  pub label : cell.index ≡ i

-- One with a label below n.
abbrev pub Below : State → ℕ → ℕ → Type 0
Below s w n = (i : ℕ) × Labelled s w i × (i < n)

-- An entry of the computed table under a key of three BDDNodes is not labelled above all of them.
pub record Bounded (s : State) (k : TableKey) (r : ℕ) : Type 0 where
  pub f : ℕ
  pub g : ℕ
  pub h : ℕ
  pub res : ℕ
  pub f_labelled : Labelled s k.f f
  pub g_labelled : Labelled s k.g g
  pub h_labelled : Labelled s k.h h
  pub res_labelled : Labelled s r res
  pub bound : (n : ℕ) → f < n → g < n → h < n → res < n

module _ ⦃m : Platform⦄ where
  abbrev pub IsBounded : State → TableKey × ℕ → Type 0
  IsBounded s (k, r) = ((n : ℕ) → ptr k.f ≢ m.address n) ⊎ Bounded s k r

  pub record Safe (s : State) : Type 0 where
    pub heap : ValidHeap s
    pub open heap use *
    pub small : (p : ℕ) (d : DdNode) → s.cell p ≡ some d → d.index < 2 ^ 16
    pub children :
        (p : ℕ) (d : DdNode)
        → s.cell p ≡ some d
        → p ≢ s.leaf
        → Below s d.low d.index × Below s d.high d.index
    pub variables : (i w : ℕ) → get_elem? s.variable_counter i ≡ some w → Below s w (2 ^ 16)
    pub few : length s.variable_counter ≤ 2 ^ 16
    pub cached : Holds (IsBounded s) s.c_table
