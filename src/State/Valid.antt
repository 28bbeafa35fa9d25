-- ===== src/State/Valid.antt =====
-- When a state is well formed, and which diagram a BDDNode stands for in it.
use ibdd.Prelude.{ℕ, ◌<◌, ◌≤◌, ◌≡◌, ◌≢◌, ◌⊎◌, Bool, some, if◌then◌else◌, get_elem?}
use ibdd.TableKey.{TableKey, table_key}
use ibdd.Platform.{Platform}
use ibdd.UTable
use ibdd.UTable.Lookup.{IsLoaded}
use ibdd.CTable.Slots.{Holds}
use ibdd.Word.{IsAddress, edge_of, regular, complement, ptr, to_word}
use ibdd.Diagram.{Tree, leaf, node, Bdd, Assignment, eval, top, IsReduced}
use ibdd.State.{DdNode, State, keys}

-- The DDNode at p is the root of the diagram t. A node lies at an address, is not the leaf, and its
-- high edge is regular.
abbrev pub Rep : State → Tree → ℕ → Type 0
Rep s leaf p = (p ≡ s.leaf) × IsAddress p
Rep s (node v h c l) p =
    (q r : ℕ) × (s.cell p
      ≡ some (record { index = v; low = to_word r (edge_of c); high = to_word q regular }))
    × IsAddress p
    × (p ≢ s.leaf)
    × Rep s h q
    × Rep s l r

-- The word w of a BDDNode stands for the reduced diagram e.
pub record Denotes (s : State) (w : ℕ) (e : Bdd) : Type 0 where
  pub node : ℕ
  pub word : w ≡ to_word node (edge_of e.complement)
  pub rep : Rep s e.tree node
  pub reduced : IsReduced e.tree

-- What a later state keeps: every node, the leaf, the terminals and the variables.
pub record Extends (s s' : State) : Type 0 where
  pub cells : (p : ℕ) (d : DdNode) → s.cell p ≡ some d → s'.cell p ≡ some d
  pub leaf : s'.leaf ≡ s.leaf
  pub terminal1 : s'.terminal1 ≡ s.terminal1
  pub terminal0 : s'.terminal0 ≡ s.terminal0
  pub variables :
      (i w : ℕ) → get_elem? s.variable_counter i ≡ some w → get_elem? s'.variable_counter i ≡ some w

abbrev pub ite_value : Bool → Bool → Bool → Bool
ite_value f g h = if f then g else h

-- An entry of the computed table is right: under a key (f, g, h) of three BDDNodes it has a BDDNode
-- of the function ite(f, g, h), which is not rooted above all three.
pub record IsIte (s : State) (k : TableKey) (r : ℕ) : Type 0 where
  pub f : Bdd
  pub g : Bdd
  pub h : Bdd
  pub res : Bdd
  pub f_denotes : Denotes s k.f f
  pub g_denotes : Denotes s k.g g
  pub h_denotes : Denotes s k.h h
  pub res_denotes : Denotes s r res
  pub value : (ρ : Assignment) → eval res ρ ≡ ite_value (eval f ρ) (eval g ρ) (eval h ρ)
  pub bound : (n : ℕ) → top f < n → top g < n → top h < n → top res < n

module _ ⦃m : Platform⦄ where
  -- or its key is a stale one, that names no node
  abbrev pub IsSound : State → TableKey × ℕ → Type 0
  IsSound s (k, r) = ((n : ℕ) → ptr k.f ≢ m.address n) ⊎ IsIte s k r

  -- The heap, the leaf and the unique table.
  pub record ValidHeap (s : State) : Type 0 where
    pub leaf_cell : s.cell s.leaf ≡ some (record { index = 0; low = 0; high = 0 })
    pub leaf_address : s.leaf ≡ m.address 0
    pub terminal1 : s.terminal1 ≡ to_word s.leaf regular
    pub terminal0 : s.terminal0 ≡ to_word s.leaf complement
    -- nodes lie at the addresses that `new` has returned
    pub allocated :
        (p : ℕ) (d : DdNode) → s.cell p ≡ some d → (n : ℕ) × (n < s.count) × (p ≡ m.address n)
    pub counted : (0 < s.count) × (s.count ≤ m.capacity)
    -- the unique table maps the triple of each node to the node, and no other triple
    pub u_loaded : IsLoaded s.u_table
    pub sound :
        (k : TableKey) (p : ℕ)
        → UTable.find keys s.u_table k ≡ some (some p)
        → s.cell p ≡ some (record { index = k.f; low = k.h; high = k.g })
    pub complete :
        (p : ℕ) (d : DdNode)
        → s.cell p ≡ some d
        → UTable.find keys s.u_table (table_key d.index d.high d.low) ≡ some (some p)

  -- and the computed table
  pub record Valid (s : State) : Type 0 where
    pub heap : ValidHeap s
    pub open heap use *
    pub cached : Holds (IsSound s) s.c_table
