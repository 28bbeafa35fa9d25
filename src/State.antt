-- ===== src/State.antt =====
-- The state that a Manager and the static members of BDDNode and DDNode make up, with the heap of
-- DDNodes, and the commands on it. `id` and `marked` of a DDNode are no part of the heap, since no
-- other function modelled over this state reads them: References and Marks have them beside it.
pub mod Rep
pub mod Unique
pub mod Valid
pub mod Returns
pub mod Accessors
use ibdd.Prelude.{ℕ, ◌+◌, ◌%◌, ◌^◌, Bool, Option, none, some, List, ltb, ◌==◌, if◌then◌else◌}
use ibdd.TableKey.{TableKey, hash, equal, equal_iff}
use ibdd.Hashing.{Hashing}
use ibdd.Platform.{Platform}
use ibdd.UTable.{UTable}
use ibdd.CTable.{CTable}

-- class DDNode: `low` and `high` are the words of BDDNodes
pub record DdNode : Type 0 where
  pub index : ℕ
  pub low : ℕ
  pub high : ℕ

-- DDNode(size_t index, BDDNode low, BDDNode high); `index` is a bit field of 16 bits
unfoldable pub dd_node : ℕ → ℕ → ℕ → DdNode
dd_node index low high = record { index = index % 2 ^ 16; low = low; high = high }

pub record State : Type 0 where
  -- class Manager
  pub u_table : UTable TableKey ℕ
  pub c_table : CTable TableKey ℕ
  pub variable_counter : List ℕ
  -- DDNode::leaf, BDDNode::terminal1 and BDDNode::terminal0
  pub leaf : ℕ
  pub terminal1 : ℕ
  pub terminal0 : ℕ
  -- the DDNodes at their addresses, and how many there are
  pub cell : ℕ → Option DdNode
  pub count : ℕ

-- A run ends with a value, with `std::bad_alloc`, or in a failed assertion or undefined behaviour. The
-- model alone can run out of fuel.
pub data Outcome (A : Type 0) : Type 0 where
  ok : A → State → Outcome A
  thrown : State → Outcome A
  fault : Outcome A
  out_of_fuel : Outcome A

abbrev pub M : Type 0 → Type 0
M A = State → Outcome A

abbrev pub pure : {A : Type 0} → A → M A
pure = ok

module _ {A B : Type 0} where
  abbrev pub and_then : Outcome A → (A → M B) → Outcome B
  and_then (ok a s) k = k a s
  and_then (thrown s) k = thrown s
  and_then fault k = fault
  and_then out_of_fuel k = out_of_fuel

  infixl 5 ◌>>=◌ ◌>>◌
  abbrev pub ◌>>=◌ : M A → (A → M B) → M B
  m >>= k = λ s. and_then (m s) k

  abbrev pub ◌>>◌ : M A → M B → M B
  m >> n = m >>= λ _. n

abbrev pub read : {A : Type 0} → (State → A) → M A
read f s = ok (f s) s

abbrev pub modify : (State → State) → M (Unit {0})
modify f s = ok tt (f s)

-- `none` is undefined behaviour
abbrev pub defined : {A : Type 0} → Option A → M A
defined none s = fault
defined (some a) s = ok a s

abbrev pub assert : Bool → M (Unit {0})
assert b s = if b then ok tt s else fault

-- DDNode::setLeaf
abbrev pub set_leaf : ℕ → M (Unit {0})
set_leaf p = modify (λ s. record s { leaf = p })

-- BDDNode::setTerminal1
abbrev pub set_terminal1 : ℕ → M (Unit {0})
set_terminal1 w = modify (λ s. record s { terminal1 = w })

-- BDDNode::setTerminal0
abbrev pub set_terminal0 : ℕ → M (Unit {0})
set_terminal0 w = modify (λ s. record s { terminal0 = w })

-- BDDNode::getTerminal1
abbrev pub get_terminal1 : M ℕ
get_terminal1 = read (λ s. s.terminal1)

-- BDDNode::getTerminal0
abbrev pub get_terminal0 : M ℕ
get_terminal0 = read (λ s. s.terminal0)

-- a read through a pointer to a DDNode
unfoldable pub load : ℕ → M DdNode
load p s = defined (s.cell p) s

abbrev pub write : (ℕ → Option DdNode) → ℕ → DdNode → ℕ → Option DdNode
write cell p d q = if q == p then some d else cell q

-- a write through a pointer to a DDNode
unfoldable pub store : ℕ → (DdNode → DdNode) → M (Unit {0})
unfolding load
store p f = do d ← load p; modify (λ s. record s { cell = write s.cell p (f d) })

-- DDNode::setLow
unfoldable pub set_low : ℕ → ℕ → M (Unit {0})
unfolding store
set_low p low = store p (λ d. record d { low = low })

-- DDNode::setHigh
unfoldable pub set_high : ℕ → ℕ → M (Unit {0})
unfolding store
set_high p high = store p (λ d. record d { high = high })

-- DDNode::setIndex
unfoldable pub set_index : ℕ → ℕ → M (Unit {0})
unfolding store
set_index p index = store p (λ d. record d { index = index % 2 ^ 16 })

module _ ⦃m : Platform⦄ where
  -- `new DDNode(…)`
  unfoldable pub new_dd_node : DdNode → M ℕ
  new_dd_node d s =
      if ltb s.count m.capacity
      then ok (m.address s.count)
          (record s { cell = write s.cell (m.address s.count) d; count = s.count + 1 })
      else thrown s

  -- TableKey as the key of both tables
  abbrev pub keys : Hashing TableKey
  keys = record { hash = hash m.wide_shift; equal = equal; equal_iff = equal_iff }
