-- ===== src/Growth.antt =====
-- How many DDNodes a command may make: `new` throws no sooner than the memory is full.
pub mod Ite
pub mod Formulas
use ibdd.Prelude.{
  refl, ℕ, ◌+◌, ◌<◌, ◌≤◌, ◌≡◌, inl, inr, none, some, Option, arith, ltb, Bool-cases, Option-cases,
}
use ibdd.Platform.{Platform}
use ibdd.State.Returns.{KeepsOf, Ends, returns, throws}
use ibdd.State.{
  State, Outcome, ok, thrown, fault, out_of_fuel, M, and_then, defined, ◌>>=◌, new_dd_node, dd_node,
}
use ibdd.TableKey.{table_key}
use ibdd.UTable
use ibdd.State.{keys}
use ibdd.Unique.{add_node, find_add}

-- At most k new DDNodes.
pub data Grows ⦃m : Platform⦄ {A : Type 0} (k : ℕ) (s : State) : Outcome A → Type 0 where
  grown : {a : A} {s' : State} → s'.count ≤ s.count + k → Grows k s (ok a s')
  full : {s' : State} → m.capacity < s.count + k → Grows k s (thrown s')
  failed : Grows k s fault
  starved : Grows k s out_of_fuel

module _ ⦃m : Platform⦄ {A : Type 0} {j : ℕ} {s : State} where
  pub Grows-le : {r : Outcome A} (k : ℕ) → j ≤ k → Grows j s r → Grows k s r
  Grows-le k le (grown b) = grown (omega arith)
  Grows-le k le (full b) = full (omega arith)
  Grows-le k le failed = failed
  Grows-le k le starved = starved

  -- With memory for its nodes a command that is known to end well returns.
  pub returns-Grows :
      {I : State → Type 0} {P : A → State → Type 0} {r : Outcome A}
      → Ends I s P r
      → Grows j s r
      → s.count + j ≤ m.capacity
      → (a : A) × (s' : State) × (r ≡ ok a s') × KeepsOf I s s' × P a s'
  returns-Grows (returns k p) g room = (_, _, refl, k, p)
  returns-Grows (throws k c) (full b) room = absurd (omega arith)

pub after :
    ⦃m : Platform⦄ {B : Type 0} {s s' : State} {k : ℕ} (j : ℕ) {r : Outcome B}
    → s'.count ≤ s.count + j
    → Grows k s' r
    → Grows (j + k) s r
after j b (grown c) = grown (omega arith)
after j b (full c) = full (omega arith)
after j b failed = failed
after j b starved = starved

module _ ⦃m : Platform⦄ {A B : Type 0} {j k : ℕ} {s : State} {f : A → M B} where
  pub and_then-Grows :
      {r : Outcome A}
      → Grows j s r
      → ((a : A) (s' : State) → Grows k s' (f a s'))
      → Grows (j + k) s (and_then r f)
  and_then-Grows (grown b) next = after j b (next _ _)
  and_then-Grows (full b) next = full (omega arith)
  and_then-Grows failed next = failed
  and_then-Grows starved next = starved

  -- The same where the first command is known to end well.
  pub bind-Grows :
      {I : State → Type 0} {P : A → State → Type 0} {r : Outcome A}
      → Ends I s P r
      → Grows j s r
      → ((a : A) (s' : State) → KeepsOf I s s' → P a s' → Grows k s' (f a s'))
      → Grows (j + k) s (and_then r f)
  bind-Grows (returns l p) (grown b) next = after j b (next _ _ l p)
  bind-Grows (throws l c) (full b) next = full (omega arith)

pub defined-Grows : ⦃m : Platform⦄ (s : State) {A : Type 0} (o : Option A) → Grows 0 s (defined o s)
defined-Grows s none = failed
defined-Grows s (some a) = grown (omega arith)

module _ ⦃m : Platform⦄ (s : State) where
  new_dd_node-Grows : (d : _) → Grows 1 s (new_dd_node d s)
  unfolding new_dd_node
  new_dd_node-Grows d = elim (Bool-cases (ltb s.count m.capacity)) [
    | inl y ↦ rw y (grown (omega arith))
    | inr n ↦ let most : m.capacity ≤ s.count = ground arith in rw n (full (omega arith))
  ]

  add_node-Grows : (f g h : ℕ) → Grows 1 s (add_node f g h s)
  unfolding add_node
  add_node-Grows f g h = Grows-le {j = 1 + 0} 1 (omega arith) (
      and_then-Grows {j = 1} {k = 0} (new_dd_node-Grows (dd_node f h g)) λ node s'.
        and_then-Grows {j = 0} {k = 0}
          (defined-Grows s' (UTable.add keys s'.u_table (table_key f g h) node))
          (λ table s''. grown (omega arith)))

  pub find_add-Grows : (f g h : ℕ) → Grows 1 s (find_add f g h s)
  unfolding find_add
  find_add-Grows f g h = elim (Option-cases (UTable.find keys s.u_table (table_key f g h))) [
    | inl e ↦ rw e failed
    | inr (o, e) ↦ elim (Option-cases o) [
      | inl miss ↦ rw (e, miss) (add_node-Grows f g h)
      | inr (p, hit) ↦ rw (e, hit) (grown (omega arith))
    ]
  ]
