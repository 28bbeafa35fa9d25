-- ===== src/Ite.antt =====
-- Manager::isTerminal and Manager::ite. Each recursive call is on cofactors by the largest label, so
-- one more than that label is enough fuel.
pub mod Terminal
pub mod Cache
pub mod Split
pub mod Combine
pub mod Total
use ibdd.Prelude.{
  ℕ, zero, suc, Bool, true, false, ◌&&◌, Option, none, some, ltb, ◌==◌, if◌then◌else◌,
}
use ibdd.Platform.{Platform}
use ibdd.TableKey.{TableKey, table_key}
use ibdd.CTable
use ibdd.Cofactor.{get_low_factor, get_high_factor, get_cofactor, negate_if}
use ibdd.Node.{get_index}
use ibdd.Standardize.{Triple, triple, standardize}
use ibdd.State.{
  State, M, out_of_fuel, pure, ◌>>=◌, ◌>>◌, read, modify, defined, keys, get_terminal1,
  get_terminal0,
}
use ibdd.Unique.{find_add}
use ibdd.Word.{get_dd_node}

-- Manager::isTerminal: `some res` where it returns true
unfoldable pub is_terminal : (terminal1 terminal0 : ℕ) → Triple → Option ℕ
is_terminal terminal1 terminal0 x =
    if x.f == terminal1
    then some x.g
    else if x.f == terminal0
    then some x.h
    else if (x.h == terminal0) && (x.g == terminal1)
    then some x.f
    else if x.g == x.h
    then some x.g
    else none

-- `top`, the largest of three labels
unfoldable pub largest : (f g h : ℕ) → ℕ
largest f g h =
    let top = f in let top' = if ltb top g then g else top in if ltb top' h then h else top'

module _ ⦃m : Platform⦄ where
  -- cTable.hasNext
  unfoldable pub has_next : TableKey → M (Option ℕ)
  has_next key = do
    cache ← read (λ (s : State). s.c_table)
    defined (CTable.has_next keys cache key)

  -- cTable.insert
  unfoldable pub insert : TableKey → ℕ → M (Unit {0})
  insert key res = do
    cache ← read (λ (s : State). s.c_table)
    cache' ← defined (CTable.insert keys cache key res)
    modify (λ s. record s { c_table = cache' })

  -- from `unsigned top = f.getIndex();` to `BDDNode e = ite(f0, g0, h0);`
  unfoldable pub split : (recur : ℕ → ℕ → ℕ → M ℕ) → Triple → M (ℕ × ℕ × ℕ)
  split recur x = do
    i ← get_index x.f
    j ← get_index x.g
    k ← get_index x.h
    f1 ← get_cofactor x.f (largest i j k) get_high_factor
    g1 ← get_cofactor x.g (largest i j k) get_high_factor
    h1 ← get_cofactor x.h (largest i j k) get_high_factor
    f0 ← get_cofactor x.f (largest i j k) get_low_factor
    g0 ← get_cofactor x.g (largest i j k) get_low_factor
    h0 ← get_cofactor x.h (largest i j k) get_low_factor
    t ← recur f1 g1 h1
    e ← recur f0 g0 h0
    pure (largest i j k, t, e)

  -- from `if (t == e)` to the end
  unfoldable pub combine : Triple → Bool → (top t e : ℕ) → M ℕ
  combine x complement_edge top t e = elim (t == e) [
    | true ↦ pure (negate_if complement_edge t)
    | false ↦ do
      node ← find_add top (get_dd_node t) (get_dd_node e)
      insert (table_key (get_dd_node x.f) (get_dd_node x.g) (get_dd_node x.h)) node
      pure (negate_if complement_edge node)
  ]

  -- the body of `ite` after `standardize`
  unfoldable pub ite_standard : (recur : ℕ → ℕ → ℕ → M ℕ) → Triple → Bool → M ℕ
  ite_standard recur x complement_edge = do
    terminal1 ← get_terminal1
    terminal0 ← get_terminal0
    elim (is_terminal terminal1 terminal0 x) [
      | some res ↦ pure (negate_if complement_edge res)
      | none ↦ do
        hit ← has_next (table_key (get_dd_node x.f) (get_dd_node x.g) (get_dd_node x.h))
        elim hit [
          | some res ↦ pure (negate_if complement_edge res)
          | none ↦ do (top, t, e) ← split recur x; combine x complement_edge top t e
        ]
    ]

  -- Manager::ite
  unfoldable pub ite : (fuel : ℕ) → (f g h : ℕ) → M ℕ
  ite zero f g h = λ _. out_of_fuel
  ite (suc fuel) f g h = do
    (x, complement_edge) ← standardize (triple f g h) false
    ite_standard (ite fuel) x complement_edge
