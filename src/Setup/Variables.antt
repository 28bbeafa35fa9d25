-- ===== src/Setup/Variables.antt =====
-- The constructor of Manager builds a valid state in which every variable is a BDDNode.
use ibdd.Prelude.{
  ℕ, zero, suc, ◌+◌, ◌^◌, ◌<◌, ◌≤◌, ◌≡◌, refl, sym, ◌∙◌, ap, subst, some, List, [], arith, length,
}
use native.Mathlib.Decide.{dec_lt}
use ibdd.Platform.{Platform}
use ibdd.Setup.{initial, load_tables, add_variables, manager}
use ibdd.Setup.Terminals.{with_leaf, start-Valid, start-thrown}
use ibdd.State.{State, Outcome, ok, thrown}
use ibdd.State.Rep.{Denotes-extends}
use ibdd.State.Returns.{Returns, returns, throws, bind, from, same}
use ibdd.State.Valid.{Valid, Extends}
use ibdd.Setup.Vector.{
  HasVariables, pushed, pushed-Valid, pushed-Keeps, pushed-HasVariables, variable_node,
}

-- What the constructor leaves behind: a valid state with the property, or an exhausted memory.
pub data Builds ⦃m : Platform⦄ (P : State → Type 0) : Outcome (Unit {0}) → Type 0 where
  built : {s : State} → Valid s → P s → Builds P (ok tt s)
  exhausted : {s : State} → m.capacity ≤ s.count → Builds P (thrown s)

-- The loop of the constructor.
module _ ⦃m : Platform⦄ where
  HasVariables-extends :
      {s s' : State} {n : ℕ}
      → Extends s s'
      → s'.variable_counter ≡ s.variable_counter
      → HasVariables n s
      → HasVariables n s'
  HasVariables-extends x same h = record {
    counted = ap (λ (l : List ℕ). length l) same ∙ h.counted;
    constant = λ pos. x.variables 0 _ (h.constant pos) ∙ ap some (sym x.terminal1);
    each = λ i pos lt.
        let (w, at, d) = h.each i pos lt in (w, x.variables i w at, Denotes-extends x d);
  }

  add_variables-HasVariables :
      (rounds i n : ℕ) (s : State)
      → Valid s
      → 0 < i
      → i + rounds ≡ n
      → n ≤ 2 ^ 16
      → HasVariables i s
      → Returns s (λ _ s'. HasVariables n s') (add_variables rounds i s)
  unfolding add_variables pushed
  add_variables-HasVariables zero i n s v pos e small h =
      same v (subst (λ k. HasVariables k s) (let q : i ≡ n = omega arith in q) h)
  add_variables-HasVariables (suc rounds) i n s v pos e small h =
      bind (variable_node v i pos (omega arith)) λ w s₁ k₁ (d, unchanged).
        let h₁ = HasVariables-extends k₁.extends unchanged h in
        let next = pushed-HasVariables k₁.valid w h₁ (λ q. absurd (omega arith)) (λ _. d) in
        let step : suc i ≡ i + 1 = omega arith in
        from (pushed-Keeps k₁.valid w) (
          add_variables-HasVariables rounds (i + 1) n (pushed s₁ w) (pushed-Valid k₁.valid w)
            (omega arith) (omega arith) small (subst (λ k. HasVariables k (pushed s₁ w)) step next))

  Returns-Builds :
      {s : State} {P : State → Type 0} {r : Outcome (Unit {0})}
      → Returns s (λ _ s'. P s') r
      → Builds P r
  Returns-Builds (returns k p) = built k.valid p
  Returns-Builds (throws k c) = exhausted c

  no_variables : {s : State} → s.variable_counter ≡ [] → HasVariables 0 s
  no_variables e = record {
    counted = ap (λ (l : List ℕ). length l) e;
    constant = λ pos. absurd (omega arith);
    each = λ i pos lt. absurd (omega arith);
  }

  -- With tables that are not empty and fewer than 2^16 variables, the constructor of Manager
  -- leaves a valid state whose vector holds the constant 1 and a BDDNode of each variable, or
  -- `new` throws with the memory exhausted.
  pub manager-HasVariables :
      (variables u_table_size c_table_size : ℕ)
      → 0 < u_table_size
      → 0 < c_table_size
      → variables < 2 ^ 16
      → Builds (HasVariables (variables + 1)) (manager variables u_table_size c_table_size initial)
  unfolding manager load_tables initial pushed
  manager-HasVariables variables u c pu pc small = elim (dec_lt 0 m.capacity) [
    | yes room ↦
        let (table, run, v) = start-Valid u c pu pc room in
        let w = (with_leaf u c table).terminal1 in
        let first =
          pushed-HasVariables v w (no_variables refl) (λ q. refl) (λ q. absurd (omega arith)) in
        rw run (
          Returns-Builds (
            add_variables-HasVariables variables 1 (variables + 1) (pushed (with_leaf u c table) w)
              (pushed-Valid v w) (omega arith) (omega arith) (omega arith) first))
    | no full ↦
        let (s, run, count) = start-thrown u c pu pc (omega arith) in
        rw run (exhausted (omega arith))
  ]
