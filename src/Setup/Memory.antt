-- ===== src/Setup/Memory.antt =====
-- The memory that the constructor of Manager takes: one DDNode for the leaf and one for each variable.
use ibdd.Prelude.{
  ℕ, zero, suc, ◌+◌, ◌<◌, ◌≤◌, ◌^◌, ◌≡◌, refl, inl, inr, false, some, arith, ◌==◌, ap, subst,
}
use native.Mathlib.Decide.{dec_lt}
use ibdd.Platform.{Platform}
use ibdd.Setup.{initial, load_tables, add_variables, manager, push_back}
use ibdd.Setup.Terminals.{with_leaf, only_leaf, start-Valid, start-thrown}
use ibdd.Setup.Vector.{pushed, pushed-Valid}
use ibdd.State.Valid.{Valid}
use ibdd.State.{DdNode, State, Outcome, ok, thrown, M, pure, and_then, ◌>>=◌, ◌>>◌}
use ibdd.Unique.FindAdd.{Adds-Valid}
use ibdd.Unique.Finds.{triple, Adds, Finds, found, added, full, find_add-Finds}
use ibdd.TableKey.{TableKey}
use ibdd.UTable.{UTable}
use ibdd.Unique.{bdd_node}
use ibdd.Word.{regular, to_word}

module _ ⦃m : Platform⦄ where
  -- The end of the constructor: n DDNodes, or a memory that holds fewer.
  pub data Fills (n : ℕ) : Outcome (Unit {0}) → Type 0 where
    filled : {s : State} → s.count ≡ n → n ≤ m.capacity → Fills n (ok tt s)
    exhausted : {s : State} → s.count ≡ m.capacity → m.capacity < n → Fills n (thrown s)

  -- A state with i DDNodes, whose labels are below i.
  record IsNumbered (i : ℕ) (s : State) : Type 0 where
    pub valid : Valid s
    pub count : s.count ≡ i
    pub labels : (p : ℕ) (d : DdNode) → s.cell p ≡ some d → d.index < i

  added-IsNumbered :
      {s s' : State} {i p g h : ℕ} (x : IsNumbered i s)
      → Adds x.valid.heap p (triple i g h) s'
      → (w : ℕ) → IsNumbered (suc i) (pushed s' w)
  unfolding pushed
  added-IsNumbered x a w = record {
    valid = pushed-Valid (Adds-Valid x.valid a) w;
    count = let e = a.count in let c = x.count in omega arith;
    labels = λ q d e. elim (a.only q d e) [
      | inl (at, same) ↦ let index = ap (λ (n : DdNode). n.index) same in omega arith
      | inr old ↦ let lt = x.labels q d old in omega arith
    ];
  }

  Finds-Fills :
      {s : State} {i n g h : ℕ} {r : Outcome ℕ} (x : IsNumbered i s) (j : ℕ → M ℕ)
      (k : ℕ → M (Unit {0}))
      → Finds x.valid.heap i g h r
      → i < n
      → ((p : ℕ) (s' : State)
          → Adds x.valid.heap p (triple i g h) s'
          → Fills n (and_then (j p s') k))
      → Fills n (and_then (and_then r j) k)
  Finds-Fills x j k (found p cell) lt next = absurd (let l = x.labels p _ cell in omega arith)
  Finds-Fills x j k (added p s' a) lt next = next p s' a
  Finds-Fills x j k (full c) lt next =
      let e = x.count in
      let (some_node, most) = x.valid.counted in exhausted (omega arith) (omega arith)

  add_variables-Fills :
      (rounds i n : ℕ) (s : State)
      → IsNumbered i s
      → 0 < i
      → i + rounds ≡ n
      → n ≤ 2 ^ 16
      → Fills n (add_variables rounds i s)
  unfolding add_variables pushed bdd_node
  add_variables-Fills zero i n s x pos e small =
      let c = x.count in
      let (some_node, most) = x.valid.counted in filled (omega arith) (omega arith)
  add_variables-Fills (suc rounds) i n s x pos e small =
      let nonzero : (i == 0) ≡ false = ground arith in
      rw (nonzero, ◌>>=◌)
        (Finds-Fills x (λ node. pure (to_word node regular))
          (λ node. push_back node >> add_variables rounds (i + 1))
          (find_add-Finds x.valid.heap i s.terminal1 s.terminal0 (omega arith)) (omega arith)
          λ p s' a.
            let w = to_word p regular in
            let step : suc i ≡ i + 1 = omega arith in
            add_variables-Fills rounds (i + 1) n (pushed s' w)
              (subst (λ z. IsNumbered z (pushed s' w)) step (added-IsNumbered x a w)) (omega arith)
              (omega arith) small)

  leaf-IsNumbered :
      (u c : ℕ)
      → 0 < u
      → 0 < c
      → (table : UTable TableKey ℕ) → Valid (with_leaf u c table)
      → IsNumbered 1 (pushed (with_leaf u c table) (with_leaf u c table).terminal1)
  unfolding pushed
  leaf-IsNumbered u c pu pc table v = record {
    valid = pushed-Valid v (with_leaf u c table).terminal1;
    count = refl;
    labels = λ p d e.
        let index = ap (λ (n : DdNode). n.index) (only_leaf u c pu pc p d e).1 in omega arith;
  }

  -- With tables that are not empty and fewer than 2^16 variables, the constructor of Manager
  -- returns with one DDNode for each variable and one for the leaf where the memory holds that
  -- many, and otherwise fills the memory and lets `new` throw.
  pub manager-Fills :
      (variables u_table_size c_table_size : ℕ)
      → 0 < u_table_size
      → 0 < c_table_size
      → variables < 2 ^ 16
      → Fills (variables + 1) (manager variables u_table_size c_table_size initial)
  unfolding manager load_tables initial pushed
  manager-Fills variables u c pu pc small = elim (dec_lt 0 m.capacity) [
    | yes room ↦
        let (table, run, v) = start-Valid u c pu pc room in
        rw run (
          add_variables-Fills variables 1 (variables + 1)
            (pushed (with_leaf u c table) (with_leaf u c table).terminal1)
            (leaf-IsNumbered u c pu pc table v) (omega arith) (omega arith) (omega arith))
    | no none_left ↦
        let (s, run, count) = start-thrown u c pu pc (omega arith) in
        rw run (exhausted (omega arith) (omega arith))
  ]
