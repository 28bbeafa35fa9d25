-- ===== src/Safety/Setup.antt =====
-- The constructor of Manager builds a safe state, and createVariable reads a BDDNode.
use ibdd.Prelude.{
  ℕ, zero, suc, ◌+◌, ◌<◌, ◌≤◌, ◌^◌, ◌≡◌, refl, sym, ap, subst, inl, inr, true, false, some, none,
  List, [], ◌∷◌, arith, leb, ◌-◌, ◌%◌, get_elem?, get_elem?-append_one, get_elem?-lt, length,
  length-append,
}
use native.Mathlib.Decide.{dec_lt}
use ibdd.CTable
use ibdd.CTable.Slots.{load-Holds}
use ibdd.Platform.{Platform}
use ibdd.Safety.FindAdd.{bdd_node-Safe, cached-extends}
use ibdd.Safety.Nodes.{Below-extends, terminal1-Labelled, terminal0-Labelled}
use ibdd.Safety.{Below, IsBounded, Safe}
use ibdd.Setup.Vector.{pushed, pushed-Extends}
use ibdd.Setup.Terminals.{with_leaf, only_leaf, start-Valid, start-thrown}
use ibdd.Setup.{initial, load_tables, add_variables, manager, create_variable}
use ibdd.State.Returns.{Ends, returns, throws, same, bind, from}
use ibdd.State.Valid.{Valid}
use ibdd.State.{State, Outcome, ok, thrown, and_then}
use ibdd.Word.{word_mod}

module _ ⦃m : Platform⦄ {s : State} (v : Safe s) {w : ℕ} (d : Below s w (2 ^ 16))
    (room : length s.variable_counter < 2 ^ 16) where
  pushed-Safe : Safe (pushed s w)
  unfolding pushed
  pushed-Safe = record {
    heap = record {
      leaf_cell = v.leaf_cell;
      leaf_address = v.leaf_address;
      terminal1 = v.terminal1;
      terminal0 = v.terminal0;
      allocated = v.allocated;
      counted = v.counted;
      u_loaded = v.u_loaded;
      sound = v.sound;
      complete = v.complete;
    };
    small = v.small;
    children = λ p c e ne.
        let (low, high) = v.children p c e ne in
        (Below-extends (pushed-Extends s w) low, Below-extends (pushed-Extends s w) high);
    variables = λ i u e. elim (get_elem?-append_one s.variable_counter w i u e) [
      | inl old ↦ Below-extends (pushed-Extends s w) (v.variables i u old)
      | inr new ↦
          subst (λ z. Below (pushed s w) z (2 ^ 16)) (sym new)
            (Below-extends (pushed-Extends s w) d)
    ];
    few = omega (arith, length-append s.variable_counter (w ∷ []));
    cached = cached-extends v (pushed-Extends s w) refl;
  }

  length-pushed : length (pushed s w).variable_counter ≡ length s.variable_counter + 1
  unfolding pushed
  length-pushed = omega (arith, length-append s.variable_counter (w ∷ []))

module _ ⦃m : Platform⦄ where
  add_variables-Safe :
      (rounds i n : ℕ) (s : State)
      → Safe s
      → 0 < i
      → i + rounds ≡ n
      → n ≤ 2 ^ 16
      → length s.variable_counter ≡ i
      → Ends Safe s (λ _ s'. length s'.variable_counter ≡ n) (add_variables rounds i s)
  unfolding add_variables pushed pushed-Safe length-pushed
  add_variables-Safe zero i n s v pos e small len = same v (omega arith)
  add_variables-Safe (suc rounds) i n s v pos e small len =
      bind
        (bdd_node-Safe v (let q : i < 2 ^ 16 = omega arith in q) (0, terminal1-Labelled v.heap, pos)
          (0, terminal0-Labelled v.heap, pos) pos false)
        λ w s₁ k₁ (a, others).
          let len₁ = ap (λ (l : List ℕ). length l) others in
          let room : length s₁.variable_counter < 2 ^ 16 = omega arith in
          let d : Below s₁ w (2 ^ 16) = (i, a, (let q : i < 2 ^ 16 = omega arith in q)) in
          from (record { valid = pushed-Safe k₁.valid d room; extends = pushed-Extends s₁ w })
            (add_variables-Safe rounds (i + 1) n (pushed s₁ w) (pushed-Safe k₁.valid d room)
              (omega arith) (omega arith) small
              (let l = length-pushed k₁.valid d room in omega arith))

-- A Manager that has started, in a safe state with its variables, or an exhausted memory.
pub data Starts ⦃m : Platform⦄ (variables : ℕ) : Outcome (Unit {0}) → Type 0 where
  started :
      {s : State} → Safe s → length s.variable_counter ≡ variables + 1 → Starts variables (ok tt s)
  exhausted : {s : State} → m.capacity ≤ s.count → Starts variables (thrown s)

module _ ⦃m : Platform⦄ where
  Ends-Starts :
      {s : State} {variables : ℕ} {r : Outcome (Unit {0})}
      → Ends Safe s (λ _ s'. length s'.variable_counter ≡ variables + 1) r
      → Starts variables r
  Ends-Starts (returns k p) = started k.valid p
  Ends-Starts (throws k c) = exhausted c

  with_leaf-Safe :
      (u c : ℕ)
      → 0 < u
      → (pc : 0 < c) → (table : _) → Valid (with_leaf u c table)
      → Safe (with_leaf u c table)
  with_leaf-Safe u c pu pc table v = record {
    heap = v.heap;
    small =
        λ p d e. let i : d.index ≡ 0 = λ j. ((only_leaf u c pu pc p d e).1 j).index in omega arith;
    children = λ p d e ne. absurd (ne (only_leaf u c pu pc p d e).0);
    variables = λ i w e. absurd (none_ne w e);
    few = omega arith;
    cached =
        load-Holds (IsBounded (with_leaf u c table)) m.stale 0 c CTable.new pc
          (λ j. inl (m.stale-ne-address j));
  }
    where
      none_ne : (w : ℕ) → none ≡ some w → ⊥
      none_ne w e = cc

  -- With tables that are not empty and fewer than 2^16 variables, the constructor of Manager
  -- leaves a safe state with one more entry in the vector than there are variables, or `new`
  -- throws with the memory exhausted.
  pub manager-Starts :
      (variables u_table_size c_table_size : ℕ)
      → 0 < u_table_size
      → 0 < c_table_size
      → variables < 2 ^ 16
      → Starts variables (manager variables u_table_size c_table_size initial)
  unfolding manager load_tables initial pushed pushed-Safe
  manager-Starts variables u c pu pc small = elim (dec_lt 0 m.capacity) [
    | yes room ↦
        let (table, run, valid) = start-Valid u c pu pc room in
        let v = with_leaf-Safe u c pu pc table valid in
        let w = (with_leaf u c table).terminal1 in
        let d : Below (with_leaf u c table) w (2 ^ 16) =
          (0, terminal1-Labelled v.heap, omega arith) in
        rw run (
          Ends-Starts (
            add_variables-Safe variables 1 (variables + 1) (pushed (with_leaf u c table) w)
              (pushed-Safe v d (omega arith)) (omega arith) (omega arith) (omega arith) refl))
    | no full ↦
        let (s, run, count) = start-thrown u c pu pc (omega arith) in
        rw run (exhausted (omega arith))
  ]

  -- createVariable of a variable that the vector has
  pub create_variable-Safe :
      {s : State} {w : ℕ} (i : ℕ)
      → Safe s
      → get_elem? s.variable_counter i ≡ some w
      → (create_variable i s ≡ ok w s) × Below s w (2 ^ 16)
  unfolding create_variable
  create_variable-Safe {s} {w} i v at =
      let lt = get_elem?-lt s.variable_counter i w at in
      let few = v.few in
      let inside : leb i ((length s.variable_counter + word_mod - 1) % word_mod) ≡ true =
        ground arith in
      (rw (inside, and_then, at) refl, v.variables i w at)
