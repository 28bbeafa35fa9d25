-- ===== src/Setup/Terminals.antt =====
-- The first part of the constructor of Manager: the tables and the leaf.
use ibdd.Prelude.{
  ℕ, ◌<◌, ◌≡◌, ◌≢◌, refl, sym, ◌∙◌, ap, inl, inr, true, false, some, none, [], arith, ltb, ◌==◌,
  ==_iff, Bool-cases,
}
use mathlib.Core.Option.{some-injective}
use ibdd.Platform.{Platform}
use ibdd.CTable
use ibdd.CTable.Slots.{load-Holds}
use ibdd.Setup.{initial, set_terminals, load_tables}
use ibdd.State.Valid.{Valid, IsSound}
use ibdd.State.{DdNode, State, ok, thrown, ◌>>◌, and_then, write, dd_node, keys}
use ibdd.TableKey.{TableKey, table_key, equal, equal_iff}
use ibdd.UTable
use ibdd.UTable.{UTable}
use ibdd.UTable.Lookup.{IsLoaded, load-IsLoaded, find-load, add_lem}
use ibdd.Unique.Finds.{triple}
use ibdd.Unique.{add_node, find_add}
use ibdd.Word.{regular, complement, to_word}

module _ ⦃m : Platform⦄ (u c : ℕ) where
  -- the state that holds the leaf alone, with a unique table that maps its triple to it
  abbrev pub with_leaf : UTable TableKey ℕ → State
  with_leaf table = record {
    u_table = table;
    c_table = CTable.load m.stale 0 c CTable.new;
    variable_counter = [];
    leaf = m.address 0;
    terminal1 = to_word (m.address 0) regular;
    terminal0 = to_word (m.address 0) complement;
    cell = write (λ _. none) (m.address 0) (dd_node 0 0 0);
    count = 1;
  }

  module _ (pu : 0 < u) (pc : 0 < c) where
    clash : (p : ℕ) → some none ≡ some (some p) → ⊥
    clash p e = cc

    leaf_cell : (with_leaf (UTable.load u UTable.new)).cell (m.address 0) ≡ some (triple 0 0 0)
    unfolding dd_node
    leaf_cell = rw ((==_iff (m.address 0) (m.address 0)).1 refl)

    pub only_leaf :
        (p : ℕ) (d : DdNode)
        → write (λ _. none) (m.address 0) (dd_node 0 0 0) p ≡ some d
        → (p ≡ m.address 0) × (d ≡ triple 0 0 0)
    unfolding dd_node
    only_leaf p d e = elim (Bool-cases (p == m.address 0)) [
      | inl y ↦ ((==_iff p (m.address 0)).0 y, some-injective d (triple 0 0 0) (sym e ∙ rw y))
      | inr n ↦ absurd (none_ne (rw n at e))
    ]
      where
        none_ne : none ≡ some d → ⊥
        none_ne e = cc

    with_leaf-Valid :
        0 < m.capacity
        → (table : UTable TableKey ℕ) → IsLoaded table
        → UTable.find keys table (table_key 0 0 0) ≡ some (some (m.address 0))
        → ((k : TableKey) → table_key 0 0 0 ≢ k → UTable.find keys table k ≡ some none)
        → Valid (with_leaf table)
    with_leaf-Valid room table t here others = record {
      heap = record {
        leaf_cell = leaf_cell;
        leaf_address = refl;
        terminal1 = refl;
        terminal0 = refl;
        allocated = λ p d e. (0, omega arith, (only_leaf p d e).0);
        counted = (omega arith, omega arith);
        u_loaded = t;
        sound = λ k p e. elim (Bool-cases (equal (table_key 0 0 0) k)) [
          | inl y ↦
              let q = (equal_iff (table_key 0 0 0) k).0 y in
              let at = some-injective (m.address 0) p (
                some-injective (some (m.address 0)) (some p)
                  (sym here ∙ ap (UTable.find keys table) q ∙ e)) in
              ap (with_leaf table).cell (sym at)
              ∙ leaf_cell
              ∙ (λ i. some (triple (q i).f (q i).g (q i).h))
          | inr n ↦ absurd (clash p (sym (others k (λ q. bad (sym ((equal_iff _ k).1 q) ∙ n))) ∙ e))
        ];
        complete = λ p d e.
            let (at, same) = only_leaf p d e in
            ap (UTable.find keys table)
              (λ i. table_key ((same i).index) ((same i).high) ((same i).low))
            ∙ here
            ∙ ap (λ q. some (some q)) (sym at);
      };
      cached =
          load-Holds (IsSound (with_leaf table)) m.stale 0 c CTable.new pc
            (λ j. inl (m.stale-ne-address j));
    }
      where
        bad : true ≡ false → ⊥
        bad e = cc

    -- With memory for the leaf the constructor gets as far as the terminals,
    pub start-Valid :
        0 < m.capacity
        → (table : UTable TableKey ℕ) × ((load_tables u c >> set_terminals) initial
            ≡ ok tt (with_leaf table))
          × Valid (with_leaf table)
    unfolding load_tables set_terminals find_add add_node initial
    start-Valid room =
        let absent = λ (k : TableKey). find-load keys u UTable.new k pu in
        let (table, run, t, here, others) =
          add_lem keys (load-IsLoaded u UTable.new pu) (table_key 0 0 0) (m.address 0) in
        let valid =
          with_leaf-Valid room table t (here (absent (table_key 0 0 0)))
            (λ k ne. others k ne ∙ absent k) in
        let test : ltb 0 m.capacity ≡ true = ground arith in
        let nonnull : (m.address 0 == 0) ≡ false =
          let a = (m.address-IsAddress 0 room).nonnull in ground arith in
        (
          table,
          rw (absent (table_key 0 0 0), and_then, test, and_then, run, and_then, nonnull),
          valid,
        )

    -- and without it `new` throws.
    pub start-thrown :
        m.capacity ≡ 0
        → (s : State) × ((load_tables u c >> set_terminals) initial ≡ thrown s) × (s.count ≡ 0)
    unfolding load_tables set_terminals find_add add_node initial
    start-thrown none_left =
        let test : ltb 0 m.capacity ≡ false = ground arith in
        (
          record initial {
            u_table = UTable.load u UTable.new;
            c_table = CTable.load m.stale 0 c CTable.new;
          },
          rw (find-load keys u UTable.new (table_key 0 0 0) pu, and_then, test),
          refl,
        )
