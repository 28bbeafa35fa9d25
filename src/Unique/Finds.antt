-- ===== src/Unique/Finds.antt =====
-- Manager::findAdd in a valid heap: the node of a triple, found or made.
use ibdd.Prelude.{
  ℕ, ◌+◌, ◌%◌, ◌^◌, ◌<◌, ◌≤◌, ◌≡◌, ◌≢◌, refl, sym, ◌∙◌, ap, subst, inl, inr, ◌⊎◌, true, false, none,
  some, arith, ltb, ◌==◌, ==_iff, Bool-cases, Option-cases,
}
use mathlib.Core.Option.{some-injective}
use ibdd.Platform.{Platform}
use ibdd.TableKey.{TableKey, table_key, equal, equal_iff}
use ibdd.UTable
use ibdd.UTable.{UTable}
use ibdd.UTable.Lookup.{IsLoaded, find_total, add_lem}
use ibdd.State.{DdNode, dd_node, State, Outcome, ok, thrown, write, keys}
use ibdd.State.Valid.{Extends, ValidHeap}
use ibdd.Unique.{add_node, find_add}
use ibdd.Word.{IsAddress}

abbrev pub triple : ℕ → ℕ → ℕ → DdNode
triple f g h = record { index = f; low = h; high = g }

module _ ⦃m : Platform⦄ {s : State} (v : ValidHeap s) where
  pub cell-IsAddress : (p : ℕ) (d : DdNode) → s.cell p ≡ some d → IsAddress p
  cell-IsAddress p d e =
      let (n, lt, at) = v.allocated p d e in
      let bound = v.counted.1 in subst IsAddress (sym at) (m.address-IsAddress n (omega arith))

module _ ⦃m : Platform⦄ {s : State} (v : ValidHeap s) where
  -- The next address is not in use.
  fresh : s.count < m.capacity → (p : ℕ) (d : DdNode) → s.cell p ≡ some d → p ≢ m.address s.count
  fresh room p d e q =
      let (n, lt, at) = v.allocated p d e in
      let clash = m.address_injective n s.count (omega arith) room (sym at ∙ q) in omega arith

  module _ (room : s.count < m.capacity) (f g h : ℕ) (small : f < 2 ^ 16) where
    abbrev at : ℕ
    at = m.address s.count

    abbrev after : UTable TableKey ℕ → State
    after table = record s {
      cell = write s.cell at (dd_node f h g);
      count = s.count + 1;
      u_table = table;
    }

    dd_node_lem : dd_node f h g ≡ triple f g h
    unfolding dd_node
    dd_node_lem =
        let e : f % 2 ^ 16 ≡ f = omega arith in λ i. record { index = e i; low = h; high = g }

    write_self : write s.cell at (dd_node f h g) at ≡ some (triple f g h)
    write_self = rw ((==_iff at at).1 refl) (ap some dd_node_lem)

    write_ne : (p : ℕ) → p ≢ at → write s.cell at (dd_node f h g) p ≡ s.cell p
    write_ne p ne = elim (Bool-cases (p == at)) [
      | inl e ↦ absurd (ne ((==_iff p at).0 e))
      | inr e ↦ rw e
    ]

    write_cases :
        (p : ℕ) (d : DdNode)
        → write s.cell at (dd_node f h g) p ≡ some d
        → ((p ≡ at) × (d ≡ triple f g h)) ⊎ (s.cell p ≡ some d)
    write_cases p d e = elim (Bool-cases (p == at)) [
      | inl y ↦
          let q = (==_iff p at).0 y in
          inl (
            q,
            some-injective d (triple f g h)
                (sym e ∙ ap (write s.cell at (dd_node f h g)) q ∙ write_self),
          )
      | inr n ↦ inr (sym (rw n) ∙ e)
    ]

    after-Extends : (table : UTable TableKey ℕ) → Extends s (after table)
    after-Extends table = record {
      cells = λ p d e. write_ne p (fresh room p d e) ∙ e;
      leaf = refl;
      terminal1 = refl;
      terminal0 = refl;
      variables = λ i w h. h;
    }

    key_cases : (k : TableKey) → (table_key f g h ≡ k) ⊎ (table_key f g h ≢ k)
    key_cases k = elim (Bool-cases (equal (table_key f g h) k)) [
      | inl y ↦ inl ((equal_iff (table_key f g h) k).0 y)
      | inr n ↦ inr (λ e. clash (sym ((equal_iff (table_key f g h) k).1 e) ∙ n))
    ]
      where
        clash : true ≡ false → ⊥
        clash e = cc

    after-ValidHeap :
        (absent : UTable.find keys s.u_table (table_key f g h) ≡ some none)
        (table : UTable TableKey ℕ)
        → IsLoaded table
        → UTable.find keys table (table_key f g h) ≡ some (some at)
        → ((k : TableKey)
            → table_key f g h ≢ k
            → UTable.find keys table k ≡ UTable.find keys s.u_table k)
        → ValidHeap (after table)
    after-ValidHeap absent table loaded here others = record {
      leaf_cell = x.cells s.leaf _ v.leaf_cell;
      leaf_address = v.leaf_address;
      terminal1 = v.terminal1;
      terminal0 = v.terminal0;
      allocated = λ p d e. elim (write_cases p d e) [
        | inl c ↦ (s.count, omega arith, c.0)
        | inr o ↦ let (n, lt, q) = v.allocated p d o in (n, omega arith, q)
      ];
      counted = (omega arith, omega arith);
      u_loaded = loaded;
      sound = λ k p e. elim (key_cases k) [
        | inl y ↦ sound_here k p y e
        | inr n ↦ x.cells p _ (v.sound k p (sym (others k n) ∙ e))
      ];
      complete = λ p d e. elim (write_cases p d e) [
        | inl c ↦
            ap (UTable.find keys table)
              (λ i. table_key ((c.1 i).index) ((c.1 i).high) ((c.1 i).low))
            ∙ here
            ∙ ap (λ q. some (some q)) (sym c.0)
        | inr o ↦ others _ (λ y. present p d o y) ∙ v.complete p d o
      ];
    }
      where
        x : Extends s (after table)
        x = after-Extends table

        sound_here :
            (k : TableKey) (p : ℕ)
            → table_key f g h ≡ k
            → UTable.find keys table k ≡ some (some p)
            → (after table).cell p ≡ some (triple k.f k.g k.h)
        sound_here k p y e =
            let one = sym here ∙ ap (UTable.find keys table) y ∙ e in
            let q = some-injective at p (some-injective (some at) (some p) one) in
            ap (write s.cell at (dd_node f h g)) (sym q)
            ∙ write_self
            ∙ (λ i. some (triple (y i).f (y i).g (y i).h))

        clash : (p : ℕ) → some none ≡ some (some p) → ⊥
        clash p e = cc

        present :
            (p : ℕ) (d : DdNode)
            → s.cell p ≡ some d
            → table_key f g h ≡ table_key d.index d.high d.low
            → ⊥
        present p d o y =
            clash p (sym absent ∙ ap (UTable.find keys s.u_table) y ∙ v.complete p d o)

  -- the node at p is new, with the cell d, and nothing else has changed
  pub record Adds (p : ℕ) (d : DdNode) (s' : State) : Type 0 where
    pub heap : ValidHeap s'
    pub extends : Extends s s'
    pub cell : s'.cell p ≡ some d
    pub only : (q : ℕ) (e : DdNode) → s'.cell q ≡ some e → ((q ≡ p) × (e ≡ d)) ⊎ (s.cell q ≡ some e)
    pub variables : s'.variable_counter ≡ s.variable_counter
    pub cache : s'.c_table ≡ s.c_table
    pub count : s'.count ≡ s.count + 1

  -- `findAdd` finds a node of the triple, or makes one, or `new` throws.
  pub data Finds (f g h : ℕ) : Outcome ℕ → Type 0 where
    found : (p : ℕ) → s.cell p ≡ some (triple f g h) → Finds f g h (ok p s)
    added : (p : ℕ) (s' : State) → Adds p (triple f g h) s' → Finds f g h (ok p s')
    full : m.capacity ≤ s.count → Finds f g h (thrown s)

  add_node-Finds :
      (f g h : ℕ)
      → f < 2 ^ 16
      → UTable.find keys s.u_table (table_key f g h) ≡ some none
      → Finds f g h (add_node f g h s)
  unfolding add_node
  add_node-Finds f g h small absent = elim (Bool-cases (ltb s.count m.capacity)) [
    | inl y ↦
        let room : s.count < m.capacity = ground arith in
        let (table, run, loaded, here, others) =
          add_lem keys v.u_loaded (table_key f g h) (m.address s.count) in
        rw (y, run)
          (added (m.address s.count) (after room f g h small table) (record {
            heap = after-ValidHeap room f g h small absent table loaded (here absent) others;
            extends = after-Extends room f g h small table;
            cell = write_self room f g h small;
            only = write_cases room f g h small;
            variables = refl;
            cache = refl;
            count = refl;
          }))
    | inr n ↦ rw n (full (ground arith))
  ]

  find_cases :
      (k : TableKey)
      → (UTable.find keys s.u_table k ≡ some none)
        ⊎ ((p : ℕ) × (UTable.find keys s.u_table k ≡ some (some p)))
  find_cases k =
      let (o, run) = find_total keys v.u_loaded k in
      elim (Option-cases o) [
        | inl e ↦ inl (run ∙ ap some e)
        | inr (p, e) ↦ inr (p, run ∙ ap some e)
      ]

  -- In a valid heap findAdd of a triple with a label of 16 bits returns a node of the triple
  -- without a change, or makes one in a valid heap in which every other node, the variables and
  -- the computed table are as before, or, where the memory is exhausted, throws and leaves the
  -- state as it was.
  pub find_add-Finds : (f g h : ℕ) → f < 2 ^ 16 → Finds f g h (find_add f g h s)
  unfolding find_add
  find_add-Finds f g h small = elim (find_cases (table_key f g h)) [
    | inl absent ↦ rw absent (add_node-Finds f g h small absent)
    | inr (p, present) ↦ rw present (found p (v.sound (table_key f g h) p present))
  ]
