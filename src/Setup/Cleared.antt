-- ===== src/Setup/Cleared.antt =====
-- Calls on a Manager after Manager::clear. The tables have size 0, so getKey computes `% 0`.
use ibdd.Prelude.{ℕ, suc, ◌+◌, ◌-◌, ◌%◌, ◌≡◌, refl, inl, inr, Bool, none, [], leb, Bool-cases}
use ibdd.CTable
use ibdd.Ite.{is_terminal, has_next, insert, ite_standard}
use ibdd.Platform.{Platform}
use ibdd.Setup.Clear.{clear, clear_lem}
use ibdd.Setup.{create_variable}
use ibdd.Standardize.{Triple}
use ibdd.State.{State, M, fault, and_then, ◌>>=◌, ◌>>◌}
use ibdd.TableKey.{TableKey, table_key}
use ibdd.UTable
use ibdd.Unique.{find_add}
use ibdd.Word.{word_mod}

-- what `clear` leaves
abbrev pub cleared : State → State
cleared s = record s { u_table = UTable.new; c_table = CTable.new; variable_counter = [] }

create_variable-cleared : (s : State) (i : ℕ) → create_variable i (cleared s) ≡ fault
unfolding create_variable
create_variable-cleared s i = elim (Bool-cases (leb i ((0 + word_mod - 1) % word_mod))) [
  | inl y ↦ rw (y, ◌>>◌, and_then) refl
  | inr n ↦ rw (n, ◌>>◌, and_then) refl
]

module _ ⦃m : Platform⦄ (s : State) where
  find_add-cleared : (f g h : ℕ) → find_add f g h (cleared s) ≡ fault
  unfolding find_add UTable.find UTable.new
  find_add-cleared f g h = refl

  has_next-cleared : (k : TableKey) → has_next k (cleared s) ≡ fault
  unfolding has_next CTable.has_next CTable.new
  has_next-cleared k = refl

  insert-cleared : (k : TableKey) (r : ℕ) → insert k r (cleared s) ≡ fault
  unfolding insert CTable.insert CTable.new
  insert-cleared k r = refl

  ite_standard-cleared :
      (recur : ℕ → ℕ → ℕ → M ℕ) (x : Triple) (complement_edge : Bool)
      → is_terminal s.terminal1 s.terminal0 x ≡ none
      → ite_standard recur x complement_edge (cleared s) ≡ fault
  unfolding ite_standard
  ite_standard-cleared recur x c e =
      rw (e, ◌>>=◌, has_next-cleared (table_key x.f x.g x.h), and_then) refl

  -- After Manager::clear with at least one round for its loop, in every state: createVariable of
  -- every index, findAdd of every triple, a lookup and an insertion of every key in the computed
  -- table, and ite, after standardize, of every triple that is no terminal case end in undefined
  -- behaviour or a failed assertion.
  pub clear_faults :
      (rounds i f g h res : ℕ) (k : TableKey) (recur : ℕ → ℕ → ℕ → M ℕ) (x : Triple)
      (complement_edge : Bool)
      → is_terminal s.terminal1 s.terminal0 x ≡ none
      → ((clear (suc rounds) >> create_variable i) s ≡ fault)
        × ((clear (suc rounds) >> find_add f g h) s ≡ fault)
        × ((clear (suc rounds) >> has_next k) s ≡ fault)
        × ((clear (suc rounds) >> insert k res) s ≡ fault)
        × ((clear (suc rounds) >> ite_standard recur x complement_edge) s ≡ fault)
  clear_faults rounds i f g h res k recur x c e =
      let run = clear_lem rounds s in
      (
        rw run (create_variable-cleared s i),
        rw run (find_add-cleared f g h),
        rw run (has_next-cleared k),
        rw run (insert-cleared k res),
        rw run (ite_standard-cleared recur x c e),
      )
