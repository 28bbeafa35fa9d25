-- ===== src/Setup/Clear.antt =====
-- Manager::clear, which the destructor calls, and what it leaves.
use ibdd.Prelude.{
  ℕ, zero, suc, ◌≡◌, refl, inl, inr, true, false, Option, none, [], ◌==◌, Option-cases,
  if◌then◌else◌,
}
use ibdd.CTable
use ibdd.CTable.{CTable}
use ibdd.State.{DdNode, State, ok, M, out_of_fuel, pure, ◌>>=◌, ◌>>◌, read, modify, defined}
use ibdd.TableKey.{TableKey}
use ibdd.UTable
use ibdd.UTable.{UTable}
use ibdd.UTable.Iterator
use ibdd.UTable.Iterator.{Iterator}

abbrev erase : (ℕ → Option DdNode) → ℕ → ℕ → Option DdNode
erase cell p q = if q == p then none else cell q

-- `delete` of a DDNode; its destructor reaches the reference counters only
unfoldable pub delete : ℕ → M (Unit {0})
delete p = do
  cell ← read (λ (s : State). s.cell)
  defined (cell p)
  modify (λ s. record s { cell = erase cell p })

-- the loop over the unique table, with `rounds` left
unfoldable pub delete_nodes : (rounds : ℕ) → Iterator → M (Unit {0})
unfolding delete
delete_nodes zero i = λ _. out_of_fuel
delete_nodes (suc rounds) i = do
  table ← read (λ (s : State). s.u_table)
  elim (Iterator.not_equal table i (Iterator.end table)) [
    | false ↦ pure tt
    | true ↦ do
      item ← defined (Iterator.deref table i)
      delete item.1
      (old, i') ← defined (Iterator.post_next table i)
      delete_nodes rounds i'
  ]

-- Manager::clear
unfoldable pub clear : (rounds : ℕ) → M (Unit {0})
unfolding delete_nodes
clear rounds = do
  modify (λ s. record s { u_table = UTable.clear s.u_table })
  modify (λ s. record s { c_table = CTable.clear s.c_table })
  table ← read (λ (s : State). s.u_table)
  i ← defined (Iterator.begin table)
  delete_nodes rounds i
  modify (λ s. record s { variable_counter = [] })

-- Manager::~Manager, with the destructors of its members
unfoldable pub destroy : (rounds : ℕ) → M (Unit {0})
unfolding clear
destroy rounds = do
  clear rounds
  modify (λ s. record s { c_table = CTable.destroy s.c_table })
  modify (λ s. record s { u_table = UTable.destroy s.u_table })

UTable-cleared : (u : UTable TableKey ℕ) → UTable.clear u ≡ UTable.new
unfolding UTable.clear UTable.new
UTable-cleared u = elim (Option-cases u.items) [ inl e ↦ rw e refl | inr (b, e) ↦ rw e refl ]

CTable-cleared : (c : CTable TableKey ℕ) → CTable.clear c ≡ CTable.new
unfolding CTable.clear CTable.new
CTable-cleared c = elim (Option-cases c.items) [ inl e ↦ rw e refl | inr (b, e) ↦ rw e refl ]

-- In every state and with at least one round for its loop, Manager::clear returns with both
-- tables and the vector of variables empty, and it deletes no DDNode: heap, leaf and terminals
-- are as before.
pub clear_lem :
    (rounds : ℕ) (s : State)
    → clear (suc rounds) s
      ≡ ok tt (record s { u_table = UTable.new; c_table = CTable.new; variable_counter = [] })
unfolding clear Iterator.not_equal Iterator.equal Iterator.end Iterator.begin UTable.new CTable.new
clear_lem rounds s = rw (UTable-cleared s.u_table, CTable-cleared s.c_table) refl

-- The tables are empty when their destructors run, so the destructor of Manager does what `clear` does.
destroy_lem : (rounds : ℕ) (s : State) → destroy (suc rounds) s ≡ clear (suc rounds) s
unfolding destroy CTable.destroy UTable.destroy CTable.new UTable.new
destroy_lem rounds s =
    rw (clear_lem rounds s, UTable-cleared UTable.new, CTable-cleared CTable.new) refl
