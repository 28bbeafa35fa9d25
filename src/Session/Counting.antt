-- ===== src/Session/Counting.antt =====
-- A program that builds a Boolean formula and asks countNodes for the size of its diagram.
use ibdd.Prelude.{ℕ, ◌+◌, ◌<◌, ◌≤◌, ◌^◌, ◌≡◌, refl, sym, subst, false, arith}
use ibdd.Marks.Nodes.{no_marks}
use ibdd.Marks.Size.{size, count_nodes-size}
use ibdd.Marks.{Marks, count_nodes}
use ibdd.Platform.{Platform}
use ibdd.Safety.Setup.{Starts, started, exhausted, manager-Starts}
use ibdd.Session.Formulas.{Formula, IsOver, build, IsSound, Letters}
use ibdd.Session.Reference.{diagram, build-Denotes}
use ibdd.Setup.Variables
use ibdd.Setup.Vector.{HasVariables}
use ibdd.Setup.Variables.{Builds, manager-HasVariables}
use ibdd.Setup.{initial, manager}
use ibdd.State.Returns.{Ends, returns, throws, same, bind}
use ibdd.State.{State, M, Outcome, ok, thrown, ◌>>=◌, ◌>>◌, and_then}

module _ ⦃m : Platform⦄ where
  -- on a Manager started for it
  unfoldable pub formula_size : (variables u_table_size c_table_size : ℕ) → Formula → M (ℕ × Marks)
  formula_size variables u_table_size c_table_size a = do
    manager variables u_table_size c_table_size
    node ← build a
    count_nodes node no_marks

  -- The end of a count: the number, with no flag left, or an exhausted memory.
  pub data Counts (n : ℕ) : Outcome (ℕ × Marks) → Type 0 where
    counted : {marks : Marks} {s : State} → ((q : ℕ) → marks q ≡ false) → Counts n (ok (n, marks) s)
    out_of_memory : {s : State} → m.capacity ≤ s.count → Counts n (thrown s)

  Ends-Counts :
      {s : State} {n : ℕ} {r : Outcome (ℕ × Marks)}
      → Ends IsSound s (λ z _. (z.0 ≡ n) × ((q : ℕ) → z.1 q ≡ false)) r
      → Counts n r
  Ends-Counts {n} (returns {a} {s'} k (e, none)) =
      subst (λ c. Counts n (ok (c, a.1) s')) (sym e) (counted none)
  Ends-Counts (throws k c) = out_of_memory c

  built-Counts :
      {s : State} {n : ℕ} (a : Formula)
      → IsSound s
      → Letters n s
      → n < 2 ^ 16
      → IsOver n a
      → Counts (size (diagram n a)) (and_then (build a s) (λ f. count_nodes f no_marks))
  built-Counts {n} a v l small over = Ends-Counts (
      bind (build-Denotes a v l small over) λ f s' k d.
        let (marks, run, none) = count_nodes-size k.valid.1.heap d in
        rw run (same k.valid (refl, none)))

  from_start :
      (n : ℕ) (a : Formula) {r : Outcome (Unit {0})}
      → Starts n r
      → Builds (HasVariables (n + 1)) r
      → n < 2 ^ 16
      → IsOver n a
      → Counts (size (diagram n a)) (and_then r (λ _. do f ← build a; count_nodes f no_marks))
  from_start n a (exhausted c) h small over = out_of_memory c
  from_start n a (started v len) (Variables.built u h) small over =
      built-Counts a (v, u) (λ i pos le. h.each i pos (omega arith)) small over

  pub formula_size-Counts :
      (variables u_table_size c_table_size : ℕ) (a : Formula)
      → 0 < u_table_size
      → 0 < c_table_size
      → variables < 2 ^ 16
      → IsOver variables a
      → Counts
          (size (diagram variables a))
          (formula_size variables u_table_size c_table_size a initial)
  unfolding formula_size
  formula_size-Counts variables u c a pu pc small over =
      from_start variables a (manager-Starts variables u c pu pc small)
        (manager-HasVariables variables u c pu pc small) small over
