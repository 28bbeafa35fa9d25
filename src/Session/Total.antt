-- ===== src/Session/Total.antt =====
-- Programs that cannot run out of memory: they return, and the answer is right.
use ibdd.Prelude.{ℕ, ◌+◌, ◌<◌, ◌≤◌, ◌^◌, ◌≡◌, refl, Bool, true, false, ◌↔◌, arith}
use ibdd.Operators.{equal}
use ibdd.Growth.Formulas.{cost, build-Grows}
use ibdd.Growth.{Grows, grown, full, Grows-le, and_then-Grows, after, bind-Grows}
use ibdd.Marks.Size.{size, count_nodes-size}
use ibdd.Marks.{Marks, count_nodes}
use ibdd.Marks.Nodes.{no_marks}
use ibdd.Platform.{Platform}
use ibdd.Safety.Setup.{Starts, started, manager-Starts}
use ibdd.Session.Counting.{Counts, counted, formula_size, formula_size-Counts}
use ibdd.Session.Counting
use ibdd.Session.Equivalence.{
  Answers, answer, out_of_memory, IsEquivalent, equivalent, equivalent-Answers,
}
use ibdd.Session.Formulas.{Formula, IsOver, build, IsSound, Letters, Letters-extends}
use ibdd.Session.Reference.{diagram, build-Denotes}
use ibdd.Setup.Memory.{Fills, filled, manager-Fills}
use ibdd.Setup.Memory
use ibdd.Setup.Variables
use ibdd.Setup.Vector.{HasVariables}
use ibdd.Setup.Variables.{Builds, manager-HasVariables}
use ibdd.Setup.{initial, manager}
use ibdd.State.{State, M, Outcome, ok, thrown, pure, ◌>>=◌, ◌>>◌, and_then}

module _ ⦃m : Platform⦄ where
  Fills-count : {n : ℕ} {s : State} → Fills n (ok tt s) → s.count ≤ initial.count + n
  unfolding initial
  Fills-count (filled e room) = omega arith

  Fills-full : {n : ℕ} {s : State} → Fills n (thrown s) → m.capacity < n
  Fills-full (Memory.exhausted e few) = few

  -- a program that starts a Manager and goes on in its sound state
  started-Grows :
      {n c : ℕ} {A : Type 0} {r : Outcome (Unit {0})} (k : M A)
      → Starts n r
      → Builds (HasVariables (n + 1)) r
      → Fills (n + 1) r
      → ((s : State) → IsSound s → Letters n s → Grows c s (k s))
      → Grows (n + 1 + c) initial (and_then r (λ _. k))
  started-Grows {n} k (started {s} v len) (Variables.built u h) f next =
      after (n + 1) (Fills-count f) (next s (v, u) (λ i pos le. h.each i pos (omega arith)))
  started-Grows {n} k (Starts.exhausted c) b f next = let few = Fills-full f in full (omega arith)

  -- An ending without an exhausted memory.
  Counts-ok :
      {n k : ℕ} {s : State} {r : Outcome (ℕ × Marks)}
      → Counts n r
      → Grows k s r
      → s.count + k ≤ m.capacity
      → (marks : Marks) × (s' : State) × (r ≡ ok (n, marks) s') × ((q : ℕ) → marks q ≡ false)
  Counts-ok (counted none) g room = (_, _, refl, none)
  Counts-ok (Counting.out_of_memory c) (full few) room = absurd (omega arith)

  Answers-ok :
      {T : Type 0} {k : ℕ} {s : State} {r : Outcome Bool}
      → Answers T r
      → Grows k s r
      → s.count + k ≤ m.capacity
      → (b : Bool) × (s' : State) × (r ≡ ok b s') × ((b ≡ true) ↔ T)
  Answers-ok (answer t) g room = (_, _, refl, t)
  Answers-ok (out_of_memory c) (full few) room = absurd (omega arith)

  module _ (n u_table_size c_table_size : ℕ) (pu : 0 < u_table_size) (pc : 0 < c_table_size)
      (small : n < 2 ^ 16) where
    manager-Grows :
        {c : ℕ} {A : Type 0} (k : M A)
        → ((s : State) → IsSound s → Letters n s → Grows c s (k s))
        → Grows (n + 1 + c) initial ((manager n u_table_size c_table_size >> k) initial)
    manager-Grows k next =
        started-Grows k (manager-Starts n u_table_size c_table_size pu pc small)
          (manager-HasVariables n u_table_size c_table_size pu pc small)
          (manager-Fills n u_table_size c_table_size pu pc small) next

    -- With tables that are not empty, fewer than 2^16 variables and memory for one DDNode for
    -- each variable, one for the leaf and 2^(variables + 1) - 1 for each operator or ite of a
    -- Boolean formula over the variables, the program that starts a Manager, builds the formula
    -- and calls countNodes returns the number of the different diagrams below the reduced diagram
    -- that is made from the truth table of the formula, itself and the leaf among them, and
    -- leaves no node marked.
    pub formula_size_total :
        (a : Formula)
        → IsOver n a
        → n + 1 + cost n a ≤ m.capacity
        → (marks : Marks) × (s : State) × (formula_size n u_table_size c_table_size a initial
            ≡ ok (size (diagram n a), marks) s)
          × ((q : ℕ) → marks q ≡ false)
    unfolding formula_size initial
    formula_size_total a over room =
        Counts-ok (formula_size-Counts n u_table_size c_table_size a pu pc small over)
          (manager-Grows (do f ← build a; count_nodes f no_marks)
            λ s v l. Grows-le {j = cost n a + 0} (cost n a) (omega arith) (
              bind-Grows (build-Denotes a v l small over) (build-Grows small a v l over) λ f s' k d.
                let (marks, run, none) = count_nodes-size k.valid.1.heap d in
                rw run (grown (omega arith))))
          (omega arith)

    -- With tables that are not empty, fewer than 2^16 variables and memory for one DDNode for
    -- each variable, one for the leaf and 2^(variables + 1) - 1 for each operator or ite of two
    -- Boolean formulas over the variables, the program that starts a Manager, builds both
    -- formulas by createVariable, the negation, the binary operators and ite and compares the
    -- BDDNodes by operator == returns, and the answer is true exactly when the formulas have the
    -- same value under every assignment.
    pub equivalent_total :
        (a b : Formula)
        → IsOver n a
        → IsOver n b
        → n + 1 + (cost n a + cost n b) ≤ m.capacity
        → (r : Bool) × (s : State) × (equivalent n u_table_size c_table_size a b initial ≡ ok r s)
          × ((r ≡ true) ↔ IsEquivalent a b)
    unfolding equivalent initial
    equivalent_total a b p q room =
        Answers-ok (equivalent-Answers n u_table_size c_table_size a b pu pc small p q)
          (manager-Grows (do f ← build a; g ← build b; pure (equal f g))
            λ s v l.
              bind-Grows (build-Denotes a v l small p) (build-Grows small a v l p) λ f s₁ k₁ d.
                let l₁ = Letters-extends k₁.extends n l in
                Grows-le {j = cost n b + 0} (cost n b) (omega arith) (
                  and_then-Grows {j = cost n b} {k = 0} (build-Grows small b k₁.valid l₁ q)
                    (λ g s₂. grown (omega arith))))
          (omega arith)
