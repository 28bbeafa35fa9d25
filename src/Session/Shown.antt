-- ===== src/Session/Shown.antt =====
-- What a program may print of the BDDNodes that it has made.
use ibdd.Prelude.{
  ℕ, ◌<◌, ◌^◌, ◌≡◌, subst, false, Option, List, [], ◌∷◌, ◌++◌, length, get_or, All-get,
}
use ibdd.Cofactor.{root}
use ibdd.Marks.Nodes.{no_marks}
use ibdd.Marks.{Marks}
use ibdd.Output.Printed.{print_lem}
use ibdd.Output.Shown.{IsShown}
use ibdd.Output.{Piece, text, number, end_line, print}
use ibdd.Platform.{Platform}
use ibdd.References.{Counters}
use ibdd.Safety.Walks.{Labelled-Spanned}
use ibdd.Safety.{Safe}
use ibdd.Session.Ends.{IsNode, Finishes, done, session-Finishes}
use ibdd.Session.{Call, session, IsProgram}
use ibdd.Setup.{initial}
use ibdd.State.{State, ok}

module _ ⦃m : Platform⦄ where
  Finishes-nodes :
      {nodes : List ℕ} {s : State}
      → Finishes (ok nodes s)
      → Safe s × ((f : ℕ) → f < length nodes → IsNode s (get_or nodes f 0))
  Finishes-nodes {nodes} {s} (done v all) = (v, λ f lt. All-get (IsNode s) nodes f 0 all lt)

  -- After a program that starts a Manager with tables that are not empty and fewer than 2^16
  -- variables and calls createVariable, the negation, the binary operators, getCofactor at
  -- positive indices and exist, on BDDNodes that it has made before, has returned, operator << of
  -- any of its BDDNodes, also of one that getCofactor or exist has computed wrongly, returns: it
  -- appends a text of the BDDNode, in which a node stands alone, as the leaf or as visited, or is
  -- followed by the texts of its low and its high child in brackets, and then a number, changes
  -- nothing else and leaves no node marked.
  pub session-print :
      (variables u_table_size c_table_size : ℕ) (calls : List Call)
      → 0 < u_table_size
      → 0 < c_table_size
      → variables < 2 ^ 16
      → IsProgram variables 0 calls
      → (nodes : List ℕ) (s : State)
      → session variables u_table_size c_table_size calls initial ≡ ok nodes s
      → (f : ℕ) → f < length nodes
      → (debug : Option Counters) (output : List Piece)
      → (pieces : List Piece) × (n : ℕ) × (marks : Marks) × (print debug output
            (get_or nodes f 0)
            no_marks
            s
          ≡ ok
              (output ++ pieces ++ end_line ∷ text "#Knoten: " ∷ number n ∷ end_line ∷ [], marks)
              s)
        × IsShown debug s (get_or nodes f 0) root pieces
        × ((q : ℕ) → marks q ≡ false)
  session-print variables u c calls pu pc small p nodes s run f lt debug output =
      let (v, made) =
        Finishes-nodes (subst Finishes run (session-Finishes variables u c calls pu pc small p)) in
      let (i, a, label_lt) = made f lt in
      let (pieces, l, marks, printed, shown, cleared, distinct, same) =
        print_lem v.heap (Labelled-Spanned v a) debug output in
      (pieces, length l, marks, printed, shown, cleared)
