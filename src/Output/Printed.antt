-- ===== src/Output/Printed.antt =====
-- What operator << writes.
use ibdd.Prelude.{
  ℕ, suc, ◌≡◌, ◌↔◌, refl, ◌∙◌, ap, subst, inl, inr, false, true, Option, none, List, [], ◌∷◌, ◌++◌,
  arith, length, Option-cases,
}
use ibdd.Cofactor.{root}
use ibdd.Marks.Distinct.{Distinct, unmarked-Distinct}
use ibdd.Marks.Nodes.{
  no_marks, nodes, cleared, distinct, distinct-IsIn, counted-distinct, cleared_lem, count_recur_run,
  unmark_run, get_index-Spanned,
}
use ibdd.Marks.Shapes.{label, Spanned}
use ibdd.Marks.Sweep.{addresses, IsIn}
use ibdd.Marks.{Marks}
use ibdd.Output.Shown.{Mirrors, shown, IsShown, show_info-Mirrors}
use ibdd.Output.{Piece, text, number, end_line, print, show_info}
use ibdd.Platform.{Platform}
use ibdd.References.{Counters}
use ibdd.State.Valid.{ValidHeap}
use ibdd.State.{State, Outcome, ok, and_then}
use ibdd.Word.{ptr}

Mirrors-ok :
    {s s' : State} {output : List Piece} {P : List Piece → Type 0}
    {r : Outcome (List Piece × Marks × ℕ)} {marks : Marks} {counter : ℕ}
    → Mirrors s output P r (ok (marks, counter) s')
    → (pieces : List Piece) × (r ≡ ok (output ++ pieces, marks, counter) s') × P pieces
Mirrors-ok (shown p) = (_, refl, p)

module _ ⦃m₀ : Platform⦄ {s : State} (v : ValidHeap s) where
  pub cell_null : s.cell 0 ≡ none
  cell_null = elim (Option-cases (s.cell 0)) [
    | inl e ↦ e
    | inr (d, cell) ↦
        let (n, lt, at) = v.allocated 0 d cell in
        let (some_node, room) = v.counted in
        let a = (m₀.address-IsAddress n (omega arith)).nonnull in absurd (omega arith)
  ]

module _ ⦃m₀ : Platform⦄ {s : State} (v : ValidHeap s) {w : ℕ} (x : Spanned s w) where
  -- In a valid heap where no node is marked, operator << of a BDDNode below which the labels fall
  -- appends a text of its diagram, with or without that of DEBUG, in which a node stands alone,
  -- as the leaf or as visited, or is followed by the texts of its low and its high child in
  -- brackets, and then the number of the distinct nodes; it changes nothing else and leaves no
  -- node marked.
  pub print_lem :
      (debug : Option Counters) (output : List Piece)
      → (pieces : List Piece) × (l : List ℕ) × (marks : Marks) × (print debug output w no_marks s
          ≡ ok
              (
                output ++ pieces ++ end_line ∷ text "#Knoten: " ∷ number (length l) ∷ end_line ∷ [],
                marks,
              )
              s)
        × IsShown debug s w root pieces
        × ((q : ℕ) → marks q ≡ false)
        × Distinct l
        × ((q : ℕ) → IsIn q l ↔ IsIn q (addresses s true x.shape (ptr w)))
  unfolding print
  print_lem debug output =
      let mirrored =
        show_info-Mirrors debug (cell_null v) (suc (label x.shape)) w output no_marks 0 root in
      let (pieces, run, is_shown) = Mirrors-ok (
        subst
          (Mirrors s output (IsShown debug s w root)
            (show_info debug (suc (label x.shape)) w output no_marks 0 root s))
          (count_recur_run v x) mirrored) in
      (
        pieces,
        distinct v x,
        cleared v x,
        rw (get_index-Spanned v x, and_then, run, and_then, unmark_run v x) refl
            ∙ ap
                (λ n.
                  ok
                    (
                      output ++ pieces ++ end_line ∷ text "#Knoten: " ∷ number (n) ∷ end_line ∷ [],
                      cleared v x,
                    )
                    s)
                (counted-distinct v x),
        is_shown,
        cleared_lem v x,
        unmarked-Distinct (nodes v x true) no_marks,
        distinct-IsIn v x,
      )
