-- ===== src/Dot/Printed.antt =====
-- The graph that printNode writes.
use Prim.Native.String.{String}
use ibdd.Prelude.{ℕ, suc, ◌≡◌, refl, false, true, List, ◌++◌, arith, ◌↔◌}
use ibdd.Dot.Blocks.{print_lem}
use ibdd.Dot.Lines.{name, blocks, print_index_lem}
use ibdd.Dot.{head_lines, last_lines, print_node}
use ibdd.Marks.Distinct.{Distinct, unmarked-Distinct}
use ibdd.Marks.Nodes.{
  no_marks, nodes, cleared, distinct, distinct-IsIn, cleared_lem, unmark_run, get_index-Spanned,
  IsClosed-no_marks,
}
use ibdd.Marks.Shapes.{label, Spanned}
use ibdd.Marks.Sweep.{addresses, IsIn}
use ibdd.Marks.{Marks}
use ibdd.Output.{Piece}
use ibdd.Platform.{Platform}
use ibdd.State.Valid.{ValidHeap}
use ibdd.State.{State, ok, and_then}
use ibdd.Word.{ptr, is_complement_edge}

module _ ⦃m₀ : Platform⦄ {s : State} (v : ValidHeap s) {w : ℕ} (x : Spanned s w) where
  -- In a valid heap where no node is marked, printNode of a BDDNode below which the labels fall
  -- appends to the file its head with the name and the root, then the lines of each node of the
  -- diagram once, which name it and its two children and tell whether the low edge is
  -- complemented, the leaf having no lines, and then its end; it changes nothing else and leaves
  -- no node marked.
  pub print_node_lem :
      (title : String) (file : List Piece)
      → (l : List ℕ) × (marks : Marks) × (print_node w title file no_marks s
          ≡ ok
              (
                file
                    ++ head_lines title (name s (ptr w)) (is_complement_edge w)
                    ++ blocks s l
                    ++ last_lines,
                marks,
              )
              s)
        × ((q : ℕ) → marks q ≡ false)
        × Distinct l
        × ((q : ℕ) → IsIn q l ↔ IsIn q (addresses s true x.shape (ptr w)))
  unfolding print_node
  print_node_lem title file =
      let walk =
        print_lem v (suc (label x.shape)) x.shape (ptr w) w (suc (label x.shape)) 0 no_marks
          (file ++ head_lines title (name s (ptr w)) (is_complement_edge w)) refl x.spans x.ordered
          (omega arith) (omega arith) (IsClosed-no_marks v x (suc (label x.shape))) in
      (
        distinct v x,
        cleared v x,
        rw
            (
              print_index_lem s w,
              and_then,
              get_index-Spanned v x,
              and_then,
              walk,
              and_then,
              unmark_run v x,
            )
            refl,
        cleared_lem v x,
        unmarked-Distinct (nodes v x true) no_marks,
        distinct-IsIn v x,
      )
