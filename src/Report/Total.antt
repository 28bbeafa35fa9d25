-- ===== src/Report/Total.antt =====
-- The sum that showInfo reports.
use Prim.Native.String.{String}
use mathlib.Core.List.{reverse, reverse_aux}
use ibdd.Prelude.{ℕ, ◌+◌, ◌%◌, ◌^◌, ◌≡◌, refl, ◌∙◌, ap, fun_ext, List, [], ◌∷◌, ◌++◌, arith, length}
use ibdd.Marks.Shapes.{Spanned}
use ibdd.Marks.Nodes.{no_marks, distinct, cleared, cleared_lem, count_run, counted-distinct}
use ibdd.Marks.{count_nodes}
use ibdd.Output.{Piece, text, number, end_line}
use ibdd.Platform.{Platform}
use ibdd.Report.{count_all, integer, show_info}
use ibdd.State.Valid.{ValidHeap}
use ibdd.State.{State, ok, and_then}

-- A BDDNode of the state, with its shape.
pub record Handle (s : State) : Type 0 where
  pub word : ℕ
  pub spanned : Spanned s word

module _ ⦃m₀ : Platform⦄ {s : State} (v : ValidHeap s) where
  abbrev pub words : List (Handle s) → List ℕ
  words [] = []
  words (h ∷ l) = h.word ∷ words l

  -- the sum of the numbers of the distinct nodes
  abbrev pub nodes_total : List (Handle s) → ℕ
  nodes_total [] = 0
  nodes_total (h ∷ l) = length (distinct v h.spanned) + nodes_total l

  words-reverse :
      (l r : List (Handle s)) → reverse_aux (words l) (words r) ≡ words (reverse_aux l r)
  words-reverse [] r = refl
  words-reverse (h ∷ l) r = words-reverse l (h ∷ r)

  nodes_total-reverse :
      (l r : List (Handle s)) → nodes_total (reverse_aux l r) ≡ nodes_total l + nodes_total r
  nodes_total-reverse [] r = omega arith
  nodes_total-reverse (h ∷ l) r = let e = nodes_total-reverse l (h ∷ r) in omega arith

  count_all_lem :
      (l : List (Handle s)) (total : ℕ)
      → count_all (words l) (total % 2 ^ 32) no_marks s
        ≡ ok ((total + nodes_total l) % 2 ^ 32, no_marks) s
  unfolding count_all
  count_all_lem [] total = ap (λ n. ok (n, no_marks) s) (omega arith)
  count_all_lem (h ∷ l) total =
      let size = length (distinct v h.spanned) in
      let marks : cleared v h.spanned ≡ no_marks = fun_ext (cleared_lem v h.spanned) in
      let next : (total % 2 ^ 32 + size) % 2 ^ 32 ≡ (total + size) % 2 ^ 32 = omega arith in
      let run : count_nodes h.word no_marks s ≡ ok (size, no_marks) s =
        count_run v h.spanned
        ∙ ap (λ n. ok (n, cleared v h.spanned) s) (counted-distinct v h.spanned)
        ∙ ap (λ q. ok (size, q) s) marks in
      rw (run, and_then, next)
        (count_all_lem l (total + size) ∙ ap (λ n. ok (n % 2 ^ 32, no_marks) s) (omega arith))

  -- In a valid heap where no node is marked, showInfo of Manager appends the sum of the numbers
  -- of the distinct nodes of the given BDDNodes, below which the labels fall, as an `int` of 32
  -- bits, the time and the memory, and leaves no node marked.
  pub show_info_lem :
      (compared_time : String) (maxrss : ℕ) (handles : List (Handle s)) (output : List Piece)
      → show_info compared_time maxrss (words handles) output no_marks s
        ≡ ok
            (
              output
                  ++ text "Nodes count: " ∷ integer (nodes_total handles % 2 ^ 32)
                  ++ end_line
                    ∷ text "Time in seconds: "
                    ∷ text compared_time
                    ∷ end_line
                    ∷ text "Memory usage: "
                    ∷ number maxrss
                    ∷ end_line
                    ∷ [],
              no_marks,
            )
            s
  unfolding show_info
  show_info_lem compared_time maxrss handles output =
      let reversed = words-reverse handles [] in
      let total : 0 + nodes_total (reverse handles) ≡ nodes_total handles =
        let e = nodes_total-reverse handles [] in omega arith in
      rw (reversed, count_all_lem (reverse handles) 0, and_then, total) refl
