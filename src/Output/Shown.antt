-- ===== src/Output/Shown.antt =====
-- What showInfo writes, and that it counts as countNodesRecur does.
use mathlib.Core.List.{append_assoc}
use ibdd.Prelude.{
  ℕ, zero, suc, ◌≡◌, ◌≢◌, sym, ◌∙◌, ap, subst, inl, inr, Bool, true, false, arith, Option, none,
  some, List, [], ◌∷◌, ◌++◌, ◌==◌, ==_iff, Bool-cases, Option-cases,
}
use ibdd.Cofactor.{Factor, low, high}
use ibdd.Marks.{Marks, count_nodes_recur}
use ibdd.Node.{is_leaf}
use ibdd.Output.{Piece, text, address, debug_info, show_info}
use ibdd.References.{Counters}
use ibdd.State.{State, Outcome, DdNode, M, ok, fault, out_of_fuel, load, ◌>>=◌, and_then}
use ibdd.Word.{ptr}

-- A walk that writes beside the walk that does not: both fail, or both return the same flags and the
-- same counter, and one has added pieces with the property to the output.
pub data Mirrors (s : State) (output : List Piece) (P : List Piece → Type 0)
    : Outcome (List Piece × Marks × ℕ) → Outcome (Marks × ℕ) → Type 0 where
  shown :
      {pieces : List Piece} {marks : Marks} {counter : ℕ}
      → P pieces
      → Mirrors s output P (ok (output ++ pieces, marks, counter) s) (ok (marks, counter) s)
  failed : Mirrors s output P fault fault
  no_fuel : Mirrors s output P out_of_fuel out_of_fuel

module _ {s : State} {o o' : List Piece} {P Q : List Piece → Type 0} where
  Mirrors-bind :
      {r : Outcome (List Piece × Marks × ℕ)} {q : Outcome (Marks × ℕ)}
      (k : List Piece × Marks × ℕ → M (List Piece × Marks × ℕ)) (l : Marks × ℕ → M (Marks × ℕ))
      → Mirrors s o P r q
      → ((pieces : List Piece) (marks : Marks) (counter : ℕ)
          → P pieces
          → Mirrors s o' Q (k (o ++ pieces, marks, counter) s) (l (marks, counter) s))
      → Mirrors s o' Q (and_then r k) (and_then q l)
  Mirrors-bind k l (shown p) next = next _ _ _ p
  Mirrors-bind k l failed next = failed
  Mirrors-bind k l no_fuel next = no_fuel

  -- more output at the end
  Mirrors-write :
      {r : Outcome (List Piece × Marks × ℕ)} {q : Outcome (Marks × ℕ)} (more : List Piece)
      → Mirrors s o P r q
      → ((pieces : List Piece)
          → P pieces
          → (all : List Piece) × (o ++ pieces ++ more ≡ o' ++ all) × Q all)
      → Mirrors s o' Q (and_then r (λ (out, marks, counter). ok (out ++ more, marks, counter))) q
  Mirrors-write more (shown {marks} {counter} p) next =
      let (all, e, h) = next _ p in
      subst (λ z. Mirrors s o' Q (ok (z, marks, counter) s) (ok (marks, counter) s)) (sym e)
        (shown h)
  Mirrors-write more failed next = failed
  Mirrors-write more no_fuel next = no_fuel

module _ (debug : Option Counters) (s : State) where
  -- what a node writes of itself
  abbrev pub own : ℕ → ℕ → Factor → (marked : Bool) → List Piece
  own w index factor marked = address (ptr w) ∷ text " " ∷ debug_info debug w index factor marked

  -- The text of a BDDNode: itself alone, as the leaf or as a node that has been visited, or itself and,
  -- between brackets, the texts of its low and of its high child.
  pub data IsShown : ℕ → Factor → List Piece → Type 0 where
    visited :
        {w : ℕ} {factor : Factor} {d : DdNode}
        → s.cell (ptr w) ≡ some d
        → IsShown w factor (own w d.index factor true)
    terminal :
        {w : ℕ} {factor : Factor} {d : DdNode}
        → s.cell (ptr w) ≡ some d
        → ptr w ≡ s.leaf
        → IsShown w factor (own w d.index factor false)
    inner :
        {w : ℕ} {factor : Factor} {d : DdNode} {xs ys : List Piece}
        → s.cell (ptr w) ≡ some d
        → ptr w ≢ s.leaf
        → IsShown d.low low xs
        → IsShown d.high high ys
        → IsShown w factor
            (own w d.index factor false ++ (text "( " ∷ []) ++ xs ++ ys ++ (text ") " ∷ []))

regroup : (a b c d e f : List Piece) → a ++ b ++ c ++ d ++ e ++ f ≡ a ++ (b ++ c ++ d ++ e ++ f)
regroup a b c d e f =
    ap (λ z. z ++ d ++ e ++ f) (append_assoc a b c)
    ∙ ap (λ z. z ++ e ++ f) (append_assoc a (b ++ c) d)
    ∙ ap (λ z. z ++ f) (append_assoc a (b ++ c ++ d) e)
    ∙ append_assoc a (b ++ c ++ d ++ e) f

module _ (debug : Option Counters) {s : State} (null : s.cell 0 ≡ none) where
  -- In a state without a DDNode at the null address, showInfo and countNodesRecur, with any fuel
  -- and from any marks, both fail, both run out of fuel, or both return the same marks and the
  -- same counter, and showInfo has then appended a text of the BDDNode to the output.
  pub show_info-Mirrors :
      (fuel w : ℕ) (output : List Piece) (marks : Marks) (counter : ℕ) (factor : Factor)
      → Mirrors s output
          (IsShown debug s w factor)
          (show_info debug fuel w output marks counter factor s)
          (count_nodes_recur fuel w marks counter s)
  unfolding show_info count_nodes_recur load is_leaf
  show_info-Mirrors zero w output marks counter factor = no_fuel
  show_info-Mirrors (suc fuel) w output marks counter factor = elim (Bool-cases (ptr w == 0)) [
    | inl y ↦ let at : ptr w ≡ 0 = (==_iff (ptr w) 0).0 y in rw (y, at, null) failed
    | inr n ↦ elim (Option-cases (s.cell (ptr w))) [
      | inl gone ↦ rw (n, and_then, gone) failed
      | inr (d, cell) ↦ elim (Bool-cases (marks (ptr w))) [
        | inl y ↦ rw (n, and_then, cell, and_then, y, ◌>>=◌, y) (shown (visited cell))
        | inr k ↦ elim (Bool-cases (ptr w == s.leaf)) [
          | inl y ↦
              rw (n, and_then, cell, and_then, k, ◌>>=◌, y, ◌>>=◌, k)
                (shown (terminal cell ((==_iff (ptr w) s.leaf).0 y)))
          | inr other ↦
              let ne : ptr w ≢ s.leaf = ground arith in
              rw (n, and_then, cell, and_then, k, ◌>>=◌, other, ◌>>=◌, k)
                (Mirrors-bind _ _ (show_info-Mirrors fuel d.low _ _ _ low) λ xs marks' counter' x.
                  Mirrors-write (text ") " ∷ []) (show_info-Mirrors fuel d.high _ _ _ high)
                    λ ys y. (_, regroup output _ _ xs ys _, inner cell ne x y))
        ]
      ]
    ]
  ]
