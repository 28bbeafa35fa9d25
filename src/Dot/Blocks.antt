-- ===== src/Dot/Blocks.antt =====
-- printNodeRecur writes one block for each inner node that it meets without the flag.
use mathlib.Core.List.{append_assoc}
use ibdd.Prelude.{
  ℕ, zero, suc, ◌+◌, ◌<◌, ◌≡◌, refl, sym, ◌∙◌, ap, ap₂, inl, inr, true, false, arith, List, [], ◌∷◌,
  ◌++◌, ==_iff, Bool-cases,
}
use ibdd.Marks.Shapes.{Shape, point, fork, label, IsOrdered, Spans, Spans-cell}
use ibdd.Dot.Lines.{block, blocks, blocks-append, inner_run}
use ibdd.Dot.{print_node_recur}
use ibdd.Marks.Closed.{addresses_node, IsClosed, IsClosed-mark, IsClosed-sweep}
use ibdd.Marks.Count.{is_leaf_at_leaf, nonnull, sweep_node}
use ibdd.Marks.Distinct.{unmarked, unmarked-append, unmarked-All}
use ibdd.Marks.Sweep.{addresses, sweep, sweep-append, sweep-All}
use ibdd.Marks.{Marks, mark}
use ibdd.Output.{Piece}
use ibdd.Platform.{Platform}
use ibdd.State.Valid.{ValidHeap}
use ibdd.State.{State, ok, load, ◌>>=◌, and_then}
use ibdd.Word.{ptr}

module _ ⦃m₀ : Platform⦄ {s : State} (v : ValidHeap s) where
  -- the blocks that a walk over the diagram adds, and the flags it leaves
  abbrev pub Prints : ℕ → Type 0
  Prints fuel =
      (t : Shape) (p w n c : ℕ) (m : Marks) (file : List Piece)
      → ptr w ≡ p
      → Spans s t p
      → IsOrdered t
      → label t < fuel
      → label t < n
      → IsClosed s true (λ q. Unit {0}) m n
      → print_node_recur fuel w file m s
        ≡ ok
            (
              file ++ blocks s (unmarked (addresses s true t p) m),
              (sweep true (addresses s true t p) m c).0,
            )
            s

  append_nil : (l : List Piece) → l ≡ l ++ []
  append_nil [] = refl
  append_nil (x ∷ l) = ap (λ r. x ∷ r) (append_nil l)

  -- the blocks of an inner node, of the diagram below its low edge, and of the rest
  blocks_node :
      (i p c : ℕ) (h l : Shape) (m : Marks) (r : Spans s (fork i h l) p)
      → m p ≡ false
      → (file : List Piece)
      → file
          ++ block s p
          ++ blocks s (unmarked (addresses s true l (ptr r.0.low)) (mark m p true))
          ++ blocks s (
              unmarked
                (addresses s true h (ptr r.0.high))
                (sweep true (addresses s true l (ptr r.0.low)) (mark m p true) (c + 1)).0)
        ≡ file ++ blocks s (unmarked (addresses s true (fork i h l) p) m)
  blocks_node i p c h l m r new file =
      let m₀ = mark m p true in
      let lows = addresses s true l (ptr r.0.low) in
      let highs = addresses s true h (ptr r.0.high) in
      let rest = (sweep true lows m₀ (c + 1)).0 in
      let each : unmarked (addresses s true (fork i h l) p) m
          ≡ p ∷ (unmarked lows m₀ ++ unmarked highs rest) =
        ap (λ z. unmarked z m) (addresses_node s true i h l p r)
        ∙ rw new (ap (λ z. p ∷ z) (unmarked-append lows highs m₀ (c + 1))) in
      append_assoc (file ++ block s p) _ _
      ∙ append_assoc file (block s p) _
      ∙ ap (λ z. file ++ z)
          (ap (λ z. block s p ++ z) (sym (blocks-append s (unmarked lows m₀) (unmarked highs rest)))
            ∙ ap (blocks s) (sym each))

  print_unmarked :
      (fuel : ℕ)
      → Prints fuel
      → (t : Shape) (p w n c : ℕ) (m : Marks) (file : List Piece) → ptr w ≡ p
      → Spans s t p
      → IsOrdered t
      → label t < suc fuel
      → label t < n
      → IsClosed s true (λ q. Unit {0}) m n
      → m p ≡ false
      → print_node_recur (suc fuel) w file m s
        ≡ ok
            (
              file ++ blocks s (unmarked (addresses s true t p) m),
              (sweep true (addresses s true t p) m c).0,
            )
            s
  unfolding print_node_recur load
  print_unmarked fuel walk point p w n c m file at e ordered enough below closed n' =
      let cell = ap s.cell e ∙ v.leaf_cell in
      let at_leaf = is_leaf_at_leaf v w p at e in
      let here = (==_iff p s.leaf).1 e in
      rw (at, cell, and_then, n', ◌>>=◌, at_leaf, and_then, at, here)
        (ap (λ l. ok (l, mark m p true) s) (append_nil file))
  print_unmarked fuel walk (fork i h l) p w n c m file at (d, cell, ne, e, hs, ls) ordered enough
        below closed n' =
      let (h_lt, l_lt, h_ordered, l_ordered) = ordered in
      let r : Spans s (fork i h l) p = (d, cell, ne, e, hs, ls) in
      let lows = addresses s true l (ptr d.low) in
      let highs = addresses s true h (ptr d.high) in
      let m₀ = mark m p true in
      let closed₀ = IsClosed-mark s true (λ q. Unit {0}) (fork i h l) p n m r below closed in
      let after = sweep true lows m₀ (c + 1) in
      let file₁ = file ++ block s p ++ blocks s (unmarked lows m₀) in
      let low_run =
        walk l (ptr d.low) d.low i (c + 1) m₀ (file ++ block s p) refl ls l_ordered (omega arith)
          l_lt closed₀ in
      let high_run =
        walk h (ptr d.high) d.high i after.1 after.0 file₁ refl hs h_ordered (omega arith) h_lt
          (IsClosed-sweep s true (λ q. Unit {0}) l (ptr d.low) i (c + 1) m₀ ls closed₀) in
      let whole =
        sweep_node v true i p c h l m r (rw n' refl) ∙ sweep-append true lows highs m₀ (c + 1) in
      inner_run s w p at cell (ground arith) fuel m file (nonnull v p d cell) n' low_run high_run
      ∙ ap₂ (λ y z. ok (y, z.0) s) (blocks_node i p c h l m r n' file) (sym whole)

  pub print_lem : (fuel : ℕ) → Prints fuel
  unfolding print_node_recur load
  print_lem zero t p w n c m file at r ordered enough below closed = absurd (omega arith)
  print_lem (suc fuel) t p w n c m file at r ordered enough below closed = elim (Bool-cases (m p)) [
    | inl y ↦
        let (d, cell, index) = Spans-cell v t p r in
        let all = closed t p r below tt y in
        let done = sweep-All true (addresses s true t p) m c all in
        let none_left = unmarked-All (addresses s true t p) m all in
        rw (at, cell, and_then, y, none_left, done) (ap (λ l. ok (l, m) s) (append_nil file))
    | inr n' ↦
        print_unmarked fuel (print_lem fuel) t p w n c m file at r ordered enough below closed n'
  ]
