-- ===== src/Marks/Count.antt =====
-- The walks of countNodes are sweeps: the nodes at which they stop early have nothing left to do.
use ibdd.Prelude.{
  ℕ, zero, suc, ◌+◌, ◌%◌, ◌<◌, ◌≡◌, ◌≢◌, refl, sym, ◌∙◌, ap, inl, inr, Bool, true, false, arith,
  some, ◌==◌, ==_iff, Bool-cases,
}
use ibdd.Marks.Closed.{children, addresses_node, IsClosed, IsClosed-mark, IsClosed-sweep}
use ibdd.Marks.Sweep.{addresses, same, sweep, sweep-append, sweep-All}
use ibdd.Marks.Shapes.{Shape, point, fork, label, IsOrdered, Spans, Spans-cell}
use ibdd.Marks.{Marks, mark, count_nodes_recur}
use ibdd.Node.{is_leaf}
use ibdd.Platform.{Platform}
use ibdd.State.Valid.{ValidHeap}
use ibdd.State.{DdNode, State, ok, load, ◌>>=◌, and_then}
use ibdd.Unique.Finds.{cell-IsAddress}
use ibdd.Word.{ptr, word_mod}

wrap : (c : ℕ) → (c % word_mod + 1) % word_mod ≡ (c + 1) % word_mod
wrap c = omega arith

module _ ⦃m₀ : Platform⦄ {s : State} (v : ValidHeap s) where
  pub is_leaf_at_leaf : (w p : ℕ) → ptr w ≡ p → p ≡ s.leaf → is_leaf w s ≡ ok true s
  unfolding is_leaf
  is_leaf_at_leaf w p at e = rw (at, (==_iff p s.leaf).1 e) refl

  pub is_leaf_at_node : (w p : ℕ) → ptr w ≡ p → p ≢ s.leaf → is_leaf w s ≡ ok false s
  unfolding is_leaf
  is_leaf_at_node w p at ne =
      let differ : (p == s.leaf) ≡ false = ground arith in rw (at, differ) refl

  pub nonnull : (p : ℕ) (d : DdNode) → s.cell p ≡ some d → (p == 0) ≡ false
  nonnull p d cell = let a = cell-IsAddress v p d cell in ground arith

  -- What `countNodesRecur` does, with enough fuel, where a walk may stop early.
  abbrev pub Counts : ℕ → Type 0
  Counts fuel =
      (t : Shape) (p w n c : ℕ) (m : Marks)
      → ptr w ≡ p
      → Spans s t p
      → IsOrdered t
      → label t < fuel
      → label t < n
      → IsClosed s true (λ q. Unit {0}) m n
      → count_nodes_recur fuel w m (c % word_mod) s
        ≡ ok
            (
              (sweep true (addresses s true t p) m c).0,
              (sweep true (addresses s true t p) m c).1 % word_mod,
            )
            s

  pub sweep_node :
      (to : Bool) (i p c : ℕ) (h l : Shape) (m : Marks) (r : Spans s (fork i h l) p)
      → same to (m p) ≡ false
      → sweep to (addresses s to (fork i h l) p) m c
        ≡ sweep to
            (children s to (addresses s to l (ptr r.0.low)) (addresses s to h (ptr r.0.high)))
            (mark m p to)
            (c + 1)
  sweep_node to i p c h l m r other =
      ap (λ z. sweep to z m c) (addresses_node s to i h l p r) ∙ rw other refl

  count_unmarked :
      (fuel : ℕ)
      → Counts fuel
      → (t : Shape) (p w n c : ℕ) (m : Marks) → ptr w ≡ p
      → Spans s t p
      → IsOrdered t
      → label t < suc fuel
      → label t < n
      → IsClosed s true (λ q. Unit {0}) m n
      → m p ≡ false
      → count_nodes_recur (suc fuel) w m (c % word_mod) s
        ≡ ok
            (
              (sweep true (addresses s true t p) m c).0,
              (sweep true (addresses s true t p) m c).1 % word_mod,
            )
            s
  unfolding count_nodes_recur load
  count_unmarked fuel walk point p w n c m at e ordered enough below closed n' =
      let cell = ap s.cell e ∙ v.leaf_cell in
      let at_leaf = is_leaf_at_leaf w p at e in
      rw (at, cell, and_then, n', ◌>>=◌, at_leaf, and_then, at, wrap c) refl
  count_unmarked fuel walk (fork i h l) p w n c m at (d, cell, ne, e, hs, ls) ordered enough below
        closed n' =
      let (h_lt, l_lt, h_ordered, l_ordered) = ordered in
      let r : Spans s (fork i h l) p = (d, cell, ne, e, hs, ls) in
      let inner = is_leaf_at_node w p at ne in
      let m₀ = mark m p true in
      let lows = addresses s true l (ptr d.low) in
      let highs = addresses s true h (ptr d.high) in
      let closed₀ = IsClosed-mark s true (λ q. Unit {0}) (fork i h l) p n m r below closed in
      let low_run =
        walk l (ptr d.low) d.low i (c + 1) m₀ refl ls l_ordered (omega arith) l_lt closed₀ in
      let after = sweep true lows m₀ (c + 1) in
      let high_run =
        walk h (ptr d.high) d.high i after.1 after.0 refl hs h_ordered (omega arith) h_lt
          (IsClosed-sweep s true (λ q. Unit {0}) l (ptr d.low) i (c + 1) m₀ ls closed₀) in
      let whole =
        sweep_node true i p c h l m r (rw n' refl) ∙ sweep-append true lows highs m₀ (c + 1) in
      let all = sweep true highs after.0 after.1 in
      let run : count_nodes_recur (suc fuel) w m (c % word_mod) s ≡ ok (all.0, all.1 % word_mod) s =
        rw (at, cell, and_then, n', ◌>>=◌, inner, and_then, at, wrap c, low_run, and_then, high_run)
          refl in
      run ∙ ap (λ z. ok (z.0, z.1 % word_mod) s) (sym whole)

  pub count_lem : (fuel : ℕ) → Counts fuel
  unfolding count_nodes_recur load
  count_lem zero t p w n c m at r ordered enough below closed = absurd (omega arith)
  count_lem (suc fuel) t p w n c m at r ordered enough below closed = elim (Bool-cases (m p)) [
    | inl y ↦
        let (d, cell, index) = Spans-cell v t p r in
        rw
          (
            at,
            cell,
            and_then,
            y,
            sweep-All true (addresses s true t p) m c (closed t p r below tt y),
          )
          refl
    | inr n' ↦ count_unmarked fuel (count_lem fuel) t p w n c m at r ordered enough below closed n'
  ]
