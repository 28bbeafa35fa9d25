-- ===== src/Marks/Unmark.antt =====
-- setMarked(false) is a sweep that takes the flags back.
use ibdd.Prelude.{
  ℕ, zero, suc, ◌+◌, ◌<◌, ◌≡◌, refl, sym, ◌∙◌, ap, subst, inl, inr, true, false, arith, Bool-cases,
  All,
}
use ibdd.Marks.Closed.{All-children, addresses_node, IsClosed, IsClosed-mark, IsClosed-sweep}
use ibdd.Marks.Sweep.{addresses, sweep, sweep-append, sweep-All}
use ibdd.Marks.Shapes.{Shape, point, fork, label, IsOrdered, Spans, Spans-cell}
use ibdd.Marks.{Marks, mark, set_marked}
use ibdd.Platform.{Platform}
use ibdd.State.Valid.{ValidHeap}
use ibdd.State.{State, ok, load, ◌>>=◌, and_then}
use ibdd.Word.{ptr}
use ibdd.Marks.Count.{nonnull, is_leaf_at_leaf, is_leaf_at_node, sweep_node}

module _ ⦃m₀ : Platform⦄ {s : State} (v : ValidHeap s) (D : ℕ → Type 0) where
  -- What `setMarked(false)` does, with enough fuel, on a diagram in D, where a walk may stop early.
  abbrev pub Unmarks : ℕ → Type 0
  Unmarks fuel =
      (t : Shape) (p w n c : ℕ) (m : Marks)
      → ptr w ≡ p
      → Spans s t p
      → IsOrdered t
      → label t < fuel
      → label t < n
      → All D (addresses s false t p)
      → IsClosed s false D m n
      → set_marked fuel w false m s ≡ ok (sweep false (addresses s false t p) m c).0 s

  root_in : (t : Shape) (p : ℕ) → All D (addresses s false t p) → D p
  root_in point p h = h.0
  root_in (fork i a b) p h = h.0

  unmark_marked :
      (fuel : ℕ)
      → Unmarks fuel
      → (t : Shape) (p w n c : ℕ) (m : Marks) → ptr w ≡ p
      → Spans s t p
      → IsOrdered t
      → label t < suc fuel
      → label t < n
      → All D (addresses s false t p)
      → IsClosed s false D m n
      → m p ≡ true
      → set_marked (suc fuel) w false m s ≡ ok (sweep false (addresses s false t p) m c).0 s
  unfolding set_marked load
  unmark_marked fuel walk point p w n c m at e ordered enough below inside closed y =
      let cell = ap s.cell e ∙ v.leaf_cell in
      let at_leaf = is_leaf_at_leaf v w p at e in
      rw (at, nonnull v p _ cell, and_then, cell, and_then, y, ◌>>=◌, at_leaf, and_then, at) refl
  unmark_marked fuel walk (fork i h l) p w n c m at (d, cell, ne, e, hs, ls) ordered enough below
        inside closed y =
      let (h_lt, l_lt, h_ordered, l_ordered) = ordered in
      let r : Spans s (fork i h l) p = (d, cell, ne, e, hs, ls) in
      let inner = is_leaf_at_node v w p at ne in
      let m₁ = mark m p false in
      let lows = addresses s false l (ptr d.low) in
      let highs = addresses s false h (ptr d.high) in
      let (lows_in, highs_in) =
        All-children s false D lows highs
          (subst (All D) (addresses_node s false i h l p r) inside).1 in
      let closed₁ = IsClosed-mark s false D (fork i h l) p n m r below closed in
      let high_run =
        walk h (ptr d.high) d.high i (c + 1) m₁ refl hs h_ordered (omega arith) h_lt highs_in
          closed₁ in
      let after = sweep false highs m₁ (c + 1) in
      let low_run =
        walk l (ptr d.low) d.low i after.1 after.0 refl ls l_ordered (omega arith) l_lt lows_in
          (IsClosed-sweep s false D h (ptr d.high) i (c + 1) m₁ hs closed₁) in
      let whole =
        sweep_node v false i p c h l m r (rw y refl) ∙ sweep-append false highs lows m₁ (c + 1) in
      let all = sweep false lows after.0 after.1 in
      let run : set_marked (suc fuel) w false m s ≡ ok all.0 s =
        rw
          (
            at,
            nonnull v p d cell,
            and_then,
            cell,
            and_then,
            y,
            ◌>>=◌,
            inner,
            and_then,
            at,
            high_run,
            and_then,
            low_run,
          )
          refl in
      run ∙ ap (λ z. ok z.0 s) (sym whole)

  pub unmark_lem : (fuel : ℕ) → Unmarks fuel
  unfolding set_marked load
  unmark_lem zero t p w n c m at r ordered enough below inside closed = absurd (omega arith)
  unmark_lem (suc fuel) t p w n c m at r ordered enough below inside closed =
      elim (Bool-cases (m p)) [
        | inl y ↦
            unmark_marked fuel (unmark_lem fuel) t p w n c m at r ordered enough below inside closed
              y
        | inr n' ↦
            let (d, cell, index) = Spans-cell v t p r in
            let done =
              sweep-All false (addresses s false t p) m c
                (closed t p r below (root_in t p inside) n') in
            let run : set_marked (suc fuel) w false m s ≡ ok m s =
              rw (at, nonnull v p d cell, and_then, cell, and_then, n') refl in
            run ∙ ap (λ z. ok z.0 s) (sym done)
      ]
