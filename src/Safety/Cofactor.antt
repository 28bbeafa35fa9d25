-- ===== src/Safety/Cofactor.antt =====
-- BDDNode::getCofactor in a safe state, at every index from 1 on.
use ibdd.Prelude.{
  ℕ, zero, suc, ◌<◌, ◌≤◌, ◌≡◌, refl, inl, inr, Bool, true, false, arith, ltb, ◌==◌, ==_iff,
  Bool-cases,
}
use ibdd.Cofactor.{Factor, child, join, get_cofactor_recur, get_cofactor, is_high, negate_if, xor}
use ibdd.Platform.{Platform}
use ibdd.Safety.FindAdd.{bdd_node-Safe}
use ibdd.Safety.Nodes.{
  Labelled-extends, Below-extends, Below-le, Below-negate, Labelled-negate, get_index-Labelled,
  get_high-Labelled, get_low-Labelled, ptr_nonnull, label-lt,
}
use ibdd.Safety.{Labelled, Below, Safe}
use ibdd.State.Returns.{Ends, returns, same, bind, mono}
use ibdd.State.Valid.{ValidHeap}
use ibdd.State.{State, ok, and_then, ◌>>=◌}
use ibdd.Word.{is_complement_edge}

module _ ⦃m : Platform⦄ {s : State} (v : ValidHeap s) where
  pub Labelled-negate_if : {w i : ℕ} (b : Bool) → Labelled s w i → Labelled s (negate_if b w) i
  Labelled-negate_if true a = Labelled-negate v a
  Labelled-negate_if false a = a

  pub Below-negate_if : {w n : ℕ} (b : Bool) → Below s w n → Below s (negate_if b w) n
  Below-negate_if b (i, a, lt) = (i, Labelled-negate_if b a, lt)

module _ ⦃m : Platform⦄ {s : State} (v : Safe s) where
  child-Below :
      {w i : ℕ} (b : Bool) → Labelled s w i → 0 < i → (u : ℕ) × (child w b s ≡ ok u s) × Below s u i
  unfolding child
  child-Below {w} true a pos =
      let (u, run, d) = get_high-Labelled v a pos in
      (
        negate_if (is_complement_edge w) u,
        rw run refl,
        Below-negate_if v.heap (is_complement_edge w) d,
      )
  child-Below {w} false a pos =
      let (u, run, d) = get_low-Labelled v a pos in
      (
        negate_if (is_complement_edge w) u,
        rw run refl,
        Below-negate_if v.heap (is_complement_edge w) d,
      )

  -- At the label of the root or above it nothing changes, and the result is below the index.
  recur-Below :
      {w i : ℕ} (fuel index : ℕ) (b : Bool)
      → Labelled s w i
      → 0 < index
      → i ≤ index
      → (u : ℕ) × (get_cofactor_recur (suc fuel) w index b s ≡ ok u s) × Below s u index
  unfolding get_cofactor_recur
  recur-Below {w} {i} fuel index b a pos le = elim (Bool-cases (ltb i index)) [
    | inl y ↦ (
      w,
      rw (ptr_nonnull v a, get_index-Labelled v.heap a, and_then, y) refl,
      (i, a, ground arith),
    )
    | inr n ↦
        let e : i ≡ index = ground arith in
        let here : (index == i) ≡ true = ground arith in
        let (u, run, d) = child-Below b a (omega arith) in
        (
          u,
          rw (ptr_nonnull v a, get_index-Labelled v.heap a, and_then, n, here) run,
          Below-le index (omega arith) d,
        )
  ]

  pub get_cofactor-Below :
      {w i : ℕ} (index : ℕ) (factor : Factor)
      → Labelled s w i
      → 0 < index
      → i ≤ index
      → (u : ℕ) × (get_cofactor w index factor s ≡ ok u s) × Below s u index
  unfolding get_cofactor
  get_cofactor-Below {i = i} index factor a pos le =
      rw (get_index-Labelled v.heap a) (recur-Below i index (is_high factor) a pos le)

  join-Safe :
      {w t e i : ℕ}
      → Labelled s w i
      → 0 < i
      → Below s t i
      → Below s e i
      → Ends Safe s (λ u s'. Below s' u (suc i)) (join w t e s)
  unfolding join
  join-Safe {w} {t} {e} {i} a pos dt de = rw (get_index-Labelled v.heap a) (
      mono
        (bdd_node-Safe v (label-lt v a) (Below-negate_if v.heap (is_complement_edge t) dt)
          (Below-negate v.heap de) pos (xor (is_complement_edge w) (is_complement_edge t)))
        λ u s' k (d, others). returns k (i, d, omega arith))

module _ ⦃m : Platform⦄ where
  recur-Safe :
      (fuel w i index : ℕ) (b : Bool) (s : State)
      → Safe s
      → Labelled s w i
      → i < fuel
      → 0 < index
      → Ends Safe s (λ u s'. Below s' u (suc i)) (get_cofactor_recur fuel w index b s)
  unfolding get_cofactor_recur
  recur-Safe zero w i index b s v a enough pos = absurd (omega arith)
  recur-Safe (suc fuel) w i index b s v a enough pos = elim (Bool-cases (ltb i index)) [
    | inl y ↦
        rw (ptr_nonnull v a, get_index-Labelled v.heap a, and_then, y) (same v (i, a, omega arith))
    | inr n ↦ elim (Bool-cases (index == i)) [
      | inl y ↦
          let e = (==_iff index i).0 y in
          let (u, run, d) = child-Below v b a (omega arith) in
          rw (ptr_nonnull v a, get_index-Labelled v.heap a, and_then, n, y, run)
            (same v (Below-le (suc i) (omega arith) d))
      | inr other ↦
          let pos' : 0 < i = ground arith in
          let (h, high_run, (j, ah, lt)) = get_high-Labelled v a pos' in
          rw
            (
              ptr_nonnull v a,
              get_index-Labelled v.heap a,
              and_then,
              n,
              other,
              ◌>>=◌,
              high_run,
              and_then,
            )
            (bind (recur-Safe fuel h j index b s v ah (omega arith) pos) λ t s₁ k₁ dt.
              let a₁ = Labelled-extends k₁.extends a in
              let (l, low_run, (j', al, lt')) = get_low-Labelled k₁.valid a₁ pos' in
              rw (◌>>=◌, low_run, and_then)
                (bind (recur-Safe fuel l j' index b s₁ k₁.valid al (omega arith) pos) λ e s₂ k₂ de.
                  let a₂ = Labelled-extends k₂.extends a₁ in
                  let dt₂ = Below-le i (omega arith) (Below-extends k₂.extends dt) in
                  elim (Bool-cases (t == e)) [
                    | inl z ↦ rw z (
                        same k₂.valid (
                          Below-le (suc i) (omega arith)
                            (Below-negate_if k₂.valid.heap (is_complement_edge w) dt₂)))
                    | inr z ↦ rw z (join-Safe k₂.valid a₂ pos' dt₂ (Below-le i (omega arith) de))
                  ]))
    ]
  ]

  -- In a safe state getCofactor of a BDDNode at a positive index, also below the root where it
  -- computes another function than the cofactor, returns within its fuel a BDDNode labelled at
  -- most as its argument, in a safe state that keeps every node, or `new` throws with the memory
  -- exhausted.
  pub get_cofactor-Safe :
      {w i : ℕ} {s : State} (index : ℕ) (factor : Factor)
      → Safe s
      → Labelled s w i
      → 0 < index
      → Ends Safe s (λ u s'. Below s' u (suc i)) (get_cofactor w index factor s)
  unfolding get_cofactor
  get_cofactor-Safe {w} {i} {s} index factor v a pos =
      rw (get_index-Labelled v.heap a)
        (recur-Safe (suc i) w i index (is_high factor) s v a (omega arith) pos)
