-- ===== src/Safety/Exist.antt =====
-- Manager::existRecur in a safe state, whatever the computed table holds.
use ibdd.Prelude.{ℕ, zero, suc, ◌<◌, ◌≡◌, refl, inl, inr, false, some, arith, ltb, ◌==◌, Bool-cases}
use ibdd.Cofactor.{high, low, negate_if}
use ibdd.Exist.{rebuild, quantify, exist_recur, exist}
use ibdd.Ite.{insert}
use ibdd.Operators.{or}
use ibdd.Platform.{Platform}
use ibdd.Safety.Cache.{has_next-Below, insert-Safe}
use ibdd.Safety.Cofactor.{Below-negate_if, get_cofactor-Below}
use ibdd.Safety.FindAdd.{find_add-Safe, cell-Labelled}
use ibdd.Safety.Ite.{call_ite-Safe}
use ibdd.Safety.Nodes.{
  Labelled-extends, Below-extends, Below-le, get_index-Labelled, is_leaf-Labelled, label-lt,
  terminal1-Labelled,
}
use ibdd.Safety.{Labelled, Below, Safe}
use ibdd.State.Returns.{Ends, returns, same, bind}
use ibdd.State.Valid.{Extends}
use ibdd.State.{DdNode, State, ok, and_then}
use ibdd.TableKey.{TableKey, table_key}
use ibdd.Unique.Finds.{triple, cell-IsAddress}
use ibdd.Unique.{leaf_node}
use ibdd.Word.{is_complement_edge, regular, to_word}

-- The key of a node with the label i and two BDDNodes below it.
abbrev pub IsExistKey : State → TableKey → ℕ → Type 0
IsExistKey s k i = Labelled s k.f i × Below s k.g i × Below s k.h i

IsExistKey-extends :
    {s s' : State} (k : TableKey) (i : ℕ) → Extends s s' → IsExistKey s k i → IsExistKey s' k i
IsExistKey-extends k i x (a, g, h) = (Labelled-extends x a, Below-extends x g, Below-extends x h)

module _ ⦃m : Platform⦄ {s : State} (v : Safe s) {k : TableKey} {i : ℕ} (q : IsExistKey s k i) where
  -- a result not above the node, which is inserted and returned
  store :
      (r : ℕ)
      → Below s r (suc i)
      → Ends Safe s (λ u s'. Below s' u (suc i)) (and_then (insert k r s) (λ _. ok r))
  store r d =
      let (a, (g, ag, lg), (h, ah, lh)) = q in
      let (j, ar, lr) = d in
      let (s', run, keeps) = insert-Safe v k r (record {
        f = i;
        g = g;
        h = h;
        res = j;
        f_labelled = a;
        g_labelled = ag;
        h_labelled = ah;
        res_labelled = ar;
        bound = λ n p p' p''. omega arith;
      }) in
      rw run (returns keeps (Below-extends keeps.extends d))

module _ ⦃m : Platform⦄ {s : State} (v : Safe s) where
  leaf_node-run :
      (p : ℕ) (d : DdNode) → s.cell p ≡ some d → leaf_node p regular s ≡ ok (to_word p regular) s
  unfolding leaf_node
  leaf_node-run p d cell =
      let a = cell-IsAddress v.heap p d cell in
      let nonnull : (p == 0) ≡ false = ground arith in rw nonnull refl

module _ ⦃m : Platform⦄ {s : State} (v : Safe s) {i : ℕ} where
  or-Safe : {f g : ℕ} → Below s f i → Below s g i → Ends Safe s (λ u s'. Below s' u i) (or f g s)
  unfolding or
  or-Safe df dg =
      call_ite-Safe v df (0, terminal1-Labelled v.heap, (let l = df.2 in omega arith)) dg

  quantify-Safe :
      {k : TableKey} {high_child low_child : ℕ}
      → IsExistKey s k i
      → Below s high_child i
      → Below s low_child i
      → Ends Safe s (λ u s'. Below s' u (suc i)) (quantify k high_child low_child s)
  unfolding quantify
  quantify-Safe {k} q dh dl = bind (or-Safe dl dh) λ r s₁ k₁ d.
      store k₁.valid (IsExistKey-extends k i k₁.extends q) r (Below-le (suc i) (omega arith) d)

  rebuild-Safe :
      {k : TableKey} {t e : ℕ}
      → IsExistKey s k i
      → Below s t i
      → Below s e i
      → Ends Safe s (λ u s'. Below s' u (suc i)) (rebuild k i t e s)
  unfolding rebuild
  rebuild-Safe {k} {t} {e} q dt de = elim (Bool-cases (t == e)) [
    | inl y ↦ rw (rebuild, y) (store v q t (Below-le (suc i) (omega arith) dt))
    | inr z ↦
        let c = is_complement_edge t in
        rw (rebuild, z)
          (bind
            (find_add-Safe v (label-lt v q.0) (Below-negate_if v.heap c dt)
              (Below-negate_if v.heap c de))
            λ p s₁ k₁ (cell, others).
              rw (leaf_node-run k₁.valid p (triple i (negate_if c t) (negate_if c e)) cell) (
                store k₁.valid (IsExistKey-extends k i k₁.extends q)
                  (negate_if c (to_word p regular))
                  (Below-negate_if k₁.valid.heap c (
                    i,
                    cell-Labelled p (triple i (negate_if c t) (negate_if c e)) cell false,
                    omega arith,
                  ))))
  ]

module _ ⦃m : Platform⦄ where
  recur-Safe :
      (fuel w i index : ℕ) (s : State)
      → Safe s
      → Labelled s w i
      → i < fuel
      → Ends Safe s (λ u s'. Below s' u (suc i)) (exist_recur fuel w index s)
  unfolding exist_recur
  recur-Safe zero w i index s v a enough = absurd (omega arith)
  recur-Safe (suc fuel) w i index s v a enough = elim (Bool-cases (i == 0)) [
    | inl y ↦ rw (is_leaf-Labelled v a, and_then, y) (same v (i, a, omega arith))
    | inr nz ↦ elim (Bool-cases (ltb i index)) [
      | inl y ↦
          rw (is_leaf-Labelled v a, and_then, nz, get_index-Labelled v.heap a, and_then, y)
            (same v (i, a, omega arith))
      | inr n ↦
          let pos : 0 < i = ground arith in
          let (h, high_run, dh) = get_cofactor-Below v i high a pos (omega arith) in
          let (l, low_run, dl) = get_cofactor-Below v i low a pos (omega arith) in
          let k = table_key w h l in
          let q : IsExistKey s k i = (a, dh, dl) in
          rw
            (
              is_leaf-Labelled v a,
              and_then,
              nz,
              get_index-Labelled v.heap a,
              and_then,
              n,
              high_run,
              and_then,
              low_run,
              and_then,
            )
            (elim (has_next-Below v {k = k} (i, a, omega arith) (Below-le (suc i) (omega arith) dh)
              (Below-le (suc i) (omega arith) dl)) [
                | inr (r, hit, d) ↦ rw hit (same v d)
                | inl miss ↦ elim (Bool-cases (index == i)) [
                  | inl y ↦ rw (miss, and_then, y) (quantify-Safe v q dh dl)
                  | inr other ↦
                      let (j, ah, lt) = dh in
                      let (j', al, lt') = dl in
                      rw (miss, and_then, other)
                        (bind (recur-Safe fuel h j index s v ah (omega arith)) λ t s₁ k₁ dt.
                          bind
                            (recur-Safe fuel l j' index s₁ k₁.valid (Labelled-extends k₁.extends al)
                              (omega arith))
                            λ e s₂ k₂ de.
                              let x = k₂.extends in
                              rebuild-Safe k₂.valid
                                (IsExistKey-extends k i x (IsExistKey-extends k i k₁.extends q))
                                (Below-le i (omega arith) (Below-extends x dt))
                                (Below-le i (omega arith) de))
                ]
              ])
    ]
  ]

  -- In a safe state exist of a BDDNode, at any index and whatever the computed table holds,
  -- returns within its fuel a BDDNode labelled at most as its argument, in a safe state that
  -- keeps every node, or `new` throws with the memory exhausted.
  pub exist-Safe :
      {w i : ℕ} {s : State} (index : ℕ)
      → Safe s
      → Labelled s w i
      → Ends Safe s (λ u s'. Below s' u (suc i)) (exist w index s)
  unfolding exist
  exist-Safe {w} {i} {s} index v a = elim (Bool-cases (index == 0)) [
    | inl y ↦ rw (exist, y) (same v (i, a, omega arith))
    | inr n ↦
        rw (exist, n, get_index-Labelled v.heap a)
          (recur-Safe (suc i) w i index s v a (omega arith))
  ]
