-- ===== src/Safety/Walks.antt =====
-- Every BDDNode of a safe state is the root of labels that fall, so the walks over it end.
use ibdd.Prelude.{
  ℕ, zero, suc, ◌<◌, ◌≡◌, refl, sym, ◌∙◌, ap, inl, inr, arith, ◌==◌, ==_iff, Bool-cases,
}
use ibdd.Marks.Shapes.{point, fork, label, Spanned}
use ibdd.Platform.{Platform}
use ibdd.Safety.Nodes.{ptr-Labelled, not_leaf, label_zero}
use ibdd.Safety.{Labelled, Safe}
use ibdd.State.{State}
use ibdd.Word.{ptr}

module _ ⦃m : Platform⦄ {s : State} (v : Safe s) where
  Labelled-Spanned_below :
      (n w i : ℕ) → Labelled s w i → i < n → (x : Spanned s w) × (label x.shape ≡ i)
  Labelled-Spanned_below zero w i a lt = absurd (omega arith)
  Labelled-Spanned_below (suc n) w i a lt = elim (Bool-cases (i == 0)) [
    | inl y ↦
        let at : ptr w ≡ s.leaf = ptr-Labelled v.heap a ∙ label_zero v a ((==_iff i 0).0 y) in
        (record { shape = point; spans = at; ordered = tt }, sym ((==_iff i 0).0 y))
    | inr k ↦
        let at = ptr-Labelled v.heap a in
        let ne = not_leaf v a (ground arith) in
        let here = ap s.cell at ∙ a.here in
        let (low, high) = v.children a.node a.cell a.here ne in
        let same = a.label in
        let (j, b, low_lt) = low in
        let (j', b', high_lt) = high in
        let (x, low_label) = Labelled-Spanned_below n a.cell.low j b (omega arith) in
        let (x', high_label) = Labelled-Spanned_below n a.cell.high j' b' (omega arith) in
        (
          record {
            shape = fork i x'.shape x.shape;
            spans = (a.cell, here, (λ e. ne (sym at ∙ e)), a.label, x'.spans, x.spans);
            ordered = (omega arith, omega arith, x'.ordered, x.ordered);
          },
          refl,
        )
  ]

  pub Labelled-Spanned : {w i : ℕ} → Labelled s w i → Spanned s w
  Labelled-Spanned {w} {i} a = (Labelled-Spanned_below (suc i) w i a (omega arith)).0
