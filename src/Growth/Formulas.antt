-- ===== src/Growth/Formulas.antt =====
-- The DDNodes that the expression of a formula makes.
use ibdd.Prelude.{ℕ, zero, suc, ◌+◌, ◌<◌, ◌≤◌, ◌^◌, arith}
use ibdd.Diagram.Reference.{top-truth_diagram}
use ibdd.Diagram.{Bdd, top}
use ibdd.Growth.{Grows, grown, Grows-le, and_then-Grows, bind-Grows}
use ibdd.Growth.Ite.{calls, ite-IsFrugal}
use ibdd.Ite.Split.{largest_lem}
use ibdd.Ite.{largest}
use ibdd.Operators.Values.{Operator, run}
use ibdd.Operators.{call_ite}
use ibdd.Platform.{Platform}
use ibdd.Safety.Nodes.{Below-extends, get_index-Labelled}
use ibdd.Safety.Setup.{create_variable-Safe}
use ibdd.Safety.{Below, Safe}
use ibdd.Session.Ends.{run-call_ite}
use ibdd.Session.Formulas.{
  Formula, letter, negation, operation, choice, value, IsOver, build, IsSound, Letters,
  Letters-extends,
}
use ibdd.Session.Reference.{diagram, build-Denotes}
use ibdd.State.Valid.{Denotes, ValidHeap}
use ibdd.State.{State, and_then}
use ibdd.Unique.Node.{Rep-index}

-- at most `calls (n + 1)` for each operator
abbrev pub cost : ℕ → Formula → ℕ
cost n (letter i) = 0
cost n (negation a) = cost n a
cost n (operation o a b) = cost n a + (cost n b + calls (suc n))
cost n (choice a b c) = cost n a + (cost n b + (cost n c + calls (suc n)))

calls_mono : (k n : ℕ) → k ≤ n → calls k ≤ calls n
calls_mono zero n le = omega arith
calls_mono (suc k) zero le = absurd (omega arith)
calls_mono (suc k) (suc n) le = let ih = calls_mono k n (omega arith) in omega arith

module _ ⦃m : Platform⦄ {s : State} where
  Denotes-Below : {w n : ℕ} {e : Bdd} → ValidHeap s → Denotes s w e → top e ≤ n → Below s w (suc n)
  Denotes-Below {e = e} v d le =
      let (c, here, index) = Rep-index v e.tree d.node d.rep in
      (
        top e,
        record {
          node = d.node;
          complement = e.complement;
          word = d.word;
          cell = c;
          here = here;
          label = index;
        },
        omega arith,
      )

  call_ite-Grows :
      {f g h n : ℕ}
      → Safe s
      → Below s f n
      → Below s g n
      → Below s h n
      → Grows (calls n) s (call_ite f g h s)
  unfolding call_ite
  call_ite-Grows {f} {g} {h} {n} v (i, af, lf) (j, ag, lg) (k, ah, lh) =
      let top = suc (largest i j k) in
      let (le_f, le_g, le_h, bound) = largest_lem i j k in
      let below : largest i j k < n = bound n lf lg lh in
      rw
        (
          get_index-Labelled v.heap af,
          and_then,
          get_index-Labelled v.heap ag,
          and_then,
          get_index-Labelled v.heap ah,
        )
        (Grows-le (calls n) (calls_mono top n (omega arith)) (
          ite-IsFrugal top s top f g h v (omega arith)
            ((i, af, omega arith), (j, ag, omega arith), (k, ah, omega arith))))

  run-Grows :
      {f g n : ℕ} (o : Operator)
      → Safe s
      → Below s f n
      → Below s g n
      → Grows (calls n) s (run o f g s)
  run-Grows o v f g =
      let (a, b, c, same_run, (da, db, dc)) = run-call_ite v o f g in
      rw same_run (call_ite-Grows v da db dc)

module _ ⦃m : Platform⦄ {n : ℕ} (small : n < 2 ^ 16) where
  diagram-Below :
      {s : State} {w : ℕ} (a : Formula) → IsSound s → Denotes s w (diagram n a) → Below s w (suc n)
  diagram-Below a v d = Denotes-Below v.0.heap d (top-truth_diagram n (value a))

  pub build-Grows :
      {s : State} (a : Formula)
      → IsSound s
      → Letters n s
      → IsOver n a
      → Grows (cost n a) s (build a s)
  unfolding build
  build-Grows (letter i) v l (pos, le) =
      let (w, at, d) = l i pos le in
      let (run_it, b) = create_variable-Safe i v.0 at in rw run_it (grown (omega arith))
  build-Grows (negation a) v l over =
      Grows-le {j = cost n a + 0} (cost n a) (omega arith) (
        and_then-Grows {j = cost n a} {k = 0} (build-Grows a v l over)
          (λ f s'. grown (omega arith)))
  build-Grows (operation o a b) v l (over, over') =
      bind-Grows (build-Denotes a v l small over) (build-Grows a v l over) λ f s₁ k₁ d.
        let l₁ = Letters-extends k₁.extends n l in
        bind-Grows (build-Denotes b k₁.valid l₁ small over') (build-Grows b k₁.valid l₁ over')
          λ g s₂ k₂ e.
            run-Grows o k₂.valid.0 (Below-extends k₂.extends (diagram-Below a k₁.valid d))
              (diagram-Below b k₂.valid e)
  build-Grows (choice a b c) v l (over, over', over'') =
      bind-Grows (build-Denotes a v l small over) (build-Grows a v l over) λ f s₁ k₁ d.
        let l₁ = Letters-extends k₁.extends n l in
        bind-Grows (build-Denotes b k₁.valid l₁ small over') (build-Grows b k₁.valid l₁ over')
          λ g s₂ k₂ e.
            let l₂ = Letters-extends k₂.extends n l₁ in
            bind-Grows (build-Denotes c k₂.valid l₂ small over'') (build-Grows c k₂.valid l₂ over'')
              λ h s₃ k₃ j.
                call_ite-Grows k₃.valid.0
                  (Below-extends k₃.extends (Below-extends k₂.extends (diagram-Below a k₁.valid d)))
                  (Below-extends k₃.extends (diagram-Below b k₂.valid e))
                  (diagram-Below c k₃.valid j)
