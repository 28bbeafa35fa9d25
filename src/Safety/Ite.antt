-- ===== src/Safety/Ite.antt =====
-- Manager::ite in a safe state: it terminates, and its result is not labelled above its arguments.
use ibdd.Prelude.{ℕ, zero, suc, ◌<◌, ◌≤◌, ◌^◌, ◌≡◌, refl, inl, inr, Bool, arith, ◌==◌, Bool-cases}
use ibdd.Cofactor.{high, low}
use ibdd.Ite.Split.{largest_lem}
use ibdd.Ite.{largest, split, combine, ite_standard, ite}
use ibdd.Operators.{call_ite}
use ibdd.Platform.{Platform}
use ibdd.Safety.Cache.{has_next-Below, insert-Safe}
use ibdd.Safety.Cofactor.{Below-negate_if, get_cofactor-Below}
use ibdd.Safety.FindAdd.{find_add-Safe, regular-Labelled}
use ibdd.Safety.Nodes.{Labelled-extends, Below-extends, Below-le, get_index-Labelled, label-lt}
use ibdd.Safety.Standardize.{AllBelow, standardize-AllBelow, is_terminal-Below}
use ibdd.Safety.{Labelled, Below, Safe}
use ibdd.Standardize.{Triple, triple}
use ibdd.State.Returns.{Ends, returns, same, bind, mono}
use ibdd.State.{State, M, and_then, ◌>>=◌}
use ibdd.TableKey.{table_key}
use ibdd.Unique.Finds.{triple as node_of}

-- A recursive call on arguments below k ends, with a result below their bound.
abbrev pub IsSafeCall : ⦃m : Platform⦄ → (ℕ → ℕ → ℕ → M ℕ) → ℕ → Type 0
IsSafeCall ⦃m⦄ recur k =
    (s : State) (b f g h : ℕ)
    → Safe s
    → b ≤ k
    → AllBelow s (triple f g h) b
    → Ends Safe s (λ w s'. Below s' w b) (recur f g h s)

module _ ⦃m : Platform⦄ {s : State} (v : Safe s) {x : Triple} {i j k : ℕ} (af : Labelled s x.f i)
    (ag : Labelled s x.g j) (ah : Labelled s x.h k) (pos : 0 < i) where
  abbrev pub top : ℕ
  top = largest i j k

  abbrev pub Splits : ℕ × ℕ × ℕ → State → Type 0
  Splits (l, t, e) s' = (l ≡ top) × Below s' t top × Below s' e top

  split-Safe :
      (recur : ℕ → ℕ → ℕ → M ℕ) → IsSafeCall recur top → Ends Safe s Splits (split recur x s)
  unfolding split
  split-Safe recur safe =
      let (lf, lg, lh, bound) = largest_lem i j k in
      let pos' : 0 < top = omega arith in
      let (f1, rf1, df1) = get_cofactor-Below v top high af pos' lf in
      let (g1, rg1, dg1) = get_cofactor-Below v top high ag pos' lg in
      let (h1, rh1, dh1) = get_cofactor-Below v top high ah pos' lh in
      let (f0, rf0, df0) = get_cofactor-Below v top low af pos' lf in
      let (g0, rg0, dg0) = get_cofactor-Below v top low ag pos' lg in
      let (h0, rh0, dh0) = get_cofactor-Below v top low ah pos' lh in
      rw
        (
          get_index-Labelled v.heap af,
          and_then,
          get_index-Labelled v.heap ag,
          and_then,
          get_index-Labelled v.heap ah,
          and_then,
          rf1,
          and_then,
          rg1,
          and_then,
          rh1,
          and_then,
          rf0,
          and_then,
          rg0,
          and_then,
          rh0,
          and_then,
        )
        (bind (safe s top f1 g1 h1 v (omega arith) (df1, dg1, dh1)) λ t s₁ k₁ dt.
          let x₁ = k₁.extends in
          bind
            (safe s₁ top f0 g0 h0 k₁.valid (omega arith)
              (Below-extends x₁ df0, Below-extends x₁ dg0, Below-extends x₁ dh0))
            λ e s₂ k₂ de. same k₂.valid (refl, Below-extends k₂.extends dt, de))

  combine-Safe :
      {t e n : ℕ} (c : Bool)
      → i < n
      → j < n
      → k < n
      → Below s t top
      → Below s e top
      → Ends Safe s (λ w s'. Below s' w n) (combine x c top t e s)
  unfolding combine
  combine-Safe {t} {e} {n} c lf lg lh dt de =
      let (le_f, le_g, le_h, bound) = largest_lem i j k in
      let small = bound (2 ^ 16) (label-lt v af) (label-lt v ag) (label-lt v ah) in
      let lt = bound n lf lg lh in
      elim (Bool-cases (t == e)) [
        | inl y ↦ rw (combine, y) (same v (Below-negate_if v.heap c (Below-le n (omega arith) dt)))
        | inr z ↦
            rw (combine, z)
              (bind (find_add-Safe v small dt de) λ p s₁ k₁ (cell, others).
                let a = regular-Labelled k₁.valid.heap p (node_of top t e) cell in
                let (s₂, run, k₂) = insert-Safe k₁.valid (table_key x.f x.g x.h) p (record {
                  f = i;
                  g = j;
                  h = k;
                  res = top;
                  f_labelled = Labelled-extends k₁.extends af;
                  g_labelled = Labelled-extends k₁.extends ag;
                  h_labelled = Labelled-extends k₁.extends ah;
                  res_labelled = a;
                  bound = bound;
                }) in
                rw run (
                  returns k₂
                    (Below-negate_if k₂.valid.heap c (top, Labelled-extends k₂.extends a, lt))))
      ]

module _ ⦃m : Platform⦄ {s : State} (v : Safe s) {x : Triple} {n : ℕ} (a : AllBelow s x n) where
  ite_standard-Safe :
      (recur : ℕ → ℕ → ℕ → M ℕ) (c : Bool)
      → ((b : ℕ) → b < n → IsSafeCall recur b)
      → Ends Safe s (λ w s'. Below s' w n) (ite_standard recur x c s)
  unfolding ite_standard
  ite_standard-Safe recur c safe =
      let ((i, af, lf), (j, ag, lg), (k, ah, lh)) = a in
      let (le_f, le_g, le_h, bound) = largest_lem i j k in
      let below : largest i j k < n = bound n lf lg lh in
      elim (is_terminal-Below v a af) [
        | inl (w, e, d) ↦
            rw (ite_standard, ◌>>=◌, and_then, ◌>>=◌, and_then, e)
              (same v (Below-negate_if v.heap c d))
        | inr (e, pos) ↦
            rw (ite_standard, ◌>>=◌, and_then, ◌>>=◌, and_then, e)
              (elim (has_next-Below v {k = table_key x.f x.g x.h} (i, af, lf) (j, ag, lg)
                (k, ah, lh)) [
                  | inr (w, hit, d) ↦ rw hit (same v (Below-negate_if v.heap c d))
                  | inl miss ↦ rw miss (
                      bind (split-Safe v af ag ah pos recur (safe (largest i j k) below))
                        λ (l, t, e) s₁ k₁ (same_top, dt, de).
                          let x₁ = k₁.extends in
                          rw same_top (
                            combine-Safe k₁.valid (Labelled-extends x₁ af) (Labelled-extends x₁ ag)
                              (Labelled-extends x₁ ah) pos c lf lg lh dt de))
                ])
      ]

module _ ⦃m : Platform⦄ where
  -- More fuel than the labels of its arguments is enough, whatever the computed table holds.
  pub ite-IsSafeCall : (fuel : ℕ) → IsSafeCall (ite fuel) fuel
  unfolding ite
  ite-IsSafeCall zero s b f g h v le ((i, af, lf), dg, dh) = absurd (omega arith)
  ite-IsSafeCall (suc fuel) s b f g h v le a =
      let (y, c, run, a') = standardize-AllBelow v.heap a in
      rw run (
        ite_standard-Safe v a' (ite fuel) c
          λ n lt s' b' f' g' h' v' le' a''. ite-IsSafeCall fuel s' b' f' g' h' v' (omega arith) a'')

  -- In a safe state a call of `ite` on three BDDNodes with labels below a bound, with the fuel
  -- that the labels ask for and whatever the computed table holds, returns a BDDNode with a label
  -- below the bound, in a safe state that keeps every node, or `new` throws with the memory
  -- exhausted.
  pub call_ite-Safe :
      {s : State} {f g h n : ℕ}
      → Safe s
      → Below s f n
      → Below s g n
      → Below s h n
      → Ends Safe s (λ w s'. Below s' w n) (call_ite f g h s)
  unfolding call_ite
  call_ite-Safe {s} {f} {g} {h} {n} v (i, af, lf) (j, ag, lg) (k, ah, lh) =
      let top = suc (largest i j k) in
      let (le_f, le_g, le_h, bound) = largest_lem i j k in
      let below : largest i j k < n = bound n lf lg lh in
      rw
        (
          get_index-Labelled v.heap af,
          and_then,
          get_index-Labelled v.heap ag,
          and_then,
          get_index-Labelled v.heap ah,
        )
        (mono
          (ite-IsSafeCall top s top f g h v (omega arith)
            ((i, af, omega arith), (j, ag, omega arith), (k, ah, omega arith)))
          λ w s' l d. returns l (Below-le n (omega arith) d))
