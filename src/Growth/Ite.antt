-- ===== src/Growth/Ite.antt =====
-- Manager::ite makes at most one DDNode at each of its calls, and it calls itself twice.
use ibdd.Prelude.{
  ℕ, zero, suc, ◌+◌, ◌<◌, ◌≤◌, ◌^◌, ◌≡◌, refl, inl, inr, Bool, arith, ◌==◌, Bool-cases,
}
use ibdd.CTable
use ibdd.Cofactor.{high, low}
use ibdd.Growth.{Grows, grown, Grows-le, and_then-Grows, bind-Grows, defined-Grows, find_add-Grows}
use ibdd.Ite.Split.{largest_lem}
use ibdd.Ite.{largest, insert, split, combine, ite_standard, ite}
use ibdd.Platform.{Platform}
use ibdd.Safety.Cache.{has_next-Below}
use ibdd.Safety.Cofactor.{get_cofactor-Below}
use ibdd.Safety.Ite.{IsSafeCall, ite-IsSafeCall}
use ibdd.Safety.Nodes.{Below-extends, get_index-Labelled}
use ibdd.Safety.Standardize.{AllBelow, standardize-AllBelow, is_terminal-Below}
use ibdd.Safety.{Labelled, Safe}
use ibdd.Standardize.{Triple, triple}
use ibdd.State.{State, M, and_then, ◌>>=◌, keys}
use ibdd.TableKey.{TableKey, table_key}

-- the calls of `ite` that nest up to n deep
abbrev pub calls : ℕ → ℕ
calls zero = 0
calls (suc n) = calls n + calls n + 1

calls_pow : (n : ℕ) → calls n + 1 ≡ 2 ^ n
calls_pow zero = refl
calls_pow (suc n) = let ih = calls_pow n in omega arith

-- A recursive call on arguments below k makes at most c DDNodes.
abbrev pub IsFrugal : ⦃m : Platform⦄ → (ℕ → ℕ → ℕ → M ℕ) → (k c : ℕ) → Type 0
IsFrugal ⦃m⦄ recur k c =
    (s : State) (b f g h : ℕ)
    → Safe s
    → b ≤ k
    → AllBelow s (triple f g h) b
    → Grows c s (recur f g h s)

module _ ⦃m : Platform⦄ where
  insert-Grows : (s : State) (k : TableKey) (r : ℕ) → Grows 0 s (insert k r s)
  unfolding insert
  insert-Grows s k r =
      and_then-Grows {j = 0} {k = 0} (defined-Grows s (CTable.insert keys s.c_table k r))
        (λ c s'. grown (omega arith))

  combine-Grows : (s : State) (x : Triple) (c : Bool) (i t e : ℕ) → Grows 1 s (combine x c i t e s)
  unfolding combine
  combine-Grows s x c i t e = elim (Bool-cases (t == e)) [
    | inl y ↦ rw (combine, y) (grown (omega arith))
    | inr n ↦
        rw (combine, n)
          (Grows-le {j = 1 + 0} 1 (omega arith) (
            and_then-Grows {j = 1} {k = 0} (find_add-Grows s i t e) λ p s'.
              and_then-Grows {j = 0} {k = 0} (insert-Grows s' (table_key x.f x.g x.h) p)
                (λ u s''. grown (omega arith))))
  ]

module _ ⦃m : Platform⦄ {s : State} (v : Safe s) {x : Triple} {i j k : ℕ} (af : Labelled s x.f i)
    (ag : Labelled s x.g j) (ah : Labelled s x.h k) (pos : 0 < i) where
  abbrev top : ℕ
  top = largest i j k

  split-Grows :
      (recur : ℕ → ℕ → ℕ → M ℕ) (c : ℕ)
      → IsSafeCall recur top
      → IsFrugal recur top c
      → Grows (c + c) s (split recur x s)
  unfolding split
  split-Grows recur c safe frugal =
      let (lf, lg, lh, bound) = largest_lem i j k in
      let pos' : 0 < top = omega arith in
      let (f1, rf1, df1) = get_cofactor-Below v top high af pos' lf in
      let (g1, rg1, dg1) = get_cofactor-Below v top high ag pos' lg in
      let (h1, rh1, dh1) = get_cofactor-Below v top high ah pos' lh in
      let (f0, rf0, df0) = get_cofactor-Below v top low af pos' lf in
      let (g0, rg0, dg0) = get_cofactor-Below v top low ag pos' lg in
      let (h0, rh0, dh0) = get_cofactor-Below v top low ah pos' lh in
      rw
        (
          get_index-Labelled v.heap af,
          and_then,
          get_index-Labelled v.heap ag,
          and_then,
          get_index-Labelled v.heap ah,
          and_then,
          rf1,
          and_then,
          rg1,
          and_then,
          rh1,
          and_then,
          rf0,
          and_then,
          rg0,
          and_then,
          rh0,
          and_then,
        )
        (bind-Grows (safe s top f1 g1 h1 v (omega arith) (df1, dg1, dh1))
          (frugal s top f1 g1 h1 v (omega arith) (df1, dg1, dh1))
          λ t s₁ k₁ dt.
            let x₁ = k₁.extends in
            Grows-le {j = c + 0} c (omega arith) (
              and_then-Grows {j = c} {k = 0}
                (frugal s₁ top f0 g0 h0 k₁.valid (omega arith)
                  (Below-extends x₁ df0, Below-extends x₁ dg0, Below-extends x₁ dh0))
                (λ e s₂. grown (omega arith))))

module _ ⦃m : Platform⦄ {s : State} (v : Safe s) {x : Triple} {n : ℕ} (a : AllBelow s x n) where
  ite_standard-Grows :
      (recur : ℕ → ℕ → ℕ → M ℕ) (d : ℕ) (c : Bool)
      → ((b : ℕ) → b < n → IsSafeCall recur b)
      → ((b : ℕ) → b < n → IsFrugal recur b d)
      → Grows (d + d + 1) s (ite_standard recur x c s)
  unfolding ite_standard
  ite_standard-Grows recur d c safe frugal =
      let ((i, af, lf), (j, ag, lg), (k, ah, lh)) = a in
      let (le_f, le_g, le_h, bound) = largest_lem i j k in
      let below : largest i j k < n = bound n lf lg lh in
      elim (is_terminal-Below v a af) [
        | inl (w, e, b) ↦
            rw (ite_standard, ◌>>=◌, and_then, ◌>>=◌, and_then, e) (grown (omega arith))
        | inr (e, pos) ↦
            rw (ite_standard, ◌>>=◌, and_then, ◌>>=◌, and_then, e)
              (elim (has_next-Below v {k = table_key x.f x.g x.h} (i, af, lf) (j, ag, lg)
                (k, ah, lh)) [
                  | inr (w, hit, b) ↦ rw hit (grown (omega arith))
                  | inl miss ↦ rw miss (
                      and_then-Grows {j = d + d} {k = 1}
                        (split-Grows v af ag ah pos recur d (safe (largest i j k) below)
                          (frugal (largest i j k) below))
                        λ (l, t, e) s₁. combine-Grows s₁ x c l t e)
                ])
      ]

module _ ⦃m : Platform⦄ where
  pub ite-IsFrugal : (fuel : ℕ) → IsFrugal (ite fuel) fuel (calls fuel)
  unfolding ite
  ite-IsFrugal zero s b f g h v le ((i, af, lf), dg, dh) = absurd (omega arith)
  ite-IsFrugal (suc fuel) s b f g h v le a =
      let (y, c, run, a') = standardize-AllBelow v.heap a in
      rw run (
        ite_standard-Grows v a' (ite fuel) (calls fuel) c
          (λ n lt s' b' f' g' h' v' le' a''.
            ite-IsSafeCall fuel s' b' f' g' h' v' (omega arith) a'')
          (λ n lt s' b' f' g' h' v' le' a''. ite-IsFrugal fuel s' b' f' g' h' v' (omega arith) a''))
