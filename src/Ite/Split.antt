-- ===== src/Ite/Split.antt =====
-- The Shannon decomposition of an ITE call, and its two recursive calls.
use ibdd.Prelude.{ℕ, ◌<◌, ◌≤◌, ◌≡◌, refl, ◌∙◌, Bool, true, false, arith}
use ibdd.Platform.{Platform}
use ibdd.Cofactor.{low, high}
use ibdd.Cofactor.Shannon.{get_cofactor-Denotes}
use ibdd.Diagram.{Bdd, Assignment, eval, top, IsReduced}
use ibdd.Diagram.Cofactor.{cofactor, eval-cofactor, top-cofactor}
use ibdd.Ite.Terminal.{Result}
use ibdd.Ite.{largest, split}
use ibdd.Standardize.{Triple, triple}
use ibdd.Standardize.Args.{Args}
use ibdd.State.{State, M, and_then}
use ibdd.State.Rep.{Denotes-extends}
use ibdd.State.Returns.{Returns, bind, same}
use ibdd.State.Valid.{Extends, Valid, ite_value}
use ibdd.Unique.Node.{get_index-Denotes}

pub largest_lem :
    (i j k : ℕ)
    → (i ≤ largest i j k)
      × (j ≤ largest i j k)
      × (k ≤ largest i j k)
      × ((n : ℕ) → i < n → j < n → k < n → largest i j k < n)
unfolding largest
largest_lem i j k = (ground arith, ground arith, ground arith, λ n p q r. ground arith)

pub Result-extends :
    {s s' : State} {w n : ℕ} {φ : Assignment → Bool}
    → Extends s s'
    → Result s w n φ
    → Result s' w n φ
Result-extends x r = record {
  res = r.res;
  denotes = Denotes-extends x r.denotes;
  bound = r.bound;
  value = r.value;
}

abbrev pub Args-extends :
    {s s' : State} {x : Triple} {n : ℕ} {φ : Assignment → Bool}
    → Extends s s'
    → Args s x n φ
    → Args s' x n φ
Args-extends x a = record {
  f = a.f;
  g = a.g;
  h = a.h;
  f_denotes = Denotes-extends x a.f_denotes;
  g_denotes = Denotes-extends x a.g_denotes;
  h_denotes = Denotes-extends x a.h_denotes;
  f_lt = a.f_lt;
  g_lt = a.g_lt;
  h_lt = a.h_lt;
  value = a.value;
}

-- A recursive call is right on arguments below k.
abbrev pub IsRight : ⦃m : Platform⦄ → (ℕ → ℕ → ℕ → M ℕ) → ℕ → Type 0
IsRight ⦃m⦄ recur k =
    (s : State) (b f g h : ℕ) (φ : Assignment → Bool)
    → Valid s
    → b ≤ k
    → Args s (triple f g h) b φ
    → Returns s (λ w s'. Result s' w b φ) (recur f g h s)

-- The function of the call where the top variable is b.
abbrev pub half :
    {s : State} {x : Triple} {n : ℕ} {φ : Assignment → Bool}
    → Args s x n φ
    → Bool
    → Assignment
    → Bool
half a b ρ =
    let i = largest (top a.f) (top a.g) (top a.h) in
    ite_value (eval (cofactor b i a.f) ρ) (eval (cofactor b i a.g) ρ) (eval (cofactor b i a.h) ρ)

abbrev pub top_of : {s : State} {x : Triple} {n : ℕ} {φ : Assignment → Bool} → Args s x n φ → ℕ
top_of a = largest (top a.f) (top a.g) (top a.h)

pub half_lem :
    {s : State} {x : Triple} {n : ℕ} {φ : Assignment → Bool} (a : Args s x n φ) (ρ : Assignment)
    → φ ρ ≡ half a (ρ (top_of a)) ρ
half_lem a ρ =
    let i = top_of a in
    a.value ρ
    ∙ (λ j. ite_value (eval-cofactor i a.f ρ j) (eval-cofactor i a.g ρ j) (eval-cofactor i a.h ρ j))

module _ ⦃m : Platform⦄ {s : State} (v : Valid s) {x : Triple} {n : ℕ} {φ : Assignment → Bool}
    (a : Args s x n φ) (pos : 0 < top a.f) where
  abbrev pub Halves : ℕ × ℕ × ℕ → State → Type 0
  Halves (i, t, e) s' =
      (i ≡ top_of a) × Result s' t (top_of a) (half a true) × Result s' e (top_of a) (half a false)

  -- Both calls get the cofactors, below the top variable.
  pub split-Halves :
      (recur : ℕ → ℕ → ℕ → M ℕ) → IsRight recur (top_of a) → Returns s Halves (split recur x s)
  unfolding split
  split-Halves recur right =
      let i = top_of a in
      let (lf, lg, lh, bound) = largest_lem (top a.f) (top a.g) (top a.h) in
      let pos' : 0 < i = omega arith in
      let (f1, rf1, df1) = get_cofactor-Denotes v.heap i high a.f_denotes pos' lf in
      let (g1, rg1, dg1) = get_cofactor-Denotes v.heap i high a.g_denotes pos' lg in
      let (h1, rh1, dh1) = get_cofactor-Denotes v.heap i high a.h_denotes pos' lh in
      let (f0, rf0, df0) = get_cofactor-Denotes v.heap i low a.f_denotes pos' lf in
      let (g0, rg0, dg0) = get_cofactor-Denotes v.heap i low a.g_denotes pos' lg in
      let (h0, rh0, dh0) = get_cofactor-Denotes v.heap i low a.h_denotes pos' lh in
      let below = λ (b : Bool) (e : Bdd) (r : IsReduced e.tree) (l : top e ≤ i).
        top-cofactor b i e r pos' l in
      let highs : Args s (triple f1 g1 h1) i (half a true) = record {
        f = cofactor true i a.f;
        g = cofactor true i a.g;
        h = cofactor true i a.h;
        f_denotes = df1;
        g_denotes = dg1;
        h_denotes = dh1;
        f_lt = below true a.f a.f_denotes.reduced lf;
        g_lt = below true a.g a.g_denotes.reduced lg;
        h_lt = below true a.h a.h_denotes.reduced lh;
        value = λ ρ. refl;
      } in
      let lows : Args s (triple f0 g0 h0) i (half a false) = record {
        f = cofactor false i a.f;
        g = cofactor false i a.g;
        h = cofactor false i a.h;
        f_denotes = df0;
        g_denotes = dg0;
        h_denotes = dh0;
        f_lt = below false a.f a.f_denotes.reduced lf;
        g_lt = below false a.g a.g_denotes.reduced lg;
        h_lt = below false a.h a.h_denotes.reduced lh;
        value = λ ρ. refl;
      } in
      rw
        (
          get_index-Denotes v.heap a.f_denotes,
          and_then,
          get_index-Denotes v.heap a.g_denotes,
          and_then,
          get_index-Denotes v.heap a.h_denotes,
          and_then,
          rf1,
          and_then,
          rg1,
          and_then,
          rh1,
          and_then,
          rf0,
          and_then,
          rg0,
          and_then,
          rh0,
        )
        (bind (right s i f1 g1 h1 (half a true) v (omega arith) highs) λ t s₁ k₁ rt.
          bind
            (right s₁ i f0 g0 h0 (half a false) k₁.valid (omega arith)
              (Args-extends k₁.extends lows))
            λ e s₂ k₂ re. same k₂.valid (refl, Result-extends k₂.extends rt, re))
