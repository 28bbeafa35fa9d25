-- ===== src/Ite/Combine.antt =====
-- From the results of the two recursive calls to the result of an ITE call.
use ibdd.Prelude.{
  ℕ, ◌^◌, ◌<◌, ◌≡◌, refl, sym, ◌∙◌, ap, subst, inl, inr, Bool, true, false, arith, ◌==◌, ==_iff,
  Bool-cases, if◌then◌else◌,
}
use ibdd.Platform.{Platform}
use ibdd.Cofactor.Shannon.{negate_if-Denotes}
use ibdd.Cofactor.{negate_if}
use ibdd.Diagram.Canonical.{eval-all_true}
use ibdd.Diagram.Cofactor.{cofactor, complement-cofactor, eval-negation}
use ibdd.Diagram.{
  Tree, leaf, node, Bdd, bdd, Assignment, flip_if, eval_tree, eval, top_tree, top, IsReduced,
}
use ibdd.Ite.Cache.{key_of, insert-Keeps}
use ibdd.Ite.Split.{half, half_lem, top_of, largest_lem, Args-extends}
use ibdd.Ite.Terminal.{Result}
use ibdd.Ite.{combine}
use ibdd.Standardize.Args.{Args}
use ibdd.Standardize.Setters.{eq_value}
use ibdd.Standardize.{Triple}
use ibdd.State.{State}
use ibdd.State.Rep.{Denotes-extends}
use ibdd.State.Returns.{Returns, returns, Keeps, bind, same}
use ibdd.State.Valid.{Denotes, IsIte, Valid}
use ibdd.Unique.Node.{find_add-Denotes}

eval-flip_if :
    (c : Bool) (e : Bdd) (ρ : Assignment)
    → eval (bdd (flip_if c e.complement) e.tree) ρ ≡ flip_if c (eval e ρ)
eval-flip_if true e ρ = eval-negation e ρ
eval-flip_if false e ρ = refl

-- The result behind the edge that `complementEdge` asks for.
pub negate_if-Result :
    {s : State} {w n : ℕ} {φ : Assignment → Bool} (c : Bool)
    → Result s w n φ
    → Result s (negate_if c w) n (λ ρ. flip_if c (φ ρ))
negate_if-Result c r = record {
  res = bdd (flip_if c r.res.complement) r.res.tree;
  denotes = negate_if-Denotes c r.denotes;
  bound = r.bound;
  value = λ ρ. eval-flip_if c r.res ρ ∙ ap (flip_if c) (r.value ρ);
}

module _ {s : State} {x : Triple} {n : ℕ} {φ : Assignment → Bool} (a : Args s x n φ) where
  -- The top variable is below the bound.
  pub top_of-lt_bound : top_of a < n
  top_of-lt_bound =
      let (lf, lg, lh, bound) = largest_lem (top a.f) (top a.g) (top a.h) in
      bound n a.f_lt a.g_lt a.h_lt

  -- The function of the call from its halves.
  pub from_halves :
      (ρ : Assignment) → φ ρ ≡ (if ρ (top_of a) then half a true ρ else half a false ρ)
  from_halves ρ = half_lem a ρ ∙ by_value (ρ (top_of a))
    where
      by_value : (b : Bool) → half a b ρ ≡ (if b then half a true ρ else half a false ρ)
      by_value true = refl
      by_value false = refl

  -- With f and g regular the high half is regular.
  pub half-regular :
      {s' : State} {w : ℕ}
      → a.f.complement ≡ false
      → a.g.complement ≡ false
      → (r : Result s' w (top_of a) (half a true)) → r.res.complement ≡ false
  half-regular rf rg r =
      let i = top_of a in
      let ef = eval-all_true (cofactor true i a.f) in
      let eg = eval-all_true (cofactor true i a.g) in
      let cf = complement-cofactor i a.f in
      let cg = complement-cofactor i a.g in ground (arith, r.value (λ _. true), eval-all_true r.res)

module _ ⦃m : Platform⦄ {s : State} (v : Valid s) {x : Triple} {n : ℕ} {φ : Assignment → Bool}
    (a : Args s x n φ) (pos : 0 < top a.f) {t e : ℕ} (rt : Result s t (top_of a) (half a true))
    (re : Result s e (top_of a) (half a false)) where
  -- `if (t == e)`: the call does not depend on the top variable.
  equal_halves : (t == e) ≡ true → Result s t n φ
  equal_halves y = record {
    res = rt.res;
    denotes = rt.denotes;
    bound = let b = rt.bound in let q = top_of-lt_bound a in omega arith;
    value = λ ρ.
        let ht = rt.value ρ in
        let he = re.value ρ in
        let te = eq_value rt.denotes re.denotes y ρ in
        by_value (ρ (top_of a)) ρ ht (te ∙ he) ∙ sym (from_halves a ρ);
  }
    where
      by_value :
          (b : Bool) (ρ : Assignment)
          → eval rt.res ρ ≡ half a true ρ
          → eval rt.res ρ ≡ half a false ρ
          → eval rt.res ρ ≡ (if b then half a true ρ else half a false ρ)
      by_value true ρ p q = p
      by_value false ρ p q = q

  -- The new node over both results.
  abbrev joined : Bdd
  joined = bdd false (node (top_of a) rt.res.tree re.res.complement re.res.tree)

  eval-joined : rt.res.complement ≡ false → (ρ : Assignment) → eval joined ρ ≡ φ ρ
  unfolding eval eval_tree
  eval-joined regular ρ = by_value (ρ (top_of a)) ∙ sym (from_halves a ρ)
    where
      high : eval_tree rt.res.tree ρ ≡ half a true ρ
      high = rw regular at (rt.value ρ)

      by_value :
          (b : Bool)
          → (if b
              then eval_tree rt.res.tree ρ
              else flip_if re.res.complement (eval_tree re.res.tree ρ))
            ≡ (if b then half a true ρ else half a false ρ)
      by_value true = high
      by_value false = re.value ρ

  joined-IsIte :
      {s' : State} {w : ℕ}
      → Keeps s s'
      → rt.res.complement ≡ false
      → Denotes s' w joined
      → IsIte s' (key_of x) w
  joined-IsIte k regular d =
      let b = Args-extends k.extends a in
      let (lf, lg, lh, bound) = largest_lem (top a.f) (top a.g) (top a.h) in
      record {
        f = a.f;
        g = a.g;
        h = a.h;
        res = joined;
        f_denotes = b.f_denotes;
        g_denotes = b.g_denotes;
        h_denotes = b.h_denotes;
        res_denotes = d;
        value = λ ρ. eval-joined regular ρ ∙ a.value ρ;
        bound = bound;
      }

  label-lt : (e : Tree) → IsReduced e → top_tree e < 2 ^ 16
  label-lt leaf r = omega arith
  label-lt (node i h c l) r = r.2

  top_of-lt : top_of a < 2 ^ 16
  top_of-lt =
      let (lf, lg, lh, bound) = largest_lem (top a.f) (top a.g) (top a.h) in
      bound (2 ^ 16) (label-lt a.f.tree a.f_denotes.reduced) (label-lt a.g.tree a.g_denotes.reduced)
        (label-lt a.h.tree a.h_denotes.reduced)

  -- The end of `ite`: the result, which is inserted into the computed table where it is a new call.
  pub combine-Result :
      (c : Bool)
      → rt.res.complement ≡ false
      → Returns s (λ w s'. Result s' w n (λ ρ. flip_if c (φ ρ))) (combine x c (top_of a) t e s)
  unfolding combine
  combine-Result c regular = elim (Bool-cases (t == e)) [
    | inl y ↦ rw (combine, y) (same v (negate_if-Result c (equal_halves y)))
    | inr differ ↦
        let dt : Denotes s t (bdd false rt.res.tree) =
          subst (λ b. Denotes s t (bdd b rt.res.tree)) regular rt.denotes in
        rw (combine, differ)
          (bind
            (find_add-Denotes v (top_of a) dt re.denotes rt.bound re.bound top_of-lt
              (λ q. clash (sym ((==_iff t e).1 q) ∙ differ)))
            λ w s₁ k₁ d.
              let (s₂, run, k₂) = insert-Keeps k₁.valid (key_of x) w (joined-IsIte k₁ regular d) in
              rw run (
                returns k₂ (
                  negate_if-Result c (record {
                    res = joined;
                    denotes = Denotes-extends k₂.extends d;
                    bound = top_of-lt_bound a;
                    value = eval-joined regular;
                  }))))
  ]
    where
      clash : true ≡ false → ⊥
      clash e = cc
