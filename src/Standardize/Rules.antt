-- ===== src/Standardize/Rules.antt =====
-- Each rule of `standardize` keeps the function of the call; the last ones make f and g regular.
use ibdd.Prelude.{ℕ, ◌≡◌, refl, inl, inr, Bool, true, arith, ltb, ◌==◌, Bool-cases, if◌then◌else◌}
use ibdd.Platform.{Platform}
use ibdd.Diagram.{Bdd, Assignment, top}
use ibdd.Diagram.Cofactor.{negation, eval-negation}
use ibdd.Standardize.{
  Triple, identical, above, swap_or, swap_less, swap_xnor, swap_implies, swap_and, symmetrical,
}
use ibdd.Standardize.Args.{Args, eval-one, eval-zero}
use ibdd.State.{State, Outcome, ok, ◌>>=◌}
use ibdd.State.Rep.{Denotes-negate}
use ibdd.State.Valid.{Denotes, Valid}
use ibdd.Unique.Node.{terminal1-Denotes, terminal0-Denotes, get_index-Denotes}
use ibdd.Word.{negate}
use ibdd.Standardize.Setters.{eq_value, set_g, set_h}

module _ ⦃m : Platform⦄ {s : State} (v : Valid s) {x : Triple} {n : ℕ} {φ : Assignment → Bool}
    (a : Args s x n φ) where
  f_eq_g : (x.f == x.g) ≡ true → Args s (record x { g = s.terminal1 }) n φ
  f_eq_g y =
      set_g a (terminal1-Denotes v.heap) (let h = a.f_lt in omega arith)
        (λ ρ. ground (arith, eval-one ρ, eq_value a.f_denotes a.g_denotes y ρ))

  f_eq_h : (x.f == x.h) ≡ true → Args s (record x { h = s.terminal0 }) n φ
  f_eq_h y =
      set_h a (terminal0-Denotes v.heap) (let h = a.f_lt in omega arith)
        (λ ρ. ground (arith, eval-zero ρ, eq_value a.f_denotes a.h_denotes y ρ))

  f_eq_not_h : (x.f == negate x.h) ≡ true → Args s (record x { h = s.terminal1 }) n φ
  f_eq_not_h y = set_h a (terminal1-Denotes v.heap) (let h = a.f_lt in omega arith) λ ρ. ground (
    arith,
    eval-one ρ,
    eval-negation a.h ρ,
    eq_value a.f_denotes (Denotes-negate a.h_denotes) y ρ,
  )

  f_eq_not_g : (x.f == negate x.g) ≡ true → Args s (record x { g = s.terminal0 }) n φ
  f_eq_not_g y = set_g a (terminal0-Denotes v.heap) (let h = a.f_lt in omega arith) λ ρ. ground (
    arith,
    eval-zero ρ,
    eval-negation a.g ρ,
    eq_value a.f_denotes (Denotes-negate a.g_denotes) y ρ,
  )

  -- identical rules
  pub identical-Args : Args s (identical s.terminal1 s.terminal0 x) n φ
  unfolding identical
  identical-Args = elim (Bool-cases (x.f == x.g)) [
    | inl y ↦ rw y (f_eq_g y)
    | inr n₁ ↦ rw n₁ (elim (Bool-cases (x.f == x.h)) [
      | inl y ↦ rw y (f_eq_h y)
      | inr n₂ ↦ rw n₂ (elim (Bool-cases (x.f == negate x.h)) [
        | inl y ↦ rw y (f_eq_not_h y)
        | inr n₃ ↦ rw n₃ (elim (Bool-cases (x.f == negate x.g)) [
          | inl y ↦ rw y (f_eq_not_g y)
          | inr n₄ ↦ rw n₄ a
        ])
      ])
    ])
  ]

  -- ite(f, 1, h) = ite(h, 1, f)
  swap_or-Args : (x.g == s.terminal1) ≡ true → Args s (swap_or x) n φ
  unfolding swap_or
  swap_or-Args y = record {
    f = a.h;
    g = a.g;
    h = a.f;
    f_denotes = a.h_denotes;
    g_denotes = a.g_denotes;
    h_denotes = a.f_denotes;
    f_lt = a.h_lt;
    g_lt = a.g_lt;
    h_lt = a.f_lt;
    value = λ ρ.
        ground (arith, a.value ρ, eval-one ρ, eq_value a.g_denotes (terminal1-Denotes v.heap) y ρ);
  }

  -- ite(f, 0, h) = ite(h', 0, f')
  swap_less-Args : (x.g == s.terminal0) ≡ true → Args s (swap_less x) n φ
  unfolding swap_less
  swap_less-Args y = record {
    f = negation a.h;
    g = a.g;
    h = negation a.f;
    f_denotes = Denotes-negate a.h_denotes;
    g_denotes = a.g_denotes;
    h_denotes = Denotes-negate a.f_denotes;
    f_lt = a.h_lt;
    g_lt = a.g_lt;
    h_lt = a.f_lt;
    value = λ ρ. ground (
      arith,
      a.value ρ,
      eval-zero ρ,
      eval-negation a.h ρ,
      eval-negation a.f ρ,
      eq_value a.g_denotes (terminal0-Denotes v.heap) y ρ,
    );
  }

  -- ite(f, g, g') = ite(g, f, f')
  swap_xnor-Args : (x.g == negate x.h) ≡ true → Args s (swap_xnor x) n φ
  unfolding swap_xnor
  swap_xnor-Args y = record {
    f = a.g;
    g = a.f;
    h = negation a.f;
    f_denotes = a.g_denotes;
    g_denotes = a.f_denotes;
    h_denotes = Denotes-negate a.f_denotes;
    f_lt = a.g_lt;
    g_lt = a.f_lt;
    h_lt = a.f_lt;
    value = λ ρ. ground (
      arith,
      a.value ρ,
      eval-negation a.h ρ,
      eval-negation a.f ρ,
      eq_value a.g_denotes (Denotes-negate a.h_denotes) y ρ,
    );
  }

  -- ite(f, g, 1) = ite(g', f', 1)
  swap_implies-Args : (x.h == s.terminal1) ≡ true → Args s (swap_implies x) n φ
  unfolding swap_implies
  swap_implies-Args y = record {
    f = negation a.g;
    g = negation a.f;
    h = a.h;
    f_denotes = Denotes-negate a.g_denotes;
    g_denotes = Denotes-negate a.f_denotes;
    h_denotes = a.h_denotes;
    f_lt = a.g_lt;
    g_lt = a.f_lt;
    h_lt = a.h_lt;
    value = λ ρ. ground (
      arith,
      a.value ρ,
      eval-one ρ,
      eval-negation a.g ρ,
      eval-negation a.f ρ,
      eq_value a.h_denotes (terminal1-Denotes v.heap) y ρ,
    );
  }

  -- ite(f, g, 0) = ite(g, f, 0)
  swap_and-Args : (x.h == s.terminal0) ≡ true → Args s (swap_and x) n φ
  unfolding swap_and
  swap_and-Args y = record {
    f = a.g;
    g = a.f;
    h = a.h;
    f_denotes = a.g_denotes;
    g_denotes = a.f_denotes;
    h_denotes = a.h_denotes;
    f_lt = a.g_lt;
    g_lt = a.f_lt;
    h_lt = a.h_lt;
    value = λ ρ.
        ground (arith, a.value ρ, eval-zero ρ, eq_value a.h_denotes (terminal0-Denotes v.heap) y ρ);
  }

  -- a swap or none, after a comparison of two labels
  abbrev pub Chosen : Outcome Triple → Type 0
  Chosen r = (y : Triple) × (r ≡ ok y s) × Args s y n φ

  chosen :
      {w w' : ℕ} {d e : Bdd} {y : Triple}
      → Denotes s w d
      → Denotes s w' e
      → Args s y n φ
      → Chosen ((above w w' >>= (λ over. ok (if over then y else x))) s)
  unfolding above
  chosen {d} {e} {y} p q b = (
    (if ltb (top e) (top d) then y else x),
    rw (get_index-Denotes v.heap p, get_index-Denotes v.heap q),
    (elim (Bool-cases (ltb (top e) (top d))) [ inl t ↦ rw t b | inr f ↦ rw f a ]),
  )

  -- symmetrical rules
  pub symmetrical-Args : Chosen (symmetrical s.terminal1 s.terminal0 x s)
  unfolding symmetrical
  symmetrical-Args = elim (Bool-cases (x.g == s.terminal1)) [
    | inl y ↦ rw y (chosen a.f_denotes a.h_denotes (swap_or-Args y))
    | inr n₁ ↦ rw n₁ (elim (Bool-cases (x.g == s.terminal0)) [
      | inl y ↦ rw y (chosen a.f_denotes a.h_denotes (swap_less-Args y))
      | inr n₂ ↦ rw n₂ (elim (Bool-cases (x.g == negate x.h)) [
        | inl y ↦ rw y (chosen a.f_denotes a.g_denotes (swap_xnor-Args y))
        | inr n₃ ↦ rw n₃ (elim (Bool-cases (x.h == s.terminal1)) [
          | inl y ↦ rw y (chosen a.f_denotes a.g_denotes (swap_implies-Args y))
          | inr n₄ ↦ rw n₄ (elim (Bool-cases (x.h == s.terminal0)) [
            | inl y ↦ rw y (chosen a.f_denotes a.g_denotes (swap_and-Args y))
            | inr n₅ ↦ rw n₅ (x, refl, a)
          ])
        ])
      ])
    ])
  ]
