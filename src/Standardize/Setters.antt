-- ===== src/Standardize/Setters.antt =====
-- An argument of a call may be exchanged for another that gives the same function.
use ibdd.Prelude.{ℕ, ◌<◌, ◌≡◌, sym, ◌∙◌, ap, subst, Bool, true, ◌==◌, ==_iff}
use ibdd.Diagram.{Bdd, Assignment, eval, top}
use ibdd.Standardize.{Triple}
use ibdd.Standardize.Args.{Args}
use ibdd.State.{State}
use ibdd.State.Rep.{Denotes-unique}
use ibdd.State.Valid.{Denotes, ite_value}

-- equal words, equal functions
pub eq_value :
    {s : State} {w w' : ℕ} {d e : Bdd}
    → Denotes s w d
    → Denotes s w' e
    → (w == w') ≡ true
    → (ρ : Assignment) → eval d ρ ≡ eval e ρ
eq_value {s} {w} {w'} {d} {e} x y test ρ =
    let q = (==_iff w w').0 test in
    ap (λ b. eval b ρ) (Denotes-unique d e x (subst (λ z. Denotes s z e) (sym q) y))

module _ {s : State} {x : Triple} {n : ℕ} {φ : Assignment → Bool} (a : Args s x n φ) where
  pub set_g :
      {w : ℕ} {e : Bdd}
      → Denotes s w e
      → top e < n
      → ((ρ : Assignment)
          → ite_value (eval a.f ρ) (eval a.g ρ) (eval a.h ρ)
            ≡ ite_value (eval a.f ρ) (eval e ρ) (eval a.h ρ))
      → Args s (record x { g = w }) n φ
  set_g {e} d lt same = record {
    f = a.f;
    g = e;
    h = a.h;
    f_denotes = a.f_denotes;
    g_denotes = d;
    h_denotes = a.h_denotes;
    f_lt = a.f_lt;
    g_lt = lt;
    h_lt = a.h_lt;
    value = λ ρ. a.value ρ ∙ same ρ;
  }

  pub set_h :
      {w : ℕ} {e : Bdd}
      → Denotes s w e
      → top e < n
      → ((ρ : Assignment)
          → ite_value (eval a.f ρ) (eval a.g ρ) (eval a.h ρ)
            ≡ ite_value (eval a.f ρ) (eval a.g ρ) (eval e ρ))
      → Args s (record x { h = w }) n φ
  set_h {e} d lt same = record {
    f = a.f;
    g = a.g;
    h = e;
    f_denotes = a.f_denotes;
    g_denotes = a.g_denotes;
    h_denotes = d;
    f_lt = a.f_lt;
    g_lt = a.g_lt;
    h_lt = lt;
    value = λ ρ. a.value ρ ∙ same ρ;
  }
