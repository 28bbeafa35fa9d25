-- ===== src/Ite/Terminal.antt =====
-- isTerminal is right, and a call that it leaves open does not have a leaf for f.
use ibdd.Prelude.{
  ℕ, ◌<◌, ◌≡◌, ◌⊎◌, refl, sym, ◌∙◌, inl, inr, Bool, true, false, ◌&&◌, none, some, arith, ◌==◌,
  ==_iff, Bool-cases,
}
use ibdd.Platform.{Platform}
use ibdd.Diagram.{Tree, leaf, node, Bdd, bdd, Assignment, eval, top_tree, top}
use ibdd.Ite.{is_terminal}
use ibdd.Standardize.{Triple}
use ibdd.Standardize.Args.{Args, eval-one, eval-zero}
use ibdd.Standardize.Setters.{eq_value}
use ibdd.State.{State}
use ibdd.State.Unique.{Denotes-injective}
use ibdd.State.Valid.{Denotes, Valid}
use ibdd.Unique.Node.{terminal1-Denotes, terminal0-Denotes}

-- w is a BDDNode of the function φ, below the bound.
pub record Result (s : State) (w n : ℕ) (φ : Assignment → Bool) : Type 0 where
  pub res : Bdd
  pub denotes : Denotes s w res
  pub bound : top res < n
  pub value : (ρ : Assignment) → eval res ρ ≡ φ ρ

module _ ⦃m : Platform⦄ {s : State} (v : Valid s) {x : Triple} {n : ℕ} {φ : Assignment → Bool}
    (a : Args s x n φ) where
  f_one : (x.f == s.terminal1) ≡ true → Result s x.g n φ
  f_one y = record {
    res = a.g;
    denotes = a.g_denotes;
    bound = a.g_lt;
    value = λ ρ.
        ground (arith, a.value ρ, eval-one ρ, eq_value a.f_denotes (terminal1-Denotes v.heap) y ρ);
  }

  f_zero : (x.f == s.terminal0) ≡ true → Result s x.h n φ
  f_zero y = record {
    res = a.h;
    denotes = a.h_denotes;
    bound = a.h_lt;
    value = λ ρ.
        ground (arith, a.value ρ, eval-zero ρ, eq_value a.f_denotes (terminal0-Denotes v.heap) y ρ);
  }

  itself : (x.h == s.terminal0) ≡ true → (x.g == s.terminal1) ≡ true → Result s x.f n φ
  itself y z = record {
    res = a.f;
    denotes = a.f_denotes;
    bound = a.f_lt;
    value = λ ρ. ground (
      arith,
      a.value ρ,
      eval-zero ρ,
      eval-one ρ,
      eq_value a.h_denotes (terminal0-Denotes v.heap) y ρ,
      eq_value a.g_denotes (terminal1-Denotes v.heap) z ρ,
    );
  }

  g_eq_h : (x.g == x.h) ≡ true → Result s x.g n φ
  g_eq_h y = record {
    res = a.g;
    denotes = a.g_denotes;
    bound = a.g_lt;
    value = λ ρ. ground (arith, a.value ρ, eq_value a.g_denotes a.h_denotes y ρ);
  }

  -- A regular BDDNode that is not terminal1 is a node.
  not_one :
      {w : ℕ} (c : Bool) (t : Tree)
      → Denotes s w (bdd c t)
      → c ≡ false
      → (w == s.terminal1) ≡ false
      → 0 < top_tree t
  not_one true t d r ne = absurd (clash r)
    where
      clash : true ≡ false → ⊥
      clash e = cc
  not_one {w} false leaf d r ne =
      let same =
        Denotes-injective v.heap (bdd false leaf) w s.terminal1 d (terminal1-Denotes v.heap) in
      absurd (clash (sym ((==_iff w s.terminal1).1 same) ∙ ne))
    where
      clash : true ≡ false → ⊥
      clash e = cc
  not_one false (node i h b l) d r ne = let low = d.reduced.0 in omega arith

  -- In a valid state, on three BDDNodes with labels below a bound, of which f has a regular edge,
  -- `isTerminal` returns a BDDNode of ite(f, g, h) below the bound, or it finds no terminal case
  -- and f is not a leaf.
  pub is_terminal-cases :
      a.f.complement ≡ false
      → ((w : ℕ) × (is_terminal s.terminal1 s.terminal0 x ≡ some w) × Result s w n φ)
        ⊎ ((is_terminal s.terminal1 s.terminal0 x ≡ none) × (0 < top a.f))
  unfolding is_terminal
  is_terminal-cases r = elim (Bool-cases (x.f == s.terminal1)) [
    | inl y ↦ rw y (inl (x.g, refl, f_one y))
    | inr n₁ ↦ rw n₁ (elim (Bool-cases (x.f == s.terminal0)) [
      | inl y ↦ rw y (inl (x.h, refl, f_zero y))
      | inr n₂ ↦ rw n₂ (elim (Bool-cases ((x.h == s.terminal0) && (x.g == s.terminal1))) [
        | inl y ↦ rw y (inl (x.f, refl, itself (ground arith) (ground arith)))
        | inr n₃ ↦ rw n₃ (elim (Bool-cases (x.g == x.h)) [
          | inl y ↦ rw y (inl (x.g, refl, g_eq_h y))
          | inr n₄ ↦ rw n₄ (inr (refl, not_one a.f.complement a.f.tree a.f_denotes r n₁))
        ])
      ])
    ])
  ]
