-- ===== src/Session/Reference.antt =====
-- The operations of the package against the truth table of a formula.
use ibdd.Prelude.{ℕ, ◌<◌, ◌^◌, ◌≡◌, refl, sym, ◌∙◌, ap, ap₂, subst, not}
use ibdd.Diagram.Canonical.{eval_injective}
use ibdd.Diagram.Reference.{
  truth_diagram, restrict, restrict_self, eval-truth_diagram, truth_diagram-IsReduced,
}
use ibdd.Diagram.{Bdd, Assignment}
use ibdd.Operators.Values.{connective, Computes}
use ibdd.Platform.{Platform}
use ibdd.Session.Formulas.{
  Formula, letter, negation, operation, choice, value, IsOver, build, IsSound, Letters, build-Meets,
}
use ibdd.State.Returns.{Ends, mono, returns}
use ibdd.State.Valid.{Denotes}
use ibdd.State.{State}

-- A formula over the variables up to n does not read the others.
value-restrict :
    (n : ℕ) (a : Formula) (ρ : Assignment) → IsOver n a → value a (restrict n ρ) ≡ value a ρ
unfolding value
value-restrict n (letter i) ρ (pos, le) = restrict_self n ρ i pos le
value-restrict n (negation a) ρ over = ap not (value-restrict n a ρ over)
value-restrict n (operation o a b) ρ (over, over') =
    ap₂ (connective o) (value-restrict n a ρ over) (value-restrict n b ρ over')
value-restrict n (choice a b c) ρ (over, over', over'') =
    rw (value-restrict n a ρ over, value-restrict n b ρ over', value-restrict n c ρ over'') refl

-- The diagram of a formula over the variables up to n, from its truth table.
abbrev pub diagram : ℕ → Formula → Bdd
diagram n a = truth_diagram n (value a)

Computes-diagram :
    {s : State} {w n : ℕ} (a : Formula)
    → n < 2 ^ 16
    → IsOver n a
    → Computes (value a) w s
    → Denotes s w (diagram n a)
Computes-diagram {s} {w} {n} a small over c =
    let reduced = truth_diagram-IsReduced n (value a) small in
    let same =
      eval_injective c.res (diagram n a) c.denotes.reduced reduced
        λ ρ. c.value ρ ∙ sym (value-restrict n a ρ over) ∙ sym (eval-truth_diagram n (value a) ρ) in
    subst (Denotes s w) same c.denotes

module _ ⦃m : Platform⦄ {s : State} {n : ℕ} (a : Formula) (v : IsSound s) (l : Letters n s)
    (small : n < 2 ^ 16) (over : IsOver n a) where
  -- In a state that is safe and valid and has the variables up to n, n below 2^16, the expression
  -- of a Boolean formula over them returns a BDDNode of the reduced diagram that is made from the
  -- truth table of the formula, in such a state that keeps every node, or `new` throws with the
  -- memory exhausted.
  pub build-Denotes : Ends IsSound s (λ w s'. Denotes s' w (diagram n a)) (build a s)
  build-Denotes =
      mono (build-Meets a v l over) λ w s' k c. returns k (Computes-diagram a small over c.1)
