-- ===== src/Session/Formulas.antt =====
-- Boolean formulas over the variables of a Manager, written in C++ as an expression of the operators,

use ibdd.Prelude.{ℕ, ◌<◌, ◌≤◌, ◌^◌, ◌≡◌, refl, ◌∙◌, ap, Bool, not, some, get_elem?}
use ibdd.Diagram.{Assignment}
use ibdd.Diagram.Cofactor.{eval-negation}
use ibdd.Diagram.Cofactor
use ibdd.Operators.{call_ite}
use ibdd.Operators.Values.{
  Operator, run, connective, Computes, Computes-eq, call_ite-Computes, run-Computes,
}
use ibdd.Platform.{Platform}
use ibdd.Safety.Setup.{create_variable-Safe}
use ibdd.Session.Ends.{run-Safe}
use ibdd.Safety.Ite.{call_ite-Safe}
use ibdd.Safety.{Safe, Below}
use ibdd.Safety.Nodes.{Below-extends, Below-negate}
use ibdd.Setup.{create_variable}
use ibdd.State.{State, M, pure, ◌>>=◌}
use ibdd.State.Rep.{Denotes-negate, Denotes-extends}
use ibdd.State.Returns.{Ends, both, same, bind}
use ibdd.State.Valid.{Denotes, Valid, Extends, ite_value}
use ibdd.Setup.Vector.{variable, eval-variable}
use ibdd.Word.{negate}

pub data Formula : Type 0 where
  letter : ℕ → Formula
  negation : Formula → Formula
  operation : Operator → Formula → Formula → Formula
  choice : Formula → Formula → Formula → Formula

-- its truth value
unfoldable pub value : Formula → Assignment → Bool
value (letter i) ρ = ρ i
value (negation a) ρ = not (value a ρ)
value (operation o a b) ρ = connective o (value a ρ) (value b ρ)
value (choice a b c) ρ = ite_value (value a ρ) (value b ρ) (value c ρ)

-- The letters are variables of the Manager.
abbrev pub IsOver : ℕ → Formula → Type 0
IsOver n (letter i) = (0 < i) × (i ≤ n)
IsOver n (negation a) = IsOver n a
IsOver n (operation o a b) = IsOver n a × IsOver n b
IsOver n (choice a b c) = IsOver n a × IsOver n b × IsOver n c

module _ ⦃m : Platform⦄ where
  -- the expression of the formula, its operands from left to right
  unfoldable pub build : Formula → M ℕ
  build (letter i) = create_variable i
  build (negation a) = do f ← build a; pure (negate f)
  build (operation o a b) = do f ← build a; g ← build b; run o f g
  build (choice a b c) = do f ← build a; g ← build b; h ← build c; call_ite f g h

abbrev pub IsSound : ⦃m : Platform⦄ → State → Type 0
IsSound s = Safe s × Valid s

-- w is a BDDNode of the function, with labels of 16 bits.
abbrev pub Meets : (Assignment → Bool) → ℕ → State → Type 0
Meets φ w s = Below s w (2 ^ 16) × Computes φ w s

abbrev pub Letters : ℕ → State → Type 0
Letters n s =
    (i : ℕ)
    → 0 < i
    → i ≤ n
    → (w : ℕ) × (get_elem? s.variable_counter i ≡ some w) × Denotes s w (variable i)

module _ {s s' : State} (x : Extends s s') where
  pub Letters-extends : (n : ℕ) → Letters n s → Letters n s'
  Letters-extends n l i pos le =
      let (w, at, d) = l i pos le in (w, x.variables i w at, Denotes-extends x d)

  pub Meets-extends : {φ : Assignment → Bool} {w : ℕ} → Meets φ w s → Meets φ w s'
  Meets-extends (b, c) = (
    Below-extends x b,
    record { res = c.res; denotes = Denotes-extends x c.denotes; value = c.value },
  )

module _ ⦃m : Platform⦄ where
  letter-Meets :
      {s : State} {n : ℕ} (i : ℕ)
      → IsSound s
      → Letters n s
      → 0 < i
      → i ≤ n
      → Ends IsSound s (Meets (λ ρ. ρ i)) (create_variable i s)
  letter-Meets i (v, u) l pos le =
      let (w, at, d) = l i pos le in
      let (run_it, b) = create_variable-Safe i v at in
      rw run_it (same (v, u) (b, record { res = variable i; denotes = d; value = eval-variable i }))

  negate-Meets :
      {s : State} {φ : Assignment → Bool} {w : ℕ}
      → IsSound s
      → Meets φ w s
      → Meets (λ ρ. not (φ ρ)) (negate w) s
  negate-Meets (v, u) (b, c) = (
    Below-negate v.heap b,
    record {
      res = Cofactor.negation c.res;
      denotes = Denotes-negate c.denotes;
      value = λ ρ. eval-negation c.res ρ ∙ ap not (c.value ρ);
    },
  )

  run-Meets :
      {s : State} {φ ψ : Assignment → Bool} {f g : ℕ} (o : Operator)
      → IsSound s
      → Meets φ f s
      → Meets ψ g s
      → Ends IsSound s (Meets (λ ρ. connective o (φ ρ) (ψ ρ))) (run o f g s)
  run-Meets o (v, u) (b, c) (b', c') =
      both (run-Safe v o b b')
        (Computes-eq (λ ρ. rw (c.value ρ, c'.value ρ) refl) (run-Computes u c.denotes c'.denotes o))

  call_ite-Meets :
      {s : State} {φ ψ χ : Assignment → Bool} {f g h : ℕ}
      → IsSound s
      → Meets φ f s
      → Meets ψ g s
      → Meets χ h s
      → Ends IsSound s (Meets (λ ρ. ite_value (φ ρ) (ψ ρ) (χ ρ))) (call_ite f g h s)
  call_ite-Meets (v, u) (b, c) (b', c') (b'', c'') = both (call_ite-Safe v b b' b'') (
      Computes-eq (λ ρ. rw (c.value ρ, c'.value ρ, c''.value ρ) refl)
        (call_ite-Computes u c.denotes c'.denotes c''.denotes))

  -- In a state that is safe and valid and has the variables up to n, the expression of a Boolean
  -- formula over them returns a BDDNode of the function of the formula in such a state that keeps
  -- every node, or `new` throws with the memory exhausted.
  pub build-Meets :
      {s : State} {n : ℕ} (a : Formula)
      → IsSound s
      → Letters n s
      → IsOver n a
      → Ends IsSound s (Meets (value a)) (build a s)
  unfolding build value
  build-Meets (letter i) v l (pos, le) = letter-Meets i v l pos le
  build-Meets {n} (negation a) v l over =
      bind (build-Meets a v l over) λ f s₁ k₁ d. same k₁.valid (negate-Meets k₁.valid d)
  build-Meets {n} (operation o a b) v l (over, over') = bind (build-Meets a v l over) λ f s₁ k₁ d.
      bind (build-Meets b k₁.valid (Letters-extends k₁.extends n l) over')
        λ g s₂ k₂ e. run-Meets o k₂.valid (Meets-extends k₂.extends d) e
  build-Meets {n} (choice a b c) v l (over, over', over'') =
      bind (build-Meets a v l over) λ f s₁ k₁ d.
        let l₁ = Letters-extends k₁.extends n l in
        bind (build-Meets b k₁.valid l₁ over') λ g s₂ k₂ e.
          bind (build-Meets c k₂.valid (Letters-extends k₂.extends n l₁) over'') λ h s₃ k₃ j.
            call_ite-Meets k₃.valid (Meets-extends k₃.extends (Meets-extends k₂.extends d))
              (Meets-extends k₃.extends e) j
