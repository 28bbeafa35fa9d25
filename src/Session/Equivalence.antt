-- ===== src/Session/Equivalence.antt =====
-- The test by operator== of two formulas over one Manager.
use ibdd.Prelude.{ℕ, ◌+◌, ◌<◌, ◌≤◌, ◌^◌, ◌≡◌, sym, ◌∙◌, Bool, true, ◌↔◌, arith}
use ibdd.Diagram.{Assignment}
use ibdd.Operators.{equal}
use ibdd.Platform.{Platform}
use ibdd.Safety.Setup.{Starts, started, exhausted, manager-Starts}
use ibdd.Session.Formulas.{
  Formula, value, IsOver, build, IsSound, Meets, Letters, Letters-extends, Meets-extends,
  build-Meets,
}
use ibdd.Setup.Variables
use ibdd.Setup.Vector.{HasVariables}
use ibdd.Setup.Variables.{Builds, manager-HasVariables}
use ibdd.Setup.{initial, manager}
use ibdd.State.Returns.{Ends, returns, throws, same, bind}
use ibdd.State.Unique.{word_canonical}
use ibdd.State.{State, M, Outcome, ok, thrown, pure, ◌>>=◌, ◌>>◌, and_then}

module _ ⦃m : Platform⦄ where
  -- `a == b`, on a Manager started for it
  unfoldable pub equivalent : (variables u_table_size c_table_size : ℕ) → Formula → Formula → M Bool
  equivalent variables u_table_size c_table_size a b = do
    manager variables u_table_size c_table_size
    f ← build a
    g ← build b
    pure (equal f g)

  -- The end of a test: its answer, or an exhausted memory.
  pub data Answers (T : Type 0) : Outcome Bool → Type 0 where
    answer : {b : Bool} {s : State} → (b ≡ true) ↔ T → Answers T (ok b s)
    out_of_memory : {s : State} → m.capacity ≤ s.count → Answers T (thrown s)

  abbrev pub IsEquivalent : Formula → Formula → Type 0
  IsEquivalent a b = (ρ : Assignment) → value a ρ ≡ value b ρ

  equal-true : (f g : ℕ) → (equal f g ≡ true) ↔ (f ≡ g)
  unfolding equal
  equal-true f g = (λ e. ground arith, λ e. ground arith)

  equal-Meets :
      {s : State} (a b : Formula) {f g : ℕ}
      → IsSound s
      → Meets (value a) f s
      → Meets (value b) g s
      → (equal f g ≡ true) ↔ IsEquivalent a b
  equal-Meets a b {f} {g} (v, u) (d, c) (d', c') =
      let (forth, back) = word_canonical v.heap c.denotes c'.denotes in
      let (to, of) = equal-true f g in
      (
        λ e ρ. sym (c.value ρ) ∙ forth (to e) ρ ∙ c'.value ρ,
        λ e. of (back (λ ρ. c.value ρ ∙ e ρ ∙ sym (c'.value ρ))),
      )

  Ends-Answers :
      {s : State} {T : Type 0} {r : Outcome Bool}
      → Ends IsSound s (λ b _. (b ≡ true) ↔ T) r
      → Answers T r
  Ends-Answers (returns k p) = answer p
  Ends-Answers (throws k c) = out_of_memory c

  test-Answers :
      {s : State} {n : ℕ} (a b : Formula)
      → IsSound s
      → Letters n s
      → IsOver n a
      → IsOver n b
      → Answers (IsEquivalent a b) (and_then (build a s) (λ f. do g ← build b; pure (equal f g)))
  test-Answers {n} a b v l over over' = Ends-Answers (
      bind (build-Meets a v l over) λ f s₁ k₁ d.
        bind (build-Meets b k₁.valid (Letters-extends k₁.extends n l) over')
          λ g s₂ k₂ e. same k₂.valid (equal-Meets a b k₂.valid (Meets-extends k₂.extends d) e))

  from_start :
      (n : ℕ) (a b : Formula) {r : Outcome (Unit {0})}
      → Starts n r
      → Builds (HasVariables (n + 1)) r
      → IsOver n a
      → IsOver n b
      → Answers (IsEquivalent a b) (and_then r (λ _. do f ← build a; g ← build b; pure (equal f g)))
  from_start n a b (exhausted c) h p q = out_of_memory c
  from_start n a b (started v len) (Variables.built u h) p q =
      test-Answers a b (v, u) (λ i pos le. h.each i pos (omega arith)) p q

  -- With tables that are not empty and fewer than 2^16 variables, the comparison by operator ==
  -- of the BDDNodes of two Boolean formulas over the variables, each built by createVariable, the
  -- negation, the binary operators and ite on a Manager started for them, is true exactly when
  -- the formulas have the same value under every assignment, or `new` throws with the memory
  -- exhausted.
  pub equivalent-Answers :
      (variables u_table_size c_table_size : ℕ) (a b : Formula)
      → 0 < u_table_size
      → 0 < c_table_size
      → variables < 2 ^ 16
      → IsOver variables a
      → IsOver variables b
      → Answers (IsEquivalent a b) (equivalent variables u_table_size c_table_size a b initial)
  unfolding equivalent
  equivalent-Answers variables u c a b pu pc small p q =
      from_start variables a b (manager-Starts variables u c pu pc small)
        (manager-HasVariables variables u c pu pc small) p q
