-- ===== src/Setup/Create.antt =====
-- createVariable at every index.
use ibdd.Prelude.{
  ℕ, ◌+◌, ◌-◌, ◌%◌, ◌^◌, ◌<◌, ◌≤◌, ◌≡◌, refl, sym, subst, inl, inr, true, false, some, arith, leb,
  length, get_elem?, get_elem?-eq-none, Bool-cases,
}
use native.Mathlib.Decide.{dec_lt}
use ibdd.Diagram.{bdd, leaf}
use ibdd.Platform.{Platform}
use ibdd.Setup.Vector.{variable, HasVariables}
use ibdd.Setup.{create_variable}
use ibdd.State.Valid.{Denotes, ValidHeap}
use ibdd.State.{State, Outcome, ok, fault, and_then, ◌>>◌}
use ibdd.Unique.Node.{terminal1-Denotes}
use ibdd.Word.{word_mod}

-- The end of `createVariable(i)` on a vector of n BDDNodes.
pub data Creates (n i : ℕ) (s : State) : Outcome ℕ → Type 0 where
  constant : {w : ℕ} → i ≡ 0 → 0 < n → Denotes s w (bdd false leaf) → Creates n i s (ok w s)
  named : {w : ℕ} → 0 < i → i < n → Denotes s w (variable i) → Creates n i s (ok w s)
  refused : n ≤ i → Creates n i s fault

create_variable_inside :
    {s : State} {n : ℕ} (i : ℕ) {w : ℕ}
    → HasVariables n s
    → i < n
    → n ≤ 2 ^ 16
    → get_elem? s.variable_counter i ≡ some w
    → create_variable i s ≡ ok w s
unfolding create_variable
create_variable_inside {s} i h lt small at =
    let c = h.counted in
    let inside : leb i ((length s.variable_counter + word_mod - 1) % word_mod) ≡ true =
      ground arith in
    rw (inside, and_then, at)

create_variable_outside :
    (s : State) (i : ℕ) → length s.variable_counter ≤ i → create_variable i s ≡ fault
unfolding create_variable
create_variable_outside s i le =
    let at = get_elem?-eq-none s.variable_counter i le in
    elim (Bool-cases (leb i ((length s.variable_counter + word_mod - 1) % word_mod))) [
      | inl y ↦ rw (y, ◌>>◌, and_then, at) refl
      | inr n ↦ rw (n, ◌>>◌, and_then) refl
    ]

module _ ⦃m : Platform⦄ {s : State} {n : ℕ} (i : ℕ) (v : ValidHeap s) (h : HasVariables n s)
    (small : n ≤ 2 ^ 16) where
  -- In a valid heap with a vector of n BDDNodes, n at most 2^16, that holds the constant 1 and a
  -- BDDNode of each positive variable below n, createVariable returns the constant 1 at index 0,
  -- a BDDNode of the variable at a positive index below n, without a change, and at every index
  -- from n on it ends in a failed assertion or undefined behaviour.
  pub create_variable-Creates : Creates n i s (create_variable i s)
  create_variable-Creates = elim (dec_lt i n) [
    | no beyond ↦
        let c = h.counted in
        rw
          (create_variable_outside s i (let le : length s.variable_counter ≤ i = omega arith in le))
          (refused (omega arith))
    | yes lt ↦ elim (dec_lt 0 i) [
      | yes pos ↦
          let (w, at, d) = h.each i pos lt in
          rw (create_variable_inside i h lt small at) (named pos lt d)
      | no zero_index ↦
          let first : 0 ≡ i = omega arith in
          let at =
            subst (λ z. get_elem? s.variable_counter z ≡ some s.terminal1) first
              (h.constant (omega arith)) in
          rw (create_variable_inside i h lt small at)
            (constant (sym first) (omega arith) (terminal1-Denotes v))
    ]
  ]
