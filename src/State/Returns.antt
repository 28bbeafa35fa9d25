-- ===== src/State/Returns.antt =====
-- Total correctness of a command: it returns, within its fuel and without a fault, in a valid state
-- that extends the first one and satisfies a postcondition; or `new` has thrown `std::bad_alloc`, the
-- memory is used up, and the state is as valid.
use ibdd.Prelude.{◌≤◌, refl, ◌∙◌}
use ibdd.Platform.{Platform}
use ibdd.State.{State, Outcome, ok, thrown, M, and_then}
use ibdd.State.Valid.{Extends, Valid}

module _ ⦃m : Platform⦄ where
  -- A later state that has the invariant, and what the state s has.
  pub record KeepsOf (I : State → Type 0) (s s' : State) : Type 0 where
    pub valid : I s'
    pub extends : Extends s s'

  pub data Ends {A : Type 0} (I : State → Type 0) (s : State) (P : A → State → Type 0)
      : Outcome A → Type 0 where
    returns : {a : A} {s' : State} → KeepsOf I s s' → P a s' → Ends I s P (ok a s')
    throws : {s' : State} → KeepsOf I s s' → m.capacity ≤ s'.count → Ends I s P (thrown s')

  abbrev pub Keeps : State → State → Type 0
  Keeps s s' = KeepsOf Valid s s'

  abbrev pub Returns : {A : Type 0} → State → (A → State → Type 0) → Outcome A → Type 0
  Returns s P r = Ends Valid s P r

pub Extends-trans : {s t u : State} → Extends s t → Extends t u → Extends s u
Extends-trans e f = record {
  cells = λ p d h. f.cells p d (e.cells p d h);
  leaf = f.leaf ∙ e.leaf;
  terminal1 = f.terminal1 ∙ e.terminal1;
  terminal0 = f.terminal0 ∙ e.terminal0;
  variables = λ i w h. f.variables i w (e.variables i w h);
}

pub Extends-refl : (s : State) → Extends s s
Extends-refl s = record {
  cells = λ p d h. h;
  leaf = refl;
  terminal1 = refl;
  terminal0 = refl;
  variables = λ i w h. h;
}

pub Ends-ok :
    ⦃m : Platform⦄ {A : Type 0} {I : State → Type 0} {s s' : State} {P : A → State → Type 0} {a : A}
    → Ends I s P (ok a s')
    → KeepsOf I s s' × P a s'
Ends-ok (returns k p) = (k, p)

module _ ⦃m : Platform⦄ {I : State → Type 0} where
  pub Keeps-trans : {s t u : State} → KeepsOf I s t → KeepsOf I t u → KeepsOf I s u
  Keeps-trans k l = record { valid = l.valid; extends = Extends-trans k.extends l.extends }

  pub Keeps-refl : {s : State} → I s → KeepsOf I s s
  Keeps-refl {s} v = record { valid = v; extends = Extends-refl s }

  module _ {A : Type 0} {P : A → State → Type 0} where
    -- a command that changes nothing
    pub same : {s : State} {a : A} → I s → P a s → Ends I s P (ok a s)
    same v p = returns (Keeps-refl v) p

    pub from : {s t : State} {r : Outcome A} → KeepsOf I s t → Ends I t P r → Ends I s P r
    from k (returns l p) = returns (Keeps-trans k l) p
    from k (throws l c) = throws (Keeps-trans k l) c

  module _ {A : Type 0} {P : A → State → Type 0} where
    pub mono :
        {Q : A → State → Type 0} {s : State} {r : Outcome A}
        → Ends I s P r
        → ((a : A) (s' : State) → KeepsOf I s s' → P a s' → Ends I s Q (ok a s'))
        → Ends I s Q r
    mono (returns k p) f = f _ _ k p
    mono (throws k c) f = throws k c

    pub bind :
        {B : Type 0} {Q : B → State → Type 0} {s : State} {r : Outcome A} {k : A → M B}
        → Ends I s P r
        → ((a : A) (s' : State) → KeepsOf I s s' → P a s' → Ends I s' Q (k a s'))
        → Ends I s Q (and_then r k)
    bind (returns l p) next = from l (next _ _ l p)
    bind (throws l c) next = throws l c

-- A command that keeps two invariants keeps both.
pub both :
    ⦃m : Platform⦄ {A : Type 0} {I J : State → Type 0} {P Q : A → State → Type 0} {s : State}
    {r : Outcome A}
    → Ends I s P r
    → Ends J s Q r
    → Ends (λ t. I t × J t) s (λ a t. P a t × Q a t) r
both (returns k p) (returns l q) =
    returns (record { valid = (k.valid, l.valid); extends = k.extends }) (p, q)
both (throws k c) (throws l d) =
    throws (record { valid = (k.valid, l.valid); extends = k.extends }) c
