-- ===== src/Operators/Repeat.antt =====
-- An operator gives one BDDNode, whatever has been built, cached or overwritten between two calls.
use ibdd.Prelude.{ℕ, ◌≡◌, sym, ◌∙◌, subst, Bool}
use ibdd.Diagram.{Bdd, Assignment}
use ibdd.Operators.Values.{Operator, run, Computes, run-Computes}
use ibdd.Platform.{Platform}
use ibdd.State.Rep.{Denotes-extends}
use ibdd.State.Returns.{Ends-ok, Keeps, Returns, Extends-trans}
use ibdd.State.Unique.{word_canonical}
use ibdd.State.Valid.{Denotes, Valid, Extends}
use ibdd.State.{State, ok}

module _ ⦃m : Platform⦄ where
  -- Two BDDNodes of one function, the second one made later, are one BDDNode.
  same_word :
      {t s' t' : State} {φ : Assignment → Bool} {w w' : ℕ}
      → Computes φ w t
      → Extends t s'
      → Keeps s' t'
      → Computes φ w' t'
      → w ≡ w'
  same_word c x k d =
      (word_canonical k.valid.heap (Denotes-extends (Extends-trans x k.extends) c.denotes)
          d.denotes).1
        (λ ρ. c.value ρ ∙ sym (d.value ρ))

  module _ {s t s' t' : State} {f g w w' : ℕ} {a b : Bdd} (v : Valid s) (v' : Valid s')
      (x : Denotes s f a) (y : Denotes s g b) (between : Extends t s') where
    -- If a binary operator, applied to two BDDNodes in a valid state, returns a BDDNode, and
    -- applied to the same BDDNodes in a later valid state that keeps every node of the state
    -- after the first call, whatever its computed table holds, returns a BDDNode, then both are
    -- the same BDDNode.
    pub run_repeated : (o : Operator) → run o f g s ≡ ok w t → run o f g s' ≡ ok w' t' → w ≡ w'
    run_repeated o first second =
        let (k, c) = Ends-ok (subst (Returns s (Computes _)) first (run-Computes v x y o)) in
        let all = Extends-trans k.extends between in
        let (l, d) = Ends-ok (
          subst (Returns s' (Computes _)) second
            (run-Computes v' (Denotes-extends all x) (Denotes-extends all y) o)) in
        same_word c between l d
