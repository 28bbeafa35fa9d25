-- ===== src/State/Unique.antt =====
-- Canonicity in a valid state: one function, one word. So `==` on BDDNodes decides equivalence.
use ibdd.Prelude.{ℕ, ◌≡◌, ◌↔◌, sym, ◌∙◌, ap, ap₂, subst, some}
use mathlib.Core.Option.{some-injective}
use ibdd.Platform.{Platform}
use ibdd.TableKey.{table_key}
use ibdd.UTable
use ibdd.Word.{edge_of, regular, to_word}
use ibdd.Diagram.{Tree, leaf, node, Bdd, Assignment, eval}
use ibdd.Diagram.Canonical.{eval_injective}
use ibdd.State.{State, keys}
use ibdd.State.Rep.{Denotes-unique}
use ibdd.State.Valid.{Rep, Denotes, ValidHeap}

module _ ⦃m : Platform⦄ {s : State} (v : ValidHeap s) where
  -- One diagram has one root node, since the unique table holds its triple once.
  pub Rep-injective : (t : Tree) (p q : ℕ) → Rep s t p → Rep s t q → p ≡ q
  Rep-injective leaf p q x y = x.0 ∙ sym y.0
  Rep-injective (node i h c l) p q (a, b, cell, ad, ne, hr, lr)
        (a', b', cell', ad', ne', hr', lr') =
      let highs = ap (λ z. to_word z regular) (Rep-injective h a a' hr hr') in
      let lows = ap (λ z. to_word z (edge_of c)) (Rep-injective l b b' lr lr') in
      let found = v.complete p _ cell in
      let found' = v.complete q _ cell' in
      let same = ap₂ (λ g f. UTable.find keys s.u_table (table_key i g f)) highs lows in
      some-injective p q (some-injective (some p) (some q) (sym found ∙ same ∙ found'))

  pub Denotes-injective : (e : Bdd) (w w' : ℕ) → Denotes s w e → Denotes s w' e → w ≡ w'
  Denotes-injective e w w' x y =
      x.word
      ∙ ap (λ p. to_word p (edge_of e.complement)) (Rep-injective e.tree x.node y.node x.rep y.rep)
      ∙ sym y.word

  -- In a valid heap two words of BDDNodes are equal exactly when their diagrams have the same
  -- Boolean function.
  pub word_canonical :
      {w w' : ℕ} {e e' : Bdd}
      → Denotes s w e
      → Denotes s w' e'
      → (w ≡ w') ↔ ((ρ : Assignment) → eval e ρ ≡ eval e' ρ)
  word_canonical {w} {w'} {e} {e'} x y = (forth, back)
    where
      forth : w ≡ w' → (ρ : Assignment) → eval e ρ ≡ eval e' ρ
      forth p ρ = ap (λ b. eval b ρ) (Denotes-unique e e' x (subst (λ z. Denotes s z e') (sym p) y))

      back : ((ρ : Assignment) → eval e ρ ≡ eval e' ρ) → w ≡ w'
      back same =
          let p = eval_injective e e' x.reduced y.reduced same in
          Denotes-injective e' w w' (subst (Denotes s w) p x) y
