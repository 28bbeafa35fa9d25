-- ===== src/Exist/Shared.antt =====
-- existRecur and ite keep their results in one computed table, under keys of the same form.
use ibdd.Prelude.{ℕ, suc, ◌≡◌, refl, sym, ◌∙◌, ap, subst, Bool, false, none, some}
use ibdd.Diagram.{Tree, node, Assignment, bdd}
use ibdd.Exist.{exist}
use ibdd.Exist.Root.{Quantifies, quantified, exists_value, exist-root}
use ibdd.Exist.Stale.{IsKeyOf}
use ibdd.Ite.{is_terminal, has_next, ite_standard, ite}
use ibdd.Operators.Values.{Computes}
use ibdd.Platform.{Platform}
use ibdd.Standardize.{triple, standardize}
use ibdd.State.Valid.{Denotes, Valid}
use ibdd.State.{State, ok, and_then, ◌>>=◌}
use ibdd.TableKey.{TableKey, table_key}

module _ ⦃m : Platform⦄ where
  stored :
      {s s' : State} {k : TableKey} {φ : Assignment → Bool} {r : ℕ}
      → Quantifies s k φ (ok r s')
      → (has_next k s' ≡ ok (some r) s') × Computes φ r s'
  stored (quantified heap x hit p) = (hit, p)

  -- where `standardize` leaves its arguments, a hit is the result of ite
  ite-hit :
      {s : State} {f g h r : ℕ} (fuel : ℕ)
      → standardize (triple f g h) false s ≡ ok (triple f g h, false) s
      → is_terminal s.terminal1 s.terminal0 (triple f g h) ≡ none
      → has_next (table_key f g h) s ≡ ok (some r) s
      → ite (suc fuel) f g h s ≡ ok r s
  unfolding ite ite_standard
  ite-hit fuel standard open_case hit =
      rw (standard, and_then, open_case, ◌>>=◌, hit, and_then) refl

module _ ⦃m : Platform⦄ {s : State} (v : Valid s) {w i : ℕ} {c c' : Bool} {h l : Tree}
    (d : Denotes s w (bdd c (node i h c' l))) where
  -- In a valid state whose computed table has no entry under the key of a node, once the
  -- quantification of the variable of its root has returned, ite of the node and its two
  -- cofactors returns the quantified function, with any positive fuel, where standardize leaves
  -- these arguments and none of the terminal cases applies.
  pub exist-ite :
      {k : TableKey} (q : IsKeyOf s w i k)
      → has_next k s ≡ ok none s
      → (r : ℕ) (s' : State) → exist w i s ≡ ok r s'
      → standardize (triple w q.high_child q.low_child) false s'
        ≡ ok (triple w q.high_child q.low_child, false) s'
      → is_terminal s'.terminal1 s'.terminal0 (triple w q.high_child q.low_child) ≡ none
      → (fuel : ℕ)
      → (ite (suc fuel) w q.high_child q.low_child s' ≡ ok r s')
        × Computes (exists_value (bdd c (node i h c' l)) i) r s'
  exist-ite {k} q miss r s' run standard open_case fuel =
      let (hit, p) = stored (subst (Quantifies s k _) run (exist-root v d q miss)) in
      (ite-hit fuel standard open_case (ap (λ z. has_next z s') (sym q.key) ∙ hit), p)
