-- ===== src/Exist/Stale.antt =====
-- existRecur on a node that it has quantified before: its entry of the computed table does not name
-- the quantified variable.
use ibdd.Prelude.{ℕ, suc, ◌<◌, ◌≤◌, ◌≡◌, sym, ◌∙◌, ap, Bool, false, some, arith, ltb, ◌==◌}
use ibdd.Platform.{Platform}
use ibdd.TableKey.{TableKey, table_key}
use ibdd.Cofactor.{low, high, get_cofactor}
use ibdd.Diagram.{Tree, node, bdd}
use ibdd.Exist.{exist_recur, exist}
use ibdd.Ite.{has_next}
use ibdd.State.Valid.{Denotes, ValidHeap}
use ibdd.State.{State, ok, and_then}
use ibdd.Unique.Node.{get_index-Denotes, is_leaf-Denotes_node}

-- The key under which existRecur keeps the result for the node w with the label i.
pub record IsKeyOf ⦃m : Platform⦄ (s : State) (w i : ℕ) (k : TableKey) : Type 0 where
  pub high_child : ℕ
  pub low_child : ℕ
  pub key : k ≡ table_key w high_child low_child
  pub high_run : get_cofactor w i high s ≡ ok high_child s
  pub low_run : get_cofactor w i low s ≡ ok low_child s

module _ ⦃m : Platform⦄ {s : State} (v : ValidHeap s) {w i : ℕ} {c c' : Bool} {h l : Tree}
    (d : Denotes s w (bdd c (node i h c' l))) {k : TableKey} (q : IsKeyOf s w i k) {r : ℕ}
    (hit : has_next k s ≡ ok (some r) s) where
  exist_recur-hit : (fuel j : ℕ) → j ≤ i → exist_recur (suc fuel) w j s ≡ ok r s
  unfolding exist_recur
  exist_recur-hit fuel j le =
      let test : ltb i j ≡ false = ground arith in
      let found : has_next (table_key w q.high_child q.low_child) s ≡ ok (some r) s =
        ap (λ z. has_next z s) (sym q.key) ∙ hit in
      rw (
        is_leaf-Denotes_node v d,
        and_then,
        get_index-Denotes v d,
        and_then,
        test,
        q.high_run,
        and_then,
        q.low_run,
        and_then,
        found,
      )

  -- A hit is the result for every label up to that of the root.
  pub exist-hit : (j : ℕ) → 0 < j → j ≤ i → exist w j s ≡ ok r s
  unfolding exist
  exist-hit j pos le =
      let nonzero : (j == 0) ≡ false = ground arith in
      rw (exist, nonzero, get_index-Denotes v d) (exist_recur-hit i j le)
