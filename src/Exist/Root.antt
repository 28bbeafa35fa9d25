-- ===== src/Exist/Root.antt =====
-- BDDNode::exist of the variable of the root, where the computed table has no entry for the node.
use ibdd.Prelude.{
  ℕ, ◌<◌, ◌≤◌, ◌≡◌, refl, sym, ◌∙◌, ap, ap₂, subst, Bool, true, false, ◌||◌, none, some, arith, ltb,
  ◌==◌, ==_iff,
}
use ibdd.Platform.{Platform}
use ibdd.TableKey.{TableKey, table_key}
use ibdd.CTable.{CTable}
use ibdd.CTable.Slots.{Holds-map, insert_lem}
use ibdd.Cofactor.Shannon.{Reads, get_cofactor-Denotes}
use ibdd.Cofactor.{low, high, get_cofactor}
use ibdd.Diagram.{Tree, node, Bdd, bdd, Assignment, eval}
use ibdd.Diagram.Cofactor.{cofactor, update, eval-cofactor-update}
use ibdd.Exist.{quantify, exist_recur, exist}
use ibdd.Exist.Stale.{IsKeyOf, exist-hit}
use ibdd.Ite.{has_next, insert}
use ibdd.Operators.Values.{Computes, plus, run-Computes}
use ibdd.State.Rep.{Denotes-extends}
use ibdd.State.Returns.{Returns, returns, throws, same, mono, Extends-trans}
use ibdd.State.Unique.{Denotes-injective}
use ibdd.State.Valid.{Denotes, Extends, Valid, ValidHeap, IsSound}
use ibdd.State.{State, Outcome, ok, thrown, and_then, keys}
use ibdd.Unique.Node.{get_index-Denotes, is_leaf-Denotes_node}

-- The outcome of a quantification from s: a BDDNode of φ, which the computed table holds under k.
pub data Quantifies ⦃m : Platform⦄ (s : State) (k : TableKey) (φ : Assignment → Bool)
    : Outcome ℕ → Type 0 where
  quantified :
      {r : ℕ} {s' : State}
      → ValidHeap s'
      → Extends s s'
      → has_next k s' ≡ ok (some r) s'
      → Computes φ r s'
      → Quantifies s k φ (ok r s')
  exhausted : {s' : State} → Valid s' → m.capacity ≤ s'.count → Quantifies s k φ (thrown s')

module _ ⦃m : Platform⦄ {s : State} (v : Valid s) where
  with_cache : CTable TableKey ℕ → State
  with_cache c = record s { c_table = c }

  -- An insertion leaves the heap as it is, whatever is inserted.
  insert_any :
      (k : TableKey) (r : ℕ)
      → (s' : State) × (insert k r s ≡ ok tt s')
        × ValidHeap s'
        × Extends s s'
        × (has_next k s' ≡ ok (some r) s')
  unfolding insert has_next with_cache
  insert_any k r =
      let (c, run, t, hit) =
        insert_lem keys (λ (a : TableKey × ℕ). Unit {0})
          (Holds-map (IsSound s) (λ (a : TableKey × ℕ). Unit {0}) (λ a p. tt) v.cached) k r tt in
      (
        with_cache c,
        rw run,
        record {
          leaf_cell = v.leaf_cell;
          leaf_address = v.leaf_address;
          terminal1 = v.terminal1;
          terminal0 = v.terminal0;
          allocated = v.allocated;
          counted = v.counted;
          u_loaded = v.u_loaded;
          sound = v.sound;
          complete = v.complete;
        },
        record {
          cells = λ p d e. e;
          leaf = refl;
          terminal1 = refl;
          terminal0 = refl;
          variables = λ i w e. e;
        },
        rw hit,
      )

Computes-extends :
    {s s' : State} {φ : Assignment → Bool} {w : ℕ} → Extends s s' → Computes φ w s → Computes φ w s'
Computes-extends x c = record {
  res = c.res;
  denotes = Denotes-extends x c.denotes;
  value = c.value;
}

Computes-eq :
    {s : State} {φ ψ : Assignment → Bool} {w : ℕ}
    → ((ρ : Assignment) → φ ρ ≡ ψ ρ)
    → Computes φ w s
    → Computes ψ w s
Computes-eq same c = record { res = c.res; denotes = c.denotes; value = λ ρ. c.value ρ ∙ same ρ }

-- The function with the variable quantified.
abbrev pub exists_value : Bdd → ℕ → Assignment → Bool
exists_value e i ρ = eval e (update ρ i false) || eval e (update ρ i true)

module _ ⦃m : Platform⦄ {s : State} (v : Valid s) {w i : ℕ} {c c' : Bool} {h l : Tree}
    (d : Denotes s w (bdd c (node i h c' l))) where
  stored :
      {k : TableKey} {φ : Assignment → Bool} {r : Outcome ℕ}
      → Returns s (Computes φ) r
      → Quantifies s k φ (and_then r (λ res s'. and_then (insert k res s') (λ _. ok res)))
  stored {k} (returns {a = res} keeps p) =
      let (s', run, heap, x, hit) = insert_any keeps.valid k res in
      rw run (quantified heap (Extends-trans keeps.extends x) hit (Computes-extends x p))
  stored (throws keeps full) = exhausted keeps.valid full

  positive : 0 < i
  positive = let p = d.reduced.0 in omega arith

  high_cofactor : Reads s (get_cofactor w i high s) (cofactor true i (bdd c (node i h c' l)))
  high_cofactor = get_cofactor-Denotes v.heap i high d positive (omega arith)

  low_cofactor : Reads s (get_cofactor w i low s) (cofactor false i (bdd c (node i h c' l)))
  low_cofactor = get_cofactor-Denotes v.heap i low d positive (omega arith)

  -- the key under which existRecur keeps the result for the node
  root_key : TableKey
  unfolding high_cofactor low_cofactor
  root_key = table_key w high_cofactor.0 low_cofactor.0

  root_key-Quantifies :
      has_next root_key s ≡ ok none s
      → Quantifies s root_key (exists_value (bdd c (node i h c' l)) i) (exist w i s)
  unfolding exist exist_recur quantify root_key
  root_key-Quantifies miss =
      let e = bdd c (node i h c' l) in
      let (hw, hrun, dh) = high_cofactor in
      let (lw, lrun, dl) = low_cofactor in
      let nonzero : (i == 0) ≡ false = let p = positive in ground arith in
      let test : ltb i i ≡ false = ground arith in
      let value = λ (b : Bool) (ρ : Assignment).
        eval-cofactor-update b i e ρ d.reduced positive (omega arith) in
      rw
        (
          exist,
          nonzero,
          get_index-Denotes v.heap d,
          and_then,
          exist_recur,
          is_leaf-Denotes_node v.heap d,
          and_then,
          get_index-Denotes v.heap d,
          and_then,
          test,
          hrun,
          and_then,
          lrun,
          and_then,
          miss,
          and_then,
          (==_iff i i).1 refl,
        )
        (stored (
          mono (run-Computes v dl dh plus)
            λ r s' k p. returns k (Computes-eq (λ ρ. ap₂ ◌||◌ (value false ρ) (value true ρ)) p)))

  -- Cofactors at the root do not depend on the table, so the key of a later state is the same.
  key-extends : {s' : State} → ValidHeap s' → Extends s s' → IsKeyOf s' w i root_key
  unfolding root_key
  key-extends {s'} heap x =
      let d' = Denotes-extends x d in
      let (hw, hrun, dh) = get_cofactor-Denotes heap i high d' positive (omega arith) in
      let (lw, lrun, dl) = get_cofactor-Denotes heap i low d' positive (omega arith) in
      let highs =
        Denotes-injective heap _ hw high_cofactor.0 dh (Denotes-extends x high_cofactor.2) in
      let lows = Denotes-injective heap _ lw low_cofactor.0 dl (Denotes-extends x low_cofactor.2) in
      record {
        high_child = high_cofactor.0;
        low_child = low_cofactor.0;
        key = refl;
        high_run = hrun ∙ ap (λ z. ok z s') highs;
        low_run = lrun ∙ ap (λ z. ok z s') lows;
      }

  inversion :
      {k : TableKey} {φ : Assignment → Bool} {r : ℕ} {s' : State}
      → Quantifies s k φ (ok r s')
      → ValidHeap s' × Extends s s' × (has_next k s' ≡ ok (some r) s')
  inversion (quantified heap x hit p) = (heap, x, hit)

  ok_value : {a b : ℕ} → ok a s ≡ ok b s → a ≡ b
  ok_value e = cc

  root_key_unique : {k : TableKey} → IsKeyOf s w i k → root_key ≡ k
  unfolding root_key
  root_key_unique q =
      let highs = ok_value (sym high_cofactor.1 ∙ q.high_run) in
      let lows = ok_value (sym low_cofactor.1 ∙ q.low_run) in
      ap₂ (table_key w) highs lows ∙ sym q.key

  -- In a valid state whose computed table has no entry under the key of a node, quantifying the
  -- variable of its root returns a BDDNode of the function with the variable quantified, which a
  -- lookup of the key then finds, in a state with a valid heap that keeps every node, or `new`
  -- throws with the memory exhausted.
  pub exist-root :
      {k : TableKey}
      → IsKeyOf s w i k
      → has_next k s ≡ ok none s
      → Quantifies s k (exists_value (bdd c (node i h c' l)) i) (exist w i s)
  exist-root q =
      subst
        (λ k.
          has_next k s ≡ ok none s
          → Quantifies s k (exists_value (bdd c (node i h c' l)) i) (exist w i s))
        (root_key_unique q) root_key-Quantifies

  -- In a valid state whose computed table has no entry under the key of a node, once the
  -- quantification of the variable of its root has returned, the quantification of any variable
  -- from 1 up to that of the root returns the same BDDNode again and changes nothing.
  pub exist-exist :
      {k : TableKey}
      → IsKeyOf s w i k
      → has_next k s ≡ ok none s
      → (r : ℕ) (s' : State) → exist w i s ≡ ok r s'
      → (j : ℕ) → 0 < j
      → j ≤ i
      → exist w j s' ≡ ok r s'
  exist-exist {k} q miss r s' run j pos le =
      let (heap, x, hit) = inversion (subst (Quantifies s k _) run (exist-root q miss)) in
      exist-hit heap (Denotes-extends x d)
        (subst (IsKeyOf s' w i) (root_key_unique q) (key-extends heap x)) hit j pos le
