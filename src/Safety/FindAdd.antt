-- ===== src/Safety/FindAdd.antt =====
-- Manager::findAdd and the constructors of BDDNode keep a state safe.
use ibdd.Prelude.{
  ℕ, ◌<◌, ◌≤◌, ◌^◌, ◌≡◌, refl, sym, ◌∙◌, ap, subst, inl, inr, Bool, false, some, List, length,
  arith, ◌==◌, get_elem?,
}
use ibdd.CTable.Slots.{Holds, Holds-map}
use ibdd.Platform.{Platform}
use ibdd.Safety.Nodes.{Below-extends, Bounded-extends}
use ibdd.Safety.{Labelled, Below, IsBounded, Safe}
use ibdd.State.Returns.{Ends, returns, throws, Keeps-refl, same, bind}
use ibdd.State.Valid.{Extends, ValidHeap}
use ibdd.State.{DdNode, State, Outcome}
use ibdd.TableKey.{TableKey}
use ibdd.Unique.Finds.{triple, cell-IsAddress, Adds, Finds, found, added, full, find_add-Finds}
use ibdd.Unique.{find_add, bdd_node}
use ibdd.Word.{edge_of, to_word}
use ibdd.Word.Laws.{to_word-regular}

-- The words of a node, behind either edge.
pub cell-Labelled :
    {s : State} (p : ℕ) (d : DdNode)
    → s.cell p ≡ some d
    → (c : Bool) → Labelled s (to_word p (edge_of c)) d.index
cell-Labelled p d here c = record {
  node = p;
  complement = c;
  word = refl;
  cell = d;
  here = here;
  label = refl;
}

pub regular-Labelled :
    ⦃m : Platform⦄ {s : State}
    → ValidHeap s
    → (p : ℕ) (d : DdNode) → s.cell p ≡ some d
    → Labelled s p d.index
regular-Labelled v p d here = record {
  node = p;
  complement = false;
  word = sym (to_word-regular (cell-IsAddress v p d here));
  cell = d;
  here = here;
  label = refl;
}

module _ ⦃m : Platform⦄ {s : State} (v : Safe s) where
  pub cached-extends :
      {s' : State} → Extends s s' → s'.c_table ≡ s.c_table → Holds (IsBounded s') s'.c_table
  cached-extends {s'} x e =
      subst (Holds (IsBounded s')) (sym e) (Holds-map (IsBounded s) (IsBounded s') keep v.cached)
    where
      keep : (a : TableKey × ℕ) → IsBounded s a → IsBounded s' a
      keep (k, r) (inl stale) = inl stale
      keep (k, r) (inr b) = inr (Bounded-extends k r x b)

  module _ {f g h : ℕ} (small : f < 2 ^ 16) (dg : Below s g f) (dh : Below s h f) where
    Adds-Safe : {p : ℕ} {s' : State} → Adds v.heap p (triple f g h) s' → Safe s'
    Adds-Safe {p} {s'} a = record {
      heap = a.heap;
      small = λ q e at. elim (a.only q e at) [
        | inl c ↦ let i : e.index ≡ f = λ j. (c.1 j).index in omega arith
        | inr o ↦ v.small q e o
      ];
      children = λ q e at ne. elim (a.only q e at) [
        | inl c ↦
            subst (λ d. Below s' d.low d.index × Below s' d.high d.index) (sym c.1)
              (Below-extends x dh, Below-extends x dg)
        | inr o ↦
            let (low, high) = v.children q e o (λ l. ne (l ∙ sym x.leaf)) in
            (Below-extends x low, Below-extends x high)
      ];
      variables = λ i w at.
          Below-extends x (v.variables i w (ap (λ l. get_elem? l i) (sym a.variables) ∙ at));
      few = subst (λ (l : List ℕ). length l ≤ 2 ^ 16) (sym a.variables) v.few;
      cached = cached-extends x a.cache;
    }
      where
        x : Extends s s'
        x = a.extends

    Finds-Safe :
        {r : Outcome ℕ}
        → Finds v.heap f g h r
        → Ends Safe s
            (λ p s'. (s'.cell p ≡ some (triple f g h)) × (s'.variable_counter ≡ s.variable_counter))
            r
    Finds-Safe (found p cell) = same v (cell, refl)
    Finds-Safe (added p s' a) =
        returns (record { valid = Adds-Safe a; extends = a.extends }) (a.cell, a.variables)
    Finds-Safe (full c) = throws (Keeps-refl v) c

    -- `findAdd` returns a node that holds the triple.
    pub find_add-Safe :
        Ends Safe s
          (λ p s'. (s'.cell p ≡ some (triple f g h)) × (s'.variable_counter ≡ s.variable_counter))
          (find_add f g h s)
    find_add-Safe = Finds-Safe (find_add-Finds v.heap f g h small)

    pub bdd_node-Safe :
        0 < f
        → (c : Bool)
        → Ends Safe s
            (λ w s'. Labelled s' w f × (s'.variable_counter ≡ s.variable_counter))
            (bdd_node f g h (edge_of c) s)
    unfolding bdd_node
    bdd_node-Safe pos c =
        let nonzero : (f == 0) ≡ false = ground arith in
        rw nonzero (
          bind find_add-Safe
            λ p s' k (cell, others). same k.valid (cell-Labelled p (triple f g h) cell c, others))
