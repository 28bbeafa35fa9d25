-- ===== src/Exist/Above.antt =====
-- BDDNode::exist of a variable above the root, on which the function does not depend.
use ibdd.Prelude.{
  ℕ, suc, ◌<◌, ◌≡◌, refl, sym, ◌∙◌, ap, ap₂, Bool, true, false, ◌||◌, arith, ltb, ◌==◌,
}
use ibdd.Platform.{Platform}
use ibdd.Cofactor.Shannon.{above}
use ibdd.Diagram.{Tree, leaf, node, Bdd, bdd, Assignment, eval, top, top_tree}
use ibdd.Diagram.Cofactor.{update, eval-cofactor-update}
use ibdd.Exist.{exist_recur, exist}
use ibdd.Exist.Root.{exists_value}
use ibdd.State.Valid.{Denotes, ValidHeap}
use ibdd.State.{State, ok, and_then}
use ibdd.Unique.Node.{get_index-Denotes, is_leaf-Denotes, is_leaf-Denotes_node}

or_self : (b : Bool) → (b || b) ≡ b
or_self true = refl
or_self false = refl

module _ ⦃m : Platform⦄ {s : State} (v : ValidHeap s) where
  exist_recur-above :
      {w : ℕ} (c : Bool) (t : Tree) (fuel j : ℕ)
      → Denotes s w (bdd c t)
      → top_tree t < j
      → exist_recur (suc fuel) w j s ≡ ok w s
  unfolding exist_recur
  exist_recur-above c leaf fuel j d lt = rw (is_leaf-Denotes v d) refl
  exist_recur-above c (node i h b l) fuel j d lt =
      let test : ltb i j ≡ true = ground arith in
      rw (is_leaf-Denotes_node v d, and_then, get_index-Denotes v d, and_then, test) refl

  unchanged :
      {w : ℕ} {e : Bdd} (j : ℕ) (b : Bool) (ρ : Assignment)
      → Denotes s w e
      → top e < j
      → eval e (update ρ j b) ≡ eval e ρ
  unchanged {e} j b ρ d lt =
      sym (eval-cofactor-update b j e ρ d.reduced (omega arith) (omega arith))
      ∙ ap (λ z. eval z ρ) (above v j b d lt).1

  -- In a valid heap the quantification of a variable with a greater index than the label of the
  -- root returns the BDDNode itself and changes nothing, and the function with that variable
  -- quantified is the function itself.
  pub exist-above :
      {w : ℕ} {e : Bdd} (j : ℕ)
      → Denotes s w e
      → top e < j
      → (exist w j s ≡ ok w s) × ((ρ : Assignment) → eval e ρ ≡ exists_value e j ρ)
  unfolding exist
  exist-above {e} j d lt =
      let nonzero : (j == 0) ≡ false = ground arith in
      (
        rw (exist, nonzero, get_index-Denotes v d)
            (exist_recur-above e.complement e.tree (top e) j d lt),
        λ ρ.
            sym (or_self (eval e ρ))
            ∙ ap₂ ◌||◌ (sym (unchanged j false ρ d lt)) (sym (unchanged j true ρ d lt)),
      )
