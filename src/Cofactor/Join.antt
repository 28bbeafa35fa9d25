-- ===== src/Cofactor/Join.antt =====
-- getCofactor below the root: the node made of the cofactors of the children.
use ibdd.Prelude.{ℕ, ◌<◌, ◌≡◌, ◌≢◌, refl, subst, Bool, true, false, not, arith, if◌then◌else◌}
use ibdd.Platform.{Platform}
use ibdd.Cofactor.{join, negate_if, xor}
use ibdd.Cofactor.Shannon.{negate_if-Denotes}
use ibdd.Diagram.{Tree, node, Bdd, bdd, Assignment, flip_if, eval_tree, eval, top}
use ibdd.Operators.Values.{Computes}
use ibdd.State.Rep.{Denotes-negate, is_complement_edge-Denotes}
use ibdd.State.Returns.{Returns, returns, mono}
use ibdd.State.Valid.{Denotes, Valid}
use ibdd.State.{State}
use ibdd.Unique.Node.{get_index-Denotes, bdd_node-Denotes}
use ibdd.Word.{negate}

-- what becomes of the low cofactor
abbrev pub low_value : Bool → Bool → Bool
low_value t_complement b = if t_complement then b else not b

join_value :
    (c d : Bool) (i : ℕ) (a b : Tree) (e : Bool) (ρ : Assignment)
    → eval (bdd (xor c d) (node i a (not e) b)) ρ
      ≡ flip_if c (if ρ i then eval (bdd d a) ρ else low_value d (eval (bdd e b) ρ))
unfolding eval eval_tree
join_value c d i a b e ρ = ground arith

flip_if_self : (c : Bool) → flip_if c c ≡ false
flip_if_self true = refl
flip_if_self false = refl

module _ ⦃m : Platform⦄ {s : State} (v : Valid s) where
  -- In a valid state, from a node and two BDDNodes t and e below its label, with t made regular
  -- not equal to !e, the end of `getCofactor` returns a BDDNode of the function that is t where
  -- the variable holds, and elsewhere e if t is complemented and !e if t is regular, all
  -- complemented if the node is, in a valid state that keeps every node, or `new` throws with the
  -- memory exhausted.
  pub join-Computes :
      {w t e i : ℕ} {c c' : Bool} {h l : Tree} {a b : Bdd}
      → Denotes s w (bdd c (node i h c' l))
      → Denotes s t a
      → Denotes s e b
      → top a < i
      → top b < i
      → negate_if a.complement t ≢ negate e
      → Returns s
          (Computes (λ ρ. flip_if c (if ρ i then eval a ρ else low_value a.complement (eval b ρ))))
          (join w t e s)
  unfolding join
  join-Computes {w} {t} {e} {i} {c} {a} {b} dw dt de la lb ne =
      let regular : Denotes s (negate_if a.complement t) (bdd false a.tree) =
        subst (λ d. Denotes s (negate_if a.complement t) (bdd d a.tree)) (flip_if_self a.complement)
          (negate_if-Denotes a.complement dt) in
      rw (is_complement_edge-Denotes dw, is_complement_edge-Denotes dt, get_index-Denotes v.heap dw)
        (mono
          (bdd_node-Denotes v i (xor c a.complement) regular (Denotes-negate de) la lb dw.reduced.2
            ne)
          λ u s' k d. returns k (record {
            res = bdd (xor c a.complement) (node i a.tree (not b.complement) b.tree);
            denotes = d;
            value = join_value c a.complement i a.tree b.tree b.complement;
          }))
