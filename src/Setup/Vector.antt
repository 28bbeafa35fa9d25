-- ===== src/Setup/Vector.antt =====
-- The vector of variables: the variable of one node, and `push_back`.
use ibdd.Prelude.{
  ℕ, suc, ◌^◌, ◌<◌, ◌≡◌, ◌≢◌, refl, sym, ◌∙◌, ap, subst, inl, inr, true, false, some, [], ◌∷◌, ◌++◌,
  arith, ◌==◌, length, get_elem?, get_elem?-append, get_elem?-append_last, length-append,
}
use native.Mathlib.Decide.{dec_lt}
use ibdd.Platform.{Platform}
use ibdd.TableKey.{TableKey}
use ibdd.CTable.Slots.{Holds-map}
use ibdd.Unique.{bdd_node}
use ibdd.Unique.Node.{
  to_word-Denotes, leaf-IsAddress, terminal1-Denotes, terminal0-Denotes, triple-Denotes,
}
use ibdd.Unique.FindAdd.{find_add-cell}
use ibdd.Word.{regular}
use ibdd.Word.Laws.{to_word_injective}
use ibdd.Diagram.{leaf, node, Bdd, bdd, Assignment, eval_tree, eval}
use ibdd.State.{State}
use ibdd.State.Rep.{Denotes-extends, IsIte-extends}
use ibdd.State.Returns.{Returns, Keeps, bind, same}
use ibdd.State.Valid.{Denotes, Valid, Extends, IsSound}

-- The diagram of one variable.
abbrev pub variable : ℕ → Bdd
variable i = bdd false (node i leaf true leaf)

pub eval-variable : (i : ℕ) (ρ : Assignment) → eval (variable i) ρ ≡ ρ i
unfolding eval eval_tree
eval-variable i ρ = ground arith

-- The constant 1 and the variables below n are there.
pub record HasVariables (n : ℕ) (s : State) : Type 0 where
  pub counted : length s.variable_counter ≡ n
  pub constant : 0 < n → get_elem? s.variable_counter 0 ≡ some s.terminal1
  pub each :
      (i : ℕ)
      → 0 < i
      → i < n
      → (w : ℕ) × (get_elem? s.variable_counter i ≡ some w) × Denotes s w (variable i)

-- variableCounter.push_back
unfoldable pub pushed : State → ℕ → State
pushed s w = record s { variable_counter = s.variable_counter ++ w ∷ [] }

pub pushed-Extends : (s : State) (w : ℕ) → Extends s (pushed s w)
unfolding pushed
pushed-Extends s w = record {
  cells = λ p d e. e;
  leaf = refl;
  terminal1 = refl;
  terminal0 = refl;
  variables = λ i a e. get_elem?-append s.variable_counter (w ∷ []) i a e;
}

module _ ⦃m : Platform⦄ {s : State} (v : Valid s) where
  pub pushed-Valid : (w : ℕ) → Valid (pushed s w)
  unfolding pushed
  pushed-Valid w = record {
    heap = record {
      leaf_cell = v.leaf_cell;
      leaf_address = v.leaf_address;
      terminal1 = v.terminal1;
      terminal0 = v.terminal0;
      allocated = v.allocated;
      counted = v.counted;
      u_loaded = v.u_loaded;
      sound = v.sound;
      complete = v.complete;
    };
    cached = Holds-map (IsSound s) (IsSound (pushed s w)) keep v.cached;
  }
    where
      keep : (a : TableKey × ℕ) → IsSound s a → IsSound (pushed s w) a
      keep (k, r) (inl stale) = inl stale
      keep (k, r) (inr i) = inr (IsIte-extends (pushed-Extends s w) k r i)

  pub pushed-Keeps : (w : ℕ) → Keeps s (pushed s w)
  pushed-Keeps w = record { valid = pushed-Valid w; extends = pushed-Extends s w }

  -- the vector after `push_back` of the variable i
  pub pushed-HasVariables :
      {i : ℕ} (w : ℕ)
      → HasVariables i s
      → (i ≡ 0 → w ≡ s.terminal1)
      → (0 < i → Denotes s w (variable i))
      → HasVariables (suc i) (pushed s w)
  unfolding pushed
  pushed-HasVariables {i} w h one d = record {
    counted = let c = h.counted in omega (arith, length-append s.variable_counter (w ∷ []));
    constant = λ pos. elim (dec_lt 0 i) [
      | yes later ↦ get_elem?-append s.variable_counter (w ∷ []) 0 s.terminal1 (h.constant later)
      | no first ↦
          let start : i ≡ 0 = omega arith in
          ap (get_elem? (s.variable_counter ++ w ∷ [])) (sym (h.counted ∙ start))
          ∙ get_elem?-append_last s.variable_counter w
          ∙ ap some (one start)
    ];
    each = λ j pos lt. elim (dec_lt j i) [
      | yes below ↦
          let (u, at, du) = h.each j pos below in
          (
            u,
            get_elem?-append s.variable_counter (w ∷ []) j u at,
            Denotes-extends (pushed-Extends s w) du,
          )
      | no above ↦
          let same : i ≡ j = omega arith in
          (
            w,
            (ap (get_elem? (s.variable_counter ++ w ∷ [])) (sym same ∙ sym h.counted)
                ∙ get_elem?-append_last s.variable_counter w),
            subst (λ k. Denotes (pushed s w) w (variable k)) same
                (Denotes-extends (pushed-Extends s w) (d (omega arith))),
          )
    ];
  }

  -- `BDDNode(i, terminal1, terminal0, regular)` is the variable i.
  pub variable_node :
      (i : ℕ)
      → 0 < i
      → i < 2 ^ 16
      → Returns s
          (λ w s'. Denotes s' w (variable i) × (s'.variable_counter ≡ s.variable_counter))
          (bdd_node i s.terminal1 s.terminal0 regular s)
  unfolding bdd_node
  variable_node i pos small =
      let nonzero : (i == 0) ≡ false = ground arith in
      rw nonzero (
        bind (find_add-cell v i s.terminal1 s.terminal0 small) λ p s' k (cell, others).
          let x = k.extends in
          same k.valid (
            to_word-Denotes false (
                triple-Denotes k.valid.heap i p (Denotes-extends x (terminal1-Denotes v.heap))
                  (Denotes-extends x (terminal0-Denotes v.heap)) pos pos small differ cell),
            others,
          ))
    where
      clash : false ≡ true → ⊥
      clash e = cc

      differ : s.terminal1 ≢ s.terminal0
      differ e =
          let a = leaf-IsAddress v.heap in
          clash (to_word_injective false true a a (sym v.terminal1 ∙ e ∙ v.terminal0)).1
