-- ===== src/Safety/Nodes.antt =====
-- The accessors of a BDDNode and Manager::findAdd in a safe state.
use ibdd.Prelude.{
  ℕ, ◌<◌, ◌≤◌, ◌^◌, ◌≡◌, ◌≢◌, refl, sym, ◌∙◌, ap, subst, inl, inr, true, false, not, arith, ◌==◌,
  ==_iff, Bool-cases,
}
use mathlib.Core.Option.{some-injective}
use ibdd.Node.{get_high, get_low, get_index, is_leaf}
use ibdd.Platform.{Platform}
use ibdd.Safety.{Labelled, Below, Bounded, Safe}
use ibdd.State.Valid.{Extends, ValidHeap}
use ibdd.State.{State, ok, load}
use ibdd.TableKey.{TableKey}
use ibdd.Unique.Finds.{triple, cell-IsAddress}
use ibdd.Word.{IsAddress, negate, ptr}
use ibdd.Word.Laws.{ptr-to_word, negate-to_word}

pub Labelled-extends : {s s' : State} {w i : ℕ} → Extends s s' → Labelled s w i → Labelled s' w i
Labelled-extends x a = record {
  node = a.node;
  complement = a.complement;
  word = a.word;
  cell = a.cell;
  here = x.cells a.node a.cell a.here;
  label = a.label;
}

pub Below-extends : {s s' : State} {w n : ℕ} → Extends s s' → Below s w n → Below s' w n
Below-extends x (i, a, lt) = (i, Labelled-extends x a, lt)

pub Below-le : {s : State} {w n : ℕ} (k : ℕ) → n ≤ k → Below s w n → Below s w k
Below-le k le (i, a, lt) = (i, a, omega arith)

pub Bounded-extends :
    {s s' : State} (k : TableKey) (r : ℕ) → Extends s s' → Bounded s k r → Bounded s' k r
Bounded-extends k r x b = record {
  f = b.f;
  g = b.g;
  h = b.h;
  res = b.res;
  f_labelled = Labelled-extends x b.f_labelled;
  g_labelled = Labelled-extends x b.g_labelled;
  h_labelled = Labelled-extends x b.h_labelled;
  res_labelled = Labelled-extends x b.res_labelled;
  bound = b.bound;
}

module _ ⦃m : Platform⦄ {s : State} (v : ValidHeap s) where
  pub Labelled-IsAddress : {w i : ℕ} (a : Labelled s w i) → IsAddress a.node
  Labelled-IsAddress a = cell-IsAddress v a.node a.cell a.here

  pub ptr-Labelled : {w i : ℕ} (a : Labelled s w i) → ptr w ≡ a.node
  ptr-Labelled a = ap ptr a.word ∙ ptr-to_word (Labelled-IsAddress a) a.complement

  -- A word has one label.
  pub Labelled-unique : {w i j : ℕ} → Labelled s w i → Labelled s w j → i ≡ j
  Labelled-unique a b =
      let nodes = sym (ptr-Labelled a) ∙ ptr-Labelled b in
      let cells = some-injective a.cell b.cell (sym a.here ∙ ap s.cell nodes ∙ b.here) in
      sym a.label ∙ (λ i. (cells i).index) ∙ b.label

  pub Labelled-negate : {w i : ℕ} → Labelled s w i → Labelled s (negate w) i
  Labelled-negate a = record {
    node = a.node;
    complement = not a.complement;
    word = ap negate a.word ∙ negate-to_word (Labelled-IsAddress a) a.complement;
    cell = a.cell;
    here = a.here;
    label = a.label;
  }

  pub Below-negate : {w n : ℕ} → Below s w n → Below s (negate w) n
  Below-negate (i, a, lt) = (i, Labelled-negate a, lt)

  pub get_index-Labelled : {w i : ℕ} → Labelled s w i → get_index w s ≡ ok i s
  unfolding get_index load
  get_index-Labelled a = rw (ptr-Labelled a, a.here) (ap (λ n. ok n s) a.label)

  pub terminal1-Labelled : Labelled s s.terminal1 0
  terminal1-Labelled = record {
    node = s.leaf;
    complement = false;
    word = v.terminal1;
    cell = triple 0 0 0;
    here = v.leaf_cell;
    label = refl;
  }

  pub terminal0-Labelled : Labelled s s.terminal0 0
  terminal0-Labelled = record {
    node = s.leaf;
    complement = true;
    word = v.terminal0;
    cell = triple 0 0 0;
    here = v.leaf_cell;
    label = refl;
  }

module _ ⦃m : Platform⦄ {s : State} (v : Safe s) where
  -- A node with a positive label is not the leaf, and any other node has one.
  pub not_leaf : {w i : ℕ} (a : Labelled s w i) → 0 < i → a.node ≢ s.leaf
  not_leaf a pos e =
      let same : a.cell ≡ triple 0 0 0 =
        some-injective a.cell (triple 0 0 0) (sym a.here ∙ ap s.cell e ∙ v.leaf_cell) in
      let zero_index : a.cell.index ≡ 0 = λ j. (same j).index in let l = a.label in omega arith

  pub label_zero : {w i : ℕ} (a : Labelled s w i) → i ≡ 0 → a.node ≡ s.leaf
  label_zero a e = elim (Bool-cases (a.node == s.leaf)) [
    | inl y ↦ (==_iff a.node s.leaf).0 y
    | inr n ↦
        let (low, high) =
          v.children a.node a.cell a.here (λ q. clash (sym ((==_iff a.node s.leaf).1 q) ∙ n)) in
        let lt = low.2 in let l = a.label in absurd (omega arith)
  ]
    where
      clash : true ≡ false → ⊥
      clash q = cc

  pub is_leaf-Labelled : {w i : ℕ} → Labelled s w i → is_leaf w s ≡ ok (i == 0) s
  unfolding is_leaf
  is_leaf-Labelled {w} {i} a = elim (Bool-cases (i == 0)) [
    | inl y ↦
        rw (y, ptr-Labelled v.heap a)
          (ap (λ b. ok b s) ((==_iff a.node s.leaf).1 (label_zero a ((==_iff i 0).0 y))))
    | inr n ↦
        let ne = not_leaf a (ground arith) in
        rw (n, ptr-Labelled v.heap a) (ap (λ b. ok b s) (ground arith))
  ]

  pub label-lt : {w i : ℕ} → Labelled s w i → i < 2 ^ 16
  label-lt a = subst (λ n. n < 2 ^ 16) a.label (v.small a.node a.cell a.here)

  pub ptr_nonnull : {w i : ℕ} → Labelled s w i → (ptr w == 0) ≡ false
  ptr_nonnull a = let n = Labelled-IsAddress v.heap a in rw (ptr-Labelled v.heap a) (ground arith)

  module _ {w i : ℕ} (a : Labelled s w i) (pos : 0 < i) where
    below : Below s a.cell.low i × Below s a.cell.high i
    below =
        let (low, high) = v.children a.node a.cell a.here (not_leaf a pos) in
        let l = a.label in (Below-le i (omega arith) low, Below-le i (omega arith) high)

    pub get_high-Labelled : (u : ℕ) × (get_high w s ≡ ok u s) × Below s u i
    unfolding get_high load
    get_high-Labelled =
        (a.cell.high, rw (ptr_nonnull a, ptr-Labelled v.heap a, a.here) refl, below.1)

    pub get_low-Labelled : (u : ℕ) × (get_low w s ≡ ok u s) × Below s u i
    unfolding get_low load
    get_low-Labelled = (a.cell.low, rw (ptr_nonnull a, ptr-Labelled v.heap a, a.here) refl, below.0)
