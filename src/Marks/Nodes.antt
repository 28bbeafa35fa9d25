-- ===== src/Marks/Nodes.antt =====
-- countNodes: the number of the distinct nodes of a diagram, with every flag taken back.
use ibdd.Prelude.{
  length, ◌↔◌, ℕ, suc, ◌%◌, ◌≡◌, ◌⊎◌, refl, sym, ◌∙◌, ap, subst, inl, inr, Bool, true, false, List,
  [], ◌∷◌, ◌++◌, arith,
}
use ibdd.Marks.Closed.{children, addresses_node, IsClosed, IsIn-children, All-IsIn}
use ibdd.Marks.Sweep.{addresses, sweep, IsIn, sweep_keeps, sweep_sets, sweep_only}
use ibdd.Marks.{Marks, count_nodes_recur, set_marked, count_nodes}
use ibdd.Platform.{Platform}
use ibdd.State.Valid.{ValidHeap}
use ibdd.State.{State, ok, load, and_then}
use ibdd.Node.{get_index}
use ibdd.Marks.Shapes.{Shape, point, fork, label, Spans, Spanned, Spans-cell}
use ibdd.Word.{ptr, word_mod}
use ibdd.Marks.Bounds.{length-lt_word}
use ibdd.Marks.Count.{count_lem}
use ibdd.Marks.Unmark.{unmark_lem}
use ibdd.Marks.Distinct.{
  Distinct, unmarked, sweep-unmarked, unmarked-Distinct, unmarked-IsIn, IsIn-unmarked,
}

pub IsIn-append_left : (q : ℕ) (xs ys : List ℕ) → IsIn q xs → IsIn q (xs ++ ys)
IsIn-append_left q [] ys h = absurd h
IsIn-append_left q (x ∷ xs) ys (inl e) = inl e
IsIn-append_left q (x ∷ xs) ys (inr h) = inr (IsIn-append_left q xs ys h)

pub IsIn-append_right : (q : ℕ) (xs ys : List ℕ) → IsIn q ys → IsIn q (xs ++ ys)
IsIn-append_right q [] ys h = h
IsIn-append_right q (x ∷ xs) ys h = inr (IsIn-append_right q xs ys h)

module _ (s : State) where
  into_children :
      (b : Bool) (q : ℕ) (xs ys : List ℕ) → IsIn q xs ⊎ IsIn q ys → IsIn q (children s b xs ys)
  into_children true q xs ys (inl h) = IsIn-append_left q xs ys h
  into_children true q xs ys (inr h) = IsIn-append_right q xs ys h
  into_children false q xs ys (inl h) = IsIn-append_right q ys xs h
  into_children false q xs ys (inr h) = IsIn-append_left q ys xs h

  -- Both orders have the same addresses.
  IsIn-addresses :
      (a b : Bool) (t : Shape) (p q : ℕ)
      → Spans s t p
      → IsIn q (addresses s a t p)
      → IsIn q (addresses s b t p)
  IsIn-addresses a b point p q r h = h
  IsIn-addresses a b (fork i x y) p q r h =
      let other = sym (addresses_node s b i x y p r) in
      let low = ptr r.0.low in
      let high = ptr r.0.high in
      subst (IsIn q) other (elim (subst (IsIn q) (addresses_node s a i x y p r) h) [
        | inl e ↦ inl e
        | inr below ↦ inr (
            into_children b q _ _
              (elim (IsIn-children s a q (addresses s a y low) (addresses s a x high) below) [
                | inl u ↦ inl (IsIn-addresses a b y low q r.5 u)
                | inr u ↦ inr (IsIn-addresses a b x high q r.4 u)
              ]))
      ])

abbrev pub no_marks : Marks
no_marks q = false

false-ne-true : false ≡ true → ⊥
false-ne-true e = cc

module _ ⦃m₀ : Platform⦄ {s : State} (v : ValidHeap s) {w : ℕ} (x : Spanned s w) where
  abbrev pub nodes : Bool → List ℕ
  nodes b = addresses s b x.shape (ptr w)

  abbrev pub counted : Marks × ℕ
  counted = sweep true (nodes true) no_marks 0

  abbrev pub cleared : Marks
  cleared = (sweep false (nodes false) counted.0 0).0

  pub cleared_lem : (q : ℕ) → cleared q ≡ false
  cleared_lem q = elim (sweep_only true (nodes true) no_marks 0 q) [
    | inl never ↦ sweep_keeps false (nodes false) counted.0 0 q never
    | inr h ↦
        sweep_sets false (nodes false) counted.0 0 q
          (IsIn-addresses s true false x.shape (ptr w) q x.spans h)
  ]

  pub get_index-Spanned : get_index w s ≡ ok (label x.shape) s
  unfolding get_index load
  get_index-Spanned =
      let (d, cell, e) = Spans-cell v x.shape (ptr w) x.spans in rw cell (ap (λ n. ok n s) e)

  -- setMarked takes all the flags back that a walk has set.
  pub unmark_run : set_marked (suc (label x.shape)) w false counted.0 s ≡ ok cleared s
  unmark_run =
      unmark_lem v (λ q. IsIn q (nodes false)) (suc (label x.shape)) x.shape (ptr w) w
        (suc (label x.shape)) 0 counted.0 refl x.spans x.ordered (omega arith) (omega arith)
        (All-IsIn _ (nodes false) (λ q h. h))
        (λ u q r lt inside h. absurd (
          false-ne-true (
            sym h
            ∙ sweep_sets true (nodes true) no_marks 0 q
                (IsIn-addresses s false true x.shape (ptr w) q x.spans inside))))

  -- the nodes of the diagram, each once, in the order of the walk
  abbrev pub distinct : List ℕ
  distinct = unmarked (nodes true) no_marks

  pub distinct-IsIn : (q : ℕ) → IsIn q distinct ↔ IsIn q (nodes true)
  distinct-IsIn q = (unmarked-IsIn (nodes true) no_marks q, back)
    where
      back : IsIn q (nodes true) → IsIn q distinct
      back h = elim (IsIn-unmarked (nodes true) no_marks q h) [
        | inl never ↦ absurd (false-ne-true never)
        | inr here ↦ here
      ]

  pub counted-distinct : counted.1 ≡ length distinct
  counted-distinct = let e = sweep-unmarked (nodes true) no_marks 0 in omega arith

  -- The counter does not wrap.
  pub counted_bound : counted.1 % word_mod ≡ counted.1
  counted_bound =
      let few =
        length-lt_word v true x.shape (ptr w) distinct x.spans
          (unmarked-Distinct (nodes true) no_marks) (λ q. (distinct-IsIn q).0) in
      let e = counted-distinct in omega arith

  pub IsClosed-no_marks : (n : ℕ) → IsClosed s true (λ q. Unit {0}) no_marks n
  IsClosed-no_marks n u q r lt t h = absurd (false-ne-true h)

  pub count_recur_run :
      count_nodes_recur (suc (label x.shape)) w no_marks 0 s ≡ ok (counted.0, counted.1) s
  count_recur_run =
      subst (λ n. count_nodes_recur (suc (label x.shape)) w no_marks 0 s ≡ ok (counted.0, n) s)
        counted_bound
        (count_lem v (suc (label x.shape)) x.shape (ptr w) w (suc (label x.shape)) 0 no_marks refl
          x.spans x.ordered (omega arith) (omega arith) (IsClosed-no_marks (suc (label x.shape))))

  pub count_run : count_nodes w no_marks s ≡ ok (counted.1, cleared) s
  unfolding count_nodes
  count_run = rw (get_index-Spanned, and_then, count_recur_run, and_then, unmark_run) refl

  -- In a valid heap where no node is marked, countNodes of a BDDNode below which the labels fall
  -- from each node to its children, whether its diagram is reduced or not, returns the length of
  -- a list without repetitions of exactly the addresses of the nodes below it, changes nothing
  -- but the marks, and leaves no node marked.
  pub count_nodes_lem :
      (l : List ℕ) × (marks : Marks) × (count_nodes w no_marks s ≡ ok (length l, marks) s)
      × ((q : ℕ) → marks q ≡ false)
      × Distinct l
      × ((q : ℕ) → IsIn q l ↔ IsIn q (addresses s true x.shape (ptr w)))
  count_nodes_lem = (
    distinct,
    cleared,
    count_run ∙ ap (λ n. ok (n, cleared) s) counted-distinct,
    cleared_lem,
    unmarked-Distinct (nodes true) no_marks,
    distinct-IsIn,
  )
