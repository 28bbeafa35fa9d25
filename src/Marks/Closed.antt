-- ===== src/Marks/Closed.antt =====
-- Flags under which a walk may stop early: below a node that has the flag every node has it.
use ibdd.Prelude.{
  ℕ, ◌<◌, ◌≡◌, ◌⊎◌, refl, sym, ◌∙◌, ap, subst, inl, inr, Bool, List, [], ◌∷◌, ◌++◌, arith, ◌==◌,
  ==_iff, Bool-cases, if◌then◌else◌, All, All-map,
}
use ibdd.Marks.Sweep.{
  addresses, sweep, IsIn, All-append, IsIn-append, mark_keeps, sweep_keeps, sweep_sets, sweep_only,
}
use ibdd.Marks.Shapes.{Shape, point, fork, label, Spans, Spans-unique}
use ibdd.Marks.{Marks, mark}
use ibdd.State.{State}
use ibdd.Word.{ptr}

pub All-IsIn : (P : ℕ → Type 0) (l : List ℕ) → ((q : ℕ) → IsIn q l → P q) → All P l
All-IsIn P [] f = tt
All-IsIn P (x ∷ l) f = (f x (inl refl), All-IsIn P l (λ q h. f q (inr h)))

module _ (s : State) (to : Bool) where
  abbrev pub children : (low high : List ℕ) → List ℕ
  children low high = if to then low ++ high else high ++ low

  pub addresses_node :
      (i : ℕ) (h l : Shape) (p : ℕ) (r : Spans s (fork i h l) p)
      → addresses s to (fork i h l) p
        ≡ p ∷ children (addresses s to l (ptr r.0.low)) (addresses s to h (ptr r.0.high))
  addresses_node i h l p (d, cell, ne, e, hs, ls) = rw cell refl

  pub IsIn-children : (q : ℕ) (xs ys : List ℕ) → IsIn q (children xs ys) → IsIn q xs ⊎ IsIn q ys
  IsIn-children q xs ys h = elim (Bool-cases to) [
    | inl y ↦ IsIn-append q xs ys (rw y at h)
    | inr n ↦ elim (IsIn-append q ys xs (rw n at h)) [ inl x ↦ inr x | inr x ↦ inl x ]
  ]

  module _ (P : ℕ → Type 0) where
    pub All-children : (xs ys : List ℕ) → All P (children xs ys) → All P xs × All P ys
    All-children xs ys h = elim (Bool-cases to) [
      | inl y ↦ All-append P xs ys (rw y at h)
      | inr n ↦ let (b, a) = All-append P ys xs (rw n at h) in (a, b)
    ]

    at_root :
        (t u : Shape) (p q : ℕ)
        → q ≡ p
        → Spans s t p
        → Spans s u q
        → All P (addresses s to t p)
        → All P (addresses s to u q)
    at_root t u p q e r r' h =
        let trees = Spans-unique s t u q (subst (Spans s t) (sym e) r) r' in
        subst (All P) (λ i. addresses s to (trees i) (sym e i)) h

    -- What holds of a diagram holds of the diagram at any of its nodes.
    All-subtree :
        (t u : Shape) (p q : ℕ)
        → Spans s t p
        → Spans s u q
        → IsIn q (addresses s to t p)
        → All P (addresses s to t p)
        → All P (addresses s to u q)
    All-subtree point u p q r r' (inl e) h = at_root point u p q e r r' h
    All-subtree point u p q r r' (inr e) h = absurd e
    All-subtree (fork i a b) u p q r r' inside h =
        let both = addresses_node i a b p r in
        let lows = addresses s to b (ptr r.0.low) in
        let highs = addresses s to a (ptr r.0.high) in
        elim (subst (IsIn q) both inside) [
          | inl e ↦ at_root (fork i a b) u p q e r r' h
          | inr below ↦
              let (on_low, on_high) = All-children lows highs (subst (All P) both h).1 in
              elim (IsIn-children q lows highs below) [
                | inl x ↦ All-subtree b u (ptr r.0.low) q r.5 r' x on_low
                | inr x ↦ All-subtree a u (ptr r.0.high) q r.4 r' x on_high
              ]
        ]

  module _ (D : ℕ → Type 0) where
    -- Below the label n a node in D that has the flag has only nodes with the flag below it.
    abbrev pub IsClosed : Marks → ℕ → Type 0
    IsClosed m n =
        (u : Shape) (q : ℕ)
        → Spans s u q
        → label u < n
        → D q
        → m q ≡ to
        → All (λ x. m x ≡ to) (addresses s to u q)

    pub IsClosed-mark :
        (t : Shape) (p n : ℕ) (m : Marks)
        → Spans s t p
        → label t < n
        → IsClosed m n
        → IsClosed (mark m p to) (label t)
    IsClosed-mark t p n m r lt closed u q r' below d e = elim (Bool-cases (q == p)) [
      | inl y ↦
          let at = (==_iff q p).0 y in
          let trees = Spans-unique s t u q (subst (Spans s t) (sym at) r) r' in
          absurd (let tops = ap label trees in omega arith)
      | inr n' ↦
          All-map _ _ (addresses s to u q) (mark_keeps to m p)
            (closed u q r' (omega arith) d (rw n' at e))
    ]

    pub IsClosed-sweep :
        (t : Shape) (p n c : ℕ) (m : Marks)
        → Spans s t p
        → IsClosed m n
        → IsClosed (sweep to (addresses s to t p) m c).0 n
    IsClosed-sweep t p n c m r closed u q r' below d e =
        let l = addresses s to t p in
        elim (sweep_only to l m c q) [
          | inl kept ↦
              All-map _ _ (addresses s to u q) (sweep_keeps to l m c)
                (closed u q r' below d (sym kept ∙ e))
          | inr inside ↦
              All-subtree (λ x. (sweep to l m c).0 x ≡ to) t u p q r r' inside
                (All-IsIn _ l (sweep_sets to l m c))
        ]
