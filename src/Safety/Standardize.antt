-- ===== src/Safety/Standardize.antt =====
-- Manager::standardize and Manager::isTerminal in a safe state.
use ibdd.Prelude.{
  ℕ, ◌<◌, ◌≡◌, ◌⊎◌, refl, sym, ◌∙◌, ap, inl, inr, Bool, true, false, ◌&&◌, none, some, arith, ltb,
  ◌==◌, ==_iff, Bool-cases, if◌then◌else◌,
}
use ibdd.Ite.{is_terminal}
use ibdd.Platform.{Platform}
use ibdd.Safety.Nodes.{
  Below-negate, get_index-Labelled, terminal1-Labelled, terminal0-Labelled, label_zero,
}
use ibdd.Safety.{Labelled, Below, Safe}
use ibdd.Standardize.{
  Triple, identical, above, swap_or, swap_less, swap_xnor, swap_implies, swap_and, symmetrical,
  regular_f, regular_g, standardize,
}
use ibdd.State.Valid.{ValidHeap}
use ibdd.State.{State, M, pure, ok, and_then, ◌>>=◌}
use ibdd.Word.{is_complement_edge, negate, edge_of, to_word}

-- Three BDDNodes below n.
abbrev pub AllBelow : State → Triple → ℕ → Type 0
AllBelow s x n = Below s x.f n × Below s x.g n × Below s x.h n

module _ ⦃m : Platform⦄ {s : State} (v : ValidHeap s) where
  one-Below : {w n : ℕ} → Below s w n → Below s s.terminal1 n
  one-Below (i, a, lt) = (0, terminal1-Labelled v, omega arith)

  zero-Below : {w n : ℕ} → Below s w n → Below s s.terminal0 n
  zero-Below (i, a, lt) = (0, terminal0-Labelled v, omega arith)

  module _ {x : Triple} {n : ℕ} (a : AllBelow s x n) where
    identical-AllBelow : AllBelow s (identical s.terminal1 s.terminal0 x) n
    unfolding identical
    identical-AllBelow =
        let (f, g, h) = a in
        elim (Bool-cases (x.f == x.g)) [
          | inl y ↦ rw y (f, one-Below f, h)
          | inr n₁ ↦ rw n₁ (elim (Bool-cases (x.f == x.h)) [
            | inl y ↦ rw y (f, g, zero-Below f)
            | inr n₂ ↦ rw n₂ (elim (Bool-cases (x.f == negate x.h)) [
              | inl y ↦ rw y (f, g, one-Below f)
              | inr n₃ ↦ rw n₃ (elim (Bool-cases (x.f == negate x.g)) [
                | inl y ↦ rw y (f, zero-Below f, h)
                | inr n₄ ↦ rw n₄ a
              ])
            ])
          ])
        ]

    regular_f-AllBelow : AllBelow s (regular_f x) n
    unfolding regular_f
    regular_f-AllBelow =
        let (f, g, h) = a in
        elim (Bool-cases (is_complement_edge x.f)) [
          | inl y ↦ rw y (Below-negate v f, h, g)
          | inr z ↦ rw z a
        ]

    regular_g-AllBelow : (c : Bool) → AllBelow s (regular_g x c).0 n
    unfolding regular_g
    regular_g-AllBelow c =
        let (f, g, h) = a in
        elim (Bool-cases (is_complement_edge x.g)) [
          | inl y ↦ rw y (f, Below-negate v g, Below-negate v h)
          | inr z ↦ rw z a
        ]

    -- a rule that compares two labels and swaps, or not
    abbrev Chooses : M Triple → Type 0
    Chooses r = (y : Triple) × (r s ≡ ok y s) × AllBelow s y n

    choose :
        {b c : ℕ} (t : Triple)
        → Below s b n
        → Below s c n
        → AllBelow s t n
        → Chooses (above b c >>= λ over. pure (if over then t else x))
    unfolding above
    choose t (i, ab, lt) (j, ac, lt') all = elim (Bool-cases (ltb j i)) [
      | inl y ↦ (
        t,
        rw (get_index-Labelled v ab, and_then, get_index-Labelled v ac, and_then, y) refl,
        all,
      )
      | inr z ↦
          (x, rw (get_index-Labelled v ab, and_then, get_index-Labelled v ac, and_then, z) refl, a)
    ]

    symmetrical-AllBelow : Chooses (symmetrical s.terminal1 s.terminal0 x)
    unfolding symmetrical swap_or swap_less swap_xnor swap_implies swap_and
    symmetrical-AllBelow =
        let (f, g, h) = a in
        elim (Bool-cases (x.g == s.terminal1)) [
          | inl y ↦ rw y (choose (swap_or x) f h (h, g, f))
          | inr n₁ ↦ rw n₁ (elim (Bool-cases (x.g == s.terminal0)) [
            | inl y ↦ rw y (choose (swap_less x) f h (Below-negate v h, g, Below-negate v f))
            | inr n₂ ↦ rw n₂ (elim (Bool-cases (x.g == negate x.h)) [
              | inl y ↦ rw y (choose (swap_xnor x) f g (g, f, Below-negate v f))
              | inr n₃ ↦ rw n₃ (elim (Bool-cases (x.h == s.terminal1)) [
                | inl y ↦ rw y (choose (swap_implies x) f g (Below-negate v g, Below-negate v f, h))
                | inr n₄ ↦ rw n₄ (elim (Bool-cases (x.h == s.terminal0)) [
                  | inl y ↦ rw y (choose (swap_and x) f g (g, f, h))
                  | inr n₅ ↦ rw n₅ (x, refl, a)
                ])
              ])
            ])
          ])
        ]

  pub standardize-AllBelow :
      {x : Triple} {n : ℕ}
      → AllBelow s x n
      → (y : Triple) × (c : Bool) × (standardize x false s ≡ ok (y, c) s) × AllBelow s y n
  unfolding standardize
  standardize-AllBelow a =
      let (y, run, b) = symmetrical-AllBelow (identical-AllBelow a) in
      (
        (regular_g (regular_f y) false).0,
        (regular_g (regular_f y) false).1,
        rw run refl,
        regular_g-AllBelow (regular_f-AllBelow b) false,
      )

-- isTerminal returns one of its arguments, or f is not a leaf.
pub is_terminal-Below :
    ⦃m : Platform⦄ {s : State}
    → Safe s
    → {x : Triple} {n i : ℕ} → AllBelow s x n
    → Labelled s x.f i
    → ((w : ℕ) × (is_terminal s.terminal1 s.terminal0 x ≡ some w) × Below s w n)
      ⊎ ((is_terminal s.terminal1 s.terminal0 x ≡ none) × (0 < i))
unfolding is_terminal
is_terminal-Below {s} v {x} {n} {i} (f, g, h) af = elim (Bool-cases (x.f == s.terminal1)) [
  | inl y ↦ rw y (inl (x.g, refl, g))
  | inr n₁ ↦ rw n₁ (elim (Bool-cases (x.f == s.terminal0)) [
    | inl y ↦ rw y (inl (x.h, refl, h))
    | inr n₂ ↦ rw n₂ (elim (Bool-cases ((x.h == s.terminal0) && (x.g == s.terminal1))) [
      | inl y ↦ rw y (inl (x.f, refl, f))
      | inr n₃ ↦ rw n₃ (elim (Bool-cases (x.g == x.h)) [
        | inl y ↦ rw y (inl (x.g, refl, g))
        | inr n₄ ↦ rw n₄ (inr (refl, positive i af refl n₁ n₂))
      ])
    ])
  ])
]
  where
    clash : true ≡ false → ⊥
    clash e = cc

    terminal :
        (c : Bool)
        → x.f ≡ to_word s.leaf (edge_of c)
        → (x.f == s.terminal1) ≡ false
        → (x.f == s.terminal0) ≡ false
        → ⊥
    terminal false e p q = clash (sym ((==_iff x.f s.terminal1).1 (e ∙ sym v.terminal1)) ∙ p)
    terminal true e p q = clash (sym ((==_iff x.f s.terminal0).1 (e ∙ sym v.terminal0)) ∙ q)

    positive :
        (j : ℕ)
        → Labelled s x.f j
        → j ≡ i
        → (x.f == s.terminal1) ≡ false
        → (x.f == s.terminal0) ≡ false
        → 0 < i
    positive j a e p q = elim (Bool-cases (j == 0)) [
      | inl y ↦
          let l = label_zero v a ((==_iff j 0).0 y) in
          absurd (terminal a.complement (a.word ∙ ap (λ z. to_word z (edge_of a.complement)) l) p q)
      | inr z ↦ ground arith
    ]
