-- ===== src/Diagram/Reference.antt =====
-- The reference: the reduced diagram of a function from its truth table, with no table and no heap.
use native.Mathlib.Decide.{ℕ_discrete}
use ibdd.Prelude.{
  ℕ, zero, suc, ◌<◌, ◌≤◌, ◌^◌, ◌≡◌, ◌≢◌, refl, ◌∙◌, ap, Bool, true, false, not, arith,
  if◌then◌else◌,
}
use ibdd.Diagram.Cofactor.{update, update_self, update_ne}
use ibdd.Diagram.{Tree, leaf, node, Bdd, bdd, Assignment, flip_if, eval_tree, eval, top, IsReduced}

unfoldable pub Tree-discrete : Discrete Tree
Tree-discrete = hlevel (ℕ_discrete)

unfoldable pub Bdd-discrete : Discrete Bdd
Bdd-discrete = hlevel (Tree-discrete)

-- the node of the variable i over two diagrams
abbrev branch : ℕ → Bdd → Bdd → Bdd
branch i t e = bdd t.complement (node i t.tree (flip_if t.complement e.complement) e.tree)

abbrev unless_same : (i : ℕ) (t e : Bdd) → Dec (t ≡ e) → Bdd
unless_same i t e (yes same) = t
unless_same i t e (no differ) = branch i t e

-- the diagram that decides by the variable i between two
unfoldable pub decide_by : ℕ → Bdd → Bdd → Bdd
decide_by i t e = unless_same i t e (Bdd-discrete t e)

-- The diagram of a function of the variables up to n: it decides by the greatest variable first.
unfoldable pub truth_diagram : ℕ → (Assignment → Bool) → Bdd
truth_diagram zero φ = bdd (not (φ (λ _. false))) leaf
truth_diagram (suc n) φ =
    decide_by (suc n) (truth_diagram n (λ ρ. φ (update ρ (suc n) true)))
      (truth_diagram n (λ ρ. φ (update ρ (suc n) false)))

-- An assignment of the variables up to n, the others being false.
abbrev pub restrict : ℕ → Assignment → Assignment
restrict zero ρ = λ _. false
restrict (suc n) ρ = update (restrict n ρ) (suc n) (ρ (suc n))

pub restrict_self : (n : ℕ) (ρ : Assignment) (i : ℕ) → 0 < i → i ≤ n → restrict n ρ i ≡ ρ i
restrict_self zero ρ i pos le = absurd (omega arith)
restrict_self (suc n) ρ i pos le = elim (ℕ_discrete i (suc n)) [
  | yes e ↦ rw e (update_self (restrict n ρ) (suc n) (ρ (suc n)))
  | no ne ↦
      update_ne (restrict n ρ) (suc n) i (ρ (suc n)) (omega arith)
      ∙ restrict_self n ρ i pos (omega arith)
]

not-flip : (d x : Bool) → not (flip_if (not d) x) ≡ flip_if d x
not-flip d x = ground arith

-- The node's edges.
eval-edges :
    (b c d : Bool) (h l : Tree) (ρ : Assignment)
    → flip_if c (if b then eval_tree h ρ else flip_if (flip_if c d) (eval_tree l ρ))
      ≡ (if b then flip_if c (eval_tree h ρ) else flip_if d (eval_tree l ρ))
eval-edges true c d h l ρ = refl
eval-edges false true d h l ρ = not-flip d (eval_tree l ρ)
eval-edges false false d h l ρ = refl

if_same : (b x : Bool) → x ≡ (if b then x else x)
if_same b x = ground arith

pub eval-decide_by :
    (i : ℕ) (t e : Bdd) (ρ : Assignment)
    → eval (decide_by i t e) ρ ≡ (if ρ i then eval t ρ else eval e ρ)
unfolding eval eval_tree decide_by
eval-decide_by i t e ρ = by_same (Bdd-discrete t e)
  where
    by_same :
        (d : Dec (t ≡ e)) → eval (unless_same i t e d) ρ ≡ (if ρ i then eval t ρ else eval e ρ)
    by_same (yes same) =
        if_same (ρ i) (eval t ρ) ∙ ap (λ (d : Bdd). if ρ i then eval t ρ else eval d ρ) same
    by_same (no differ) = eval-edges (ρ i) t.complement e.complement t.tree e.tree ρ

eval-leaf : (b : Bool) (ρ : Assignment) → eval (bdd (not b) leaf) ρ ≡ b
unfolding eval eval_tree
eval-leaf true ρ = refl
eval-leaf false ρ = refl

-- The diagram computes the function.
pub eval-truth_diagram :
    (n : ℕ) (φ : Assignment → Bool) (ρ : Assignment) → eval (truth_diagram n φ) ρ ≡ φ (restrict n ρ)
unfolding truth_diagram
eval-truth_diagram zero φ ρ = eval-leaf (φ (λ _. false)) ρ
eval-truth_diagram (suc n) φ ρ =
    eval-decide_by (suc n) (truth_diagram n (λ σ. φ (update σ (suc n) true)))
      (truth_diagram n (λ σ. φ (update σ (suc n) false))) ρ
    ∙ rw
        (
          eval-truth_diagram n (λ σ. φ (update σ (suc n) true)) ρ,
          eval-truth_diagram n (λ σ. φ (update σ (suc n) false)) ρ,
        )
        (if_update (ρ (suc n)))
  where
    if_update :
        (b : Bool)
        → (if b
            then φ (update (restrict n ρ) (suc n) true)
            else φ (update (restrict n ρ) (suc n) false))
          ≡ φ (update (restrict n ρ) (suc n) b)
    if_update true = refl
    if_update false = refl

-- Its root is a variable up to n,
top-decide_by : (i : ℕ) (t e : Bdd) → top t ≤ i → top (decide_by i t e) ≤ i
unfolding decide_by
top-decide_by i t e le = by_same (Bdd-discrete t e)
  where
    by_same : (d : Dec (t ≡ e)) → top (unless_same i t e d) ≤ i
    by_same (yes same) = le
    by_same (no differ) = omega arith

pub top-truth_diagram : (n : ℕ) (φ : Assignment → Bool) → top (truth_diagram n φ) ≤ n
unfolding truth_diagram
top-truth_diagram zero φ = omega arith
top-truth_diagram (suc n) φ =
    let le = top-truth_diagram n (λ σ. φ (update σ (suc n) true)) in
    top-decide_by (suc n) (truth_diagram n (λ σ. φ (update σ (suc n) true)))
      (truth_diagram n (λ σ. φ (update σ (suc n) false))) (omega (arith, le))

-- and it is reduced.
edges-differ :
    (t e : Bdd) → t ≢ e → bdd false t.tree ≢ bdd (flip_if t.complement e.complement) e.tree
edges-differ t e ne same =
    let trees : t.tree ≡ e.tree = ap (λ (d : Bdd). d.tree) same in
    let edges : t.complement ≡ e.complement =
      by_flip t.complement e.complement (ap (λ (d : Bdd). d.complement) same) in
    ne (λ i. record { complement = edges i; tree = trees i })
  where
    by_flip : (c d : Bool) → false ≡ flip_if c d → c ≡ d
    by_flip c d e = ground arith

IsReduced-decide_by :
    (i : ℕ) (t e : Bdd)
    → top t < i
    → top e < i
    → i < 2 ^ 16
    → IsReduced t.tree
    → IsReduced e.tree
    → IsReduced (decide_by i t e).tree
unfolding decide_by
IsReduced-decide_by i t e p q small r r' = by_same (Bdd-discrete t e)
  where
    by_same : (d : Dec (t ≡ e)) → IsReduced (unless_same i t e d).tree
    by_same (yes same) = r
    by_same (no differ) = (p, q, small, edges-differ t e differ, r, r')

pub truth_diagram-IsReduced :
    (n : ℕ) (φ : Assignment → Bool) → n < 2 ^ 16 → IsReduced (truth_diagram n φ).tree
unfolding truth_diagram
truth_diagram-IsReduced zero φ small = tt
truth_diagram-IsReduced (suc n) φ small =
    let high : Assignment → Bool = λ σ. φ (update σ (suc n) true) in
    let low : Assignment → Bool = λ σ. φ (update σ (suc n) false) in
    IsReduced-decide_by (suc n) (truth_diagram n high) (truth_diagram n low)
      (omega (arith, top-truth_diagram n high)) (omega (arith, top-truth_diagram n low)) small
      (truth_diagram-IsReduced n high (omega arith)) (truth_diagram-IsReduced n low (omega arith))
