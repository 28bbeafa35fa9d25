-- ===== src/Word/Laws.antt =====
-- How the edge operations of a BDDNode read a tagged address.
use ibdd.Prelude.{ℕ, ◌<◌, ◌≡◌, Bool, true, false, not, arith}
use ibdd.Word.{regular, ptr, is_complement_edge, negate, to_word, IsAddress, edge_of}

module _ {p : ℕ} (a : IsAddress p) where
  pub ptr-to_word : (c : Bool) → ptr (to_word p (edge_of c)) ≡ p
  unfolding ptr to_word
  ptr-to_word true = omega arith
  ptr-to_word false = omega arith

  pub is_complement_edge-to_word : (c : Bool) → is_complement_edge (to_word p (edge_of c)) ≡ c
  unfolding is_complement_edge to_word
  is_complement_edge-to_word true = ground arith
  is_complement_edge-to_word false = ground arith

  pub negate-to_word : (c : Bool) → negate (to_word p (edge_of c)) ≡ to_word p (edge_of (not c))
  unfolding negate to_word
  negate-to_word true = ground arith
  negate-to_word false = ground arith

  pub to_word-ne-zero : (c : Bool) → 0 < to_word p (edge_of c)
  unfolding to_word
  to_word-ne-zero true = omega arith
  to_word-ne-zero false = omega arith

  pub to_word-regular : to_word p regular ≡ p
  unfolding to_word
  to_word-regular = omega arith

-- The tagged words of two addresses are equal only if the addresses and the edges are.
pub to_word_injective :
    {p q : ℕ} (b c : Bool)
    → IsAddress p
    → IsAddress q
    → to_word p (edge_of b) ≡ to_word q (edge_of c)
    → (p ≡ q) × (b ≡ c)
unfolding to_word
to_word_injective true true x y e = (omega arith, ground arith)
to_word_injective true false x y e = absurd (omega arith)
to_word_injective false true x y e = absurd (omega arith)
to_word_injective false false x y e = (omega arith, ground arith)
