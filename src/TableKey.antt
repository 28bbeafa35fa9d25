-- ===== src/TableKey.antt =====
-- TableKey.hpp and TableKey.cpp: the key of both tables, its hash code and its equality.
use ibdd.Prelude.{
  ℕ, ◌+◌, ◌/◌, ◌%◌, ◌^◌, ◌≡◌, ◌↔◌, Bool, true, ◌&&◌, arith, ltb, ◌==◌, if◌then◌else◌,
}
use ibdd.Word.{word_mod}

-- class TableKey
pub record TableKey : Type 0 where
  pub f : ℕ
  pub g : ℕ
  pub h : ℕ

-- TableKey(size_t, size_t, size_t)
abbrev pub table_key : ℕ → ℕ → ℕ → TableKey
table_key f g h = record { f = f; g = g; h = h }

-- operator (): `(g + h) >> f`. At f ≥ 64 the shift is `wide_shift`, what the machine does there.
unfoldable pub hash : (wide_shift : ℕ → ℕ → ℕ) → TableKey → ℕ
hash wide_shift k =
    let sum = (k.g + k.h) % word_mod in if ltb k.f 64 then sum / 2 ^ k.f else wide_shift sum k.f

-- operator ==
unfoldable pub equal : TableKey → TableKey → Bool
equal a b = (a.f == b.f) && ((a.g == b.g) && (a.h == b.h))

pub equal_iff : (a b : TableKey) → (equal a b ≡ true) ↔ (a ≡ b)
unfolding equal
equal_iff a b = ground arith
