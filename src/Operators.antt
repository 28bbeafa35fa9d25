-- ===== src/Operators.antt =====
-- The operators of BDDNode, each a call of Manager::ite.
pub mod Values
pub mod Repeat
use ibdd.Prelude.{ℕ, suc, Bool, true, false, not, ◌==◌}
use ibdd.Platform.{Platform}
use ibdd.Ite.{largest, ite}
use ibdd.Node.{get_index}
use ibdd.State.{State, M, pure, ◌>>=◌, read}
use ibdd.Word.{negate}

-- operator ==
unfoldable pub equal : ℕ → ℕ → Bool
equal f g = f == g

-- operator !=
unfoldable pub not_equal : ℕ → ℕ → Bool
not_equal f g = not (f == g)

module _ ⦃m : Platform⦄ where
  -- a call of Manager::ite, with the fuel that its arguments need
  unfoldable pub call_ite : (f g h : ℕ) → M ℕ
  call_ite f g h = do
    i ← get_index f
    j ← get_index g
    k ← get_index h
    ite (suc (largest i j k)) f g h

  -- operator *
  unfoldable pub and : ℕ → ℕ → M ℕ
  and f g = do nought ← read (λ (s : State). s.terminal0); call_ite f g nought

  -- operator >
  unfoldable pub more : ℕ → ℕ → M ℕ
  more f g = do nought ← read (λ (s : State). s.terminal0); call_ite f (negate g) nought

  -- operator <
  unfoldable pub less : ℕ → ℕ → M ℕ
  less f g = do nought ← read (λ (s : State). s.terminal0); call_ite f nought g

  -- operator ^
  unfoldable pub xor : ℕ → ℕ → M ℕ
  xor f g = call_ite f (negate g) g

  -- operator +
  unfoldable pub or : ℕ → ℕ → M ℕ
  or f g = do one ← read (λ (s : State). s.terminal1); call_ite f one g

  -- operator |
  unfoldable pub nor : ℕ → ℕ → M ℕ
  nor f g = do nought ← read (λ (s : State). s.terminal0); call_ite f nought (negate g)

  -- operator %
  unfoldable pub xnor : ℕ → ℕ → M ℕ
  xnor f g = call_ite f g (negate g)

  -- operator &
  unfoldable pub nand : ℕ → ℕ → M ℕ
  nand f g = do one ← read (λ (s : State). s.terminal1); call_ite f (negate g) one
