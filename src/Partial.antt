-- ===== src/Partial.antt =====
-- Operations of the tables that C++ leaves undefined at some arguments: `none` stands for that.
use ibdd.Prelude.{Option, none, some}

infixl 5 ◌>>=◌
abbrev pub ◌>>=◌ {ℓ κ} : {A : Type ℓ} {B : Type κ} → Option A → (A → Option B) → Option B
none >>= f = none
some a >>= f = f a
