-- ===== src/Platform.antt =====
-- What the program takes from the machine it runs on: the addresses that `new DDNode` returns, the
-- result of a shift by the word size or more, and the memory in which `new std::pair<TableKey,
-- size_t>[size]` leaves its keys uninitialised.
use ibdd.Prelude.{ℕ, ◌<◌, ◌≡◌, ◌≢◌}
use ibdd.TableKey.{TableKey}
use ibdd.Word.{IsAddress, ptr}

pub record Platform : Type 0 where
  -- how many DDNodes can be allocated before `new` throws `std::bad_alloc`
  pub capacity : ℕ
  -- the address of the n-th of them; none is freed while a Manager lives
  pub address : ℕ → ℕ
  pub address-IsAddress : (n : ℕ) → n < capacity → IsAddress (address n)
  pub address_injective : (n k : ℕ) → n < capacity → k < capacity → address n ≡ address k → n ≡ k
  -- `x >> n` at n ≥ 64
  pub wide_shift : ℕ → ℕ → ℕ
  -- the key that the i-th fresh entry of the computed table happens to hold
  pub stale : ℕ → TableKey
  -- no such key starts with the address of a DDNode
  pub stale-ne-address : (i n : ℕ) → ptr (stale i).f ≢ address n
