-- ===== src/Hashing.antt =====
-- What the templates `UTable<K, E>` and `CTable<K, E>` ask of `K`: `operator ()` and `operator ==`.
use ibdd.Prelude.{ℕ, ◌≡◌, ◌≢◌, ◌↔◌, Bool, true, false, refl, inl, inr, Bool-cases}

pub record Hashing {ℓ} (K : Type ℓ) : Type ℓ where
  pub hash : K → ℕ
  pub equal : K → K → Bool
  pub equal_iff : (a b : K) → (equal a b ≡ true) ↔ (a ≡ b)

module _ {ℓ} {K : Type ℓ} (keys : Hashing K) where
  pub equal_self : (a : K) → keys.equal a a ≡ true
  equal_self a = (keys.equal_iff a a).1 refl

  pub equal_of_ne : (a b : K) → a ≢ b → keys.equal a b ≡ false
  equal_of_ne a b h = elim (Bool-cases (keys.equal a b)) [
    | inl e ↦ absurd (h ((keys.equal_iff a b).0 e))
    | inr e ↦ e
  ]
