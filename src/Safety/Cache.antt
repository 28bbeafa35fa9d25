-- ===== src/Safety/Cache.antt =====
-- The computed table in a safe state: a hit is not labelled above its key, and such an entry may be
-- inserted.
use ibdd.Prelude.{ℕ, ◌≡◌, ◌⊎◌, refl, ◌∙◌, inl, inr, none, some, Option-cases, arith}
use ibdd.CTable.{CTable}
use ibdd.CTable.Slots.{Holds, Holds-map, has_next_lem, insert_lem}
use ibdd.Ite.{has_next, insert}
use ibdd.Platform.{Platform}
use ibdd.Safety.Nodes.{Labelled-unique, ptr-Labelled, Bounded-extends, Below-extends}
use ibdd.Safety.{Labelled, Below, Bounded, IsBounded, Safe}
use ibdd.State.Returns.{KeepsOf}
use ibdd.State.Valid.{Extends}
use ibdd.State.{State, ok, keys}
use ibdd.TableKey.{TableKey}

module _ ⦃m : Platform⦄ {s : State} (v : Safe s) where
  Bounded-of :
      {k : TableKey} {i : ℕ} (r : ℕ) → Labelled s k.f i → IsBounded s (k, r) → Bounded s k r
  Bounded-of r a (inr b) = b
  Bounded-of r a (inl stale) =
      let (n, lt, at) = v.allocated a.node a.cell a.here in
      absurd (stale n (ptr-Labelled v.heap a ∙ at))

  Bounded-Below :
      {k : TableKey} {n : ℕ} (r : ℕ)
      → Bounded s k r
      → Below s k.f n
      → Below s k.g n
      → Below s k.h n
      → Below s r n
  Bounded-Below {n = n} r b (i, af, f) (j, ag, g) (l, ah, h) =
      let ef = Labelled-unique v.heap af b.f_labelled in
      let eg = Labelled-unique v.heap ag b.g_labelled in
      let eh = Labelled-unique v.heap ah b.h_labelled in
      (b.res, b.res_labelled, b.bound n (omega arith) (omega arith) (omega arith))

  -- A lookup changes nothing.
  pub has_next-Below :
      {k : TableKey} {n : ℕ}
      → Below s k.f n
      → Below s k.g n
      → Below s k.h n
      → (has_next k s ≡ ok none s) ⊎ ((r : ℕ) × (has_next k s ≡ ok (some r) s) × Below s r n)
  unfolding has_next
  has_next-Below {k} f g h =
      let (o, run, bounded) = has_next_lem keys (IsBounded s) v.cached k 0 in
      elim (Option-cases o) [
        | inl e ↦ inl (rw (run, e) refl)
        | inr (r, e) ↦
            inr (r, rw (run, e) refl, Bounded-Below r (Bounded-of r f.1 (bounded r e)) f g h)
      ]

  with_cache : CTable TableKey ℕ → State
  with_cache c = record s { c_table = c }

  with_cache-Extends : (c : CTable TableKey ℕ) → Extends s (with_cache c)
  unfolding with_cache
  with_cache-Extends c = record {
    cells = λ p d e. e;
    leaf = refl;
    terminal1 = refl;
    terminal0 = refl;
    variables = λ i w h. h;
  }

  with_cache-Safe : (c : CTable TableKey ℕ) → Holds (IsBounded s) c → Safe (with_cache c)
  unfolding with_cache with_cache-Extends
  with_cache-Safe c t = record {
    heap = record {
      leaf_cell = v.leaf_cell;
      leaf_address = v.leaf_address;
      terminal1 = v.terminal1;
      terminal0 = v.terminal0;
      allocated = v.allocated;
      counted = v.counted;
      u_loaded = v.u_loaded;
      sound = v.sound;
      complete = v.complete;
    };
    small = v.small;
    children = λ p d e ne.
        let (low, high) = v.children p d e ne in
        (Below-extends (with_cache-Extends c) low, Below-extends (with_cache-Extends c) high);
    variables = λ i w e. Below-extends (with_cache-Extends c) (v.variables i w e);
    few = v.few;
    cached = Holds-map (IsBounded s) (IsBounded (with_cache c)) keep t;
  }
    where
      keep : (a : TableKey × ℕ) → IsBounded s a → IsBounded (with_cache c) a
      keep (k, r) (inl stale) = inl stale
      keep (k, r) (inr b) = inr (Bounded-extends k r (with_cache-Extends c) b)

  pub insert-Safe :
      (k : TableKey) (r : ℕ)
      → Bounded s k r
      → (s' : State) × (insert k r s ≡ ok tt s') × KeepsOf Safe s s'
  unfolding insert with_cache
  insert-Safe k r b =
      let (c, run, t, hit) = insert_lem keys (IsBounded s) v.cached k r (inr b) in
      (
        with_cache c,
        rw run refl,
        record { valid = with_cache-Safe c t; extends = with_cache-Extends c },
      )
