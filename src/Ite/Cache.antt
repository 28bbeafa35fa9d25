-- ===== src/Ite/Cache.antt =====
-- The computed table in a valid state: a hit is the result of the call, and a result may be inserted.
use ibdd.Prelude.{ℕ, ◌≡◌, ◌⊎◌, refl, sym, ◌∙◌, inl, inr, Bool, none, some, Option-cases}
use ibdd.Platform.{Platform}
use ibdd.TableKey.{TableKey, table_key}
use ibdd.CTable.{CTable}
use ibdd.CTable.Slots.{Holds, Holds-map, has_next_lem, insert_lem}
use ibdd.Diagram.{Assignment, eval}
use ibdd.Ite.Terminal.{Result}
use ibdd.Ite.{has_next, insert}
use ibdd.Standardize.{Triple}
use ibdd.Standardize.Args.{Args}
use ibdd.State.{State, ok, keys}
use ibdd.State.Rep.{Denotes-unique, ptr-Denotes, IsIte-extends}
use ibdd.State.Returns.{Keeps}
use ibdd.State.Valid.{Valid, Extends, IsIte, IsSound, ite_value}
use ibdd.Unique.Node.{Rep-index}

abbrev pub key_of : Triple → TableKey
key_of x = table_key x.f x.g x.h

module _ ⦃m : Platform⦄ {s : State} (v : Valid s) where
  -- An entry under a key of three BDDNodes is their result.
  sound_IsIte :
      {x : Triple} {n : ℕ} {φ : Assignment → Bool} (r : ℕ)
      → Args s x n φ
      → IsSound s (key_of x, r)
      → IsIte s (key_of x) r
  sound_IsIte r a (inr i) = i
  sound_IsIte r a (inl stale) =
      let (d, cell, index) = Rep-index v.heap a.f.tree a.f_denotes.node a.f_denotes.rep in
      let (n, lt, at) = v.allocated a.f_denotes.node d cell in
      absurd (stale n (ptr-Denotes a.f_denotes ∙ at))

  IsIte-Result :
      {x : Triple} {n : ℕ} {φ : Assignment → Bool} (r : ℕ)
      → Args s x n φ
      → IsIte s (key_of x) r
      → Result s r n φ
  IsIte-Result {n} r a i =
      let ef = Denotes-unique i.f a.f i.f_denotes a.f_denotes in
      let eg = Denotes-unique i.g a.g i.g_denotes a.g_denotes in
      let eh = Denotes-unique i.h a.h i.h_denotes a.h_denotes in
      record {
        res = i.res;
        denotes = i.res_denotes;
        bound = i.bound n (rw ef a.f_lt) (rw eg a.g_lt) (rw eh a.h_lt);
        value = λ ρ.
            i.value ρ
            ∙ (λ j. ite_value (eval (ef j) ρ) (eval (eg j) ρ) (eval (eh j) ρ))
            ∙ sym (a.value ρ);
      }

  -- In a valid state a lookup of the triple of three BDDNodes with labels below a bound changes
  -- nothing; it misses, or it returns a BDDNode of ite(f, g, h) below the bound.
  pub has_next-Result :
      {x : Triple} {n : ℕ} {φ : Assignment → Bool}
      → Args s x n φ
      → (has_next (key_of x) s ≡ ok none s)
        ⊎ ((r : ℕ) × (has_next (key_of x) s ≡ ok (some r) s) × Result s r n φ)
  unfolding has_next
  has_next-Result {x} a =
      let (o, run, sound) = has_next_lem keys (IsSound s) v.cached (key_of x) 0 in
      elim (Option-cases o) [
        | inl e ↦ inl (rw (run, e))
        | inr (r, e) ↦ inr (r, rw (run, e), IsIte-Result r a (sound_IsIte r a (sound r e)))
      ]

  with_cache : CTable TableKey ℕ → State
  with_cache c = record s { c_table = c }

  with_cache-Extends : (c : CTable TableKey ℕ) → Extends s (with_cache c)
  unfolding with_cache
  with_cache-Extends c = record {
    cells = λ p d e. e;
    leaf = refl;
    terminal1 = refl;
    terminal0 = refl;
    variables = λ i w h. h;
  }

  with_cache-Valid : (c : CTable TableKey ℕ) → Holds (IsSound s) c → Valid (with_cache c)
  unfolding with_cache with_cache-Extends
  with_cache-Valid c t = record {
    heap = record {
      leaf_cell = v.leaf_cell;
      leaf_address = v.leaf_address;
      terminal1 = v.terminal1;
      terminal0 = v.terminal0;
      allocated = v.allocated;
      counted = v.counted;
      u_loaded = v.u_loaded;
      sound = v.sound;
      complete = v.complete;
    };
    cached = Holds-map (IsSound s) (IsSound (with_cache c)) keep t;
  }
    where
      keep : (a : TableKey × ℕ) → IsSound s a → IsSound (with_cache c) a
      keep (k, r) (inl stale) = inl stale
      keep (k, r) (inr i) = inr (IsIte-extends (with_cache-Extends c) k r i)

  -- In a valid state the insertion of a right entry is defined and leaves a valid state that
  -- keeps every node.
  pub insert-Keeps :
      (k : TableKey) (r : ℕ) → IsIte s k r → (s' : State) × (insert k r s ≡ ok tt s') × Keeps s s'
  unfolding insert with_cache
  insert-Keeps k r i =
      let (c, run, t, hit) = insert_lem keys (IsSound s) v.cached k r (inr i) in
      (
        with_cache c,
        rw run,
        record { valid = with_cache-Valid c t; extends = with_cache-Extends c },
      )
