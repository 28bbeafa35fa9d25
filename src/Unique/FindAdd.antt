-- ===== src/Unique/FindAdd.antt =====
-- Manager::findAdd in a valid state: the computed table stays right.
use ibdd.Prelude.{ℕ, ◌^◌, ◌<◌, ◌≡◌, refl, sym, subst, inl, inr, some}
use ibdd.Platform.{Platform}
use ibdd.TableKey.{TableKey}
use ibdd.CTable.Slots.{Holds, Holds-map}
use ibdd.State.{DdNode, State, Outcome}
use ibdd.State.Rep.{IsIte-extends}
use ibdd.State.Returns.{Returns, returns, throws, Keeps-refl, same}
use ibdd.State.Valid.{Valid, IsSound}
use ibdd.Unique.{find_add}
use ibdd.Unique.Finds.{triple, Adds, Finds, found, added, full, find_add-Finds}

module _ ⦃m : Platform⦄ {s : State} (v : Valid s) where
  -- A node of the triple, with the vector of variables as it was.
  abbrev pub IsNodeOf : ℕ → ℕ → ℕ → ℕ → State → Type 0
  IsNodeOf f g h p s' =
      (s'.cell p ≡ some (triple f g h)) × (s'.variable_counter ≡ s.variable_counter)

  pub Adds-Valid : {p : ℕ} {d : DdNode} {s' : State} → Adds v.heap p d s' → Valid s'
  Adds-Valid {s' = s'} a = record {
    heap = a.heap;
    cached =
        subst (Holds (IsSound s')) (sym a.cache) (Holds-map (IsSound s) (IsSound s') keep v.cached);
  }
    where
      keep : (e : TableKey × ℕ) → IsSound s e → IsSound s' e
      keep (k, r) (inl n) = inl n
      keep (k, r) (inr i) = inr (IsIte-extends a.extends k r i)

  Finds-Returns : {f g h : ℕ} {r : Outcome ℕ} → Finds v.heap f g h r → Returns s (IsNodeOf f g h) r
  Finds-Returns (found p cell) = same v (cell, refl)
  Finds-Returns (added p s' a) =
      returns (record { valid = Adds-Valid a; extends = a.extends }) (a.cell, a.variables)
  Finds-Returns (full c) = throws (Keeps-refl v) c

  -- In a valid state `findAdd` with a label below 2^16 returns a node that holds the triple and
  -- keeps the vector of variables, in a valid state that keeps every node, or `new` throws with
  -- the memory exhausted.
  pub find_add-cell : (f g h : ℕ) → f < 2 ^ 16 → Returns s (IsNodeOf f g h) (find_add f g h s)
  find_add-cell f g h small = Finds-Returns (find_add-Finds v.heap f g h small)
