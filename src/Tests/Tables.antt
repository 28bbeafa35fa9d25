-- ===== src/Tests/Tables.antt =====
-- The results on the tables, the words and the reference counters alone.
use ibdd.Prelude.{
  ℕ, if◌then◌else◌, ◌≡◌, refl, true, false, some, arith, List, [], ◌∷◌, ◌+◌, ◌%◌, ◌^◌, ◌==◌, length,
}
use ibdd.CTable
use ibdd.CTable.{CTable}
use ibdd.CTable.Slots.{Holds, load-Holds}
use ibdd.TableKey.{TableKey, table_key}
use ibdd.Partial.{◌>>=◌}
use ibdd.References.{acquire, update, references, Reachable, start, then_step, allocate, construct}
use ibdd.References.Counting.{Reachable-IsCounted}
use ibdd.UTable.{Bucket}
use ibdd.UTable.Iterator
use ibdd.UTable.Iterator.Remaining.{flatten}
use ibdd.UTable.Iterator.Visit.{visit-begin}
use ibdd.UTable
use ibdd.UTable.{UTable}
use ibdd.UTable.Lookup.{IsLoaded}
use ibdd.Prelude.{◌↔◌, Bool}
use ibdd.UTable.Empty.{empty_lem}
use ibdd.Tests.Machine.{machine}
use ibdd.Tests.ThreeVariables.{word1, word2}

-- the tables alone, with the triple of a node as key
abbrev node_key : TableKey
node_key = table_key 3 word1 word2

abbrev loaded : UTable TableKey ℕ
loaded = UTable.load 7 UTable.new

abbrev stale_keys : ℕ → TableKey
stale_keys i = table_key 0 0 0

abbrev IsZero : TableKey × ℕ → Type 0
IsZero (k, r) = r ≡ 0

fresh_table : Holds IsZero (CTable.load stale_keys 0 7 CTable.new)
fresh_table = load-Holds IsZero stale_keys 0 7 CTable.new (omega arith) (λ j. refl)

-- a DDNode at 64, with a BDDNode behind a complement edge and one behind a regular edge
handles_Reachable : Reachable (record {
  live = 64 ∷ 65 ∷ [];
  allocated = λ q. if q == 64 then true else false;
  ids = acquire 64 (acquire 65 (update (λ _. 7) 64 (λ _. 1)));
})
unfolding references
handles_Reachable =
    then_step (then_step (then_step start (allocate 64 refl)) (construct 65)) (construct 64)

Reachable-IsCounted_example :
    acquire 64 (acquire 65 (update (λ _. 7) 64 (λ _. 1))) 64
    ≡ (1 + references 64 (64 ∷ 65 ∷ [])) % 2 ^ 16
Reachable-IsCounted_example = Reachable-IsCounted handles_Reachable 64 (omega arith) refl

-- a table with an empty bucket between two others
abbrev buckets : List (Bucket ℕ ℕ)
buckets = ((5, 50) ∷ (6, 60) ∷ []) ∷ [] ∷ ((7, 70) ∷ []) ∷ []

abbrev three_pairs : UTable ℕ ℕ
three_pairs = record { items = some buckets; size = 3 }

abbrev three_pairs-IsLoaded : IsLoaded three_pairs
three_pairs-IsLoaded = record {
  buckets = buckets;
  items = refl;
  size = refl;
  nonempty = omega arith;
}

visit-begin_example :
    (Iterator.begin three_pairs >>= Iterator.visit three_pairs (length (flatten buckets) + 1))
    ≡ some (flatten buckets)
visit-begin_example = visit-begin three_pairs-IsLoaded (omega arith)

empty_lem_example :
    (b : Bool) × (UTable.empty three_pairs ≡ some b) × ((b ≡ true) ↔ (length (flatten buckets) ≡ 0))
empty_lem_example = empty_lem three_pairs-IsLoaded (omega arith)
