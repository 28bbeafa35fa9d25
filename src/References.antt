-- ===== src/References.antt =====
-- DDNode.cpp and BDDNode.cpp: the reference counter `id` of a DDNode, a bit field of 16 bits, and the
-- constructors, the destructor and the assignment of BDDNode, which move it.
pub mod Counting
use ibdd.Prelude.{
  ℕ, zero, suc, ◌+◌, ◌-◌, ◌%◌, ◌^◌, ◌<◌, ◌≡◌, Bool, true, false, List, [], ◌∷◌, ◌++◌, ◌==◌,
  if◌then◌else◌,
}
use ibdd.Word.{ptr}

-- the counters by the address of their DDNode
abbrev pub Counters : Type 0
Counters = ℕ → ℕ

-- DDNode::getID
abbrev pub get_id : Counters → ℕ → ℕ
get_id ids p = ids p

-- DDNode::operator ++: `id++`
unfoldable pub increment : ℕ → ℕ
increment id = (id + 1) % 2 ^ 16

-- DDNode::operator --: `id--`
unfoldable pub decrement : ℕ → ℕ
decrement id = (id + 2 ^ 16 - 1) % 2 ^ 16

abbrev pub update : Counters → ℕ → (ℕ → ℕ) → Counters
update ids p f q = if q == p then f (ids q) else ids q

-- DDNode::setID
unfoldable pub set_id : Counters → ℕ → ℕ → Counters
set_id ids p id = update ids p (λ _. id % 2 ^ 16)

-- `if (ddNode) ++(*ddNode);`, of the constructors of BDDNode
unfoldable pub acquire : ℕ → Counters → Counters
unfolding increment
acquire w ids = if ptr w == 0 then ids else update ids (ptr w) increment

-- DDNode::operator ++ (int), of a node with the children low and high: the counter of the copy, and
-- the counters while the copy is alive, whose children are one reference more to each of them
unfoldable pub post_increment : Counters → (p low high : ℕ) → ℕ × Counters
unfolding increment acquire
post_increment ids p low high =
    let ids' = acquire high (acquire low ids) in (ids' p, update ids' p increment)

-- DDNode::operator -- (int), in the same way
unfoldable pub post_decrement : Counters → (p low high : ℕ) → ℕ × Counters
unfolding decrement acquire
post_decrement ids p low high =
    let ids' = acquire high (acquire low ids) in (ids' p, update ids' p decrement)

-- BDDNode::~BDDNode
unfoldable pub release : ℕ → Counters → Counters
unfolding decrement
release w ids = if ptr w == 0 then ids else update ids (ptr w) decrement

-- BDDNode::operator =, of a BDDNode with the word w
unfoldable pub assign : (w other : ℕ) → Counters → Counters
unfolding acquire release
assign w other ids = acquire other (release w ids)

-- The BDDNodes that are alive, wherever they are kept, the addresses of the DDNodes, and their counters.
pub record Machine : Type 0 where
  pub live : List ℕ
  pub allocated : ℕ → Bool
  pub ids : Counters

-- how many BDDNodes of a list point at p
unfoldable pub references : ℕ → List ℕ → ℕ
references p [] = 0
references p (w ∷ live) = (if ptr w == p then 1 else 0) + references p live

-- What can happen to them.
pub data Step : Machine → Machine → Type 0 where
  -- BDDNode()
  construct_empty :
      {live : List ℕ} {allocated : ℕ → Bool} {ids : Counters}
      → Step
          (record { live = live; allocated = allocated; ids = ids })
          (record { live = 0 ∷ live; allocated = allocated; ids = ids })
  -- BDDNode(size_t), BDDNode(DDNode*, edge), BDDNode(size_t, size_t, size_t, edge), BDDNode(const BDDNode&)
  construct :
      {live : List ℕ} {allocated : ℕ → Bool} {ids : Counters} (w : ℕ)
      → Step
          (record { live = live; allocated = allocated; ids = ids })
          (record { live = w ∷ live; allocated = allocated; ids = acquire w ids })
  destroy :
      {allocated : ℕ → Bool} {ids : Counters} (before after : List ℕ) (w : ℕ)
      → Step
          (record { live = before ++ w ∷ after; allocated = allocated; ids = ids })
          (record { live = before ++ after; allocated = allocated; ids = release w ids })
  reassign :
      {allocated : ℕ → Bool} {ids : Counters} (before after : List ℕ) (w other : ℕ)
      → Step
          (record { live = before ++ w ∷ after; allocated = allocated; ids = ids })
          (record {
            live = before ++ other ∷ after;
            allocated = allocated;
            ids = assign w other ids;
          })
  -- `new DDNode(…)`, at an address that no BDDNode has: `id = 1`
  allocate :
      {live : List ℕ} {allocated : ℕ → Bool} {ids : Counters} (p : ℕ)
      → references p live ≡ 0
      → Step
          (record { live = live; allocated = allocated; ids = ids })
          (record {
            live = live;
            allocated = λ q. if q == p then true else allocated q;
            ids = update ids p (λ _. 1);
          })

-- The machines that a program can reach.
pub data Reachable : Machine → Type 0 where
  start : {ids : Counters} → Reachable (record { live = []; allocated = λ _. false; ids = ids })
  then_step : {m m' : Machine} → Reachable m → Step m m' → Reachable m'
