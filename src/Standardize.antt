-- ===== src/Standardize.antt =====
-- Manager::standardize, with Manager::swap: the representative of an ITE call.
pub mod Args
pub mod Setters
pub mod Rules
pub mod Regular
use ibdd.Prelude.{ℕ, Bool, true, false, not, ltb, ◌==◌, if◌then◌else◌}
use ibdd.Node.{get_index}
use ibdd.State.{State, M, pure, ◌>>=◌, read}
use ibdd.Word.{is_complement_edge, negate}

-- the three references that `standardize` updates
pub record Triple : Type 0 where
  pub f : ℕ
  pub g : ℕ
  pub h : ℕ

abbrev pub triple : ℕ → ℕ → ℕ → Triple
triple f g h = record { f = f; g = g; h = h }

-- Manager::swap
unfoldable pub swap : ℕ × ℕ → ℕ × ℕ
swap (f, g) = let tmp = f in let f' = g in let g' = tmp in (f', g')

-- identical rules
unfoldable pub identical : (terminal1 terminal0 : ℕ) → Triple → Triple
identical terminal1 terminal0 x =
    if x.f == x.g
    then record x { g = terminal1 }
    else if x.f == x.h
    then record x { h = terminal0 }
    else if x.f == negate x.h
    then record x { h = terminal1 }
    else if x.f == negate x.g
    then record x { g = terminal0 }
    else x

-- `a.getIndex() > b.getIndex()`
unfoldable pub above : ℕ → ℕ → M Bool
above a b = do i ← get_index a; j ← get_index b; pure (ltb j i)

-- the bodies of the symmetrical rules
unfoldable pub swap_or : Triple → Triple
unfolding swap
swap_or x = let (f, h) = swap (x.f, x.h) in triple f x.g h

unfoldable pub swap_less : Triple → Triple
unfolding swap
swap_less x = let (f, h) = swap (x.f, x.h) in triple (negate f) x.g (negate h)

unfoldable pub swap_xnor : Triple → Triple
unfolding swap
swap_xnor x = let (f, g) = swap (x.f, x.g) in triple f g (negate g)

unfoldable pub swap_implies : Triple → Triple
unfolding swap
swap_implies x = let (f, g) = swap (x.f, x.g) in triple (negate f) (negate g) x.h

unfoldable pub swap_and : Triple → Triple
unfolding swap
swap_and x = let (f, g) = swap (x.f, x.g) in triple f g x.h

-- symmetrical rules
unfoldable pub symmetrical : (terminal1 terminal0 : ℕ) → Triple → M Triple
symmetrical terminal1 terminal0 x =
    if x.g == terminal1
    then (do over ← above x.f x.h; pure (if over then swap_or x else x))
    else if x.g == terminal0
    then (do over ← above x.f x.h; pure (if over then swap_less x else x))
    else if x.g == negate x.h
    then (do over ← above x.f x.g; pure (if over then swap_xnor x else x))
    else if x.h == terminal1
    then (do over ← above x.f x.g; pure (if over then swap_implies x else x))
    else if x.h == terminal0
    then (do over ← above x.f x.g; pure (if over then swap_and x else x))
    else pure x

-- complementary rules: on f,
unfoldable pub regular_f : Triple → Triple
unfolding swap
regular_f x =
    let (g, h) = swap (x.g, x.h) in if is_complement_edge x.f then triple (negate x.f) g h else x

-- and on g, where the result is complemented
unfoldable pub regular_g : Triple → Bool → Triple × Bool
regular_g x complement_edge =
    if is_complement_edge x.g
    then (triple x.f (negate x.g) (negate x.h), not complement_edge)
    else (x, complement_edge)

-- Manager::standardize; the result has the new f, g and h, and `complementEdge`
unfoldable pub standardize : Triple → Bool → M (Triple × Bool)
unfolding identical symmetrical regular_f regular_g
standardize x complement_edge = do
  terminal1 ← read (λ (s : State). s.terminal1)
  terminal0 ← read (λ (s : State). s.terminal0)
  y ← symmetrical terminal1 terminal0 (identical terminal1 terminal0 x)
  pure (regular_g (regular_f y) complement_edge)
