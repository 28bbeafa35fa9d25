-- ===== src/Session/Ends.antt =====
-- Every such program ends in a safe state, whatever it calls in whatever order.
use ibdd.Prelude.{
  ℕ, ◌<◌, ◌≤◌, ◌^◌, ◌≡◌, refl, some, List, [], ◌∷◌, arith, length, get_elem?, get_or,
  get_elem?-eq-some, All, All-map, All-get,
}
use ibdd.Operators.Values.{
  Operator, run, times, greater, smaller, caret, plus, bar, percent, ampersand,
}
use ibdd.Operators.{call_ite, and, more, less, xor, or, nor, xnor, nand}
use ibdd.Platform.{Platform}
use ibdd.Safety.Cofactor.{get_cofactor-Safe}
use ibdd.Safety.Exist.{exist-Safe}
use ibdd.Safety.Ite.{call_ite-Safe}
use ibdd.Safety.Nodes.{
  Below-extends, Below-le, Below-negate, terminal1-Labelled, terminal0-Labelled,
}
use ibdd.Safety.Setup.{Starts, started, exhausted, manager-Starts, create_variable-Safe}
use ibdd.Safety.{Below, Safe}
use ibdd.Safety.Standardize.{AllBelow}
use ibdd.Standardize.{triple}
use ibdd.Session.{
  Call, variable, negation, operation, cofactor, quantification, result, perform, session, IsLegal,
  IsProgram,
}
use ibdd.Setup.{initial}
use ibdd.State.Returns.{Ends, returns, throws, same, bind, mono}
use ibdd.State.Valid.{Extends}
use ibdd.State.{State, Outcome, ok, thrown, and_then}

-- A BDDNode of the state: every label fits 16 bits.
abbrev pub IsNode : State → ℕ → Type 0
IsNode s w = Below s w (2 ^ 16)

-- The variables up to the given one are in the vector.
abbrev pub HasAll : ℕ → State → Type 0
HasAll n s = (i : ℕ) → i ≤ n → (w : ℕ) × (get_elem? s.variable_counter i ≡ some w)

HasAll-extends : {s s' : State} (n : ℕ) → Extends s s' → HasAll n s → HasAll n s'
HasAll-extends n x h i le = let (w, at) = h i le in (w, x.variables i w at)

module _ ⦃m : Platform⦄ {s : State} (v : Safe s) where
  -- Each operator is a call of `ite` on its operands, their negations and the terminals.
  pub run-call_ite :
      {f g n : ℕ} (o : Operator)
      → Below s f n
      → Below s g n
      → (a b c : ℕ) × (run o f g s ≡ call_ite a b c s) × AllBelow s (triple a b c) n
  unfolding and more less xor or nor xnor nand
  run-call_ite times f (i, a, lt) =
      (_, _, _, refl, (f, (i, a, lt), (0, terminal0-Labelled v.heap, omega arith)))
  run-call_ite greater f (i, a, lt) = (
    _,
    _,
    _,
    refl,
    (f, Below-negate v.heap (i, a, lt), (0, terminal0-Labelled v.heap, omega arith)),
  )
  run-call_ite smaller f (i, a, lt) =
      (_, _, _, refl, (f, (0, terminal0-Labelled v.heap, omega arith), (i, a, lt)))
  run-call_ite caret f g = (_, _, _, refl, (f, Below-negate v.heap g, g))
  run-call_ite plus f (i, a, lt) =
      (_, _, _, refl, (f, (0, terminal1-Labelled v.heap, omega arith), (i, a, lt)))
  run-call_ite bar f (i, a, lt) = (
    _,
    _,
    _,
    refl,
    (f, (0, terminal0-Labelled v.heap, omega arith), Below-negate v.heap (i, a, lt)),
  )
  run-call_ite percent f g = (_, _, _, refl, (f, g, Below-negate v.heap g))
  run-call_ite ampersand f (i, a, lt) = (
    _,
    _,
    _,
    refl,
    (f, Below-negate v.heap (i, a, lt), (0, terminal1-Labelled v.heap, omega arith)),
  )

  pub run-Safe :
      {f g : ℕ} (o : Operator)
      → IsNode s f
      → IsNode s g
      → Ends Safe s (λ w s'. IsNode s' w) (run o f g s)
  run-Safe o f g =
      let (a, b, c, same_run, (da, db, dc)) = run-call_ite o f g in
      rw same_run (call_ite-Safe v da db dc)

  pick :
      (nodes : List ℕ) (f : ℕ)
      → All (IsNode s) nodes
      → f < length nodes
      → (get_elem? nodes f ≡ some (get_or nodes f 0)) × IsNode s (get_or nodes f 0)
  pick nodes f all lt = (get_elem?-eq-some nodes f 0 lt, All-get (IsNode s) nodes f 0 all lt)

  -- Each call returns a BDDNode.
  result-Safe :
      (n : ℕ) (c : Call) (nodes : List ℕ)
      → HasAll n s
      → All (IsNode s) nodes
      → IsLegal n (length nodes) c
      → Ends Safe s (λ w s'. IsNode s' w) (result c nodes s)
  unfolding result
  result-Safe n (variable i) nodes has all le =
      let (w, at) = has i le in
      let (run_it, d) = create_variable-Safe i v at in rw run_it (same v d)
  result-Safe n (negation f) nodes has all lt =
      let (at, d) = pick nodes f all lt in rw at (same v (Below-negate v.heap d))
  result-Safe n (operation o f g) nodes has all (lf, lg) =
      let (at, df) = pick nodes f all lf in
      let (at', dg) = pick nodes g all lg in rw (at, at') (run-Safe o df dg)
  result-Safe n (cofactor f index factor) nodes has all (lf, pos) =
      let (at, (i, a, lt)) = pick nodes f all lf in
      rw at (
        mono (get_cofactor-Safe index factor v a pos)
          λ w s' k d. returns k (Below-le (2 ^ 16) (omega arith) d))
  result-Safe n (quantification f index) nodes has all lf =
      let (at, (i, a, lt)) = pick nodes f all lf in
      rw at (mono (exist-Safe index v a) λ w s' k d. returns k (Below-le (2 ^ 16) (omega arith) d))

module _ ⦃m : Platform⦄ where
  perform-Safe :
      (calls : List Call) (nodes : List ℕ) (n : ℕ) (s : State)
      → Safe s
      → HasAll n s
      → All (IsNode s) nodes
      → IsProgram n (length nodes) calls
      → Ends Safe s (λ l s'. All (IsNode s') l) (perform calls nodes s)
  unfolding perform
  perform-Safe [] nodes n s v has all p = same v all
  perform-Safe (c ∷ calls) nodes n s v has all (legal, rest) =
      bind (result-Safe v n c nodes has all legal) λ w s₁ k₁ d.
        perform-Safe calls (w ∷ nodes) n s₁ k₁.valid (HasAll-extends n k₁.extends has)
          (d, All-map (IsNode s) (IsNode s₁) nodes (λ a e. Below-extends k₁.extends e) all) rest

  -- The end of a program: BDDNodes in a safe state, or an exhausted memory. There is no way to end in a
  -- fault or without fuel.
  pub data Finishes : Outcome (List ℕ) → Type 0 where
    done : {nodes : List ℕ} {s : State} → Safe s → All (IsNode s) nodes → Finishes (ok nodes s)
    out_of_memory : {s : State} → m.capacity ≤ s.count → Finishes (thrown s)

  Ends-Finishes :
      {s : State} {r : Outcome (List ℕ)} → Ends Safe s (λ l s'. All (IsNode s') l) r → Finishes r
  Ends-Finishes (returns k p) = done k.valid p
  Ends-Finishes (throws k c) = out_of_memory c

  from_start :
      (variables : ℕ) (calls : List Call) {r : Outcome (Unit {0})}
      → Starts variables r
      → IsProgram variables 0 calls
      → Finishes (and_then r (λ _. perform calls []))
  from_start variables calls (exhausted c) p = out_of_memory c
  from_start variables calls (started {s} v len) p = Ends-Finishes (
      perform-Safe calls [] variables s v
        (λ i le.
          (get_or s.variable_counter i 0, get_elem?-eq-some s.variable_counter i 0 (omega arith)))
        tt p)

  -- With tables that are not empty and fewer than 2^16 variables, a program that starts a Manager
  -- and then calls createVariable, the negation, the eight binary operators, getCofactor at
  -- positive indices and exist, in any order and on BDDNodes that it has made before, ends with
  -- BDDNodes in a safe state, or `new` throws with the memory exhausted: no assertion fails, no
  -- null or dangling pointer is followed, no index is out of range, and every recursion ends.
  pub session-Finishes :
      (variables u_table_size c_table_size : ℕ) (calls : List Call)
      → 0 < u_table_size
      → 0 < c_table_size
      → variables < 2 ^ 16
      → IsProgram variables 0 calls
      → Finishes (session variables u_table_size c_table_size calls initial)
  unfolding session
  session-Finishes variables u c calls pu pc small p =
      from_start variables calls (manager-Starts variables u c pu pc small) p
