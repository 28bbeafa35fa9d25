-- ===== src/Tests/ThreeVariables.antt =====
-- The state that the constructor of Manager leaves for three variables.
use mathlib.Core.Option.{some-injective}
use ibdd.Prelude.{ℕ, sym, ◌∙◌, get_elem?, ◌<◌, ◌≡◌, refl, subst, some, arith}
use ibdd.Setup.{initial, manager}
use ibdd.Setup.Vector.{variable, HasVariables}
use ibdd.Setup.Variables.{Builds, built, manager-HasVariables}
use ibdd.Safety.Setup.{Starts, started, manager-Starts}
use ibdd.Safety.{Safe}
use ibdd.State.{State, Outcome, ok, fault, thrown, out_of_fuel}
use ibdd.State.Valid.{Denotes, Valid}
use ibdd.Tests.Machine.{machine, program}

abbrev pub state_of : {A : Type 0} → Outcome A → State
state_of (ok a s) = s
state_of (thrown s) = s
state_of fault = initial
state_of out_of_fuel = initial

-- after `Manager(3, 7, 7)`
abbrev pub three_variables : State
three_variables = state_of (manager 3 7 7 initial)

pub three_variables_run : manager 3 7 7 initial ≡ ok tt three_variables
unfolding program
three_variables_run = refl

Builds_ok : {P : State → Type 0} {s : State} → Builds P (ok tt s) → Valid s × P s
Builds_ok (built v p) = (v, p)

pub three_variables_built : Valid three_variables × HasVariables 4 three_variables
three_variables_built = Builds_ok (
    subst (Builds (HasVariables 4)) three_variables_run
      (manager-HasVariables 3 7 7 (omega arith) (omega arith) (omega arith)))

abbrev pub word1 : ℕ
word1 = 96

abbrev pub word2 : ℕ
word2 = 128

abbrev pub word3 : ℕ
word3 = 160

abbrev pub valid : Valid three_variables
valid = three_variables_built.0

variable_at :
    (i w : ℕ)
    → 0 < i
    → i < 4
    → get_elem? three_variables.variable_counter i ≡ some w
    → Denotes three_variables w (variable i)
variable_at i w pos lt at =
    let (u, found, d) = three_variables_built.1.each i pos lt in
    subst (λ z. Denotes three_variables z (variable i)) (some-injective u w (sym found ∙ at)) d

pub first : Denotes three_variables 96 (variable 1)
unfolding program
first = variable_at 1 96 (omega arith) (omega arith) refl

pub second : Denotes three_variables 128 (variable 2)
unfolding program
second = variable_at 2 128 (omega arith) (omega arith) refl

pub third : Denotes three_variables 160 (variable 3)
unfolding program
third = variable_at 3 160 (omega arith) (omega arith) refl

Starts_ok : {n : ℕ} {s : State} → Starts n (ok tt s) → Safe s
Starts_ok (started v len) = v

pub safe : Safe three_variables
safe = Starts_ok (
    subst (Starts 3) three_variables_run
      (manager-Starts 3 7 7 (omega arith) (omega arith) (omega arith)))

abbrev pub one : ℕ
one = three_variables.terminal1

abbrev pub nought : ℕ
nought = three_variables.terminal0
