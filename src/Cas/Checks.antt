-- ===== src/Cas/Checks.antt =====
-- cas/pkg/framework/utils.go: `RunCheckUntil`, a check that must hold until a condition does.
pub mod Until
pub mod Endpoint
use autoscale_tests.Base.{ℕ, String, Bool, true, false, ◌||◌, Option, none, some, if◌then◌else◌}

pub data Failure : Type 0 where
  -- `errContextCancelled`, and the message of a failed expectation
  context_cancelled : Failure
  failed : String → Failure

abbrev pub is_cancelled : Option Failure → Bool
is_cancelled (some context_cancelled) = true
is_cancelled f = false

-- What an assertion function does: its answer, and the message of its last failed expectation.
abbrev pub Assertion : Type 0 → Type 0
Assertion W = W → (Bool × Option String) × W

-- One round under Gomega's `Eventually`: `StopTrying` ends the test.
pub data Round : Type 0 where
  succeeded : Round
  tried : Failure → Round
  stopped : Failure → Round

abbrev pub failure_of : Bool × Option String → Option Failure
failure_of (true, message) = none
failure_of (false, none) = none
failure_of (false, some message) = some (failed message)

-- the `switch`, from the error of the check and that of the condition
unfoldable pub decide : Option Failure → Option Failure → Round
decide check_err none = succeeded
decide check_err (some condition_err) =
    if is_cancelled (some condition_err) || is_cancelled check_err
    then tried context_cancelled
    else elim check_err [ some f ↦ stopped f | none ↦ tried condition_err ]

-- `is_done` says whether the context is done in a state.
module _ {W : Type 0} (is_done : W → Bool) where
  unfoldable pub run_assertion : Assertion W → W → Option Failure × W
  run_assertion assertion w =
      let (answer, w') = assertion w in
      if is_done w then (some context_cancelled, w) else (failure_of answer, w')

  unfoldable pub until_round : Assertion W → Assertion W → W → Round × W
  unfolding run_assertion decide
  until_round check condition w =
      let (check_err, v) = run_assertion check w in
      let (condition_err, w') = run_assertion condition v in (decide check_err condition_err, w')
