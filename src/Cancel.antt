-- ===== src/Cancel.antt =====
-- common/error.go: errors that cancel a run, collected and reported once. The state is what
-- SetupCancellableContext puts into the configuration; the context is cancelled by a report or by
-- whoever made it.
pub mod Once
mod Witnesses
use aspect_gazelle.Base.{
  String, Bool, true, false, Option, none, some, List, [], ◌∷◌, ◌++◌, ◌||◌, not, if◌then◌else◌,
}

-- errAccumulator
pub record Accumulator : Type 0 where
  pub errs : List String
  pub surfaced : Bool

pub record Cancellable : Type 0 where
  pub cancelled : Bool
  pub errors : Accumulator

-- SetupCancellableContext
abbrev pub set_up : Cancellable
set_up = record { cancelled = false; errors = record { errs = []; surfaced = false } }

unfoldable pub is_empty : List String → Bool
is_empty [] = true
is_empty (e ∷ es) = false

-- errAccumulator.add
unfoldable pub add : String → Accumulator → Accumulator
add e a = record a { errs = a.errs ++ e ∷ [] }

-- errAccumulator.surface: whether the accumulator is returned, and the state.
unfoldable pub surface : Accumulator → Bool × Accumulator
surface a =
    if a.surfaced || is_empty a.errs then (false, a) else (true, record a { surfaced = true })

abbrev pub with_errors : Cancellable → Bool × Accumulator → Bool × Cancellable
with_errors c (returned, a) = (returned, record c { errors = a })

-- cancelOrFatal, where the context is set up.
unfoldable pub cancel_or_fatal : String → Cancellable → Cancellable
cancel_or_fatal msg c = record { cancelled = true; errors = add msg c.errors }

-- CheckCancellation, where the context is set up: whether it returns the accumulator.
unfoldable pub check_cancellation : Cancellable → Bool × Cancellable
check_cancellation c = if not c.cancelled then (false, c) else with_errors c (surface c.errors)

-- What happens in a run: a report, a check, or a cancellation from outside.
pub data Event : Type 0 where
  report : String → Event
  check : Event
  interrupt : Event

abbrev pub add_check : Bool → List Bool × Cancellable → List Bool × Cancellable
add_check b (checks, c) = (b ∷ checks, c)

-- The results of the checks of a run, in order, and the state after it.
unfoldable pub run_events : List Event → Cancellable → List Bool × Cancellable
run_events [] c = ([], c)
run_events (report msg ∷ events) c = run_events events (cancel_or_fatal msg c)
run_events (interrupt ∷ events) c = run_events events (record c { cancelled = true })
run_events (check ∷ events) c =
    let (returned, c') = check_cancellation c in add_check returned (run_events events c')
