-- ===== src/Cancel/Once.antt =====
-- The checks of a run against the reports before them (CheckCancellation of common/error.go).
use aspect_gazelle.Base.{
  ◌≡◌, refl, sym, ◌∙◌, ap, Bool, true, false, String, List, [], ◌∷◌, ◌++◌, ◌||◌, arith,
  append_assoc, append-nil, Bool-cases, inl, inr,
}
use aspect_gazelle.Cancel.{
  Cancellable, set_up, is_empty, add, surface, cancel_or_fatal, check_cancellation, Event, report,
  check, interrupt, run_events,
}

-- The messages of the reports of a run.
abbrev pub messages : List Event → List String
messages [] = []
messages (report msg ∷ events) = msg ∷ messages events
messages (check ∷ events) = messages events
messages (interrupt ∷ events) = messages events

abbrev pub all_false : List Event → List Bool
all_false [] = []
all_false (report msg ∷ events) = all_false events
all_false (check ∷ events) = false ∷ all_false events
all_false (interrupt ∷ events) = all_false events

abbrev pub first_true : List Event → List Bool
first_true [] = []
first_true (report msg ∷ events) = first_true events
first_true (check ∷ events) = true ∷ all_false events
first_true (interrupt ∷ events) = first_true events

-- The checks of a run that has not reported yet: false up to the first report, true at the first
-- check after it, and false from there on.
abbrev pub expected_checks : List Event → List Bool
expected_checks [] = []
expected_checks (report msg ∷ events) = first_true events
expected_checks (check ∷ events) = false ∷ expected_checks events
expected_checks (interrupt ∷ events) = expected_checks events

-- A check returns nothing where the errors are out already, or there is none.
quiet :
    (c : Cancellable)
    → (c.errors.surfaced || is_empty c.errors.errs) ≡ true
    → check_cancellation c ≡ (false, c)
unfolding check_cancellation surface
quiet c h = elim (Bool-cases c.cancelled) [
  | inl cancelled ↦ rw (check_cancellation, surface, cancelled, h)
  | inr running ↦ rw (check_cancellation, running)
]

is_empty-snoc : (es : List String) (e : String) → is_empty (es ++ e ∷ []) ≡ false
unfolding is_empty
is_empty-snoc [] e = refl
is_empty-snoc (x ∷ es) e = refl

surfaced-checks :
    (events : List Event) (c : Cancellable)
    → c.errors.surfaced ≡ true
    → (run_events events c).0 ≡ all_false events
unfolding run_events cancel_or_fatal add
surfaced-checks [] c s = refl
surfaced-checks (report msg ∷ events) c s = surfaced-checks events (cancel_or_fatal msg c) s
surfaced-checks (interrupt ∷ events) c s = surfaced-checks events (record c { cancelled = true }) s
surfaced-checks (check ∷ events) c s =
    rw (quiet c (rw s refl)) (ap (◌∷◌ false) (surfaced-checks events c s))

pending-checks :
    (events : List Event) (c : Cancellable)
    → c.cancelled ≡ true
    → c.errors.surfaced ≡ false
    → is_empty c.errors.errs ≡ false
    → (run_events events c).0 ≡ first_true events
unfolding run_events cancel_or_fatal add check_cancellation surface
pending-checks [] c d s e = refl
pending-checks (report msg ∷ events) c d s e =
    pending-checks events (cancel_or_fatal msg c) refl s (is_empty-snoc c.errors.errs msg)
pending-checks (interrupt ∷ events) c d s e =
    pending-checks events (record c { cancelled = true }) refl s e
pending-checks (check ∷ events) c d s e =
    rw (check_cancellation, surface, d, s, e) (ap (◌∷◌ true) (surfaced-checks events _ refl))

idle-checks :
    (events : List Event) (c : Cancellable)
    → c.errors.surfaced ≡ false
    → is_empty c.errors.errs ≡ true
    → (run_events events c).0 ≡ expected_checks events
unfolding run_events cancel_or_fatal add
idle-checks [] c s e = refl
idle-checks (report msg ∷ events) c s e =
    pending-checks events (cancel_or_fatal msg c) refl s (is_empty-snoc c.errors.errs msg)
idle-checks (interrupt ∷ events) c s e = idle-checks events (record c { cancelled = true }) s e
idle-checks (check ∷ events) c s e =
    rw (quiet c (rw (s, e) refl)) (ap (◌∷◌ false) (idle-checks events c s e))

errs-check : (c : Cancellable) → (check_cancellation c).1.errors.errs ≡ c.errors.errs
unfolding check_cancellation surface
errs-check c = ground arith

errs-run_events :
    (events : List Event) (c : Cancellable)
    → (run_events events c).1.errors.errs ≡ c.errors.errs ++ messages events
unfolding run_events cancel_or_fatal add
errs-run_events [] c = sym (append-nil c.errors.errs)
errs-run_events (report msg ∷ events) c =
    errs-run_events events (cancel_or_fatal msg c)
    ∙ append_assoc c.errors.errs (msg ∷ []) (messages events)
errs-run_events (interrupt ∷ events) c = errs-run_events events (record c { cancelled = true })
errs-run_events (check ∷ events) c =
    errs-run_events events (check_cancellation c).1
    ∙ ap (λ (es : List String). es ++ messages events) (errs-check c)

-- However reports, checks and cancellations from outside follow each other, no check returns the
-- errors before the first report, the first check after it does, even where an earlier one has found
-- the context cancelled from outside, and no later one does.
pub run_events-checks :
    (events : List Event) → (run_events events set_up).0 ≡ expected_checks events
unfolding is_empty
run_events-checks events = idle-checks events set_up refl refl

-- No message of a report is lost or repeated: the accumulator holds them all, in order.
pub run_events-messages :
    (events : List Event) → (run_events events set_up).1.errors.errs ≡ messages events
run_events-messages events = errs-run_events events set_up
