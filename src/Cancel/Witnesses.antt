-- ===== src/Cancel/Witnesses.antt =====
-- The theorems on cancelled runs at a run of two reports.
use aspect_gazelle.Base.{◌≡◌, true, false, List, [], ◌∷◌}
use aspect_gazelle.Cancel.{Event, report, check, interrupt, run_events, set_up}
use aspect_gazelle.Cancel.Once.{run_events-checks}

abbrev a_run : List Event
a_run = check ∷ interrupt ∷ check ∷ report "bad directive" ∷ check ∷ report "no label" ∷ check ∷ []

run_events-checks_example : (run_events a_run set_up).0 ≡ false ∷ false ∷ true ∷ false ∷ []
run_events-checks_example = run_events-checks a_run
