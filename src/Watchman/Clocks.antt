-- ===== src/Watchman/Clocks.antt =====
-- GetDiff of runner/pkg/watchman/watch.go, called again and again without a clock.
use aspect_gazelle.Base.{
  ◌≡◌, refl, Bool, true, false, List, [], ◌∷◌, ◌==◌, list_eq, list_beq, nat_eq, Str, if◌then◌else◌,
  Bool-cases, inl, inr,
}
use aspect_gazelle.Base.Exec.{Result, ok, err}
use aspect_gazelle.Watchman.{
  ChangeSet, ControlResponse, WatchmanWatcher, WatchError, Call, closed, error_response,
  files_or_none, sent, exchange, checked, with_diff, query_clock, get_diff,
}

module _ {E : Type 0} where
  -- The results of calls of GetDiff, each with what the service does for the clock it is asked for.
  unfoldable pub get_diffs :
      List (Str → Call E) → WatchmanWatcher → List (Result (WatchError E) ChangeSet)
  unfolding get_diff
  get_diffs [] w = []
  get_diffs (respond ∷ calls) w =
      let (result, w') = get_diff [] respond w in result ∷ get_diffs calls w'

module _ {E : Type 0} where
  -- What a client in a directory is to make of a call, independently of any clock.
  abbrev pub changes_of :
      Str → Result (WatchError E) ControlResponse → Result (WatchError E) ChangeSet
  changes_of root (err e) = err e
  changes_of root (ok response) =
      if response.error == []
      then ok (record {
        paths = files_or_none response.files;
        root = root;
        clock_spec = response.clock;
        is_fresh_instance = response.is_fresh_instance;
      })
      else err (error_response response.error)

  abbrev pub result_of : Bool → Str → Call E → Result (WatchError E) ChangeSet
  result_of connected root c =
      if connected then changes_of root (sent c.sending c.receiving) else err closed

  abbrev pub clock_after : Str → Result (WatchError E) ChangeSet → Str
  clock_after clock (ok cs) = cs.clock_spec
  clock_after clock (err e) = clock

module _ {E : Type 0} (connected : Bool) (root : Str) where
  -- Each result is that of asking for the clock of the last result that is not an error.
  abbrev pub IsChained : Str → List (Str → Call E) → List (Result (WatchError E) ChangeSet) → Type 0
  IsChained clock [] [] = Unit
  IsChained clock [] (result ∷ results) = ⊥
  IsChained clock (respond ∷ calls) [] = ⊥
  IsChained clock (respond ∷ calls) (result ∷ results) =
      (result ≡ result_of connected root (respond clock))
      × IsChained (clock_after clock result) calls results

module _ {E : Type 0} where
  with_diff-changes_of :
      (w : WatchmanWatcher) (r : Result (WatchError E) ControlResponse)
      → (with_diff w (checked r)).0 ≡ changes_of w.workspace_dir r
  with_diff-changes_of w (err e) = refl
  with_diff-changes_of w (ok response) = elim (Bool-cases (response.error == [])) [
    | inl t ↦ rw t refl
    | inr f ↦ rw f refl
  ]

  with_diff-result_of :
      (w : WatchmanWatcher) (connected : Bool) (c : Call E)
      → (with_diff w (checked (if connected then sent c.sending c.receiving else err closed))).0
        ≡ result_of connected w.workspace_dir c
  with_diff-result_of w true c = with_diff-changes_of w (sent c.sending c.receiving)
  with_diff-result_of w false c = refl

  -- The rest of the calls goes on from the clock of the result.
  with_diff-IsChained :
      (w : WatchmanWatcher) (r : Result (WatchError E) ControlResponse)
      (calls : List (Str → Call E))
      → ((w' : WatchmanWatcher)
          → IsChained w'.connected w'.workspace_dir w'.last_clock_spec calls (get_diffs calls w'))
      → IsChained w.connected w.workspace_dir
          (clock_after w.last_clock_spec (with_diff {E = E} w r).0)
          calls
          (get_diffs calls (with_diff {E = E} w r).1)
  with_diff-IsChained w (err e) calls h = h w
  with_diff-IsChained w (ok response) calls h = h (with_diff {E = E} w (ok response)).1

  -- Calls of GetDiff without a clock leave out no change between two of them: the first has the result
  -- of asking for the changes since the last clock of the client, and each later one that of asking for
  -- those since the clock that the last call before it that succeeded has returned, however many have
  -- failed in between.
  pub get_diffs-IsChained :
      (calls : List (Str → Call E)) (w : WatchmanWatcher)
      → IsChained w.connected w.workspace_dir w.last_clock_spec calls (get_diffs calls w)
  unfolding get_diffs get_diff query_clock exchange list_beq
  get_diffs-IsChained [] w = tt
  get_diffs-IsChained (respond ∷ calls) w = (
    with_diff-result_of w w.connected (respond w.last_clock_spec),
    with_diff-IsChained w (checked (exchange w (respond w.last_clock_spec))) calls
        (get_diffs-IsChained calls),
  )
