-- ===== src/Watchman.antt =====
-- runner/pkg/watchman/watch.go: the client of watchman on its control socket. A call of the socket is
-- what its Send and its Recv return.
pub mod Clocks
pub mod Subscribe
pub mod Deduped
pub mod Cache
pub mod Kept
mod Witnesses
use aspect_gazelle.Base.{
  Bool, true, false, Option, none, some, List, [], ◌∷◌, ◌==◌, not, list_eq, nat_eq, Str,
  if◌then◌else◌,
}
use aspect_gazelle.Base.Exec.{Result, ok, err, Done}

pub record ChangeSet : Type 0 where
  pub paths : List Str
  pub root : Str
  pub clock_spec : Str
  pub is_fresh_instance : Bool

pub record ControlResponse : Type 0 where
  pub error : Str
  pub watch : Str
  pub relative_path : Str
  pub clock : Str
  pub files : Option (List Str)
  pub is_fresh_instance : Bool
  pub watch_del : Option Bool
  pub state_enter : Option Str
  pub state_leave : Option Str

-- The fields that calls of the client change; `connected` is that its socket is not nil.
pub record WatchmanWatcher : Type 0 where
  pub workspace_dir : Str
  pub connected : Bool
  pub last_clock_spec : Str
  pub watched_root : Str
  pub watched_rel_path : Str

abbrev pub new_watchman : Str → WatchmanWatcher
new_watchman workspace_dir = record {
  workspace_dir = workspace_dir;
  connected = false;
  last_clock_spec = [];
  watched_root = [];
  watched_rel_path = [];
}

module _ (E : Type 0) where
  -- The errors that the calls return.
  pub data WatchError : Type 0 where
    closed : WatchError
    not_connected not_sent not_received : E → WatchError
    error_response : Str → WatchError
    no_clock unknown_response : ControlResponse → WatchError
    other_state : Str → ControlResponse → WatchError

  -- A command and its response.
  pub record Call : Type 0 where
    pub sending : Option E
    pub receiving : Result E ControlResponse

abbrev pub files_or_none : Option (List Str) → List Str
files_or_none none = []
files_or_none (some files) = files

-- The clock that a query is since.
unfoldable pub query_clock : Str → WatchmanWatcher → Str
query_clock clockspec w = if clockspec == [] then w.last_clock_spec else clockspec

module _ {E : Type 0} where
  abbrev pub sent : Option E → Result E ControlResponse → Result (WatchError E) ControlResponse
  sent (some e) received = err (not_sent e)
  sent none (err e) = err (not_received e)
  sent none (ok response) = ok response

  -- send and then recv, which fail without a socket.
  unfoldable pub exchange : WatchmanWatcher → Call E → Result (WatchError E) ControlResponse
  exchange w c = if w.connected then sent c.sending c.receiving else err closed

  -- `if resp.Error != ""`
  abbrev pub checked : Result (WatchError E) ControlResponse → Result (WatchError E) ControlResponse
  checked (err e) = err e
  checked (ok response) =
      if response.error == [] then ok response else err (error_response response.error)

  abbrev pub with_diff :
      WatchmanWatcher
      → Result (WatchError E) ControlResponse
      → Result (WatchError E) ChangeSet × WatchmanWatcher
  with_diff w (err e) = (err e, w)
  with_diff w (ok response) = (
    ok (record {
      paths = files_or_none response.files;
      root = w.workspace_dir;
      clock_spec = response.clock;
      is_fresh_instance = response.is_fresh_instance;
    }),
    record w { last_clock_spec = response.clock },
  )

  -- GetDiff; `respond` is the call for the clock that the query is since.
  unfoldable pub get_diff :
      Str → (Str → Call E) → WatchmanWatcher → Result (WatchError E) ChangeSet × WatchmanWatcher
  unfolding exchange query_clock
  get_diff clockspec respond w =
      with_diff w (checked (exchange w (respond (query_clock clockspec w))))

  abbrev pub with_clock :
      WatchmanWatcher
      → Result (WatchError E) ControlResponse
      → Result (WatchError E) Done × WatchmanWatcher
  with_clock w (err e) = (err e, w)
  with_clock w (ok response) =
      if response.clock == []
      then (err (no_clock response), w)
      else (ok tt, record w { last_clock_spec = response.clock })

  abbrev pub watch_then_clock :
      Call E
      → WatchmanWatcher
      → Result (WatchError E) ControlResponse
      → Result (WatchError E) Done × WatchmanWatcher
  watch_then_clock clock w (err e) = (err e, w)
  watch_then_clock clock w (ok response) =
      let w' = record w {
        watched_root = response.watch;
        watched_rel_path = response.relative_path;
      } in
      with_clock w' (exchange w' clock)

  abbrev pub connected_start :
      Option E → Call E → Call E → WatchmanWatcher → Result (WatchError E) Done × WatchmanWatcher
  connected_start (some e) watch clock w = (err (not_connected e), w)
  connected_start none watch clock w =
      let w' = record w { connected = true } in
      watch_then_clock clock w' (checked (exchange w' watch))

  -- Start: the calls of watch-project and clock, if there is no socket.
  unfoldable pub start :
      Option E → Call E → Call E → WatchmanWatcher → Result (WatchError E) Done × WatchmanWatcher
  unfolding exchange
  start connection watch clock w =
      if w.connected then (ok tt, w) else connected_start connection watch clock w

  abbrev pub deleted : ControlResponse → Option Bool → Result (WatchError E) Done
  deleted response (some true) = ok tt
  deleted response (some false) = err (unknown_response response)
  deleted response none = err (unknown_response response)

  abbrev pub check_deleted : Result (WatchError E) ControlResponse → Result (WatchError E) Done
  check_deleted (err e) = err e
  check_deleted (ok response) = deleted response response.watch_del

  -- Stop
  unfoldable pub stop : Call E → WatchmanWatcher → Result (WatchError E) Done × WatchmanWatcher
  unfolding exchange
  stop call w = let w' = record w { last_clock_spec = [] } in (check_deleted (exchange w' call), w')

  -- Close; the result of closing the socket is that of the call.
  unfoldable pub close : Result E Done → WatchmanWatcher → Result E Done × WatchmanWatcher
  close closing w = if w.connected then (closing, record w { connected = false }) else (ok tt, w)

  abbrev pub entered : Str → ControlResponse → Option Str → Result (WatchError E) Done
  entered name response none = err (unknown_response response)
  entered name response (some state) =
      if state == name then ok tt else err (other_state name response)

  abbrev pub check_state :
      (ControlResponse → Option Str)
      → Str
      → Result (WatchError E) ControlResponse
      → Result (WatchError E) Done
  check_state field name (err e) = err e
  check_state field name (ok response) = entered name response (field response)

  -- StateEnter and StateLeave
  unfoldable pub state_enter : Str → Call E → WatchmanWatcher → Result (WatchError E) Done
  unfolding exchange
  state_enter name call w =
      check_state (λ (r : ControlResponse). r.state_enter) name (exchange w call)

  unfoldable pub state_leave : Str → Call E → WatchmanWatcher → Result (WatchError E) Done
  unfolding exchange
  state_leave name call w =
      check_state (λ (r : ControlResponse). r.state_leave) name (exchange w call)
