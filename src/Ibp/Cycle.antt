-- ===== src/Ibp/Cycle.antt =====
-- client.go: AwaitCycle, the client's loop over the cycles that the server announces.
use aspect_gazelle.Base.{
  ℕ, String, Bool, Option, none, some, List, [], ◌∷◌, ◌==◌, string_eq, not, ◌||◌, if◌then◌else◌,
}
use aspect_gazelle.Base.Int.{ℤ}
use aspect_gazelle.Base.Exec.{Done, Result, ok, err, bind_result}
use aspect_gazelle.Ibp.Json.{Json, null, Fields, end, field, get, as_num, as_str, as_bool, as_obj}
use aspect_gazelle.Ibp.Message.{
  Header, of_kind, SourceInfo, SourceInfoMap, Message, cycle, cycle_sources,
}
use aspect_gazelle.Ibp.Caps.{Error, panic, expected, invalid_cycle_id, not_connected, read_failed}
use aspect_gazelle.Ibp.Socket.{Socket, send}

-- `v, _ := msg[key].(string)`
unfoldable pub text_of : Json → String
text_of v = elim (as_str v) [ none ↦ "" | some s ↦ s ]

unfoldable pub read_optional_bool : Fields → String → Option Bool
read_optional_bool fs key = as_bool (get fs key)

unfoldable pub read_source_info : Fields → SourceInfo
unfolding read_optional_bool
read_source_info fs = record {
  is_symlink = read_optional_bool fs "is_symlink";
  is_source = read_optional_bool fs "is_source";
}

-- The loop over the received sources; `v.(map[string]any)` panics on any other value.
unfoldable pub read_sources : Fields → Result Error SourceInfoMap
unfolding read_source_info
read_sources end = ok []
read_sources (field k null rest) = bind_result (read_sources rest) (λ m. ok ((k, none) ∷ m))
read_sources (field k (Json.obj fs) rest) =
    bind_result (read_sources rest) (λ m. ok ((k, some (read_source_info fs)) ∷ m))
read_sources (field k (Json.bool b) rest) = err panic
read_sources (field k (Json.num n) rest) = err panic
read_sources (field k (Json.str s) rest) = err panic
read_sources (field k (Json.arr xs) rest) = err panic

abbrev pub sources_of : Json → Result Error SourceInfoMap
sources_of v = elim (as_obj v) [ none ↦ ok [] | some fs ↦ read_sources fs ]

unfoldable pub wire_header : Fields → Header
unfolding text_of
wire_header msg = record {
  kind = text_of (get msg "kind");
  trace_id = text_of (get msg "trace_id");
  span_id = text_of (get msg "span_id");
}

abbrev pub is_cycle_kind : String → Bool
is_cycle_kind kind = kind == "CYCLE" || kind == "CYCLE_RESET"

-- convertWireCycle: the event is the message that the server built.
unfoldable pub convert_wire_cycle : Fields → Result Error Message
unfolding read_sources
convert_wire_cycle msg =
    let base = wire_header msg in
    if not (is_cycle_kind (text_of (get msg "kind")))
    then err (expected "CYCLE")
    else elim (as_num (get msg "cycle_id")) [
      | none ↦ err invalid_cycle_id
      | some id ↦
          if text_of (get msg "kind") == "CYCLE_RESET"
          then ok (cycle base id)
          else bind_result (sources_of (get msg "sources"))
              (λ sources. ok (cycle_sources base id (text_of (get msg "scope")) sources))
    ]

abbrev pub cycle_id : Message → ℤ
cycle_id (cycle h i) = i
cycle_id (cycle_sources h i s m) = i
cycle_id _ = ℤ.pos 0

-- What the loop does, in order: the writes that succeed, the write of CYCLE_COMPLETED that fails
-- and is only logged, what it yields, and a panic.
pub data Action : Type 0 where
  sent : Message → Action
  unsent : Message → Action
  yielded : Message → Action
  yielded_error : Error → Action
  panicked : Action

abbrev pub started : ℤ → Message
started id = cycle (of_kind "CYCLE_STARTED") id

abbrev pub completed : ℤ → Message
completed id = cycle (of_kind "CYCLE_COMPLETED") id

abbrev pub log_completed : ℤ → Result Error Done → Action
log_completed id (ok u) = sent (completed id)
log_completed id (err e) = unsent (completed id)

abbrev pub prepend : Action → List Action × Socket → List Action × Socket
prepend a (acts, s) = (a ∷ acts, s)

-- `continue_after` is the answer of the consumer: false where it breaks out of its loop.
module _ (faulty : ℕ → Bool) (continue_after : Message → Bool) where
  -- From the yield of an event: the answer is sent before the consumer's wish to stop is heeded.
  abbrev pub after_yield : Message → (Socket → List Action × Socket) → Socket → List Action × Socket
  after_yield event next s =
      let (r, s') = send faulty (completed (cycle_id event)) s in
      prepend (yielded event) (
        prepend (log_completed (cycle_id event) r)
          (if continue_after event then next s' else ([], s')))

  abbrev pub after_started :
      Message → (Socket → List Action × Socket) → Result Error Done × Socket → List Action × Socket
  after_started event next (err e, s) = (yielded_error e ∷ [], s)
  after_started event next (ok u, s) =
      prepend (sent (started (cycle_id event))) (after_yield event next s)

  abbrev pub handle_cycle :
      Result Error Message → (Socket → List Action × Socket) → Socket → List Action × Socket
  handle_cycle (err panic) next s = (panicked ∷ [], s)
  handle_cycle (err e) next s = (yielded_error e ∷ [], s)
  handle_cycle (ok event) next s =
      after_started event next (send faulty (started (cycle_id event)) s)

  -- The loop, over the messages that the server still sends.
  unfoldable pub await_messages : List Fields → Socket → List Action × Socket
  await_messages [] s = (yielded_error read_failed ∷ [], record s { incoming = [] })
  await_messages (m ∷ ms) s =
      let s' = record s { incoming = ms } in
      if is_cycle_kind (text_of (get m "kind"))
      then handle_cycle (convert_wire_cycle m) (await_messages ms) s'
      else await_messages ms s'

  unfoldable pub await_cycle : Socket → List Action × Socket
  unfolding await_messages
  await_cycle s =
      if s.connected then await_messages s.incoming s else (yielded_error not_connected ∷ [], s)
