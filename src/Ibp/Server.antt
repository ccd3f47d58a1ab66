-- ===== src/Ibp/Server.antt =====
-- protocol.go: aspectBazelProtocol, the server's side of a connection.
use aspect_gazelle.Base.{
  ℕ, ◌+◌, ◌-◌, ◌%◌, ◌^◌, String, Bool, true, false, Option, none, some, List, [], ◌∷◌, ◌==◌,
  string_eq, not, ◌||◌, any, ltb, if◌then◌else◌,
}
use aspect_gazelle.Base.Int.{ℤ, pos, negsuc, int_eq}
use aspect_gazelle.Base.Exec.{
  Done, Exec, Result, ok, err, pure, gets, lift, require, modify, map_err, ◌>>=◌, ◌>>◌,
}
use aspect_gazelle.Base.Assoc.{lookup}
use aspect_gazelle.Ibp.Json.{Json, Fields, get, as_num, is_text}
use aspect_gazelle.Ibp.Message.{
  Header, of_kind, SourceInfoMap, negotiate, cap, exit, cycle, cycle_sources,
}
use aspect_gazelle.Ibp.Caps.{
  Error, panic, not_ready, during, expected, invalid_version, unsupported_version,
  reset_unsupported, invalid_cycle_id, unexpected_cycle_id, unexpected_kind, not_connected,
  read_failed, Caps, CapValue, scopes, flag, supported_versions, is_supported, has_cap_message,
  has_scope_cap, has_reset_message, read_caps_request_map,
}
use aspect_gazelle.Ibp.Socket
use aspect_gazelle.Ibp.Socket.{Socket, Outcome, Sock, accept, recv, send}

-- `ready` tells that connectedCh is closed; `socket` is nil after Close. `cycle_id` is the bit
-- pattern of the atomic int32.
pub record Server : Type 0 where
  pub socket : Option Socket
  pub ready : Bool
  pub version : ℤ
  pub caps : Option Caps
  pub cycle_id : ℕ

abbrev pub Proto : Type 0 → Type 0
Proto A = Exec Error Server A

abbrev pub new_server : Socket → Server
new_server s = record {
  socket = some s;
  ready = false;
  version = negsuc 0;
  caps = none;
  cycle_id = 0;
}

-- What trace.SpanContextFromContext finds in a context.
pub record SpanContext : Type 0 where
  pub trace_id : Option String
  pub span_id : Option String

abbrev pub text_or_empty : Option String → String
text_or_empty none = ""
text_or_empty (some s) = s

abbrev pub flag_is_true : Option CapValue → Bool
flag_is_true (some (flag b)) = b
flag_is_true _ = false

unfoldable pub is_otel_cap_enabled : Option Caps → Bool
is_otel_cap_enabled none = false
is_otel_cap_enabled (some caps) = flag_is_true (lookup "otel" caps)

unfoldable pub otel_message : SpanContext → String → Server → Header
unfolding is_otel_cap_enabled
otel_message ctx kind p =
    if is_otel_cap_enabled p.caps
    then record {
      kind = kind;
      trace_id = text_or_empty ctx.trace_id;
      span_id = text_or_empty ctx.span_id;
    }
    else of_kind kind

unfoldable pub negotiated_version : Server → ℤ
negotiated_version p = if not p.ready then negsuc 0 else p.version

-- The type assertion panics (`none`) on a value that is no list of scopes.
abbrev pub scope_in : String → Option CapValue → Option Bool
scope_in s none = some (s == "runfiles")
scope_in s (some (scopes ss)) = some (any (λ t. t == s) ss)
scope_in s (some _) = none

abbrev pub caps_scope : Option Caps → Option CapValue
caps_scope none = none
caps_scope (some caps) = lookup "scope" caps

unfoldable pub watching_scope : Server → String → Option Bool
watching_scope p s = if not p.ready then some (s == "runfiles") else scope_in s (caps_scope p.caps)

-- A call through the interface p.socket; a nil interface panics.
abbrev pub with_result : {A : Type 0} → Server → Result Error A × Socket → Result Error A × Server
with_result p (r, s) = (r, record p { socket = some s })

unfoldable pub on_socket : {A : Type 0} → Sock A → Proto A
on_socket m p = elim p.socket [ none ↦ (err panic, p) | some s ↦ with_result p (m s) ]

unfoldable pub err_not_ready : String → Proto Done
unfolding require
err_not_ready msg p = require p.ready (not_ready msg) p

-- The value of the int32 whose bits are `n`.
abbrev pub int32 : ℕ → ℤ
int32 n = if ltb n (2 ^ 31) then pos n else negsuc (2 ^ 32 - 1 - n)

-- int(p.cycle_id.Add(1))
unfoldable pub next_cycle : Proto ℤ
next_cycle p = let n = (p.cycle_id + 1) % 2 ^ 32 in (ok (int32 n), record p { cycle_id = n })

abbrev pub number_or : Json → Error → Result Error ℤ
number_or v e = elim (as_num v) [ none ↦ err e | some n ↦ ok n ]

-- What the body of the loop of awaitCycleResponse makes of a message.
pub data Verdict : Type 0 where
  again : Verdict
  stop : Result Error Done → Verdict

unfoldable pub judge : ℤ → Fields → Option ℤ → Verdict
judge id m none = stop (err invalid_cycle_id)
judge id m (some received) =
    if not (received == id)
    then stop (err unexpected_cycle_id)
    else if is_text (get m "kind") "CYCLE_STARTED"
    then again
    else if is_text (get m "kind") "CYCLE_ABORTED" || is_text (get m "kind") "CYCLE_FAILED"
    then stop (ok tt)
    else if is_text (get m "kind") "CYCLE_COMPLETED"
    then stop (ok tt)
    else stop (err unexpected_kind)

-- Its result, and what is left to receive.
unfoldable pub await_loop : ℤ → List Fields → Result Error Done × List Fields
await_loop id [] = (err read_failed, [])
await_loop id (m ∷ ms) = elim (judge id m (as_num (get m "cycle_id"))) [
  | again ↦ await_loop id ms
  | stop r ↦ (r, ms)
]

abbrev pub after_loop : Socket → Result Error Done × List Fields → Result Error Done × Socket
after_loop s (r, ms) = (r, record s { incoming = ms })

unfoldable pub await_cycle_response : ℤ → Sock Done
await_cycle_response id s =
    if not s.connected then (err not_connected, s) else after_loop s (await_loop id s.incoming)

module _ (faulty : ℕ → Bool) (ctx : SpanContext) where
  unfoldable pub negotiate_capabilities : Proto Done
  negotiate_capabilities = do
    resp ← map_err (during "CAPS request") (on_socket recv)
    require (is_text (get resp "kind") "CAPS") (expected "CAPS")
    caps ← map_err (during "capabilities") (lift (read_caps_request_map (get resp "caps")))
    modify (λ p. record p { caps = some caps })
    h ← gets (otel_message ctx "CAPS_RESPONSE")
    map_err (during "CAPS_RESPONSE") (on_socket (send faulty (cap h caps)))

  -- close(p.connectedCh) panics on a channel that is closed.
  unfoldable pub become_ready : ℤ → Proto Done
  become_ready version p =
      if p.ready
      then (err panic, record p { version = version })
      else (ok tt, record p { version = version; ready = true })

  -- acceptNegotiation up to the check of the version that the client chose.
  unfoldable pub negotiate_version : Outcome → Proto ℤ
  negotiate_version outcome = do
    on_socket (accept outcome)
    h ← gets (otel_message ctx "NEGOTIATE")
    map_err (during "NEGOTIATE") (on_socket (send faulty (negotiate h supported_versions)))
    resp ← map_err (during "NEGOTIATE response") (on_socket recv)
    require (is_text (get resp "kind") "NEGOTIATE_RESPONSE") (expected "NEGOTIATE_RESPONSE")
    version ← lift (number_or (get resp "version") invalid_version)
    require (is_supported version) (unsupported_version version)
    pure version

  unfoldable pub accept_negotiation : Outcome → Proto Done
  accept_negotiation outcome = do
    version ← negotiate_version outcome
    if has_cap_message version
        then (map_err (during "negotiate capabilities") negotiate_capabilities)
        else pure tt
    become_ready version

  unfoldable pub cycle_to : String → SourceInfoMap → Proto Done
  cycle_to scope changes = do
    err_not_ready "CYCLE"
    id ← next_cycle
    version ← gets (λ p. p.version)
    h ← gets (otel_message ctx "CYCLE")
    let scope' = if not (has_scope_cap version) then "" else scope
    on_socket (send faulty (cycle_sources h id scope' changes))
    on_socket (await_cycle_response id)

  unfoldable pub init : String → SourceInfoMap → Proto Done
  init scope sources = cycle_to scope sources

  unfoldable pub cycle_reset : Proto Done
  cycle_reset = do
    err_not_ready "CYCLE_RESET"
    version ← gets (λ p. p.version)
    require (has_reset_message version) (reset_unsupported version)
    id ← next_cycle
    h ← gets (otel_message ctx "CYCLE_RESET")
    on_socket (send faulty (cycle h id))
    on_socket (await_cycle_response id)

  -- `description` is err.Error(), and "" for a nil error.
  unfoldable pub exit_with : Option String → Proto Done
  exit_with description = do
    err_not_ready "EXIT"
    h ← gets (otel_message ctx "EXIT")
    on_socket (send faulty (exit h (text_or_empty description)))

abbrev pub drop_socket : Server → Result Error Done × Socket → Result Error Done × Server
drop_socket p (ok u, s) = (ok u, record p { socket = none })
drop_socket p (err e, s) = (err e, record p { socket = some s })

unfoldable pub close : Bool → Bool → Proto Done
unfolding Socket.close
close listener_fails conn_fails p = elim p.socket [
  | none ↦ (ok tt, p)
  | some s ↦ drop_socket p (Socket.close listener_fails conn_fails s)
]
