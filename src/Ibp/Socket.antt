-- ===== src/Ibp/Socket.antt =====
-- runner/pkg/socket/json.go: a listener and one connection that carries JSON objects.
use aspect_gazelle.Base.{
  ℕ, ◌+◌, Bool, true, false, List, [], ◌∷◌, ◌++◌, not, ◌&&◌, ◌||◌, if◌then◌else◌,
}
use aspect_gazelle.Base.Exec.{Done, Exec, Result, ok, err}
use aspect_gazelle.Ibp.Json.{Fields}
use aspect_gazelle.Ibp.Message.{Message}
use aspect_gazelle.Ibp.Caps.{
  Error, not_connected, already_connected, not_serving, already_serving, write_failed, read_failed,
  listen_failed, dial_failed, accept_failed, not_accepted, close_failed,
}

-- `incoming` is what the peer still sends before it is silent for good, and `outgoing` what was
-- written to it, oldest first. `writes` counts the calls of the encoder, failed ones included.
pub record Socket : Type 0 where
  pub serving : Bool
  pub connected : Bool
  pub incoming : List Fields
  pub outgoing : List Message
  pub writes : ℕ

-- What the network answers to a call of net.Listen, net.Dial or Accept.
pub data Outcome : Type 0 where
  success closed failure : Outcome

abbrev pub Sock : Type 0 → Type 0
Sock A = Exec Error Socket A

unfoldable pub serve : Outcome → Sock Done
serve outcome s = if s.serving then (err already_serving, s) else elim outcome [
  | success ↦ (ok tt, record s { serving = true })
  | _ ↦ (err listen_failed, s)
]

unfoldable pub accept : Outcome → Sock Done
accept outcome s =
    if not s.serving
    then (err not_serving, s)
    else if s.connected
    then (err already_connected, s)
    else elim outcome [
      | success ↦ (ok tt, record s { connected = true })
      | closed ↦ (err not_accepted, s)
      | failure ↦ (err accept_failed, s)
    ]

-- The client's side of Accept.
unfoldable pub connect : Outcome → Sock Done
connect outcome s = if s.connected then (err already_connected, s) else elim outcome [
  | success ↦ (ok tt, record s { connected = true })
  | _ ↦ (err dial_failed, s)
]

abbrev pub take_message : List Fields → Socket → Result Error Fields × Socket
take_message [] s = (err read_failed, s)
take_message (m ∷ ms) s = (ok m, record s { incoming = ms })

unfoldable pub recv : Sock Fields
recv s = if not s.connected then (err not_connected, s) else take_message s.incoming s

-- `faulty n` tells whether the n-th write to the connection fails.
module _ (faulty : ℕ → Bool) where
  unfoldable pub send : Message → Sock Done
  send m s =
      if not s.connected
      then (err not_connected, s)
      else if faulty s.writes
      then (err write_failed, record s { writes = s.writes + 1 })
      else (ok tt, record s { outgoing = s.outgoing ++ m ∷ []; writes = s.writes + 1 })

-- jsonServerSocket.Close and, with no listener, jsonSocket.Close. The listener is dropped also where
-- closing fails; the arguments say whether closing the listener and the connection fails.
unfoldable pub close : Bool → Bool → Sock Done
close listener_fails conn_fails s =
    let failed = (s.serving && listener_fails) || (s.connected && conn_fails) in
    let s' = record s { serving = false; connected = s.connected && conn_fails } in
    (if failed then err close_failed else ok tt, s')
