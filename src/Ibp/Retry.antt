-- ===== src/Ibp/Retry.antt =====
-- The client after a handshake that failed before the capabilities.
use aspect_gazelle.Base.{ℕ, ◌≡◌, refl, Bool, false, none, some, List, [], ◌∷◌}
use aspect_gazelle.Base.Exec.{err, ◌>>=◌}
use aspect_gazelle.Ibp.Json.{Fields, get, is_text}
use aspect_gazelle.Ibp.Caps.{Caps, during, expected, client_already_connected}
use aspect_gazelle.Ibp.Socket
use aspect_gazelle.Ibp.Socket.{Socket, Outcome, recv, send}
use aspect_gazelle.Ibp.Client.{Client, connect, negotiate, read_negotiate, on_socket}
use aspect_gazelle.Ibp.Agreement.{idle, busy}

module _ (faulty : ℕ → Bool) where
  connect-unexpected :
      (m : Fields) (rest : List Fields) (close_fails : Bool) (asked : Caps) (c : Client)
      → c.socket ≡ none
      → is_text (get m "kind") "NEGOTIATE" ≡ false
      → connect faulty (idle false (m ∷ rest)) Outcome.success close_fails asked c ≡ (
        err (during "negotiate" (expected "NEGOTIATE")),
        record c { socket = some (busy false rest [] 0) },
      )
  unfolding connect negotiate ◌>>=◌ on_socket recv read_negotiate Socket.connect
  connect-unexpected m rest close_fails asked c unconnected other = rw (unconnected, other)

  -- Where the server's first message is not NEGOTIATE, Connect returns the error and keeps the
  -- connection, so that every later Connect of the client is refused as already connected and
  -- changes nothing.
  pub connect-refuses_retry :
      (m : Fields) (rest : List Fields) (close_fails : Bool) (asked : Caps) (c : Client)
      (fresh : Socket) (outcome : Outcome) (close_fails' : Bool) (asked' : Caps)
      → c.socket ≡ none
      → is_text (get m "kind") "NEGOTIATE" ≡ false
      → let failed = connect faulty (idle false (m ∷ rest)) Outcome.success close_fails asked c in
        (failed.0 ≡ err (during "negotiate" (expected "NEGOTIATE")))
        × (connect faulty fresh outcome close_fails' asked' failed.1
            ≡ (err client_already_connected, failed.1))
  unfolding connect
  connect-refuses_retry m rest close_fails asked c fresh outcome close_fails' asked' unconnected
        other =
      rw (connect-unexpected m rest close_fails asked c unconnected other) (refl, refl)
