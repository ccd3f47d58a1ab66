-- ===== src/Ibp/Client.antt =====
-- client.go: incClient, the client's side of a connection.
use aspect_gazelle.Base.{
  ℕ, Bool, false, Option, none, some, [], ◌∷◌, string_eq, not, is_some, if◌then◌else◌,
}
use aspect_gazelle.Base.Int.{ℤ}
use aspect_gazelle.Base.Exec.{Done, Exec, Result, ok, err, lift, modify, map_err, ◌>>=◌, ◌>>◌}
use aspect_gazelle.Ibp.Json.{Json, null, Items, nil, cons, Fields, get, as_num, is_text}
use aspect_gazelle.Ibp.Message.{of_kind, negotiate_response, cap}
use aspect_gazelle.Ibp.Caps.{
  Error, panic, during, expected, no_versions, invalid_versions, unsupported_versions,
  client_already_connected, client_not_connected, caps_unsupported, Caps, is_supported,
  has_cap_message, read_caps_request_map,
}
use aspect_gazelle.Ibp.Socket
use aspect_gazelle.Ibp.Socket.{Socket, Outcome, Sock, recv, send}

pub record Client : Type 0 where
  pub socket : Option Socket
  pub version : ℤ
  pub caps : Option Caps

abbrev pub Conn : Type 0 → Type 0
Conn A = Exec Error Client A

abbrev pub with_result : {A : Type 0} → Client → Result Error A × Socket → Result Error A × Client
with_result c (r, s) = (r, record c { socket = some s })

unfoldable pub on_socket : {A : Type 0} → Sock A → Conn A
on_socket m c = elim c.socket [ none ↦ (err panic, c) | some s ↦ with_result c (m s) ]

-- The first supported version of those that the server accepts, values that are no number skipped.
unfoldable pub negotiate_version : Items → Result Error ℤ
negotiate_version nil = err unsupported_versions
negotiate_version (cons v vs) = elim (as_num v) [
  | none ↦ negotiate_version vs
  | some n ↦ if is_supported n then ok n else negotiate_version vs
]

-- The checks of `negotiate` on the message of the server.
unfoldable pub read_negotiate : Fields → Result Error ℤ
unfolding negotiate_version
read_negotiate req =
    if not (is_text (get req "kind") "NEGOTIATE")
    then err (expected "NEGOTIATE")
    else elim (get req "versions") [
      | null ↦ err no_versions
      | Json.arr vs ↦ negotiate_version vs
      | _ ↦ err invalid_versions
    ]

abbrev pub store_caps : Client → Result Error Caps → Result Error Done × Client
store_caps c (ok caps) = (ok tt, record c { caps = some caps })
store_caps c (err e) = (err e, record c { caps = none })

-- `r["kind"]` is checked before c.caps is assigned.
abbrev pub receive_caps : Fields → Conn Done
receive_caps r c =
    if not (is_text (get r "kind") "CAPS_RESPONSE")
    then (err (expected "CAPS_RESPONSE"), c)
    else store_caps c (read_caps_request_map (get r "caps"))

abbrev pub closed : Client → Result Error Done × Socket → Result Error Done × Client
closed c (ok u, s) = (ok u, record c { socket = none })
closed c (err e, s) = (err (during "close" e), record c { socket = some s })

unfoldable pub disconnect : Bool → Conn Done
unfolding Socket.close
disconnect close_fails c = elim c.socket [
  | none ↦ (err client_not_connected, c)
  | some s ↦ closed c (Socket.close false close_fails s)
]

-- `_ = c.Disconnect(); return err`
abbrev pub give_up : Bool → Error → Conn Done
unfolding disconnect
give_up close_fails e c = (err e, (disconnect close_fails c).1)

abbrev pub or_give_up : Bool → Result Error Done × Client → Result Error Done × Client
or_give_up close_fails (ok u, c) = (ok u, c)
or_give_up close_fails (err e, c) = give_up close_fails e c

module _ (faulty : ℕ → Bool) where
  unfoldable pub negotiate : Conn Done
  negotiate = do
    req ← on_socket recv
    version ← lift (read_negotiate req)
    on_socket (send faulty (negotiate_response (of_kind "NEGOTIATE_RESPONSE") version))
    modify (λ c. record c { version = version })

  unfoldable pub cap_exchange : Caps → Conn Done
  cap_exchange caps = do
    map_err (during "CAPS request") (on_socket (send faulty (cap (of_kind "CAPS") caps)))
    r ← map_err (during "CAPS response") (on_socket recv)
    receive_caps r

  -- The capabilities part of Connect; `close_fails` is for the disconnection after a failure.
  unfoldable pub connect_caps : Bool → Caps → Conn Done
  connect_caps close_fails caps c =
      if has_cap_message c.version
      then or_give_up close_fails (cap_exchange caps c)
      else elim caps [
        | [] ↦ (ok tt, c)
        | _ ∷ _ ↦ give_up close_fails (caps_unsupported c.version) c
      ]

  abbrev pub connected : Bool → Caps → Result Error Done × Socket → Conn Done
  connected close_fails caps (err e, s) c = (err e, c)
  connected close_fails caps (ok u, s) c =
      (do map_err (during "negotiate") negotiate; connect_caps close_fails caps)
        (record c { socket = some s })

  -- `fresh` is the socket that dialling makes, with what the server will send on it.
  unfoldable pub connect : Socket → Outcome → Bool → Caps → Conn Done
  connect fresh outcome close_fails caps c =
      if is_some c.socket
      then (err client_already_connected, c)
      else connected close_fails caps (Socket.connect outcome fresh) c
