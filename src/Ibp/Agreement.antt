-- ===== src/Ibp/Agreement.antt =====
-- A server and a client that talk to each other over a connection without faults: the handshake,
-- and one cycle.
use aspect_gazelle.Base.{
  ℕ, String, ◌≡◌, refl, Bool, true, false, none, some, List, [], ◌∷◌, ◌++◌, arith, ◌+◌, ◌%◌, ◌^◌,
  not, if◌then◌else◌,
}
use aspect_gazelle.Base.Int.{ℤ}
use aspect_gazelle.Base.Exec.{ok, ◌>>=◌}
use aspect_gazelle.Ibp.Json.{Fields, get, obj, as_num, is_text}
use aspect_gazelle.Ibp.WireFormat.{head, get-header_fields, convert_wire_cycle-cycle_sources}
use aspect_gazelle.Ibp.Message.{
  Header, of_kind, Message, negotiate, negotiate_response, cap, encode, encode_caps, cycle_sources,
  SourceInfoMap,
}
use aspect_gazelle.Ibp.Caps.{
  Caps, has_scope_cap, read_failed, supported_versions, version_2, has_cap_message,
  read_caps_request_map,
}
use aspect_gazelle.Ibp.Socket
use aspect_gazelle.Ibp.Socket.{Socket, Outcome, accept, recv, send}
use aspect_gazelle.Ibp.Server
use aspect_gazelle.Ibp.Server.{
  Server, SpanContext, new_server, otel_message, accept_negotiation, negotiate_capabilities,
  become_ready, cycle_to, err_not_ready, next_cycle, int32, await_cycle_response,
}
use aspect_gazelle.Ibp.Answers.{Answers, await_loop-ok_iff}
use aspect_gazelle.Ibp.Cycle.{
  started, completed, sent, yielded, yielded_error, await_cycle, await_messages, text_of,
}
use aspect_gazelle.Ibp.Client
use aspect_gazelle.Ibp.Client.{Client, read_negotiate, connect_caps, cap_exchange}

abbrev pub no_faults : ℕ → Bool
no_faults n = false

-- A socket on which `incoming` will arrive, before a connection is made.
abbrev pub idle : Bool → List Fields → Socket
idle serving incoming = record {
  serving = serving;
  connected = false;
  incoming = incoming;
  outgoing = [];
  writes = 0;
}

-- The socket after `incoming` is left and `outgoing` was written.
abbrev pub busy : Bool → List Fields → List Message → ℕ → Socket
busy serving incoming outgoing writes = record {
  serving = serving;
  connected = true;
  incoming = incoming;
  outgoing = outgoing;
  writes = writes;
}

abbrev pub ready_server : Socket → Caps → Server
ready_server s caps = record {
  socket = some s;
  ready = true;
  version = version_2;
  caps = some caps;
  cycle_id = 0;
}

abbrev pub new_client : Client
new_client = record { socket = none; version = ℤ.pos 0; caps = none }

-- What each side sends in a handshake for the capabilities `asked`, of which the server reads
-- `granted`.
abbrev pub server_messages : SpanContext → Caps → List Message
server_messages ctx granted =
    negotiate (of_kind "NEGOTIATE") supported_versions
    ∷ cap (otel_message ctx "CAPS_RESPONSE" (ready_server (idle true []) granted)) granted
    ∷ []

abbrev pub client_messages : Caps → List Message
client_messages asked =
    negotiate_response (of_kind "NEGOTIATE_RESPONSE") version_2 ∷ cap (of_kind "CAPS") asked ∷ []

abbrev pub wire : List Message → List Fields → List Fields
wire [] rest = rest
wire (m ∷ ms) rest = encode m ∷ wire ms rest

server_handshake :
    (ctx : SpanContext) (asked granted : Caps) (rest : List Fields)
    → read_caps_request_map (obj (encode_caps asked)) ≡ ok granted
    → accept_negotiation no_faults ctx Outcome.success
        (new_server (idle true (wire (client_messages asked) rest)))
      ≡ (ok tt, ready_server (busy true rest (server_messages ctx granted) 2) granted)
unfolding accept_negotiation Server.negotiate_version negotiate_capabilities become_ready ◌>>=◌
    Server.on_socket accept recv send otel_message encode get has_cap_message as_num
server_handshake ctx asked granted rest h = rw h

kind-otel_message :
    (ctx : SpanContext) (kind : String) (p : Server) → (otel_message ctx kind p).kind ≡ kind
unfolding otel_message
kind-otel_message ctx kind p = ground arith

-- The client reads the capabilities of a CAPS_RESPONSE whatever trace it carries.
module _ (h : Header) (caps : Caps) (k : h.kind ≡ "CAPS_RESPONSE") where
  kind-cap : is_text (get (encode (cap h caps)) "kind") "CAPS_RESPONSE" ≡ true
  unfolding get encode
  kind-cap = rw k

  caps-cap : get (encode (cap h caps)) "caps" ≡ obj (encode_caps caps)
  unfolding get encode
  caps-cap = get-header_fields h.kind h.trace_id h.span_id _ "caps" refl refl refl

  client_handshake_from :
      (asked read : Caps) (rest : List Fields)
      → read_caps_request_map (obj (encode_caps caps)) ≡ ok read
      → Client.connect no_faults
          (idle false (
            encode (negotiate (of_kind "NEGOTIATE") supported_versions)
            ∷ encode (cap h caps)
            ∷ rest))
          Outcome.success
          false
          asked
          new_client
        ≡ (
          ok tt,
          record {
            socket = some (busy false rest (client_messages asked) 2);
            version = version_2;
            caps = some read;
          },
        )
  unfolding Client.connect Client.negotiate connect_caps cap_exchange read_negotiate
      Client.negotiate_version ◌>>=◌ Client.on_socket Socket.connect recv send has_cap_message
      as_num get encode
  client_handshake_from asked read rest r = rw (kind-cap, caps-cap, r)

-- A client that asks for capabilities which the server can read and a server, each receiving what
-- the other sends, both end the handshake without an error, with version 2. The server holds what
-- it reads of the client's CAPS, and the client what it reads of the server's CAPS_RESPONSE; what
-- else the peer sends stays to be received.
pub handshake :
    (ctx : SpanContext) (asked granted read : Caps) (to_server to_client : List Fields)
    → read_caps_request_map (obj (encode_caps asked)) ≡ ok granted
    → read_caps_request_map (obj (encode_caps granted)) ≡ ok read
    → (accept_negotiation no_faults ctx Outcome.success
          (new_server (idle true (wire (client_messages asked) to_server)))
        ≡ (ok tt, ready_server (busy true to_server (server_messages ctx granted) 2) granted))
      × (Client.connect no_faults
            (idle false (wire (server_messages ctx granted) to_client))
            Outcome.success
            false
            asked
            new_client
          ≡ (
            ok tt,
            record {
              socket = some (busy false to_client (client_messages asked) 2);
              version = version_2;
              caps = some read;
            },
          ))
handshake ctx asked granted read to_server to_client g r = (
  server_handshake ctx asked granted to_server g,
  client_handshake_from _ granted
      (kind-otel_message ctx "CAPS_RESPONSE" (ready_server (idle true []) granted)) asked read
      to_client r,
)

-- What the client answers to a cycle, for a server to receive before `rest`.
abbrev pub answers : ℤ → List Fields → List Fields
answers id rest = wire (started id ∷ completed id ∷ []) rest

answers-Answers : (id : ℤ) (rest : List Fields) → Answers id (answers id rest) rest
unfolding encode get as_num
answers-Answers id rest = Answers.pending refl refl (Answers.finished refl refl refl)

module _ (ctx : SpanContext) (scope : String) (m : SourceInfoMap) (p : Server) where
  -- The message of the next cycle of `p`.
  abbrev pub next_id : ℤ
  next_id = int32 ((p.cycle_id + 1) % 2 ^ 32)

  abbrev pub cycle_message : Message
  cycle_message =
      cycle_sources (otel_message ctx "CYCLE" (record p { cycle_id = (p.cycle_id + 1) % 2 ^ 32 }))
        next_id (if not (has_scope_cap p.version) then "" else scope) m

  -- From a server that is ready, whose client answers the next cycle, a cycle sends its one message
  -- and returns without an error, with the answer received and the rest left.
  pub server_cycle :
      (s : Socket) (rest : List Fields)
      → p.ready ≡ true
      → p.socket ≡ some s
      → s.connected ≡ true
      → s.incoming ≡ answers next_id rest
      → cycle_to no_faults ctx scope m p ≡ (
        ok tt,
        record p {
          cycle_id = (p.cycle_id + 1) % 2 ^ 32;
          socket = some (record s {
            incoming = rest;
            outgoing = s.outgoing ++ cycle_message ∷ [];
            writes = s.writes + 1;
          });
        },
      )
  unfolding cycle_to err_not_ready next_cycle Server.on_socket send await_cycle_response ◌>>=◌
      otel_message has_scope_cap
  server_cycle s rest r o c i =
      rw (r, o, c, i, (await_loop-ok_iff next_id _ rest).1 (answers-Answers next_id rest))

-- The client's loop, given the message of a cycle, announces its start, yields the very message,
-- and announces its end.
pub client_cycle :
    (trace span scope : String) (id : ℤ) (m : SourceInfoMap) (s : Socket)
    → s.connected ≡ true
    → s.incoming ≡ encode (cycle_sources (head "CYCLE" trace span) id scope m) ∷ []
    → (await_cycle no_faults (λ _. true) s).0
      ≡ sent (started id)
        ∷ yielded (cycle_sources (head "CYCLE" trace span) id scope m)
        ∷ sent (completed id)
        ∷ yielded_error read_failed
        ∷ []
unfolding await_cycle await_messages send encode get text_of
client_cycle trace span scope id m s c i =
    rw (c, i, convert_wire_cycle-cycle_sources trace span scope id m)
