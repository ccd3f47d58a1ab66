-- ===== src/Ibp/Witnesses.antt =====
-- The theorems on the protocol at a client that asks for the sources and tracing.
use aspect_gazelle.Base.{◌≡◌, refl, true, false, none, some, [], ◌∷◌, ◌↔◌}
use aspect_gazelle.Base.Int.{pos}
use aspect_gazelle.Base.Exec.{ok, err}
use aspect_gazelle.Base.Exec.Triple.{Post}
use aspect_gazelle.Ibp.Json.{Fields, obj, field, end, num, str, get}
use aspect_gazelle.Ibp.Message.{SourceInfoMap, encode, encode_caps, cycle, cycle_sources}
use aspect_gazelle.Ibp.Caps.{
  Caps, scopes, panic, read_caps_request_map, read_caps_loop, read_cap, read_scope_cap_list,
  read_scopes, version_2, read_failed,
}
use aspect_gazelle.Base.Assoc.{insert}
use aspect_gazelle.Ibp.Socket.{Socket, Outcome}
use aspect_gazelle.Ibp.Server.{
  Server, SpanContext, new_server, accept_negotiation, cycle_to, await_loop,
}
use aspect_gazelle.Ibp.Client
use aspect_gazelle.Ibp.Retry.{connect-refuses_retry}
use aspect_gazelle.Ibp.Caps.{during, expected, client_already_connected}
use aspect_gazelle.Ibp.Cycle.{
  convert_wire_cycle, text_of, await_cycle, started, completed, sent, yielded, yielded_error,
}
use aspect_gazelle.Ibp.WireFormat.{
  head, convert_wire_cycle-encode, HasBadSource, convert_wire_cycle-HasBadSource,
}
use aspect_gazelle.Ibp.Handshake.{IsPending, IsNegotiated, accept_negotiation-IsNegotiated}
use aspect_gazelle.Ibp.Answers.{Answers, await_loop-ok_iff}
use aspect_gazelle.Ibp.Agreement.{
  no_faults, idle, busy, ready_server, new_client, server_messages, client_messages, wire,
  handshake, answers, cycle_message, server_cycle, client_cycle,
}

abbrev span : SpanContext
span = record { trace_id = some "4bf92f"; span_id = some "00f067" }

abbrev asked : Caps
asked = ("scope", scopes ("sources" ∷ [])) ∷ []

read_asked : read_caps_request_map (obj (encode_caps asked)) ≡ ok asked
unfolding read_caps_request_map read_caps_loop read_cap read_scope_cap_list read_scopes insert
read_asked = refl

handshake_example :
    (accept_negotiation no_faults span Outcome.success
        (new_server (idle true (wire (client_messages asked) [])))
      ≡ (ok tt, ready_server (busy true [] (server_messages span asked) 2) asked))
    × (Client.connect no_faults
          (idle false (wire (server_messages span asked) []))
          Outcome.success
          false
          asked
          new_client
        ≡ (
          ok tt,
          record {
            socket = some (busy false [] (client_messages asked) 2);
            version = version_2;
            caps = some asked;
          },
        ))
handshake_example = handshake span asked asked asked [] [] read_asked read_asked

abbrev changes : SourceInfoMap
changes =
    ("src/a.ts", some (record { is_symlink = none; is_source = some true }))
    ∷ ("src/b.ts", none)
    ∷ []

abbrev waiting_socket : Socket
waiting_socket = busy true (answers (pos 1) []) [] 2

abbrev waiting_server : Server
waiting_server = ready_server waiting_socket asked

server_cycle_example : cycle_to no_faults span "sources" changes waiting_server ≡ (
  ok tt,
  record waiting_server {
    cycle_id = 1;
    socket = some (busy true [] (cycle_message span "sources" changes waiting_server ∷ []) 3);
  },
)
server_cycle_example =
    server_cycle span "sources" changes waiting_server waiting_socket [] refl refl refl refl

client_cycle_example :
    (await_cycle no_faults
      (λ _. true)
      (busy false
        (encode (cycle_sources (head "CYCLE" "4bf92f" "00f067") (pos 1) "sources" changes) ∷ [])
        []
        2)).0
    ≡ sent (started (pos 1))
      ∷ yielded (cycle_sources (head "CYCLE" "4bf92f" "00f067") (pos 1) "sources" changes)
      ∷ sent (completed (pos 1))
      ∷ yielded_error read_failed
      ∷ []
client_cycle_example =
    client_cycle "4bf92f" "00f067" "sources" (pos 1) changes
      (busy false
        (encode (cycle_sources (head "CYCLE" "4bf92f" "00f067") (pos 1) "sources" changes) ∷ []) []
        2)
      refl refl

convert_wire_cycle-encode_example :
    (convert_wire_cycle (encode (cycle_sources (head "CYCLE" "" "") (pos 7) "" changes))
      ≡ ok (cycle_sources (head "CYCLE" "" "") (pos 7) "" changes))
    × (convert_wire_cycle (encode (cycle (head "CYCLE_RESET" "" "") (pos 7)))
        ≡ ok (cycle (head "CYCLE_RESET" "" "") (pos 7)))
convert_wire_cycle-encode_example = convert_wire_cycle-encode "" "" "" (pos 7) changes

await_loop-ok_iff_example :
    (await_loop (pos 3) (answers (pos 3) []) ≡ (ok tt, []))
    ↔ Answers (pos 3) (answers (pos 3) []) []
await_loop-ok_iff_example = await_loop-ok_iff (pos 3) (answers (pos 3) []) []

abbrev unready_server : Server
unready_server = new_server (idle true [])

accept_negotiation-IsNegotiated_example :
    Post
      (λ _. IsNegotiated)
      IsPending
      (accept_negotiation no_faults span Outcome.success
        (new_server (idle true (wire (client_messages asked) []))))
accept_negotiation-IsNegotiated_example =
    accept_negotiation-IsNegotiated no_faults span Outcome.success
      (new_server (idle true (wire (client_messages asked) [])))
      (record { waiting = refl; caps_valid = tt })

-- A CYCLE whose one source is a string.
abbrev bad_sources : Fields
bad_sources = field "src/a.ts" (str "changed") end

abbrev bad_message : Fields
bad_message =
    field "kind" (str "CYCLE")
      (field "cycle_id" (num (pos 1)) (field "sources" (obj bad_sources) end))

convert_wire_cycle-HasBadSource_example : convert_wire_cycle bad_message ≡ err panic
unfolding get text_of
convert_wire_cycle-HasBadSource_example =
    convert_wire_cycle-HasBadSource bad_message bad_sources (pos 1) refl refl refl
      (HasBadSource.bad "src/a.ts" (str "changed") end refl)

abbrev wrong_greeting : Fields
wrong_greeting = field "kind" (str "HELLO") end

connect-refuses_retry_example :
    let failed =
      Client.connect no_faults
        (idle false (wrong_greeting ∷ []))
        Outcome.success
        false
        asked
        new_client in
    (failed.0 ≡ err (during "negotiate" (expected "NEGOTIATE")))
    × (Client.connect no_faults
          (idle false (wire (server_messages span asked) []))
          Outcome.success
          false
          asked
          failed.1
        ≡ (err client_already_connected, failed.1))
unfolding get
connect-refuses_retry_example =
    connect-refuses_retry no_faults wrong_greeting [] false asked new_client
      (idle false (wire (server_messages span asked) [])) Outcome.success false asked refl refl
