-- ===== src/Server/Tests.antt =====
-- server.go on a gateway with no connection, and one whose connection sits in a room.
use zerogame.Parser.{with_body}
use zerogame.Parser.Proto.{proto_interface, new_proto_message_parser}
use zerogame.Server.ProtoFrames.{proto_message_ends_program}
use zerogame.Parser.Headers.{interface_of}
use zerogame.Parser.Proto
use zerogame.Server.Errors.{failed_frame_ends_program}
use zerogame.Shared.{◌≢◌}
use zerogame.Shared.{List, length, Unique, not, ◌&&◌, string_key}
use zerogame.Shared.GoMap.{get}
use zerogame.Shared.Effect.{ready}
use zerogame.Message.{WebSocketMessage, msg_push_system_msg}
use zerogame.Message.Failure.{ok}
use zerogame.Parser.{no_body, push_header}
use zerogame.Parser.Json
use zerogame.Connection.{Conn}
use zerogame.Connection.Invariant.{seat}
use zerogame.Connection.Tests.{seated-WellFormed}
use zerogame.Broadcaster.{process_broadcast_message}
use zerogame.Broadcaster.Targets.{shut_out}
use zerogame.Broadcaster.Sending.{delivered}
use zerogame.Shared.{none, some, ◌⊎◌}
use zerogame.Shared.Int.{pos}
use zerogame.Shared.GoMap.{is_some}
use zerogame.Shared.Effect.{M}
use zerogame.Connection.{add_connection}
use zerogame.Gateway.{on_mgr}
use zerogame.Server.{push_to_room, forget}
use zerogame.Server.Pushes.{push_to_room_reaches}
use zerogame.Shared.{◌≡◌, refl, true, false, [], ◌∷◌, elem, nat_key}
use zerogame.Shared.Int.{int_key}
use zerogame.Shared.Effect.{after, result_of, returned, panicked, nil}
use zerogame.Message.Body.{Body}
use zerogame.Message.Failure.{invalid_message_type, err, success}
use zerogame.Parser.{MessageParserInterface, check_header}
use zerogame.Parser.Json.{json_interface, new_message_parser}
use zerogame.Parser.Tests.{compact, sample_codec, beat, beat_message, beat_body, header_of}
use zerogame.Connection.{get_client_connection}
use zerogame.Connection.Tests.{seated}
use zerogame.Gateway.{BroadcastMessage, Gateway, Net}
use zerogame.Handler.{new_default_message_handler}
use zerogame.Handler.ManagerChanges.{run}
use zerogame.Server.{text_message, close_frame, handle_message, handle_connection, stop}
use zerogame.Server.Connections.{handle_connection_forgets, stop_closes}
use zerogame.Server.Dispatching.{json, default_router, handle_message_runs}

abbrev reliable : Net
reliable = record { write_error = λ sent c b. none }

abbrev parser : MessageParserInterface
parser = json_interface sample_codec new_message_parser

abbrev gateway : Gateway
gateway = record {
  conn_mgr = seated;
  message_ch = [];
  message_ch_closed = false;
  task_queue_closed = false;
  logger = nil;
  sent = [];
}

abbrev news : BroadcastMessage
news = record {
  message = beat_message;
  target_users = [];
  target_rooms = "lobby" ∷ [];
  exclude_user = pos 0;
}

-- The clients' parser reads the heartbeat.
seven_parses : parser.parse_message (0 ∷ 5 ∷ 42 ∷ []) ≡ success beat_message
unfolding Json.parse_message check_header
seven_parses = refl

handle_message_runs_example :
    handle_message reliable parser default_router 7 1000 (0 ∷ 5 ∷ 42 ∷ []) gateway
    ≡ run reliable parser 1000 new_default_message_handler 7 beat_message
        (header_of 0 5)
        (Body.heartbeat beat)
        gateway
handle_message_runs_example =
    handle_message_runs reliable sample_codec json 7 1000 beat_message (header_of 0 5)
      (Body.heartbeat beat) gateway (0 ∷ 5 ∷ 42 ∷ []) seven_parses refl beat_body

handle_connection_forgets_example :
    let g' = after (
      handle_connection reliable parser default_router 7
        ((1000, text_message (0 ∷ 5 ∷ 42 ∷ [])) ∷ (2000, close_frame) ∷ [])
        gateway) in
    (get_client_connection 7 g'.conn_mgr ≡ none) × (elem 7 g'.conn_mgr.closed ≡ true)
handle_connection_forgets_example =
    handle_connection_forgets reliable parser default_router 7
      ((1000, text_message (0 ∷ 5 ∷ 42 ∷ [])) ∷ (2000, close_frame) ∷ []) gateway

-- While `Stop` waits, connection 9 logs in, on a manager with a logger.
abbrev newcomers : M Gateway (Unit {0})
newcomers g = forget (
    on_mgr (add_connection 9 (pos 1) 3000)
      (record g { conn_mgr = record (g.conn_mgr) { logger = ready } }))

stop_closes_example :
    let waited =
      newcomers (record gateway { message_ch_closed = true; task_queue_closed = true }) in
    let stopped = stop newcomers (some (ok tt)) gateway in
    (false ≡ true → stopped ≡ (panicked, gateway))
    × (false ≡ false
        → false ≡ false
        → ((result_of waited ≡ panicked) × (stopped ≡ (panicked, after waited)))
          ⊎ ((result_of stopped ≡ returned (ok tt))
              × ((c : Conn)
                  → is_some (get c (after waited).conn_mgr.connections) ≡ true
                  → elem c (after stopped).conn_mgr.closed ≡ true)))
stop_closes_example = stop_closes newcomers (some (ok tt)) gateway

-- A message of type 106 is refused.
refused :
    handle_message reliable parser default_router 7 1000 (106 ∷ 5 ∷ []) gateway
    ≡ (returned (err (invalid_message_type (pos 106))), gateway)
unfolding handle_message Json.parse_message check_header
refused = refl

-- A codec that writes every message as one byte.
abbrev terse : MessageParserInterface
terse =
    json_interface (record sample_codec { marshal_message = λ m. ok (9 ∷ []) }) new_message_parser

abbrev push : WebSocketMessage
push = no_body (push_header msg_push_system_msg (pos 0) "lobby" "")

abbrev live : Gateway
live = record gateway { logger = ready }

push_made : terse.create_push_message msg_push_system_msg (pos 0) "lobby" "" none ≡ success push
unfolding Json.create_push_message
push_made = refl

push_written : terse.serialize_message push ≡ success (9 ∷ [])
unfolding Json.serialize_message
push_written = refl

push_to_room_reaches_example :
    let pushed = push_to_room terse "lobby" none (pos 20) live in
    (result_of pushed ≡ returned (ok tt))
    × ((msg : BroadcastMessage) × (cs : List Conn) × ((after pushed).message_ch ≡ msg ∷ [])
        × (process_broadcast_message reliable terse msg (after pushed) ≡ (
          returned (length (delivered reliable [] cs (9 ∷ []))),
          record (after pushed) { sent = delivered reliable [] cs (9 ∷ []) },
        ))
        × ((c : Conn)
            → elem c cs ≡ (
                seat (get c seated.connections) "lobby"
                && not (shut_out (pos 20) (get c seated.connections))))
        × Unique cs)
push_to_room_reaches_example =
    push_to_room_reaches reliable terse "lobby" none (pos 20) live push (9 ∷ []) push_made
      push_written refl refl refl seated-WellFormed

-- The same frame, with the protobuf parser.
refused_too :
    result_of (
      handle_message reliable
        (interface_of sample_codec compact)
        default_router
        7
        1000
        (106 ∷ 5 ∷ [])
        gateway)
    ≢ returned (ok tt)
unfolding handle_message Proto.parse_message check_header
refused_too e = cc e

failed_frame_ends_program_example :
    result_of (
      handle_connection reliable
        (interface_of sample_codec compact)
        default_router
        7
        ((1000, text_message (106 ∷ 5 ∷ [])) ∷ [])
        gateway)
    ≡ panicked
failed_frame_ends_program_example =
    failed_frame_ends_program reliable sample_codec compact default_router 7 1000 (106 ∷ 5 ∷ []) []
      gateway refused_too

-- The logout of user 5.
abbrev logout : WebSocketMessage
logout = with_body (header_of 2 5) []

logout_parses : (interface_of sample_codec compact).parse_message (2 ∷ 5 ∷ []) ≡ success logout
unfolding Proto.parse_message check_header
logout_parses = refl

proto_message_ends_program_example :
    result_of (
      handle_connection reliable
        (proto_interface sample_codec new_proto_message_parser)
        default_router
        7
        ((1000, text_message (2 ∷ 5 ∷ [])) ∷ [])
        gateway)
    ≡ panicked
proto_message_ends_program_example =
    proto_message_ends_program reliable sample_codec new_proto_message_parser default_router 7 1000
      (2 ∷ 5 ∷ []) [] gateway logout (header_of 2 5) logout_parses refl (cc) (cc) (cc)
