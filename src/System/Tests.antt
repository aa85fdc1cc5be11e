-- ===== src/System/Tests.antt =====
-- A gateway to which one client sends a heartbeat.
use zerogame.Parser.Tests.{beat}
use zerogame.Connection.{ConnectionManager, ClientConnection, add_connection, register, new_client}
use zerogame.System.Silence.{Round, ticks_of, silent, silent_client_leaves}
use zerogame.Connection.{start_heartbeat_checker}
use zerogame.System.Sound.{reclose-Sound, Sound, new_connection_manager-Sound, add_connection-Sound}
use zerogame.System.KeepAlive.{Turn, message, tick, take_turns, keeps_beating, beating_client_stays}
use zerogame.Shared.{true, some, false, ◌++◌, elem, Unique}
use zerogame.Message.{MessageHeader, WebSocketMessage, ChatMessage, msg_push_chat_msg}
use zerogame.Message.Failure.{ok, success}
use zerogame.Message.Body.{Body}
use zerogame.Parser.{with_body}
use zerogame.Parser.Tests.{header_of}
use zerogame.Connection.{Conn}
use zerogame.Connection.Tests.{seated, seated-WellFormed}
use zerogame.Gateway.{Gateway, BroadcastMessage}
use zerogame.Handler.{handle_chat, handle_login, handle_join_room, respond}
use zerogame.Broadcaster.{broadcast, broadcast_to_room}
use zerogame.Connection.{join_room, take_seat}
use zerogame.Parser.{response_header}
use zerogame.System.RoomBroadcasts.{seated_never_missed}
use zerogame.Broadcaster.Sending.{delivered}
use zerogame.System.{deliver}
use zerogame.System.Chats.{room, chat_body, addressed, chat_reaches}
use zerogame.Shared.{
  ◌≡◌, refl, none, List, [], ◌∷◌, nat_key, string_key, ℕ_discrete, String_discrete,
}
use zerogame.Shared.Int.{pos, int_key, ℤ_discrete}
use zerogame.Shared.GoMap.{get, put}
use zerogame.Shared.Effect.{ready, returned, after, result_of}
use zerogame.Parser.{MessageParserInterface, check_header, push_header}
use zerogame.Parser.Json
use zerogame.Parser.Json.{json_interface, new_message_parser, parse}
use zerogame.Parser.Tests.{sample_codec, beat_message}
use zerogame.Connection.{
  get_client_connection, dead_connections, remove_all, new_connection_manager,
  cleanup_dead_connections, remove_connection, touch_heartbeat,
}
use zerogame.Gateway.{Net}
use zerogame.Message.Body.{Kind_discrete}
use zerogame.Handler.Dispatch.{register_default_handlers, handle, switch}
use zerogame.Broadcaster.{target_conns, send_heartbeat_response, send_message}
use zerogame.Handler.{handle_heartbeat}
use zerogame.Router.{route, register_handler, new_message_router}
use zerogame.Server.{new_gateway, handle_message, close_conn}
use zerogame.Server.Dispatching.{default_router}
use zerogame.System.{Event, receives, ticks, drops, pushes, delivers, play, play_all}
use zerogame.System.Reachable.{SoundGateway, fresh_gateway, gateway_stays_sound}
use zerogame.System.Shipped.{Vacant, running_gateway_holds_nobody}
use zerogame.System.FirstUser.{only_first_user_reached}

abbrev reliable : Net
reliable = record { write_error = λ sent conn bytes. none }

abbrev parser : MessageParserInterface
parser = json_interface sample_codec new_message_parser

-- A heartbeat, a tick, and the end of the connection.
abbrev visit : List Event
visit = receives 7 1000 (0 ∷ 5 ∷ 42 ∷ []) ∷ ticks (pos 60) 2000 ∷ drops 7 ∷ []

visit_runs :
    result_of (play_all reliable parser default_router visit (new_gateway (pos 3))) ≡ returned tt
unfolding play_all play handle_message Json.parse_message check_header route get
    register_default_handlers register_handler new_message_router put ℤ_discrete ℕ_discrete
    String_discrete Kind_discrete Json.parse_message_body new_message_parser parse handle switch
    handle_heartbeat send_heartbeat_response Json.create_push_message push_header send_message
    Json.serialize_message Json.serialize_message_body new_gateway new_connection_manager
    touch_heartbeat get_client_connection cleanup_dead_connections dead_connections remove_all
    remove_connection close_conn
visit_runs = refl

running_gateway_holds_nobody_example :
    Vacant (after (play_all reliable parser default_router visit (new_gateway (pos 3)))).conn_mgr
running_gateway_holds_nobody_example =
    running_gateway_holds_nobody (pos 3) reliable parser default_router visit visit_runs

gateway_stays_sound_example : SoundGateway (
    after (
      play_all reliable parser default_router
        (pushes "lobby" none (pos 0) ∷ delivers ∷ visit)
        (fresh_gateway (pos 3) ready ready)))
gateway_stays_sound_example =
    gateway_stays_sound (pos 3) ready ready reliable parser default_router
      (pushes "lobby" none (pos 0) ∷ delivers ∷ visit)

only_first_user_reached_example :
    let g =
      after (play_all reliable parser default_router visit (fresh_gateway (pos 3) ready ready)) in
    target_conns
      (record {
        message = beat_message;
        target_users = pos 2 ∷ [];
        target_rooms = [];
        exclude_user = pos 0;
      })
      g.conn_mgr
    ≡ []
only_first_user_reached_example =
    only_first_user_reached (pos 3) ready ready reliable parser default_router visit (pos 2) (pos 0)
      beat_message (cc)

-- A codec that writes every body as one byte, and every message as one.
abbrev short : MessageParserInterface
short =
    json_interface
      (record sample_codec { marshal = λ b. ok (8 ∷ []); marshal_message = λ m. ok (9 ∷ []) })
      new_message_parser

abbrev hello : ChatMessage
hello = record { chat_type = pos 1; target_id = pos 0; content = "hello" }

-- The sender, which is not held, names the lobby in the header.
abbrev to_lobby : MessageHeader
to_lobby = record (header_of 6 5) { room_id = "lobby" }

abbrev hello_push : WebSocketMessage
hello_push = with_body (push_header msg_push_chat_msg (pos 0) "" "") (8 ∷ [])

abbrev lobby : Gateway
lobby = record (new_gateway (pos 3)) { conn_mgr = seated; logger = ready }

push_made :
    short.create_push_message msg_push_chat_msg
      (pos 0)
      ""
      ""
      (some (Body.chat_push (chat_body to_lobby hello)))
    ≡ success hello_push
unfolding Json.create_push_message Json.serialize_message_body get ℤ_discrete ℕ_discrete
    Kind_discrete
push_made = refl

push_written : short.serialize_message hello_push ≡ success (9 ∷ [])
unfolding Json.serialize_message
push_written = refl

lobby_open : lobby.message_ch_closed ≡ false
unfolding new_gateway
lobby_open = refl

lobby_empty : lobby.message_ch ≡ []
unfolding new_gateway
lobby_empty = refl

chat_reaches_example :
    let g' =
      after (handle_chat reliable short 1000 9 (with_body to_lobby []) to_lobby hello lobby) in
    (g'.conn_mgr ≡ seated)
    × ((cs : List Conn) × (deliver reliable short default_router g' ≡ (
      returned tt,
      record g' { message_ch = []; sent = g'.sent ++ delivered reliable g'.sent cs (9 ∷ []) },
    ))
        × ((c : Conn) → elem c cs ≡ addressed room to_lobby hello seated c)
        × Unique cs)
chat_reaches_example =
    chat_reaches reliable short 1000 9 (with_body to_lobby []) to_lobby hello lobby default_router
      room hello_push (9 ∷ []) refl push_made push_written lobby_open lobby_empty refl
      seated-WellFormed

-- Connection 7 beats at 150, and is looked at 50 and 55 later, while connection 8 logs in.
abbrev guest : ConnectionManager
guest = after (add_connection 7 (pos 1) 100 (new_connection_manager (pos 3)))

guest-Sound : Sound guest
guest-Sound =
    add_connection-Sound (new_connection_manager (pos 3)) (new_connection_manager-Sound (pos 3)) 7
      100

abbrev turns : List Turn
turns =
    message 7 150 (Body.heartbeat beat)
    ∷ tick (pos 60) 200
    ∷ message 8 201 (Body.login (record { token = "t" }))
    ∷ tick (pos 60) 205
    ∷ []

guest_held : get 7 guest.connections ≡ some (new_client 7 (pos 1) 100)
unfolding add_connection register new_connection_manager get put ℕ_discrete
guest_held = refl

turns_beat : keeps_beating 7 100 turns ≡ true
unfolding ℕ_discrete
turns_beat = refl

beating_client_stays_example :
    (client : ClientConnection) × (get 7 (take_turns turns guest).connections ≡ some client)
beating_client_stays_example =
    beating_client_stays turns guest 7 (new_client 7 (pos 1) 100) guest-Sound guest_held turns_beat

-- A codec that reads every login and every join of the lobby, and writes as `short` does.
abbrev welcoming : MessageParserInterface
welcoming =
    json_interface
      (record sample_codec {
        marshal = λ b. ok (8 ∷ []);
        marshal_message = λ m. ok (9 ∷ []);
        unmarshal_login = λ b. ok (record { token = "t" });
        unmarshal_join_room = λ b. ok (record { room_id = "lobby"; password = "" });
      })
      new_message_parser

-- Connection 7 logs in and joins the lobby.
abbrev arrival : List Event
arrival = receives 7 1000 (1 ∷ 5 ∷ []) ∷ receives 7 1001 (3 ∷ 5 ∷ []) ∷ []

abbrev to_seated : BroadcastMessage
to_seated = record {
  message = beat_message;
  target_users = [];
  target_rooms = "lobby" ∷ [];
  exclude_user = pos 5;
}

abbrev arrived : Gateway
arrived =
    after (play_all reliable welcoming default_router arrival (fresh_gateway (pos 3) ready ready))

arrived_held :
    get 7 arrived.conn_mgr.connections
    ≡ some (record (new_client 7 (pos 1) 1000) { room_id = "lobby" })
unfolding play_all play handle_message Json.parse_message check_header route get
    register_default_handlers register_handler new_message_router put ℤ_discrete ℕ_discrete
    String_discrete Kind_discrete Json.parse_message_body new_message_parser parse handle switch
    handle_login handle_join_room respond Json.create_response Json.create_push_message push_header
    response_header send_message Json.serialize_message Json.serialize_message_body new_gateway
    new_connection_manager add_connection register join_room take_seat broadcast_to_room broadcast
arrived_held = refl

seated_never_missed_example :
    (elem 7 (target_conns to_seated arrived.conn_mgr) ≡ true)
    × Unique (target_conns to_seated arrived.conn_mgr)
unfolding String_discrete ℤ_discrete
seated_never_missed_example =
    seated_never_missed (pos 3) ready ready reliable welcoming default_router arrival to_seated 7
      refl (cc) (rw arrived_held refl) (rw arrived_held refl)

-- Connection 7 joins a room and says nothing more; connection 8 logs in between two ticks, the
-- second of which comes 150 after the last beat of 7.
abbrev logged_guest : ConnectionManager
logged_guest = record guest { logger = ready; closed = [] }

abbrev hushed : List Round
hushed =
    (message 7 110 (Body.join_room (record { room_id = "lobby"; password = "" })) ∷ [], 150)
    ∷ (message 8 201 (Body.login (record { token = "t" })) ∷ [], 250)
    ∷ []

logged_guest_held : get 7 logged_guest.connections ≡ some (new_client 7 (pos 1) 100)
unfolding add_connection register new_connection_manager get put ℕ_discrete
logged_guest_held = refl

hushed_silent : silent 7 hushed ≡ true
unfolding ℕ_discrete
hushed_silent = refl

silent_client_leaves_example :
    let r = start_heartbeat_checker (pos 30) (pos 90) (ticks_of hushed) logged_guest in
    (result_of r ≡ returned tt) × (get 7 (after r).connections ≡ none)
silent_client_leaves_example =
    silent_client_leaves (pos 30) (pos 90) hushed logged_guest 7 (new_client 7 (pos 1) 100)
      (reclose-Sound guest ready [] guest-Sound) refl refl logged_guest_held hushed_silent refl
