-- ===== src/Handler.antt =====
-- server/gateway_ws/internal/manager/router.go: `DefaultMessageHandler` and its registration.
--
-- `now` is the clock reading of the request, in nanoseconds. `on_broadcaster` runs a call of the
-- broadcaster, which returns nothing.
pub mod Dispatch
pub mod ManagerChanges
pub mod Replies
mod Tests
use zerogame.Shared.{
  ℕ, String, Bool, true, false, Option, none, some, List, [], ◌∷◌, if◌then◌else◌, ◌==◌,
}
use zerogame.Shared.Int.{ℤ, pos, int_key}
use zerogame.Shared.Decimal.{decimal, cat}
use zerogame.Shared.Effect.{M, Outcome, returned, panicked, Logger, nil, ready}
use zerogame.Message.{
  Bytes, MessageType, MessageHeader, WebSocketMessage, Heartbeat, LoginMessage, JoinRoomMessage,
  LeaveRoomMessage, GameActionMessage, ChatMessage, UserInfoQuery, RoomListQuery, UserUpdatePush,
  ChatMessagePush, RoomInfo, RoomListResponse, msg_heartbeat, msg_login, msg_logout, msg_join_room,
  msg_leave_room, msg_game_action, msg_chat, msg_user_info_query, msg_room_list_query,
  msg_push_user_update, msg_push_chat_msg,
}
use zerogame.Message.Body.{Body, Value, int, text}
use zerogame.Message.Failure.{Error, Result, ok, err, Call, unsupported_message_type}
use zerogame.Parser.{MessageParserInterface}
use zerogame.Connection.{
  Conn, ConnectionManager, ClientConnection, add_connection, remove_connection, join_room,
  leave_room, touch_heartbeat,
}
use zerogame.Gateway.{Gateway, Net, G, pure_ok, ◌>>=◌, ◌>>◌, lift, on_mgr}
use zerogame.Broadcaster.{
  send_message, send_heartbeat_response, send_error_response, broadcast_to_room, broadcast_to_all,
  broadcast_to_user,
}
use zerogame.Router.{MessageRouter, new_message_router, register_handler}

-- The handler's own fields; the manager, the broadcaster and the parser are shared.
pub record DefaultMessageHandler : Type 0 where
  pub logger : Logger

-- The embedded logger is not set.
unfoldable pub new_default_message_handler : DefaultMessageHandler
new_default_message_handler = record { logger = nil }

abbrev lift_unit : Outcome (Unit {0}) × Gateway → Outcome (Result (Unit {0})) × Gateway
lift_unit (returned u, g) = (returned (ok u), g)
lift_unit (panicked, g) = (panicked, g)

abbrev on_broadcaster : M Gateway (Unit {0}) → G (Unit {0})
on_broadcaster m g = lift_unit (m g)

-- A method of the manager that neither logs nor returns.
abbrev mgr_then : (ConnectionManager → ConnectionManager) → G (Unit {0})
mgr_then f g = (returned (ok tt), record g { conn_mgr = f g.conn_mgr })

-- `h.Infof(…)`.
abbrev infof : Logger → G (Unit {0})
infof nil g = (panicked, g)
infof ready g = (returned (ok tt), g)

-- `msg.Header.X`: the header was checked before a handler is called.
abbrev assert_failed : G (Unit {0})
assert_failed g = (panicked, g)

-- A nickname that stands for the user's.
abbrev pub nickname : ℤ → String
nickname user_id = cat "User_" (decimal user_id)

module _ (net : Net) (parser : MessageParserInterface) (now : ℕ) where
  -- The four lines in which most handlers answer: make the response, serialise it, send it.
  unfoldable pub respond : Conn → WebSocketMessage → String → Option Body → G (Unit {0})
  unfolding send_message
  respond conn msg message answer = do
    resp ← lift (parser.create_response msg (pos 0) message answer)
    bytes ← lift (parser.serialize_message resp)
    send_message net conn bytes

  unfoldable pub handle_heartbeat : Conn → Heartbeat → G (Unit {0})
  handle_heartbeat conn heartbeat = do
    mgr_then (touch_heartbeat conn now)
    send_heartbeat_response net parser conn heartbeat.client_time

  abbrev login_answer : Conn → WebSocketMessage → Option ClientConnection → G (Unit {0})
  login_answer conn msg none =
      send_error_response net parser conn msg (pos 1001) "Connection limit reached"
  login_answer conn msg (some client) =
      respond conn msg "Login successful" (some (Body.fields (("user_id", int (pos 1)) ∷ [])))

  -- The token is not looked at, and the user is always 1.
  unfoldable pub handle_login : Conn → WebSocketMessage → LoginMessage → G (Unit {0})
  handle_login conn msg login_msg = do
    client ← on_mgr (add_connection conn (pos 1) now)
    login_answer conn msg client

  unfoldable pub handle_logout : Conn → WebSocketMessage → G (Unit {0})
  handle_logout conn msg = do
    on_mgr (remove_connection conn)
    respond conn msg "Logout successful" none

  unfoldable pub handle_join_room :
      Conn → WebSocketMessage → MessageHeader → JoinRoomMessage → G (Unit {0})
  handle_join_room conn msg h join_msg = do
    on_mgr (join_room conn join_msg.room_id)
    respond conn msg "Joined room successfully"
        (some (Body.fields (("room_id", text join_msg.room_id) ∷ [])))
    push ← lift (
        parser.create_push_message msg_push_user_update h.user_id join_msg.room_id "" (
          some (
            Body.user_update (record {
              user_id = h.user_id;
              status = pos 1;
              location = join_msg.room_id;
              user_data = [];
            }))))
    on_broadcaster (broadcast_to_room join_msg.room_id push h.user_id)

  unfoldable pub handle_leave_room :
      Conn → WebSocketMessage → MessageHeader → LeaveRoomMessage → G (Unit {0})
  handle_leave_room conn msg h leave_msg = do
    mgr_then (leave_room conn)
    respond conn msg "Left room successfully"
        (some (Body.fields (("room_id", text leave_msg.room_id) ∷ [])))
    push ← lift (
        parser.create_push_message msg_push_user_update h.user_id leave_msg.room_id "" (
          some (
            Body.user_update
              (record { user_id = h.user_id; status = pos 0; location = ""; user_data = [] }))))
    on_broadcaster (broadcast_to_room leave_msg.room_id push (pos 0))

  unfoldable pub handle_game_action :
      DefaultMessageHandler → Conn → WebSocketMessage → GameActionMessage → G (Unit {0})
  handle_game_action handler conn msg action_msg = do
    infof handler.logger
    respond conn msg "Game action processed" none

  -- The `switch` on the chat type; another type broadcasts nothing.
  unfoldable pub broadcast_chat : MessageHeader → ChatMessage → WebSocketMessage → G (Unit {0})
  broadcast_chat h chat_msg push =
      if chat_msg.chat_type == pos 0
      then on_broadcaster (broadcast_to_all push)
      else if chat_msg.chat_type == pos 1
      then on_broadcaster (broadcast_to_room h.room_id push (pos 0))
      else if chat_msg.chat_type == pos 2
      then on_broadcaster (broadcast_to_user chat_msg.target_id push)
      else pure_ok tt

  unfoldable pub handle_chat : Conn → WebSocketMessage → MessageHeader → ChatMessage → G (Unit {0})
  handle_chat conn msg h chat_msg = do
    push ← lift (
        parser.create_push_message msg_push_chat_msg (pos 0) "" "" (
          some (
            Body.chat_push (record {
              sender_id = h.user_id;
              sender_name = nickname h.user_id;
              chat_type = chat_msg.chat_type;
              target_id = chat_msg.target_id;
              content = chat_msg.content;
              send_time = h.timestamp;
            }))))
    broadcast_chat h chat_msg push
    respond conn msg "Chat message sent" none

  unfoldable pub handle_user_info_query :
      Conn → WebSocketMessage → MessageHeader → UserInfoQuery → G (Unit {0})
  handle_user_info_query conn msg h query =
      let user_id = if query.user_id == pos 0 then h.user_id else query.user_id in
      respond conn msg "User info retrieved" (
        some (
          Body.fields (
            ("user_id", int user_id)
            ∷ ("nickname", text (nickname user_id))
            ∷ ("level", int (pos 1))
            ∷ ("coins", int (pos 1000))
            ∷ ("status", text "online")
            ∷ [])))

  abbrev rooms : List RoomInfo
  rooms =
      record {
        room_id = "room_001";
        room_name = "德州扑克初级房";
        game_type = "texas_poker";
        player_count = pos 5;
        max_players = pos 9;
        room_status = pos 1;
        create_time = "2024-01-01 12:00:00";
      }
      ∷ record {
        room_id = "room_002";
        room_name = "牛牛中级房";
        game_type = "niu_niu";
        player_count = pos 3;
        max_players = pos 6;
        room_status = pos 1;
        create_time = "2024-01-01 12:30:00";
      }
      ∷ []

  unfoldable pub handle_room_list_query : Conn → WebSocketMessage → RoomListQuery → G (Unit {0})
  handle_room_list_query conn msg query = respond conn msg "Room list retrieved" (
      some (
        Body.room_list (record {
          rooms = rooms;
          total_count = pos 2;
          page = query.page;
          page_size = query.page_size;
        })))
