-- ===== src/Handler/ManagerChanges.antt =====
-- What each client message does to the connection manager, whatever becomes of the answer.
use zerogame.Shared.{ℕ, ◌≡◌, some, arith}
use zerogame.Shared.Int.{pos, int_key}
use zerogame.Shared.GoMap.{get}
use zerogame.Shared.Effect.{returned, after}
use zerogame.Message.{MessageHeader, WebSocketMessage}
use zerogame.Message.Body.{Body, kind, kind_key}
use zerogame.Message.Failure.{err, unsupported_message_type}
use zerogame.Parser.Json.{serialize_cases}
use zerogame.Parser.{MessageParserInterface}
use zerogame.Connection.{
  Conn, ConnectionManager, add_connection, remove_connection, join_room, leave_room,
  touch_heartbeat,
}
use zerogame.Gateway.{Net, G}
use zerogame.Handler.{
  DefaultMessageHandler, handle_heartbeat, handle_login, handle_logout, handle_join_room,
  handle_leave_room, handle_game_action, handle_chat, handle_user_info_query,
  handle_room_list_query,
}
use zerogame.Handler.Dispatch.{switch, handle}

-- The method of the manager that a message with such a body calls, if any.
abbrev pub mgr_change : Body → Conn → ℕ → ConnectionManager → ConnectionManager
mgr_change (Body.heartbeat m) conn now cm = touch_heartbeat conn now cm
mgr_change (Body.login m) conn now cm = after (add_connection conn (pos 1) now cm)
mgr_change Body.logout conn now cm = after (remove_connection conn cm)
mgr_change (Body.join_room m) conn now cm = after (join_room conn m.room_id cm)
mgr_change (Body.leave_room m) conn now cm = leave_room conn cm
mgr_change _ conn now cm = cm

-- The handler of each type of body, with no assertion in between.
abbrev pub run :
    Net
    → MessageParserInterface
    → ℕ
    → DefaultMessageHandler
    → Conn
    → WebSocketMessage
    → MessageHeader
    → Body
    → G (Unit {0})
run net parser now handler conn msg h (Body.heartbeat m) = handle_heartbeat net parser now conn m
run net parser now handler conn msg h (Body.login m) = handle_login net parser now conn msg m
run net parser now handler conn msg h Body.logout = handle_logout net parser now conn msg
run net parser now handler conn msg h (Body.join_room m) =
    handle_join_room net parser now conn msg h m
run net parser now handler conn msg h (Body.leave_room m) =
    handle_leave_room net parser now conn msg h m
run net parser now handler conn msg h (Body.game_action m) =
    handle_game_action net parser now handler conn msg m
run net parser now handler conn msg h (Body.chat m) = handle_chat net parser now conn msg h m
run net parser now handler conn msg h (Body.user_info_query m) =
    handle_user_info_query net parser now conn msg h m
run net parser now handler conn msg h (Body.room_list_query m) =
    handle_room_list_query net parser now conn msg m
run net parser now handler conn msg h _ =
    λ g. (returned (err (unsupported_message_type h.msg_type)), g)

module _ (net : Net) (parser : MessageParserInterface) (now : ℕ) (handler : DefaultMessageHandler)
    (conn : Conn) (msg : WebSocketMessage) (h : MessageHeader) where
  -- A body of the type that `SerializeMessageBody` asserts for the message type, which is what the
  -- JSON parser returns, goes to its own handler: no assertion of `Handle` fails.
  pub handle_asserts :
      (body : Body)
      → msg.header ≡ some h
      → get h.msg_type serialize_cases ≡ some (kind body)
      → handle net parser now handler conn msg body ≡ run net parser now handler conn msg h body
  unfolding handle switch get
  handle_asserts (Body.heartbeat m) e k = ground arith
  handle_asserts _ e k = ground arith
