-- ===== src/Handler/Dispatch.antt =====
-- server/gateway_ws/internal/manager/router.go: the `switch` of `Handle`, and
-- `RegisterDefaultHandlers`.
use zerogame.Shared.{ℕ, none, some, List, [], ◌∷◌, if◌then◌else◌, ◌==◌}
use zerogame.Shared.Int.{int_key}
use zerogame.Shared.Effect.{M, Outcome, returned, panicked}
use zerogame.Message.{
  MessageType, MessageHeader, WebSocketMessage, msg_heartbeat, msg_login, msg_logout, msg_join_room,
  msg_leave_room, msg_game_action, msg_chat, msg_user_info_query, msg_room_list_query,
}
use zerogame.Message.Body.{Body}
use zerogame.Message.Failure.{err, unsupported_message_type}
use zerogame.Parser.{MessageParserInterface}
use zerogame.Connection.{Conn}
use zerogame.Gateway.{Net, G}
use zerogame.Router.{MessageRouter, register_handler}
use zerogame.Handler.{
  DefaultMessageHandler, new_default_message_handler, handle_heartbeat, handle_login, handle_logout,
  handle_join_room, handle_leave_room, handle_game_action, handle_chat, handle_user_info_query,
  handle_room_list_query,
}

-- A type assertion that fails, or a nil header that is read.
abbrev pub fault : G (Unit {0})
fault g = (panicked, g)

module _ (net : Net) (parser : MessageParserInterface) (now : ℕ) where
  module _ (handler : DefaultMessageHandler) (conn : Conn) (msg : WebSocketMessage) where
    -- The `switch`, with the assertion of each case.
    unfoldable pub switch : MessageHeader → Body → G (Unit {0})
    switch h body =
        if h.msg_type == msg_heartbeat
        then (elim body [ Body.heartbeat m ↦ handle_heartbeat net parser now conn m | _ ↦ fault ])
        else if h.msg_type == msg_login
        then (elim body [ Body.login m ↦ handle_login net parser now conn msg m | _ ↦ fault ])
        else if h.msg_type == msg_logout
        then (elim body [ Body.logout ↦ handle_logout net parser now conn msg | _ ↦ fault ])
        else if h.msg_type == msg_join_room
        then (elim body [
          | Body.join_room m ↦ handle_join_room net parser now conn msg h m
          | _ ↦ fault
        ])
        else if h.msg_type == msg_leave_room
        then (elim body [
          | Body.leave_room m ↦ handle_leave_room net parser now conn msg h m
          | _ ↦ fault
        ])
        else if h.msg_type == msg_game_action
        then (elim body [
          | Body.game_action m ↦ handle_game_action net parser now handler conn msg m
          | _ ↦ fault
        ])
        else if h.msg_type == msg_chat
        then (elim body [ Body.chat m ↦ handle_chat net parser now conn msg h m | _ ↦ fault ])
        else if h.msg_type == msg_user_info_query
        then (elim body [
          | Body.user_info_query m ↦ handle_user_info_query net parser now conn msg h m
          | _ ↦ fault
        ])
        else if h.msg_type == msg_room_list_query
        then (elim body [
          | Body.room_list_query m ↦ handle_room_list_query net parser now conn msg m
          | _ ↦ fault
        ])
        else (λ g. (returned (err (unsupported_message_type h.msg_type)), g))

  unfoldable pub handle : DefaultMessageHandler → Conn → WebSocketMessage → Body → G (Unit {0})
  handle handler conn msg body = elim (msg.header) [
    | none ↦ fault
    | some h ↦ switch handler conn msg h body
  ]

-- The message types of `RegisterDefaultHandlers`, in its order.
abbrev pub default_types : List MessageType
default_types =
    msg_heartbeat ∷ msg_login ∷ msg_logout ∷ msg_join_room ∷ msg_leave_room ∷ msg_game_action
    ∷ msg_chat ∷ msg_user_info_query ∷ msg_room_list_query ∷ []

abbrev and_then :
    Outcome (Unit {0}) × MessageRouter DefaultMessageHandler
    → M (MessageRouter DefaultMessageHandler) (Unit {0})
    → Outcome (Unit {0}) × MessageRouter DefaultMessageHandler
and_then (returned u, r) rest = rest r
and_then (panicked, r) rest = (panicked, r)

unfoldable pub register_all :
    List MessageType → DefaultMessageHandler → M (MessageRouter DefaultMessageHandler) (Unit {0})
register_all [] handler r = (returned tt, r)
register_all (t ∷ ts) handler r =
    and_then (register_handler DefaultMessageHandler t handler r) (register_all ts handler)

-- One handler serves all the types.
unfoldable pub register_default_handlers : M (MessageRouter DefaultMessageHandler) (Unit {0})
unfolding register_all
register_default_handlers = register_all default_types new_default_message_handler
