-- ===== src/Parser/Json.antt =====
-- server/gateway_ws/internal/manager/json_parser.go: `MessageParser`.
use zerogame.Shared.{String, Option, none, some, List, [], ◌∷◌, if◌then◌else◌, ◌==◌}
use zerogame.Shared.Int.{ℤ, int_key}
use zerogame.Shared.GoMap.{get, put}
use zerogame.Shared.Effect.{returned, panicked, Logger, nil}
use zerogame.Message.{
  Bytes, MessageType, WebSocketMessage, msg_heartbeat, msg_login, msg_logout, msg_join_room,
  msg_leave_room, msg_game_action, msg_chat, msg_user_info_query, msg_room_list_query,
  msg_push_game_state, msg_push_room_info, msg_push_user_update, msg_push_system_msg,
  msg_push_chat_msg, msg_push_broadcast,
}
use zerogame.Message.Body.{Body, Kind, kind, kind_key}
use zerogame.Message.Failure.{
  Result, ok, err, Call, success, failure, check, log_then, invalid_message_format,
  failed_to_serialize_message, header_is_nil, unsupported_message_type, failed_to_parse,
  failed_to_marshal_response, failed_to_serialize_push,
}
use zerogame.Parser.{
  Codec, MessageParserInterface, check_header, response_header, push_header, no_body, with_body,
}

-- The nine implementations of `MessageBodyParser`.
pub data BodyParser : Type 0 where
  heartbeat_parser login_message_parser logout_message_parser join_room_message_parser : BodyParser
  leave_room_message_parser game_action_message_parser chat_message_parser : BodyParser
  user_info_query_parser room_list_query_parser : BodyParser

unfoldable pub get_message_type : BodyParser → MessageType
get_message_type heartbeat_parser = msg_heartbeat
get_message_type login_message_parser = msg_login
get_message_type logout_message_parser = msg_logout
get_message_type join_room_message_parser = msg_join_room
get_message_type leave_room_message_parser = msg_leave_room
get_message_type game_action_message_parser = msg_game_action
get_message_type chat_message_parser = msg_chat
get_message_type user_info_query_parser = msg_user_info_query
get_message_type room_list_query_parser = msg_room_list_query

-- What `Parse` does with what `Unmarshal` returns.
abbrev parsed : {A : Type 0} → Kind → (A → Body) → Result A → Result Body
parsed k wrap (ok m) = ok (wrap m)
parsed k wrap (err e) = err (failed_to_parse k e)

module _ (codec : Codec) where
  unfoldable pub parse : BodyParser → Bytes → Result Body
  parse heartbeat_parser bytes =
      parsed Kind.heartbeat Body.heartbeat (codec.unmarshal_heartbeat bytes)
  parse login_message_parser bytes = parsed Kind.login Body.login (codec.unmarshal_login bytes)
  parse logout_message_parser bytes =
      parsed Kind.logout (λ _. Body.logout) (codec.unmarshal_logout bytes)
  parse join_room_message_parser bytes =
      parsed Kind.join_room Body.join_room (codec.unmarshal_join_room bytes)
  parse leave_room_message_parser bytes =
      parsed Kind.leave_room Body.leave_room (codec.unmarshal_leave_room bytes)
  parse game_action_message_parser bytes =
      parsed Kind.game_action Body.game_action (codec.unmarshal_game_action bytes)
  parse chat_message_parser bytes = parsed Kind.chat Body.chat (codec.unmarshal_chat bytes)
  parse user_info_query_parser bytes =
      parsed Kind.user_info_query Body.user_info_query (codec.unmarshal_user_info_query bytes)
  parse room_list_query_parser bytes =
      parsed Kind.room_list_query Body.room_list_query (codec.unmarshal_room_list_query bytes)

pub record MessageParser : Type 0 where
  pub logger : Logger
  pub parsers : List (MessageType × BodyParser)

abbrev default_parsers : List BodyParser
default_parsers =
    heartbeat_parser ∷ login_message_parser ∷ logout_message_parser ∷ join_room_message_parser
    ∷ leave_room_message_parser ∷ game_action_message_parser ∷ chat_message_parser
    ∷ user_info_query_parser ∷ room_list_query_parser ∷ []

-- The loop of `registerDefaultParsers`.
unfoldable pub register_parsers :
    List BodyParser → List (MessageType × BodyParser) → List (MessageType × BodyParser)
unfolding get_message_type
register_parsers [] m = m
register_parsers (p ∷ ps) m = register_parsers ps (put (get_message_type p) p m)

-- The embedded logger is not set.
unfoldable pub new_message_parser : MessageParser
unfolding register_parsers
new_message_parser = record { logger = nil; parsers = register_parsers default_parsers [] }

unfoldable pub parse_message : Logger → Codec → Bytes → Call WebSocketMessage
unfolding check_header
parse_message logger codec bytes = elim (codec.unmarshal_message bytes) [
  | err e ↦ log_then logger (failure (invalid_message_format e))
  | ok msg ↦ check_header msg
]

unfoldable pub serialize_message : Logger → Codec → WebSocketMessage → Call Bytes
serialize_message logger codec msg = elim (codec.marshal_message msg) [
  | err e ↦ log_then logger (failure (failed_to_serialize_message e))
  | ok bytes ↦ success bytes
]

-- The cases of the `switch` of `SerializeMessageBody`: the message type, and the type that the body
-- is asserted to have.
abbrev pub serialize_cases : List (MessageType × Kind)
serialize_cases =
    (msg_heartbeat, Kind.heartbeat)
    ∷ (msg_login, Kind.login)
    ∷ (msg_logout, Kind.logout)
    ∷ (msg_join_room, Kind.join_room)
    ∷ (msg_leave_room, Kind.leave_room)
    ∷ (msg_game_action, Kind.game_action)
    ∷ (msg_chat, Kind.chat)
    ∷ (msg_user_info_query, Kind.user_info_query)
    ∷ (msg_room_list_query, Kind.room_list_query)
    ∷ (msg_push_game_state, Kind.game_state)
    ∷ (msg_push_room_info, Kind.room_info)
    ∷ (msg_push_user_update, Kind.user_update)
    ∷ (msg_push_system_msg, Kind.system_message)
    ∷ (msg_push_chat_msg, Kind.chat_push)
    ∷ (msg_push_broadcast, Kind.broadcast)
    ∷ []

module _ (codec : Codec) (p : MessageParser) where
  unfoldable pub parse_message_body : WebSocketMessage → Call Body
  unfolding parse
  parse_message_body msg = elim (msg.header) [
    | none ↦ failure header_is_nil
    | some h ↦ elim (get h.msg_type p.parsers) [
      | none ↦ failure (unsupported_message_type h.msg_type)
      | some parser ↦ returned (parse codec parser msg.body)
    ]
  ]

  -- `body.(*T)` panics where the dynamic type is another.
  unfoldable pub serialize_message_body : MessageType → Body → Call Bytes
  serialize_message_body msg_type body = elim (get msg_type serialize_cases) [
    | none ↦ failure (unsupported_message_type msg_type)
    | some k ↦ if kind body == k then returned (codec.marshal body) else panicked
  ]

  -- The text `msg` is not used.
  unfoldable pub create_response :
      WebSocketMessage → ℤ → String → Option Body → Call WebSocketMessage
  unfolding response_header
  create_response request code msg answer = elim (request.header) [
    | none ↦ panicked
    | some h ↦ elim answer [
      | none ↦ success (no_body (response_header h code))
      | some body ↦
          check (returned (codec.marshal body)) failed_to_marshal_response
            λ bytes. success (with_body (response_header h code) bytes)
    ]
  ]

  unfoldable pub create_push_message :
      MessageType → ℤ → String → String → Option Body → Call WebSocketMessage
  unfolding push_header serialize_message_body
  create_push_message msg_type user_id room_id game_id content = elim content [
    | none ↦ success (no_body (push_header msg_type user_id room_id game_id))
    | some body ↦
        check (serialize_message_body msg_type body) failed_to_serialize_push
          λ bytes. success (with_body (push_header msg_type user_id room_id game_id) bytes)
  ]

  -- `*MessageParser` as a `MessageParserInterface`.
  abbrev pub json_interface : MessageParserInterface
  json_interface = record {
    parse_message = parse_message p.logger codec;
    serialize_message = serialize_message p.logger codec;
    parse_message_body = parse_message_body;
    serialize_message_body = serialize_message_body;
    create_response = create_response;
    create_push_message = create_push_message;
  }
