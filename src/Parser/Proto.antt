-- ===== src/Parser/Proto.antt =====
-- server/gateway_ws/internal/manager/proto_parser.go: `ProtoMessageParser`.
use zerogame.Shared.{String, Option, none, some, List, [], ◌∷◌, if◌then◌else◌, ◌==◌}
use zerogame.Shared.Int.{ℤ, pos, add_int32, int_key}
use zerogame.Shared.GoMap.{get}
use zerogame.Shared.Effect.{returned, panicked, Logger, nil}
use zerogame.Message.{Bytes, MessageType, WebSocketMessage, msg_heartbeat, msg_login, msg_join_room}
use zerogame.Message.Body.{Body, Kind, kind, kind_key}
use zerogame.Message.Failure.{
  Result, ok, err, Call, success, failure, check, log_then, invalid_proto_format,
  failed_to_serialize_proto, unsupported_for_proto, map_err, header_is_nil,
  unsupported_message_type, failed_to_parse, failed_to_marshal, failed_to_marshal_response,
  failed_to_serialize_push,
}
use zerogame.Parser.{
  Codec, MessageParserInterface, check_header, response_header, push_header, no_body, with_body,
}

pub record ProtoMessageParser : Type 0 where
  pub logger : Logger

-- The embedded logger is not set.
unfoldable pub new_proto_message_parser : ProtoMessageParser
new_proto_message_parser = record { logger = nil }

abbrev parsed : {A : Type 0} → Kind → (A → Body) → Result A → Result Body
parsed k wrap (ok m) = ok (wrap m)
parsed k wrap (err e) = err (failed_to_parse k e)

unfoldable pub parse_message : Logger → Codec → Bytes → Call WebSocketMessage
unfolding check_header
parse_message logger codec bytes = elim (codec.unmarshal_message bytes) [
  | err e ↦ log_then logger (failure (invalid_proto_format e))
  | ok msg ↦ check_header msg
]

unfoldable pub serialize_message : Logger → Codec → WebSocketMessage → Call Bytes
serialize_message logger codec msg = elim (codec.marshal_message msg) [
  | err e ↦ log_then logger (failure (failed_to_serialize_proto e))
  | ok bytes ↦ success bytes
]

-- The cases of both `switch` statements.
abbrev pub proto_cases : List (MessageType × Kind)
proto_cases =
    (msg_heartbeat, Kind.heartbeat) ∷ (msg_login, Kind.login) ∷ (msg_join_room, Kind.join_room) ∷ []

module _ (codec : Codec) where
  unfoldable pub parse_message_body : WebSocketMessage → Call Body
  parse_message_body msg = elim (msg.header) [
    | none ↦ failure header_is_nil
    | some h ↦
        let t = h.msg_type in
        if t == msg_heartbeat
        then returned (parsed Kind.heartbeat Body.heartbeat (codec.unmarshal_heartbeat msg.body))
        else if t == msg_login
        then returned (parsed Kind.login Body.login (codec.unmarshal_login msg.body))
        else if t == msg_join_room
        then returned (parsed Kind.join_room Body.join_room (codec.unmarshal_join_room msg.body))
        else failure (unsupported_message_type t)
  ]

  unfoldable pub serialize_message_body : MessageType → Body → Call Bytes
  serialize_message_body msg_type body = elim (get msg_type proto_cases) [
    | none ↦ failure (unsupported_for_proto msg_type)
    | some k ↦
        if kind body == k
        then returned (map_err (failed_to_marshal k) (codec.marshal body))
        else panicked
  ]

  unfoldable pub create_response :
      WebSocketMessage → ℤ → String → Option Body → Call WebSocketMessage
  unfolding response_header serialize_message_body
  create_response request code msg answer = elim (request.header) [
    | none ↦ panicked
    | some h ↦ elim answer [
      | none ↦ success (no_body (response_header h code))
      | some body ↦
          check (serialize_message_body (add_int32 code (pos 1000)) body) failed_to_marshal_response
            λ bytes. success (with_body (response_header h code) bytes)
    ]
  ]

  unfoldable pub create_push_message :
      MessageType → ℤ → String → String → Option Body → Call WebSocketMessage
  unfolding push_header serialize_message_body
  create_push_message msg_type user_id room_id game_id content = elim content [
    | none ↦ success (no_body (push_header msg_type user_id room_id game_id))
    | some body ↦
        check (serialize_message_body msg_type body) failed_to_serialize_push
          λ bytes. success (with_body (push_header msg_type user_id room_id game_id) bytes)
  ]

  -- `*ProtoMessageParser` as a `MessageParserInterface`.
  abbrev pub proto_interface : ProtoMessageParser → MessageParserInterface
  proto_interface p = record {
    parse_message = parse_message p.logger codec;
    serialize_message = serialize_message p.logger codec;
    parse_message_body = parse_message_body;
    serialize_message_body = serialize_message_body;
    create_response = create_response;
    create_push_message = create_push_message;
  }
