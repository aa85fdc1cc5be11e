-- ===== src/Parser.antt =====
-- The parser interface of server/gateway_ws/internal/manager/json_parser.go, and what the JSON and
-- the protobuf parser both do.
--
-- `encoding/json` and `google.golang.org/protobuf/proto` are the parameter `Codec`.
pub mod Json
pub mod Proto
pub mod Headers
pub mod Bodies
pub mod RoundTrip
pub mod Responses
pub mod Tests
use zerogame.Shared.{
  ℕ, String, Bool, true, false, ◌||◌, Option, none, some, List, [], ◌∷◌, if◌then◌else◌, ◌==◌, Key,
}
use zerogame.Shared.Int.{ℤ, pos, ltb_ℤ, add_int32}
use zerogame.Shared.Effect.{Outcome, returned, panicked, Logger}
use zerogame.Message.{
  Bytes, MessageType, MessageHeader, WebSocketMessage, Heartbeat, LoginMessage, JoinRoomMessage,
  LeaveRoomMessage, GameActionMessage, ChatMessage, UserInfoQuery, RoomListQuery,
}
use zerogame.Message.Body.{Body}
use zerogame.Message.Failure.{
  Error, Result, ok, err, Call, success, failure, log_then, invalid_message_format, header_required,
  invalid_message_type, failed_to_serialize_message,
}

-- `Marshal` and `Unmarshal` at the types that the gateway calls them at. The library has one error
-- per failure; `marshal` reads the dynamic type of the value.
pub record Codec : Type 0 where
  pub marshal_message : WebSocketMessage → Result Bytes
  pub unmarshal_message : Bytes → Result WebSocketMessage
  pub marshal : Body → Result Bytes
  pub unmarshal_heartbeat : Bytes → Result Heartbeat
  pub unmarshal_login : Bytes → Result LoginMessage
  pub unmarshal_logout : Bytes → Result (Unit {0})
  pub unmarshal_join_room : Bytes → Result JoinRoomMessage
  pub unmarshal_leave_room : Bytes → Result LeaveRoomMessage
  pub unmarshal_game_action : Bytes → Result GameActionMessage
  pub unmarshal_chat : Bytes → Result ChatMessage
  pub unmarshal_user_info_query : Bytes → Result UserInfoQuery
  pub unmarshal_room_list_query : Bytes → Result RoomListQuery

-- `MessageParserInterface`.
pub record MessageParserInterface : Type 0 where
  pub parse_message : Bytes → Call WebSocketMessage
  pub serialize_message : WebSocketMessage → Call Bytes
  pub parse_message_body : WebSocketMessage → Call Body
  pub serialize_message_body : MessageType → Body → Call Bytes
  pub create_response : WebSocketMessage → ℤ → String → Option Body → Call WebSocketMessage
  pub create_push_message : MessageType → ℤ → String → String → Option Body → Call WebSocketMessage

-- `msg.Header.MsgType < 0 || msg.Header.MsgType > 105`.
abbrev pub out_of_range : MessageType → Bool
out_of_range t = ltb_ℤ t (pos 0) || ltb_ℤ (pos 105) t

-- The header checks of `ParseMessage` of both parsers.
unfoldable pub check_header : WebSocketMessage → Call WebSocketMessage
check_header msg = elim (msg.header) [
  | none ↦ failure header_required
  | some h ↦
      if out_of_range h.msg_type then failure (invalid_message_type h.msg_type) else success msg
]

-- The header that `CreateResponse` of both parsers makes.
unfoldable pub response_header : MessageHeader → ℤ → MessageHeader
response_header request code = record {
  msg_type = add_int32 code (pos 1000);
  msg_id = request.msg_id;
  timestamp = request.timestamp;
  user_id = request.user_id;
  room_id = request.room_id;
  game_id = request.game_id;
}

-- The header that `CreatePushMessage` of both parsers makes.
unfoldable pub push_header : MessageType → ℤ → String → String → MessageHeader
push_header msg_type user_id room_id game_id = record {
  msg_type = msg_type;
  msg_id = "";
  timestamp = pos 0;
  user_id = user_id;
  room_id = room_id;
  game_id = game_id;
}

abbrev pub no_body : MessageHeader → WebSocketMessage
no_body header = record { header = some header; body = [] }

abbrev pub with_body : MessageHeader → Bytes → WebSocketMessage
with_body header bytes = record { header = some header; body = bytes }
