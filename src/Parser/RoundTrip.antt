-- ===== src/Parser/RoundTrip.antt =====
-- Bodies that go through the JSON parser and back.
use zerogame.Shared.{◌≡◌, some, arith}
use zerogame.Shared.Int.{int_key}
use zerogame.Shared.GoMap.{get}
use zerogame.Message.{
  Bytes, MessageHeader, WebSocketMessage, Heartbeat, LoginMessage, JoinRoomMessage,
  LeaveRoomMessage, GameActionMessage, ChatMessage, UserInfoQuery, RoomListQuery,
}
use zerogame.Message.Body.{Body, kind, kind_key}
use zerogame.Message.Failure.{ok, success}
use zerogame.Parser.{Codec, with_body}
use zerogame.Parser.Bodies.{client_kind, get-new_message_parser}
use zerogame.Parser.Json.{
  BodyParser, parse, new_message_parser, parse_message_body, serialize_message_body,
}

-- The codec decodes what it encodes, at each type that a client sends.
pub record CodecLaws (codec : Codec) : Type 0 where
  pub message :
      (m : WebSocketMessage) (b : Bytes)
      → codec.marshal_message m ≡ ok b
      → codec.unmarshal_message b ≡ ok m
  pub heartbeat :
      (m : Heartbeat) (b : Bytes)
      → codec.marshal (Body.heartbeat m) ≡ ok b
      → codec.unmarshal_heartbeat b ≡ ok m
  pub login :
      (m : LoginMessage) (b : Bytes)
      → codec.marshal (Body.login m) ≡ ok b
      → codec.unmarshal_login b ≡ ok m
  pub logout : (b : Bytes) → codec.marshal Body.logout ≡ ok b → codec.unmarshal_logout b ≡ ok tt
  pub join_room :
      (m : JoinRoomMessage) (b : Bytes)
      → codec.marshal (Body.join_room m) ≡ ok b
      → codec.unmarshal_join_room b ≡ ok m
  pub leave_room :
      (m : LeaveRoomMessage) (b : Bytes)
      → codec.marshal (Body.leave_room m) ≡ ok b
      → codec.unmarshal_leave_room b ≡ ok m
  pub game_action :
      (m : GameActionMessage) (b : Bytes)
      → codec.marshal (Body.game_action m) ≡ ok b
      → codec.unmarshal_game_action b ≡ ok m
  pub chat :
      (m : ChatMessage) (b : Bytes)
      → codec.marshal (Body.chat m) ≡ ok b
      → codec.unmarshal_chat b ≡ ok m
  pub user_info_query :
      (m : UserInfoQuery) (b : Bytes)
      → codec.marshal (Body.user_info_query m) ≡ ok b
      → codec.unmarshal_user_info_query b ≡ ok m
  pub room_list_query :
      (m : RoomListQuery) (b : Bytes)
      → codec.marshal (Body.room_list_query m) ≡ ok b
      → codec.unmarshal_room_list_query b ≡ ok m

module _ (codec : Codec) (laws : CodecLaws codec) where
  parse-marshal :
      (p : BodyParser) (body : Body) (b : Bytes)
      → client_kind p ≡ kind body
      → codec.marshal body ≡ ok b
      → parse codec p b ≡ ok body
  unfolding parse
  parse-marshal BodyParser.heartbeat_parser (Body.heartbeat m) b same e = rw (laws.heartbeat m b e)
  parse-marshal BodyParser.login_message_parser (Body.login m) b same e = rw (laws.login m b e)
  parse-marshal BodyParser.join_room_message_parser (Body.join_room m) b same e =
      rw (laws.join_room m b e)
  parse-marshal BodyParser.leave_room_message_parser (Body.leave_room m) b same e =
      rw (laws.leave_room m b e)
  parse-marshal BodyParser.game_action_message_parser (Body.game_action m) b same e =
      rw (laws.game_action m b e)
  parse-marshal BodyParser.chat_message_parser (Body.chat m) b same e = rw (laws.chat m b e)
  parse-marshal BodyParser.user_info_query_parser (Body.user_info_query m) b same e =
      rw (laws.user_info_query m b e)
  parse-marshal BodyParser.room_list_query_parser (Body.room_list_query m) b same e =
      rw (laws.room_list_query m b e)
  parse-marshal BodyParser.logout_message_parser Body.logout b same e = rw (laws.logout b e)
  parse-marshal _ _ b same e = absurd (ground arith)

  -- What the JSON parser writes for the message type of a header that its table has, its
  -- `ParseMessageBody` reads back under that header, if the codec decodes what it encodes.
  pub parse_message_body-serialize_message_body :
      (p : BodyParser) (body : Body) (bytes : Bytes) (h : MessageHeader)
      → get h.msg_type new_message_parser.parsers ≡ some p
      → serialize_message_body codec new_message_parser h.msg_type body ≡ success bytes
      → parse_message_body codec new_message_parser (with_body h bytes) ≡ success body
  unfolding parse_message_body serialize_message_body
  parse_message_body-serialize_message_body p body bytes h found e =
      ground (arith, found, get-new_message_parser h.msg_type p found, parse-marshal p body bytes)
