-- ===== src/Parser/Bodies.antt =====
-- The bodies that the JSON parser reads and writes, by message type.
use zerogame.Shared.{
  ◌≡◌, refl, ◌≢◌, ◌↔◌, inl, inr, some, List, [], ◌∷◌, ℕ_discrete, arith, Option-cases,
}
use zerogame.Shared.Int.{int_key, ℤ_discrete}
use zerogame.Shared.GoMap.{get, put}
use zerogame.Shared.Effect.{panicked}
use zerogame.Message.{
  Bytes, MessageType, MessageHeader, WebSocketMessage, msg_heartbeat, msg_login, msg_logout,
  msg_join_room, msg_leave_room, msg_game_action, msg_chat, msg_user_info_query,
  msg_room_list_query,
}
use zerogame.Message.Body.{Body, Kind, kind, kind_key}
use zerogame.Message.Failure.{ok, success}
use zerogame.Parser.{Codec}
use zerogame.Parser.Json.{
  BodyParser, get_message_type, parse, new_message_parser, MessageParser, serialize_cases,
  parse_message_body, serialize_message_body,
}

-- The struct that each message type's body decodes into.
abbrev pub client_kind : BodyParser → Kind
client_kind BodyParser.heartbeat_parser = Kind.heartbeat
client_kind BodyParser.login_message_parser = Kind.login
client_kind BodyParser.logout_message_parser = Kind.logout
client_kind BodyParser.join_room_message_parser = Kind.join_room
client_kind BodyParser.leave_room_message_parser = Kind.leave_room
client_kind BodyParser.game_action_message_parser = Kind.game_action
client_kind BodyParser.chat_message_parser = Kind.chat
client_kind BodyParser.user_info_query_parser = Kind.user_info_query
client_kind BodyParser.room_list_query_parser = Kind.room_list_query

kind-parse :
    (codec : Codec) (p : BodyParser) (bytes : Bytes) (body : Body)
    → parse codec p bytes ≡ ok body
    → kind body ≡ client_kind p
unfolding parse
kind-parse codec BodyParser.heartbeat_parser bytes body e = ground arith
kind-parse codec _ bytes body e = ground arith

abbrev table : List (MessageType × BodyParser)
table =
    (msg_heartbeat, BodyParser.heartbeat_parser)
    ∷ (msg_login, BodyParser.login_message_parser)
    ∷ (msg_logout, BodyParser.logout_message_parser)
    ∷ (msg_join_room, BodyParser.join_room_message_parser)
    ∷ (msg_leave_room, BodyParser.leave_room_message_parser)
    ∷ (msg_game_action, BodyParser.game_action_message_parser)
    ∷ (msg_chat, BodyParser.chat_message_parser)
    ∷ (msg_user_info_query, BodyParser.user_info_query_parser)
    ∷ (msg_room_list_query, BodyParser.room_list_query_parser)
    ∷ []

parsers-new_message_parser : new_message_parser.parsers ≡ table
unfolding new_message_parser put ℤ_discrete ℕ_discrete
parsers-new_message_parser = refl

get-table :
    (t : MessageType) (p : BodyParser)
    → get t table ≡ some p
    → (t ≡ get_message_type p) × (get t serialize_cases ≡ some (client_kind p))
unfolding get get_message_type
get-table t p e = ground arith

pub get-new_message_parser :
    (t : MessageType) (p : BodyParser)
    → get t new_message_parser.parsers ≡ some p
    → (t ≡ get_message_type p) × (get t serialize_cases ≡ some (client_kind p))
get-new_message_parser t p e = get-table t p (rw parsers-new_message_parser at e)

-- A parser that the constructor made returns a body only of the type that the message type
-- stands for, which is the type that `SerializeMessageBody` asserts for it.
pub parse_message_body_kind :
    (codec : Codec) (msg : WebSocketMessage) (body : Body)
    → parse_message_body codec new_message_parser msg ≡ success body
    → (h : MessageHeader) × (msg.header ≡ some h)
      × (get h.msg_type serialize_cases ≡ some (kind body))
unfolding parse_message_body
parse_message_body_kind codec msg body e = elim (Option-cases (msg.header)) [
  | inl n ↦ absurd (ground arith)
  | inr (h, s) ↦ elim (Option-cases (get h.msg_type new_message_parser.parsers)) [
    | inl n ↦ absurd (ground arith)
    | inr (p, f) ↦ (
      h,
      s,
      ground (arith, get-new_message_parser h.msg_type p f, kind-parse codec p msg.body body),
    )
  ]
]

-- `SerializeMessageBody` panics exactly where the message type has a case and the body is of another
-- type than the case asserts.
pub serialize_message_body_panics :
    (codec : Codec) (p : MessageParser) (t : MessageType) (body : Body)
    → (serialize_message_body codec p t body ≡ panicked)
      ↔ ((k : Kind) × (get t serialize_cases ≡ some k) × (kind body ≢ k))
unfolding serialize_message_body
serialize_message_body_panics codec p t body = elim (Option-cases (get t serialize_cases)) [
  | inl n ↦ rw (n, serialize_message_body) (λ e. cc, λ (k, e, ne). cc)
  | inr (k, s) ↦
      rw (s, serialize_message_body)
        (λ e. (k, refl, λ same. ground arith), λ (k', e, ne). ground arith)
]
