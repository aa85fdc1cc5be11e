-- ===== src/Parser/Tests.antt =====
-- The parsers with a concrete codec: it encodes the heartbeats with a time from 0 up, the empty
-- logout, and the messages whose header has nothing but a type and a user.
use zerogame.Shared.{
  ℕ, ◌≡◌, ◌↔◌, inl, inr, Option-cases, refl, Bool, true, ◌&&◌, none, some, [], ◌∷◌, ◌==◌,
  string_key, ℕ_discrete, String_discrete, arith,
}
use zerogame.Shared.Int.{ℤ, pos, negsuc, int_key, ℤ_discrete}
use zerogame.Shared.GoMap.{get, put}
use zerogame.Message.{Bytes, MessageHeader, WebSocketMessage, Heartbeat}
use zerogame.Message.Body.{Body, kind_key, Kind_discrete}
use zerogame.Message.Failure.{
  Error, library, Result, ok, err, success, failure, invalid_message_type,
}
use zerogame.Parser.{Codec, check_header, with_body, no_body, response_header}
use zerogame.Shared.Int.{add_int32}
use zerogame.Parser.Json.{
  BodyParser, new_message_parser, parse, parse_message_body, serialize_message_body,
  serialize_cases,
}
use zerogame.Parser.Json
use zerogame.Parser.Proto.{new_proto_message_parser}
use zerogame.Parser.Headers.{
  AnyParser, json, proto, interface_of, IsAcceptable, parse_message_accepts,
}
use zerogame.Parser.Responses.{parse_message-create_response}
use zerogame.Parser.RoundTrip.{CodecLaws, parse_message_body-serialize_message_body}

abbrev pub failed : Error
failed = library "no such value"

abbrev pub header_of : ℕ → ℕ → MessageHeader
header_of t u = record {
  msg_type = pos t;
  msg_id = "";
  timestamp = pos 0;
  user_id = pos u;
  room_id = "";
  game_id = "";
}

abbrev is_plain : MessageHeader → Bool
is_plain h = (h.msg_id == "") && (h.timestamp == pos 0) && (h.room_id == "") && (h.game_id == "")

abbrev encode_header : Bool → ℤ → ℤ → Bytes → Result Bytes
encode_header true (pos t) (pos u) body = ok (t ∷ u ∷ body)
encode_header _ _ _ body = err failed

abbrev encode : WebSocketMessage → Result Bytes
encode msg = elim (msg.header) [
  | none ↦ err failed
  | some h ↦ encode_header (is_plain h) h.msg_type h.user_id msg.body
]

abbrev decode : Bytes → Result WebSocketMessage
decode [] = err failed
decode (t ∷ []) = err failed
decode (t ∷ u ∷ body) = ok (with_body (header_of t u) body)

abbrev encode_time : ℤ → Result Bytes
encode_time (pos n) = ok (n ∷ [])
encode_time (negsuc n) = err failed

abbrev encode_body : Body → Result Bytes
encode_body (Body.heartbeat m) = encode_time m.client_time
encode_body Body.logout = ok []
encode_body _ = err failed

abbrev decode_time : Bytes → Result Heartbeat
decode_time [] = err failed
decode_time (n ∷ rest) = ok (record { client_time = pos n })

abbrev pub sample_codec : Codec
sample_codec = record {
  marshal_message = encode;
  unmarshal_message = decode;
  marshal = encode_body;
  unmarshal_heartbeat = decode_time;
  unmarshal_login = λ b. err failed;
  unmarshal_logout = λ b. ok tt;
  unmarshal_join_room = λ b. err failed;
  unmarshal_leave_room = λ b. err failed;
  unmarshal_game_action = λ b. err failed;
  unmarshal_chat = λ b. err failed;
  unmarshal_user_info_query = λ b. err failed;
  unmarshal_room_list_query = λ b. err failed;
}

decode-encode_header :
    (h : MessageHeader) (body b : Bytes)
    → encode_header (is_plain h) h.msg_type h.user_id body ≡ ok b
    → decode b ≡ ok (with_body h body)
decode-encode_header h body b e = ground arith

decode-encode : (m : WebSocketMessage) (b : Bytes) → encode m ≡ ok b → decode b ≡ ok m
decode-encode m b e = elim (Option-cases (m.header)) [
  | inl n ↦ absurd (ground arith)
  | inr (h, s) ↦ ground (arith, decode-encode_header h m.body b)
]

sample_heartbeat :
    (m : Heartbeat) (b : Bytes) → encode_body (Body.heartbeat m) ≡ ok b → decode_time b ≡ ok m
sample_heartbeat m b e = ground arith

pub sample_laws : CodecLaws sample_codec
sample_laws = record {
  message = decode-encode;
  heartbeat = sample_heartbeat;
  login = λ m b e. absurd (ground arith);
  logout = λ b e. refl;
  join_room = λ m b e. absurd (ground arith);
  leave_room = λ m b e. absurd (ground arith);
  game_action = λ m b e. absurd (ground arith);
  chat = λ m b e. absurd (ground arith);
  user_info_query = λ m b e. absurd (ground arith);
  room_list_query = λ m b e. absurd (ground arith);
}

abbrev readable : AnyParser
readable = json new_message_parser

abbrev pub compact : AnyParser
compact = proto new_proto_message_parser

-- A heartbeat of user 5 sent at time 42.
abbrev pub beat : Heartbeat
beat = record { client_time = pos 42 }

abbrev pub beat_message : WebSocketMessage
beat_message = with_body (header_of 0 5) (42 ∷ [])

beat_Acceptable : IsAcceptable beat_message
beat_Acceptable = (header_of 0 5, refl, omega arith, omega arith)

pub beat_parses :
    (interface_of sample_codec readable).parse_message (0 ∷ 5 ∷ 42 ∷ []) ≡ success beat_message
unfolding Json.parse_message check_header
beat_parses = refl

pub beat_body :
    parse_message_body sample_codec new_message_parser beat_message ≡ success (Body.heartbeat beat)
unfolding parse_message_body new_message_parser put get ℤ_discrete ℕ_discrete parse
beat_body = refl

parse_message_accepts_example :
    ((interface_of sample_codec readable).parse_message (0 ∷ 5 ∷ 42 ∷ []) ≡ success beat_message)
    ↔ ((sample_codec.unmarshal_message (0 ∷ 5 ∷ 42 ∷ []) ≡ ok beat_message)
        × IsAcceptable beat_message)
parse_message_accepts_example =
    parse_message_accepts readable sample_codec (0 ∷ 5 ∷ 42 ∷ []) beat_message

beat_found : get (pos 0) new_message_parser.parsers ≡ some BodyParser.heartbeat_parser
unfolding new_message_parser put get ℤ_discrete ℕ_discrete
beat_found = refl

beat_body_written :
    serialize_message_body sample_codec new_message_parser (pos 0) (Body.heartbeat beat)
    ≡ success (42 ∷ [])
unfolding serialize_message_body get ℤ_discrete ℕ_discrete Kind_discrete
beat_body_written = refl

parse_message_body-serialize_message_body_example :
    parse_message_body sample_codec new_message_parser beat_message ≡ success (Body.heartbeat beat)
parse_message_body-serialize_message_body_example =
    parse_message_body-serialize_message_body sample_codec sample_laws BodyParser.heartbeat_parser
      (Body.heartbeat beat) (42 ∷ []) (header_of 0 5) beat_found beat_body_written

abbrev answer : WebSocketMessage
answer = no_body (header_of 1000 5)

answer_made :
    Json.create_response sample_codec new_message_parser beat_message
      (pos 0)
      "Logout successful"
      none
    ≡ success answer
unfolding Json.create_response response_header add_int32
answer_made = refl

answer_written :
    (interface_of sample_codec readable).serialize_message answer ≡ success (1000 ∷ 5 ∷ [])
unfolding Json.serialize_message String_discrete ℤ_discrete ℕ_discrete
answer_written = refl

parse_message-create_response_example :
    (interface_of sample_codec readable).parse_message (1000 ∷ 5 ∷ [])
    ≡ failure (invalid_message_type (pos 1000))
parse_message-create_response_example =
    parse_message-create_response sample_codec readable beat_message answer 0 "Logout successful"
      none (1000 ∷ 5 ∷ []) decode-encode (omega arith) answer_made answer_written
