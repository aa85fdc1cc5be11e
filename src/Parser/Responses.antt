-- ===== src/Parser/Responses.antt =====
-- The messages that the parsers make in answer to a request.
use zerogame.Shared.{
  ◌∙◌, true, refl, inl, inr, Option-cases, ℕ, ◌+◌, ◌<◌, ◌^◌, ◌≡◌, String, Option, some, arith,
}
use zerogame.Shared.Int.{ℤ, pos, add_int32, int_key}
use zerogame.Shared.GoMap.{get}
use zerogame.Message.{Bytes, MessageHeader, WebSocketMessage}
use zerogame.Message.Body.{Body, kind_key}
use zerogame.Message.Failure.{
  ok, success, failure, invalid_message_type, unsupported_for_proto, failed_to_marshal_response,
}
use zerogame.Parser.{Codec, check_header, out_of_range, response_header}
use zerogame.Parser.Headers.{AnyParser, json, proto, interface_of, serialize_message_sound}
use mathlib.Core.Path.{subst}
use zerogame.Parser.Json
use zerogame.Parser.Proto
use zerogame.Parser.Json.{MessageParser}

-- Below the int32 limit the sum of a code and 1000 does not wrap.
pub add_int32_1000 : (n : ℕ) → n + 1000 < 2 ^ 31 → add_int32 (pos n) (pos 1000) ≡ pos (n + 1000)
unfolding add_int32
add_int32_1000 n small = ground arith

-- The header of a response: of the request's fields it changes the type.
create_response_header :
    (codec : Codec) (maker : AnyParser) (request resp : WebSocketMessage) (code : ℤ) (text : String)
    (answer : Option Body)
    → (interface_of codec maker).create_response request code text answer ≡ success resp
    → (h : MessageHeader) × (resp.header ≡ some h) × (h.msg_type ≡ add_int32 code (pos 1000))
unfolding Json.create_response Proto.create_response response_header
create_response_header codec (json p) request resp code text answer e =
    elim (Option-cases (request.header)) [
      | inl n ↦ absurd (ground arith)
      | inr (h, s) ↦ (response_header h code, ground arith, refl)
    ]
create_response_header codec (proto p) request resp code text answer e =
    elim (Option-cases (request.header)) [
      | inl n ↦ absurd (ground arith)
      | inr (h, s) ↦ (response_header h code, ground arith, refl)
    ]

parse_refuses :
    (codec : Codec) (reader : AnyParser) (msg : WebSocketMessage) (h : MessageHeader)
    (bytes : Bytes)
    → codec.unmarshal_message bytes ≡ ok msg
    → msg.header ≡ some h
    → out_of_range h.msg_type ≡ true
    → (interface_of codec reader).parse_message bytes ≡ failure (invalid_message_type h.msg_type)
unfolding Json.parse_message Proto.parse_message check_header
parse_refuses codec (json p) msg h bytes d s out =
    rw (d, Json.parse_message, s, check_header, out) refl
parse_refuses codec (proto p) msg h bytes d s out =
    rw (d, Proto.parse_message, s, check_header, out) refl

-- With a parser of either format and its codec, where the codec decodes what it encodes: a response
-- whose code lies from 0 up and, with 1000 added, below 2^31, carries the type `code + 1000`, whatever
-- the type of the request, and `ParseMessage` of the same parser refuses it for that type.
pub parse_message-create_response :
    (codec : Codec) (parser : AnyParser) (request resp : WebSocketMessage) (n : ℕ) (text : String)
    (answer : Option Body) (bytes : Bytes)
    → ((m : WebSocketMessage) (b : Bytes)
        → codec.marshal_message m ≡ ok b
        → codec.unmarshal_message b ≡ ok m)
    → n + 1000 < 2 ^ 31
    → (interface_of codec parser).create_response request (pos n) text answer ≡ success resp
    → (interface_of codec parser).serialize_message resp ≡ success bytes
    → (interface_of codec parser).parse_message bytes
      ≡ failure (invalid_message_type (pos (n + 1000)))
parse_message-create_response codec parser request resp n text answer bytes inverse small made
      written =
    let (h, s, t) = create_response_header codec parser request resp (pos n) text answer made in
    let typed : h.msg_type ≡ pos (n + 1000) = t ∙ add_int32_1000 n small in
    subst (λ t. (interface_of codec parser).parse_message bytes ≡ failure (invalid_message_type t))
      typed
      (parse_refuses codec parser resp h bytes
        (inverse resp bytes (serialize_message_sound parser codec resp bytes written)) s
        (rw typed (ground arith)))

-- With the protobuf parser no request is answered with data: for each code from 0 up and each body
-- `CreateResponse` fails, since no message type from 1000 up has a case.
pub create_response_fails :
    (codec : Codec) (request : WebSocketMessage) (h : MessageHeader) (n : ℕ) (text : String)
    (body : Body)
    → request.header ≡ some h
    → n + 1000 < 2 ^ 31
    → Proto.create_response codec request (pos n) text (some body)
      ≡ failure (failed_to_marshal_response (unsupported_for_proto (pos (n + 1000))))
unfolding Proto.create_response get
create_response_fails codec request h n text body e small = ground (arith, add_int32_1000 n small)
