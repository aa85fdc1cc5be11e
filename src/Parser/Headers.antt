-- ===== src/Parser/Headers.antt =====
-- Which messages `ParseMessage` lets through, and the headers of the messages that the parsers make.
use zerogame.Shared.{◌≡◌, refl, sym, ◌⊎◌, ◌↔◌, some, arith, inl, inr, Option-cases}
use mathlib.Core.Path.{subst}
use zerogame.Shared.Int.{pos, ◌≤ℤ◌}
use zerogame.Message.{Bytes, MessageHeader, WebSocketMessage}
use zerogame.Message.Failure.{Error, Result, ok, err, success}
use zerogame.Parser.{Codec, MessageParserInterface, check_header}
use zerogame.Parser.Json
use zerogame.Parser.Proto
use zerogame.Parser.Json.{MessageParser, json_interface}
use zerogame.Parser.Proto.{ProtoMessageParser, proto_interface}

-- A parser of either format.
pub data AnyParser : Type 0 where
  json : MessageParser → AnyParser
  proto : ProtoMessageParser → AnyParser

abbrev pub interface_of : Codec → AnyParser → MessageParserInterface
interface_of codec (json p) = json_interface codec p
interface_of codec (proto p) = proto_interface codec p

Result-cases : {A : Type 0} (r : Result A) → ((a : A) × (r ≡ ok a)) ⊎ ((e : Error) × (r ≡ err e))
Result-cases (ok a) = inl (a, refl)
Result-cases (err e) = inr (e, refl)

-- The message has a header, and its type is one of 0 to 105.
abbrev pub IsAcceptable : WebSocketMessage → Type 0
IsAcceptable msg =
    (h : MessageHeader) × (msg.header ≡ some h) × (pos 0 ≤ℤ h.msg_type) × (h.msg_type ≤ℤ pos 105)

check_header_sound :
    (msg m : WebSocketMessage) → check_header msg ≡ success m → (m ≡ msg) × IsAcceptable msg
unfolding check_header
check_header_sound msg m e = elim (Option-cases (msg.header)) [
  | inl n ↦ absurd (ground arith)
  | inr (h, s) ↦ (ground arith, (h, s, ground arith, ground arith))
]

check_header_complete : (msg : WebSocketMessage) → IsAcceptable msg → check_header msg ≡ success msg
unfolding check_header
check_header_complete msg (h, s, low, high) = ground arith

module _ (codec : Codec) (bytes : Bytes) (msg : WebSocketMessage) where
  accepts_sound :
      (parser : AnyParser)
      → (interface_of codec parser).parse_message bytes ≡ success msg
      → (codec.unmarshal_message bytes ≡ ok msg) × IsAcceptable msg
  unfolding Json.parse_message Proto.parse_message
  accepts_sound parser e = elim (Result-cases (codec.unmarshal_message bytes)) [
    | inl (m, d) ↦
        let (same, a) = check_header_sound m msg (read parser m d e) in
        (ground arith, subst IsAcceptable (sym same) a)
    | inr (x, d) ↦ absurd (refused parser x d e)
  ]
    where
      read :
          (p : AnyParser) (m : WebSocketMessage)
          → codec.unmarshal_message bytes ≡ ok m
          → (interface_of codec p).parse_message bytes ≡ success msg
          → check_header m ≡ success msg
      read (json p) m d e = rw (d, Json.parse_message) at e
      read (proto p) m d e = rw (d, Proto.parse_message) at e

      refused :
          (p : AnyParser) (x : Error)
          → codec.unmarshal_message bytes ≡ err x
          → ¬ ((interface_of codec p).parse_message bytes ≡ success msg)
      refused (json p) x d e = ground arith
      refused (proto p) x d e = ground arith

  accepts_complete :
      (parser : AnyParser)
      → codec.unmarshal_message bytes ≡ ok msg
      → IsAcceptable msg
      → (interface_of codec parser).parse_message bytes ≡ success msg
  unfolding Json.parse_message Proto.parse_message
  accepts_complete (json p) d a = rw (d, Json.parse_message) (check_header_complete msg a)
  accepts_complete (proto p) d a = rw (d, Proto.parse_message) (check_header_complete msg a)

-- Both parsers, with or without a logger: `ParseMessage` returns a message exactly when the bytes
-- decode to that message and it has a header whose type lies between 0 and 105.
pub parse_message_accepts :
    (parser : AnyParser) (codec : Codec) (bytes : Bytes) (msg : WebSocketMessage)
    → ((interface_of codec parser).parse_message bytes ≡ success msg)
      ↔ ((codec.unmarshal_message bytes ≡ ok msg) × IsAcceptable msg)
parse_message_accepts parser codec bytes msg =
    (accepts_sound codec bytes msg parser, λ (d, a). accepts_complete codec bytes msg parser d a)

pub serialize_message_sound :
    (parser : AnyParser) (codec : Codec) (msg : WebSocketMessage) (bytes : Bytes)
    → (interface_of codec parser).serialize_message msg ≡ success bytes
    → codec.marshal_message msg ≡ ok bytes
unfolding Json.serialize_message Proto.serialize_message
serialize_message_sound (json p) codec msg bytes e = ground arith
serialize_message_sound (proto p) codec msg bytes e = ground arith
