-- ===== src/Server/Errors.antt =====
-- The error report of server.go, and what it does to a connection.
use zerogame.Shared.{ℕ, ◌≢◌, ◌≡◌, refl, String, List, ◌∷◌, nat_key, ℕ_discrete}
use zerogame.Shared.Int.{int_key, ℤ_discrete}
use zerogame.Shared.GoMap.{get}
use zerogame.Shared.Effect.{Outcome, returned, panicked, after, result_of}
use zerogame.Message.{Bytes}
use zerogame.Message.Body.{Kind_discrete, kind_key}
use zerogame.Message.Failure.{Error, Result, ok, err}
use zerogame.Parser.{Codec}
use zerogame.Parser.Json
use zerogame.Parser.Json.{MessageParser, json_interface}
use zerogame.Parser.Proto
use zerogame.Parser.Proto.{ProtoMessageParser, proto_interface}
use zerogame.Parser.{MessageParserInterface}
use zerogame.Parser.Headers.{AnyParser, json, proto, interface_of}
use zerogame.Connection.{Conn}
use zerogame.Gateway.{BroadcastMessage, Gateway, Net}
use zerogame.Broadcaster.{broadcast}
use zerogame.Router.{MessageRouter}
use zerogame.Handler.{DefaultMessageHandler}
use zerogame.Server.Connections.{begin_stop-closed}
use zerogame.Server.{
  Incoming, text_message, handle_message, send_error, serve, handle_connection, begin_stop,
  finished, go_on, reported,
}

module _ (net : Net) (codec : Codec) (router : MessageRouter DefaultMessageHandler)
    (conn : Conn) where
  -- With the JSON parser the error report panics, always: the message type 0 is the heartbeat's, and
  -- the body is not a heartbeat.
  pub send_error_panics :
      (p : MessageParser) (message : String) (e : Error) (g : Gateway)
      → send_error net (json_interface codec p) router conn message e g ≡ (panicked, g)
  unfolding send_error Json.serialize_message_body get ℤ_discrete ℕ_discrete Kind_discrete
  send_error_panics p message e g = refl

  -- The same holds with the protobuf parser.
  pub send_error_panics_proto :
      (p : ProtoMessageParser) (message : String) (e : Error) (g : Gateway)
      → send_error net (proto_interface codec p) router conn message e g ≡ (panicked, g)
  unfolding send_error Proto.serialize_message_body get ℤ_discrete ℕ_discrete Kind_discrete
  send_error_panics_proto p message e g = refl

  -- With the JSON parser, a text message whose handling returns an error, such as one with no header,
  -- ends the whole program: the loop panics, and the deferred function does not recover.
  pub handle_connection_panics :
      (p : MessageParser) (now : ℕ) (bytes : Bytes) (rest : List (ℕ × Incoming)) (g g' : Gateway)
      (e : Error)
      → handle_message net (json_interface codec p) router conn now bytes g ≡ (returned (err e), g')
      → result_of (
          handle_connection net
            (json_interface codec p)
            router
            conn
            ((now, text_message bytes) ∷ rest)
            g)
        ≡ panicked
  unfolding handle_connection serve
  handle_connection_panics p now bytes rest g g' e fails =
      rw (fails, serve, send_error_panics p "Failed to process message" e g')

report_panics :
    (net : Net) (codec : Codec) (parser : AnyParser) (router : MessageRouter DefaultMessageHandler)
    (conn : Conn) (message : String) (e : Error) (g : Gateway)
    → send_error net (interface_of codec parser) router conn message e g ≡ (panicked, g)
report_panics net codec (json p) router conn = send_error_panics net codec router conn p
report_panics net codec (proto p) router conn = send_error_panics_proto net codec router conn p

module _ (net : Net) (codec : Codec) (parser : AnyParser)
    (router : MessageRouter DefaultMessageHandler) (conn : Conn) where
  abbrev interface : MessageParserInterface
  interface = interface_of codec parser

  -- With either parser, a text frame whose handling does not end without an error, be it malformed,
  -- of a type with no handler, or answered in vain, ends the whole program, whatever comes after it:
  -- the report of the error panics, and the deferred function does not recover.
  pub failed_frame_ends_program :
      (now : ℕ) (bytes : Bytes) (rest : List (ℕ × Incoming)) (g : Gateway)
      → result_of (handle_message net interface router conn now bytes g) ≢ returned (ok tt)
      → result_of (handle_connection net interface router conn ((now, text_message bytes) ∷ rest) g)
        ≡ panicked
  unfolding handle_connection serve
  failed_frame_ends_program now bytes rest g fails =
      ends (handle_message net interface router conn now bytes g) fails
    where
      ends :
          (o : Outcome (Result (Unit {0})) × Gateway)
          → result_of o ≢ returned (ok tt)
          → result_of (
              finished net interface router conn (
                go_on net interface router conn
                  (reported net interface router conn o)
                  (serve net interface router conn rest)))
            ≡ panicked
      ends (returned (ok u), g') fails = absurd (fails refl)
      ends (returned (err e), g') fails =
          rw (report_panics net codec parser router conn "Failed to process message" e g') refl
      ends (panicked, g') fails = refl

-- Once `Stop` has closed the broadcast channel, a handler that still broadcasts panics.
pub broadcast-begin_stop_panics :
    (msg : BroadcastMessage) (g : Gateway)
    → result_of (broadcast msg (after (begin_stop g))) ≡ panicked
unfolding broadcast
broadcast-begin_stop_panics msg g = rw (begin_stop-closed g) refl
