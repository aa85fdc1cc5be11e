-- ===== src/Server/ProtoFrames.antt =====
-- What becomes of a client's message on a server with the protobuf parser.
use zerogame.Shared.{ℕ, ◌≡◌, ◌≢◌, refl, inl, inr, Option-cases, some, List, ◌∷◌, ==-ne}
use zerogame.Shared.Int.{int_key}
use zerogame.Shared.GoMap.{get}
use zerogame.Shared.Effect.{returned, panicked, result_of, logged, Logger}
use zerogame.Message.{
  Bytes, MessageHeader, WebSocketMessage, msg_heartbeat, msg_login, msg_join_room,
}
use zerogame.Message.Failure.{Error, Result, ok, err, success, failure, unsupported_message_type}
use zerogame.Parser.{Codec, MessageParserInterface}
use zerogame.Parser.Proto
use zerogame.Parser.Proto.{ProtoMessageParser, proto_interface}
use zerogame.Parser.Headers.{proto}
use zerogame.Connection.{Conn}
use zerogame.Gateway.{Gateway, Net}
use zerogame.Router.{MessageRouter, route}
use zerogame.Handler.{DefaultMessageHandler}
use zerogame.Handler.Dispatch.{handle}
use zerogame.Server.Errors.{failed_frame_ends_program}
use zerogame.Server.{Incoming, text_message, handle_message, handle_connection}

proto_refuses :
    (codec : Codec) (msg : WebSocketMessage) (h : MessageHeader)
    → msg.header ≡ some h
    → h.msg_type ≢ msg_heartbeat
    → h.msg_type ≢ msg_login
    → h.msg_type ≢ msg_join_room
    → Proto.parse_message_body codec msg ≡ failure (unsupported_message_type h.msg_type)
unfolding Proto.parse_message_body
proto_refuses codec msg h e no_beat no_login no_join =
    rw (e, Proto.parse_message_body, ==-ne no_beat, ==-ne no_login, ==-ne no_join) refl

logged_fails :
    (l : Logger) (e : Error) (g : Gateway)
    → result_of {A = Result (Unit {0})} (logged l (err e) g) ≢ returned (ok tt)
logged_fails Logger.nil e g same = cc same
logged_fails Logger.ready e g same = cc same

module _ (net : Net) (codec : Codec) (p : ProtoMessageParser)
    (router : MessageRouter DefaultMessageHandler) (conn : Conn) where
  abbrev parser : MessageParserInterface
  parser = proto_interface codec p

  unrouted :
      (now : ℕ) (g : Gateway) (msg : WebSocketMessage) (h : MessageHeader)
      → msg.header ≡ some h
      → Proto.parse_message_body codec msg ≡ failure (unsupported_message_type h.msg_type)
      → result_of (route DefaultMessageHandler (handle net parser now) router conn msg parser g)
        ≢ returned (ok tt)
  unfolding route
  unrouted now g msg h e refused = elim (Option-cases (get h.msg_type router.handlers)) [
    | inl f ↦ simp (e, route, f) (logged_fails router.logger _ g)
    | inr (handler, f) ↦ simp (e, route, f, refused) (logged_fails router.logger _ g)
  ]

  -- On a server with the protobuf parser, whatever handlers are registered, every client message but
  -- a heartbeat, a login and the joining of a room ends the whole program: logging out, leaving a
  -- room, a game action, a chat and both queries, though the message itself is read.
  pub proto_message_ends_program :
      (now : ℕ) (bytes : Bytes) (rest : List (ℕ × Incoming)) (g : Gateway) (msg : WebSocketMessage)
      (h : MessageHeader)
      → parser.parse_message bytes ≡ success msg
      → msg.header ≡ some h
      → h.msg_type ≢ msg_heartbeat
      → h.msg_type ≢ msg_login
      → h.msg_type ≢ msg_join_room
      → result_of (handle_connection net parser router conn ((now, text_message bytes) ∷ rest) g)
        ≡ panicked
  unfolding handle_message
  proto_message_ends_program now bytes rest g msg h parses e no_beat no_login no_join =
      failed_frame_ends_program net codec (proto p) router conn now bytes rest g (
        simp (parses, handle_message, e)
          (unrouted now g msg h e (proto_refuses codec msg h e no_beat no_login no_join)))
