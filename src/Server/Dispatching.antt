-- ===== src/Server/Dispatching.antt =====
-- The router with its default handlers and the parsers together: server.go's `handleMessage`.
use zerogame.Shared.{
  ℕ, ◌≡◌, refl, ◌∙◌, ap, some, List, [], ◌∷◌, ℕ_discrete, arith, Option-cases, inl, inr,
}
use zerogame.Shared.Int.{int_key, ℤ_discrete}
use zerogame.Shared.GoMap.{get, put}
use zerogame.Shared.Effect.{returned, after}
use zerogame.Message.{Bytes, MessageType, MessageHeader, WebSocketMessage}
use zerogame.Message.Body.{Body, Kind, kind, kind_key}
use zerogame.Message.Failure.{success}
use zerogame.Parser.{Codec, MessageParserInterface}
use zerogame.Parser.Json.{
  BodyParser, get_message_type, new_message_parser, json_interface, serialize_cases,
}
use zerogame.Parser.Json
use zerogame.Parser.Proto
use zerogame.Parser.Proto.{new_proto_message_parser, proto_interface, proto_cases}
use zerogame.Parser.Bodies.{get-new_message_parser, parse_message_body_kind}
use zerogame.Connection.{Conn}
use zerogame.Gateway.{Gateway, Net}
use zerogame.Router.{MessageRouter, new_message_router, register_handler, route}
use zerogame.Handler.{DefaultMessageHandler, new_default_message_handler}
use zerogame.Handler.Dispatch.{default_types, register_default_handlers, handle}
use zerogame.Handler.ManagerChanges.{run, handle_asserts}
use zerogame.Server.{handle_message}

-- The router that `NewWebSocketServer` fills.
abbrev pub default_router : MessageRouter DefaultMessageHandler
default_router = after (register_default_handlers (new_message_router DefaultMessageHandler))

abbrev entries : List MessageType → List (MessageType × DefaultMessageHandler)
entries [] = []
entries (t ∷ ts) = (t, new_default_message_handler) ∷ entries ts

default_router_lem : register_default_handlers (new_message_router DefaultMessageHandler) ≡ (
  returned tt,
  record (new_message_router DefaultMessageHandler) { handlers = entries default_types },
)
unfolding register_default_handlers register_handler new_message_router put ℤ_discrete ℕ_discrete
default_router_lem = refl

-- Each type with a body parser has a handler.
get-entries :
    (p : BodyParser)
    → get (get_message_type p) (entries default_types) ≡ some new_default_message_handler
unfolding get_message_type get ℤ_discrete ℕ_discrete
get-entries BodyParser.heartbeat_parser = refl
get-entries BodyParser.login_message_parser = refl
get-entries BodyParser.logout_message_parser = refl
get-entries BodyParser.join_room_message_parser = refl
get-entries BodyParser.leave_room_message_parser = refl
get-entries BodyParser.game_action_message_parser = refl
get-entries BodyParser.chat_message_parser = refl
get-entries BodyParser.user_info_query_parser = refl
get-entries BodyParser.room_list_query_parser = refl

get-default_router :
    (codec : Codec) (msg : WebSocketMessage) (body : Body) (h : MessageHeader)
    → msg.header ≡ some h
    → Json.parse_message_body codec new_message_parser msg ≡ success body
    → get h.msg_type default_router.handlers ≡ some new_default_message_handler
unfolding Json.parse_message_body
get-default_router codec msg body h e d =
    elim (Option-cases (get h.msg_type new_message_parser.parsers)) [
      | inl n ↦ absurd (ground arith)
      | inr (p, f) ↦
          rw (default_router_lem, (get-new_message_parser h.msg_type p f).0) (get-entries p)
    ]

-- The two parsers that a server is made with.
pub data Format : Type 0 where
  json proto : Format

abbrev pub parser_of : Codec → Format → MessageParserInterface
parser_of codec json = json_interface codec new_message_parser
parser_of codec proto = proto_interface codec new_proto_message_parser

-- The message type has a handler, and is the type of such a body.
abbrev Known : MessageHeader → Body → Type 0
Known h body =
    (get h.msg_type default_router.handlers ≡ some new_default_message_handler)
    × (get h.msg_type serialize_cases ≡ some (kind body))

get-entries_proto :
    (k : Kind) (t : MessageType)
    → get t proto_cases ≡ some k
    → (get t (entries default_types) ≡ some new_default_message_handler)
      × (get t serialize_cases ≡ some k)
unfolding get
get-entries_proto k t e = ground arith

proto_kind :
    (codec : Codec) (msg : WebSocketMessage) (body : Body) (h : MessageHeader)
    → msg.header ≡ some h
    → Proto.parse_message_body codec msg ≡ success body
    → get h.msg_type proto_cases ≡ some (kind body)
unfolding Proto.parse_message_body get
proto_kind codec msg body h e d = ground arith

body-Known :
    (codec : Codec) (format : Format) (msg : WebSocketMessage) (body : Body) (h : MessageHeader)
    → msg.header ≡ some h
    → (parser_of codec format).parse_message_body msg ≡ success body
    → Known h body
body-Known codec json msg body h e d =
    let typed = parse_message_body_kind codec msg body d in
    (get-default_router codec msg body h e d, ground (arith, typed))
body-Known codec proto msg body h e d =
    rw default_router_lem
      (get-entries_proto (kind body) h.msg_type (proto_kind codec msg body h e d))

module _ (net : Net) (codec : Codec) (format : Format) (conn : Conn) (now : ℕ)
    (msg : WebSocketMessage) (h : MessageHeader) (body : Body) (g : Gateway) where
  abbrev parser : MessageParserInterface
  parser = parser_of codec format

  route_handles :
      msg.header ≡ some h
      → parser.parse_message_body msg ≡ success body
      → route DefaultMessageHandler (handle net parser now) default_router conn msg parser g
        ≡ handle net parser now new_default_message_handler conn msg body g
  unfolding route
  route_handles e d = simp (e, route, (body-Known codec format msg body h e d).0, d)

  handle_message_routes :
      (bytes : Bytes)
      → parser.parse_message bytes ≡ success msg
      → msg.header ≡ some h
      → handle_message net parser default_router conn now bytes g
        ≡ route DefaultMessageHandler (handle net parser now) default_router conn msg parser g
  unfolding handle_message
  handle_message_routes bytes p e = simp (p, handle_message, e)

  -- With the parser of either format and the default handlers, bytes that decode to a message in
  -- range whose body decodes reach exactly the handler of the body's type: the router finds a
  -- handler, and no type assertion on the way fails.
  pub handle_message_runs :
      (bytes : Bytes)
      → parser.parse_message bytes ≡ success msg
      → msg.header ≡ some h
      → parser.parse_message_body msg ≡ success body
      → handle_message net parser default_router conn now bytes g
        ≡ run net parser now new_default_message_handler conn msg h body g
  handle_message_runs bytes p e d =
      handle_message_routes bytes p e
      ∙ route_handles e d
      ∙ ap (λ f. f g)
          (handle_asserts net parser now new_default_message_handler conn msg h body e
            ((body-Known codec format msg body h e d).1))
