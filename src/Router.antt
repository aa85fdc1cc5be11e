-- ===== src/Router.antt =====
-- server/gateway_ws/internal/manager/router.go: `MessageRouter`, over any type of handlers.
use zerogame.Shared.{none, some, List, []}
use zerogame.Shared.Int.{int_key}
use zerogame.Shared.GoMap.{get, put}
use zerogame.Shared.Effect.{M, returned, panicked, Logger, ready, logged}
use zerogame.Message.{MessageType, WebSocketMessage}
use zerogame.Message.Body.{Body}
use zerogame.Message.Failure.{
  ok, err, Call, failed_to_parse_body, header_is_nil, unsupported_message_type,
}
use zerogame.Parser.{MessageParserInterface}
use zerogame.Connection.{Conn}
use zerogame.Gateway.{G}

module _ (H : Type 0) where
  pub record MessageRouter : Type 0 where
    pub handlers : List (MessageType × H)
    pub logger : Logger

  -- The logger is set here.
  unfoldable pub new_message_router : MessageRouter
  new_message_router = record { handlers = []; logger = ready }

  unfoldable pub register_handler : MessageType → H → M MessageRouter (Unit {0})
  register_handler msg_type handler r =
      logged r.logger tt (record r { handlers = put msg_type handler r.handlers })

  -- `MessageHandler`: what `Handle` of a handler does.
  module _ (handle : H → Conn → WebSocketMessage → Body → G (Unit {0})) where
    abbrev handed : Logger → Call Body → (Body → G (Unit {0})) → G (Unit {0})
    handed logger (returned (ok body)) k g = k body g
    handed logger (returned (err e)) k g = logged logger (err (failed_to_parse_body e)) g
    handed logger panicked k g = (panicked, g)

    unfoldable pub route :
        MessageRouter → Conn → WebSocketMessage → MessageParserInterface → G (Unit {0})
    route r conn msg parser g = elim (msg.header) [
      | none ↦ (returned (err header_is_nil), g)
      | some h ↦ elim (get h.msg_type r.handlers) [
        | none ↦ logged r.logger (err (unsupported_message_type h.msg_type)) g
        | some handler ↦
            handed r.logger (parser.parse_message_body msg) (λ body. handle handler conn msg body) g
      ]
    ]
