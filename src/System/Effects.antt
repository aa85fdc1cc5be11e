-- ===== src/System/Effects.antt =====
-- What one event does to the manager and to the channel.
use zerogame.Shared.{ℕ, ◌≡◌, sym, ◌⊎◌, inl, inr, Option-cases, arith}
use zerogame.Shared.Int.{int_key}
use zerogame.Shared.GoMap.{get}
use zerogame.Shared.Effect.{Outcome, after, after-logged}
use zerogame.Message.{Bytes, MessageHeader, WebSocketMessage}
use zerogame.Message.Body.{Body}
use zerogame.Message.Failure.{Result}
use zerogame.Parser.{MessageParserInterface}
use zerogame.Connection.{Conn}
use mathlib.Core.Path.{subst}
use zerogame.Gateway.{Gateway, Net}
use zerogame.Router.{MessageRouter, route}
use zerogame.Broadcaster.Sending.{Call-cases}
use zerogame.Handler.{DefaultMessageHandler}
use zerogame.Handler.Dispatch.{switch, handle}
use zerogame.Handler.ManagerChanges.{run}
use zerogame.Server.{handle_message}

module _ (net : Net) (parser : MessageParserInterface) (now : ℕ) (conn : Conn) (g : Gateway) where
  -- The handler of some body ran, or the gateway stayed as it was.
  pub data Handled (o : Outcome (Result (Unit {0})) × Gateway) : Type 0 where
    ran :
        (handler : DefaultMessageHandler) (msg : WebSocketMessage) (h : MessageHeader) (body : Body)
        → o ≡ run net parser now handler conn msg h body g
        → Handled o
    kept : after o ≡ g → Handled o

  switch-Handled :
      (handler : DefaultMessageHandler) (msg : WebSocketMessage) (h : MessageHeader) (body : Body)
      → (switch net parser now handler conn msg h body g
          ≡ run net parser now handler conn msg h body g)
        ⊎ (after (switch net parser now handler conn msg h body g) ≡ g)
  unfolding switch
  switch-Handled handler msg h (Body.heartbeat m) = ground arith
  switch-Handled handler msg h _ = ground arith

  handle-Handled :
      (handler : DefaultMessageHandler) (msg : WebSocketMessage) (body : Body)
      → Handled (handle net parser now handler conn msg body g)
  unfolding handle
  handle-Handled handler msg body = elim (Option-cases (msg.header)) [
    | inl e ↦ kept (simp (e, handle))
    | inr (h, e) ↦ elim (switch-Handled handler msg h body) [
      | inl s ↦ ran handler msg h body (simp (e, handle, s))
      | inr s ↦ kept (simp (e, handle, s))
    ]
  ]

  module _ (router : MessageRouter DefaultMessageHandler) where
    route-Handled :
        (msg : WebSocketMessage)
        → Handled (route DefaultMessageHandler (handle net parser now) router conn msg parser g)
    unfolding route
    route-Handled msg = elim (Option-cases (msg.header)) [
      | inl e ↦ kept (simp (e, route))
      | inr (h, e) ↦ elim (Option-cases (get h.msg_type router.handlers)) [
        | inl f ↦ kept (simp (e, route, f, after-logged))
        | inr (handler, f) ↦ elim (Call-cases (parser.parse_message_body msg)) [
          | inl (inl (body, d)) ↦
              subst Handled (sym (simp (e, route, f, d))) (handle-Handled handler msg body)
          | inl (inr (x, d)) ↦ kept (simp (e, route, f, d, after-logged))
          | inr d ↦ kept (simp (e, route, f, d))
        ]
      ]
    ]

    pub handle_message-Handled :
        (bytes : Bytes) → Handled (handle_message net parser router conn now bytes g)
    unfolding handle_message
    handle_message-Handled bytes = elim (Call-cases (parser.parse_message bytes)) [
      | inl (inl (msg, d)) ↦ elim (Option-cases (msg.header)) [
        | inl e ↦ kept (simp (d, handle_message, e))
        | inr (h, e) ↦ subst Handled (sym (simp (d, handle_message, e))) (route-Handled msg)
      ]
      | inl (inr (x, d)) ↦ kept (simp (d, handle_message))
      | inr d ↦ kept (simp (d, handle_message))
    ]
