-- ===== src/Handler/Replies.antt =====
-- What each client message changes, whatever becomes of the answer: the manager as one method does,
-- and the sockets only by frames to the connection that asked.
use zerogame.Shared.{
  length-append, ℕ, ◌≡◌, refl, String, Option, none, some, [], ◌∷◌, ◌==◌, arith, Bool-cases, inl,
  inr,
}
use zerogame.Shared.Int.{ℤ, pos, int_key}
use zerogame.Shared.GoMap.{get}
use zerogame.Shared.Effect.{after, Logger}
use zerogame.Message.{Bytes, MessageHeader, WebSocketMessage, ChatMessage}
use zerogame.Message.Body.{Body, kind}
use zerogame.Message.Failure.{Error}
use zerogame.Parser.{MessageParserInterface}
use zerogame.Parser.Json.{serialize_cases}
use zerogame.Connection.{
  Conn, ConnectionManager, ClientConnection, add_connection, remove_connection, join_room,
  leave_room, touch_heartbeat,
}
use zerogame.Gateway.{BroadcastMessage, Gateway, Net, G}
use zerogame.Gateway.Steps.{
  Answers, AnswersAll, Answers-silent, Answers-same, SentTo, bind-AnswersAll, lift-AnswersAll,
  lifted-Answers,
}
use zerogame.Broadcaster.{
  broadcast, broadcast_to_all, broadcast_to_room, broadcast_to_user, written, send_message,
  send_heartbeat_response, send_error_response,
}
use zerogame.Handler.{
  DefaultMessageHandler, respond, handle_heartbeat, handle_login, handle_logout, handle_join_room,
  handle_leave_room, handle_game_action, broadcast_chat, handle_chat, handle_user_info_query,
  handle_room_list_query, login_answer, on_broadcaster, infof,
}
use zerogame.Handler.Dispatch.{handle}
use zerogame.Handler.ManagerChanges.{mgr_change, run, handle_asserts}

module _ {conn : Conn} where
  broadcast-AnswersAll : (m : BroadcastMessage) → AnswersAll conn (on_broadcaster (broadcast m))
  unfolding broadcast
  broadcast-AnswersAll m = record {
    step = λ g.
        Answers-silent conn g (after (on_broadcaster (broadcast m) g)) (ground arith) (ground arith)
          (ground arith, λ fits. ground (arith, length-append g.message_ch (m ∷ [])));
  }

  broadcast_to_room-AnswersAll :
      (r : String) (push : WebSocketMessage) (exclude : ℤ)
      → AnswersAll conn (on_broadcaster (broadcast_to_room r push exclude))
  unfolding broadcast_to_room
  broadcast_to_room-AnswersAll r push exclude = broadcast-AnswersAll _

  infof-AnswersAll : (l : Logger) → AnswersAll conn (infof l)
  infof-AnswersAll Logger.nil = record { step = Answers-same conn }
  infof-AnswersAll Logger.ready = record { step = Answers-same conn }

  module _ (net : Net) where
    written-Answers :
        (e : Option Error) (bytes : Bytes) (g : Gateway)
        → Answers conn g (after (written net e conn bytes g))
    written-Answers none bytes g =
        (refl, ((conn, bytes) ∷ [], refl, (refl, tt)), (refl, λ fits. fits))
    written-Answers (some e) bytes g = Answers-same conn g

    send_message-AnswersAll : (bytes : Bytes) → AnswersAll conn (send_message net conn bytes)
    unfolding send_message
    send_message-AnswersAll bytes = record {
      step = λ g. written-Answers (net.write_error g.sent conn bytes) bytes g;
    }

    module _ (parser : MessageParserInterface) (now : ℕ) where
      respond-AnswersAll :
          (msg : WebSocketMessage) (text : String) (answer : Option Body)
          → AnswersAll conn (respond net parser now conn msg text answer)
      unfolding respond
      respond-AnswersAll msg text answer =
          bind-AnswersAll (lift-AnswersAll (parser.create_response msg (pos 0) text answer)) λ resp.
            bind-AnswersAll (lift-AnswersAll (parser.serialize_message resp))
              λ bytes. send_message-AnswersAll bytes

      send_heartbeat_response-AnswersAll :
          (client_time : ℤ) → AnswersAll conn (send_heartbeat_response net parser conn client_time)
      unfolding send_heartbeat_response
      send_heartbeat_response-AnswersAll client_time = bind-AnswersAll (lift-AnswersAll _) λ push.
          bind-AnswersAll (lift-AnswersAll (parser.serialize_message push))
            λ bytes. send_message-AnswersAll bytes

      login_answer-AnswersAll :
          (msg : WebSocketMessage) (client : Option ClientConnection)
          → AnswersAll conn (login_answer net parser now conn msg client)
      unfolding send_error_response
      login_answer-AnswersAll msg none = bind-AnswersAll (lift-AnswersAll _) λ resp.
          bind-AnswersAll (lift-AnswersAll (parser.serialize_message resp))
            λ bytes. send_message-AnswersAll bytes
      login_answer-AnswersAll msg (some client) = respond-AnswersAll msg _ _

      broadcast_chat-AnswersAll :
          (h : MessageHeader) (m : ChatMessage) (push : WebSocketMessage)
          → AnswersAll conn (broadcast_chat net parser now h m push)
      unfolding broadcast_chat broadcast_to_all broadcast_to_room broadcast_to_user
      broadcast_chat-AnswersAll h m push = elim (Bool-cases (m.chat_type == pos 0)) [
        | inl world ↦ rw world (broadcast-AnswersAll _)
        | inr p ↦ rw p (elim (Bool-cases (m.chat_type == pos 1)) [
          | inl room ↦ rw room (broadcast-AnswersAll _)
          | inr q ↦ rw q (elim (Bool-cases (m.chat_type == pos 2)) [
            | inl private ↦ rw private (broadcast-AnswersAll _)
            | inr r ↦ rw r (record { step = Answers-same conn })
          ])
        ])
      ]

-- A handler that calls the manager and then answers: `m` is the manager as the call leaves it.
abbrev pub Does : {A : Type 0} → Conn → (ConnectionManager → ConnectionManager) → G A → Type 0
Does conn change m =
    (g : Gateway) → Answers conn (record g { conn_mgr = change g.conn_mgr }) (after (m g))

module _ (net : Net) (parser : MessageParserInterface) (now : ℕ) (handler : DefaultMessageHandler)
    (conn : Conn) (msg : WebSocketMessage) (h : MessageHeader) where
  pub run-Does :
      (body : Body)
      → Does conn (mgr_change body conn now) (run net parser now handler conn msg h body)
  unfolding handle_heartbeat handle_login handle_logout handle_join_room handle_leave_room
      handle_game_action handle_chat handle_user_info_query handle_room_list_query
  run-Does (Body.heartbeat m) g =
      (send_heartbeat_response-AnswersAll net parser now m.client_time).step
        (record g { conn_mgr = touch_heartbeat conn now g.conn_mgr })
  run-Does (Body.login m) g =
      lifted-Answers conn _ (add_connection conn (pos 1) now g.conn_mgr) g
        (login_answer-AnswersAll net parser now msg)
  run-Does Body.logout g =
      lifted-Answers conn _ (remove_connection conn g.conn_mgr) g
        λ u. respond-AnswersAll net parser now msg _ _
  run-Does (Body.join_room m) g = lifted-Answers conn _ (join_room conn m.room_id g.conn_mgr) g λ u.
      bind-AnswersAll (respond-AnswersAll net parser now msg _ _) λ u'.
        bind-AnswersAll (lift-AnswersAll _) λ push. broadcast_to_room-AnswersAll m.room_id push _
  run-Does (Body.leave_room m) g =
      (bind-AnswersAll (respond-AnswersAll net parser now msg _ _) λ u.
          bind-AnswersAll (lift-AnswersAll _)
            λ push. broadcast_to_room-AnswersAll m.room_id push _).step
        (record g { conn_mgr = leave_room conn g.conn_mgr })
  run-Does (Body.game_action m) g =
      (bind-AnswersAll (infof-AnswersAll handler.logger)
          λ u. respond-AnswersAll net parser now msg _ _).step
        g
  run-Does (Body.chat m) g =
      (bind-AnswersAll (lift-AnswersAll _) λ push.
          bind-AnswersAll (broadcast_chat-AnswersAll net parser now h m push)
            λ u. respond-AnswersAll net parser now msg _ _).step
        g
  run-Does (Body.user_info_query m) g = (respond-AnswersAll net parser now msg _ _).step g
  run-Does (Body.room_list_query m) g = (respond-AnswersAll net parser now msg _ _).step g
  run-Does _ g = Answers-same conn g

  -- A message whose body is of the type that its message type stands for, as both parsers return
  -- it, changes the manager exactly as the one method for its type does, also where the answer fails
  -- or the handler panics, and sends frames to the connection that asked only.
  pub handle_changes :
      (body : Body) (g : Gateway)
      → msg.header ≡ some h
      → get h.msg_type serialize_cases ≡ some (kind body)
      → let g' = after (handle net parser now handler conn msg body g) in
        (g'.conn_mgr ≡ mgr_change body conn now g.conn_mgr) × SentTo conn g.sent g'.sent
  handle_changes body g e k =
      rw (handle_asserts net parser now handler conn msg h body e k)
        (let d = run-Does body g in (d.0, d.1))
