-- ===== src/System/Chats.antt =====
-- A chat message of router.go's `handleChat`, from its handler to the sockets.
use zerogame.Shared.{
  ℕ, ◌≡◌, refl, ◌∙◌, Bool, false, Option, none, some, String, List, [], ◌∷◌, ◌++◌, elem, Unique,
  ◌==◌, arith, nat_key, string_key,
}
use zerogame.Shared.Int.{ℤ, pos, int_key}
use zerogame.Shared.GoMap.{get, is_some}
use zerogame.Shared.Effect.{returned, after, ready}
use zerogame.Message.{
  Bytes, MessageHeader, WebSocketMessage, ChatMessage, ChatMessagePush, msg_push_chat_msg,
}
use zerogame.Message.Body.{Body}
use zerogame.Message.Failure.{ok, success}
use zerogame.Parser.{MessageParserInterface}
use zerogame.Connection.{Conn, ConnectionManager}
use zerogame.Connection.Invariant.{WellFormed, seat}
use zerogame.Gateway.{BroadcastMessage, Gateway, Net}
use zerogame.Broadcaster.{
  user_targets, process_broadcast_message, broadcast, broadcast_to_room, broadcast_to_all,
  broadcast_to_user, target_conns, send_message,
}
use zerogame.Broadcaster.Targets.{target_conns_rooms, target_conns_all, target_conns_users}
use zerogame.Broadcaster.Sending.{delivered, process_broadcast_message_delivers}
use zerogame.Router.{MessageRouter}
use zerogame.Handler.{DefaultMessageHandler, respond, broadcast_chat, handle_chat, nickname}
use zerogame.System.{deliver, done}

-- The chat types that the handler knows.
pub data Chat : Type 0 where
  world room private : Chat

abbrev pub chat_code : Chat → ℤ
chat_code world = pos 0
chat_code room = pos 1
chat_code private = pos 2

-- Who a chat is for: everybody, who sits in the room that the header names, or the connection of
-- the target.
abbrev holds_user : Option Conn → Conn → Bool
holds_user none c = false
holds_user (some d) c = d == c

abbrev pub addressed : Chat → MessageHeader → ChatMessage → ConnectionManager → Conn → Bool
addressed world h m cm c = is_some (get c cm.connections)
addressed room h m cm c = seat (get c cm.connections) h.room_id
addressed private h m cm c = holds_user (get m.target_id cm.user_connections) c

abbrev chat_users : Chat → ChatMessage → List ℤ
chat_users private m = m.target_id ∷ []
chat_users _ m = []

abbrev chat_rooms : Chat → MessageHeader → List String
chat_rooms room h = h.room_id ∷ []
chat_rooms _ h = []

abbrev chat_broadcast : Chat → MessageHeader → ChatMessage → WebSocketMessage → BroadcastMessage
chat_broadcast k h m push = record {
  message = push;
  target_users = chat_users k m;
  target_rooms = chat_rooms k h;
  exclude_user = pos 0;
}

chat_targets :
    (k : Chat) (h : MessageHeader) (m : ChatMessage) (push : WebSocketMessage)
    (cm : ConnectionManager) (c : Conn)
    → WellFormed cm
    → elem c (target_conns (chat_broadcast k h m push) cm) ≡ addressed k h m cm c
chat_targets world h m push cm c wf =
    ground (arith, (target_conns_all cm (chat_broadcast world h m push) wf refl refl).0 c)
chat_targets room h m push cm c wf =
    ground (arith, (target_conns_rooms cm (chat_broadcast room h m push) wf refl (cc)).0 c)
chat_targets private h m push cm c wf =
    ground (arith, target_conns_users cm (chat_broadcast private h m push) c (cc))

chat_targets-Unique :
    (k : Chat) (h : MessageHeader) (m : ChatMessage) (push : WebSocketMessage)
    (cm : ConnectionManager)
    → WellFormed cm
    → Unique (target_conns (chat_broadcast k h m push) cm)
unfolding target_conns user_targets
chat_targets-Unique world h m push cm wf =
    (target_conns_all cm (chat_broadcast world h m push) wf refl refl).1
chat_targets-Unique room h m push cm wf =
    (target_conns_rooms cm (chat_broadcast room h m push) wf refl (cc)).1
chat_targets-Unique private h m push cm wf = ground arith

-- The body that the handler pushes.
abbrev pub chat_body : MessageHeader → ChatMessage → ChatMessagePush
chat_body h m = record {
  sender_id = h.user_id;
  sender_name = nickname h.user_id;
  chat_type = m.chat_type;
  target_id = m.target_id;
  content = m.content;
  send_time = h.timestamp;
}

module _ (net : Net) (parser : MessageParserInterface) (now : ℕ) (conn : Conn)
    (msg : WebSocketMessage) (h : MessageHeader) (m : ChatMessage) (g : Gateway) where
  chat_queued :
      (k : Chat) (push : WebSocketMessage)
      → m.chat_type ≡ chat_code k
      → g.message_ch_closed ≡ false
      → g.message_ch ≡ []
      → broadcast_chat net parser now h m push g
        ≡ (returned (ok tt), record g { message_ch = chat_broadcast k h m push ∷ [] })
  unfolding broadcast_chat broadcast_to_all broadcast_to_room broadcast_to_user broadcast
  chat_queued world push e opened empty = ground (arith, e, opened, empty)
  chat_queued room push e opened empty = ground (arith, e, opened, empty)
  chat_queued private push e opened empty = ground (arith, e, opened, empty)

  respond_frame :
      (text : String) (answer : Option Body) (g' : Gateway)
      → let after_answer = after (respond net parser now conn msg text answer g') in
        (after_answer.message_ch ≡ g'.message_ch)
        × (after_answer.logger ≡ g'.logger)
        × (after_answer.conn_mgr ≡ g'.conn_mgr)
  unfolding respond send_message
  respond_frame text answer g' = ground arith

  handle_chat_responds :
      (k : Chat) (push : WebSocketMessage)
      → parser.create_push_message msg_push_chat_msg
          (pos 0)
          ""
          ""
          (some (Body.chat_push (chat_body h m)))
        ≡ success push
      → m.chat_type ≡ chat_code k
      → g.message_ch_closed ≡ false
      → g.message_ch ≡ []
      → handle_chat net parser now conn msg h m g
        ≡ respond net parser now conn msg "Chat message sent" none
            (record g { message_ch = chat_broadcast k h m push ∷ [] })
  unfolding handle_chat
  handle_chat_responds k push made e opened empty =
      rw (made, handle_chat, chat_queued k push e opened empty) refl

  module _ (router : MessageRouter DefaultMessageHandler) where
    -- A chat of a known type on a gateway whose manager is well formed, whose channel is open and
    -- empty and whose broadcaster has a logger, where the parser makes and serialises the push: the
    -- handler leaves the manager as it was, and the delivery after it tries to write the push, once
    -- each and in turn, to the connections whom the chat is for and to nobody else: all for a world
    -- chat, who sits in the room of the header for a room chat, the target's connection for a private
    -- chat; also where the answer to the sender fails. The sender need not be held or sit anywhere.
    pub chat_reaches :
        (k : Chat) (push : WebSocketMessage) (bytes : Bytes)
        → m.chat_type ≡ chat_code k
        → parser.create_push_message msg_push_chat_msg
            (pos 0)
            ""
            ""
            (some (Body.chat_push (chat_body h m)))
          ≡ success push
        → parser.serialize_message push ≡ success bytes
        → g.message_ch_closed ≡ false
        → g.message_ch ≡ []
        → g.logger ≡ ready
        → WellFormed g.conn_mgr
        → let g' = after (handle_chat net parser now conn msg h m g) in
          (g'.conn_mgr ≡ g.conn_mgr)
          × ((cs : List Conn) × (deliver net parser router g' ≡ (
            returned tt,
            record g' { message_ch = []; sent = g'.sent ++ delivered net g'.sent cs bytes },
          ))
              × ((c : Conn) → elem c cs ≡ addressed k h m g.conn_mgr c)
              × Unique cs)
    unfolding deliver
    chat_reaches k push bytes e made written opened empty live wf =
        let b = chat_broadcast k h m push in
        let g1 = record g { message_ch = b ∷ [] } in
        let g2 = after (respond net parser now conn msg "Chat message sent" none g1) in
        let frame = respond_frame "Chat message sent" none g1 in
        let rest = record g2 { message_ch = [] } in
        let sends =
          process_broadcast_message_delivers net parser b rest bytes (frame.1 ∙ live) written in
        let cs = target_conns b g.conn_mgr in
        let queued : deliver net parser router g2
            ≡ done (process_broadcast_message net parser b rest) =
          simp (frame.0, deliver) in
        let delivers : deliver net parser router g2
            ≡ (returned tt, record rest { sent = g2.sent ++ delivered net g2.sent cs bytes }) =
          queued ∙ rw (sends, frame.2) refl in
        rw (handle_chat_responds k push made e opened empty) (
          frame.2,
          (
            cs,
            delivers,
            λ c. chat_targets k h m push g.conn_mgr c wf,
            chat_targets-Unique k h m push g.conn_mgr wf,
          ),
        )
