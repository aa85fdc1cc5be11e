-- ===== src/Server/Pushes.antt =====
-- From `BroadcastToRoom` of server.go to the sockets, through the queue and the broadcaster.
use zerogame.Shared.{
  ◌≡◌, refl, String, false, not, ◌&&◌, Option, List, [], ◌∷◌, ◌++◌, length, elem, Unique, arith,
  nat_key, string_key,
}
use zerogame.Shared.Int.{ℤ, pos, int_key}
use zerogame.Shared.GoMap.{get}
use zerogame.Shared.Effect.{returned, after, result_of, ready}
use zerogame.Message.{Bytes, WebSocketMessage, msg_push_system_msg}
use zerogame.Message.Body.{Body}
use zerogame.Message.Failure.{success, ok}
use zerogame.Parser.{MessageParserInterface}
use zerogame.Connection.{Conn}
use zerogame.Connection.Invariant.{WellFormed, seat}
use zerogame.Gateway.{BroadcastMessage, Gateway, Net}
use zerogame.Broadcaster.{broadcast, broadcast_to_room, process_broadcast_message, target_conns}
use zerogame.Broadcaster.Targets.{shut_out, target_conns_rooms}
use zerogame.Broadcaster.Sending.{delivered, process_broadcast_message_delivers}
use zerogame.Server.{push_to_room}

abbrev pub to_room : WebSocketMessage → String → ℤ → BroadcastMessage
to_room push room exclude = record {
  message = push;
  target_users = [];
  target_rooms = room ∷ [];
  exclude_user = exclude;
}

module _ (net : Net) (parser : MessageParserInterface) (room : String) (message : Option Body)
    (exclude : ℤ) (g : Gateway) (push : WebSocketMessage) (bytes : Bytes) where
  queued :
      parser.create_push_message msg_push_system_msg (pos 0) room "" message ≡ success push
      → g.message_ch_closed ≡ false
      → g.message_ch ≡ []
      → push_to_room parser room message exclude g
        ≡ (returned (ok tt), record g { message_ch = to_room push room exclude ∷ [] })
  unfolding push_to_room broadcast_to_room broadcast
  queued made open_still empty = rw (made, push_to_room) (ground (arith, open_still, empty))

  -- `BroadcastToRoom` of a server whose manager is well formed, whose channel is open and empty and
  -- whose broadcaster has a logger, with a message of which the parser makes and serialises the push:
  -- it returns no error and leaves one broadcast in the queue; and what the broadcaster
  -- does with that one is to try, once each, the sockets of exactly those who sit in the room and are
  -- not the excluded user's, and to change nothing but the frames that it sends.
  pub push_to_room_reaches :
      parser.create_push_message msg_push_system_msg (pos 0) room "" message ≡ success push
      → parser.serialize_message push ≡ success bytes
      → g.message_ch_closed ≡ false
      → g.message_ch ≡ []
      → g.logger ≡ ready
      → WellFormed g.conn_mgr
      → let pushed = push_to_room parser room message exclude g in
        (result_of pushed ≡ returned (ok tt))
        × ((msg : BroadcastMessage) × (cs : List Conn) × ((after pushed).message_ch ≡ msg ∷ [])
            × (process_broadcast_message net parser msg (after pushed) ≡ (
              returned (length (delivered net g.sent cs bytes)),
              record (after pushed) { sent = g.sent ++ delivered net g.sent cs bytes },
            ))
            × ((c : Conn)
                → elem c cs ≡ (
                    seat (get c g.conn_mgr.connections) room
                    && not (shut_out exclude (get c g.conn_mgr.connections))))
            × Unique cs)
  push_to_room_reaches made written open_still empty live wf =
      let msg = to_room push room exclude in
      let exact = target_conns_rooms g.conn_mgr msg wf refl cc in
      rw (queued made open_still empty) (
        refl,
        (
          msg,
          target_conns msg g.conn_mgr,
          refl,
          process_broadcast_message_delivers net parser msg (record g { message_ch = msg ∷ [] })
              bytes live written,
          λ c. ground (arith, exact.0 c),
          exact.1,
        ),
      )
