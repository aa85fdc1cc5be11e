-- ===== src/System/RoomBroadcasts.antt =====
-- Who a broadcast to rooms reaches on a gateway that runs, whatever its clients did before.
use zerogame.Shared.{
  ◌≡◌, ◌≢◌, inl, inr, Option-cases, Bool-cases, String, true, false, List, [], ◌∷◌, elem, Unique,
  arith, nat_key, string_key,
}
use zerogame.Shared.Int.{ℤ}
use zerogame.Shared.GoMap.{get, keys, is_some, elem-keys, keys-Unique}
use zerogame.Shared.Effect.{Logger, after}
use zerogame.Parser.{MessageParserInterface}
use zerogame.Connection.{Conn, ConnectionManager, RoomConns, get_room_connections}
use zerogame.Connection.Rooms.{in_room}
use zerogame.Gateway.{BroadcastMessage, Net}
use zerogame.Broadcaster.{target_conns, mark_all, mark_rooms, skip_excluded}
use zerogame.Broadcaster.Targets.{
  seat_among, shut_out, elem-mark_all, mark_rooms-Distinct, elem-skip_excluded,
  skip_excluded-Unique,
}
use zerogame.Router.{MessageRouter}
use zerogame.Handler.{DefaultMessageHandler}
use zerogame.System.{Event, play_all}
use zerogame.System.Sound.{Sound}
use zerogame.System.Reachable.{fresh_gateway, gateway_stays_sound}

module _ (cm : ConnectionManager) (c : Conn) where
  listed-get_room_connections :
      (r : String) → in_room cm r c ≡ true → elem c (get_room_connections r cm) ≡ true
  unfolding get_room_connections in_room
  listed-get_room_connections r listed = elim (Option-cases (get r cm.room_connections)) [
    | inl e ↦ absurd (ground arith)
    | inr (m, e) ↦ rw (e, get_room_connections) (ground (arith, elem-keys c m))
  ]

  marked_stays :
      (rs : List String) (marked : RoomConns)
      → is_some (get c marked) ≡ true
      → is_some (get c (mark_rooms rs cm marked)) ≡ true
  unfolding mark_rooms
  marked_stays [] marked m = m
  marked_stays (r ∷ rs) marked m =
      marked_stays rs (mark_all (get_room_connections r cm) marked)
        (ground (arith, m, elem-mark_all (get_room_connections r cm) marked c))

  seated_marked :
      Sound cm
      → (rs : List String) (marked : RoomConns) → seat_among (get c cm.connections) rs ≡ true
      → is_some (get c (mark_rooms rs cm marked)) ≡ true
  unfolding mark_rooms
  seated_marked s [] marked e = absurd (ground arith)
  seated_marked s (r ∷ rs) marked e =
      let marked' = mark_all (get_room_connections r cm) marked in
      elim (Bool-cases (seat_among (get c cm.connections) rs)) [
        | inl later ↦ seated_marked s rs marked' later
        | inr not_later ↦ marked_stays rs marked' (
            ground (
              arith,
              e,
              not_later,
              s.listed r c,
              listed-get_room_connections r,
              elem-mark_all (get_room_connections r cm) marked c,
            ))
      ]

room_targets :
    (cm : ConnectionManager) (msg : BroadcastMessage)
    → msg.target_users ≡ []
    → msg.target_rooms ≢ []
    → target_conns msg cm
      ≡ skip_excluded msg.exclude_user cm (keys (mark_rooms msg.target_rooms cm []))
unfolding target_conns
room_targets cm msg nobody somewhere = ground arith

-- From a new gateway with any limit and loggers, after whatever events in whatever order: a broadcast
-- to rooms and to no users has among its targets every connection whose record names one of the
-- rooms and that is not the excluded user's, and no target twice. Clients may have logged in again
-- on a connection that was held, or joined a room without a name.
pub seated_never_missed :
    (max : ℤ) (mgr_logger broadcaster_logger : Logger) (net : Net) (parser : MessageParserInterface)
    (router : MessageRouter DefaultMessageHandler) (es : List Event) (msg : BroadcastMessage)
    (c : Conn)
    → msg.target_users ≡ []
    → msg.target_rooms ≢ []
    → let g =
        after (play_all net parser router es (fresh_gateway max mgr_logger broadcaster_logger)) in
      let cm = g.conn_mgr in
      seat_among (get c cm.connections) msg.target_rooms ≡ true
      → shut_out msg.exclude_user (get c cm.connections) ≡ false
      → (elem c (target_conns msg cm) ≡ true) × Unique (target_conns msg cm)
seated_never_missed max mgr_logger broadcaster_logger net parser router es msg c nobody somewhere
      seated let_in =
    let g =
      after (play_all net parser router es (fresh_gateway max mgr_logger broadcaster_logger)) in
    let cm = g.conn_mgr in
    let sound = gateway_stays_sound max mgr_logger broadcaster_logger net parser router es in
    let marked = mark_rooms msg.target_rooms cm [] in
    rw (room_targets cm msg nobody somewhere) (
      ground (
        arith,
        let_in,
        elem-skip_excluded cm msg.exclude_user (keys marked) c,
        elem-keys c marked,
        seated_marked cm c sound.manager msg.target_rooms [] seated,
      ),
      skip_excluded-Unique cm msg.exclude_user (keys marked)
          (keys-Unique marked (mark_rooms-Distinct cm msg.target_rooms [] tt)),
    )
