-- ===== src/Connection/Lookups.antt =====
-- What the lookups of connection.go find after each of its operations.
use zerogame.Shared.{
  ◌≡◌, ◌≢◌, inl, inr, String, false, not, ◌&&◌, none, some, elem, Unique, if◌then◌else◌, ◌==◌,
  string_key, nat_key, arith, Option-cases,
}
use zerogame.Shared.Int.{int_key}
use zerogame.Shared.Effect.{after, after-logged}
use zerogame.Shared.GoMap.{get, delete, get-delete, elem-keys, keys-Unique}
use zerogame.Connection.Rooms.{
  in_room, vacate_frame, in_room-leave_room_internal, in_room-take_seat, drop_from_room_lem,
}
use zerogame.Connection.Invariant.{WellFormed, seat}
use zerogame.Connection.{
  Conn, ConnectionManager, ClientConnection, leave_room_internal, remove_connection, join_room,
  leave_room, get_room_connections, remove_connection_internal,
}

pub get-remove_connection_internal :
    (cm : ConnectionManager) (c d : Conn)
    → get d (remove_connection_internal c cm).connections
      ≡ (if c == d then none else get d cm.connections)
unfolding remove_connection_internal
get-remove_connection_internal cm c d = elim (Option-cases (get c cm.connections)) [
  | inl e ↦ rw (e, remove_connection_internal) (ground arith)
  | inr (client, e) ↦
      rw (e, remove_connection_internal)
        (ground (
          arith,
          get-delete c d cm.connections,
          vacate_frame c client.room_id
              (record cm { user_connections = delete client.user_id cm.user_connections })
              (not (client.room_id == "")),
        ))
]

module _ (cm : ConnectionManager) (c : Conn) (client : ClientConnection)
    (held : get c cm.connections ≡ some client) where
  abbrev unlisted : ConnectionManager
  unlisted = record cm { user_connections = delete client.user_id cm.user_connections }

  pub users-remove_connection_internal :
      (remove_connection_internal c cm).user_connections ≡ delete client.user_id cm.user_connections
  unfolding remove_connection_internal
  users-remove_connection_internal =
      rw (held, remove_connection_internal)
        (vacate_frame c client.room_id unlisted (not (client.room_id == ""))).1

  pub in_room-remove_connection_internal :
      (q : String) (d : Conn)
      → in_room (remove_connection_internal c cm) q d ≡ (
          if not (client.room_id == "") && ((client.room_id == q) && (c == d))
          then false
          else in_room cm q d)
  unfolding remove_connection_internal in_room
  in_room-remove_connection_internal q d =
      rw (held, remove_connection_internal)
        (ground (arith, in_room-leave_room_internal c client.room_id unlisted q d))

-- In a well-formed manager `GetRoomConnections` lists, each once, the connections whose own record
-- names the room, and no other; for the empty name it lists none.
pub get_room_connections_exact :
    (cm : ConnectionManager) (r : String)
    → WellFormed cm
    → ((c : Conn) → elem c (get_room_connections r cm) ≡ seat (get c cm.connections) r)
      × Unique (get_room_connections r cm)
unfolding get_room_connections in_room
get_room_connections_exact cm r wf = elim (Option-cases (get r cm.room_connections)) [
  | inl e ↦ rw (e, get_room_connections) (λ c. ground (arith, wf.seats r c), tt)
  | inr (m, e) ↦
      rw (e, get_room_connections)
        (λ c. ground (arith, wf.seats r c, elem-keys c m), ground (arith, wf.tidy r, keys-Unique m))
]

-- `RemoveConnection` and `removeConnectionInternal` leave the same manager, but that the second
-- also closes the socket.
pub remove_connection-eq-internal :
    (cm : ConnectionManager) (c : Conn)
    → after (remove_connection c cm)
      ≡ record (remove_connection_internal c cm) { closed = cm.closed }
unfolding remove_connection remove_connection_internal
remove_connection-eq-internal cm c = elim (Option-cases (get c cm.connections)) [
  | inl e ↦ rw (e, remove_connection, remove_connection_internal)
  | inr (client, e) ↦
      let unlisted = record cm { user_connections = delete client.user_id cm.user_connections } in
      rw (e, remove_connection, remove_connection_internal, after-logged)
        (ground (
          arith,
          drop_from_room_lem c client.room_id unlisted,
          vacate_frame c client.room_id unlisted (not (client.room_id == "")),
        ))
]

-- `JoinRoom` of a held connection in a well-formed manager, for a room with a name: the connection
-- is then in that room and no other, and everybody else stays where they were.
pub in_room-join_room :
    (cm : ConnectionManager) (c : Conn) (r : String) (client : ClientConnection)
    → WellFormed cm
    → r ≢ ""
    → get c cm.connections ≡ some client
    → (q : String) (d : Conn)
    → in_room (after (join_room c r cm)) q d ≡ (if c == d then r == q else in_room cm q d)
unfolding join_room
in_room-join_room cm c r client wf named held q d =
    let left =
      if not (client.room_id == "") && not (client.room_id == r)
      then leave_room_internal c client.room_id cm
      else cm in
    rw (held, join_room, after-logged)
      (ground (
        arith,
        wf.seats q c,
        in_room-take_seat c r left client q d,
        in_room-leave_room_internal c client.room_id cm q d,
      ))

-- After `LeaveRoom` in a well-formed manager the connection is in no room, and everybody else stays
-- where they were.
pub in_room-leave_room :
    (cm : ConnectionManager) (c : Conn)
    → WellFormed cm
    → (q : String) (d : Conn)
    → in_room (leave_room c cm) q d ≡ (if c == d then false else in_room cm q d)
unfolding leave_room in_room
in_room-leave_room cm c wf q d = elim (Option-cases (get c cm.connections)) [
  | inl e ↦ rw (e, leave_room) (ground (arith, wf.seats q c))
  | inr (client, e) ↦
      rw (e, leave_room)
        (ground (arith, wf.seats q c, in_room-leave_room_internal c client.room_id cm q d))
]
