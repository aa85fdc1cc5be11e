-- ===== src/Connection/Moves.antt =====
-- The calls of connection.go on a connection that is held keep the manager well formed.
use zerogame.Shared.{
  ℕ, ◌≡◌, refl, ◌≢◌, inl, inr, String, true, not, ◌&&◌, some, [], ◌∷◌, if◌then◌else◌, ◌==◌,
  string_key, nat_key, arith, Option-cases, String_discrete, ==-eq, ==-ne, ◌++◌,
}
use zerogame.Shared.Int.{int_key}
use zerogame.Shared.Effect.{after, after-logged}
use zerogame.Shared.GoMap.{
  get, put, delete, get-put, get-delete, put-Distinct, delete-Distinct, length-put_old,
  length-delete,
}
use zerogame.Connection.Rooms.{
  in_room, in_room-leave_room_internal, vacate_frame, leave_room_internal-Tidy, in_room-take_seat,
  take_seat-Tidy,
}
use zerogame.Connection.{
  Conn, ConnectionManager, ClientConnection, leave_room_internal, touch_heartbeat, take_seat,
  join_room, leave_room, remove_connection_internal,
}
use zerogame.Connection.Invariant.{WellFormed, seat}

module _ (cm : ConnectionManager) (wf : WellFormed cm) (conn : Conn) (client : ClientConnection)
    (held : get conn cm.connections ≡ some client) where
  -- A new record in the same seat, under the same user.
  replace-WellFormed :
      (client' : ClientConnection)
      → client'.conn ≡ client.conn
      → client'.user_id ≡ client.user_id
      → client'.room_id ≡ client.room_id
      → WellFormed (record cm { connections = put conn client' cm.connections })
  unfolding in_room
  replace-WellFormed client' same_conn same_user same_room = record {
    seats = λ r c. ground (arith, wf.seats r c, get-put conn c client' cm.connections);
    tidy = wf.tidy;
    users_live = λ u c e. ground (arith, wf.users_live u c, get-put conn c client' cm.connections);
    own_conn = λ c. ground (arith, wf.own_conn c, get-put conn c client' cm.connections);
    distinct_connections = put-Distinct conn _ _ wf.distinct_connections;
    distinct_users = wf.distinct_users;
    bounded = ground (arith, wf.bounded, length-put_old conn client' cm.connections);
  }

  abbrev unlisted : ConnectionManager
  unlisted = record cm { user_connections = delete client.user_id cm.user_connections }

  abbrev unseated : ConnectionManager
  unseated =
      if not (client.room_id == "")
      then leave_room_internal conn client.room_id unlisted
      else unlisted

  forget-WellFormed : WellFormed (record unseated {
    connections = delete conn unseated.connections;
    closed = unseated.closed ++ conn ∷ [];
  })
  unfolding in_room
  forget-WellFormed =
      let frame = vacate_frame conn client.room_id unlisted (not (client.room_id == "")) in
      record {
        seats = λ r c. ground (
          arith,
          wf.seats r c,
          wf.seats r conn,
          get-delete conn c cm.connections,
          frame,
          in_room-leave_room_internal conn client.room_id unlisted r c,
        );
        tidy =
            λ r. ground (arith, wf.tidy r, leave_room_internal-Tidy conn client.room_id unlisted r);
        users_live = λ u c e. ground (
          arith,
          wf.users_live u c,
          get-delete conn c cm.connections,
          get-delete client.user_id u cm.user_connections,
          frame,
        );
        own_conn = λ c. ground (arith, wf.own_conn c, get-delete conn c cm.connections, frame);
        distinct_connections =
            rw (frame.0) (delete-Distinct conn cm.connections wf.distinct_connections);
        distinct_users = rw (frame.1) (delete-Distinct client.user_id _ wf.distinct_users);
        bounded =
            rw (frame.0, frame.2)
              (ground
                (arith, wf.bounded, length-delete conn cm.connections wf.distinct_connections));
      }

  vacated : ConnectionManager
  vacated = leave_room_internal conn client.room_id cm

  unseat-WellFormed :
      client.room_id ≢ ""
      → WellFormed (record vacated {
        connections = put conn (record client { room_id = "" }) vacated.connections;
      })
  unfolding in_room vacated
  unseat-WellFormed named =
      let frame = vacate_frame conn client.room_id cm true in
      let client' = record client { room_id = "" } in
      record {
        seats = λ r c. ground (
          arith,
          wf.seats r c,
          wf.seats r conn,
          get-put conn c client' cm.connections,
          frame,
          in_room-leave_room_internal conn client.room_id cm r c,
        );
        tidy = λ r. leave_room_internal-Tidy conn client.room_id cm r (wf.tidy r);
        users_live = λ u c e.
            ground (arith, wf.users_live u c, get-put conn c client' cm.connections, frame);
        own_conn = λ c. ground (arith, wf.own_conn c, get-put conn c client' cm.connections, frame);
        distinct_connections = rw (frame.0) (put-Distinct conn client' _ wf.distinct_connections);
        distinct_users = rw (frame.1) wf.distinct_users;
        bounded =
            rw (frame.0, frame.2)
              (ground (arith, wf.bounded, length-put_old conn client' cm.connections));
      }

  module _ (room_id : String) where
    cleared : ConnectionManager
    cleared =
        if not (client.room_id == "") && not (client.room_id == room_id)
        then leave_room_internal conn client.room_id cm
        else cm

    abbrev sitting : ClientConnection
    sitting = record client { room_id = room_id }

    cleared_frame :
        (cleared.connections ≡ cm.connections)
        × (cleared.user_connections ≡ cm.user_connections)
        × (cleared.max_connections ≡ cm.max_connections)
    unfolding cleared
    cleared_frame =
        let frame =
          vacate_frame conn client.room_id cm
            (not (client.room_id == "") && not (client.room_id == room_id)) in
        (frame.0, frame.1, frame.2)

    in_room-cleared :
        (r : String) (c : Conn)
        → in_room cleared r c ≡ (
            if conn == c then client.room_id == room_id && seat (some client) r else in_room cm r c)
    unfolding cleared
    in_room-cleared r c =
        ground (arith, wf.seats r c, in_room-leave_room_internal conn client.room_id cm r c)

    reseat-WellFormed : room_id ≢ "" → WellFormed (take_seat conn room_id client cleared)
    unfolding take_seat
    reseat-WellFormed named = record {
      seats = λ r c. ground (
        arith,
        wf.seats r c,
        in_room-take_seat conn room_id cleared client r c,
        in_room-cleared r c,
        get-put conn c sitting cm.connections,
        cleared_frame,
      );
      tidy = λ r. take_seat-Tidy conn room_id cleared client r (
          unfold cleared in
          ground (arith, wf.tidy r, leave_room_internal-Tidy conn client.room_id cm r));
      users_live = λ u c e.
          ground (arith, wf.users_live u c, get-put conn c sitting cm.connections, cleared_frame);
      own_conn =
          λ c. ground (arith, wf.own_conn c, get-put conn c sitting cm.connections, cleared_frame);
      distinct_connections =
          rw (cleared_frame.0) (put-Distinct conn sitting _ wf.distinct_connections);
      distinct_users = rw (cleared_frame.1) wf.distinct_users;
      bounded =
          rw (cleared_frame.0, cleared_frame.2)
            (ground (arith, wf.bounded, length-put_old conn sitting cm.connections));
    }

-- `GetClientConnection` and `UpdateHeartbeat`, for any connection.
pub touch_heartbeat-WellFormed :
    (cm : ConnectionManager) (conn : Conn) (now : ℕ)
    → WellFormed cm
    → WellFormed (touch_heartbeat conn now cm)
unfolding touch_heartbeat
touch_heartbeat-WellFormed cm conn now wf = elim (Option-cases (get conn cm.connections)) [
  | inl e ↦ rw (e, touch_heartbeat) wf
  | inr (client, e) ↦
      rw (e, touch_heartbeat) (replace-WellFormed cm wf conn client e _ refl refl refl)
]

pub remove_connection_internal-WellFormed :
    (cm : ConnectionManager) (conn : Conn)
    → WellFormed cm
    → WellFormed (remove_connection_internal conn cm)
unfolding remove_connection_internal
remove_connection_internal-WellFormed cm conn wf = elim (Option-cases (get conn cm.connections)) [
  | inl e ↦ rw (e, remove_connection_internal) wf
  | inr (client, e) ↦ rw (e, remove_connection_internal) (forget-WellFormed cm wf conn client e)
]

pub leave_room-WellFormed :
    (cm : ConnectionManager) (conn : Conn) → WellFormed cm → WellFormed (leave_room conn cm)
unfolding leave_room vacated
leave_room-WellFormed cm conn wf = elim (Option-cases (get conn cm.connections)) [
  | inl e ↦ rw (e, leave_room) wf
  | inr (client, e) ↦
      rw (e, leave_room)
        (elim (String_discrete client.room_id "") [
          | yes out ↦ rw (==-eq out) wf
          | no named ↦ rw (==-ne named) (unseat-WellFormed cm wf conn client e named)
        ])
]

pub join_room-WellFormed :
    (cm : ConnectionManager) (conn : Conn) (room_id : String)
    → room_id ≢ ""
    → WellFormed cm
    → WellFormed (after (join_room conn room_id cm))
unfolding join_room cleared
join_room-WellFormed cm conn room_id named wf = elim (Option-cases (get conn cm.connections)) [
  | inl e ↦ rw (e, join_room) wf
  | inr (client, e) ↦
      rw (e, join_room, after-logged) (reseat-WellFormed cm wf conn client e room_id named)
]
