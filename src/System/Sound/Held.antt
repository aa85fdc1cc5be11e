-- ===== src/System/Sound/Held.antt =====
-- The other calls of connection.go keep the manager sound.
use zerogame.Shared.{
  ℕ, ◌≡◌, refl, inl, inr, Option-cases, String, true, false, not, ◌&&◌, some, List, [], ◌∷◌, ◌++◌,
  if◌then◌else◌, ◌==◌, string_key, nat_key, arith, Bool-cases,
}
use zerogame.Shared.Int.{ℤ, int_key}
use zerogame.Shared.Effect.{after, after-logged}
use zerogame.Shared.GoMap.{
  get, put, delete, get-put, get-delete, put-Distinct, delete-Distinct, length-put_old,
  length-delete,
}
use zerogame.Connection.Rooms.{
  in_room, IsTidy, in_room-leave_room_internal, vacate_frame, leave_room_internal-Tidy,
  in_room-take_seat, take_seat-Tidy,
}
use zerogame.Connection.Invariant.{seat}
use zerogame.Connection.Lookups.{remove_connection-eq-internal}
use zerogame.Connection.Reach.{cleanup_dead_connections-after}
use zerogame.Connection.{
  Conn, ConnectionManager, ClientConnection, leave_room_internal, touch_heartbeat, take_seat,
  join_room, leave_room, remove_connection, remove_connection_internal, remove_all,
  cleanup_dead_connections,
}
use zerogame.System.Sound.{Sound, reclose-Sound}

module _ (cm : ConnectionManager) (s : Sound cm) (conn : Conn) where
  module _ (client : ClientConnection) (held : get conn cm.connections ≡ some client) where
    abbrev unlisted : ConnectionManager
    unlisted = record cm { user_connections = delete client.user_id cm.user_connections }

    -- The manager after a call that may take the connection out of its room, and gives it another
    -- record of the same user.
    moved-Sound :
        (cm' : ConnectionManager) (client' : ClientConnection)
        → cm'.connections ≡ put conn client' cm.connections
        → cm'.user_connections ≡ cm.user_connections
        → cm'.max_connections ≡ cm.max_connections
        → client'.user_id ≡ client.user_id
        → ((r : String) → seat (some client') r ≡ true → in_room cm' r conn ≡ true)
        → ((r : String) (c : Conn) → (conn == c) ≡ false → in_room cm' r c ≡ in_room cm r c)
        → ((r : String) → IsTidy (get r cm'.room_connections))
        → Sound cm'
    moved-Sound cm' client' conns users limit same own others tidy = record {
      listed = λ r c e.
          ground
            (arith, s.listed r c, own r, others r c, conns, get-put conn c client' cm.connections);
      tidy = tidy;
      users_live = λ u c e.
          ground (arith, s.users_live u c, users, conns, get-put conn c client' cm.connections);
      first_user = λ c.
          ground (
            arith,
            s.first_user c,
            s.first_user conn,
            conns,
            get-put conn c client' cm.connections,
          );
      distinct_connections = rw conns (put-Distinct conn client' _ s.distinct_connections);
      distinct_users = rw users s.distinct_users;
      bounded =
          rw (conns, limit) (ground (arith, s.bounded, length-put_old conn client' cm.connections));
    }

    touch-Sound :
        (now : ℕ)
        → Sound (record cm {
          connections = put conn (record client { last_heartbeat = now }) cm.connections;
        })
    unfolding in_room
    touch-Sound now =
        moved-Sound _ (record client { last_heartbeat = now }) refl refl refl refl
          (λ r e. ground (arith, s.listed r conn)) (λ r c e. refl) s.tidy

    vacated : ConnectionManager
    vacated = leave_room_internal conn client.room_id cm

    unseat-Sound : Sound (record vacated {
      connections = put conn (record client { room_id = "" }) vacated.connections;
    })
    unfolding in_room vacated
    unseat-Sound =
        let frame = vacate_frame conn client.room_id cm true in
        moved-Sound _ (record client { room_id = "" }) (rw (frame.0) refl) (frame.1) (frame.2) refl
          (λ r e. ground arith)
          (λ r c e. ground (arith, in_room-leave_room_internal conn client.room_id cm r c))
          (λ r. leave_room_internal-Tidy conn client.room_id cm r (s.tidy r))

    cleared : String → ConnectionManager
    cleared room_id =
        if not (client.room_id == "") && not (client.room_id == room_id)
        then leave_room_internal conn client.room_id cm
        else cm

    reseat-Sound : (room_id : String) → Sound (take_seat conn room_id client (cleared room_id))
    unfolding take_seat cleared
    reseat-Sound room_id =
        let moves = not (client.room_id == "") && not (client.room_id == room_id) in
        let frame = vacate_frame conn client.room_id cm moves in
        moved-Sound _ (record client { room_id = room_id }) (rw (frame.0) refl) (frame.1) (frame.2)
          refl
          (λ r e. ground (arith, in_room-take_seat conn room_id (cleared room_id) client r conn))
          (λ r c e. ground (
            arith,
            in_room-take_seat conn room_id (cleared room_id) client r c,
            in_room-leave_room_internal conn client.room_id cm r c,
          ))
          (λ r.
            take_seat-Tidy conn room_id (cleared room_id) client r
              (ground (arith, s.tidy r, leave_room_internal-Tidy conn client.room_id cm r)))

    abbrev unseated : ConnectionManager
    unseated =
        if not (client.room_id == "")
        then leave_room_internal conn client.room_id unlisted
        else unlisted

    forget-Sound : Sound (record unseated {
      connections = delete conn unseated.connections;
      closed = unseated.closed ++ conn ∷ [];
    })
    unfolding in_room
    forget-Sound =
        let frame = vacate_frame conn client.room_id unlisted (not (client.room_id == "")) in
        record {
          listed = λ r c e. ground (
            arith,
            s.listed r c,
            get-delete conn c cm.connections,
            frame,
            in_room-leave_room_internal conn client.room_id unlisted r c,
          );
          tidy = λ r.
              ground (arith, s.tidy r, leave_room_internal-Tidy conn client.room_id unlisted r);
          users_live = λ u c e. ground (
            arith,
            s.users_live u c,
            s.first_user conn,
            get-delete conn c cm.connections,
            get-delete client.user_id u cm.user_connections,
            frame,
          );
          first_user = λ c. ground (arith, s.first_user c, get-delete conn c cm.connections, frame);
          distinct_connections =
              rw (frame.0) (delete-Distinct conn cm.connections s.distinct_connections);
          distinct_users = rw (frame.1) (delete-Distinct client.user_id _ s.distinct_users);
          bounded =
              rw (frame.0, frame.2)
                (ground
                  (arith, s.bounded, length-delete conn cm.connections s.distinct_connections));
        }

  pub touch_heartbeat-Sound : (now : ℕ) → Sound (touch_heartbeat conn now cm)
  unfolding touch_heartbeat
  touch_heartbeat-Sound now = elim (Option-cases (get conn cm.connections)) [
    | inl e ↦ rw (e, touch_heartbeat) s
    | inr (client, e) ↦ rw (e, touch_heartbeat) (touch-Sound client e now)
  ]

  pub leave_room-Sound : Sound (leave_room conn cm)
  unfolding leave_room vacated
  leave_room-Sound = elim (Option-cases (get conn cm.connections)) [
    | inl e ↦ rw (e, leave_room) s
    | inr (client, e) ↦ elim (Bool-cases (client.room_id == "")) [
      | inl out ↦ rw (e, leave_room, out) s
      | inr named ↦ rw (e, leave_room, named) (unseat-Sound client e)
    ]
  ]

  pub join_room-Sound : (room_id : String) → Sound (after (join_room conn room_id cm))
  unfolding join_room cleared
  join_room-Sound room_id = elim (Option-cases (get conn cm.connections)) [
    | inl e ↦ rw (e, join_room) s
    | inr (client, e) ↦ rw (e, join_room, after-logged) (reseat-Sound client e room_id)
  ]

  pub remove_connection_internal-Sound : Sound (remove_connection_internal conn cm)
  unfolding remove_connection_internal
  remove_connection_internal-Sound = elim (Option-cases (get conn cm.connections)) [
    | inl e ↦ rw (e, remove_connection_internal) s
    | inr (client, e) ↦ rw (e, remove_connection_internal) (forget-Sound client e)
  ]

  pub remove_connection-Sound : Sound (after (remove_connection conn cm))
  remove_connection-Sound =
      rw (remove_connection-eq-internal cm conn)
        (reclose-Sound _ _ _ remove_connection_internal-Sound)

remove_all-Sound : (cs : List Conn) (cm : ConnectionManager) → Sound cm → Sound (remove_all cs cm)
unfolding remove_all
remove_all-Sound [] cm s = s
remove_all-Sound (c ∷ cs) cm s = remove_all-Sound cs _ (remove_connection_internal-Sound cm s c)

pub cleanup_dead_connections-Sound :
    (cm : ConnectionManager) (timeout : ℤ) (now : ℕ)
    → Sound cm
    → Sound (after (cleanup_dead_connections timeout now cm))
cleanup_dead_connections-Sound cm timeout now s =
    rw (cleanup_dead_connections-after cm timeout now) (remove_all-Sound _ cm s)
