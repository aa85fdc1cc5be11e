-- ===== src/System/Sound.antt =====
-- What holds of the connection manager of a gateway that runs, whatever its clients send: a client
-- may log in twice on one connection, and may join a room without a name.
pub mod Held
use zerogame.Shared.{
  ℕ, ◌≡◌, refl, ◌≤◌, inl, inr, Option-cases, String, Bool, true, false, not, ◌&&◌, Option, none,
  some, List, [], ◌∷◌, ◌++◌, length, if◌then◌else◌, ◌==◌, string_key, nat_key, arith, Bool-cases,
}
use zerogame.Shared.Int.{ℤ, pos, pos_part, int_key}
use zerogame.Shared.Effect.{Logger, after, after-logged}
use zerogame.Shared.GoMap.{
  get, put, delete, Distinct, get-put, get-delete, put-Distinct, delete-Distinct, length-put_new,
  length-put_old, length-delete,
}
use zerogame.Connection.Rooms.{
  in_room, IsTidy, in_room-leave_room_internal, vacate_frame, leave_room_internal-Tidy,
  in_room-take_seat, take_seat-Tidy,
}
use zerogame.Connection.Invariant.{seat, user_of}
use zerogame.Connection.Lookups.{remove_connection-eq-internal}
use zerogame.Connection.Reach.{cleanup_dead_connections-after}
use zerogame.Connection.{
  Conn, ConnectionManager, ClientConnection, new_connection_manager, new_client, is_full, register,
  add_connection, leave_room_internal, touch_heartbeat, take_seat, join_room, leave_room,
  remove_connection, remove_connection_internal, remove_all, dead_connections,
  cleanup_dead_connections,
}

-- The user that every login is given.
abbrev pub IsFirstUser : Option ClientConnection → Type 0
IsFirstUser none = Unit
IsFirstUser (some client) = client.user_id ≡ pos 1

pub record Sound (cm : ConnectionManager) : Type 0 where
  pub listed :
      (r : String) (c : Conn) → seat (get c cm.connections) r ≡ true → in_room cm r c ≡ true
  pub tidy : (r : String) → IsTidy (get r cm.room_connections)
  pub users_live :
      (u : ℤ) (c : Conn)
      → get u cm.user_connections ≡ some c
      → user_of (get c cm.connections) ≡ some u
  pub first_user : (c : Conn) → IsFirstUser (get c cm.connections)
  pub distinct_connections : Distinct cm.connections
  pub distinct_users : Distinct cm.user_connections
  pub bounded : length cm.connections ≤ pos_part cm.max_connections

pub new_connection_manager-Sound : (max : ℤ) → Sound (new_connection_manager max)
unfolding new_connection_manager in_room get
new_connection_manager-Sound max = record {
  listed = λ r c e. cc;
  tidy = λ r. tt;
  users_live = λ u c e. cc;
  first_user = λ c. tt;
  distinct_connections = tt;
  distinct_users = tt;
  bounded = omega arith;
}

-- Neither the sockets nor the logger matter.
pub reclose-Sound :
    (cm : ConnectionManager) (l : Logger) (closed : List Conn)
    → Sound cm
    → Sound (record cm { logger = l; closed = closed })
unfolding in_room
reclose-Sound cm l closed s = record {
  listed = s.listed;
  tidy = s.tidy;
  users_live = s.users_live;
  first_user = s.first_user;
  distinct_connections = s.distinct_connections;
  distinct_users = s.distinct_users;
  bounded = s.bounded;
}

module _ (cm : ConnectionManager) (s : Sound cm) (conn : Conn) where
  register_bounded :
      (now : ℕ)
      → is_full cm ≡ false
      → length (put conn (new_client conn (pos 1) now) cm.connections) ≤ pos_part cm.max_connections
  register_bounded now room = elim (Option-cases (get conn cm.connections)) [
    | inl e ↦
        ground (arith, s.bounded, length-put_new conn (new_client conn (pos 1) now) cm.connections)
    | inr (old, e) ↦
        ground (arith, s.bounded, length-put_old conn (new_client conn (pos 1) now) cm.connections)
  ]

  register-Sound : (now : ℕ) → is_full cm ≡ false → Sound (register conn (pos 1) now cm)
  unfolding register in_room
  register-Sound now room =
      let client = new_client conn (pos 1) now in
      record {
        listed = λ r c e. ground (arith, s.listed r c, get-put conn c client cm.connections);
        tidy = s.tidy;
        users_live = λ u c e. ground (
          arith,
          s.users_live u c,
          s.first_user c,
          get-put (pos 1) u conn cm.user_connections,
          get-put conn c client cm.connections,
        );
        first_user = λ c. ground (arith, s.first_user c, get-put conn c client cm.connections);
        distinct_connections = put-Distinct conn _ _ s.distinct_connections;
        distinct_users = put-Distinct (pos 1) _ _ s.distinct_users;
        bounded = register_bounded now room;
      }

  pub add_connection-Sound : (now : ℕ) → Sound (after (add_connection conn (pos 1) now cm))
  unfolding add_connection
  add_connection-Sound now = elim (Bool-cases (is_full cm)) [
    | inl full ↦ rw (full, after-logged) s
    | inr room ↦ rw (room, after-logged) (register-Sound now room)
  ]
