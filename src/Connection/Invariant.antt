-- ===== src/Connection/Invariant.antt =====
-- What holds of the connection manager between two calls of connection.go, and that the calls
-- keep it.
use zerogame.Shared.{
  ℕ, ◌≡◌, refl, ◌≤◌, inl, inr, String, Bool, false, not, ◌&&◌, Option, none, some, length, ◌==◌,
  string_key, nat_key, arith, Bool-cases,
}
use zerogame.Shared.Int.{ℤ, pos_part, int_key}
use zerogame.Shared.Effect.{after, after-logged}
use zerogame.Shared.GoMap.{get, Distinct, get-put, put-Distinct, length-put_new}
use zerogame.Connection.Rooms.{in_room, IsTidy}
use zerogame.Connection.{
  Conn, ConnectionManager, ClientConnection, new_connection_manager, new_client, is_full, register,
  add_connection,
}

-- The client's own field says that it sits in the room.
abbrev pub seat : Option ClientConnection → String → Bool
seat none room_id = false
seat (some client) room_id = not (client.room_id == "") && (client.room_id == room_id)

-- The user that the client's own record names.
abbrev pub user_of : Option ClientConnection → Option ℤ
user_of none = none
user_of (some client) = some client.user_id

abbrev pub OwnConn : Conn → Option ClientConnection → Type 0
OwnConn conn none = Unit
OwnConn conn (some client) = client.conn ≡ conn

pub record WellFormed (cm : ConnectionManager) : Type 0 where
  pub seats : (r : String) (c : Conn) → in_room cm r c ≡ seat (get c cm.connections) r
  pub tidy : (r : String) → IsTidy (get r cm.room_connections)
  pub users_live :
      (u : ℤ) (c : Conn)
      → get u cm.user_connections ≡ some c
      → user_of (get c cm.connections) ≡ some u
  pub own_conn : (c : Conn) → OwnConn c (get c cm.connections)
  pub distinct_connections : Distinct cm.connections
  pub distinct_users : Distinct cm.user_connections
  pub bounded : length cm.connections ≤ pos_part cm.max_connections

pub new_connection_manager-WellFormed : (max : ℤ) → WellFormed (new_connection_manager max)
unfolding new_connection_manager in_room get
new_connection_manager-WellFormed max = record {
  seats = λ r c. refl;
  tidy = λ r. tt;
  users_live = λ u c e. cc;
  own_conn = λ c. tt;
  distinct_connections = tt;
  distinct_users = tt;
  bounded = omega arith;
}

module _ (cm : ConnectionManager) (wf : WellFormed cm) where
  pub register-WellFormed :
      (conn : Conn) (user_id : ℤ) (now : ℕ)
      → get conn cm.connections ≡ none
      → is_full cm ≡ false
      → WellFormed (register conn user_id now cm)
  unfolding register in_room
  register-WellFormed conn user_id now fresh room = record {
    seats = λ r c.
        ground (arith, wf.seats r c, get-put conn c (new_client conn user_id now) cm.connections);
    tidy = wf.tidy;
    users_live = λ u c e. ground (
      arith,
      wf.users_live u c,
      get-put user_id u conn cm.user_connections,
      get-put conn c (new_client conn user_id now) cm.connections,
    );
    own_conn = λ c.
        ground (arith, wf.own_conn c, get-put conn c (new_client conn user_id now) cm.connections);
    distinct_connections = put-Distinct conn _ _ wf.distinct_connections;
    distinct_users = put-Distinct user_id _ _ wf.distinct_users;
    bounded =
        ground
          (arith, wf.bounded, length-put_new conn (new_client conn user_id now) cm.connections);
  }

  pub add_connection-WellFormed :
      (conn : Conn) (user_id : ℤ) (now : ℕ)
      → get conn cm.connections ≡ none
      → WellFormed (after (add_connection conn user_id now cm))
  unfolding add_connection
  add_connection-WellFormed conn user_id now fresh = elim (Bool-cases (is_full cm)) [
    | inl full ↦ rw (full, after-logged) wf
    | inr room ↦ rw (room, after-logged) (register-WellFormed conn user_id now fresh room)
  ]
