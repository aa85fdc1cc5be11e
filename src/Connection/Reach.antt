-- ===== src/Connection/Reach.antt =====
-- Every sequence of calls of connection.go, in any order the mutex may serialise them.
use zerogame.Shared.{nat_key, ℕ, ◌≡◌, ◌≢◌, String, none, List, [], ◌∷◌, arith}
use zerogame.Shared.Int.{ℤ}
use zerogame.Shared.Effect.{after, after-logged}
use zerogame.Shared.GoMap.{get}
use zerogame.Connection.Invariant.{
  WellFormed, new_connection_manager-WellFormed, add_connection-WellFormed,
}
use zerogame.Connection.Moves.{
  touch_heartbeat-WellFormed, remove_connection_internal-WellFormed, leave_room-WellFormed,
  join_room-WellFormed,
}
use zerogame.Connection.Rooms.{in_room}
use zerogame.Connection.Lookups.{remove_connection-eq-internal}
use zerogame.Connection.{
  Conn, ConnectionManager, new_connection_manager, add_connection, remove_connection, join_room,
  leave_room, touch_heartbeat, remove_all, cleanup_dead_connections, dead_connections,
}

-- One call. A connection is added once, and a room that is joined has a name; nothing else is
-- asked for, and a call may well be of a connection that is not held.
pub data Step (cm : ConnectionManager) : ConnectionManager → Type 0 where
  add :
      (c : Conn) (u : ℤ) (now : ℕ)
      → get c cm.connections ≡ none
      → Step cm (after (add_connection c u now cm))
  remove : (c : Conn) → Step cm (after (remove_connection c cm))
  join : (c : Conn) (r : String) → r ≢ "" → Step cm (after (join_room c r cm))
  leave : (c : Conn) → Step cm (leave_room c cm)
  heartbeat : (c : Conn) (now : ℕ) → Step cm (touch_heartbeat c now cm)
  cleanup : (timeout : ℤ) (now : ℕ) → Step cm (after (cleanup_dead_connections timeout now cm))

pub data Reach (start : ConnectionManager) : ConnectionManager → Type 0 where
  here : Reach start start
  next : {cm cm' : ConnectionManager} → Reach start cm → Step cm cm' → Reach start cm'

pub remove_connection-WellFormed :
    (cm : ConnectionManager) (c : Conn)
    → WellFormed cm
    → WellFormed (after (remove_connection c cm))
unfolding in_room
remove_connection-WellFormed cm c wf =
    let inner = remove_connection_internal-WellFormed cm c wf in
    rw (remove_connection-eq-internal cm c) (record {
      seats = inner.seats;
      tidy = inner.tidy;
      users_live = inner.users_live;
      own_conn = inner.own_conn;
      distinct_connections = inner.distinct_connections;
      distinct_users = inner.distinct_users;
      bounded = inner.bounded;
    })

remove_all-WellFormed :
    (cs : List Conn) (cm : ConnectionManager) → WellFormed cm → WellFormed (remove_all cs cm)
unfolding remove_all
remove_all-WellFormed [] cm wf = wf
remove_all-WellFormed (c ∷ cs) cm wf =
    remove_all-WellFormed cs _ (remove_connection_internal-WellFormed cm c wf)

pub cleanup_dead_connections-after :
    (cm : ConnectionManager) (timeout : ℤ) (now : ℕ)
    → after (cleanup_dead_connections timeout now cm)
      ≡ remove_all (dead_connections timeout now cm.connections) cm
unfolding cleanup_dead_connections
cleanup_dead_connections-after cm timeout now =
    let dead = dead_connections timeout now cm.connections in
    ground (arith, after-logged cm.logger tt (remove_all dead cm))

pub Step-WellFormed : {cm cm' : ConnectionManager} → Step cm cm' → WellFormed cm → WellFormed cm'
Step-WellFormed {cm} (add c u now fresh) wf = add_connection-WellFormed cm wf c u now fresh
Step-WellFormed {cm} (remove c) wf = remove_connection-WellFormed cm c wf
Step-WellFormed {cm} (join c r named) wf = join_room-WellFormed cm c r named wf
Step-WellFormed {cm} (leave c) wf = leave_room-WellFormed cm c wf
Step-WellFormed {cm} (heartbeat c now) wf = touch_heartbeat-WellFormed cm c now wf
Step-WellFormed {cm} (cleanup timeout now) wf =
    rw (cleanup_dead_connections-after cm timeout now) (remove_all-WellFormed _ cm wf)

-- From `NewConnectionManager`, whatever its limit, any sequence of calls in which no connection is
-- added while it is held and every room joined has a name leaves the manager well formed: the room
-- sets hold exactly the connections whose records name the room, no set is empty, the user map
-- points at held connections of that user, and the limit is kept.
pub Reach-WellFormed :
    (max : ℤ) {cm : ConnectionManager} → Reach (new_connection_manager max) cm → WellFormed cm
Reach-WellFormed max here = new_connection_manager-WellFormed max
Reach-WellFormed max (next r st) = Step-WellFormed st (Reach-WellFormed max r)
