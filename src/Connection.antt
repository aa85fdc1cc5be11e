-- ===== src/Connection.antt =====
-- server/gateway_ws/internal/manager/connection.go: the connection manager.
--
-- A `*websocket.Conn` is its identity, a number. The clock is an argument: `time.Now()` reads a
-- monotonic clock in nanoseconds. The mutex makes each method one step, so it has no counterpart;
-- a `*ClientConnection` is shared with the map, and a write through it is a write to the entry.
-- `connPool` is never read. `closed` records the calls of `conn.Close()`, oldest first.
pub mod Rooms
pub mod Invariant
pub mod Moves
pub mod Reach
pub mod Cleanup
pub mod Lookups
pub mod Defects
pub mod Presence
pub mod Tests
use zerogame.Shared.{
  ℕ, String, Bool, true, not, ◌&&◌, Option, none, some, List, [], ◌∷◌, ◌++◌, length, if◌then◌else◌,
  ◌==◌, string_key, nat_key,
}
use zerogame.Shared.Int.{ℤ, pos, leb_ℤ, ltb_ℤ, sub_ℕ, int_key}
use zerogame.Shared.GoMap.{get, put, delete, keys}
use zerogame.Shared.Effect.{M, Outcome, panicked, returned, Logger, nil, logged}

abbrev pub Conn : Type 0
Conn = ℕ

pub record ClientConnection : Type 0 where
  pub conn : Conn
  pub user_id : ℤ
  pub room_id : String
  pub game_id : String
  pub last_heartbeat : ℕ
  pub connected_at : ℕ

abbrev pub RoomConns : Type 0
RoomConns = List (Conn × Bool)

pub record ConnectionManager : Type 0 where
  pub connections : List (Conn × ClientConnection)
  pub user_connections : List (ℤ × Conn)
  pub room_connections : List (String × RoomConns)
  pub max_connections : ℤ
  pub logger : Logger
  pub closed : List Conn

-- `c.LastHeartbeat = time.Now()`, on the connection's own record.
unfoldable pub update_heartbeat : ℕ → ClientConnection → ClientConnection
update_heartbeat now c = record c { last_heartbeat = now }

unfoldable pub is_alive : ℤ → ℕ → ClientConnection → Bool
is_alive timeout now c = ltb_ℤ (sub_ℕ now c.last_heartbeat) timeout

-- The embedded logger is not set.
unfoldable pub new_connection_manager : ℤ → ConnectionManager
new_connection_manager max_connections = record {
  connections = [];
  user_connections = [];
  room_connections = [];
  max_connections = max_connections;
  logger = nil;
  closed = [];
}

abbrev pub new_client : Conn → ℤ → ℕ → ClientConnection
new_client conn user_id now = record {
  conn = conn;
  user_id = user_id;
  room_id = "";
  game_id = "";
  last_heartbeat = now;
  connected_at = now;
}

-- The limit test of `AddConnection`.
abbrev pub is_full : ConnectionManager → Bool
is_full cm = leb_ℤ cm.max_connections (pos (length cm.connections))

-- The two map writes of `AddConnection`.
unfoldable pub register : Conn → ℤ → ℕ → ConnectionManager → ConnectionManager
register conn user_id now cm = record cm {
  connections = put conn (new_client conn user_id now) cm.connections;
  user_connections = put user_id conn cm.user_connections;
}

-- `none` is the nil result at the limit.
unfoldable pub add_connection : Conn → ℤ → ℕ → M ConnectionManager (Option ClientConnection)
add_connection conn user_id now cm =
    if is_full cm
    then logged cm.logger none cm
    else logged cm.logger (some (new_client conn user_id now)) (register conn user_id now cm)

unfoldable pub leave_room_internal : Conn → String → ConnectionManager → ConnectionManager
leave_room_internal conn room_id cm = elim (get room_id cm.room_connections) [
  | none ↦ cm
  | some room_conns ↦
      let rest = delete conn room_conns in
      if length rest == 0
      then record cm { room_connections = delete room_id cm.room_connections }
      else record cm { room_connections = put room_id rest cm.room_connections }
]

-- The room part of `RemoveConnection`, written out there.
unfoldable pub drop_from_room : Conn → String → ConnectionManager → ConnectionManager
drop_from_room conn room_id cm =
    if not (room_id == "")
    then (elim (get room_id cm.room_connections) [
      | none ↦ cm
      | some room_conns ↦
          let rest = delete conn room_conns in
          let kept = record cm { room_connections = put room_id rest cm.room_connections } in
          if length rest == 0
          then record kept { room_connections = delete room_id kept.room_connections }
          else kept
    ])
    else cm

unfoldable pub remove_connection : Conn → M ConnectionManager (Unit {0})
unfolding drop_from_room
remove_connection conn cm = elim (get conn cm.connections) [
  | none ↦ (returned tt, cm)
  | some client ↦
      let unlisted = record cm { user_connections = delete client.user_id cm.user_connections } in
      let left = drop_from_room conn client.room_id unlisted in
      logged cm.logger tt (record left { connections = delete conn left.connections })
]

unfoldable pub get_connection : ℤ → ConnectionManager → Option Conn
get_connection user_id cm = get user_id cm.user_connections

unfoldable pub get_client_connection : Conn → ConnectionManager → Option ClientConnection
get_client_connection conn cm = get conn cm.connections

-- `GetClientConnection` and then `UpdateHeartbeat` on what it returns.
unfoldable pub touch_heartbeat : Conn → ℕ → ConnectionManager → ConnectionManager
unfolding get_client_connection update_heartbeat
touch_heartbeat conn now cm = elim (get_client_connection conn cm) [
  | none ↦ cm
  | some client ↦ record cm { connections = put conn (update_heartbeat now client) cm.connections }
]

-- `cm.roomConnections[roomID]`, made where it was nil.
abbrev pub room_or_new : Option RoomConns → RoomConns
room_or_new none = []
room_or_new (some room_conns) = room_conns

-- The seat in the new room: the client's field, and the room's set.
unfoldable pub take_seat : Conn → String → ClientConnection → ConnectionManager → ConnectionManager
take_seat conn room_id client cm = record cm {
  connections = put conn (record client { room_id = room_id }) cm.connections;
  room_connections =
      put room_id (put conn true (room_or_new (get room_id cm.room_connections)))
        cm.room_connections;
}

unfoldable pub join_room : Conn → String → M ConnectionManager (Unit {0})
unfolding leave_room_internal take_seat
join_room conn room_id cm = elim (get conn cm.connections) [
  | none ↦ (returned tt, cm)
  | some client ↦
      let left =
        if not (client.room_id == "") && not (client.room_id == room_id)
        then leave_room_internal conn client.room_id cm
        else cm in
      logged cm.logger tt (take_seat conn room_id client left)
]

unfoldable pub leave_room : Conn → ConnectionManager → ConnectionManager
unfolding leave_room_internal
leave_room conn cm = elim (get conn cm.connections) [
  | none ↦ cm
  | some client ↦
      if client.room_id == ""
      then cm
      else (let left = leave_room_internal conn client.room_id cm in
          record left { connections = put conn (record client { room_id = "" }) left.connections })
]

-- `nil` where the room is not there.
unfoldable pub get_room_connections : String → ConnectionManager → List Conn
get_room_connections room_id cm = elim (get room_id cm.room_connections) [
  | none ↦ []
  | some room_conns ↦ keys room_conns
]

unfoldable pub get_all_connections : ConnectionManager → List Conn
get_all_connections cm = keys cm.connections

unfoldable pub get_connection_count : ConnectionManager → ℕ
get_connection_count cm = length cm.connections

unfoldable pub get_room_count : ConnectionManager → ℕ
get_room_count cm = length cm.room_connections

-- `now.Sub(clientConn.LastHeartbeat) > timeout`.
abbrev pub is_dead : ℤ → ℕ → ClientConnection → Bool
is_dead timeout now c = ltb_ℤ timeout (sub_ℕ now c.last_heartbeat)

unfoldable pub remove_connection_internal : Conn → ConnectionManager → ConnectionManager
unfolding leave_room_internal
remove_connection_internal conn cm = elim (get conn cm.connections) [
  | none ↦ cm
  | some client ↦
      let unlisted = record cm { user_connections = delete client.user_id cm.user_connections } in
      let left =
        if not (client.room_id == "")
        then leave_room_internal conn client.room_id unlisted
        else unlisted in
      record left { connections = delete conn left.connections; closed = left.closed ++ conn ∷ [] }
]

-- The first loop of `CleanupDeadConnections`.
unfoldable pub dead_connections : ℤ → ℕ → List (Conn × ClientConnection) → List Conn
dead_connections timeout now [] = []
dead_connections timeout now ((conn, client) ∷ rest) =
    let others = dead_connections timeout now rest in
    if is_dead timeout now client then conn ∷ others else others

-- The second loop.
unfoldable pub remove_all : List Conn → ConnectionManager → ConnectionManager
remove_all [] cm = cm
remove_all (conn ∷ conns) cm = remove_all conns (remove_connection_internal conn cm)

unfoldable pub cleanup_dead_connections : ℤ → ℕ → M ConnectionManager (Unit {0})
unfolding dead_connections remove_all
cleanup_dead_connections timeout now cm =
    let dead = dead_connections timeout now cm.connections in
    let cleaned = remove_all dead cm in
    if length dead == 0 then (returned tt, cleaned) else logged cm.logger tt cleaned

abbrev and_tick :
    Outcome (Unit {0}) × ConnectionManager
    → M ConnectionManager (Unit {0})
    → Outcome (Unit {0}) × ConnectionManager
and_tick (returned u, cm) rest = rest cm
and_tick (panicked, cm) rest = (panicked, cm)

-- A tick of the checker: what the other goroutines make of the manager before it, since the checker
-- holds the lock during a tick only, and the clock's reading at it.
pub record Tick : Type 0 where
  pub others : ConnectionManager → ConnectionManager
  pub now : ℕ

-- The loop of the checker, until the context is done.
unfoldable pub tick_all : ℤ → List Tick → M ConnectionManager (Unit {0})
unfolding cleanup_dead_connections
tick_all timeout [] cm = (returned tt, cm)
tick_all timeout (tick ∷ ticks) cm =
    and_tick (cleanup_dead_connections timeout tick.now (tick.others cm)) (tick_all timeout ticks)

-- `StartHeartbeatChecker`: `time.NewTicker` panics on an interval that is not positive.
unfoldable pub start_heartbeat_checker : ℤ → ℤ → List Tick → M ConnectionManager (Unit {0})
unfolding tick_all
start_heartbeat_checker interval timeout ticks cm =
    if ltb_ℤ (pos 0) interval then tick_all timeout ticks cm else (panicked, cm)
