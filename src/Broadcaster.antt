-- ===== src/Broadcaster.antt =====
-- server/gateway_ws/internal/manager/broadcaster.go: the broadcaster.
--
-- `process_broadcast_message` works against one snapshot of the connection manager; the source takes
-- its lock once for each lookup, which Interleaved is about. The write deadlines are not modelled.
pub mod Targets
pub mod Sending
pub mod Pool
pub mod Loop
pub mod Interleaved
mod Tests
use zerogame.Shared.{
  ℕ, ◌+◌, ◌<◌, String, Bool, true, false, Option, none, some, List, [], ◌∷◌, ◌++◌, length, ltb,
  if◌then◌else◌, ◌==◌, nat_key, not,
}
use zerogame.Shared.Int.{ℤ, pos, ltb_ℤ, int_key}
use zerogame.Shared.GoMap.{put, keys}
use zerogame.Shared.Effect.{M, Outcome, returned, panicked, logged, Logger, nil}
use zerogame.Message.{Bytes, WebSocketMessage, msg_heartbeat}
use zerogame.Message.Body.{Body}
use zerogame.Message.Failure.{Error, Result, ok, err, Call}
use zerogame.Parser.{MessageParserInterface}
use zerogame.Connection.{
  Conn, ConnectionManager, ClientConnection, RoomConns, get_connection, get_client_connection,
  get_room_connections, get_all_connections,
}
use zerogame.Gateway.{BroadcastMessage, Gateway, Net, G, pure_ok, ◌>>=◌, ◌>>◌, lift}

-- `make(chan *BroadcastMessage, 1000)`.
abbrev pub channel_size : ℕ
channel_size = 1000

-- `Broadcast`: a send on a closed channel panics, and a full channel drops the message.
unfoldable pub broadcast : BroadcastMessage → M Gateway (Unit {0})
broadcast msg g =
    if g.message_ch_closed
    then (panicked, g)
    else if ltb (length g.message_ch) channel_size
    then (returned tt, record g { message_ch = g.message_ch ++ msg ∷ [] })
    else logged g.logger tt g

unfoldable pub broadcast_to_user : ℤ → WebSocketMessage → M Gateway (Unit {0})
broadcast_to_user user_id msg =
    broadcast (record {
      message = msg;
      target_users = user_id ∷ [];
      target_rooms = [];
      exclude_user = pos 0;
    })

unfoldable pub broadcast_to_users : List ℤ → WebSocketMessage → M Gateway (Unit {0})
broadcast_to_users user_ids msg =
    broadcast
      (record { message = msg; target_users = user_ids; target_rooms = []; exclude_user = pos 0 })

unfoldable pub broadcast_to_room : String → WebSocketMessage → ℤ → M Gateway (Unit {0})
broadcast_to_room room_id msg exclude_user = broadcast (record {
  message = msg;
  target_users = [];
  target_rooms = room_id ∷ [];
  exclude_user = exclude_user;
})

unfoldable pub broadcast_to_rooms : List String → WebSocketMessage → M Gateway (Unit {0})
broadcast_to_rooms room_ids msg =
    broadcast
      (record { message = msg; target_users = []; target_rooms = room_ids; exclude_user = pos 0 })

unfoldable pub broadcast_to_all : WebSocketMessage → M Gateway (Unit {0})
broadcast_to_all msg =
    broadcast (record { message = msg; target_users = []; target_rooms = []; exclude_user = pos 0 })

-- The loop over `TargetUsers`.
unfoldable pub user_targets : List ℤ → ConnectionManager → List Conn
user_targets [] cm = []
user_targets (u ∷ us) cm =
    let others = user_targets us cm in
    elim (get_connection u cm) [ none ↦ others | some conn ↦ conn ∷ others ]

-- `roomConns[conn] = true` for each connection of one room.
unfoldable pub mark_all : List Conn → RoomConns → RoomConns
mark_all [] marked = marked
mark_all (c ∷ cs) marked = mark_all cs (put c true marked)

-- The loop over `TargetRooms`.
unfoldable pub mark_rooms : List String → ConnectionManager → RoomConns → RoomConns
unfolding mark_all
mark_rooms [] cm marked = marked
mark_rooms (r ∷ rs) cm marked = mark_rooms rs cm (mark_all (get_room_connections r cm) marked)

-- `clientConn != nil && clientConn.UserID == excludeUser`, which skips the connection of a room.
abbrev pub is_excluded : ℤ → Option ClientConnection → Bool
is_excluded exclude none = false
is_excluded exclude (some client) = client.user_id == exclude

unfoldable pub skip_excluded : ℤ → ConnectionManager → List Conn → List Conn
skip_excluded exclude cm [] = []
skip_excluded exclude cm (c ∷ cs) =
    let others = skip_excluded exclude cm cs in
    if ltb_ℤ (pos 0) exclude
    then (if is_excluded exclude (get_client_connection c cm) then others else c ∷ others)
    else c ∷ others

-- `clientConn != nil && clientConn.UserID != excludeUser`, which keeps the connection of all.
abbrev pub is_other : ℤ → Option ClientConnection → Bool
is_other exclude none = false
is_other exclude (some client) = not (client.user_id == exclude)

unfoldable pub keep_others : ℤ → ConnectionManager → List Conn → List Conn
keep_others exclude cm [] = []
keep_others exclude cm (c ∷ cs) =
    let others = keep_others exclude cm cs in
    if is_other exclude (get_client_connection c cm) then c ∷ others else others

-- `targetConns`.
unfoldable pub target_conns : BroadcastMessage → ConnectionManager → List Conn
unfolding user_targets mark_rooms skip_excluded keep_others
target_conns msg cm =
    if ltb 0 (length msg.target_users)
    then user_targets msg.target_users cm
    else if ltb 0 (length msg.target_rooms)
    then skip_excluded msg.exclude_user cm (keys (mark_rooms msg.target_rooms cm []))
    else if ltb_ℤ (pos 0) msg.exclude_user
    then keep_others msg.exclude_user cm (get_all_connections cm)
    else get_all_connections cm

module _ (net : Net) where
  abbrev pub written : Option Error → Conn → Bytes → G (Unit {0})
  written none conn bytes g = (returned (ok tt), record g { sent = g.sent ++ (conn, bytes) ∷ [] })
  written (some e) conn bytes g = (returned (err e), g)

  -- `sendMessage` and `SendMessage`.
  unfoldable pub send_message : Conn → Bytes → G (Unit {0})
  send_message conn bytes g = written (net.write_error g.sent conn bytes) conn bytes g

  abbrev tally : Outcome (Result (Unit {0})) × Gateway → (ℕ → M Gateway ℕ) → ℕ → Outcome ℕ × Gateway
  tally (returned (ok u), g) rest count = rest (count + 1) g
  tally (returned (err e), g) rest count = elim (g.logger) [
    | nil ↦ (panicked, g)
    | Logger.ready ↦ rest count g
  ]
  tally (panicked, g) rest count = (panicked, g)

  -- The sending loop: a failed write is logged and skipped.
  unfoldable pub send_all : List Conn → Bytes → ℕ → M Gateway ℕ
  unfolding send_message
  send_all [] bytes count g = (returned count, g)
  send_all (c ∷ cs) bytes count g = tally (send_message c bytes g) (λ n. send_all cs bytes n) count

  abbrev pub log_sent : Outcome ℕ × Gateway → Outcome ℕ × Gateway
  log_sent (returned count, g) = logged g.logger count g
  log_sent (panicked, g) = (panicked, g)

  -- The result is `sentCount`, which the source only logs; a message that does not serialise is
  -- logged, and nothing is sent.
  unfoldable pub process_broadcast_message : MessageParserInterface → BroadcastMessage → M Gateway ℕ
  process_broadcast_message parser msg g = elim (parser.serialize_message msg.message) [
    | panicked ↦ (panicked, g)
    | returned r ↦ elim r [
      | err e ↦ logged g.logger 0 g
      | ok bytes ↦ log_sent (send_all (target_conns msg g.conn_mgr) bytes 0 g)
    ]
  ]

  unfoldable pub send_heartbeat_response : MessageParserInterface → Conn → ℤ → G (Unit {0})
  unfolding send_message
  send_heartbeat_response parser conn client_time = do
    msg ← lift (
        parser.create_push_message msg_heartbeat (pos 0) "" ""
          (some (Body.heartbeat (record { client_time = client_time }))))
    bytes ← lift (parser.serialize_message msg)
    send_message conn bytes

  unfoldable pub send_error_response :
      MessageParserInterface → Conn → WebSocketMessage → ℤ → String → G (Unit {0})
  unfolding send_message
  send_error_response parser conn request code text = do
    resp ← lift (parser.create_response request code text none)
    bytes ← lift (parser.serialize_message resp)
    send_message conn bytes
