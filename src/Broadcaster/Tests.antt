-- ===== src/Broadcaster/Tests.antt =====
-- broadcaster.go on the manager of the connection manager's tests.
use zerogame.Shared.{false, ◌<◌, zero, suc, ◌<◌, Bool, string_key}
use zerogame.Connection.{ConnectionManager, new_connection_manager, leave_room}
use zerogame.Connection.Invariant.{seat}
use zerogame.Connection.Tests.{seated-Reach}
use zerogame.Connection.Reach.{Reach, next, leave}
use zerogame.Broadcaster.Interleaved.{targets_over}
use zerogame.Broadcaster.Interleaved.Rooms.{targets_over_rooms}
use zerogame.Shared.{ℕ, ◌+◌}
use zerogame.Broadcaster.Pool.{WorkerPool, new_worker_pool}
use zerogame.Broadcaster.Loop.{
  Case, Pump, process_messages, pump, process_messages_ends, is_over, process_messages_panics,
  stop_broadcaster,
}
use zerogame.Shared.{
  ◌≡◌, ◌≤◌, refl, String, true, false, not, ◌&&◌, Option, none, some, List, [], ◌∷◌, length, elem,
  Unique, nat_key, arith, if◌then◌else◌, ◌==◌,
}
use zerogame.Shared.Int.{pos}
use zerogame.Shared.Effect.{panicked, after, result_of, returned, Logger, ready}
use zerogame.Shared.GoMap.{get}
use zerogame.Message.Failure.{Error, library, success}
use zerogame.Parser.{MessageParserInterface}
use zerogame.Parser.Json.{json_interface, new_message_parser}
use zerogame.Parser.Json
use zerogame.Shared.{String_discrete, ℕ_discrete}
use zerogame.Shared.Int.{ℤ_discrete}
use zerogame.Parser.Tests.{sample_codec, beat_message}
use zerogame.Connection.{Conn}
use zerogame.Connection.Tests.{seated, seated-WellFormed}
use zerogame.Gateway.{BroadcastMessage, Gateway, Net}
use zerogame.Broadcaster.{broadcast, channel_size, target_conns, process_broadcast_message}
use zerogame.Broadcaster.Targets.{seat_among, shut_out, target_conns_rooms}
use zerogame.Broadcaster.Sending.{delivered, process_broadcast_message_delivers, broadcast_queue}

abbrev to_rooms : List String → BroadcastMessage
to_rooms rooms = record {
  message = beat_message;
  target_users = [];
  target_rooms = rooms;
  exclude_user = pos 20;
}

abbrev to_user : BroadcastMessage
to_user = record {
  message = beat_message;
  target_users = pos 10 ∷ [];
  target_rooms = [];
  exclude_user = pos 0;
}

-- Writes to connection 7 fail.
abbrev seven_fails : Conn → Option Error
seven_fails c = if c == 7 then some (library "broken pipe") else none

abbrev flaky : Net
flaky = record { write_error = λ sent c b. seven_fails c }

abbrev gateway : Logger → Gateway
gateway logger = record {
  conn_mgr = seated;
  message_ch = to_user ∷ [];
  message_ch_closed = false;
  task_queue_closed = false;
  logger = logger;
  sent = [];
}

abbrev parser : MessageParserInterface
parser = json_interface sample_codec new_message_parser

target_conns_rooms_example :
    ((c : Conn)
      → elem c (target_conns (to_rooms ("lobby" ∷ "lobby" ∷ [])) seated) ≡ (
          seat_among (get c seated.connections) ("lobby" ∷ "lobby" ∷ [])
          && not (shut_out (pos 20) (get c seated.connections))))
    × Unique (target_conns (to_rooms ("lobby" ∷ "lobby" ∷ [])) seated)
target_conns_rooms_example =
    target_conns_rooms seated (to_rooms ("lobby" ∷ "lobby" ∷ [])) seated-WellFormed refl (cc)

beat_serialises : parser.serialize_message beat_message ≡ success (0 ∷ 5 ∷ 42 ∷ [])
unfolding Json.serialize_message String_discrete ℤ_discrete ℕ_discrete
beat_serialises = refl

process_broadcast_message_delivers_example :
    let frames = delivered flaky [] (target_conns (to_rooms []) seated) (0 ∷ 5 ∷ 42 ∷ []) in
    process_broadcast_message flaky parser (to_rooms []) (gateway ready)
    ≡ (returned (length frames), record (gateway ready) { sent = frames })
process_broadcast_message_delivers_example =
    process_broadcast_message_delivers flaky parser (to_rooms []) (gateway ready) (0 ∷ 5 ∷ 42 ∷ [])
      refl beat_serialises

broadcast_queue_example :
    let g' = after (broadcast (to_rooms []) (gateway ready)) in
    (length g'.message_ch ≤ channel_size)
    × (false ≡ true → broadcast (to_rooms []) (gateway ready) ≡ (panicked, gateway ready))
    × (false ≡ false
        → 1 < channel_size
        → broadcast (to_rooms []) (gateway ready)
          ≡ (returned tt, record (gateway ready) { message_ch = to_user ∷ to_rooms [] ∷ [] }))
    × (false ≡ false
        → 1 ≡ channel_size
        → broadcast (to_rooms []) (gateway ready) ≡ (returned tt, gateway ready))
broadcast_queue_example = broadcast_queue (to_rooms []) (gateway ready) (omega arith)

-- A pool of one worker with room for two tasks, and three messages that wait.
abbrev small_pool : WorkerPool ℕ
small_pool = new_worker_pool ℕ 1 2

small_pool_open : small_pool.queue_closed ≡ false
unfolding new_worker_pool
small_pool_open = refl

small_pool_room : length small_pool.task_queue + 2 ≡ small_pool.queue_size
unfolding new_worker_pool
small_pool_room = refl

process_messages_ends_example :
    is_over (
      result_of (
        process_messages ℕ
          (Case.message ∷ Case.message ∷ Case.message ∷ [])
          (pump (10 ∷ 20 ∷ []) true small_pool)))
    ≡ true
process_messages_ends_example =
    process_messages_ends (10 ∷ 20 ∷ []) small_pool
      (Case.message ∷ Case.message ∷ Case.message ∷ []) (omega arith)

-- The pump of a new broadcaster, with one message.
abbrev one_waits : Pump ℕ
one_waits = pump (10 ∷ []) false small_pool

process_messages_panics_example :
    result_of (process_messages ℕ (Case.message ∷ []) (after (stop_broadcaster ℕ one_waits)))
    ≡ panicked
process_messages_panics_example =
    process_messages_panics one_waits (λ e. cc e) refl small_pool_open []

-- Connection 7 leaves the room after the first lookup.
abbrev views : ℕ → ConnectionManager
views zero = seated
views (suc n) = leave_room 7 seated

views-Reach : (n : ℕ) → Reach (new_connection_manager (pos 3)) (views n)
views-Reach zero = seated-Reach
views-Reach (suc n) = next seated-Reach (leave 7)

abbrev to_lobby : BroadcastMessage
to_lobby = to_rooms ("lobby" ∷ "lobby" ∷ [])

targets_over_rooms_example :
    let targets = targets_over views to_lobby in
    let shut : ℕ → Conn → Bool = λ n c. shut_out (pos 20) (get c (views n).connections) in
    ((c : Conn) (r : String)
      → elem r to_lobby.target_rooms ≡ true
      → ((n : ℕ) → seat (get c (views n).connections) r ≡ true)
      → ((n : ℕ) → shut n c ≡ false)
      → elem c targets ≡ true)
    × ((c : Conn)
        → elem c targets ≡ true
        → (k m : ℕ) × (r : String) × (k < length to_lobby.target_rooms)
          × (length to_lobby.target_rooms ≤ m)
          × (elem r to_lobby.target_rooms ≡ true)
          × (seat (get c (views k).connections) r ≡ true)
          × (shut m c ≡ false))
    × Unique targets
    × ((cm : ConnectionManager) → targets_over (λ n. cm) to_lobby ≡ target_conns to_lobby cm)
targets_over_rooms_example =
    targets_over_rooms (pos 3) views to_lobby views-Reach refl (omega arith)
