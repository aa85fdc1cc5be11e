-- ===== src/Connection/Defects.antt =====
-- Where connection.go does not do what it means to: the logger that is never set, one user on two
-- connections, a second login of one connection, and a room with the empty name.
use zerogame.Shared.{
  ℕ, ◌≡◌, refl, ◌∙◌, ◌≢◌, inl, inr, String, true, false, not, ◌&&◌, none, some, List, [], ◌∷◌,
  if◌then◌else◌, ◌==◌, string_key, nat_key, arith, Option-cases,
}
use zerogame.Shared.Int.{ℤ, int_key}
use zerogame.Shared.Effect.{after, after-logged, panicked, nil}
use zerogame.Shared.GoMap.{get, delete, get-put, get-delete}
use zerogame.Connection.Rooms.{in_room, vacate_frame, in_room-take_seat}
use zerogame.Connection.Invariant.{WellFormed}
use zerogame.Connection.Lookups.{
  users-remove_connection_internal, in_room-remove_connection_internal,
  remove_connection-eq-internal, get-remove_connection_internal,
}
use zerogame.Connection.Reach.{
  Step, add, remove, join, leave, heartbeat, cleanup, Reach, here, next,
  cleanup_dead_connections-after,
}
use zerogame.Connection.{
  Conn, ConnectionManager, ClientConnection, new_connection_manager, new_client, is_full, register,
  add_connection, leave_room_internal, remove_connection, get_connection, touch_heartbeat,
  get_client_connection, take_seat, join_room, leave_room, remove_connection_internal, remove_all,
}

logger-remove_connection_internal :
    (cm : ConnectionManager) (c : Conn) → (remove_connection_internal c cm).logger ≡ cm.logger
unfolding remove_connection_internal
logger-remove_connection_internal cm c = elim (Option-cases (get c cm.connections)) [
  | inl e ↦ rw (e, remove_connection_internal)
  | inr (client, e) ↦
      let unlisted = record cm { user_connections = delete client.user_id cm.user_connections } in
      rw (e, remove_connection_internal)
        (vacate_frame c client.room_id unlisted (not (client.room_id == ""))).3
]

logger-remove_all :
    (cs : List Conn) (cm : ConnectionManager) → (remove_all cs cm).logger ≡ cm.logger
unfolding remove_all
logger-remove_all [] cm = refl
logger-remove_all (c ∷ cs) cm = logger-remove_all cs _ ∙ logger-remove_connection_internal cm c

pub logger-join_room :
    (cm : ConnectionManager) (c : Conn) (r : String) → (after (join_room c r cm)).logger ≡ cm.logger
unfolding join_room take_seat
logger-join_room cm c r = elim (Option-cases (get c cm.connections)) [
  | inl e ↦ rw (e, join_room)
  | inr (client, e) ↦
      rw (e, join_room, after-logged)
        (vacate_frame c client.room_id cm
          (not (client.room_id == "") && not (client.room_id == r))).3
]

logger-leave_room : (cm : ConnectionManager) (c : Conn) → (leave_room c cm).logger ≡ cm.logger
unfolding leave_room leave_room_internal
logger-leave_room cm c = ground arith

logger-touch_heartbeat :
    (cm : ConnectionManager) (c : Conn) (now : ℕ) → (touch_heartbeat c now cm).logger ≡ cm.logger
unfolding touch_heartbeat
logger-touch_heartbeat cm c now = ground arith

pub logger-add_connection :
    (cm : ConnectionManager) (c : Conn) (u : ℤ) (now : ℕ)
    → (after (add_connection c u now cm)).logger ≡ cm.logger
unfolding add_connection register
logger-add_connection cm c u now = ground arith

-- No call sets the logger.
pub logger-Step : {cm cm' : ConnectionManager} → Step cm cm' → cm'.logger ≡ cm.logger
logger-Step {cm} (add c u now fresh) = logger-add_connection cm c u now
logger-Step {cm} (remove c) =
    rw (remove_connection-eq-internal cm c) (logger-remove_connection_internal cm c)
logger-Step {cm} (join c r named) = logger-join_room cm c r
logger-Step {cm} (leave c) = logger-leave_room cm c
logger-Step {cm} (heartbeat c now) = logger-touch_heartbeat cm c now
logger-Step {cm} (cleanup timeout now) =
    rw (cleanup_dead_connections-after cm timeout now) (logger-remove_all _ cm)

pub logger-Reach :
    (max : ℤ) {cm : ConnectionManager} → Reach (new_connection_manager max) cm → cm.logger ≡ nil
unfolding new_connection_manager
logger-Reach max here = refl
logger-Reach max (next r st) = logger-Step st ∙ logger-Reach max r

-- In every manager that `NewConnectionManager` and any calls lead to, `AddConnection` panics at its
-- log line: at the limit it has then changed nothing, and below it the connection is registered
-- though the caller never gets it.
pub add_connection_panics :
    (max : ℤ) {cm : ConnectionManager} (c : Conn) (u : ℤ) (now : ℕ)
    → Reach (new_connection_manager max) cm
    → add_connection c u now cm ≡ (panicked, (if is_full cm then cm else register c u now cm))
unfolding add_connection
add_connection_panics max {cm} c u now r = ground (arith, logger-Reach max r)

-- Removing a connection whose record names no room leaves the rooms as they are.
in_room_kept :
    (cm : ConnectionManager) (c : Conn) (client : ClientConnection)
    → get c cm.connections ≡ some client
    → client.room_id ≡ ""
    → (q : String)
    → in_room (record (remove_connection_internal c cm) { closed = cm.closed }) q c ≡ in_room cm q c
unfolding in_room
in_room_kept cm c client held nowhere q =
    ground (arith, in_room-remove_connection_internal cm c client held q c)

get-register :
    (cm : ConnectionManager) (c : Conn) (u : ℤ) (now : ℕ)
    → get c (register c u now cm).connections ≡ some (new_client c u now)
unfolding register
get-register cm c u now = ground (arith, get-put c c (new_client c u now) cm.connections)

in_room-register :
    (cm : ConnectionManager) (c : Conn) (u : ℤ) (now : ℕ) (q : String)
    → in_room (register c u now cm) q c ≡ in_room cm q c
unfolding in_room register
in_room-register cm c u now q = refl

add_connection-register :
    (cm : ConnectionManager) (c : Conn) (u : ℤ) (now : ℕ)
    → is_full cm ≡ false
    → after (add_connection c u now cm) ≡ register c u now cm
unfolding add_connection
add_connection-register cm c u now room =
    rw room (after-logged cm.logger (some (new_client c u now)) (register c u now cm))

module _ (cm : ConnectionManager) where
  -- On any manager, when one user holds two connections, removing either leaves the user with none to be found by,
  -- though the other connection is still held.
  pub remove_connection_orphans :
      (c d : Conn) (first second : ClientConnection)
      → get c cm.connections ≡ some first
      → get d cm.connections ≡ some second
      → c ≢ d
      → first.user_id ≡ second.user_id
      → let removed = after (remove_connection c cm) in
        (get_connection second.user_id removed ≡ none)
        × (get_client_connection d removed ≡ some second)
  unfolding get_connection get_client_connection
  remove_connection_orphans c d first second hc hd ne same =
      rw (remove_connection-eq-internal cm c) (
        rw (users-remove_connection_internal cm c first hc)
            (ground (arith, get-delete first.user_id second.user_id cm.user_connections)),
        ground (arith, get-remove_connection_internal cm c d),
      )

  -- On a well formed manager, a held connection that sits in a room, is added again below the limit
  -- and then removed is left in the room's set, though it is not held any more.
  pub add_connection_twice_leaks :
      WellFormed cm
      → (c : Conn) (u : ℤ) (now : ℕ) (client : ClientConnection)
      → get c cm.connections ≡ some client
      → client.room_id ≢ ""
      → is_full cm ≡ false
      → let gone = after (remove_connection c (after (add_connection c u now cm))) in
        (in_room gone client.room_id c ≡ true) × (get_client_connection c gone ≡ none)
  unfolding get_client_connection
  add_connection_twice_leaks wf c u now client held named room =
      let again = register c u now cm in
      rw (add_connection-register cm c u now room, remove_connection-eq-internal again c)
        (
          in_room_kept again c (new_client c u now) (get-register cm c u now) refl client.room_id
              ∙ in_room-register cm c u now client.room_id
              ∙ ground (arith, wf.seats client.room_id c),
          ground (arith, get-remove_connection_internal again c c),
        )

-- A held connection that joins the room with the empty name and is then removed stays in that
-- room's set, though it is not held any more.
pub join_room_empty_leaks :
    (cm : ConnectionManager) (c : Conn) (client : ClientConnection)
    → get c cm.connections ≡ some client
    → let gone = after (remove_connection c (after (join_room c "" cm))) in
      (in_room gone "" c ≡ true) × (get_client_connection c gone ≡ none)
unfolding get_client_connection join_room
join_room_empty_leaks cm c client held =
    let left =
      if not (client.room_id == "") && not (client.room_id == "")
      then leave_room_internal c client.room_id cm
      else cm in
    let seated = take_seat c "" client left in
    rw (held, join_room, after-logged, remove_connection-eq-internal seated c)
      (
        in_room_kept seated c (record client { room_id = "" })
              (unfold take_seat in
                ground (arith, get-put c c (record client { room_id = "" }) left.connections))
              refl ""
            ∙ ground (arith, in_room-take_seat c "" left client "" c),
        ground (arith, get-remove_connection_internal seated c c),
      )
