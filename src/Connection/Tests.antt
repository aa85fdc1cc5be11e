-- ===== src/Connection/Tests.antt =====
-- connection.go on concrete managers.
use zerogame.Connection.Presence.{Run, vacant, view, Shows}
use zerogame.Connection.Presence.Refinement.{presence_refines}
use zerogame.Shared.{
  true, ◌≡◌, refl, false, none, some, [], ◌∷◌, ◌++◌, elem, Unique, if◌then◌else◌, nat_key,
  string_key, ℕ_discrete, String_discrete, arith,
}
use zerogame.Shared.Int.{pos, int_key, ℤ_discrete}
use zerogame.Shared.Effect.{after, ready}
use zerogame.Shared.GoMap.{get, put}
use zerogame.Connection.{
  Conn, ConnectionManager, ClientConnection, new_connection_manager, new_client, is_full, register,
  add_connection, remove_connection, get_connection, get_client_connection, take_seat, join_room,
  dead_connections, cleanup_dead_connections,
}
use zerogame.Connection.Invariant.{WellFormed}
use zerogame.Connection.Reach.{Reach, here, next, add, join, Reach-WellFormed}
use zerogame.Connection.Cleanup.{dead_entry, cleanup_dead_connections_exact}
use zerogame.Connection.Rooms.{in_room}
use zerogame.Connection.Defects.{remove_connection_orphans, add_connection_twice_leaks}

-- Two connections of one user, the first of them in a room, as the constructor and four calls leave
-- them.
abbrev empty : ConnectionManager
empty = new_connection_manager (pos 3)

abbrev one : ConnectionManager
one = after (add_connection 7 (pos 10) 100 empty)

abbrev two : ConnectionManager
two = after (add_connection 8 (pos 10) 200 one)

abbrev pub seated : ConnectionManager
seated = after (join_room 7 "lobby" two)

abbrev first : ClientConnection
first = record (new_client 7 (pos 10) 100) { room_id = "lobby" }

abbrev second : ClientConnection
second = new_client 8 (pos 10) 200

one_fresh : get 8 one.connections ≡ none
unfolding add_connection register new_connection_manager get put ℕ_discrete
one_fresh = refl

empty_fresh : get 7 empty.connections ≡ none
unfolding new_connection_manager get
empty_fresh = refl

pub seated-Reach : Reach empty seated
seated-Reach =
    next (next (next here (add 7 (pos 10) 100 empty_fresh)) (add 8 (pos 10) 200 one_fresh))
      (join 7 "lobby" cc)

pub seated-WellFormed : WellFormed seated
seated-WellFormed = Reach-WellFormed (pos 3) seated-Reach

first_held : get 7 seated.connections ≡ some first
unfolding add_connection register new_connection_manager get put ℕ_discrete join_room take_seat
    String_discrete
first_held = refl

second_held : get 8 seated.connections ≡ some second
unfolding add_connection register new_connection_manager get put ℕ_discrete join_room take_seat
    String_discrete
second_held = refl

-- With the one user's two connections only the second is found.
first_user_second : get_connection (pos 10) seated ≡ some 8
unfolding get_connection add_connection register new_connection_manager get put ℕ_discrete
    ℤ_discrete join_room take_seat String_discrete
first_user_second = refl

Reach-WellFormed_example : WellFormed seated
Reach-WellFormed_example = Reach-WellFormed (pos 3) seated-Reach

-- A second after the first connection's only heartbeat it is dead, and the second is not.
dead_first : dead_connections (pos 850) 1000 seated.connections ≡ 7 ∷ []
unfolding add_connection register new_connection_manager get put ℕ_discrete join_room take_seat
    dead_connections String_discrete
dead_first = refl

cleanup_dead_connections_exact_example :
    let dead = dead_connections (pos 850) 1000 seated.connections in
    let cleaned = after (cleanup_dead_connections (pos 850) 1000 seated) in
    ((c : Conn)
      → get c cleaned.connections ≡ (
          if dead_entry (pos 850) 1000 (get c seated.connections)
          then none
          else get c seated.connections))
    × (cleaned.closed ≡ seated.closed ++ dead)
    × ((c : Conn) → elem c dead ≡ dead_entry (pos 850) 1000 (get c seated.connections))
    × Unique dead
cleanup_dead_connections_exact_example =
    cleanup_dead_connections_exact seated (pos 850) 1000 seated-WellFormed

remove_connection_orphans_example :
    let removed = after (remove_connection 7 seated) in
    (get_connection (pos 10) removed ≡ none) × (get_client_connection 8 removed ≡ some second)
remove_connection_orphans_example =
    remove_connection_orphans seated 7 8 first second first_held second_held
      (λ e. absurd (omega (arith, e))) refl

seated_room : is_full seated ≡ false
unfolding add_connection register new_connection_manager get put ℕ_discrete join_room take_seat
    String_discrete
seated_room = refl

add_connection_twice_leaks_example :
    let gone = after (remove_connection 7 (after (add_connection 7 (pos 10) 300 seated))) in
    (in_room gone "lobby" 7 ≡ true) × (get_client_connection 7 gone ≡ none)
add_connection_twice_leaks_example =
    add_connection_twice_leaks seated seated-WellFormed 7 (pos 10) 300 first first_held (cc)
      seated_room

presence_refines_example : Run (vacant (pos 3)) (view seated) × Shows seated (view seated)
presence_refines_example = presence_refines (pos 3) seated-Reach

-- The same two connections, with a logger.
abbrev live : ConnectionManager
live = record seated { logger = ready }

live-WellFormed : WellFormed live
unfolding in_room
live-WellFormed =
    let wf = seated-WellFormed in
    record {
      seats = wf.seats;
      tidy = wf.tidy;
      users_live = wf.users_live;
      own_conn = wf.own_conn;
      distinct_connections = wf.distinct_connections;
      distinct_users = wf.distinct_users;
      bounded = wf.bounded;
    }
