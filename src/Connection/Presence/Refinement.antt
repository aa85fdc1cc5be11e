-- ===== src/Connection/Presence/Refinement.antt =====
-- The operations of connection.go against what they promise.
use zerogame.Shared.{
  ℕ, ◌≡◌, refl, ap, ◌∙◌, Option, Bool-cases, inl, inr, String, true, not, ◌&&◌, none, some, List,
  [], ◌∷◌, ◌==◌, string_key, nat_key, arith, Option-cases,
}
use zerogame.Shared.Int.{ℤ, int_key}
use zerogame.Shared.Effect.{after, after-logged}
use zerogame.Shared.GoMap.{
  get, delete, get-put, get-delete, length-put_new, length-put_old, length-delete, elem-keys,
}
use zerogame.Connection.Rooms.{vacate_frame}
use zerogame.Connection.Invariant.{WellFormed, seat}
use zerogame.Connection.{
  Conn, ConnectionManager, ClientConnection, add_connection, register, remove_connection,
  remove_connection_internal, join_room, leave_room, take_seat, touch_heartbeat, remove_all,
  dead_connections, new_connection_manager, is_full, new_client, get_client_connection,
  update_heartbeat, get_connection, get_connection_count, get_all_connections,
}
use zerogame.Connection.Presence.{
  Presence, view, enter, exit, move, beat_at, exit_all, seat_of, late, Act, Run, vacant, enters,
  exits, moves, leaves, beats, sweeps, start, go, Shows, sits,
}
use zerogame.Connection.Moves.{remove_connection_internal-WellFormed}
use zerogame.Connection.Lookups.{remove_connection-eq-internal, get_room_connections_exact}
use zerogame.Connection.Cleanup.{dead_entry, elem-dead_connections, dead_connections-Unique}
use zerogame.Connection.Reach.{
  Reach, here, next, Step, add, remove, join, leave, heartbeat, cleanup, Reach-WellFormed,
  cleanup_dead_connections-after,
}
use mathlib.Core.Path.{fun_ext}

same-Presence :
    (p q : Presence)
    → ((c : Conn) → p.held c ≡ q.held c)
    → ((u : ℤ) → p.desk u ≡ q.desk u)
    → p.size ≡ q.size
    → p.limit ≡ q.limit
    → p ≡ q
same-Presence p q held desk size limit =
    λ i. record { held = fun_ext held i; desk = fun_ext desk i; size = size i; limit = limit i }

view-add_connection :
    (cm : ConnectionManager) (c : Conn) (u : ℤ) (now : ℕ)
    → get c cm.connections ≡ none
    → view (after (add_connection c u now cm)) ≡ enter c u now (view cm)
unfolding view enter add_connection register
view-add_connection cm c u now fresh = elim (Bool-cases (is_full cm)) [
  | inl full ↦ rw (full, enter, add_connection, after-logged) refl
  | inr room ↦
      let client = new_client c u now in
      rw (room, enter, add_connection, after-logged)
        (same-Presence _ _ (λ d. ground (arith, get-put c d client cm.connections))
          (λ v. ground (arith, get-put u v c cm.user_connections))
          (ground (arith, length-put_new c client cm.connections fresh)) refl)
]

view-remove_connection_internal :
    (cm : ConnectionManager) (c : Conn)
    → WellFormed cm
    → view (remove_connection_internal c cm) ≡ exit c (view cm)
unfolding view exit remove_connection_internal
view-remove_connection_internal cm c wf = elim (Option-cases (get c cm.connections)) [
  | inl e ↦ rw (e, exit, remove_connection_internal, view)
  | inr (client, e) ↦
      let unlisted = record cm { user_connections = delete client.user_id cm.user_connections } in
      let frame = vacate_frame c client.room_id unlisted (not (client.room_id == "")) in
      rw (e, exit, remove_connection_internal, view)
        (same-Presence _ _ (λ d. ground (arith, frame, get-delete c d cm.connections))
          (λ v. ground (arith, frame, get-delete client.user_id v cm.user_connections))
          (ground (arith, frame, length-delete c cm.connections wf.distinct_connections)) (frame.2))
]

view-remove_connection :
    (cm : ConnectionManager) (c : Conn)
    → WellFormed cm
    → view (after (remove_connection c cm)) ≡ exit c (view cm)
unfolding view
view-remove_connection cm c wf =
    rw (remove_connection-eq-internal cm c) (view-remove_connection_internal cm c wf)

view-join_room :
    (cm : ConnectionManager) (c : Conn) (r : String)
    → view (after (join_room c r cm)) ≡ move c r (view cm)
unfolding view move join_room take_seat
view-join_room cm c r = elim (Option-cases (get c cm.connections)) [
  | inl e ↦ rw (e, join_room, move, view)
  | inr (client, e) ↦
      let frame =
        vacate_frame c client.room_id cm
          (not (client.room_id == "") && not (client.room_id == r)) in
      let client' = record client { room_id = r } in
      rw (e, join_room, after-logged, move, view)
        (same-Presence _ _ (λ d. ground (arith, frame, get-put c d client' cm.connections))
          (λ v. ground (arith, frame))
          (ground (arith, frame, length-put_old c client' cm.connections)) (frame.2))
]

view-leave_room : (cm : ConnectionManager) (c : Conn) → view (leave_room c cm) ≡ move c "" (view cm)
unfolding view move leave_room
view-leave_room cm c = elim (Option-cases (get c cm.connections)) [
  | inl e ↦ rw (e, leave_room, move, view)
  | inr (client, e) ↦
      let frame = vacate_frame c client.room_id cm true in
      let client' = record client { room_id = "" } in
      rw (e, leave_room, move, view)
        (same-Presence _ _ (λ d. ground (arith, frame, get-put c d client' cm.connections))
          (λ v. ground (arith, frame))
          (ground (arith, frame, length-put_old c client' cm.connections)) (ground (arith, frame)))
]

view-touch_heartbeat :
    (cm : ConnectionManager) (c : Conn) (now : ℕ)
    → view (touch_heartbeat c now cm) ≡ beat_at c now (view cm)
unfolding view beat_at touch_heartbeat get_client_connection update_heartbeat
view-touch_heartbeat cm c now = elim (Option-cases (get c cm.connections)) [
  | inl e ↦ rw (e, touch_heartbeat, get_client_connection, beat_at, view)
  | inr (client, e) ↦
      let client' = update_heartbeat now client in
      rw (e, touch_heartbeat, get_client_connection, beat_at, view)
        (same-Presence _ _ (λ d. ground (arith, get-put c d client' cm.connections)) (λ v. refl)
          (ground (arith, length-put_old c client' cm.connections)) refl)
]

view-remove_all :
    (cs : List Conn) (cm : ConnectionManager)
    → WellFormed cm
    → view (remove_all cs cm) ≡ exit_all cs (view cm)
unfolding remove_all exit_all
view-remove_all [] cm wf = refl
view-remove_all (c ∷ cs) cm wf =
    view-remove_all cs (remove_connection_internal c cm)
      (remove_connection_internal-WellFormed cm c wf)
    ∙ ap (exit_all cs) (view-remove_connection_internal cm c wf)

late-dead_entry :
    (timeout : ℤ) (now : ℕ) (e : Option ClientConnection)
    → dead_entry timeout now e ≡ late timeout now (seat_of e)
late-dead_entry timeout now none = refl
late-dead_entry timeout now (some client) = refl

Step-Act : {cm cm' : ConnectionManager} → Step cm cm' → WellFormed cm → Act (view cm) (view cm')
unfolding view
Step-Act {cm} (add c u now fresh) wf =
    rw (view-add_connection cm c u now fresh) (enters c u now (ap seat_of fresh))
Step-Act {cm} (remove c) wf = rw (view-remove_connection cm c wf) (exits c)
Step-Act {cm} (join c r named) wf = rw (view-join_room cm c r) (moves c r named)
Step-Act {cm} (leave c) wf = rw (view-leave_room cm c) (leaves c)
Step-Act {cm} (heartbeat c now) wf = rw (view-touch_heartbeat cm c now) (beats c now)
Step-Act {cm} (cleanup timeout now) wf =
    let m = cm.connections in
    let dead = dead_connections timeout now m in
    rw (cleanup_dead_connections-after cm timeout now, view-remove_all dead cm wf)
      (sweeps timeout now dead (dead_connections-Unique timeout now m wf.distinct_connections) (λ c.
        elem-dead_connections timeout now m c wf.distinct_connections
        ∙ late-dead_entry timeout now (get c m)))

Reach-Run :
    (max : ℤ) {cm : ConnectionManager}
    → Reach (new_connection_manager max) cm
    → Run (vacant max) (view cm)
unfolding view new_connection_manager get
Reach-Run max here = start
Reach-Run max (next r st) = go (Reach-Run max r) (Step-Act st (Reach-WellFormed max r))

seat-sits : (e : Option ClientConnection) (r : String) → seat e r ≡ sits (seat_of e) r
seat-sits none r = refl
seat-sits (some client) r = refl

view-Shows : (cm : ConnectionManager) → WellFormed cm → Shows cm (view cm)
unfolding view get_connection get_connection_count get_all_connections
view-Shows cm wf = record {
  reached = λ u. refl;
  counted = refl;
  listed = λ c. ground (arith, elem-keys c cm.connections);
  seated = λ r c. (get_room_connections_exact cm r wf).0 c ∙ seat-sits (get c cm.connections) r;
  once = λ r. (get_room_connections_exact cm r wf).1;
}

-- The connection manager implements `Presence`. Whatever calls lead from `NewConnectionManager` to a
-- manager, where no connection is added while it is held and every room joined has a name, a run of
-- `Presence` from the vacant one with the same limit leads to its view; and there every lookup
-- answers as the view says: the connection of a user, the number of connections, the list of all
-- connections, and the list of a room, in which each stands once.
pub presence_refines :
    (max : ℤ) {cm : ConnectionManager}
    → Reach (new_connection_manager max) cm
    → Run (vacant max) (view cm) × Shows cm (view cm)
presence_refines max {cm} r = (Reach-Run max r, view-Shows cm (Reach-WellFormed max r))
