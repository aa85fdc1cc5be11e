-- ===== src/System/KeepAlive.antt =====
-- Which clients the heartbeat checker leaves alone: the messages of all clients, the connections
-- that go and the ticks, in any order.
use zerogame.Shared.{
  ap, String, ℕ, ◌≡◌, inl, inr, Option-cases, Bool-cases, Bool, true, false, not, ◌&&◌, Option,
  none, some, List, [], ◌∷◌, if◌then◌else◌, ◌==◌, arith, nat_key, string_key,
}
use zerogame.Shared.Int.{ℤ, pos, ltb_ℤ, sub_ℕ}
use zerogame.Shared.GoMap.{get, Distinct, get-put}
use zerogame.Shared.Effect.{after, after-logged}
use zerogame.Message.Body.{Body}
use zerogame.Connection.{
  Conn, ConnectionManager, ClientConnection, register, add_connection, remove_connection, join_room,
  leave_room, take_seat, touch_heartbeat, update_heartbeat, get_client_connection,
  cleanup_dead_connections, dead_connections, new_client,
}
use zerogame.Connection.Rooms.{vacate_frame, leave_room_internal_frame}
use zerogame.Connection.Lookups.{get-remove_connection_internal, remove_connection-eq-internal}
use zerogame.Connection.Reach.{cleanup_dead_connections-after}
use zerogame.Connection.Cleanup.{get-remove_all, elem-dead_connections}
use zerogame.Handler.ManagerChanges.{mgr_change}
use zerogame.System.Sound.{Sound}
use zerogame.System.Sound.Held.{remove_connection-Sound, cleanup_dead_connections-Sound}
use zerogame.System.Reachable.{mgr_change-Sound}

-- A client's message whose handler ran at a time, the end of a connection, and a tick of the checker
-- with its timeout at a time.
pub data Turn : Type 0 where
  message : Conn → ℕ → Body → Turn
  gone : Conn → Turn
  tick : ℤ → ℕ → Turn

abbrev pub take_turn : Turn → ConnectionManager → ConnectionManager
take_turn (message d now body) cm = mgr_change body d now cm
take_turn (gone d) cm = after (remove_connection d cm)
take_turn (tick timeout now) cm = after (cleanup_dead_connections timeout now cm)

abbrev pub take_turns : List Turn → ConnectionManager → ConnectionManager
take_turns [] cm = cm
take_turns (t ∷ ts) cm = take_turns ts (take_turn t cm)

-- The message is neither a login nor a logout.
abbrev stays_logged_in : Body → Bool
stays_logged_in (Body.login m) = false
stays_logged_in Body.logout = false
stays_logged_in _ = true

-- The client itself neither logs in again, nor out, nor goes, and no tick finds its last beat more
-- than the timeout back.
abbrev pub spares : Conn → ℕ → Turn → Bool
spares c last (message d now body) = if d == c then stays_logged_in body else true
spares c last (gone d) = not (d == c)
spares c last (tick timeout now) = not (ltb_ℤ timeout (sub_ℕ now last))

-- The time of the client's last beat after the turn.
abbrev beat_after : Conn → ℕ → Turn → ℕ
beat_after c last (message d now (Body.heartbeat m)) = if d == c then now else last
beat_after c last _ = last

abbrev pub keeps_beating : Conn → ℕ → List Turn → Bool
keeps_beating c last [] = true
keeps_beating c last (t ∷ ts) = spares c last t && keeps_beating c (beat_after c last t) ts

abbrev pub beat_of : Option ClientConnection → Option ℕ
beat_of none = none
beat_of (some client) = some client.last_heartbeat

-- The connection is held, and its last beat was then.
abbrev pub HeldSince : Conn → ℕ → ConnectionManager → Type 0
HeldSince c last cm = beat_of (get c cm.connections) ≡ some last

module _ (cm : ConnectionManager) (c : Conn) (last : ℕ) (held : HeldSince c last cm)
    (d : Conn) where
  touch-HeldSince :
      (now : ℕ) → HeldSince c (if d == c then now else last) (touch_heartbeat d now cm)
  unfolding touch_heartbeat update_heartbeat get_client_connection
  touch-HeldSince now = elim (Option-cases (get d cm.connections)) [
    | inl e ↦ rw (e, touch_heartbeat) (ground (arith, held, e))
    | inr (client, e) ↦
        rw (e, touch_heartbeat)
          (ground (arith, held, get-put d c (update_heartbeat now client) cm.connections))
  ]

  add-HeldSince :
      (now : ℕ) → (d == c) ≡ false → HeldSince c last (after (add_connection d (pos 1) now cm))
  unfolding add_connection register
  add-HeldSince now other =
      ground (arith, held, other, get-put d c (new_client d (pos 1) now) cm.connections)

  remove-HeldSince : (d == c) ≡ false → HeldSince c last (after (remove_connection d cm))
  remove-HeldSince other =
      rw (remove_connection-eq-internal cm d)
        (ground (arith, held, other, get-remove_connection_internal cm d c))

  join-HeldSince : (r : String) → HeldSince c last (after (join_room d r cm))
  unfolding join_room take_seat
  join-HeldSince r = elim (Option-cases (get d cm.connections)) [
    | inl e ↦ rw (e, join_room) held
    | inr (client, e) ↦
        let frame =
          vacate_frame d client.room_id cm
            (not (client.room_id == "") && not (client.room_id == r)) in
        rw (e, join_room, after-logged, frame.0)
          (ground (arith, held, e, get-put d c (record client { room_id = r }) cm.connections))
  ]

  leave-HeldSince : HeldSince c last (leave_room d cm)
  unfolding leave_room
  leave-HeldSince = elim (Option-cases (get d cm.connections)) [
    | inl e ↦ rw (e, leave_room) held
    | inr (client, e) ↦ elim (Bool-cases (client.room_id == "")) [
      | inl out ↦ rw (e, leave_room, out) held
      | inr named ↦
          rw (e, leave_room, named, (leave_room_internal_frame d client.room_id cm).0)
            (ground (arith, held, e, get-put d c (record client { room_id = "" }) cm.connections))
    ]
  ]

tick-HeldSince :
    (cm : ConnectionManager) (c : Conn) (last : ℕ) (timeout : ℤ) (now : ℕ)
    → Distinct cm.connections
    → HeldSince c last cm
    → ltb_ℤ timeout (sub_ℕ now last) ≡ false
    → HeldSince c last (after (cleanup_dead_connections timeout now cm))
tick-HeldSince cm c last timeout now d held fresh =
    rw (cleanup_dead_connections-after cm timeout now) (
      ground (
        arith,
        held,
        fresh,
        get-remove_all (dead_connections timeout now cm.connections) cm c,
        elem-dead_connections timeout now cm.connections c d,
      ))

module _ (cm : ConnectionManager) (c : Conn) (last : ℕ) (held : HeldSince c last cm) where
  message-HeldSince :
      (d : Conn) (now : ℕ) (body : Body)
      → spares c last (message d now body) ≡ true
      → HeldSince c (beat_after c last (message d now body)) (mgr_change body d now cm)
  message-HeldSince d now (Body.heartbeat m) e = touch-HeldSince cm c last held d now
  message-HeldSince d now (Body.login m) e = add-HeldSince cm c last held d now (ground arith)
  message-HeldSince d now Body.logout e = remove-HeldSince cm c last held d (ground arith)
  message-HeldSince d now (Body.join_room m) e = join-HeldSince cm c last held d m.room_id
  message-HeldSince d now (Body.leave_room m) e = leave-HeldSince cm c last held d
  message-HeldSince d now _ e = held

  turn-HeldSince :
      (t : Turn)
      → Sound cm
      → spares c last t ≡ true
      → HeldSince c (beat_after c last t) (take_turn t cm)
  turn-HeldSince (message d now body) s e = message-HeldSince d now body e
  turn-HeldSince (gone d) s e = remove-HeldSince cm c last held d (ground arith)
  turn-HeldSince (tick timeout now) s e =
      tick-HeldSince cm c last timeout now s.distinct_connections held (ground arith)

pub turn-Sound : (t : Turn) (cm : ConnectionManager) → Sound cm → Sound (take_turn t cm)
turn-Sound (message d now body) cm s = mgr_change-Sound body d now cm s
turn-Sound (gone d) cm s = remove_connection-Sound cm s d
turn-Sound (tick timeout now) cm s = cleanup_dead_connections-Sound cm timeout now s

-- A client whose heartbeats come often enough stays: on a manager as any run of the gateway leaves
-- it, and whatever the other clients send, join, leave and close in between, a connection that is
-- held is still held after all the turns, if it does not log in again, log out or go itself, and if
-- at each tick its last heartbeat message lies no more than that tick's timeout back.
pub beating_client_stays :
    (ts : List Turn) (cm : ConnectionManager) (c : Conn) (client : ClientConnection)
    → Sound cm
    → get c cm.connections ≡ some client
    → keeps_beating c client.last_heartbeat ts ≡ true
    → (client' : ClientConnection) × (get c (take_turns ts cm).connections ≡ some client')
beating_client_stays ts cm c client s e beats =
    elim (Option-cases (get c (take_turns ts cm).connections)) [
      | inl n ↦ absurd (none_left n (kept ts cm client.last_heartbeat s (ap beat_of e) beats))
      | inr found ↦ found
    ]
  where
    kept :
        (ts : List Turn) (cm : ConnectionManager) (last : ℕ)
        → Sound cm
        → HeldSince c last cm
        → keeps_beating c last ts ≡ true
        → (at : ℕ) × HeldSince c at (take_turns ts cm)
    kept [] cm last s held beats = (last, held)
    kept (t ∷ ts) cm last s held beats =
        kept ts (take_turn t cm) (beat_after c last t) (turn-Sound t cm s)
          (turn-HeldSince cm c last held t s (ground arith)) (ground arith)

    none_left :
        get c (take_turns ts cm).connections ≡ none
        → ¬ ((at : ℕ) × HeldSince c at (take_turns ts cm))
    none_left n (at, held) = cc (n, held)
