-- ===== src/System/Silence.antt =====
-- Which clients the heartbeat checker of connection.go drops, while the others go on.
use zerogame.Shared.{
  String, ℕ, ◌≡◌, refl, ◌∙◌, inl, inr, Option-cases, Bool-cases, Bool, true, false, not, ◌&&◌, ◌||◌,
  Option, none, some, List, [], ◌∷◌, if◌then◌else◌, ◌==◌, arith, nat_key, string_key,
}
use zerogame.Shared.Int.{ℤ, pos, ltb_ℤ, sub_ℕ}
use zerogame.Shared.GoMap.{get, Distinct, get-put}
use zerogame.Shared.Effect.{ready, returned, after, after-logged, result_of}
use zerogame.Message.Body.{Body}
use zerogame.Connection.{
  Conn, ConnectionManager, ClientConnection, Tick, register, add_connection, remove_connection,
  join_room, leave_room, take_seat, touch_heartbeat, update_heartbeat, get_client_connection,
  cleanup_dead_connections, dead_connections, new_client, tick_all, start_heartbeat_checker,
}
use zerogame.Connection.Rooms.{vacate_frame, leave_room_internal_frame}
use zerogame.Connection.Lookups.{get-remove_connection_internal, remove_connection-eq-internal}
use zerogame.Connection.Reach.{remove, leave, heartbeat, cleanup, cleanup_dead_connections-after}
use zerogame.Connection.Defects.{logger-Step, logger-add_connection, logger-join_room}
use zerogame.Connection.Cleanup.{get-remove_all, elem-dead_connections}
use zerogame.Handler.ManagerChanges.{mgr_change}
use zerogame.System.Sound.{Sound}
use zerogame.System.Sound.Held.{cleanup_dead_connections-Sound}
use zerogame.System.KeepAlive.{Turn, message, gone, tick, take_turn, take_turns, turn-Sound}

-- What the clients do before a tick of the checker, and the time of that tick.
abbrev pub Round : Type 0
Round = List Turn × ℕ

abbrev pub ticks_of : List Round → List Tick
ticks_of [] = []
ticks_of ((turns, time) ∷ rounds) =
    record { others = take_turns turns; now = time } ∷ ticks_of rounds

-- The message is neither a heartbeat nor a login.
abbrev leaves_beat : Body → Bool
leaves_beat (Body.heartbeat m) = false
leaves_beat (Body.login m) = false
leaves_beat _ = true

-- The client itself sends no heartbeat and does not log in.
abbrev pub unheard : Conn → Turn → Bool
unheard c (message d now body) = if d == c then leaves_beat body else true
unheard c _ = true

abbrev pub all_unheard : Conn → List Turn → Bool
all_unheard c [] = true
all_unheard c (t ∷ ts) = unheard c t && all_unheard c ts

abbrev pub silent : Conn → List Round → Bool
silent c [] = true
silent c ((turns, time) ∷ rounds) = all_unheard c turns && silent c rounds

-- One of the ticks comes more than the timeout after this time.
abbrev pub overdue : ℤ → ℕ → List Round → Bool
overdue timeout last [] = false
overdue timeout last ((turns, time) ∷ rounds) =
    ltb_ℤ timeout (sub_ℕ time last) || overdue timeout last rounds

-- The connection is not held, or its last beat passes the test.
abbrev fits : (ℕ → Bool) → Option ClientConnection → Bool
fits q none = true
fits q (some client) = q client.last_heartbeat

abbrev Fits : (ℕ → Bool) → Conn → ConnectionManager → Type 0
Fits q c cm = fits q (get c cm.connections) ≡ true

module _ (q : ℕ → Bool) (cm : ConnectionManager) (c : Conn) (held : Fits q c cm) (d : Conn) where
  touch-Fits : (now : ℕ) → (d == c) ≡ false → Fits q c (touch_heartbeat d now cm)
  unfolding touch_heartbeat update_heartbeat get_client_connection
  touch-Fits now other = elim (Option-cases (get d cm.connections)) [
    | inl e ↦ rw (e, touch_heartbeat) held
    | inr (client, e) ↦
        rw (e, touch_heartbeat)
          (ground (arith, held, other, get-put d c (update_heartbeat now client) cm.connections))
  ]

  add-Fits : (now : ℕ) → (d == c) ≡ false → Fits q c (after (add_connection d (pos 1) now cm))
  unfolding add_connection register
  add-Fits now other =
      ground (arith, held, other, get-put d c (new_client d (pos 1) now) cm.connections)

  remove-Fits : Fits q c (after (remove_connection d cm))
  remove-Fits =
      rw (remove_connection-eq-internal cm d)
        (ground (arith, held, get-remove_connection_internal cm d c))

  join-Fits : (r : String) → Fits q c (after (join_room d r cm))
  unfolding join_room take_seat
  join-Fits r = elim (Option-cases (get d cm.connections)) [
    | inl e ↦ rw (e, join_room) held
    | inr (client, e) ↦
        let frame =
          vacate_frame d client.room_id cm
            (not (client.room_id == "") && not (client.room_id == r)) in
        rw (e, join_room, after-logged, frame.0)
          (ground (arith, held, e, get-put d c (record client { room_id = r }) cm.connections))
  ]

  leave-Fits : Fits q c (leave_room d cm)
  unfolding leave_room
  leave-Fits = elim (Option-cases (get d cm.connections)) [
    | inl e ↦ rw (e, leave_room) held
    | inr (client, e) ↦ elim (Bool-cases (client.room_id == "")) [
      | inl out ↦ rw (e, leave_room, out) held
      | inr named ↦
          rw (e, leave_room, named, (leave_room_internal_frame d client.room_id cm).0)
            (ground (arith, held, e, get-put d c (record client { room_id = "" }) cm.connections))
    ]
  ]

-- What a tick leaves under a connection.
get-cleanup :
    (cm : ConnectionManager) (c : Conn) (timeout : ℤ) (now : ℕ)
    → Distinct cm.connections
    → get c (after (cleanup_dead_connections timeout now cm)).connections ≡ (
        if fits (λ last. not (ltb_ℤ timeout (sub_ℕ now last))) (get c cm.connections)
        then get c cm.connections
        else none)
get-cleanup cm c timeout now d = rw (cleanup_dead_connections-after cm timeout now) (
    ground (
      arith,
      get-remove_all (dead_connections timeout now cm.connections) cm c,
      elem-dead_connections timeout now cm.connections c d,
    ))

module _ (q : ℕ → Bool) (c : Conn) where
  tick-Fits :
      (cm : ConnectionManager) (timeout : ℤ) (now : ℕ)
      → Distinct cm.connections
      → Fits q c cm
      → Fits q c (after (cleanup_dead_connections timeout now cm))
  tick-Fits cm timeout now d held = ground (arith, held, get-cleanup cm c timeout now d)

  message-Fits :
      (cm : ConnectionManager) (d : Conn) (now : ℕ) (body : Body)
      → unheard c (message d now body) ≡ true
      → Fits q c cm
      → Fits q c (mgr_change body d now cm)
  message-Fits cm d now (Body.heartbeat m) e held = touch-Fits q cm c held d now (ground arith)
  message-Fits cm d now (Body.login m) e held = add-Fits q cm c held d now (ground arith)
  message-Fits cm d now Body.logout e held = remove-Fits q cm c held d
  message-Fits cm d now (Body.join_room m) e held = join-Fits q cm c held d m.room_id
  message-Fits cm d now (Body.leave_room m) e held = leave-Fits q cm c held d
  message-Fits cm d now _ e held = held

  turn-Fits :
      (t : Turn) (cm : ConnectionManager)
      → Sound cm
      → unheard c t ≡ true
      → Fits q c cm
      → Fits q c (take_turn t cm)
  turn-Fits (message d now body) cm s e held = message-Fits cm d now body e held
  turn-Fits (gone d) cm s e held = remove-Fits q cm c held d
  turn-Fits (tick timeout now) cm s e held = tick-Fits cm timeout now s.distinct_connections held

  turns-Fits :
      (ts : List Turn) (cm : ConnectionManager)
      → Sound cm
      → all_unheard c ts ≡ true
      → Fits q c cm
      → Fits q c (take_turns ts cm)
  turns-Fits [] cm s e held = held
  turns-Fits (t ∷ ts) cm s e held =
      turns-Fits ts (take_turn t cm) (turn-Sound t cm s) (ground arith)
        (turn-Fits t cm s (ground arith) held)

logger-mgr_change :
    (body : Body) (d : Conn) (now : ℕ) (cm : ConnectionManager)
    → (mgr_change body d now cm).logger ≡ cm.logger
logger-mgr_change (Body.heartbeat m) d now cm = logger-Step (heartbeat d now)
logger-mgr_change (Body.login m) d now cm = logger-add_connection cm d (pos 1) now
logger-mgr_change Body.logout d now cm = logger-Step (remove d)
logger-mgr_change (Body.join_room m) d now cm = logger-join_room cm d m.room_id
logger-mgr_change (Body.leave_room m) d now cm = logger-Step (leave d)
logger-mgr_change _ d now cm = refl

logger-take_turn : (t : Turn) (cm : ConnectionManager) → (take_turn t cm).logger ≡ cm.logger
logger-take_turn (message d now body) cm = logger-mgr_change body d now cm
logger-take_turn (gone d) cm = logger-Step (remove d)
logger-take_turn (tick timeout now) cm = logger-Step (cleanup timeout now)

logger-take_turns :
    (ts : List Turn) (cm : ConnectionManager) → (take_turns ts cm).logger ≡ cm.logger
logger-take_turns [] cm = refl
logger-take_turns (t ∷ ts) cm = logger-take_turns ts (take_turn t cm) ∙ logger-take_turn t cm

turns-Sound : (ts : List Turn) (cm : ConnectionManager) → Sound cm → Sound (take_turns ts cm)
turns-Sound [] cm s = s
turns-Sound (t ∷ ts) cm s = turns-Sound ts (take_turn t cm) (turn-Sound t cm s)

module _ (timeout : ℤ) (c : Conn) where
  abbrev swept : List Turn → ℕ → ConnectionManager → ConnectionManager
  swept turns time cm = after (cleanup_dead_connections timeout time (take_turns turns cm))

  swept-Sound :
      (turns : List Turn) (time : ℕ) (cm : ConnectionManager)
      → Sound cm
      → Sound (swept turns time cm)
  swept-Sound turns time cm s =
      cleanup_dead_connections-Sound (take_turns turns cm) timeout time (turns-Sound turns cm s)

  logger-swept :
      (turns : List Turn) (time : ℕ) (cm : ConnectionManager)
      → (swept turns time cm).logger ≡ cm.logger
  logger-swept turns time cm = logger-Step (cleanup timeout time) ∙ logger-take_turns turns cm

  -- A round on a manager that can log: the loop goes on from what it leaves.
  tick_all-round :
      (turns : List Turn) (time : ℕ) (rounds : List Round) (cm : ConnectionManager)
      → cm.logger ≡ ready
      → tick_all timeout (ticks_of ((turns, time) ∷ rounds)) cm
        ≡ tick_all timeout (ticks_of rounds) (swept turns time cm)
  unfolding tick_all cleanup_dead_connections
  tick_all-round turns time rounds cm live = ground (arith, live, logger-take_turns turns cm)

  -- The loop returns, and what the last beat passed it still passes.
  rounds-Fits :
      (q : ℕ → Bool) (rounds : List Round) (cm : ConnectionManager)
      → Sound cm
      → cm.logger ≡ ready
      → silent c rounds ≡ true
      → Fits q c cm
      → let r = tick_all timeout (ticks_of rounds) cm in
        (result_of r ≡ returned tt) × Fits q c (after r)
  unfolding tick_all
  rounds-Fits q [] cm s live e held = (refl, held)
  rounds-Fits q ((turns, time) ∷ rounds) cm s live e held =
      rw (tick_all-round turns time rounds cm live) (
        rounds-Fits q rounds (swept turns time cm) (swept-Sound turns time cm s)
          (logger-swept turns time cm ∙ live) (ground arith)
          (tick-Fits q c (take_turns turns cm) timeout time
            ((turns-Sound turns cm s).distinct_connections)
            (turns-Fits q c turns cm s (ground arith) held)))

  -- A tick that comes too late for the last beat leaves nothing.
  late-Fits :
      (cm : ConnectionManager) (last time : ℕ)
      → Distinct cm.connections
      → ltb_ℤ timeout (sub_ℕ time last) ≡ true
      → Fits (λ n. n == last) c cm
      → Fits (λ n. false) c (after (cleanup_dead_connections timeout time cm))
  late-Fits cm last time d late held = elim (Option-cases (get c cm.connections)) [
    | inl e ↦ ground (arith, e, get-cleanup cm c timeout time d)
    | inr (client, e) ↦ ground (arith, e, held, late, get-cleanup cm c timeout time d)
  ]

  rounds_drop :
      (last : ℕ) (rounds : List Round) (cm : ConnectionManager)
      → Sound cm
      → cm.logger ≡ ready
      → silent c rounds ≡ true
      → overdue timeout last rounds ≡ true
      → Fits (λ n. n == last) c cm
      → let r = tick_all timeout (ticks_of rounds) cm in
        (result_of r ≡ returned tt) × Fits (λ n. false) c (after r)
  rounds_drop last [] cm s live e late held = absurd (cc late)
  rounds_drop last ((turns, time) ∷ rounds) cm s live e late held =
      let s' = swept-Sound turns time cm s in
      let live' = logger-swept turns time cm ∙ live in
      let d = (turns-Sound turns cm s).distinct_connections in
      let before = turns-Fits (λ n. n == last) c turns cm s (ground arith) held in
      rw (tick_all-round turns time rounds cm live)
        (elim (Bool-cases (ltb_ℤ timeout (sub_ℕ time last))) [
          | inl now ↦
              rounds-Fits (λ n. false) rounds (swept turns time cm) s' live' (ground arith)
                (late-Fits (take_turns turns cm) last time d now before)
          | inr later ↦
              rounds_drop last rounds (swept turns time cm) s' live' (ground arith) (ground arith)
                (tick-Fits (λ n. n == last) c (take_turns turns cm) timeout time d before)
        ])

-- A client that is silent is dropped: on a manager as any run of the gateway leaves it and with a
-- logger, while the checker runs with an interval above 0, and whatever the clients do between its
-- ticks, but that this one sends no heartbeat and no login: if one of the ticks comes more than the
-- timeout after its last heartbeat, the checker returns when its context is done, and the manager
-- then does not hold the connection.
pub silent_client_leaves :
    (interval timeout : ℤ) (rounds : List Round) (cm : ConnectionManager) (c : Conn)
    (client : ClientConnection)
    → Sound cm
    → cm.logger ≡ ready
    → ltb_ℤ (pos 0) interval ≡ true
    → get c cm.connections ≡ some client
    → silent c rounds ≡ true
    → overdue timeout client.last_heartbeat rounds ≡ true
    → let r = start_heartbeat_checker interval timeout (ticks_of rounds) cm in
      (result_of r ≡ returned tt) × (get c (after r).connections ≡ none)
unfolding start_heartbeat_checker
silent_client_leaves interval timeout rounds cm c client s live positive e quiet late =
    let (returns, dropped) =
      rounds_drop timeout c client.last_heartbeat rounds cm s live quiet late (ground (arith, e)) in
    rw (positive, start_heartbeat_checker) (returns, nothing _ dropped)
  where
    nothing : (o : Option ClientConnection) → fits (λ n. false) o ≡ true → o ≡ none
    nothing none e = refl
    nothing (some client) e = absurd (cc e)
