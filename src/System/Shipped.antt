-- ===== src/System/Shipped.antt =====
-- The gateway as its constructors leave it, whose manager and broadcaster have no logger.
use zerogame.Shared.{
  ◌∷◌, ℕ, ◌≡◌, refl, sym, ap, ◌⊎◌, inl, inr, List, [], none, arith, nat_key, ℕ_discrete, String,
}
use mathlib.Core.Path.{subst}
use zerogame.Shared.Int.{ℤ, pos}
use zerogame.Shared.GoMap.{get}
use zerogame.Shared.Effect.{Outcome, returned, panicked, nil, after, result_of}
use zerogame.Message.{Bytes, WebSocketMessage, LoginMessage}
use zerogame.Message.Body.{Body}
use zerogame.Message.Failure.{Result, ok, err}
use zerogame.Parser.{MessageParserInterface}
use zerogame.Connection.{
  new_connection_manager, Conn, ConnectionManager, add_connection, remove_connection, join_room,
  leave_room, touch_heartbeat, cleanup_dead_connections, dead_connections, remove_all,
}
use zerogame.Gateway.{Gateway, Net, G, lifted, next_of}
use zerogame.Server.{new_gateway, close_conn, on_close, handle_message, reported}
use zerogame.System.{
  and_play, play_all, Event, receives, closes, drops, ticks, pushes, pushes_all, delivers,
  submits_late, stops, finishes_stop, play,
}
use zerogame.System.Effects.{ran, kept, handle_message-Handled}
use zerogame.System.Quiet.{
  Quiet, reported-Quiet, deliver-Quiet, pushes-Quiet, pushes_all-Quiet, submit_late-Quiet,
  begin_stop-Quiet, finish_stop-Quiet,
}
use zerogame.Router.{MessageRouter}
use zerogame.Handler.{DefaultMessageHandler, handle_login}
use zerogame.Handler.ManagerChanges.{mgr_change}
use zerogame.Handler.Replies.{run-Does}

-- Nobody is held, and there is no logger.
pub record Vacant (cm : ConnectionManager) : Type 0 where
  pub no_connections : cm.connections ≡ []
  pub no_users : cm.user_connections ≡ []
  pub no_rooms : cm.room_connections ≡ []
  pub no_logger : cm.logger ≡ nil

module _ (cm : ConnectionManager) (v : Vacant cm) (conn : Conn) where
  not_held : get conn cm.connections ≡ none
  unfolding get
  not_held = rw (v.no_connections) refl

  add_connection_panics_nobody :
      (user_id : ℤ) (now : ℕ) → result_of (add_connection conn user_id now cm) ≡ panicked
  unfolding add_connection
  add_connection_panics_nobody user_id now = ground (arith, v.no_logger)

  remove_connection_nobody : remove_connection conn cm ≡ (returned tt, cm)
  unfolding remove_connection
  remove_connection_nobody = simp (not_held, remove_connection)

  join_room_nobody : (r : String) → join_room conn r cm ≡ (returned tt, cm)
  unfolding join_room
  join_room_nobody r = simp (not_held, join_room)

  leave_room_nobody : leave_room conn cm ≡ cm
  unfolding leave_room
  leave_room_nobody = simp (not_held, leave_room)

  touch_heartbeat_nobody : (now : ℕ) → touch_heartbeat conn now cm ≡ cm
  unfolding touch_heartbeat
  touch_heartbeat_nobody now = simp (not_held, touch_heartbeat)

  -- No call of the manager but a login's does anything.
  mgr_change_nobody :
      (body : Body) (now : ℕ)
      → ((m : LoginMessage) × (body ≡ Body.login m)) ⊎ (mgr_change body conn now cm ≡ cm)
  mgr_change_nobody (Body.heartbeat m) now = inr (touch_heartbeat_nobody now)
  mgr_change_nobody (Body.login m) now = inl (m, refl)
  mgr_change_nobody Body.logout now = inr (ap (λ o. o.1) remove_connection_nobody)
  mgr_change_nobody (Body.join_room m) now = inr (ap (λ o. o.1) (join_room_nobody m.room_id))
  mgr_change_nobody (Body.leave_room m) now = inr leave_room_nobody
  mgr_change_nobody _ now = inr refl

cleanup_nobody :
    (cm : ConnectionManager) (timeout : ℤ) (now : ℕ)
    → Vacant cm
    → cleanup_dead_connections timeout now cm ≡ (returned tt, cm)
unfolding cleanup_dead_connections ℕ_discrete
cleanup_nobody cm timeout now v =
    let none_dead : dead_connections timeout now cm.connections ≡ [] =
      unfold dead_connections in rw (v.no_connections) refl in
    unfold remove_all in simp (none_dead, cleanup_dead_connections)

Vacant-close :
    (cm : ConnectionManager) (closed : List Conn)
    → Vacant cm
    → Vacant (record cm { closed = closed })
Vacant-close cm closed v = record {
  no_connections = v.no_connections;
  no_users = v.no_users;
  no_rooms = v.no_rooms;
  no_logger = v.no_logger;
}

Quiet-Vacant : (g g' : Gateway) → Quiet g g' → Vacant g.conn_mgr → Vacant g'.conn_mgr
Quiet-Vacant g g' q v = subst Vacant (sym q.manager) (Vacant-close g.conn_mgr q.closed v)

lifted_panics :
    {A B : Type 0} (r : Outcome A × ConnectionManager) (g : Gateway) (f : A → G B)
    → result_of r ≡ panicked
    → result_of (next_of (lifted r g) f) ≡ panicked
lifted_panics (returned a, cm) g f e = absurd (cc e)
lifted_panics (panicked, cm) g f e = refl

module _ (net : Net) (parser : MessageParserInterface) where
  login_panics_nobody :
      (now : ℕ) (conn : Conn) (msg : WebSocketMessage) (m : LoginMessage) (g : Gateway)
      → Vacant g.conn_mgr
      → result_of (handle_login net parser now conn msg m g) ≡ panicked
  unfolding handle_login
  login_panics_nobody now conn msg m g v =
      lifted_panics (add_connection conn (pos 1) now g.conn_mgr) g _
        (add_connection_panics_nobody g.conn_mgr v conn (pos 1) now)

  module _ (router : MessageRouter DefaultMessageHandler) where
    reported_panics :
        (conn : Conn) (o : Outcome (Result (Unit {0})) × Gateway)
        → result_of o ≡ panicked
        → result_of (reported net parser router conn o) ≡ panicked
    reported_panics conn (returned (ok u), g) e = absurd (cc e)
    reported_panics conn (returned (err x), g) e = absurd (cc e)
    reported_panics conn (panicked, g) e = refl

    receive-Vacant :
        (conn : Conn) (now : ℕ) (bytes : Bytes) (g : Gateway)
        → Vacant g.conn_mgr
        → result_of (play net parser router (receives conn now bytes) g) ≡ returned tt
        → Vacant (after (play net parser router (receives conn now bytes) g)).conn_mgr
    unfolding play
    receive-Vacant conn now bytes g v runs =
        let o = handle_message net parser router conn now bytes g in
        Quiet-Vacant _ _ (reported-Quiet net parser router conn o)
          (elim (handle_message-Handled net parser now conn g router bytes) [
            | kept e ↦ subst (λ x. Vacant (x.conn_mgr)) (sym e) v
            | ran handler msg h body e ↦ elim (mgr_change_nobody g.conn_mgr v conn body now) [
              | inl (m, login) ↦ absurd (
                  cc (
                    runs,
                    reported_panics conn o (rw (e, login) (login_panics_nobody now conn msg m g v)),
                  ))
              | inr stays ↦
                  let d = run-Does net parser now handler conn msg h body g in rw (e, d.0, stays) v
            ]
          ])

    play-Vacant :
        (e : Event) (g : Gateway)
        → Vacant g.conn_mgr
        → result_of (play net parser router e g) ≡ returned tt
        → Vacant (after (play net parser router e g)).conn_mgr
    unfolding play on_close close_conn
    play-Vacant (receives conn now bytes) g v runs = receive-Vacant conn now bytes g v runs
    play-Vacant (closes conn) g v runs = rw (remove_connection_nobody g.conn_mgr v conn) v
    play-Vacant (drops conn) g v runs =
        let cm = (close_conn conn g).conn_mgr in
        let v' : Vacant cm = Vacant-close g.conn_mgr _ v in
        rw (remove_connection_nobody cm v' conn) v'
    play-Vacant (ticks timeout now) g v runs = rw (cleanup_nobody g.conn_mgr timeout now v) v
    play-Vacant (pushes room_id message exclude_user) g v runs =
        Quiet-Vacant _ _ (pushes-Quiet net parser router room_id message exclude_user g) v
    play-Vacant (pushes_all message) g v runs =
        Quiet-Vacant _ _ (pushes_all-Quiet net parser router message g) v
    play-Vacant delivers g v runs = Quiet-Vacant _ _ (deliver-Quiet net parser router g) v
    play-Vacant submits_late g v runs = Quiet-Vacant _ _ (submit_late-Quiet g) v
    play-Vacant stops g v runs = Quiet-Vacant _ _ (begin_stop-Quiet g) v
    play-Vacant (finishes_stop server) g v runs = Quiet-Vacant _ _ (finish_stop-Quiet server g) v

    play_all-Vacant :
        (es : List Event) (g : Gateway)
        → Vacant g.conn_mgr
        → result_of (play_all net parser router es g) ≡ returned tt
        → Vacant (after (play_all net parser router es g)).conn_mgr
    unfolding play_all
    play_all-Vacant [] g v runs = v
    play_all-Vacant (e ∷ es) g v runs =
        next (play net parser router e g) (play-Vacant e g v) (play_all-Vacant es) runs
      where
        next :
            (o : Outcome (Unit {0}) × Gateway)
            → (result_of o ≡ returned tt → Vacant (after o).conn_mgr)
            → ((g' : Gateway)
                → Vacant g'.conn_mgr
                → result_of (play_all net parser router es g') ≡ returned tt
                → Vacant (after (play_all net parser router es g')).conn_mgr)
            → result_of (and_play net parser router o (play_all net parser router es)) ≡ returned tt
            → Vacant (after (and_play net parser router o (play_all net parser router es))).conn_mgr
        next (returned u, g') first rest runs = rest g' (first refl) runs
        next (panicked, g') first rest runs = absurd (cc runs)

-- The gateway as its constructors make it, with any limit, parser, handlers and network: as long as
-- none of the events panics, and a panic ends the program, the manager holds no connection, no user
-- and no room, whatever events play in whatever order. Nobody is ever logged in on a gateway that
-- runs.
pub running_gateway_holds_nobody :
    (max : ℤ) (net : Net) (parser : MessageParserInterface)
    (router : MessageRouter DefaultMessageHandler) (es : List Event)
    → result_of (play_all net parser router es (new_gateway max)) ≡ returned tt
    → Vacant (after (play_all net parser router es (new_gateway max))).conn_mgr
unfolding new_gateway new_connection_manager
running_gateway_holds_nobody max net parser router es runs =
    play_all-Vacant net parser router es (new_gateway max)
      (record { no_connections = refl; no_users = refl; no_rooms = refl; no_logger = refl }) runs
