-- ===== src/System/Reachable.antt =====
-- Any events, in any order, from a gateway that was just made.
use zerogame.Shared.{ℕ, sym, ◌≤◌, List, [], ◌∷◌, length, arith}
use mathlib.Core.Path.{subst}
use zerogame.Shared.Int.{ℤ}
use zerogame.Shared.Effect.{Logger, Outcome, returned, panicked, after}
use zerogame.Message.{Bytes}
use zerogame.Message.Body.{Body}
use zerogame.Parser.{MessageParserInterface}
use zerogame.Connection.{Conn, ConnectionManager, new_connection_manager}
use zerogame.Gateway.{Gateway, Net, lifted}
use zerogame.Broadcaster.{channel_size}
use zerogame.Router.{MessageRouter}
use zerogame.Handler.{DefaultMessageHandler}
use zerogame.Handler.ManagerChanges.{mgr_change}
use zerogame.Handler.Replies.{run-Does}
use zerogame.Server.{new_gateway, handle_message, close_conn, forget, on_close}
use zerogame.System.{
  and_play, Event, receives, closes, drops, ticks, pushes, pushes_all, delivers, submits_late,
  stops, finishes_stop, play, play_all,
}
use zerogame.System.Quiet.{
  Quiet, reported-Quiet, deliver-Quiet, pushes-Quiet, pushes_all-Quiet, submit_late-Quiet,
  begin_stop-Quiet, finish_stop-Quiet,
}
use zerogame.System.Effects.{ran, kept, handle_message-Handled}
use zerogame.System.Sound.{Sound, new_connection_manager-Sound, reclose-Sound, add_connection-Sound}
use zerogame.System.Sound.Held.{
  touch_heartbeat-Sound, leave_room-Sound, join_room-Sound, remove_connection-Sound,
  cleanup_dead_connections-Sound,
}

-- The gateway's manager is sound, and its channel holds no more than it has room for.
pub record SoundGateway (g : Gateway) : Type 0 where
  pub manager : Sound g.conn_mgr
  pub queue : length g.message_ch ≤ channel_size

pub mgr_change-Sound :
    (body : Body) (conn : Conn) (now : ℕ) (cm : ConnectionManager)
    → Sound cm
    → Sound (mgr_change body conn now cm)
mgr_change-Sound (Body.heartbeat m) conn now cm s = touch_heartbeat-Sound cm s conn now
mgr_change-Sound (Body.login m) conn now cm s = add_connection-Sound cm s conn now
mgr_change-Sound Body.logout conn now cm s = remove_connection-Sound cm s conn
mgr_change-Sound (Body.join_room m) conn now cm s = join_room-Sound cm s conn m.room_id
mgr_change-Sound (Body.leave_room m) conn now cm s = leave_room-Sound cm s conn
mgr_change-Sound _ conn now cm s = s

Quiet-Sound : (g g' : Gateway) → Quiet g g' → SoundGateway g → SoundGateway g'
Quiet-Sound g g' q s = record {
  manager = rw (q.manager) (reclose-Sound g.conn_mgr g.conn_mgr.logger q.closed s.manager);
  queue = q.queue s.queue;
}

lifted-Sound :
    {A : Type 0} (o : Outcome A × ConnectionManager) (g : Gateway)
    → Sound (after o)
    → length g.message_ch ≤ channel_size
    → SoundGateway (after (forget (lifted o g)))
lifted-Sound (returned a, cm) g s q = record { manager = s; queue = q }
lifted-Sound (panicked, cm) g s q = record { manager = s; queue = q }

module _ (net : Net) (parser : MessageParserInterface)
    (router : MessageRouter DefaultMessageHandler) where
  receive-Sound :
      (conn : Conn) (now : ℕ) (bytes : Bytes) (g : Gateway)
      → SoundGateway g
      → SoundGateway (after (play net parser router (receives conn now bytes) g))
  unfolding play
  receive-Sound conn now bytes g s =
      let o = handle_message net parser router conn now bytes g in
      Quiet-Sound _ _ (reported-Quiet net parser router conn o)
        (elim (handle_message-Handled net parser now conn g router bytes) [
          | kept e ↦ subst SoundGateway (sym e) s
          | ran handler msg h body e ↦
              let d = run-Does net parser now handler conn msg h body g in
              record {
                manager = rw (e, d.0) (mgr_change-Sound body conn now g.conn_mgr s.manager);
                queue = rw e (d.2.1 s.queue);
              }
        ])

  play-Sound :
      (e : Event) (g : Gateway) → SoundGateway g → SoundGateway (after (play net parser router e g))
  unfolding play on_close close_conn
  play-Sound (receives conn now bytes) g s = receive-Sound conn now bytes g s
  play-Sound (closes conn) g s =
      lifted-Sound _ g (remove_connection-Sound g.conn_mgr s.manager conn) s.queue
  play-Sound (drops conn) g s =
      lifted-Sound _ (close_conn conn g)
        (remove_connection-Sound _ (reclose-Sound _ _ _ s.manager) conn) s.queue
  play-Sound (ticks timeout now) g s =
      lifted-Sound _ g (cleanup_dead_connections-Sound g.conn_mgr timeout now s.manager) s.queue
  play-Sound (pushes room_id message exclude_user) g s =
      Quiet-Sound _ _ (pushes-Quiet net parser router room_id message exclude_user g) s
  play-Sound (pushes_all message) g s =
      Quiet-Sound _ _ (pushes_all-Quiet net parser router message g) s
  play-Sound delivers g s = Quiet-Sound _ _ (deliver-Quiet net parser router g) s
  play-Sound submits_late g s = Quiet-Sound _ _ (submit_late-Quiet g) s
  play-Sound stops g s = Quiet-Sound _ _ (begin_stop-Quiet g) s
  play-Sound (finishes_stop server) g s = Quiet-Sound _ _ (finish_stop-Quiet server g) s

  play_all-Sound :
      (es : List Event) (g : Gateway)
      → SoundGateway g
      → SoundGateway (after (play_all net parser router es g))
  unfolding play_all
  play_all-Sound [] g s = s
  play_all-Sound (e ∷ es) g s =
      next (play net parser router e g) (play-Sound e g s) (λ g' s'. play_all-Sound es g' s')
    where
      next :
          (o : Outcome (Unit {0}) × Gateway)
          → SoundGateway (after o)
          → ((g' : Gateway)
              → SoundGateway g'
              → SoundGateway (after (play_all net parser router es g')))
          → SoundGateway (after (and_play net parser router o (play_all net parser router es)))
      next (returned u, g') s' rest = rest g' s'
      next (panicked, g') s' rest = s'

-- The gateway of a server with this limit, and with these loggers.
abbrev pub fresh_gateway : ℤ → Logger → Logger → Gateway
fresh_gateway max mgr_logger broadcaster_logger =
    let g = new_gateway max in
    record g { conn_mgr = record (g.conn_mgr) { logger = mgr_logger }; logger = broadcaster_logger }

-- From a new gateway with any limit and with any loggers, whatever the parser, the registered
-- handlers and the network do, and whatever events play in whatever order, up to and with the first
-- that panics: a client whose record names a room stands in that room's set; no set is empty; the
-- user map points at held connections of their users; every client is the user 1; no more
-- connections are held than the limit, and no more than 1000 broadcasts wait. Clients may log in
-- again on a connection that is held, and join a room without a name.
pub gateway_stays_sound :
    (max : ℤ) (mgr_logger broadcaster_logger : Logger) (net : Net) (parser : MessageParserInterface)
    (router : MessageRouter DefaultMessageHandler) (es : List Event)
    → SoundGateway
        (after (play_all net parser router es (fresh_gateway max mgr_logger broadcaster_logger)))
unfolding new_gateway new_connection_manager
gateway_stays_sound max mgr_logger broadcaster_logger net parser router es =
    play_all-Sound net parser router es (fresh_gateway max mgr_logger broadcaster_logger) (record {
      manager =
          reclose-Sound (new_connection_manager max) mgr_logger []
            (new_connection_manager-Sound max);
      queue = omega arith;
    })
