-- ===== src/System.antt =====
-- server/gateway_ws as a whole: what its goroutines do to the gateway, one event at a time, in any
-- order. A panic in any of them ends the program.
--
-- The reads of each connection, the close handlers, the heartbeat checker, the workers of the
-- broadcaster and the callers of the server's own methods interleave; an event is one turn of one of
-- them.
pub mod Effects
pub mod Sound
pub mod Quiet
pub mod Reachable
pub mod Shipped
pub mod FirstUser
pub mod Chats
pub mod KeepAlive
pub mod Silence
pub mod RoomBroadcasts
mod Tests
use zerogame.Shared.{if◌then◌else◌, ℕ, String, Option, List, [], ◌∷◌}
use zerogame.Shared.Int.{ℤ}
use zerogame.Shared.Effect.{M, Outcome, returned, panicked}
use zerogame.Message.{Bytes}
use zerogame.Message.Body.{Body}
use zerogame.Message.Failure.{Result}
use zerogame.Parser.{MessageParserInterface}
use zerogame.Connection.{Conn, remove_connection, cleanup_dead_connections}
use zerogame.Gateway.{Gateway, Net, on_mgr}
use zerogame.Broadcaster.{process_broadcast_message}
use zerogame.Router.{MessageRouter}
use zerogame.Handler.{DefaultMessageHandler}
use zerogame.Server.{
  close_conn, handle_message, reported, on_close, forget, push_to_room, push_to_all, begin_stop,
  finish_stop,
}

-- A text frame that a connection's loop reads at a time, a close frame, the end of the loop, a tick
-- of the heartbeat checker at a time, the server's own pushes, a worker that takes the oldest
-- broadcast, `processMessages` handing the oldest to a pool that is closed, and the two halves of
-- `Stop`, before and after its wait for the workers.
pub data Event : Type 0 where
  receives : Conn → ℕ → Bytes → Event
  closes drops : Conn → Event
  ticks : ℤ → ℕ → Event
  pushes : String → Option Body → ℤ → Event
  pushes_all : Option Body → Event
  delivers submits_late stops : Event
  finishes_stop : Option (Result (Unit {0})) → Event

abbrev pub done : {A : Type 0} → Outcome A × Gateway → Outcome (Unit {0}) × Gateway
done (returned a, g) = (returned tt, g)
done (panicked, g) = (panicked, g)

-- A turn of `processMessages` whose `Submit` may find the pool's queue closed; an open one is for a
-- worker, which `deliver` plays.
unfoldable pub submit_late : M Gateway (Unit {0})
submit_late g = elim (g.message_ch) [
  | [] ↦ (returned tt, g)
  | msg ∷ rest ↦
      if g.task_queue_closed then (panicked, record g { message_ch = rest }) else (returned tt, g)
]

module _ (net : Net) (parser : MessageParserInterface)
    (router : MessageRouter DefaultMessageHandler) where
  -- A worker's `processBroadcastMessage`.
  unfoldable pub deliver : M Gateway (Unit {0})
  deliver g = elim (g.message_ch) [
    | [] ↦ (returned tt, g)
    | msg ∷ rest ↦ done (process_broadcast_message net parser msg (record g { message_ch = rest }))
  ]

  unfoldable pub play : Event → M Gateway (Unit {0})
  unfolding deliver
  play (receives conn now bytes) g =
      reported net parser router conn (handle_message net parser router conn now bytes g)
  play (closes conn) g = on_close net parser router conn g
  play (drops conn) g = forget (on_mgr (remove_connection conn) (close_conn conn g))
  play (ticks timeout now) g = forget (on_mgr (cleanup_dead_connections timeout now) g)
  play (pushes room_id message exclude_user) g =
      done (push_to_room parser room_id message exclude_user g)
  play (pushes_all message) g = done (push_to_all parser message g)
  play delivers g = deliver g
  play submits_late g = submit_late g
  play stops g = begin_stop g
  play (finishes_stop server) g = forget (finish_stop server g)

  abbrev pub and_play :
      Outcome (Unit {0}) × Gateway → M Gateway (Unit {0}) → Outcome (Unit {0}) × Gateway
  and_play (returned u, g) rest = rest g
  and_play (panicked, g) rest = (panicked, g)

  -- The events in order, up to the first that panics.
  unfoldable pub play_all : List Event → M Gateway (Unit {0})
  unfolding play
  play_all [] g = (returned tt, g)
  play_all (e ∷ es) g = and_play (play e g) (play_all es)
