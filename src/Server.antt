-- ===== src/Server.antt =====
-- server/gateway_ws/internal/manager/server.go: the WebSocket server.
--
-- What a client sends is a list of events with the clock reading at each; the list's end is the
-- read error that ends the loop. What a new socket is set to and what `Start` starts are in Setup.
-- The server's own logger is set, so its log lines return.
pub mod Connections
pub mod Errors
pub mod ProtoFrames
pub mod Dispatching
pub mod Setup
pub mod Pushes
pub mod Lifecycle
mod Tests
use zerogame.Shared.{
  ℕ, String, Bool, true, false, ◌||◌, Option, none, some, List, [], ◌∷◌, ◌++◌, length,
  if◌then◌else◌, ◌==◌, string_key, nat_key,
}
use zerogame.Shared.Int.{ℤ, pos}
use zerogame.Shared.Decimal.{cat, decimal}
use zerogame.Shared.Effect.{M, Outcome, returned, panicked, Logger, nil, ready}
use zerogame.Message.{
  Bytes, MessageType, MessageHeader, WebSocketMessage, msg_push_system_msg, msg_push_broadcast,
}
use zerogame.Message.Body.{Body, text}
use zerogame.Message.Failure.{Error, Result, ok, err, Call}
use zerogame.Message.ErrorText.{error_text}
use zerogame.Parser.{MessageParserInterface}
use zerogame.Connection.{
  Conn, ConnectionManager, new_connection_manager, remove_connection, get_all_connections,
  get_connection_count, get_room_count,
}
use zerogame.Gateway.{Gateway, Net, G, pure_ok, ◌>>=◌, lift, on_mgr}
use zerogame.Broadcaster.{broadcast_to_room, broadcast_to_all}
use zerogame.Router.{MessageRouter, route}
use zerogame.Handler.{DefaultMessageHandler}
use zerogame.Handler.Dispatch.{handle, fault}

-- The closure `CheckOrigin` of `NewWebSocketServerWithParser`.
any_equal : List String → String → Bool
any_equal [] origin = false
any_equal (allowed ∷ others) origin = allowed == origin || any_equal others origin

unfoldable pub check_origin : List String → String → Bool
unfolding any_equal
check_origin [] origin = true
check_origin (first ∷ others) origin =
    if first == "*" then true else any_equal (first ∷ others) origin

-- `NewBroadcaster` and `NewConnectionManager` leave their loggers unset.
unfoldable pub new_gateway : ℤ → Gateway
new_gateway max_connections = record {
  conn_mgr = new_connection_manager max_connections;
  message_ch = [];
  message_ch_closed = false;
  task_queue_closed = false;
  logger = nil;
  sent = [];
}

-- What `conn.ReadMessage()` returns next. A close frame runs the close handler, and is then an
-- error.
pub data Incoming : Type 0 where
  text_message : Bytes → Incoming
  other_message : ℤ → Incoming
  close_frame : Incoming

-- `conn.Close()`.
unfoldable pub close_conn : Conn → Gateway → Gateway
close_conn conn g = record g {
  conn_mgr = record (g.conn_mgr) { closed = g.conn_mgr.closed ++ conn ∷ [] };
}

abbrev pub forget : {A : Type 0} → Outcome (Result A) × Gateway → Outcome (Unit {0}) × Gateway
forget (returned r, g) = (returned tt, g)
forget (panicked, g) = (panicked, g)

module _ (net : Net) (parser : MessageParserInterface)
    (router : MessageRouter DefaultMessageHandler) (conn : Conn) where
  unfoldable pub handle_message : ℕ → Bytes → G (Unit {0})
  handle_message now bytes = do
    msg ← lift (parser.parse_message bytes)
    elim (msg.header) [
      | none ↦ fault
      | some h ↦ route DefaultMessageHandler (handle net parser now) router conn msg parser
    ]

  abbrev error_message : String → Error → Body
  error_message message e =
      Body.fields (("error", text message) ∷ ("details", text (error_text e)) ∷ [])

  abbrev write_error : Call Bytes → M Gateway (Unit {0})
  write_error (returned (ok bytes)) g = elim (net.write_error g.sent conn bytes) [
    | none ↦ (returned tt, record g { sent = g.sent ++ (conn, bytes) ∷ [] })
    | some e ↦ (returned tt, g)
  ]
  write_error (returned (err e)) g = (returned tt, g)
  write_error panicked g = (panicked, g)

  -- The error message goes under the message type 0.
  unfoldable pub send_error : String → Error → M Gateway (Unit {0})
  send_error message e =
      write_error (parser.serialize_message_body (pos 0) (error_message message e))

  abbrev go_on : Outcome (Unit {0}) × Gateway → M Gateway (Unit {0}) → Outcome (Unit {0}) × Gateway
  go_on (returned u, g) rest = rest g
  go_on (panicked, g) rest = (panicked, g)

  -- One message of the loop, and the report of its error.
  abbrev pub reported : Outcome (Result (Unit {0})) × Gateway → Outcome (Unit {0}) × Gateway
  reported (returned (ok u), g) = (returned tt, g)
  reported (returned (err e), g) = send_error "Failed to process message" e g
  reported (panicked, g) = (panicked, g)

  -- The close handler that `handleWebSocket` sets.
  unfoldable pub on_close : M Gateway (Unit {0})
  on_close g = forget (on_mgr (remove_connection conn) g)

  -- The loop of `handleConnection`.
  unfoldable pub serve : List (ℕ × Incoming) → M Gateway (Unit {0})
  unfolding on_close
  serve [] g = (returned tt, g)
  serve ((now, text_message bytes) ∷ rest) g =
      go_on (reported (handle_message now bytes g)) (serve rest)
  serve ((now, other_message kind) ∷ rest) g = serve rest g
  serve ((now, close_frame) ∷ rest) g = on_close g

  -- The deferred function, which also runs when the loop panics.
  abbrev finished : Outcome (Unit {0}) × Gateway → Outcome (Unit {0}) × Gateway
  finished (returned u, g) = forget (on_mgr (remove_connection conn) (close_conn conn g))
  finished (panicked, g) =
      (panicked, (forget (on_mgr (remove_connection conn) (close_conn conn g))).1)

  unfoldable pub handle_connection : List (ℕ × Incoming) → M Gateway (Unit {0})
  handle_connection events g = finished (serve events g)

-- The loop of `Stop` over the connections.
unfoldable pub close_all : List Conn → Gateway → Gateway
unfolding close_conn
close_all [] g = g
close_all (c ∷ cs) g = close_all cs (close_conn c g)

-- `b.workerPool.Shutdown()`, up to its wait: a second `close` panics.
abbrev close_tasks : M Gateway (Unit {0})
close_tasks g =
    if g.task_queue_closed
    then (panicked, g)
    else (returned tt, record g { task_queue_closed = true })

-- `Stop` up to the wait of `Shutdown`.
unfoldable pub begin_stop : M Gateway (Unit {0})
begin_stop g =
    if g.message_ch_closed
    then (panicked, g)
    else close_tasks (record g { message_ch_closed = true })

-- `none` is a nil `s.server`; otherwise what `s.server.Shutdown` returns.
abbrev pub shutdown_result : Option (Result (Unit {0})) → Result (Unit {0})
shutdown_result none = ok tt
shutdown_result (some r) = r

-- `Stop` from the return of the wait: the connections of that moment, then the HTTP server, whose
-- `Shutdown` leaves sockets alone that were upgraded.
unfoldable pub finish_stop : Option (Result (Unit {0})) → G (Unit {0})
unfolding close_all
finish_stop server g =
    (returned (shutdown_result server), close_all (get_all_connections g.conn_mgr) g)

abbrev pub and_stop :
    Outcome (Unit {0}) × Gateway → G (Unit {0}) → Outcome (Result (Unit {0})) × Gateway
and_stop (returned u, g) rest = rest g
and_stop (panicked, g) rest = (panicked, g)

-- `Stop`. `others` is what the other goroutines make of the gateway until the pool's `wg.Wait()`
-- returns; if one of them panics, the program ends there.
unfoldable pub stop : M Gateway (Unit {0}) → Option (Result (Unit {0})) → G (Unit {0})
unfolding begin_stop finish_stop
stop others server g =
    and_stop (begin_stop g) (λ waiting. and_stop (others waiting) (finish_stop server))

abbrev pub lift_unit : Outcome (Unit {0}) × Gateway → Outcome (Result (Unit {0})) × Gateway
lift_unit (returned u, g) = (returned (ok u), g)
lift_unit (panicked, g) = (panicked, g)

-- The server's own `BroadcastToRoom` and `BroadcastToAll`.
unfoldable pub push_to_room : MessageParserInterface → String → Option Body → ℤ → G (Unit {0})
push_to_room parser room_id message exclude_user = do
  push ← lift (parser.create_push_message msg_push_system_msg (pos 0) room_id "" message)
  λ g. lift_unit (broadcast_to_room room_id push exclude_user g)

unfoldable pub push_to_all : MessageParserInterface → Option Body → G (Unit {0})
push_to_all parser message = do
  push ← lift (parser.create_push_message msg_push_broadcast (pos 0) "" "" message)
  λ g. lift_unit (broadcast_to_all push g)
