-- ===== src/Server/Connections.antt =====
-- What server.go leaves of a connection that ends, and of all of them at a stop.
use zerogame.Shared.{
  ℕ, ◌≡◌, refl, sym, ap, inl, inr, true, false, none, List, [], ◌∷◌, ◌++◌, elem, elem-append,
  nat_key, arith,
}
use mathlib.Core.List.{append_assoc, append-nil}
use zerogame.Shared.{Option, ◌⊎◌}
use zerogame.Shared.GoMap.{get, is_some, elem-keys}
use zerogame.Shared.Effect.{M}
use zerogame.Message.Failure.{Result}
use zerogame.Shared.Effect.{Outcome, returned, panicked, after, result_of}
use zerogame.Parser.{MessageParserInterface}
use zerogame.Connection.{
  Conn, ConnectionManager, remove_connection, get_client_connection, get_all_connections,
}
use zerogame.Connection.Lookups.{remove_connection-eq-internal, get-remove_connection_internal}
use zerogame.Gateway.{Gateway, Net, lifted}
use zerogame.Router.{MessageRouter}
use zerogame.Handler.{DefaultMessageHandler}
use zerogame.Server.{
  Incoming, close_conn, close_all, serve, handle_connection, begin_stop, finish_stop, and_stop,
  shutdown_result, stop, forget, finished,
}

-- The deferred function drops the connection from a manager and leaves its socket closed.
forgets_lem :
    (conn : Conn) (cm : ConnectionManager)
    → let cm' = after (remove_connection conn (record cm { closed = cm.closed ++ conn ∷ [] })) in
      (get_client_connection conn cm' ≡ none) × (elem conn cm'.closed ≡ true)
unfolding get_client_connection
forgets_lem conn cm =
    let shut = record cm { closed = cm.closed ++ conn ∷ [] } in
    rw (remove_connection-eq-internal shut conn) (
      ground (arith, get-remove_connection_internal shut conn conn),
      ground (arith, elem-append conn cm.closed (conn ∷ [])),
    )

after-forget :
    (r : Outcome (Unit {0}) × ConnectionManager) (g : Gateway)
    → after (forget (lifted r g)) ≡ record g { conn_mgr = after r }
after-forget (returned u, cm) g = refl
after-forget (panicked, cm) g = refl

after-finished :
    (net : Net) (parser : MessageParserInterface) (router : MessageRouter DefaultMessageHandler)
    (conn : Conn) (r : Outcome (Unit {0}) × Gateway)
    → (after (finished net parser router conn r)).conn_mgr
      ≡ after (
          remove_connection conn
            (record ((after r).conn_mgr) { closed = (after r).conn_mgr.closed ++ conn ∷ [] }))
unfolding close_conn
after-finished net parser router conn (returned u, g) =
    ap (λ h. h.conn_mgr) (after-forget _ (close_conn conn g))
after-finished net parser router conn (panicked, g) =
    ap (λ h. h.conn_mgr) (after-forget _ (close_conn conn g))

-- However the loop of a connection ends, by a read error, a close frame or a panic, the deferred
-- function closes its socket, and the manager holds the connection no more.
pub handle_connection_forgets :
    (net : Net) (parser : MessageParserInterface) (router : MessageRouter DefaultMessageHandler)
    (conn : Conn) (events : List (ℕ × Incoming)) (g : Gateway)
    → let g' = after (handle_connection net parser router conn events g) in
      (get_client_connection conn g'.conn_mgr ≡ none) × (elem conn g'.conn_mgr.closed ≡ true)
unfolding handle_connection
handle_connection_forgets net parser router conn events g =
    rw (after-finished net parser router conn (serve net parser router conn events g))
      (forgets_lem conn (after (serve net parser router conn events g)).conn_mgr)

pub close_all_lem :
    (cs : List Conn) (g : Gateway)
    → ((close_all cs g).conn_mgr.closed ≡ g.conn_mgr.closed ++ cs)
      × ((close_all cs g).message_ch_closed ≡ g.message_ch_closed)
      × ((close_all cs g).message_ch ≡ g.message_ch)
unfolding close_all close_conn
close_all_lem [] g = (sym (append-nil g.conn_mgr.closed), refl, refl)
close_all_lem (c ∷ cs) g =
    ground (arith, close_all_lem cs (close_conn c g), append_assoc g.conn_mgr.closed (c ∷ []) cs)

-- What `Stop` leaves after its wait: every connection that the manager then holds has its socket
-- closed.
finish_stop_closes :
    (server : Option (Result (Unit {0}))) (g : Gateway) (c : Conn)
    → is_some (get c g.conn_mgr.connections) ≡ true
    → elem c (after (finish_stop server g)).conn_mgr.closed ≡ true
unfolding finish_stop get_all_connections
finish_stop_closes server g c held =
    let cs = get_all_connections g.conn_mgr in
    rw ((close_all_lem cs g).0)
      (ground (arith, held, elem-append c g.conn_mgr.closed cs, elem-keys c g.conn_mgr.connections))

-- `Stop`, whatever the other goroutines do to the gateway while it waits for the workers of the
-- pool: with the broadcast channel closed before, it panics; with the channel and the task queue
-- open, it closes both and waits; if another goroutine panics meanwhile, the program ends there, and
-- otherwise `Stop` returns what the HTTP server's `Shutdown` answers, with the socket closed of every
-- connection that the manager holds at the end of the wait, also of those that came during it.
pub stop_closes :
    (others : M Gateway (Unit {0})) (server : Option (Result (Unit {0}))) (g : Gateway)
    → let waited = others (record g { message_ch_closed = true; task_queue_closed = true }) in
      let stopped = stop others server g in
      (g.message_ch_closed ≡ true → stopped ≡ (panicked, g))
      × (g.message_ch_closed ≡ false
          → g.task_queue_closed ≡ false
          → ((result_of waited ≡ panicked) × (stopped ≡ (panicked, after waited)))
            ⊎ ((result_of stopped ≡ returned (shutdown_result server))
                × ((c : Conn)
                    → is_some (get c (after waited).conn_mgr.connections) ≡ true
                    → elem c (after stopped).conn_mgr.closed ≡ true)))
unfolding stop begin_stop finish_stop
stop_closes others server g = (
  λ shut. rw (shut, begin_stop) refl,
  λ open_still open_tasks.
      rw (open_still, begin_stop, open_tasks)
        (ends (others (record g { message_ch_closed = true; task_queue_closed = true }))),
)
  where
    ends :
        (o : Outcome (Unit {0}) × Gateway)
        → let stopped = and_stop o (finish_stop server) in
          ((result_of o ≡ panicked) × (stopped ≡ (panicked, after o)))
          ⊎ ((result_of stopped ≡ returned (shutdown_result server))
              × ((c : Conn)
                  → is_some (get c (after o).conn_mgr.connections) ≡ true
                  → elem c (after stopped).conn_mgr.closed ≡ true))
    ends (returned u, g') = inr (refl, finish_stop_closes server g')
    ends (panicked, g') = inl (refl, refl)

-- From the wait of `Stop` on, called once or more often, the broadcast channel is closed.
pub begin_stop-closed : (g : Gateway) → (after (begin_stop g)).message_ch_closed ≡ true
unfolding begin_stop
begin_stop-closed g = ground arith
