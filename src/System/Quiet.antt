-- ===== src/System/Quiet.antt =====
-- The events that call no method of the manager: the pushes, the broadcasts, the error report and
-- `Stop`.
use zerogame.Shared.{
  Option, String, ℕ, ◌+◌, sym, ◌≡◌, refl, ◌≤◌, List, [], ◌∷◌, ◌++◌, length, arith, inl, inr,
}
use mathlib.Core.Path.{subst}
use zerogame.Shared.Int.{ℤ}
use zerogame.Shared.Effect.{Outcome, returned, panicked, M, after, after-logged}
use zerogame.Message.{Bytes, WebSocketMessage}
use zerogame.Message.Body.{Body}
use zerogame.Message.Failure.{Result, ok, err, Call}
use zerogame.Parser.{MessageParserInterface}
use mathlib.Core.List.{append_assoc, append-nil}
use zerogame.Server.Connections.{close_all_lem}
use zerogame.Connection.{get_all_connections, Conn}
use zerogame.Gateway.{BroadcastMessage, Gateway, Net, lift, next_of}
use zerogame.Broadcaster.{
  target_conns, log_sent, broadcast_to_room, broadcast_to_all, channel_size, broadcast, send_all,
  process_broadcast_message,
}
use zerogame.Broadcaster.Sending.{Call-cases, broadcast_queue}
use zerogame.Router.{MessageRouter}
use zerogame.Handler.{DefaultMessageHandler}
use zerogame.Server.{
  send_error, reported, close_all, begin_stop, finish_stop, forget, close_conn, lift_unit,
  push_to_room, push_to_all,
}
use zerogame.System.{done, pushes, pushes_all, deliver, play, submit_late}

-- Of the manager no more than the closed sockets change, and the channel keeps within its room.
pub record Quiet (g g' : Gateway) : Type 0 where
  pub closed : List Conn
  pub manager : g'.conn_mgr ≡ record (g.conn_mgr) { closed = closed }
  pub queue : length g.message_ch ≤ channel_size → length g'.message_ch ≤ channel_size

-- The manager and the channel are as they were.
abbrev Keeps : Gateway → Gateway → Type 0
Keeps g g' = (g'.conn_mgr ≡ g.conn_mgr) × (g'.message_ch ≡ g.message_ch)

Keeps-Quiet : (g g' : Gateway) → Keeps g g' → Quiet g g'
Keeps-Quiet g g' (m, q) = record {
  closed = g.conn_mgr.closed;
  manager = m;
  queue = λ fits. rw q fits;
}

-- The result may be forgotten.
done-Quiet :
    {A : Type 0} (g : Gateway) (o : Outcome A × Gateway)
    → Quiet g (after o)
    → Quiet g (after (done o))
done-Quiet g (returned a, g') q = q
done-Quiet g (panicked, g') q = q

lift_unit-Quiet :
    (g : Gateway) (o : Outcome (Unit {0}) × Gateway)
    → Quiet g (after o)
    → Quiet g (after (lift_unit o))
lift_unit-Quiet g (returned u, g') q = q
lift_unit-Quiet g (panicked, g') q = q

broadcast-Quiet : (msg : BroadcastMessage) (g : Gateway) → Quiet g (after (broadcast msg g))
unfolding broadcast
broadcast-Quiet msg g = record {
  closed = g.conn_mgr.closed;
  manager = ground arith;
  queue = λ fits. (broadcast_queue msg g fits).0;
}

-- A call of the parser, and then a broadcast.
pushed-Quiet :
    (c : Call WebSocketMessage) (g : Gateway) (m : WebSocketMessage → M Gateway (Unit {0}))
    → ((push : WebSocketMessage) → Quiet g (after (m push g)))
    → Quiet g (after (done (next_of (lift c g) (λ push g'. lift_unit (m push g')))))
pushed-Quiet (returned (ok push)) g m k = done-Quiet g _ (lift_unit-Quiet g (m push g) (k push))
pushed-Quiet (returned (err e)) g m k = Keeps-Quiet g g (refl, refl)
pushed-Quiet panicked g m k = Keeps-Quiet g g (refl, refl)

close_all_mgr :
    (cs : List Conn) (g : Gateway)
    → (close_all cs g).conn_mgr ≡ record (g.conn_mgr) { closed = g.conn_mgr.closed ++ cs }
unfolding close_all close_conn
close_all_mgr [] g = ground (arith, append-nil g.conn_mgr.closed)
close_all_mgr (c ∷ cs) g =
    ground (arith, close_all_mgr cs (close_conn c g), append_assoc g.conn_mgr.closed (c ∷ []) cs)

pub submit_late-Quiet : (g : Gateway) → Quiet g (after (submit_late g))
unfolding submit_late
submit_late-Quiet g = record {
  closed = g.conn_mgr.closed;
  manager = ground arith;
  queue = λ fits. ground (arith, fits);
}

pub begin_stop-Quiet : (g : Gateway) → Quiet g (after (begin_stop g))
unfolding begin_stop
begin_stop-Quiet g = record {
  closed = g.conn_mgr.closed;
  manager = ground arith;
  queue = λ fits. ground (arith, fits);
}

pub finish_stop-Quiet :
    (server : Option (Result (Unit {0}))) (g : Gateway)
    → Quiet g (after (forget (finish_stop server g)))
unfolding finish_stop
finish_stop-Quiet server g =
    let cs = get_all_connections g.conn_mgr in
    record {
      closed = g.conn_mgr.closed ++ cs;
      manager = close_all_mgr cs g;
      queue = λ fits. rw ((close_all_lem cs g).2) fits;
    }

module _ (net : Net) where
  send_all-Keeps :
      (cs : List Conn) (bytes : Bytes) (n : ℕ) (g : Gateway)
      → Keeps g (after (send_all net cs bytes n g))
  unfolding send_all
  send_all-Keeps [] bytes n g = (refl, refl)
  send_all-Keeps (c ∷ cs) bytes n g = ground (
    arith,
    send_all-Keeps cs bytes n g,
    send_all-Keeps cs bytes (n + 1) (record g { sent = g.sent ++ (c, bytes) ∷ [] }),
  )

  process_broadcast_message-Keeps :
      (parser : MessageParserInterface) (msg : BroadcastMessage) (g : Gateway)
      → Keeps g (after (process_broadcast_message net parser msg g))
  unfolding process_broadcast_message
  process_broadcast_message-Keeps parser msg g =
      let sends = send_all-Keeps (target_conns msg g.conn_mgr) in
      elim (Call-cases (parser.serialize_message msg.message)) [
        | inl (inl (bytes, e)) ↦
            rw (e, process_broadcast_message)
              (logged_sent (send_all net (target_conns msg g.conn_mgr) bytes 0 g) (sends bytes 0 g))
        | inl (inr (x, e)) ↦ simp (e, process_broadcast_message, after-logged) (refl, refl)
        | inr e ↦ simp (e, process_broadcast_message) (refl, refl)
      ]
    where
      logged_sent : (r : Outcome ℕ × Gateway) → Keeps g (after r) → Keeps g (after (log_sent net r))
      logged_sent (returned n, g') k = rw after-logged k
      logged_sent (panicked, g') k = k

  module _ (parser : MessageParserInterface) (router : MessageRouter DefaultMessageHandler) where
    pub reported-Quiet :
        (conn : Conn) (o : Outcome (Result (Unit {0})) × Gateway)
        → Quiet (after o) (after (reported net parser router conn o))
    unfolding send_error
    reported-Quiet conn (returned (ok u), g) = Keeps-Quiet g g (refl, refl)
    reported-Quiet conn (panicked, g) = Keeps-Quiet g g (refl, refl)
    reported-Quiet conn (returned (err e), g) =
        (let g' = after (send_error net parser router conn "Failed to process message" e g) in
          Keeps-Quiet g g' (ground arith))

    pub deliver-Quiet : (g : Gateway) → Quiet g (after (deliver net parser router g))
    unfolding deliver
    deliver-Quiet g = taken (g.message_ch) refl
      where
        taken :
            (q : List BroadcastMessage)
            → g.message_ch ≡ q
            → Quiet g (after (deliver net parser router g))
        taken [] e =
            let empty : deliver net parser router g ≡ (returned tt, g) = simp (e, deliver) in
            subst (λ o. Quiet g (after o)) (sym empty) (Keeps-Quiet g g (refl, refl))
        taken (msg ∷ rest) e =
            let g' = record g { message_ch = rest } in
            let o = process_broadcast_message net parser msg g' in
            let sends : deliver net parser router g ≡ done o = simp (e, deliver) in
            let (same, queued) = process_broadcast_message-Keeps parser msg g' in
            subst (λ o. Quiet g (after o)) (sym sends)
              (done-Quiet g o (record {
                closed = g.conn_mgr.closed;
                manager = same;
                queue = λ fits. ground (arith, fits);
              }))

    pub pushes-Quiet :
        (room_id : String) (message : Option Body) (exclude_user : ℤ) (g : Gateway)
        → Quiet g (after (play net parser router (pushes room_id message exclude_user) g))
    unfolding play push_to_room broadcast_to_room
    pushes-Quiet room_id message exclude_user g =
        pushed-Quiet _ g (λ push. broadcast_to_room room_id push exclude_user)
          (λ push. broadcast-Quiet _ g)

    pub pushes_all-Quiet :
        (message : Option Body) (g : Gateway)
        → Quiet g (after (play net parser router (pushes_all message) g))
    unfolding play push_to_all broadcast_to_all
    pushes_all-Quiet message g = pushed-Quiet _ g broadcast_to_all (λ push. broadcast-Quiet _ g)
