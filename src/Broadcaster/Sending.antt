-- ===== src/Broadcaster/Sending.antt =====
-- What `processBroadcastMessage` of broadcaster.go puts on the sockets, and the queue before it.
use zerogame.Shared.{
  ℕ, ◌+◌, ◌≤◌, ◌<◌, ◌≡◌, false, refl, inl, inr, ◌⊎◌, ◌∙◌, true, none, some, List, [], ◌∷◌, ◌++◌,
  length, length-append, arith,
}
use mathlib.Core.List.{append_assoc, append-nil}
use zerogame.Shared.Effect.{Outcome, returned, panicked, after, Logger, result_of, nil, ready}
use zerogame.Message.{Bytes}
use zerogame.Message.Failure.{Error, ok, err, Call, success, failure}
use zerogame.Parser.{MessageParserInterface}
use zerogame.Connection.{Conn}
use zerogame.Gateway.{BroadcastMessage, Gateway, Net}
use zerogame.Broadcaster.{
  channel_size, broadcast, send_all, log_sent, process_broadcast_message, target_conns,
}

-- The frames that a loop over the connections sends, given the frames sent before: each write is
-- tried once, in order, and one that fails sends nothing.
abbrev pub delivered : Net → List (Conn × Bytes) → List Conn → Bytes → List (Conn × Bytes)
delivered net before [] bytes = []
delivered net before (c ∷ cs) bytes = elim (net.write_error before c bytes) [
  | none ↦ (c, bytes) ∷ delivered net (before ++ (c, bytes) ∷ []) cs bytes
  | some e ↦ delivered net before cs bytes
]

pub Call-cases :
    {A : Type 0} (c : Call A)
    → (((a : A) × (c ≡ success a)) ⊎ ((e : Error) × (c ≡ failure e))) ⊎ (c ≡ panicked)
Call-cases (returned (ok a)) = inl (inl (a, refl))
Call-cases (returned (err e)) = inl (inr (e, refl))
Call-cases panicked = inr refl

module _ (net : Net) where
  send_all_lem :
      (cs : List Conn) (bytes : Bytes) (count : ℕ) (g : Gateway)
      → g.logger ≡ ready
      → send_all net cs bytes count g ≡ (
        returned (count + length (delivered net g.sent cs bytes)),
        record g { sent = g.sent ++ delivered net g.sent cs bytes },
      )
  unfolding send_all
  send_all_lem [] bytes count g live = ground (arith, append-nil g.sent)
  send_all_lem (c ∷ cs) bytes count g live =
      let later = record g { sent = g.sent ++ (c, bytes) ∷ [] } in
      ground (
        arith,
        send_all_lem cs bytes count g live,
        send_all_lem cs bytes (count + 1) later live,
        append_assoc g.sent ((c, bytes) ∷ []) (delivered net later.sent cs bytes),
      )

  send_all-logger :
      (cs : List Conn) (bytes : Bytes) (count : ℕ) (g : Gateway)
      → (after (send_all net cs bytes count g)).logger ≡ g.logger
  unfolding send_all
  send_all-logger [] bytes count g = refl
  send_all-logger (c ∷ cs) bytes count g = ground (
    arith,
    send_all-logger cs bytes count g,
    send_all-logger cs bytes (count + 1) (record g { sent = g.sent ++ (c, bytes) ∷ [] }),
  )

  log_sent_panics :
      (r : Outcome ℕ × Gateway) → (after r).logger ≡ nil → result_of (log_sent net r) ≡ panicked
  log_sent_panics (returned n, g) dead = ground arith
  log_sent_panics (panicked, g) dead = refl

  -- With a logger that is set and a message that serialises, every target is tried, a failed write
  -- stops nobody else's, the count is the number of frames sent, and nothing but the frames changes.
  pub process_broadcast_message_delivers :
      (parser : MessageParserInterface) (msg : BroadcastMessage) (g : Gateway) (bytes : Bytes)
      → g.logger ≡ ready
      → parser.serialize_message msg.message ≡ success bytes
      → let frames = delivered net g.sent (target_conns msg g.conn_mgr) bytes in
        process_broadcast_message net parser msg g
        ≡ (returned (length frames), record g { sent = g.sent ++ frames })
  unfolding process_broadcast_message
  process_broadcast_message_delivers parser msg g bytes live written =
      rw
        (
          written,
          process_broadcast_message,
          send_all_lem (target_conns msg g.conn_mgr) bytes 0 g live,
        )
        (ground arith)

  -- With the logger that `NewBroadcaster` leaves unset every broadcast ends in a panic, whatever the
  -- message and the sockets.
  pub process_broadcast_message_panics :
      (parser : MessageParserInterface) (msg : BroadcastMessage) (g : Gateway)
      → g.logger ≡ nil
      → result_of (process_broadcast_message net parser msg g) ≡ panicked
  unfolding process_broadcast_message
  process_broadcast_message_panics parser msg g dead =
      let targets = target_conns msg g.conn_mgr in
      elim (Call-cases (parser.serialize_message msg.message)) [
        | inl (inl (bytes, e)) ↦
            rw (e, process_broadcast_message)
              (log_sent_panics (send_all net targets bytes 0 g)
                (send_all-logger targets bytes 0 g ∙ dead))
        | inl (inr (x, e)) ↦ rw (e, process_broadcast_message) (ground arith)
        | inr e ↦ rw (e, process_broadcast_message)
      ]

-- What a log line comes to.
abbrev pub written_to : Logger → Outcome (Unit {0})
written_to ready = returned tt
written_to nil = panicked

-- `Broadcast` on a channel that holds at most 1000 messages, and then still does: closed, it panics;
-- open with room, it returns with the message added last; open and full, it drops the message, and
-- returns if the broadcaster has a logger and panics if it has none. Where it does not add the
-- message it changes nothing at all.
pub broadcast_queue :
    (msg : BroadcastMessage) (g : Gateway)
    → length g.message_ch ≤ channel_size
    → let g' = after (broadcast msg g) in
      (length g'.message_ch ≤ channel_size)
      × (g.message_ch_closed ≡ true → broadcast msg g ≡ (panicked, g))
      × (g.message_ch_closed ≡ false
          → length g.message_ch < channel_size
          → broadcast msg g ≡ (returned tt, record g { message_ch = g.message_ch ++ msg ∷ [] }))
      × (g.message_ch_closed ≡ false
          → length g.message_ch ≡ channel_size
          → broadcast msg g ≡ (written_to g.logger, g))
unfolding broadcast
broadcast_queue msg g small = (
  ground (arith, length-append g.message_ch (msg ∷ [])),
  λ c. ground (arith, c),
  λ o room. ground (arith, o, room),
  λ o full. full_channel o full,
)
  where
    full_channel :
        g.message_ch_closed ≡ false
        → length g.message_ch ≡ channel_size
        → broadcast msg g ≡ (written_to g.logger, g)
    full_channel o full = ground (arith, o, full)
