-- ===== src/Broadcaster/Loop.antt =====
-- server/gateway_ws/internal/manager/broadcaster.go: `processMessages` and `Stop`.
--
-- The `select` of `processMessages` may take either of two ready cases, so which it takes at each
-- turn is an argument. Between two turns the workers of the pool may run; the theorems here are
-- about turns in which they do not.
use zerogame.Shared.{
  ℕ, zero, suc, ◌+◌, ◌<◌, ◌≡◌, refl, ◌≢◌, Bool, true, false, List, [], ◌∷◌, ◌++◌, length,
  length-append, take, drop, if◌then◌else◌, arith,
}
use mathlib.Core.List.{append_assoc, append-nil}
use zerogame.Shared.Effect.{M, Outcome, returned, panicked, after, result_of}
use zerogame.Broadcaster.Pool.{WorkerPool, new_worker_pool, submit, close_queue}

module _ (T : Type 0) where
  -- `messageCh`, whether it is closed, and the pool.
  pub record Pump : Type 0 where
    pub message_ch : List T
    pub message_ch_closed : Bool
    pub pool : WorkerPool T

  -- `NewBroadcaster`, whose channel has room for 1000 messages.
  unfoldable pub new_broadcaster : ℕ → Pump
  new_broadcaster workers = record {
    message_ch = [];
    message_ch_closed = false;
    pool = new_worker_pool T workers 10000;
  }

  -- Which case the `select` takes, and what becomes of the loop.
  pub data Case : Type 0 where
    ctx_done message : Case

  pub data Turn : Type 0 where
    returns goes_on waits : Turn

  abbrev submitted : Outcome (Unit {0}) × WorkerPool T → Pump → Outcome Turn × Pump
  submitted (returned u, pool) p = (returned goes_on, record p { pool = pool })
  submitted (panicked, pool) p = (panicked, record p { pool = pool })

  -- One turn of the loop.
  unfoldable turn : Case → M Pump Turn
  turn ctx_done p = (returned returns, p)
  turn message p = elim (p.message_ch) [
    | [] ↦ (returned (if p.message_ch_closed then returns else waits), p)
    | msg ∷ rest ↦ submitted (submit T msg p.pool) (record p { message_ch = rest })
  ]

  abbrev and_on : Outcome Turn × Pump → M Pump Turn → Outcome Turn × Pump
  and_on (returned goes_on, p) rest = rest p
  and_on (returned t, p) rest = (returned t, p)
  and_on (panicked, p) rest = (panicked, p)

  -- The loop, for as many turns as cases are given.
  unfoldable pub process_messages : List Case → M Pump Turn
  unfolding turn
  process_messages [] p = (returned goes_on, p)
  process_messages (c ∷ cs) p = and_on (turn c p) (process_messages cs)

  abbrev pool_closed : Outcome (Unit {0}) × WorkerPool T → Pump → Outcome (Unit {0}) × Pump
  pool_closed (o, pool) p = (o, record p { pool = pool })

  -- `Stop`, up to the wait of `Shutdown`.
  unfoldable pub stop_broadcaster : M Pump (Unit {0})
  stop_broadcaster p =
      if p.message_ch_closed
      then (panicked, p)
      else pool_closed (close_queue T p.pool) (record p { message_ch_closed = true })

  -- A turn of the receive for each message, and one more.
  abbrev pub turns : List T → List Case
  turns [] = message ∷ []
  turns (m ∷ ms) = message ∷ turns ms

module _ {T : Type 0} where
  abbrev pub pump : List T → Bool → WorkerPool T → Pump T
  pump ms closed w = record { message_ch = ms; message_ch_closed = closed; pool = w }

  -- A pool with room for `n` tasks in its queue, when it was handed all of the messages.
  abbrev pub given : List T → ℕ → WorkerPool T → WorkerPool T
  given ms n w = record w {
    task_queue = w.task_queue ++ take n ms;
    detached = w.detached ++ drop n ms;
  }

  -- While no worker runs, the loop hands every message that waits to the pool, in order: as many as
  -- fit go to its queue, each of the others to a goroutine of its own, and the loop then ends if the
  -- channel is closed, and waits if it is not.
  pub process_messages_hands_over :
      (ms : List T) (n : ℕ) (closed : Bool) (w : WorkerPool T)
      → w.queue_closed ≡ false
      → length w.task_queue + n ≡ w.queue_size
      → process_messages T (turns T ms) (pump ms closed w)
        ≡ (returned (if closed then returns else waits), pump [] closed (given ms n w))
  unfolding process_messages turn submit
  process_messages_hands_over [] zero closed w open_still room =
      ground (arith, append-nil w.task_queue, append-nil w.detached)
  process_messages_hands_over [] (suc n) closed w open_still room =
      ground (arith, append-nil w.task_queue, append-nil w.detached)
  process_messages_hands_over (m ∷ ms) zero closed w open_still room =
      let w' = record w { detached = w.detached ++ m ∷ [] } in
      ground (
        arith,
        process_messages_hands_over ms zero closed w',
        append-nil w.task_queue,
        append_assoc w.detached (m ∷ []) ms,
      )
  process_messages_hands_over (m ∷ ms) (suc n) closed w open_still room =
      let w' = record w { task_queue = w.task_queue ++ m ∷ [] } in
      ground (
        arith,
        process_messages_hands_over ms n closed w',
        length-append w.task_queue (m ∷ []),
        append_assoc w.task_queue (m ∷ []) (take n ms),
      )

  -- When `Stop` is called with the channel and the pool's queue open and a message still waits after
  -- it, the loop of `processMessages` panics if its next `select` takes the receive.
  pub process_messages_panics :
      (p : Pump T)
      → p.message_ch ≢ []
      → p.message_ch_closed ≡ false
      → p.pool.queue_closed ≡ false
      → (cs : List (Case T))
      → result_of (process_messages T (message ∷ cs) (after (stop_broadcaster T p))) ≡ panicked
  unfolding process_messages turn submit stop_broadcaster close_queue
  process_messages_panics p some_left open_still pool_open cs = ground arith

  -- The loop is over: it returned, or it panicked.
  abbrev pub is_over : Outcome (Turn T) → Bool
  is_over (returned returns) = true
  is_over (returned goes_on) = false
  is_over (returned waits) = false
  is_over panicked = true

  over-submitted :
      (ms : List T) (v : WorkerPool T) (cs : List (Case T))
      → ((w : WorkerPool T) → is_over (result_of (process_messages T cs (pump ms true w))) ≡ true)
      → (r : Outcome (Unit {0}) × WorkerPool T)
      → is_over (result_of (and_on T (submitted T r (pump ms true v)) (process_messages T cs)))
        ≡ true
  over-submitted ms v cs ends (returned u, w) = ends w
  over-submitted ms v cs ends (panicked, w) = refl

  -- Once `messageCh` is closed the loop ends, whatever the pool and whichever ready case each
  -- `select` takes: after at most one turn for each message that waits and one more it has returned
  -- or panicked.
  pub process_messages_ends :
      (ms : List T) (w : WorkerPool T) (cs : List (Case T))
      → length ms < length cs
      → is_over (result_of (process_messages T cs (pump ms true w))) ≡ true
  unfolding process_messages turn
  process_messages_ends ms w [] enough = absurd (omega arith)
  process_messages_ends ms w (ctx_done ∷ cs) enough = refl
  process_messages_ends [] w (message ∷ cs) enough = refl
  process_messages_ends (m ∷ ms) w (message ∷ cs) enough =
      over-submitted ms w cs (λ w'. process_messages_ends ms w' cs (omega arith)) (submit T m w)
