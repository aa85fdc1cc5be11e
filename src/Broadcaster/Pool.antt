-- ===== src/Broadcaster/Pool.antt =====
-- server/gateway_ws/internal/manager/broadcaster.go: `WorkerPool`.
--
-- The goroutines are a step relation: a worker waits at the channel (`idle`), runs a task
-- (`running`) or has called `wg.Done` (`exited`). A task is of any type `T`; `detached` are those
-- that `go task()` runs, and `finished` those that have returned, by either way. Nothing in the
-- program bounds how long a task takes. A worker leaves only when the channel is closed and empty.
pub mod Conservation
pub mod Shutdown
pub mod Overtaking
mod Tests
use zerogame.Shared.{
  ℕ, suc, ◌+◌, ◌≡◌, Bool, true, false, List, [], ◌∷◌, ◌++◌, length, ltb, if◌then◌else◌,
}
use zerogame.Shared.Effect.{M, returned, panicked, after, result_of}

module _ (T : Type 0) where
  pub record WorkerPool : Type 0 where
    pub workers : ℕ
    pub queue_size : ℕ
    pub task_queue : List T
    pub queue_closed : Bool
    pub idle : ℕ
    pub running : List T
    pub exited : ℕ
    pub detached : List T
    pub finished : List T

  -- Each `go wp.worker()` comes to the receive.
  unfoldable pub new_worker_pool : ℕ → ℕ → WorkerPool
  new_worker_pool workers queue_size = record {
    workers = workers;
    queue_size = queue_size;
    task_queue = [];
    queue_closed = false;
    idle = workers;
    running = [];
    exited = 0;
    detached = [];
    finished = [];
  }

  -- A send on a closed channel panics, also in a `select` with a default.
  unfoldable pub submit : T → M WorkerPool (Unit {0})
  submit task p =
      if p.queue_closed
      then (panicked, p)
      else if ltb (length p.task_queue) p.queue_size
      then (returned tt, record p { task_queue = p.task_queue ++ task ∷ [] })
      else (returned tt, record p { detached = p.detached ++ task ∷ [] })

  -- The `close` of `Shutdown`, which waits for the workers after it.
  unfoldable pub close_queue : M WorkerPool (Unit {0})
  close_queue p =
      if p.queue_closed then (panicked, p) else (returned tt, record p { queue_closed = true })

  -- `wg.Wait()` returns.
  abbrev pub WaitReturns : WorkerPool → Type 0
  WaitReturns p = p.exited ≡ p.workers

  -- One step of any goroutine that the program survives, with the tasks that it submits.
  pub data Step (p : WorkerPool) : List T → WorkerPool → Type 0 where
    submits : (t : T) → p.queue_closed ≡ false → Step p (t ∷ []) (after (submit t p))
    closes : p.queue_closed ≡ false → Step p [] (after (close_queue p))
    receives :
        (n : ℕ) (t : T) (ts : List T)
        → p.idle ≡ suc n
        → p.task_queue ≡ t ∷ ts
        → Step p [] (record p { idle = n; task_queue = ts; running = t ∷ p.running })
    finishes :
        (ts us : List T) (t : T)
        → p.running ≡ ts ++ t ∷ us
        → Step p [] (record p { idle = suc p.idle; running = ts ++ us; finished = t ∷ p.finished })
    finishes_detached :
        (ts us : List T) (t : T)
        → p.detached ≡ ts ++ t ∷ us
        → Step p [] (record p { detached = ts ++ us; finished = t ∷ p.finished })
    leaves :
        (n : ℕ)
        → p.idle ≡ suc n
        → p.queue_closed ≡ true
        → p.task_queue ≡ []
        → Step p [] (record p { idle = n; exited = suc p.exited })

  -- A step of any goroutine that ends the program, with the tasks that it submits: a `Submit` or a
  -- `Shutdown` that finds the channel closed panics, and no goroutine makes a step after it.
  pub data Crash (p : WorkerPool) : List T → Type 0 where
    submits_late : (t : T) → result_of (submit t p) ≡ panicked → Crash p (t ∷ [])
    closes_twice : result_of (close_queue p) ≡ panicked → Crash p []

  -- Any number of steps, with all the tasks that they submit.
  pub data Run (start : WorkerPool) : List T → WorkerPool → Type 0 where
    here : Run start [] start
    next :
        {s s' : List T} {p p' : WorkerPool} → Run start s p → Step p s' p' → Run start (s ++ s') p'
