-- ===== src/Broadcaster/Pool/Tests.antt =====
-- The worker pool of broadcaster.go on a run of nine steps.
use zerogame.Shared.{ℕ, suc, ◌+◌, ◌≡◌, refl, ◌⊎◌, true, List, [], ◌∷◌, nat_key}
use zerogame.Shared.Effect.{after}
use zerogame.Broadcaster.Pool.{
  Crash, WorkerPool, new_worker_pool, submit, close_queue, WaitReturns, submits, closes, receives,
  finishes, leaves, Run, here, next,
}
use zerogame.Broadcaster.Pool.Conservation.{count, held, tasks_conserved}
use zerogame.Broadcaster.Pool.Overtaking.{tasks_overtake}
use zerogame.Broadcaster.Pool.Shutdown.{work_left, steps, IsDrained, CanStep, shutdown_drains}

-- One worker and a queue of one: of three tasks the worker takes the first, the second waits, and
-- the third finds the queue full. The queue is then closed, and the worker goes on to the second.
abbrev pool_0 : WorkerPool ℕ
pool_0 = new_worker_pool ℕ 1 1

abbrev pool_1 : WorkerPool ℕ
pool_1 = after (submit ℕ 10 pool_0)

abbrev pool_2 : WorkerPool ℕ
pool_2 = record pool_1 { idle = 0; task_queue = []; running = 10 ∷ pool_1.running }

abbrev pool_3 : WorkerPool ℕ
pool_3 = after (submit ℕ 20 pool_2)

abbrev pool_4 : WorkerPool ℕ
pool_4 = after (submit ℕ 30 pool_3)

abbrev pool_5 : WorkerPool ℕ
pool_5 = after (close_queue ℕ pool_4)

abbrev pool_6 : WorkerPool ℕ
pool_6 = record pool_5 { idle = suc pool_5.idle; running = []; finished = 10 ∷ pool_5.finished }

abbrev pool_7 : WorkerPool ℕ
pool_7 = record pool_6 { idle = 0; task_queue = []; running = 20 ∷ pool_6.running }

abbrev pool_8 : WorkerPool ℕ
pool_8 = record pool_7 { idle = suc pool_7.idle; running = []; finished = 20 ∷ pool_7.finished }

abbrev pool_9 : WorkerPool ℕ
pool_9 = record pool_8 { idle = 0; exited = suc pool_8.exited }

pool_5-Run : Run ℕ pool_0 (10 ∷ 20 ∷ 30 ∷ []) pool_5
unfolding new_worker_pool submit
pool_5-Run =
    next
      (next
        (next (next (next here (submits 10 refl)) (receives 0 10 [] refl refl)) (submits 20 refl))
        (submits 30 refl))
      (closes refl)

pool_9-Run : Run ℕ pool_5 [] pool_9
unfolding new_worker_pool submit close_queue
pool_9-Run =
    next
      (next (next (next here (finishes [] [] 10 refl)) (receives 0 20 [] refl refl))
        (finishes [] [] 20 refl))
      (leaves 0 refl refl refl)

pool_5_closed : pool_5.queue_closed ≡ true
unfolding new_worker_pool submit close_queue
pool_5_closed = refl

pool_9_waited : WaitReturns ℕ pool_9
unfolding new_worker_pool submit close_queue
pool_9_waited = refl

-- All nine steps.
pool-Run : Run ℕ pool_0 (10 ∷ 20 ∷ 30 ∷ []) pool_9
unfolding new_worker_pool submit close_queue
pool-Run =
    next
      (next (next (next pool_5-Run (finishes [] [] 10 refl)) (receives 0 20 [] refl refl))
        (finishes [] [] 20 refl))
      (leaves 0 refl refl refl)

tasks_conserved_example : held 30 pool_5 ≡ count {T = ℕ} 30 (10 ∷ 20 ∷ 30 ∷ [])
tasks_conserved_example = tasks_conserved 1 1 30 pool_5-Run

shutdown_drains_example :
    (◌≡◌ {A = List ℕ} [] [])
    × (work_left pool_5 ≡ work_left pool_9 + steps pool_9-Run)
    × (IsDrained pool_9 ⊎ CanStep pool_9)
    × ((t : ℕ) → Crash ℕ pool_9 (t ∷ []))
shutdown_drains_example = shutdown_drains 1 1 pool_5-Run pool_5_closed pool_9-Run

-- The pool of `NewWebSocketServerWithParser`, with two broadcasts.
tasks_overtake_example :
    ((p : WorkerPool ℕ) × Run ℕ (new_worker_pool ℕ 10 10000) (1 ∷ 2 ∷ []) p
      × (p.running ≡ 2 ∷ 1 ∷ []))
    × ((p : WorkerPool ℕ) × Run ℕ (new_worker_pool ℕ 10 10000) (1 ∷ 2 ∷ []) p
        × (p.running ≡ 1 ∷ [])
        × (p.finished ≡ 2 ∷ []))
tasks_overtake_example = tasks_overtake 8 9998 1 2
