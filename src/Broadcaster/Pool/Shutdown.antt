-- ===== src/Broadcaster/Pool/Shutdown.antt =====
-- What `Shutdown` of the worker pool waits for, and that it comes to an end.
use zerogame.Shared.{
  ℕ, zero, suc, ◌+◌, ◌*◌, ◌<◌, ◌≡◌, refl, ◌∙◌, ◌⊎◌, inl, inr, true, List, [], ◌∷◌, length,
  length-append, Key, arith,
}
use zerogame.Shared.Effect.{panicked, result_of}
use zerogame.Broadcaster.Pool.{
  Crash, submits_late, WorkerPool, new_worker_pool, submit, close_queue, WaitReturns, Step, submits,
  closes, receives, finishes, finishes_detached, leaves, Run, here, next,
}
use zerogame.Broadcaster.Pool.Conservation.{Sound, Step-Sound, Run-Sound, count, tasks_conserved}

module _ {T : Type 0} where
  Step-workers : {p p' : WorkerPool T} {s : List T} → Step T p s p' → p'.workers ≡ p.workers
  unfolding submit close_queue
  Step-workers {p} (submits t open_still) = ground (arith, open_still)
  Step-workers {p} (closes open_still) = ground (arith, open_still)
  Step-workers (receives n t ts i q) = refl
  Step-workers (finishes ts us t r) = refl
  Step-workers (finishes_detached ts us t d) = refl
  Step-workers (leaves n i c q) = refl

  Run-workers :
      (workers queue_size : ℕ) {p : WorkerPool T} {s : List T}
      → Run T (new_worker_pool T workers queue_size) s p
      → p.workers ≡ workers
  unfolding new_worker_pool
  Run-workers workers queue_size here = refl
  Run-workers workers queue_size (next r st) = Step-workers st ∙ Run-workers workers queue_size r

  none_running : (xs : List T) → length xs ≡ 0 → xs ≡ []
  none_running [] e = refl
  none_running (x ∷ xs) e = absurd (omega (arith, e))

  -- When the wait of a pool with a worker returns, the queue is closed and empty, and no worker runs
  -- a task.
  pub WaitReturns-quiet :
      (workers queue_size : ℕ) {p : WorkerPool T} {s : List T}
      → 0 < workers
      → Run T (new_worker_pool T workers queue_size) s p
      → WaitReturns T p
      → (p.queue_closed ≡ true) × (p.task_queue ≡ []) × (p.running ≡ [])
  WaitReturns-quiet workers queue_size {p} some_worker r w =
      let sound = Run-Sound workers queue_size r in
      let all = Run-workers workers queue_size r in
      let (c, q) = last_out p.exited refl sound (omega (arith, w, all, some_worker)) in
      (c, q, none_running p.running (omega (arith, w, sound.hands)))
    where
      last_out :
          (n : ℕ) → p.exited ≡ n → Sound p → 0 < n → (p.queue_closed ≡ true) × (p.task_queue ≡ [])
      last_out zero e sound h = absurd (omega (arith, h))
      last_out (suc n) e sound h = sound.left n e

  -- The steps that are left of a closed pool.
  abbrev pub work_left : WorkerPool T → ℕ
  work_left p = 2 * length p.task_queue + 2 * length p.running + p.idle + length p.detached

  abbrev pub steps : {p p' : WorkerPool T} {s : List T} → Run T p s p' → ℕ
  steps here = 0
  steps (next r st) = suc (steps r)

  closed-Step :
      {p p' : WorkerPool T} {s : List T}
      → Step T p s p'
      → p.queue_closed ≡ true
      → (s ≡ []) × (p'.queue_closed ≡ true) × (work_left p ≡ suc (work_left p'))
  closed-Step (submits t open_still) c = absurd (ground arith)
  closed-Step (closes open_still) c = absurd (ground arith)
  closed-Step {p} (receives n t ts i q) c = (refl, c, ground arith)
  closed-Step {p} (finishes ts us t r) c =
      (refl, c, ground (arith, length-append ts us, length-append ts (t ∷ us)))
  closed-Step {p} (finishes_detached ts us t d) c =
      (refl, c, ground (arith, length-append ts us, length-append ts (t ∷ us)))
  closed-Step {p} (leaves n i c' q) c = (refl, c, ground arith)

  -- Nothing is left to do.
  abbrev pub IsDrained : WorkerPool T → Type 0
  IsDrained p = WaitReturns T p × (p.detached ≡ [])

  abbrev pub CanStep : WorkerPool T → Type 0
  CanStep p = (p' : WorkerPool T) × Step T p [] p'

  progress : (p : WorkerPool T) → Sound p → p.queue_closed ≡ true → IsDrained p ⊎ CanStep p
  progress p sound c = at_idle p.idle refl
    where
      at_queue : (n : ℕ) (q : List T) → p.idle ≡ suc n → p.task_queue ≡ q → CanStep p
      at_queue n [] i e = (_, leaves n i c e)
      at_queue n (t ∷ ts) i e = (_, receives n t ts i e)

      at_detached :
          (d : List T) → p.idle ≡ 0 → p.running ≡ [] → p.detached ≡ d → IsDrained p ⊎ CanStep p
      at_detached [] i r e = inl (ground (arith, sound.hands), e)
      at_detached (t ∷ us) i r e = inr (_, finishes_detached [] us t e)

      at_running : (r : List T) → p.idle ≡ 0 → p.running ≡ r → IsDrained p ⊎ CanStep p
      at_running [] i e = at_detached p.detached i e refl
      at_running (t ∷ us) i e = inr (_, finishes [] us t e)

      at_idle : (n : ℕ) → p.idle ≡ n → IsDrained p ⊎ CanStep p
      at_idle zero i = at_running p.running i refl
      at_idle (suc n) i = inr (at_queue n p.task_queue i refl)

  closed-Run :
      {p p' : WorkerPool T} {s : List T} (r : Run T p s p')
      → Sound p
      → p.queue_closed ≡ true
      → Sound p' × (p'.queue_closed ≡ true) × (s ≡ []) × (work_left p ≡ work_left p' + steps r)
  closed-Run here sound c = (sound, c, refl, omega arith)
  closed-Run (next r st) sound c =
      let (sound', c', e, m) = closed-Run r sound c in
      let (e', c'', m') = closed-Step st c' in
      (Step-Sound st sound', c'', ground arith, omega (arith, m, m'))

  submit-closed :
      (p : WorkerPool T) (t : T) → p.queue_closed ≡ true → result_of (submit T t p) ≡ panicked
  unfolding submit
  submit-closed p t c = ground arith

  -- Once the queue of a pool is closed, no schedule that the program survives submits a task, and one
  -- more `Submit`, whenever it comes, ends the program; the number of steps left is
  -- fixed, one less after each, and as long as the wait of `Shutdown` has not returned, or a
  -- goroutine still runs a task of its own, some step is possible: no schedule goes on for ever, and
  -- none gets stuck before.
  pub shutdown_drains :
      (workers queue_size : ℕ) {p p' : WorkerPool T} {s s' : List T}
      → Run T (new_worker_pool T workers queue_size) s p
      → p.queue_closed ≡ true
      → (r : Run T p s' p')
      → (s' ≡ [])
        × (work_left p ≡ work_left p' + steps r)
        × (IsDrained p' ⊎ CanStep p')
        × ((t : T) → Crash T p' (t ∷ []))
  shutdown_drains workers queue_size {p} {p'} reached c r =
      let (sound, c', e, m) = closed-Run r (Run-Sound workers queue_size reached) c in
      (e, m, progress p' sound c', λ t. submits_late t (submit-closed p' t c'))

module _ {T : Type 0} ⦃key : Key T⦄ where
  -- When the wait of `Shutdown` returns in a pool with a worker, every task that was submitted has
  -- finished, but those that found the queue full and run in goroutines of their own: for these it
  -- has not waited.
  pub shutdown_leaves :
      (workers queue_size : ℕ) {p : WorkerPool T} {s : List T} (t : T)
      → 0 < workers
      → Run T (new_worker_pool T workers queue_size) s p
      → WaitReturns T p
      → count t s ≡ count t p.finished + count t p.detached
  shutdown_leaves workers queue_size {p} t some_worker r w =
      let (c, q, e) = WaitReturns-quiet workers queue_size some_worker r w in
      ground (arith, q, e, tasks_conserved workers queue_size t r)
