-- ===== src/Broadcaster/Pool/Conservation.antt =====
-- No task of the worker pool is lost or run twice, and no worker.
use zerogame.Shared.{
  ℕ, suc, ◌+◌, ◌≤◌, ◌≡◌, refl, true, false, List, [], ◌∷◌, ◌++◌, length, length-append, ltb,
  if◌then◌else◌, ◌==◌, Key, arith, Bool-cases, inl, inr,
}
use zerogame.Shared.Effect.{after}
use zerogame.Broadcaster.Pool.{
  WorkerPool, new_worker_pool, submit, close_queue, Step, submits, closes, receives, finishes,
  finishes_detached, leaves, Run, here, next,
}

module _ {T : Type 0} where
  -- Every worker waits, runs a task or has left; the queue keeps its size; and who has left has seen
  -- the queue closed and empty.
  pub record Sound (p : WorkerPool T) : Type 0 where
    pub hands : p.idle + length p.running + p.exited ≡ p.workers
    pub room : length p.task_queue ≤ p.queue_size
    pub left : (n : ℕ) → p.exited ≡ suc n → (p.queue_closed ≡ true) × (p.task_queue ≡ [])

  submit-Sound :
      (p : WorkerPool T) (t : T) → p.queue_closed ≡ false → Sound p → Sound (after (submit T t p))
  unfolding submit
  submit-Sound p t open_still w = elim (Bool-cases (ltb (length p.task_queue) p.queue_size)) [
    | inl fits ↦
        simp (open_still, fits, submit)
          (record {
            hands = w.hands;
            room = ground (arith, length-append p.task_queue (t ∷ []));
            left = λ n e. absurd (ground (arith, w.left n e));
          })
    | inr full ↦
        simp (open_still, full, submit)
          (record {
            hands = w.hands;
            room = w.room;
            left = λ n e. absurd (ground (arith, w.left n e));
          })
  ]

  close_queue-Sound :
      (p : WorkerPool T) → p.queue_closed ≡ false → Sound p → Sound (after (close_queue T p))
  unfolding close_queue
  close_queue-Sound p open_still w =
      simp (open_still, close_queue)
        (record {
          hands = w.hands;
          room = w.room;
          left = λ n e. absurd (ground (arith, w.left n e));
        })

  pub Step-Sound : {p p' : WorkerPool T} {s : List T} → Step T p s p' → Sound p → Sound p'
  Step-Sound {p} (submits t open_still) w = submit-Sound p t open_still w
  Step-Sound {p} (closes open_still) w = close_queue-Sound p open_still w
  Step-Sound {p} (receives n t ts i q) w = record {
    hands = ground (arith, w.hands);
    room = ground (arith, w.room);
    left = λ m e. absurd (ground (arith, w.left m));
  }
  Step-Sound {p} (finishes ts us t r) w = record {
    hands = ground (arith, w.hands, length-append ts us, length-append ts (t ∷ us));
    room = w.room;
    left = w.left;
  }
  Step-Sound {p} (finishes_detached ts us t d) w = record {
    hands = w.hands;
    room = w.room;
    left = w.left;
  }
  Step-Sound {p} (leaves n i c q) w = record {
    hands = ground (arith, w.hands);
    room = w.room;
    left = λ m e. (c, q);
  }

  pub Run-Sound :
      (workers queue_size : ℕ) {p : WorkerPool T} {s : List T}
      → Run T (new_worker_pool T workers queue_size) s p
      → Sound p
  unfolding new_worker_pool
  Run-Sound workers queue_size here = record {
    hands = omega arith;
    room = omega arith;
    left = λ n e. absurd (omega (arith, e));
  }
  Run-Sound workers queue_size (next r st) = Step-Sound st (Run-Sound workers queue_size r)

module _ {T : Type 0} ⦃key : Key T⦄ where
  -- How often a task stands in a list.
  abbrev pub count : T → List T → ℕ
  count t [] = 0
  count t (x ∷ xs) = if x == t then suc (count t xs) else count t xs

  pub count-append : (t : T) (xs ys : List T) → count t (xs ++ ys) ≡ count t xs + count t ys
  count-append t [] ys = omega arith
  count-append t (x ∷ xs) ys = ground (arith, count-append t xs ys)

  abbrev pub held : T → WorkerPool T → ℕ
  held t p = count t p.task_queue + count t p.running + count t p.detached + count t p.finished

  Step-held :
      (t : T) {p p' : WorkerPool T} {s : List T} → Step T p s p' → held t p' ≡ held t p + count t s
  unfolding submit close_queue
  Step-held t {p} (submits u open_still) =
      ground (
        arith,
        open_still,
        count-append t p.task_queue (u ∷ []),
        count-append t p.detached (u ∷ []),
      )
  Step-held t {p} (closes open_still) = ground (arith, open_still)
  Step-held t {p} (receives n u us i q) = ground (arith, q)
  Step-held t {p} (finishes us vs u r) =
      ground (arith, r, count-append t us vs, count-append t us (u ∷ vs))
  Step-held t {p} (finishes_detached us vs u d) =
      ground (arith, d, count-append t us vs, count-append t us (u ∷ vs))
  Step-held t {p} (leaves n i c q) = omega arith

  -- However the goroutines are scheduled, each submitted task is, as often as it was submitted, in
  -- the queue, with a worker, in a goroutine of its own, or finished.
  pub tasks_conserved :
      (workers queue_size : ℕ) {p : WorkerPool T} {s : List T} (t : T)
      → Run T (new_worker_pool T workers queue_size) s p
      → held t p ≡ count t s
  unfolding new_worker_pool
  tasks_conserved workers queue_size t here = refl
  tasks_conserved workers queue_size t (next {s} {s'} r st) =
      ground (arith, Step-held t st, count-append t s s', tasks_conserved workers queue_size t r)
