-- ===== src/Broadcaster/Pool/Overtaking.antt =====
-- Two workers of broadcaster.go's pool at once.
use mathlib.Core.Path.{subst}
use zerogame.Shared.{ℕ, suc, ◌<◌, ◌≡◌, refl, false, [], ◌∷◌, ◌++◌, length, arith}
use zerogame.Shared.Effect.{after}
use zerogame.Broadcaster.Pool.{
  WorkerPool, new_worker_pool, submit, Step, submits, receives, finishes, Run, here, next,
}

module _ {T : Type 0} where
  queues :
      (p : WorkerPool T) (t : T)
      → p.queue_closed ≡ false
      → length p.task_queue < p.queue_size
      → Step T p (t ∷ []) (record p { task_queue = p.task_queue ++ t ∷ [] })
  unfolding submit
  queues p t opened fits =
      let queued : after (submit T t p) ≡ record p { task_queue = p.task_queue ++ t ∷ [] } =
        ground (arith, opened, fits) in
      subst (Step T p (t ∷ [])) queued (submits t opened)

  -- With two workers or more and room for two tasks or more, there is a schedule in which two tasks
  -- run at the same time, and one in which the later of them is finished first: nothing keeps the
  -- broadcasts to one connection apart or in order.
  pub tasks_overtake :
      (n m : ℕ) (t u : T)
      → let fresh = new_worker_pool T (suc (suc n)) (suc (suc m)) in
        ((p : WorkerPool T) × Run T fresh (t ∷ u ∷ []) p × (p.running ≡ u ∷ t ∷ []))
        × ((p : WorkerPool T) × Run T fresh (t ∷ u ∷ []) p
            × (p.running ≡ t ∷ [])
            × (p.finished ≡ u ∷ []))
  unfolding new_worker_pool
  tasks_overtake n m t u =
      let p0 = new_worker_pool T (suc (suc n)) (suc (suc m)) in
      let p1 = record p0 { task_queue = t ∷ [] } in
      let p2 = record p0 { task_queue = t ∷ u ∷ [] } in
      let p3 = record p2 { idle = suc n; task_queue = u ∷ []; running = t ∷ [] } in
      let p4 = record p3 { idle = n; task_queue = []; running = u ∷ t ∷ [] } in
      let p5 = record p4 { idle = suc n; running = t ∷ []; finished = u ∷ [] } in
      let first : Step T p0 (t ∷ []) p1 = queues p0 t refl (omega arith) in
      let second : Step T p1 (u ∷ []) p2 = queues p1 u refl (omega arith) in
      let both : Run T p0 (t ∷ u ∷ []) p4 =
        next (next (next (next here first) second) (receives (suc n) t (u ∷ []) refl refl))
          (receives n u [] refl refl) in
      let later : Run T p0 (t ∷ u ∷ []) p5 = next both (finishes [] (t ∷ []) u refl) in
      ((p4, both, refl), (p5, later, refl, refl))
