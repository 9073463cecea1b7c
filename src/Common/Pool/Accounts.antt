-- ===== src/Common/Pool/Accounts.antt =====
-- What the pool's counters add up to, over any interleaving.
use coflow_sim_online.Base.{
  List, Option-cases, [], arith, inl, inr, length, length-append, refl, some, ℕ, ℤ, ◌+◌, ◌∷◌, ◌≡◌,
  ◌≤◌,
}
use coflow_sim_online.Common.Pool.{
  Pool, Action, push, refuse, try_wait, test_limit, create, count, post, destroy, worker_posts,
  worker_exits, worker_wakes, worker_takes, worker_returns, step, run, new_pool,
}

module _ {T : Type 0} where
  -- The threads that are inside `append` and have pushed their task.
  abbrev pub appenders : Pool T → ℕ
  appenders p = p.trying + p.testing + p.creating + p.counting + p.posting

  abbrev pub workers : Pool T → ℕ
  workers p = p.starting + p.waiting + p.awake + p.busy + p.exited

  -- Each task in the queue has its permit, or an appender that will post it, or a worker that took
  -- it; each thread is counted or about to be; and at most one task too many is queued.
  pub record IsSound (p : Pool T) : Type 0 where
    pub permits : length p.task_queue ≡ p.task_queue_stat + appenders p + p.awake
    pub threads : workers p ≡ p.created_thread_num + p.counting
    pub bounded : length p.task_queue ≤ p.max_task_num + 1

  takes-IsSound :
      (q : List T) (p : Pool T) {p' : Pool T} {started : List T}
      → IsSound p
      → p.task_queue ≡ q
      → step worker_takes p ≡ some (p', started)
      → IsSound p'
  unfolding step
  takes-IsSound [] p h front e = ground (arith, h.permits, h.threads, h.bounded, front)
  takes-IsSound (t ∷ ts) p h front e = ground (arith, h.permits, h.threads, h.bounded, front)

  step-IsSound :
      (a : Action T) (p : Pool T) {p' : Pool T} {started : List T}
      → IsSound p
      → step a p ≡ some (p', started)
      → IsSound p'
  unfolding step
  step-IsSound (push t) p h e =
      ground (arith, h.permits, h.threads, h.bounded, length-append p.task_queue (t ∷ []))
  step-IsSound refuse p h e = ground (arith, h)
  step-IsSound try_wait p h e = ground (arith, h.permits, h.threads, h.bounded)
  step-IsSound test_limit p h e = ground (arith, h.permits, h.threads, h.bounded)
  step-IsSound create p h e = ground (arith, h.permits, h.threads, h.bounded)
  step-IsSound count p h e = ground (arith, h.permits, h.threads, h.bounded)
  step-IsSound post p h e = ground (arith, h.permits, h.threads, h.bounded)
  step-IsSound destroy p h e = ground (arith, h.permits, h.threads, h.bounded)
  step-IsSound worker_posts p h e = ground (arith, h.permits, h.threads, h.bounded)
  step-IsSound worker_exits p h e = ground (arith, h.permits, h.threads, h.bounded)
  step-IsSound worker_wakes p h e = ground (arith, h.permits, h.threads, h.bounded)
  step-IsSound worker_takes p h e = takes-IsSound p.task_queue p h refl e
  step-IsSound worker_returns p h e = ground (arith, h.permits, h.threads, h.bounded)

  run-IsSound :
      (acts : List (Action T)) (p : Pool T) {p' : Pool T} {started : List T}
      → IsSound p
      → run acts p ≡ some (p', started)
      → IsSound p'
  unfolding run
  run-IsSound [] p h e = ground (arith, h)
  run-IsSound (a ∷ later) p h e = elim (Option-cases (step a p)) [
    | inl e1 ↦ ground (arith, e1)
    | inr ((p1, s1), e1) ↦ elim (Option-cases (run later p1)) [
      | inl e2 ↦ ground (arith, e1, e2)
      | inr ((p2, s2), e2) ↦
          let sound = run-IsSound later p1 (step-IsSound a p h e1) e2 in
          ground (arith, e1, e2, sound)
    ]
  ]

  new_pool-IsSound : (threads tasks : ℤ) {p : Pool T} → new_pool threads tasks ≡ some p → IsSound p
  unfolding new_pool
  new_pool-IsSound threads tasks e = ground arith

  takes_one :
      (q : List T) (p : Pool T) {p' : Pool T} {started : List T}
      → IsSound p
      → p.task_queue ≡ q
      → step worker_takes p ≡ some (p', started)
      → (t : T) × (started ≡ t ∷ [])
  unfolding step
  takes_one [] p h front e = ground (arith, h.permits, front)
  takes_one (t ∷ ts) p h front e = (t, ground (arith, front))

  -- After any interleaving of calls of append and steps of workers on a new pool: each task in
  -- the queue has its permit, or an appender that will post it, or a worker that took it; each
  -- thread is counted or about to be; at most one task more than the limit is queued; and a
  -- worker that got past the semaphore finds a task.
  pub pool_run-IsSound :
      (threads tasks : ℤ) (acts : List (Action T)) {p p' : Pool T} {started : List T}
      → new_pool threads tasks ≡ some p
      → run acts p ≡ some (p', started)
      → IsSound p'
        × ((r : Pool T × List T) → step worker_takes p' ≡ some r → (t : T) × (r.1 ≡ t ∷ []))
  pool_run-IsSound threads tasks acts {p} {p'} made ran =
      let sound = run-IsSound acts p (new_pool-IsSound threads tasks made) ran in
      (sound, λ r e. takes_one p'.task_queue p' {p' = r.0} {started = r.1} sound refl e)
