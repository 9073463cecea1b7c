-- ===== src/Common/Pool/Limit.antt =====
-- How many threads the pool creates.
use coflow_sim_online.Base.{
  List, Option-cases, [], arith, inl, inr, pos_part, refl, some, ℕ, ℤ, ◌+◌, ◌<◌, ◌∷◌, ◌≡◌, ◌≤◌,
}
use coflow_sim_online.Common.Pool.{
  Pool, Action, push, refuse, try_wait, test_limit, create, count, post, destroy, worker_posts,
  worker_exits, worker_wakes, worker_takes, worker_returns, step, run, new_pool,
}
use coflow_sim_online.Common.Pool.Accounts.{appenders}

module _ {T : Type 0} where
  -- At no time more than this many threads are inside `append`.
  abbrev pub AtMost : ℕ → List (Action T) → Pool T → Type 0
  AtMost callers [] p = appenders p ≤ callers
  AtMost callers (a ∷ later) p =
      (appenders p ≤ callers)
      × ((r : Pool T × List T) → step a p ≡ some r → AtMost callers later r.0)

  AtMost-now :
      (callers : ℕ) (acts : List (Action T)) (p : Pool T)
      → AtMost callers acts p
      → appenders p ≤ callers
  AtMost-now callers [] p h = h
  AtMost-now callers (a ∷ later) p h = h.0

  pub record IsLimited (callers : ℕ) (p : Pool T) : Type 0 where
    pub limited : p.created_thread_num + p.counting + p.creating + 1 ≤ p.max_thread_num + callers
    pub limit : 0 < p.max_thread_num

  takes-IsLimited :
      (q : List T) (callers : ℕ) (p : Pool T) {p' : Pool T} {started : List T}
      → IsLimited callers p
      → p.task_queue ≡ q
      → step worker_takes p ≡ some (p', started)
      → IsLimited callers p' × (p'.max_thread_num ≡ p.max_thread_num)
  unfolding step
  takes-IsLimited [] callers p h front e = ground (arith, h.limited, h.limit, front)
  takes-IsLimited (t ∷ ts) callers p h front e = ground (arith, h.limited, h.limit, front)

  step-IsLimited :
      (callers : ℕ) (a : Action T) (p : Pool T) {p' : Pool T} {started : List T}
      → IsLimited callers p
      → appenders p ≤ callers
      → step a p ≡ some (p', started)
      → IsLimited callers p' × (p'.max_thread_num ≡ p.max_thread_num)
  unfolding step
  step-IsLimited callers (push t) p h few e = ground (arith, h.limited, h.limit)
  step-IsLimited callers refuse p h few e = ground (arith, h.limited, h.limit)
  step-IsLimited callers try_wait p h few e = ground (arith, h.limited, h.limit)
  step-IsLimited callers test_limit p h few e = ground (arith, h.limited, h.limit, few)
  step-IsLimited callers create p h few e = ground (arith, h.limited, h.limit)
  step-IsLimited callers count p h few e = ground (arith, h.limited, h.limit)
  step-IsLimited callers post p h few e = ground (arith, h.limited, h.limit)
  step-IsLimited callers destroy p h few e = ground (arith, h.limited, h.limit)
  step-IsLimited callers worker_posts p h few e = ground (arith, h.limited, h.limit)
  step-IsLimited callers worker_exits p h few e = ground (arith, h.limited, h.limit)
  step-IsLimited callers worker_wakes p h few e = ground (arith, h.limited, h.limit)
  step-IsLimited callers worker_takes p h few e = takes-IsLimited p.task_queue callers p h refl e
  step-IsLimited callers worker_returns p h few e = ground (arith, h.limited, h.limit)

  run-IsLimited :
      (callers : ℕ) (acts : List (Action T)) (p : Pool T) {p' : Pool T} {started : List T}
      → IsLimited callers p
      → AtMost callers acts p
      → run acts p ≡ some (p', started)
      → IsLimited callers p' × (p'.max_thread_num ≡ p.max_thread_num)
  unfolding run
  run-IsLimited callers [] p h few e = ground (arith, h)
  run-IsLimited callers (a ∷ later) p h (few, fewer) e = elim (Option-cases (step a p)) [
    | inl e1 ↦ ground (arith, e1)
    | inr ((p1, s1), e1) ↦ elim (Option-cases (run later p1)) [
      | inl e2 ↦ ground (arith, e1, e2)
      | inr ((p2, s2), e2) ↦
          let (mid, same) = step-IsLimited callers a p h few e1 in
          let (end_, same') = run-IsLimited callers later p1 mid (fewer (p1, s1) e1) e2 in
          ground (arith, e1, e2, end_, same, same')
    ]
  ]

  new_pool-IsLimited :
      (callers : ℕ) (threads tasks : ℤ) {p : Pool T}
      → 0 < pos_part threads
      → 0 < callers
      → new_pool threads tasks ≡ some p
      → IsLimited callers p × (p.max_thread_num ≡ pos_part threads)
  unfolding new_pool
  new_pool-IsLimited callers threads tasks some_ one e = ground arith

  -- A new pool with a limit creates at most that many threads while only one thread at a time is
  -- inside append; for each further one that is inside at the same time, one more may come.
  pub pool_run-limited :
      (callers : ℕ) (threads tasks : ℤ) (acts : List (Action T)) {p p' : Pool T} {started : List T}
      → 0 < pos_part threads
      → 0 < callers
      → new_pool threads tasks ≡ some p
      → AtMost callers acts p
      → run acts p ≡ some (p', started)
      → p'.created_thread_num + p'.counting + 1 ≤ pos_part threads + callers
  pool_run-limited callers threads tasks acts {p} {p'} some_ one made few ran =
      let (limited, same) = new_pool-IsLimited callers threads tasks some_ one made in
      let (last, same') = run-IsLimited callers acts p limited few ran in
      omega (arith, last.limited, same, same')
