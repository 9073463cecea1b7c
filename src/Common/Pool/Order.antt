-- ===== src/Common/Pool/Order.antt =====
-- The pool runs its tasks in the order in which they came.
use coflow_sim_online.Base.{
  List, Option-cases, [], append-nil, append_assoc, arith, inl, inr, refl, some, ◌++◌, ◌∷◌, ◌≡◌,
}
use coflow_sim_online.Common.Pool.{
  Pool, Action, push, refuse, try_wait, test_limit, create, count, post, destroy, worker_posts,
  worker_exits, worker_wakes, worker_takes, worker_returns, step, run,
}

module _ {T : Type 0} where
  -- The task that an action appends.
  abbrev pub pushed : Action T → List T
  pushed (push t) = t ∷ []
  pushed _ = []

  abbrev pub all_pushed : List (Action T) → List T
  all_pushed [] = []
  all_pushed (a ∷ acts) = pushed a ++ all_pushed acts

  takes_order :
      (q : List T) (p : Pool T) {p' : Pool T} {started : List T}
      → p.task_queue ≡ q
      → step worker_takes p ≡ some (p', started)
      → started ++ p'.task_queue ≡ q ++ []
  unfolding step
  takes_order [] p front e = ground (arith, front)
  takes_order (t ∷ ts) p front e = ground (arith, front, append-nil ts)

  step_order :
      (a : Action T) (p : Pool T) {p' : Pool T} {started : List T}
      → step a p ≡ some (p', started)
      → started ++ p'.task_queue ≡ p.task_queue ++ pushed a
  unfolding step
  step_order (push t) p e = ground arith
  step_order refuse p e = ground (arith, append-nil p.task_queue)
  step_order try_wait p e = ground (arith, append-nil p.task_queue)
  step_order test_limit p e = ground (arith, append-nil p.task_queue)
  step_order create p e = ground (arith, append-nil p.task_queue)
  step_order count p e = ground (arith, append-nil p.task_queue)
  step_order post p e = ground (arith, append-nil p.task_queue)
  step_order destroy p e = ground (arith, append-nil p.task_queue)
  step_order worker_posts p e = ground (arith, append-nil p.task_queue)
  step_order worker_exits p e = ground (arith, append-nil p.task_queue)
  step_order worker_wakes p e = ground (arith, append-nil p.task_queue)
  step_order worker_takes p e = takes_order p.task_queue p refl e
  step_order worker_returns p e = ground (arith, append-nil p.task_queue)

  -- After any sequence of actions, the tasks that workers have started in it, followed by those
  -- in the queue, are those that were queued at first, followed by those appended since: none is
  -- lost, run twice or overtaken.
  pub run_order :
      (acts : List (Action T)) (p : Pool T) {p' : Pool T} {started : List T}
      → run acts p ≡ some (p', started)
      → started ++ p'.task_queue ≡ p.task_queue ++ all_pushed acts
  unfolding run
  run_order [] p e = ground (arith, append-nil p.task_queue)
  run_order (a ∷ later) p e = elim (Option-cases (step a p)) [
    | inl e1 ↦ ground (arith, e1)
    | inr ((p1, s1), e1) ↦ elim (Option-cases (run later p1)) [
      | inl e2 ↦ ground (arith, e1, e2)
      | inr ((p2, s2), e2) ↦ ground (
        arith,
        e1,
        e2,
        step_order a p e1,
        run_order later p1 e2,
        append_assoc s1 s2 p2.task_queue,
        append_assoc s1 p1.task_queue (all_pushed later),
        append_assoc p.task_queue (pushed a) (all_pushed later),
      )
    ]
  ]
