-- ===== src/Common/Pool/Tests.antt =====
-- A pool of at most two threads.
use coflow_sim_online.Base.{
  List, [], arith, false, negsuc, none, pos, refl, some, ℕ, ◌++◌, ◌+◌, ◌∷◌, ◌≡◌, ◌≤◌,
}
use coflow_sim_online.Common.Pool.{
  Pool, Action, push, try_wait, test_limit, create, count, post, worker_posts, worker_wakes,
  worker_takes, step, run, new_pool,
}
use coflow_sim_online.Common.Pool.Accounts.{IsSound, pool_run-IsSound}
use coflow_sim_online.Common.Pool.Order.{all_pushed, run_order}
use coflow_sim_online.Common.Pool.Limit.{AtMost, pool_run-limited}

abbrev empty : Pool ℕ
empty = record {
  max_thread_num = 2;
  max_task_num = 10;
  created_thread_num = 0;
  free_thread_stat = 0;
  task_queue = [];
  task_queue_stat = 0;
  stop = false;
  trying = 0;
  testing = 0;
  creating = 0;
  counting = 0;
  posting = 0;
  starting = 0;
  waiting = 0;
  awake = 0;
  busy = 0;
  exited = 0;
}

new_pool_runs : new_pool (pos 2) (pos 10) ≡ some empty
unfolding new_pool
new_pool_runs = refl

new_pool_negative : new_pool {T = ℕ} (negsuc 0) (pos 10) ≡ none
unfolding new_pool
new_pool_negative = refl

-- The first task makes a thread, which takes it; a second one waits.
abbrev acts : List (Action ℕ)
acts =
    push 7
    ∷ try_wait
    ∷ test_limit
    ∷ create
    ∷ count
    ∷ worker_posts
    ∷ try_wait
    ∷ post
    ∷ worker_wakes
    ∷ worker_takes
    ∷ push 8
    ∷ []

abbrev after : Pool ℕ
after = record empty { created_thread_num = 1; task_queue = 8 ∷ []; trying = 1; busy = 1 }

acts-run : run acts empty ≡ some (after, 7 ∷ [])
unfolding run step
acts-run = refl

pool_run-IsSound_example :
    IsSound after
    × ((r : Pool ℕ × List ℕ) → step worker_takes after ≡ some r → (t : ℕ) × (r.1 ≡ t ∷ []))
pool_run-IsSound_example =
    pool_run-IsSound (pos 2) (pos 10) acts {p = empty} {p' = after} {started = 7 ∷ []} new_pool_runs
      acts-run

run_order_example : 7 ∷ after.task_queue ≡ empty.task_queue ++ all_pushed acts
run_order_example = run_order acts empty {p' = after} {started = 7 ∷ []} acts-run

abbrev first_acts : List (Action ℕ)
first_acts = push 7 ∷ []

first-AtMost : AtMost 1 first_acts empty
unfolding step
first-AtMost = (omega arith, λ r e. ground arith)

abbrev pushed_one : Pool ℕ
pushed_one = record empty { task_queue = 7 ∷ []; trying = 1 }

first_acts-run : run first_acts empty ≡ some (pushed_one, [])
unfolding run step
first_acts-run = refl

pool_run-limited_example : 0 + 0 + 1 ≤ 2 + 1
pool_run-limited_example =
    pool_run-limited 1 (pos 2) (pos 10) first_acts {p = empty} {p' = pushed_one} {started = []}
      (omega arith) (omega arith) new_pool_runs first-AtMost first_acts-run
