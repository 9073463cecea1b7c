-- ===== src/Common/Pool.antt =====
-- src/common/lib/ThreadPool.{h,cpp}. The threads that are inside `append` and the workers are counted
-- by where they stand; an action is one step of one of them. Only the accesses that a lock or a
-- semaphore makes atomic are one step. A null task is left out: nobody appends one.
pub mod Accounts
pub mod Order
pub mod Limit
mod Tests
use coflow_sim_online.Base.{
  Bool, List, Option, [], false, if◌then◌else◌, leb, length, ltb, ltb_ℤ, none, not, pos, pos_part,
  some, true, ℕ, ℤ, ◌&&◌, ◌++◌, ◌+◌, ◌-◌, ◌>>=◌, ◌||◌, ◌∷◌,
}

pub record Pool (T : Type 0) : Type 0 where
  pub max_thread_num : ℕ
  pub max_task_num : ℕ
  pub created_thread_num : ℕ
  pub free_thread_stat : ℕ
  pub task_queue : List T
  pub task_queue_stat : ℕ
  pub stop : Bool
  -- In `append`: before `tryWait`, behind its failure, behind the test of the limit, between the start
  -- of a thread and its count, and before `post`.
  pub trying : ℕ
  pub testing : ℕ
  pub creating : ℕ
  pub counting : ℕ
  pub posting : ℕ
  -- Workers: at the head of the loop, in `wait`, behind it, in a task, and at the end.
  pub starting : ℕ
  pub waiting : ℕ
  pub awake : ℕ
  pub busy : ℕ
  pub exited : ℕ

-- `none` is the exception.
unfoldable pub new_pool : {T : Type 0} → ℤ → ℤ → Option (Pool T)
new_pool max_thread_num max_task_num =
    if ltb_ℤ max_thread_num (pos 0) || not (ltb_ℤ (pos 0) max_task_num)
    then none
    else some (record {
      max_thread_num = pos_part max_thread_num;
      max_task_num = pos_part max_task_num;
      created_thread_num = 0;
      free_thread_stat = 0;
      task_queue = [];
      task_queue_stat = 0;
      stop = false;
      trying = 0;
      testing = 0;
      creating = 0;
      counting = 0;
      posting = 0;
      starting = 0;
      waiting = 0;
      awake = 0;
      busy = 0;
      exited = 0;
    })

pub data Action (T : Type 0) : Type 0 where
  push : T → Action T
  refuse try_wait test_limit create count post : Action T
  destroy worker_posts worker_exits worker_wakes worker_takes worker_returns : Action T

module _ {T : Type 0} where
  -- `max_thread_num_ > 0 && created_thread_num_ >= max_thread_num_`
  abbrev pub at_limit : Pool T → Bool
  at_limit p = ltb 0 p.max_thread_num && leb p.max_thread_num p.created_thread_num

  abbrev pub is_full : Pool T → Bool
  is_full p = ltb p.max_task_num (length p.task_queue)

  abbrev quiet : Bool → Pool T → Option (Pool T × List T)
  quiet enabled p = if enabled then some (p, []) else none

  abbrev take_front : Pool T → List T → Pool T × List T
  take_front p [] = (record p { awake = p.awake - 1; starting = p.starting + 1 }, [])
  take_front p (t ∷ ts) =
      (record p { awake = p.awake - 1; busy = p.busy + 1; task_queue = ts }, t ∷ [])

  -- `none` if the action is not enabled; otherwise with the task that a worker starts to run.
  unfoldable pub step : Action T → Pool T → Option (Pool T × List T)
  step (push t) p =
      quiet (not (is_full p))
        (record p { task_queue = p.task_queue ++ t ∷ []; trying = p.trying + 1 })
  step refuse p = quiet (is_full p) p
  -- `tryWait` succeeds exactly if the semaphore is up.
  step try_wait p =
      if ltb 0 p.free_thread_stat
      then quiet (ltb 0 p.trying) (record p {
        free_thread_stat = p.free_thread_stat - 1;
        trying = p.trying - 1;
        posting = p.posting + 1;
      })
      else quiet (ltb 0 p.trying) (record p { trying = p.trying - 1; testing = p.testing + 1 })
  step test_limit p =
      if at_limit p
      then quiet (ltb 0 p.testing) (record p { testing = p.testing - 1; posting = p.posting + 1 })
      else quiet (ltb 0 p.testing) (record p { testing = p.testing - 1; creating = p.creating + 1 })
  -- `increase_a_thread`, and back to the head of the loop.
  step create p =
      quiet (ltb 0 p.creating) (record p {
        creating = p.creating - 1;
        counting = p.counting + 1;
        starting = p.starting + 1;
      })
  step count p = quiet (ltb 0 p.counting) (record p {
    counting = p.counting - 1;
    created_thread_num = p.created_thread_num + 1;
    trying = p.trying + 1;
  })
  step post p =
      quiet (ltb 0 p.posting)
        (record p { posting = p.posting - 1; task_queue_stat = p.task_queue_stat + 1 })
  step destroy p = some (record p { stop = true }, [])
  step worker_posts p = quiet (ltb 0 p.starting && not p.stop) (record p {
    starting = p.starting - 1;
    waiting = p.waiting + 1;
    free_thread_stat = p.free_thread_stat + 1;
  })
  step worker_exits p =
      quiet (ltb 0 p.starting && p.stop)
        (record p { starting = p.starting - 1; exited = p.exited + 1 })
  step worker_wakes p = quiet (ltb 0 p.waiting && ltb 0 p.task_queue_stat) (record p {
    waiting = p.waiting - 1;
    task_queue_stat = p.task_queue_stat - 1;
    awake = p.awake + 1;
  })
  step worker_takes p = if ltb 0 p.awake then some (take_front p p.task_queue) else none
  step worker_returns p =
      quiet (ltb 0 p.busy) (record p { busy = p.busy - 1; starting = p.starting + 1 })

  -- One action after another, with the tasks that are started.
  unfoldable pub run : List (Action T) → Pool T → Option (Pool T × List T)
  run [] p = some (p, [])
  run (a ∷ later) p = do
    (p', started) ← step a p
    (p'', more) ← run later p'
    some (p'', started ++ more)
