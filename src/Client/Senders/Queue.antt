-- ===== src/Client/Senders/Queue.antt =====
-- The life of a task, over any interleaving of `appendTask`, rounds of `run` and ends of senders.
use coflow_sim_online.Base.{
  All, Bool, Bool-cases, List, Option, Option-cases, [], ap, arith, false, get_elem?, if◌then◌else◌,
  inl, inr, length, length-append, ltb, refl, set, some, subst, suc, sym, true, zero, ℕ, ℤ, ◌+◌,
  ◌∷◌, ◌≡◌, ◌≤◌,
}
use coflow_sim_online.Client.Senders.{
  append_task, read_task, round, c_string, SendTask, SendManager, enqueue, sender_ends, sent_off,
}
use coflow_sim_online.Text.{Bytes}
use coflow_sim_online.Common.Float.{Float}
use coflow_sim_online.Common.Socket.{Kernel}
use coflow_sim_online.Client.Senders.Rounds.{IsLive, reports, unended}

module _ {D K : Type 0} (float : Float D) (popen : Bytes → Bool) (kernel : Kernel K) where
  -- One step of the manager and the kernel, with how many tasks it accepts.
  pub data Step (sm : SendManager D) (k : K) : ℕ → SendManager D → K → Type 0 where
    appended :
        {sm' : SendManager D} (raw : SendTask D) (ins : Bytes)
        → append_task float raw ins sm ≡ some (sm', true)
        → Step sm k 1 sm' k
    dropped :
        {sm' : SendManager D} (raw : SendTask D) (ins : Bytes)
        → append_task float raw ins sm ≡ some (sm', false)
        → Step sm k 0 sm' k
    runs :
        {sm' : SendManager D} {k' : K} (port : ℤ) (next : Option (SendTask D))
        → round float popen kernel port sm k ≡ some ((sm', next), k')
        → Step sm k 0 sm' k'
    ended : (i : ℕ) (now : ℤ) → Step sm k 0 (sender_ends i now sm) k

  pub data Steps (sm : SendManager D) (k : K) : ℕ → SendManager D → K → Type 0 where
    start : Steps sm k 0 sm k
    next :
        {accepted more_accepted : ℕ} {sm' sm'' : SendManager D} {k' k'' : K}
        → Steps sm k accepted sm' k'
        → Step sm' k' more_accepted sm'' k''
        → Steps sm k (accepted + more_accepted) sm'' k''

module _ {D : Type 0} where
  -- The tasks that the manager holds.
  abbrev pub tasks_num : SendManager D → ℕ
  tasks_num sm = length sm.wait_queue + length sm.running_queue

  -- The semaphore counts the waiting tasks, at most one more than the limit; no reported task is left
  -- in the running queue.
  pub record IsBalanced (sm : SendManager D) : Type 0 where
    pub counts : sm.wait_queue_sem ≡ length sm.wait_queue
    pub bounded : length sm.wait_queue ≤ sm.max_task_number + 1
    pub live : All IsLive sm.running_queue

  pub length-reports :
      (ts : List (SendTask D)) → length (reports ts) + length (unended ts) ≡ length ts
  length-reports [] = refl
  length-reports (t ∷ ts) = ground (arith, length-reports ts)

  pub unended-IsLive : (ts : List (SendTask D)) → All IsLive ts → All IsLive (unended ts)
  unended-IsLive [] h = tt
  unended-IsLive (t ∷ ts) (ht, h) = ground (arith, unended-IsLive ts h)

  set-IsLive :
      (ts : List (SendTask D)) (i : ℕ) (t : SendTask D)
      → All IsLive ts
      → IsLive t
      → All IsLive (set ts i t)
  set-IsLive [] i t h ht = tt
  set-IsLive (u ∷ ts) zero t (hu, h) ht = (ht, h)
  set-IsLive (u ∷ ts) (suc i) t (hu, h) ht = (hu, set-IsLive ts i t h ht)

  length-set : (ts : List (SendTask D)) (i : ℕ) (t : SendTask D) → length (set ts i t) ≡ length ts
  length-set [] i t = refl
  length-set (u ∷ ts) zero t = refl
  length-set (u ∷ ts) (suc i) t = ap suc (length-set ts i t)

  pub sender_ends-IsBalanced :
      (i : ℕ) (now : ℤ) (sm : SendManager D)
      → IsBalanced sm
      → IsBalanced (sender_ends i now sm)
        × (tasks_num (sender_ends i now sm) ≡ tasks_num sm)
        × ((sender_ends i now sm).master ≡ sm.master)
  unfolding sender_ends
  sender_ends-IsBalanced i now sm h = elim (Option-cases (get_elem? sm.running_queue i)) [
    | inl e ↦ rw (e, sender_ends) (h, refl, refl)
    | inr (t, e) ↦
        rw (e, sender_ends)
          (
            record {
              counts = h.counts;
              bounded = h.bounded;
              live = set-IsLive sm.running_queue i (sent_off now t) h.live refl;
            },
            ap (◌+◌ (length sm.wait_queue)) (length-set sm.running_queue i (sent_off now t)),
            refl,
          )
  ]

  enqueue-IsBalanced :
      (t : SendTask D) (sm : SendManager D)
      → IsBalanced sm
      → IsBalanced (enqueue t sm).0
        × (tasks_num (enqueue t sm).0 ≡ tasks_num sm + (if (enqueue t sm).1 then 1 else 0))
        × ((enqueue t sm).0.master ≡ sm.master)
  unfolding enqueue
  enqueue-IsBalanced t sm h = elim (Bool-cases (ltb sm.max_task_number (length sm.wait_queue))) [
    | inl full ↦ rw (full, enqueue) (h, omega arith, refl)
    | inr room ↦
        let grown = length-append sm.wait_queue (t ∷ []) in
        rw (room, enqueue)
          (
            record {
              counts = omega (arith, h.counts, grown);
              bounded = ground (arith, room, grown);
              live = h.live;
            },
            omega (arith, grown),
            refl,
          )
  ]

module _ {D : Type 0} (float : Float D) where
  append_task-enqueue :
      (raw : SendTask D) (ins : Bytes) (sm : SendManager D) {r : SendManager D × Bool}
      → append_task float raw ins sm ≡ some r
      → r ≡ enqueue (read_task float raw (c_string ins)) sm
  unfolding append_task
  append_task-enqueue raw ins sm h = ground arith

  pub append_task-IsBalanced :
      (raw : SendTask D) (ins : Bytes) (sm : SendManager D) {r : SendManager D × Bool}
      → IsBalanced sm
      → append_task float raw ins sm ≡ some r
      → IsBalanced r.0
        × (tasks_num r.0 ≡ tasks_num sm + (if r.1 then 1 else 0))
        × (r.0.master ≡ sm.master)
  append_task-IsBalanced raw ins sm h e =
      subst
        (λ r.
          IsBalanced r.0
          × (tasks_num r.0 ≡ tasks_num sm + (if r.1 then 1 else 0))
          × (r.0.master ≡ sm.master))
        (sym (append_task-enqueue raw ins sm e))
        (enqueue-IsBalanced (read_task float raw (c_string ins)) sm h)
