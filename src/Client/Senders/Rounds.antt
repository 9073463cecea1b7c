-- ===== src/Client/Senders/Rounds.antt =====
-- What a round reports to the master, and what stays in the running queue.
use coflow_sim_online.Base.{
  All, All-append, Bool, Bool-cases, List, Option, Option-cases, [], append-nil, append_assoc,
  arith, false, if◌then◌else◌, inl, inr, map, refl, some, suc, true, zero, ℕ, ℤ, ◌++◌, ◌∙◌, ◌∷◌,
  ◌≡◌,
}
use coflow_sim_online.Text.{Bytes, print_int}
use coflow_sim_online.Wire.{frame, wire}
use coflow_sim_online.Common.Socket.{Socket, Kernel, set_send_msg}
use coflow_sim_online.Common.Socket.Send.{set_send_msg_buffer, IsWhole, send_msg-taken}
use coflow_sim_online.Common.Socket.Kernels.{Pipe}
use coflow_sim_online.Common.Float.{Float}
use coflow_sim_online.Client.Traffic.{set_ip_port_bandwidth}
use coflow_sim_online.Client.Senders.{
  serve, round, SendManager, send_running, report_task, report_tasks, SendTask, task_end, is_end,
  is_task_end, report_text, queue_until, prune,
}

module _ {D : Type 0} where
  unfoldable pub report_body : SendTask D → Bytes
  report_body t =
      print_int t.coflow_id ++ (b' ' ∷ (print_int t.flow_id ++ (b' ' ∷ print_int t.end_time)))

  report_text-frame : (t : SendTask D) → report_text t ≡ frame (report_body t)
  unfolding report_text report_body
  report_text-frame t = simp append_assoc

  -- The bodies of the reports of the tasks that have ended.
  abbrev pub reports : List (SendTask D) → List Bytes
  reports [] = []
  reports (t ∷ ts) = if is_end t.send_state then report_body t ∷ reports ts else reports ts

  abbrev pub unended : List (SendTask D) → List (SendTask D)
  unended [] = []
  unended (t ∷ ts) = if is_end t.send_state then unended ts else t ∷ unended ts

  abbrev pub IsLive : SendTask D → Type 0
  IsLive t = is_task_end t.send_state ≡ false

  abbrev marked : SendTask D → SendTask D
  marked t = if is_end t.send_state then record t { send_state = task_end } else t

  prune-marked : (ts : List (SendTask D)) → All IsLive ts → prune (map marked ts) ≡ unended ts
  unfolding prune
  prune-marked [] h = refl
  prune-marked (t ∷ ts) (ht, h) = ground (arith, prune-marked ts h)

  pub reports-joined : (ts us : List (SendTask D)) → reports (ts ++ us) ≡ reports ts ++ reports us
  reports-joined [] us = refl
  reports-joined (t ∷ ts) us = ground (arith, reports-joined ts us)

  reports-append :
      (ts : List (SendTask D)) (t : SendTask D)
      → is_end t.send_state ≡ false
      → reports (ts ++ t ∷ []) ≡ reports ts
  reports-append [] t h = ground arith
  reports-append (u ∷ ts) t h = ground (arith, reports-append ts t h)

  unended-append :
      (ts : List (SendTask D)) (t : SendTask D)
      → is_end t.send_state ≡ false
      → unended (ts ++ t ∷ []) ≡ unended ts ++ t ∷ []
  unended-append [] t h = ground arith
  unended-append (u ∷ ts) t h = ground (arith, unended-append ts t h)

-- Calling setSendMsg again is in vain: with any fuel the loop of SendManager::run ends in its
-- first round or not at all.
pub queue_until_one :
    (fuel : ℕ) (msg : Bytes) (s : Socket) → queue_until (suc fuel) msg s ≡ queue_until 1 msg s
unfolding queue_until
queue_until_one zero msg s = refl
queue_until_one (suc fuel) msg s = elim (Option-cases (set_send_msg msg s)) [
  | inl e ↦ ground (arith, e)
  | inr ((s', ok), e) ↦ ground (arith, e, set_send_msg_buffer msg s e, queue_until_one fuel msg s)
]

queue_until-send_buf :
    (msg : Bytes) (s : Socket) {s' : Socket}
    → queue_until 1 msg s ≡ some s'
    → s'.send_buf ≡ s.send_buf ++ msg
unfolding queue_until
queue_until-send_buf msg s h = elim (Option-cases (set_send_msg msg s)) [
  | inl e ↦ ground (arith, e)
  | inr ((s', ok), e) ↦ ground (arith, e, set_send_msg_buffer msg s e)
]

module _ {K : Type 0} (kernel : Kernel K) (pipe : Pipe kernel) (whole : IsWhole kernel) where
  -- What the kernel has taken and what is still queued.
  abbrev pub stream_of : Socket → K → Bytes
  stream_of s k = pipe.taken k ++ s.send_buf

  report_task-end :
      {D : Type 0} (t : SendTask D) (s : Socket) (k : K) {r : SendTask D × Socket × K}
      → is_end t.send_state ≡ true
      → report_task kernel t s k ≡ some r
      → (r.0 ≡ marked t) × (stream_of r.1 r.2 ≡ stream_of s k ++ frame (report_body t))
  unfolding report_task
  report_task-end t s k ended h = elim (Option-cases (queue_until 1 (report_text t) s)) [
    | inl e ↦ ground (arith, e)
    | inr (s', e) ↦ ground (
      arith,
      e,
      queue_until-send_buf (report_text t) s e,
      send_msg-taken kernel pipe whole s' k,
      report_text-frame t,
      append_assoc (pipe.taken k) s.send_buf (report_text t),
    )
  ]

  report_task-other :
      {D : Type 0} (t : SendTask D) (s : Socket) (k : K)
      → is_end t.send_state ≡ false
      → report_task kernel t s k ≡ some (t, s, k)
  unfolding report_task
  report_task-other t s k other = rw other

  report_tasks_lem :
      {D : Type 0} (ts : List (SendTask D)) (s : Socket) (k : K)
      {r : List (SendTask D) × Socket × K}
      → report_tasks kernel ts s k ≡ some r
      → (r.0 ≡ map marked ts) × (stream_of r.1 r.2 ≡ stream_of s k ++ wire (reports ts))
  unfolding report_tasks wire
  report_tasks_lem [] s k h = ground (arith, append-nil (stream_of s k))
  report_tasks_lem (t ∷ ts) s k {r} h = elim (Bool-cases (is_end t.send_state)) [
    | inl ended ↦ elim (Option-cases (report_task kernel t s k)) [
      | inl e ↦ ground (arith, e)
      | inr ((t', s', k'), e) ↦ elim (Option-cases (report_tasks kernel ts s' k')) [
        | inl e' ↦ ground (arith, e, e')
        | inr (r', e') ↦ ground (
          arith,
          e,
          e',
          report_task-end t s k ended e,
          report_tasks_lem ts s' k' e',
          append_assoc (stream_of s k) (frame (report_body t)) (wire (reports ts)),
        )
      ]
    ]
    | inr other ↦ elim (Option-cases (report_tasks kernel ts s k)) [
      | inl e' ↦ ground (arith, report_task-other t s k other, e')
      | inr (r', e') ↦
          ground (arith, report_task-other t s k other, e', other, report_tasks_lem ts s k e')
    ]
  ]

  module _ {D : Type 0} (float : Float D) (popen : Bytes → Bool) where
    abbrev running : SendTask D → SendTask D
    running t = record t { send_state = send_running }

    -- The manager and the stream to the master after a round with this task.
    abbrev pub Served :
        SendTask D → List (SendTask D) → SendManager D → K → SendManager D → K → Type 0
    Served t waiting sm k sm' k' =
        (sm'.running_queue
          ≡ unended sm.running_queue ++ record t { send_state = send_running } ∷ [])
        × (sm'.wait_queue ≡ waiting)
        × (sm'.max_task_number ≡ sm.max_task_number)
        × (stream_of sm'.master k' ≡ stream_of sm.master k ++ wire (reports sm.running_queue))

    pub live_running :
        (ts : List (SendTask D)) (t : SendTask D)
        → All IsLive ts
        → prune (map marked (ts ++ running t ∷ [])) ≡ unended ts ++ running t ∷ []
    live_running ts t h =
        prune-marked (ts ++ running t ∷ []) (All-append IsLive ts (running t ∷ []) h (refl, tt))
        ∙ unended-append ts (running t) refl

    pub serve_lem :
        (port : ℤ) (t : SendTask D) (sm : SendManager D) (k : K) {sm' : SendManager D} {k' : K}
        → All IsLive sm.running_queue
        → serve float popen kernel port t sm k ≡ some (sm', k')
        → Served t sm.wait_queue sm k sm' k' × (sm'.wait_queue_sem ≡ sm.wait_queue_sem)
    unfolding serve
    serve_lem port t sm k live h =
        elim (Option-cases (set_ip_port_bandwidth float popen port t.speed_mbs sm.tc_manager)) [
          | inl e ↦ ground (arith, e)
          | inr ((tc, _), e) ↦
              elim (Option-cases
                (report_tasks kernel (sm.running_queue ++ running t ∷ []) sm.master k)) [
                  | inl e' ↦ ground (arith, e, e')
                  | inr (r, e') ↦ ground (
                    arith,
                    e,
                    e',
                    report_tasks_lem (sm.running_queue ++ running t ∷ []) sm.master k e',
                    live_running sm.running_queue t live,
                    reports-append sm.running_queue (running t) refl,
                  )
                ]
        ]

    -- A round that serves a task takes it from the front of the wait queue and puts it at the
    -- end of the running queue; the tasks whose sender has ended leave that queue, the others
    -- stay in order, and the reports of just those that leave follow, whole and in order, what
    -- was sent or queued to the master before, if the kernel takes a buffer whole or not at all.
    pub round-Served :
        (port : ℤ) (t : SendTask D) (waiting : List (SendTask D)) (n : ℕ) (sm : SendManager D)
        (k : K) {sm' : SendManager D} {next : Option (SendTask D)} {k' : K}
        → All IsLive sm.running_queue
        → sm.wait_queue ≡ t ∷ waiting
        → sm.wait_queue_sem ≡ suc n
        → round float popen kernel port sm k ≡ some ((sm', next), k')
        → Served t waiting sm k sm' k' × (sm'.wait_queue_sem ≡ n) × (next ≡ some t)
    unfolding round
    round-Served port t waiting n sm k live front up h =
        let sm1 = record sm { wait_queue_sem = n; wait_queue = waiting } in
        elim (Option-cases (serve float popen kernel port t sm1 k)) [
          | inl e ↦ ground (arith, front, up, e)
          | inr ((sm2, k2), e) ↦ ground (arith, front, up, e, serve_lem port t sm1 k live e)
        ]
