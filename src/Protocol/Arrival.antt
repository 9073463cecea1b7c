-- ===== src/Protocol/Arrival.antt =====
-- A stream of tasks for one client.
use coflow_sim_online.Text.RoundTrip.{IsWord}
use coflow_sim_online.Client.Loop.{append_all}
use coflow_sim_online.Wire.{wire, IsPlain, IsBody}
use coflow_sim_online.Client.Inbox.{on_inputs}
use coflow_sim_online.Client.Inbox.Delivery.{on_inputs-wire}
use coflow_sim_online.Master.Manager.{task_text, Task, file_name}
use coflow_sim_online.Master.Manager.Tasks.{task_text-frame, task_body}
use coflow_sim_online.Common.Float.{IsMark, Float, FloatLaws}
use coflow_sim_online.Master.Machine.Scan.{IsText}
use coflow_sim_online.Text.{codes, c_string, print_int, Bytes}
use coflow_sim_online.Client.Senders.{
  append_task, enqueue, SendManager, destination_ip_size, file_name_max_size, instruction_size,
  SendTask,
}
use coflow_sim_online.Protocol.Reports.{print_int-IsBody, print_int-IsText}
use coflow_sim_online.Base.{
  All, All-append, IsInt, List, [], ap, arith, flatten, length, map, refl, some, ℕ, ℤ, ◌<◌, ◌∙◌,
  ◌∷◌, ◌≡◌, ◌≢◌,
}
use coflow_sim_online.Protocol.Tasks.{received_task, read_task-task_body}

-- A task and the address of the reducer's machine.
pub record Order (D : Type 0) : Type 0 where
  pub task : Task D
  pub ip : Bytes
  pub port : ℤ

c_string-text : (s : Bytes) → IsText s → c_string s ≡ s
unfolding c_string
c_string-text [] h = refl
c_string-text (c ∷ s) (hc, h) = ground (arith, c_string-text s h)

All-task_body {ℓ} :
    {D : Type 0} (float : Float D) (laws : FloatLaws float) (P : ℕ → Type ℓ) (o : Order D)
    → ((i : ℤ) → All P (print_int i))
    → ((d : D) → All P (float.print d))
    → All P (b' ' ∷ b'_' ∷ codes ".txt")
    → All P o.ip
    → All P (task_body float laws o.task o.ip o.port)
unfolding task_body
All-task_body float laws P o ints floats (space, (bar, txt)) ip =
    let t = o.task in
    let name = All-append P (print_int t.coflow_id) _ (ints t.coflow_id) (
      bar,
      All-append P (print_int t.flow_id) _ (ints t.flow_id) (
        bar,
        All-append P (float.print t.flow_size_mb) _ (floats t.flow_size_mb)
            (bar, All-append P (float.print t.send_speed_mbs) _ (floats t.send_speed_mbs) txt),
      ),
    ) in
    All-append P (print_int t.coflow_id) _ (ints t.coflow_id) (
      space,
      All-append P (print_int t.flow_id) _ (ints t.flow_id) (
        space,
        All-append P o.ip _ ip (
          space,
          All-append P (print_int o.port) _ (ints o.port) (
            space,
            All-append P (file_name float t) _ name (
              space,
              All-append P (float.print t.flow_size_mb) _ (floats t.flow_size_mb)
                  (space, floats t.send_speed_mbs),
            ),
          ),
        ),
      ),
    )

module _ {D : Type 0} (float : Float D) (laws : FloatLaws float) where
  abbrev pub body_of : Order D → Bytes
  body_of o = task_body float laws o.task o.ip o.port

  -- The numbers are `int` values, the address is a word without parentheses, and the client's arrays
  -- are large enough.
  pub record IsSendable (o : Order D) : Type 0 where
    pub coflow_int : IsInt o.task.coflow_id
    pub flow_int : IsInt o.task.flow_id
    pub port_int : IsInt o.port
    pub ip_word : IsWord o.ip
    pub ip_marks : All IsMark o.ip
    pub ip_short : length o.ip < destination_ip_size
    pub name_short : length (file_name float o.task) < file_name_max_size
    pub body_short : length (body_of o) < instruction_size

  marks-IsBody : (s : Bytes) → All IsMark s → IsBody s
  marks-IsBody [] h = tt
  marks-IsBody (c ∷ s) ((_, open_, close, _, _), h) = ((open_, close), marks-IsBody s h)

  marks-IsText : (s : Bytes) → All IsMark s → IsText s
  marks-IsText [] h = tt
  marks-IsText (c ∷ s) ((_, _, _, nul, _), h) = (nul, marks-IsText s h)

  body_of-IsBody : (o : Order D) → IsSendable o → IsBody (body_of o)
  body_of-IsBody o h =
      All-task_body float laws IsPlain o print_int-IsBody
        (λ d. marks-IsBody (float.print d) (laws.print_marks d)) (ground arith)
        (marks-IsBody o.ip h.ip_marks)

  body_of-IsText : (o : Order D) → IsSendable o → IsText (body_of o)
  body_of-IsText o h =
      All-task_body float laws (λ c. c ≢ 0) o print_int-IsText
        (λ d. marks-IsText (float.print d) (laws.print_marks d)) (ground arith)
        (marks-IsText o.ip h.ip_marks)

  append_task-body_of :
      (raw : SendTask D) (o : Order D) (sm : SendManager D)
      → IsSendable o
      → append_task float raw (body_of o) sm
        ≡ some (enqueue (received_task float laws raw o.task o.ip o.port) sm)
  unfolding append_task
  append_task-body_of raw o sm h = ground (
    arith,
    c_string-text (body_of o) (body_of-IsText o h),
    read_task-task_body float laws raw o.task o.ip o.port h.coflow_int h.flow_int h.port_int
        h.ip_word,
    h.ip_short,
    h.name_short,
    h.body_short,
  )

  abbrev pub enqueue_all : List (SendTask D) → SendManager D → SendManager D
  enqueue_all [] sm = sm
  enqueue_all (t ∷ ts) sm = enqueue_all ts (enqueue t sm).0

  abbrev pub received : SendTask D → Order D → SendTask D
  received raw o = received_task float laws raw o.task o.ip o.port

  append_all-enqueue_all :
      (raw : SendTask D) (os : List (Order D)) (sm : SendManager D)
      → All IsSendable os
      → append_all float raw (map body_of os) sm ≡ some (enqueue_all (map (received raw) os) sm)
  unfolding append_all
  append_all-enqueue_all raw [] sm h = refl
  append_all-enqueue_all raw (o ∷ os) sm (ho, h) =
      rw (append_task-body_of raw o sm ho)
        (append_all-enqueue_all raw os (enqueue (received raw o) sm).0 h)

  abbrev pub text_of : Order D → Bytes
  text_of o = task_text float o.task o.ip o.port

  texts-wire :
      (os : List (Order D)) → All IsSendable os → flatten (map text_of os) ≡ wire (map body_of os)
  unfolding flatten wire
  texts-wire [] h = refl
  texts-wire (o ∷ os) (ho, h) =
      ground (arith, task_text-frame float laws o.task o.ip o.port ho.ip_word, texts-wire os h)

  bodies-IsBody : (os : List (Order D)) → All IsSendable os → All IsBody (map body_of os)
  bodies-IsBody [] h = tt
  bodies-IsBody (o ∷ os) (ho, h) = (body_of-IsBody o ho, bodies-IsBody os h)

  -- The texts that sendTask queues for one client, cut into any reads, make the client call
  -- appendTask once for each, in order, with nothing left over, and these calls put into the wait
  -- queue, as far as it has room, the tasks with all the fields that were sent. The premises are
  -- that the numbers are int values, the address is a word without parentheses, and the texts fit
  -- the client's arrays.
  pub tasks_arrive :
      (raw : SendTask D) (os : List (Order D)) (chunks : List Bytes) (sm : SendManager D)
      → All IsSendable os
      → flatten chunks ≡ flatten (map text_of os)
      → ((on_inputs [] chunks).0 ≡ [])
        × (append_all float raw (on_inputs [] chunks).1 sm
            ≡ some (enqueue_all (map (received raw) os) sm))
  tasks_arrive raw os chunks sm h e =
      let cut = on_inputs-wire (map body_of os) chunks (bodies-IsBody os h) (e ∙ texts-wire os h) in
      (ap (λ r. r.0) cut, rw cut (append_all-enqueue_all raw os sm h))
