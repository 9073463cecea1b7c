-- ===== src/Client/Senders.antt =====
-- src/client/SendManager.{h,cpp}. A task waits in one queue, or stands in the other while its `Sender`
-- runs; the end of a `Sender` is a step of its own. The `Sender *` of a task is left out, and so are
-- the data that it sends. `none` is undefined behaviour, and in a round also a loop without an end.
pub mod Queue
pub mod Steps
pub mod Early
pub mod Rounds
mod Tests
use coflow_sim_online.Base.{
  Bool, List, Option, [], false, get_elem?, if◌then◌else◌, length, ltb, none, set, some, suc, true,
  zero, ℕ, ℤ, ◌&&◌, ◌++◌, ◌+◌, ◌>>=◌, ◌∷◌,
}
use coflow_sim_online.Text.{Bytes, c_string, print_int}
use coflow_sim_online.Text.Stream.{stream, read_int, read_word}
use coflow_sim_online.Common.Float.{Float}
use coflow_sim_online.Common.Socket.{Socket, Kernel, set_send_msg, send_msg}
use coflow_sim_online.Client.Traffic.{TrafficControlManager, set_ip_port_bandwidth}

-- The states of a task, 0 to 3.
pub data SendState : Type 0 where
  send_wait send_running send_end task_end : SendState

pub record SendTask (D : Type 0) : Type 0 where
  pub destination_ip : Bytes
  pub destination_port : ℤ
  pub flow_size_mb : D
  pub speed_mbs : D
  pub file_name : Bytes
  pub coflow_id : ℤ
  pub flow_id : ℤ
  pub send_state : SendState
  pub end_time : ℤ

abbrev pub file_name_max_size : ℕ
file_name_max_size = 32

abbrev pub destination_ip_size : ℕ
destination_ip_size = 64

-- The size of `ins_tmp`.
abbrev pub instruction_size : ℕ
instruction_size = 100

-- `wait_queue_sem` is the value of the semaphore.
pub record SendManager (D : Type 0) : Type 0 where
  pub max_task_number : ℕ
  pub wait_queue : List (SendTask D)
  pub wait_queue_sem : ℕ
  pub running_queue : List (SendTask D)
  pub tc_manager : TrafficControlManager D
  pub master : Socket

-- By default 65536 tasks may wait.
abbrev pub new_send_manager : {D : Type 0} → ℕ → TrafficControlManager D → Socket → SendManager D
new_send_manager task_number tc master = record {
  max_task_number = task_number;
  wait_queue = [];
  wait_queue_sem = 0;
  running_queue = [];
  tc_manager = tc;
  master = master;
}

-- The words and their NULs have room in the arrays of the task.
abbrev pub fits : {D : Type 0} → SendTask D → Bool
fits t =
    ltb (length t.destination_ip) destination_ip_size && ltb (length t.file_name) file_name_max_size

-- A refused task is dropped, and not freed.
unfoldable pub enqueue : {D : Type 0} → SendTask D → SendManager D → SendManager D × Bool
enqueue t sm = if ltb sm.max_task_number (length sm.wait_queue) then (sm, false) else (
  record sm { wait_queue = sm.wait_queue ++ t ∷ []; wait_queue_sem = sm.wait_queue_sem + 1 },
  true,
)

module _ {D : Type 0} (float : Float D) where
  -- The seven reads, into the memory `raw` that `malloc` gave.
  unfoldable pub read_task : SendTask D → Bytes → SendTask D
  read_task raw text =
      let (coflow, s1) = read_int raw.coflow_id (stream text) in
      let (flow, s2) = read_int raw.flow_id s1 in
      let (ip, s3) = read_word raw.destination_ip s2 in
      let (port, s4) = read_int raw.destination_port s3 in
      let (name, s5) = read_word raw.file_name s4 in
      let (size, s6) = float.read raw.flow_size_mb s5 in
      let (speed, _) = float.read raw.speed_mbs s6 in
      record {
        destination_ip = ip;
        destination_port = port;
        flow_size_mb = size;
        speed_mbs = speed;
        file_name = name;
        coflow_id = coflow;
        flow_id = flow;
        send_state = send_wait;
        end_time = raw.end_time;
      }

  unfoldable pub append_task : SendTask D → Bytes → SendManager D → Option (SendManager D × Bool)
  append_task raw ins sm =
      let t = read_task raw (c_string ins) in
      if ltb (length ins) instruction_size && fits t then some (enqueue t sm) else none

-- What `Sender::run` writes into its task in the end.
abbrev pub sent_off : {D : Type 0} → ℤ → SendTask D → SendTask D
sent_off now t = record t { end_time = now; send_state = send_end }

-- `sprintf(…, "(%d %d %ld)", …)`
unfoldable pub report_text : {D : Type 0} → SendTask D → Bytes
report_text t =
    b'('
    ∷ (print_int t.coflow_id
        ++ b' ' ∷ (print_int t.flow_id ++ b' ' ∷ (print_int t.end_time ++ b')' ∷ [])))

abbrev pub is_end : SendState → Bool
is_end send_end = true
is_end _ = false

abbrev pub is_task_end : SendState → Bool
is_task_end task_end = true
is_task_end _ = false

-- `while (!setSendMsg(…)) ;` with fuel: nothing changes between two rounds.
unfoldable pub queue_until : ℕ → Bytes → Socket → Option Socket
queue_until zero msg s = none
queue_until (suc fuel) msg s = do
  (s', ok) ← set_send_msg msg s
  let again = queue_until fuel msg s' in if ok then some s' else again

module _ {K : Type 0} (kernel : Kernel K) where
  unfoldable pub report_task :
      {D : Type 0} → SendTask D → Socket → K → Option (SendTask D × Socket × K)
  report_task t s k =
      if is_end t.send_state
      then (do
        s' ← queue_until 1 (report_text t) s
        let ((s'', _), k') = send_msg kernel s' k
        some (record t { send_state = task_end }, s'', k'))
      else some (t, s, k)

  -- The first scan of the running queue.
  unfoldable pub report_tasks :
      {D : Type 0} → List (SendTask D) → Socket → K → Option (List (SendTask D) × Socket × K)
  report_tasks [] s k = some ([], s, k)
  report_tasks (t ∷ ts) s k = do
    (t', s', k') ← report_task t s k
    (ts', s'', k'') ← report_tasks ts s' k'
    some (t' ∷ ts', s'', k'')

-- The second scan.
unfoldable pub prune : {D : Type 0} → List (SendTask D) → List (SendTask D)
prune [] = []
prune (t ∷ ts) = let ts' = prune ts in if is_task_end t.send_state then ts' else t ∷ ts'

module _ {D K : Type 0} (float : Float D) (popen : Bytes → Bool) (kernel : Kernel K) where
  -- From the limit on the port to the end of the body. `local_port` is the port that `bind` accepted.
  unfoldable pub serve : ℤ → SendTask D → SendManager D → K → Option (SendManager D × K)
  serve local_port t sm k = do
    (tc, _) ← set_ip_port_bandwidth float popen local_port t.speed_mbs sm.tc_manager
    let queue = sm.running_queue ++ record t { send_state = send_running } ∷ []
    (queue', s, k') ← report_tasks kernel queue sm.master k
    some (record sm { tc_manager = tc; running_queue = prune queue'; master = s }, k')

  -- One round of `run`. It only gets past `wait` when the semaphore is up; the result is then the
  -- task whose `Sender` was handed to the pool.
  unfoldable pub round : ℤ → SendManager D → K → Option ((SendManager D × Option (SendTask D)) × K)
  round local_port sm k = elim sm.wait_queue_sem [
    | zero ↦ some ((sm, none), k)
    | suc n ↦
        let sm1 = record sm { wait_queue_sem = n } in
        elim sm.wait_queue [
          | [] ↦ some ((sm1, none), k)
          | t ∷ ts ↦ do
            (sm2, k') ← serve local_port t (record sm1 { wait_queue = ts }) k
            some ((sm2, some t), k')
        ]
  ]

-- A `Sender` of the running queue ends.
unfoldable pub sender_ends : {D : Type 0} → ℕ → ℤ → SendManager D → SendManager D
sender_ends i now sm = elim (get_elem? sm.running_queue i) [
  | none ↦ sm
  | some t ↦ record sm { running_queue = set sm.running_queue i (sent_off now t) }
]
