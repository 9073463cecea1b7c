-- ===== src/Master/Manager.antt =====
-- src/master/scheduler/MachineManager.{h,cpp}. A `Machine *` is the machine's position in
-- `m_physicsMachines`, or `none` for a null pointer, which `m_logicMap[id]` makes at a key that is not
-- there. `none` as a result is undefined behaviour.
pub mod Placement
pub mod Tasks
pub mod Sending
mod Tests
use coflow_sim_online.Base.{
  Bool, List, Option, [], false, get_elem?, if◌then◌else◌, length, ltb, negsuc, none, pos, pos_part,
  set, some, suc, true, zero, ℕ, ℤ, ◌%◌, ◌++◌, ◌+◌, ◌==ℤ◌, ◌>>=◌, ◌∷◌,
}
use coflow_sim_online.Text.{Bytes, print_int, codes}
use coflow_sim_online.Text.Stream.{stream, read_word}
use coflow_sim_online.Common.Float.{Float}
use coflow_sim_online.Common.Socket
use coflow_sim_online.Common.Socket.{Socket, Kernel, set_send_msg, send_msg}
use coflow_sim_online.Master.Machine
use coflow_sim_online.Master.Machine.{Machine, new_machine}

abbrev pub LogicMap : Type 0
LogicMap = List (ℤ × Option ℕ)

pub record MachineManager : Type 0 where
  pub logic_map : LogicMap
  pub physics_machines : List Machine
  pub logic_machine_num : ℤ
  pub physics_machines_num : ℕ

abbrev pub new_manager : MachineManager
new_manager = record {
  logic_map = [];
  physics_machines = [];
  logic_machine_num = negsuc 0;
  physics_machines_num = 0;
}

abbrev pub set_logic_machine_num : ℤ → MachineManager → MachineManager
set_logic_machine_num num mm = record mm { logic_machine_num = num }

unfoldable pub find_logic : ℤ → LogicMap → Option (Option ℕ)
find_logic k [] = none
find_logic k ((j, m) ∷ ms) = if j ==ℤ k then some m else find_logic k ms

unfoldable pub put_logic : ℤ → Option ℕ → LogicMap → LogicMap
put_logic k v [] = (k, v) ∷ []
put_logic k v ((j, m) ∷ ms) = if j ==ℤ k then (k, v) ∷ ms else (j, m) ∷ put_logic k v ms

-- `for (i = 0; i < m_logicMachineNum; ++i)`, at `i` with these rounds left
unfoldable pub update_from : ℕ → ℕ → ℕ → LogicMap → LogicMap
update_from zero i n ms = ms
update_from (suc rounds) i n ms = update_from rounds (i + 1) n (put_logic (pos i) (some (i % n)) ms)

-- It is only called behind a `push_back`, so `phyMachineNum` is not 0.
unfoldable pub update_logic_map : MachineManager → MachineManager
unfolding update_from put_logic
update_logic_map mm = record mm {
  logic_map =
      update_from (pos_part mm.logic_machine_num) 0 (length mm.physics_machines) mm.logic_map;
}

-- `raw` is the memory of the new machine's socket.
unfoldable pub add_one_physics_machine :
    Socket → Bytes → ℤ → MachineManager → Option (MachineManager × ℤ)
unfolding update_logic_map
add_one_physics_machine raw ip port mm = do
  machine ← new_machine raw (pos mm.physics_machines_num) ip port
  some (
    update_logic_map (record mm {
      physics_machines = mm.physics_machines ++ machine ∷ [];
      physics_machines_num = mm.physics_machines_num + 1;
    }),
    pos mm.physics_machines_num,
  )

-- A stub in the source.
abbrev pub remove_one_physics_machine : ℤ → MachineManager → MachineManager × Bool
remove_one_physics_machine id mm = (mm, false)

-- The descriptors that the connections get.
unfoldable pub start_conn : List ℤ → List Machine → List Machine
start_conn [] ms = ms
start_conn (fd ∷ fds) [] = []
start_conn (fd ∷ fds) (m ∷ ms) = Machine.create_connect fd m ∷ start_conn fds ms

unfoldable pub get_phy_machine_by_machine_id : ℤ → List Machine → Option Machine
get_phy_machine_by_machine_id id [] = none
get_phy_machine_by_machine_id id (m ∷ ms) =
    if m.machine_id ==ℤ id then some m else get_phy_machine_by_machine_id id ms

abbrev pub get_physics_machine_num : MachineManager → ℕ
get_physics_machine_num mm = length mm.physics_machines

-- `m_logicMap[k]`, with the insertion of a null pointer.
unfoldable pub at_logic : ℤ → LogicMap → Option ℕ × LogicMap
unfolding find_logic
at_logic k ms = elim (find_logic k ms) [ some m ↦ (m, ms) | none ↦ (none, ms ++ (k, none) ∷ []) ]

-- `ss << text; ss >> ch + strlen(ch); ss.clear();` on the text in `ch` and what `ss` holds unread.
unfoldable pub transfer : Bytes → Bytes × Bytes → Bytes × Bytes
transfer text (ch, unread) =
    let (word, ss) = read_word [] (stream (unread ++ text)) in (ch ++ word, ss.unread)

abbrev pub put_char : ℕ → Bytes × Bytes → Bytes × Bytes
put_char c (ch, unread) = (ch ++ c ∷ [], unread)

-- The arguments of `sendTask`.
pub record Task (D : Type 0) : Type 0 where
  pub coflow_id : ℤ
  pub flow_id : ℤ
  pub mapper_id : ℤ
  pub reducer_id : ℤ
  pub flow_size_mb : D
  pub send_speed_mbs : D

module _ {D : Type 0} (float : Float D) where
  -- coflow_flow_size_speed.txt
  abbrev pub file_name : Task D → Bytes
  file_name t =
      print_int t.coflow_id
      ++ (b'_'
          ∷ (print_int t.flow_id
              ++ (b'_'
                  ∷ (float.print t.flow_size_mb
                      ++ (b'_' ∷ (float.print t.send_speed_mbs ++ codes ".txt"))))))

  -- What `ch` holds in the end, for the address of the reducer's machine.
  unfoldable pub task_text : Task D → Bytes → ℤ → Bytes
  task_text t ip port =
      let s1 = transfer (print_int t.coflow_id) (b'(' ∷ [], []) in
      let s2 = transfer (print_int t.flow_id) (put_char b' ' s1) in
      let s3 = transfer ip (put_char b' ' s2) in
      let s4 = transfer (print_int port) (put_char b' ' s3) in
      let s5 = transfer (file_name t) (put_char b' ' s4) in
      let s6 = transfer (float.print t.flow_size_mb) (put_char b' ' s5) in
      let s7 = transfer (float.print t.send_speed_mbs) (put_char b' ' s6) in (put_char b')' s7).0

-- The size of `ch`, its NUL included.
abbrev pub task_size : ℕ
task_size = 100

module _ {D K : Type 0} (float : Float D) (kernel : Kernel K) where
  -- `setSendMsg` and `sendMsg`, whose results are not looked at.
  unfoldable pub post : Bytes → Machine → K → Option (Machine × K)
  post text m k = do
    (socket, _) ← set_send_msg text m.socket
    let ((socket', _), k') = send_msg kernel socket k
    some (record m { socket = socket' }, k')

  -- The rest of `sendTask`, with both pointers followed.
  unfoldable pub send_to :
      Task D → ℕ → Machine → Machine → MachineManager → K → Option (MachineManager × Bool × K)
  unfolding post
  send_to t i m r mm k =
      let text = task_text float t r.socketip r.socketport in
      if ltb (length text) task_size
      then (do
        (m', k') ← post text m k
        some (record mm { physics_machines = set mm.physics_machines i m' }, true, k'))
      else none

  abbrev pub machine_at : MachineManager → Option ℕ → Option (ℕ × Machine)
  machine_at mm none = none
  machine_at mm (some i) = get_elem? mm.physics_machines i >>= λ m. some (i, m)

  unfoldable pub send_task : Task D → MachineManager → K → Option (MachineManager × Bool × K)
  unfolding send_to at_logic
  send_task t mm k = do
    let (mapper, map1) = at_logic t.mapper_id mm.logic_map
    let (reducer, map2) = at_logic t.reducer_id map1
    (i, m) ← machine_at mm mapper
    (_, r) ← machine_at mm reducer
    send_to t i m r (record mm { logic_map = map2 }) k
