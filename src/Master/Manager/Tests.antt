-- ===== src/Master/Manager/Tests.antt =====
-- Two machines, four logical machines, and a task.
use coflow_sim_online.Base.{[], arith, length, negsuc, pos, refl, some, ℕ, ◌++◌, ◌+◌, ◌∷◌, ◌≡◌}
use coflow_sim_online.Text.{codes, print_int}
use coflow_sim_online.Common.Socket.{Socket}
use coflow_sim_online.Common.Socket.Kernels.{eager}
use coflow_sim_online.Common.Float.Whole.{whole}
use coflow_sim_online.Text.Stream.{read_word}
use coflow_sim_online.Master.Manager.{
  transfer, Bytes, MachineManager, Task, new_manager, set_logic_machine_num,
  add_one_physics_machine, task_text, send_task, find_logic,
}
use coflow_sim_online.Master.Machine.{Machine, new_machine}
use coflow_sim_online.Master.Manager.Placement.{
  IsPlaced, IsNumbered, add_one_physics_machine-IsPlaced,
}
use coflow_sim_online.Master.Manager.Sending.{
  Route, flushed, text_for, send_task_queues, send_task_drops,
}

abbrev pub raw : Socket
raw = record {
  sockfd = pos 7;
  address = record { ip = []; port = pos 0 };
  recv_buf = [];
  send_buf = [];
  epollfd = pos 3;
  calls = [];
}

abbrev pub machine : ℕ → Machine
machine id = record {
  machine_id = pos id;
  socket = record raw { sockfd = negsuc 0 };
  socketip = codes "172.18.0.2";
  socketport = pos 4003;
  remain_bandwidth = pos 0;
  flows_finished_info = [];
  tmprecv = [];
}

abbrev one_machine : MachineManager
one_machine = record {
  logic_map = (pos 0, some 0) ∷ (pos 1, some 0) ∷ (pos 2, some 0) ∷ [];
  physics_machines = machine 0 ∷ [];
  logic_machine_num = pos 3;
  physics_machines_num = 1;
}

abbrev pub two_machines : MachineManager
two_machines = record {
  logic_map = (pos 0, some 0) ∷ (pos 1, some 1) ∷ (pos 2, some 0) ∷ [];
  physics_machines = machine 0 ∷ machine 1 ∷ [];
  logic_machine_num = pos 3;
  physics_machines_num = 2;
}

add_first_runs :
    add_one_physics_machine raw
      (codes "172.18.0.2")
      (pos 4003)
      (set_logic_machine_num (pos 3) new_manager)
    ≡ some (one_machine, pos 0)
unfolding add_one_physics_machine new_machine
add_first_runs = refl

add_second_runs :
    add_one_physics_machine raw (codes "172.18.0.2") (pos 4003) one_machine
    ≡ some (two_machines, pos 1)
unfolding add_one_physics_machine new_machine
add_second_runs = refl

add_one_physics_machine-IsPlaced_example :
    IsPlaced two_machines
    × IsNumbered two_machines
    × (length two_machines.physics_machines ≡ length one_machine.physics_machines + 1)
    × (pos 1 ≡ pos (length one_machine.physics_machines))
add_one_physics_machine-IsPlaced_example =
    add_one_physics_machine-IsPlaced raw (codes "172.18.0.2") (pos 4003) one_machine
      {mm' = two_machines} {id = pos 1} ((refl, tt), refl) add_second_runs

abbrev task : Task ℕ
task = record {
  coflow_id = pos 1;
  flow_id = pos 0;
  mapper_id = pos 0;
  reducer_id = pos 1;
  flow_size_mb = 500;
  send_speed_mbs = 10;
}

task_text_runs :
    task_text whole task (codes "172.18.0.2") (pos 4003)
    ≡ codes "(1 0 172.18.0.2 4003 1_0_500_10.txt 500 10)"
unfolding task_text transfer read_word print_int
task_text_runs = refl

machines-Route : Route whole eager task two_machines 0 (machine 0) (machine 1)
unfolding find_logic
machines-Route = record {
  reducer_at = 1;
  mapper_mapped = refl;
  reducer_mapped = refl;
  mapper_machine = refl;
  reducer_machine = refl;
}

send_task_queues_example :
    (s : Socket) × (s.send_buf
      ≡ (machine 0).socket.send_buf ++ text_for whole eager task (machine 1))
    × (send_task whole eager task two_machines []
        ≡ some (flushed whole eager two_machines 0 (machine 0) s []))
unfolding task_text transfer read_word print_int
send_task_queues_example =
    send_task_queues whole eager task two_machines 0 (machine 0) (machine 1) [] machines-Route
      (omega arith) (omega arith)

-- 1000 bytes
abbrev ten : Bytes → Bytes
ten s = s ++ s ++ s ++ s ++ s ++ s ++ s ++ s ++ s ++ s

abbrev crowded : Machine
crowded = record (machine 0) { socket = record raw { send_buf = ten (ten (codes "0123456789")) } }

abbrev crowded_machines : MachineManager
crowded_machines = record two_machines { physics_machines = crowded ∷ machine 1 ∷ [] }

crowded-Route : Route whole eager task crowded_machines 0 crowded (machine 1)
unfolding find_logic
crowded-Route = record {
  reducer_at = 1;
  mapper_mapped = refl;
  reducer_mapped = refl;
  mapper_machine = refl;
  reducer_machine = refl;
}

send_task_drops_example :
    send_task whole eager task crowded_machines []
    ≡ some (flushed whole eager crowded_machines 0 crowded crowded.socket [])
unfolding task_text transfer read_word print_int
send_task_drops_example =
    send_task_drops whole eager task crowded_machines 0 crowded (machine 1) [] crowded-Route
      (omega arith) (omega arith)
