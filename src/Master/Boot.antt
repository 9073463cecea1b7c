-- ===== src/Master/Boot.antt =====
-- src/master/main.cpp: `coflowSimMaster` up to its event loop, which does nothing with any event. `none` is a
-- failed `assert` or a value that was never set, as in the parts that it calls.
pub mod Flowing
mod Tests
use coflow_sim_online.Base.{
  List, Option, [], if◌then◌else◌, length, negsuc, none, pos, some, ℕ, ℤ, ◌+◌, ◌==ℤ◌, ◌>>=◌, ◌∷◌,
}
use coflow_sim_online.Text.{Bytes}
use coflow_sim_online.Common.Float.{Float}
use coflow_sim_online.Common.Socket.{Socket}
use coflow_sim_online.Common.Pool.{new_pool}
use coflow_sim_online.Master.Coflow.{Coflow, get_flows_num}
use coflow_sim_online.Master.Manager.{
  MachineManager, new_manager, set_logic_machine_num, start_conn,
}
use coflow_sim_online.Master.Scheduler.{Scheduler}
use coflow_sim_online.Master.Trace.{prepare_coflows, new_trace_producer}
use coflow_sim_online.Master.Startup.{MachineDocument, parse_machine_define}

abbrev pub max_task_num : ℤ
max_task_num = pos 10000

-- What the world gives: the result of `epoll_create`, the content of the two files, the descriptors that
-- `connect` gives one after another, and what the memory of new objects holds.
pub record Environment : Type 0 where
  pub epollfd : ℤ
  pub trace_file : Bytes
  pub machine_define : MachineDocument
  pub connected : List ℤ
  pub raw_socket : Socket
  pub raw_endtime : ℤ
  pub raw_start_time : ℤ

-- `return 1`, or the scheduler that the pool gets, with the numbers of coflows and flows that are logged.
pub data Boot (D : Type 0) : Type 0 where
  returned : ℤ → Boot D
  running : (scheduler : Scheduler D) → (coflow_num flow_num : ℕ) → Boot D

-- `SocketManage::sEpollfd = epollfd`: the static that every later socket has.
abbrev pub base_socket : Environment → Socket
base_socket w = record w.raw_socket { epollfd = w.epollfd }

module _ {D : Type 0} where
  abbrev pub count_flows : List (Coflow D) → ℕ
  count_flows [] = 0
  count_flows (co ∷ cos) = get_flows_num co + count_flows cos

  -- The constructor, `setMachines` and `setCoflows`; `startTime` is not set.
  unfoldable pub new_scheduler : ℤ → MachineManager → List (Coflow D) → Scheduler D
  new_scheduler raw_start_time mm coflows = record {
    coflows = coflows;
    register_index = 0;
    machines = mm;
    start_time = raw_start_time;
    coflow_finished_num = 0;
    outfile = [];
  }

  unfoldable pub boot : Float D → ℤ → Environment → Option (Boot D)
  unfolding new_scheduler
  boot float thread_num w = if w.epollfd ==ℤ negsuc 0 then none else (do
    (_, coflows) ← prepare_coflows float w.raw_endtime w.trace_file new_trace_producer []
    mm ←
        parse_machine_define (base_socket w) w.machine_define
          (set_logic_machine_num (pos 150) new_manager)
    let mm' = record mm { physics_machines = start_conn w.connected mm.physics_machines }
    let scheduler = new_scheduler w.raw_start_time mm' coflows
    some (elim (new_pool {T = Scheduler D} thread_num max_task_num) [
      | none ↦ returned (pos 1)
      | some _ ↦ running scheduler (length coflows) (count_flows coflows)
    ]))
