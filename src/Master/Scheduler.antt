-- ===== src/Master/Scheduler.antt =====
-- src/master/scheduler/Scheduler.{h,cpp}. The loop of `run` is cut into the phases that its body is
-- written in. The console output is left out; the lines of coflow.log are values.
pub mod Register
pub mod Launch
pub mod Round
pub mod Finish
pub mod Drain
pub mod Ended
pub mod Polling
pub mod Frames
pub mod Phases
pub mod Run
pub mod Incoming
pub mod Heard
pub mod Machines
pub mod Reading
pub mod Told
pub mod Reported
mod Tests
use coflow_sim_online.Master.Machine.{Machine, FlowEndInfo, parse_flows_finished_info}
use coflow_sim_online.Base.{
  Bool, List, Option, [], drop, false, if◌then◌else◌, leb, length, map, none, pos, some, suc, take,
  true, zero, ℕ, ℤ, ◌++◌, ◌+◌, ◌-ℤ◌, ◌==ℤ◌, ◌>>=◌, ◌∷◌,
}
use coflow_sim_online.Common.Socket
use coflow_sim_online.Common.Socket.{Kernel}
use coflow_sim_online.Common.Float.{Float}
use coflow_sim_online.Master.Machine
use coflow_sim_online.Master.Coflow.{
  Coflow, registed, set_coflow_state, Flow, CoflowState, runninged, running, flow_end,
  set_current_mbs,
}
use coflow_sim_online.Master.Manager.{MachineManager, Task, send_task}

-- A line of coflow.log: the coflow, its start time, and the time at which it ended.
pub record LogLine (D : Type 0) : Type 0 where
  pub coflow_id : ℤ
  pub started : D
  pub took : ℤ

-- `coflow_finished_num` and `outfile` are local to `run`.
pub record Scheduler (D : Type 0) : Type 0 where
  pub coflows : List (Coflow D)
  pub register_index : ℕ
  pub machines : MachineManager
  pub start_time : ℤ
  pub coflow_finished_num : ℕ
  pub outfile : List (LogLine D)

-- The clock, `clock() / TIME_CLOCK`, is part of the world that the kernel stands in.
pub record World (K : Type 0) : Type 0 where
  pub kernel : Kernel K
  pub clock : K → ℤ × K
  pub junk : K → Bool

module _ {D : Type 0} (float : Float D) where
  -- The `while` of `registerCoflow` on the coflows from `registerIndex` on, with how many it passes.
  unfoldable pub register_from : ℤ → List (Coflow D) → List (Coflow D) × ℕ
  register_from t [] = ([], 0)
  register_from t (co ∷ cos) =
      let (cos', n) = register_from t cos in
      if float.le_long co.start_time t
      then (set_coflow_state registed co ∷ cos', suc n)
      else (co ∷ cos, 0)

  unfoldable pub register_coflow : ℤ → Scheduler D → Scheduler D
  register_coflow current_time s =
      let i = s.register_index in
      let (late, n) = register_from (current_time -ℤ s.start_time) (drop i s.coflows) in
      record s { coflows = take i s.coflows ++ late; register_index = i + n }

abbrev pub is_registed : CoflowState → Bool
is_registed registed = true
is_registed _ = false

abbrev pub is_running : CoflowState → Bool
is_running running = true
is_running _ = false

module _ {D : Type 0} where
  -- `if (co->getCoflowState() == REGISTED) co->setCoflowState(RUNNING)`
  unfoldable pub select_coflow : Coflow D → Coflow D
  select_coflow co = if is_registed co.coflow_state then set_coflow_state running co else co

  unfoldable pub select_coflows : Scheduler D → Scheduler D
  unfolding select_coflow
  select_coflows s =
      let i = s.register_index in
      record s { coflows = map select_coflow (take i s.coflows) ++ drop i s.coflows }

  -- The first coflow with this id gets the report; with it, the coflow if it is done now.
  unfoldable pub end_in : FlowEndInfo → List (Coflow D) → List (Coflow D) × Option (Coflow D)
  end_in info [] = ([], none)
  end_in info (co ∷ cos) =
      let (co', done) = flow_end info.flow_id info.end_time co in
      let (cos', ended) = end_in info cos in
      if co.coflow_id ==ℤ info.coflow_id
      then (co' ∷ cos, if done then some co' else none)
      else (co ∷ cos', ended)

module _ {D K : Type 0} (float : Float D) (world : World K) where
  open world use {kernel, clock, junk}

  -- `while (!machines->sendTask(…)) ;` with fuel
  unfoldable pub send_until : ℕ → Task D → MachineManager → K → Option (MachineManager × K)
  send_until zero t mm k = none
  send_until (suc fuel) t mm k = do
    (mm', ok, k') ← send_task float kernel t mm k
    let again = send_until fuel t mm' k' in if ok then some (mm', k') else again

  abbrev pub task_of : ℤ → Flow D → Task D
  task_of coflow f = record {
    coflow_id = coflow;
    flow_id = f.flow_id;
    mapper_id = f.mapper_id;
    reducer_id = f.reducer_id;
    flow_size_mb = f.flow_size_mb;
    send_speed_mbs = f.current_mbs;
  }

  -- All the flows of a coflow, in the order of the map, at 10 Mb/s each.
  unfoldable pub launch_flows :
      ℤ → List (Flow D) → MachineManager → K → Option (List (Flow D) × MachineManager × K)
  launch_flows coflow [] mm k = some ([], mm, k)
  launch_flows coflow (f ∷ fs) mm k = do
    let f' = set_current_mbs (float.of_int (pos 10)) f
    (mm', k') ← send_until 1 (task_of coflow f') mm k
    (fs', mm'', k'') ← launch_flows coflow fs mm' k'
    some (f' ∷ fs', mm'', k'')

  unfoldable pub launch_coflow :
      Coflow D → MachineManager → K → Option (Coflow D × MachineManager × K)
  launch_coflow co mm k =
      if is_running co.coflow_state
      then (do
        (fs, mm', k') ← launch_flows co.coflow_id co.flow_collection mm k
        some (record co { coflow_state = runninged; flow_collection = fs }, mm', k'))
      else some (co, mm, k)

  unfoldable pub launch_coflows :
      List (Coflow D) → MachineManager → K → Option (List (Coflow D) × MachineManager × K)
  launch_coflows [] mm k = some ([], mm, k)
  launch_coflows (co ∷ cos) mm k = do
    (co', mm', k') ← launch_coflow co mm k
    (cos', mm'', k'') ← launch_coflows cos mm' k'
    some (co' ∷ cos', mm'', k'')

  unfoldable pub launch : Scheduler D → K → Option (Scheduler D × K)
  launch s k = do
    let i = s.register_index
    (cos, mm, k') ← launch_coflows (take i s.coflows) s.machines k
    some (record s { coflows = cos ++ drop i s.coflows; machines = mm }, k')

  -- One report; the flag says that all the coflows are done, which ends `run`.
  unfoldable pub report_one : FlowEndInfo → Scheduler D → K → (Scheduler D × Bool) × K
  report_one info s k =
      let (cos, ended) = end_in info s.coflows in
      elim ended [
        | none ↦ ((record s { coflows = cos }, false), k)
        | some co ↦
            let (now, k') = clock k in
            let line : LogLine D = record {
              coflow_id = info.coflow_id;
              started = co.start_time;
              took = now -ℤ s.start_time;
            } in
            let num = s.coflow_finished_num + 1 in
            (
              (
                record s {
                  coflows = cos;
                  coflow_finished_num = num;
                  outfile = s.outfile ++ line ∷ [];
                },
                leb (length cos) num,
              ),
              k',
            )
      ]

  -- `while (it->getOneFlowEndInfo(…))`, with the reports that a `return` leaves in the queue
  unfoldable pub drain :
      List FlowEndInfo → Scheduler D → K → (List FlowEndInfo × Scheduler D × Bool) × K
  drain [] s k = (([], s, false), k)
  drain (info ∷ infos) s k =
      let ((s', all), k') = report_one info s k in
      let rest = drain infos s' k' in if all then ((infos, s', true), k') else rest

  -- The body of the loop over the machines, for one of them. `recvMsg` is always `true`.
  unfoldable pub poll_machine :
      Machine → Scheduler D → K → Option ((Machine × Scheduler D × Bool) × K)
  poll_machine m s k = do
    ((socket, _), k') ← Socket.recv_msg kernel m.socket k
    (m', _) ← parse_flows_finished_info (junk k') (record m { socket = socket })
    let ((infos, s', all), k'') = drain m'.flows_finished_info s k'
    some ((record m' { flows_finished_info = infos }, s', all), k'')

  unfoldable pub poll_machines :
      List Machine → Scheduler D → K → Option ((List Machine × Scheduler D × Bool) × K)
  poll_machines [] s k = some (([], s, false), k)
  poll_machines (m ∷ ms) s k = do
    ((m', s', all), k') ← poll_machine m s k
    let rest =
        poll_machines ms s' k' >>= λ ((ms', s'', all'), k''). some ((m' ∷ ms', s'', all'), k'')
    elim all [ true ↦ some ((m' ∷ ms, s', true), k') | false ↦ rest ]

  abbrev pub close_machine : Machine → Machine
  close_machine m = record m { socket = Socket.close_conn true m.socket }

  unfoldable pub poll : Scheduler D → K → Option ((Scheduler D × Bool) × K)
  poll s k = do
    ((ms, s', all), k') ← poll_machines s.machines.physics_machines s k
    let ms' = if all then map close_machine ms else ms
    some ((record s' { machines = record s'.machines { physics_machines = ms' } }, all), k')

  -- One round of `while (!run_stop)`; the flag says that `run` returns.
  unfoldable pub run_once : Scheduler D → K → Option ((Scheduler D × Bool) × K)
  run_once s k = do
    let (now, k1) = clock k
    (s2, k2) ← launch (select_coflows (register_coflow float now s)) k1
    poll s2 k2
