-- ===== src/Master/Boot/Flowing.antt =====
-- From the trace file to the calls of sendTask.
use coflow_sim_online.Base.{
  All, Bool, IsInt, List, [], arith, false, length, length-map, map, negsuc, pos, refl, some, ℕ, ℤ,
  ◌<◌, ◌==ℤ◌, ◌^◌, ◌∷◌, ◌≡◌,
}
use coflow_sim_online.Master.Manager.{
  new_manager, set_logic_machine_num, MachineManager, start_conn,
}
use coflow_sim_online.Common.Float.{Float, FloatLaws}
use coflow_sim_online.Master.Coflow.{unregister, new_coflow}
use coflow_sim_online.Master.Trace.Entry.{Entry, coflow_of}
use coflow_sim_online.Master.Trace.File.{IsListed, print_trace, prepare_coflows-print_trace}
use coflow_sim_online.Master.Scheduler.{Scheduler}
use coflow_sim_online.Master.Scheduler
use coflow_sim_online.Master.Scheduler.Round.{AllAre}
use coflow_sim_online.Master.Scheduler
use coflow_sim_online.Master.Scheduler.Run.{run, Sent, started, run-sends}
use coflow_sim_online.Master.Scheduler.Frames.{tasks_until}
use coflow_sim_online.Common.Pool.{new_pool}
use coflow_sim_online.Master.Boot.{
  new_scheduler, count_flows, Environment, running, boot, base_socket, prepare_coflows,
  new_trace_producer, set_logic_machine_num, new_manager, parse_machine_define, new_pool,
}

module _ {D : Type 0} (float : Float D) (laws : FloatLaws float) where
  coflow_of-unregister :
      (raw : ℤ) (e : Entry D) → (coflow_of float laws raw e).coflow_state ≡ unregister
  unfolding new_coflow
  coflow_of-unregister raw e = refl

  coflows-unregister :
      (raw : ℤ) (es : List (Entry D)) → AllAre unregister (map (coflow_of float laws raw) es)
  coflows-unregister raw [] = tt
  coflows-unregister raw (e ∷ es) = (coflow_of-unregister raw e, coflows-unregister raw es)

  -- The scheduler of a trace and of the machines that parseMachineDefine made.
  abbrev pub booted : Environment → MachineManager → List (Entry D) → Scheduler D
  booted w mm es =
      new_scheduler w.raw_start_time
        (record mm { physics_machines = start_conn w.connected mm.physics_machines })
        (map (coflow_of float laws w.raw_endtime) es)

  boot_lem :
      (threads : ℕ) (ports : ℤ) (more_spaces : ℕ) (ended : Bool) (es : List (Entry D))
      (w : Environment) {mm : MachineManager}
      → IsInt ports
      → length es < 2 ^ 31
      → All (IsListed float laws) es
      → w.trace_file ≡ print_trace float laws ports more_spaces ended es
      → (w.epollfd ==ℤ negsuc 0) ≡ false
      → parse_machine_define
          (base_socket w)
          w.machine_define
          (set_logic_machine_num (pos 150) new_manager)
        ≡ some mm
      → boot float (pos threads) w
        ≡ some (running (booted w mm es) (length es) (count_flows (booted w mm es).coflows))
  unfolding boot new_scheduler new_pool
  boot_lem threads ports more_spaces ended es w int few listed file opened parsed =
      let coflows = map (coflow_of float laws w.raw_endtime) es in
      let made : prepare_coflows float w.raw_endtime w.trace_file new_trace_producer []
          ≡ some (record new_trace_producer { logic_machine_port_num = ports }, coflows) =
        rw file (
          prepare_coflows-print_trace float laws w.raw_endtime ports more_spaces ended es
            new_trace_producer [] int few listed) in
      ground (arith, opened, made, parsed, length-map (coflow_of float laws w.raw_endtime) es)

  -- The master gets to its scheduler from a trace of which the first line has the numbers of
  -- ports and of coflows, with one space or more between them, and each further line describes a
  -- coflow, with single spaces; and at whatever round of run one looks then, and whatever the
  -- clients report, the tasks that were passed to sendTask are those of the flows of the first
  -- registerIndex lines, each once and in order. The premises are that the numbers in the trace
  -- are int values, the times and sizes are spelled by texts that ss >> double reads to their
  -- end, with no space, parenthesis, colon or NUL in them, each line and each pair fits its
  -- buffer, parseMachineDefine can read the cluster, epoll_create succeeds, and the number of
  -- threads is not negative. A line break at the end of the trace may be missing.
  pub boot-sends :
      {K : Type 0} (world : Scheduler.World K) (threads : ℕ) (ports : ℤ) (more_spaces : ℕ)
      (ended : Bool) (es : List (Entry D)) (w : Environment) (n : ℕ) (k : K) {mm : MachineManager}
      {s' : Scheduler D} {all : Bool} {k' : K}
      → IsInt ports
      → length es < 2 ^ 31
      → All (IsListed float laws) es
      → w.trace_file ≡ print_trace float laws ports more_spaces ended es
      → (w.epollfd ==ℤ negsuc 0) ≡ false
      → parse_machine_define
          (base_socket w)
          w.machine_define
          (set_logic_machine_num (pos 150) new_manager)
        ≡ some mm
      → run float world n (booted w mm es) k ≡ some ((s', all), k')
      → (boot float (pos threads) w
          ≡ some (running (booted w mm es) (length es) (count_flows (booted w mm es).coflows)))
        × Sent float world
            (started float world (world.clock k).0 (booted w mm es))
            (world.clock k).1
            (tasks_until float world s'.register_index
              (map (coflow_of float laws w.raw_endtime) es))
            s'
            k'
  unfolding new_scheduler
  boot-sends world threads ports more_spaces ended es w n k {mm} {s'} {all} {k'} int few listed file
        opened parsed ran =
      (
        boot_lem threads ports more_spaces ended es w int few listed file opened parsed,
        (run-sends float world n (booted w mm es) k {s' = s'} {all = all} {k' = k'} refl
            (coflows-unregister w.raw_endtime es) ran).0,
      )
