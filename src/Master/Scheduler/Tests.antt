-- ===== src/Master/Scheduler/Tests.antt =====
-- Rounds of a scheduler with two coflows and two machines.
use coflow_sim_online.Master.Scheduler.{
  drain, send_until, task_of, launch_coflow, launch_flows, poll, end_in, poll_machine,
  select_coflow, poll_machines, Scheduler, World, register_coflow, register_from, select_coflows,
  launch, launch_coflows, report_one, run_once,
}
use coflow_sim_online.Master.Scheduler.Drain.{Drained, drain-Drained}
use coflow_sim_online.Master.Manager.{
  Task, send_task, task_text, transfer, at_logic, find_logic, post, send_to, MachineManager,
}
use coflow_sim_online.Master.Scheduler.Launch.{send_until_one, sends, tasks_of_all, launched}
use coflow_sim_online.Text.Stream.{
  read_word, drop_digits, drop_word, read_int, read_magnitude, read_number, read_text, skip_space,
  take_digits, take_word, to_int,
}
use coflow_sim_online.Text.{print_int, c_string, emit_digits, print_nat, codes}
use coflow_sim_online.Common.Socket.{
  set_send_msg, send_msg, after_send, close_conn, get_recv_buf, init_recv_buf, init_send_buf,
  receive_loop, receive_message, recv_msg, send_message,
}
use coflow_sim_online.Common.Epoll.{modfd, removefd}
use coflow_sim_online.Master.Coflow.{
  end_found, flow_end, Coflow, Flow, runninged, unregister, find_flow,
}
use coflow_sim_online.Master.Machine.{
  close_info, cut_byte, cut_from, index_lt, move_front, parse_flows_finished_info, read_info,
  retain, Machine, FlowEndInfo,
}
use mathlib.Core.Option
use coflow_sim_online.Master.Scheduler.Ended.{WorkedOff, drain-WorkedOff}
use coflow_sim_online.Master.Scheduler.Run.{run, run_rounds, started, Sent, run-sends}
use coflow_sim_online.Master.Scheduler.Frames.{tasks_until}
use coflow_sim_online.Master.Scheduler.Round.{AllAre, round_launches}
use coflow_sim_online.Base.{
  All, Bool, [], arith, drop, false, pos, refl, some, take, true, ℕ, ◌+◌, ◌>>=◌, ◌↔◌, ◌∷◌, ◌≡◌,
}
use coflow_sim_online.Common.Socket.Kernels.{Loopback, loopback}
use coflow_sim_online.Common.Float.Whole.{whole}
use coflow_sim_online.Master.Scheduler.Register.{IsDue, StartsLate}
use coflow_sim_online.Master.Scheduler.Finish.{
  here, there, IsCounted, finished_num, report_one-IsCounted,
}

abbrev machine : ℕ → Machine
machine id = record {
  machine_id = pos id;
  socket = record {
    sockfd = pos (5 + id);
    address = record { ip = codes "10.0.0.2"; port = pos 4003 };
    recv_buf = [];
    send_buf = [];
    epollfd = pos 3;
    calls = [];
  };
  socketip = codes "10.0.0.2";
  socketport = pos 4003;
  remain_bandwidth = pos 0;
  flows_finished_info = [];
  tmprecv = [];
}

abbrev machines : MachineManager
machines = record {
  logic_map = (pos 0, some 0) ∷ (pos 1, some 1) ∷ [];
  physics_machines = machine 0 ∷ machine 1 ∷ [];
  logic_machine_num = pos 2;
  physics_machines_num = 2;
}

abbrev flow : ℕ → Flow ℕ
flow id = record {
  flow_id = pos id;
  mapper_id = pos 0;
  reducer_id = pos 1;
  flow_size_mb = 500;
  remain_mb = 500;
  current_mbs = 0;
  flow_state = false;
  end_time = pos 0;
}

abbrev coflow : ℕ → ℕ → Coflow ℕ
coflow id start = record {
  coflow_id = pos id;
  start_time = start;
  coflow_state = unregister;
  flow_collection = flow 0 ∷ [];
  endflow_num = 0;
  endtime = pos 0;
}

-- The first coflow is due at time 10 and the second at time 20.
abbrev scheduler : Scheduler ℕ
scheduler = record {
  coflows = coflow 1 10 ∷ coflow 2 20 ∷ [];
  register_index = 0;
  machines = machines;
  start_time = pos 100;
  coflow_finished_num = 0;
  outfile = [];
}

abbrev world : World Loopback
world = record { kernel = loopback; clock = λ k. (pos 115, k); junk = λ k. false }

abbrev quiet : Loopback
quiet = record { out = []; handed = []; stock = []; window = 2000 }

abbrev after_round : MachineManager → Scheduler ℕ
after_round mm = record scheduler {
  coflows = launched whole world (coflow 1 10) ∷ coflow 2 20 ∷ [];
  register_index = 1;
  machines = mm;
}

round_launches_example :
    (launch whole world (select_coflows (register_coflow whole (pos 115) scheduler)) quiet ≡ (
      sends whole world (tasks_of_all whole world (coflow 1 10 ∷ [])) machines quiet >>= λ r.
      some (after_round r.0, r.1)))
    × All (IsDue whole (pos 15)) (coflow 1 10 ∷ [])
    × StartsLate whole (pos 15) (coflow 2 20 ∷ [])
unfolding register_from
round_launches_example =
    round_launches whole world (pos 115) scheduler quiet [] scheduler.coflows refl refl tt

abbrev info : FlowEndInfo
info = record { coflow_id = pos 2; flow_id = pos 0; end_time = pos 9 }

abbrev launched_scheduler : Scheduler ℕ
launched_scheduler = record scheduler {
  coflows = launched whole world (coflow 1 10) ∷ launched whole world (coflow 2 20) ∷ [];
}

report_one-IsCounted_example :
    IsCounted (report_one whole world info launched_scheduler quiet).0.0
    × (((report_one whole world info launched_scheduler quiet).0.1 ≡ true)
        ↔ (finished_num (report_one whole world info launched_scheduler quiet).0.0.coflows ≡ 2))
unfolding find_flow
report_one-IsCounted_example =
    report_one-IsCounted whole world info launched_scheduler quiet ((refl, (refl, tt)), refl)
      (there (λ e. cc) (here refl (_, refl, refl)))

-- Two reports come with the first round after both coflows are due: `run` returns.
abbrev reporting : Loopback
reporting = record quiet { stock = codes "(1 0 9)(2 0 9)" }

abbrev outcome : (Scheduler ℕ × Bool) × Loopback → Bool × ℕ
outcome ((s, all), k) = (all, s.coflow_finished_num)

run_once_runs :
    Option.map outcome
      (run_once whole (record world { clock = λ k. (pos 125, k) }) scheduler reporting)
    ≡ some (true, 2)
unfolding run_once launch launch_coflows select_coflows register_coflow register_from launch_coflow
    launch_flows send_until send_task task_text transfer read_word print_int set_send_msg send_msg
    poll poll_machines modfd removefd after_send close_conn get_recv_buf init_recv_buf init_send_buf
    receive_loop receive_message recv_msg send_message end_found find_flow flow_end close_info
    cut_byte cut_from index_lt move_front parse_flows_finished_info read_info retain at_logic
    find_logic post send_to drain end_in poll_machine report_one select_coflow drop_digits drop_word
    read_int read_magnitude read_number read_text skip_space take_digits take_word to_int c_string
    emit_digits print_nat
run_once_runs = refl

abbrev first_task : Task ℕ
first_task = task_of whole world (pos 1) (flow 0)

send_until_one_example :
    send_until whole world 8 first_task machines quiet
    ≡ (send_task whole loopback first_task machines quiet >>= λ r. some (r.0, r.2))
send_until_one_example = send_until_one whole world 7 first_task machines quiet

abbrev first_info : FlowEndInfo
first_info = record info { coflow_id = pos 1 }

drain-Drained_example :
    Drained whole world launched_scheduler
      (drain whole world (info ∷ first_info ∷ []) launched_scheduler quiet).0
unfolding end_in flow_end end_found find_flow
drain-Drained_example =
    drain-Drained whole world (info ∷ first_info ∷ []) launched_scheduler quiet
      ((refl, (refl, tt)), refl)
      (there (λ e. cc) (here refl (_, refl, refl)), (here refl (_, refl, refl), tt)) (omega arith)

-- The first coflow is due at once, and its report comes; the second is never due.
abbrev at_once : Scheduler ℕ
at_once = record scheduler { coflows = coflow 1 0 ∷ coflow 2 20 ∷ [] }

abbrev one_report : Loopback
one_report = record quiet { stock = codes "(1 0 9)" }

two_rounds : (r : (Scheduler ℕ × Bool) × Loopback) × (run whole world 2 at_once one_report ≡ some r)
unfolding run run_rounds run_once launch launch_coflows select_coflows register_coflow register_from
    launch_coflow launch_flows send_until send_task task_text transfer read_word print_int
    set_send_msg send_msg poll poll_machines modfd removefd after_send close_conn get_recv_buf
    init_recv_buf init_send_buf receive_loop receive_message recv_msg send_message end_found
    find_flow flow_end close_info cut_byte cut_from index_lt move_front parse_flows_finished_info
    read_info retain at_logic find_logic post send_to drain end_in poll_machine report_one
    select_coflow drop_digits drop_word read_int read_magnitude read_number read_text skip_space
    take_digits take_word to_int c_string emit_digits print_nat
two_rounds = (_, refl)

two_rounds_finish : two_rounds.0.0.0.coflow_finished_num ≡ 1
unfolding two_rounds
two_rounds_finish = refl

run-sends_example :
    Sent whole world
      (started whole world (pos 115) at_once)
      one_report
      (tasks_until whole world two_rounds.0.0.0.register_index at_once.coflows)
      two_rounds.0.0.0
      two_rounds.0.1
    × AllAre runninged (take two_rounds.0.0.0.register_index two_rounds.0.0.0.coflows)
    × AllAre unregister (drop two_rounds.0.0.0.register_index two_rounds.0.0.0.coflows)
run-sends_example =
    run-sends whole world 2 at_once one_report {s' = two_rounds.0.0.0} {all = two_rounds.0.0.1}
      {k' = two_rounds.0.1} refl (refl, (refl, tt)) two_rounds.1

-- Both flows end, and a report of an unknown coflow changes nothing.
drain-WorkedOff_example :
    WorkedOff whole world
      (info ∷ record info { coflow_id = pos 7 } ∷ first_info ∷ [])
      launched_scheduler
      (drain whole world
        (info ∷ record info { coflow_id = pos 7 } ∷ first_info ∷ [])
        launched_scheduler
        quiet).0
drain-WorkedOff_example =
    drain-WorkedOff whole world (info ∷ record info { coflow_id = pos 7 } ∷ first_info ∷ [])
      launched_scheduler quiet
