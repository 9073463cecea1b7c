-- ===== src/Master/Boot/Tests.antt =====
-- The master on a trace of one coflow and a cluster of two clients.
use coflow_sim_online.Master.Boot.{
  base_socket, Environment, boot, new_scheduler, running, count_flows, Bytes,
}
use coflow_sim_online.Master.Trace.Numbers.{number, number-IsSpelled}
use coflow_sim_online.Master.Scheduler.{
  drain, send_until, launch_coflow, launch_flows, poll, end_in, poll_machine, select_coflow,
  poll_machines, Scheduler, World, register_coflow, register_from, select_coflows, launch,
  launch_coflows, report_one, run_once,
}
use coflow_sim_online.Master.Manager.{
  send_task, task_text, transfer, at_logic, find_logic, post, send_to, MachineManager,
  add_one_physics_machine, new_manager, set_logic_machine_num, start_conn,
}
use coflow_sim_online.Text.Stream.{
  read_word, drop_digits, drop_word, read_int, read_magnitude, read_number, read_text, skip_space,
  take_digits, take_word, to_int,
}
use coflow_sim_online.Text.{print_int, c_string, emit_digits, print_nat, codes}
use coflow_sim_online.Common.Socket.{
  set_send_msg, send_msg, after_send, close_conn, get_recv_buf, init_recv_buf, init_send_buf,
  receive_loop, receive_message, recv_msg, send_message, Socket,
}
use coflow_sim_online.Common.Epoll.{modfd, removefd}
use coflow_sim_online.Master.Coflow.{end_found, flow_end, running, find_flow, new_coflow}
use coflow_sim_online.Master.Machine.{
  close_info, cut_byte, cut_from, index_lt, move_front, parse_flows_finished_info, read_info,
  retain, new_machine, create_connect,
}
use coflow_sim_online.Master.Scheduler.Run.{run, run_rounds, started, Sent}
use coflow_sim_online.Master.Scheduler.Frames.{tasks_until}
use coflow_sim_online.Base.{Bool, [], arith, false, negsuc, pos, refl, some, ℕ, ◌∷◌, ◌≡◌}
use coflow_sim_online.Common.Socket.Kernels.{Loopback, loopback}
use coflow_sim_online.Common.Float.Whole.{whole, whole_laws}
use coflow_sim_online.Master.Trace.Entry.{Entry, coflow_of, print_line}
use coflow_sim_online.Master.Trace.File.{IsListed, print_trace}
use coflow_sim_online.Master.Startup.{
  need_text, need_number, ClientDocument, parse_machine_define, add_clients, add_client,
}
use coflow_sim_online.Master.Boot.Flowing.{booted, boot-sends}

abbrev entry : Entry ℕ
entry = record {
  coflow_id = pos 1;
  start_time = number 0;
  mapper_ids = pos 21 ∷ pos 134 ∷ [];
  reducers = (pos 18, number 100) ∷ [];
}

entry-IsListed : IsListed whole whole_laws entry
unfolding print_line print_int print_nat emit_digits
entry-IsListed = record {
  readable = record {
    id_int = omega arith;
    start_spelled = number-IsSpelled 0;
    ids_int = (omega arith, (omega arith, tt));
    pairs = ((omega arith, omega arith, number-IsSpelled 100), tt);
    mappers_num = omega arith;
    reducers_num = omega arith;
  };
  line = ground arith;
  short = omega arith;
}

abbrev raw : Socket
raw = record {
  sockfd = negsuc 0;
  address = record { ip = []; port = pos 0 };
  recv_buf = [];
  send_buf = [];
  epollfd = pos 3;
  calls = [];
}

abbrev client : Bytes → ClientDocument
client ip = record { ip = some ip; port = some (pos 4003) }

abbrev environment : Environment
environment = record {
  epollfd = pos 3;
  trace_file = print_trace whole whole_laws (pos 150) 3 false (entry ∷ []);
  machine_define = record {
    master_ip = some (codes "172.18.0.1");
    master_port = some (pos 4002);
    clients = some (client (codes "172.18.0.2") ∷ client (codes "172.18.0.3") ∷ []);
  };
  connected = pos 6 ∷ pos 7 ∷ [];
  raw_socket = raw;
  raw_endtime = pos 0;
  raw_start_time = pos 0;
}

cluster :
    (mm : MachineManager) × (parse_machine_define
        (base_socket environment)
        environment.machine_define
        (set_logic_machine_num (pos 150) new_manager)
      ≡ some mm)
unfolding parse_machine_define need_text need_number print_int add_clients add_client
    add_one_physics_machine new_machine
cluster = (_, refl)

abbrev world : World Loopback
world = record { kernel = loopback; clock = λ k. (pos 100, k); junk = λ k. false }

abbrev quiet : Loopback
quiet = record { out = []; handed = []; stock = []; window = 2000 }

one_round :
    (r : (Scheduler ℕ × Bool) × Loopback) × (run whole world 1
        (booted whole whole_laws environment cluster.0 (entry ∷ []))
        quiet
      ≡ some r)
unfolding run run_rounds run_once launch launch_coflows select_coflows register_coflow register_from
    launch_coflow launch_flows send_until send_task task_text transfer read_word print_int
    set_send_msg send_msg poll poll_machines modfd removefd after_send close_conn get_recv_buf
    init_recv_buf init_send_buf receive_loop receive_message recv_msg send_message end_found
    find_flow flow_end close_info cut_byte cut_from index_lt move_front parse_flows_finished_info
    read_info retain at_logic find_logic post send_to drain end_in poll_machine report_one
    select_coflow drop_digits drop_word read_int read_magnitude read_number read_text skip_space
    take_digits take_word to_int c_string emit_digits print_nat new_scheduler new_coflow cluster
    start_conn create_connect coflow_sim_online.Master.Coflow.new_flow
    coflow_sim_online.Common.Socket.create_connect
one_round = (_, refl)

one_round_sends :
    one_round.0.1.out
    ≡ codes "(1 0 172.18.0.2 4003 1_0_50_10.txt 50 10)(1 1 172.18.0.2 4003 1_1_50_10.txt 50 10)"
unfolding one_round
one_round_sends = refl

boot-sends_example :
    (boot whole (pos 4) environment
      ≡ some (
          running
            (booted whole whole_laws environment cluster.0 (entry ∷ []))
            1
            (count_flows (booted whole whole_laws environment cluster.0 (entry ∷ [])).coflows)))
    × Sent whole world
        (started whole world (pos 100) (booted whole whole_laws environment cluster.0 (entry ∷ [])))
        quiet
        (tasks_until whole world one_round.0.0.0.register_index
          (coflow_of whole whole_laws (pos 0) entry ∷ []))
        one_round.0.0.0
        one_round.0.1
boot-sends_example =
    boot-sends whole whole_laws world 4 (pos 150) 3 false (entry ∷ []) environment 1 quiet
      {mm = cluster.0} {s' = one_round.0.0.0} {all = one_round.0.0.1} {k' = one_round.0.1}
      (omega arith) (omega arith) (entry-IsListed, tt) refl refl cluster.1 one_round.1
