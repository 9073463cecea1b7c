-- ===== src/Protocol/Ended/Tests.antt =====
-- Two machines, of which the first has a report to come, and a coflow that is never due.
use coflow_sim_online.Base.{
  ==ℤ_iff, All, Bool, List, [], arith, drop, false, flatten, if◌then◌else◌, joins, length, pos,
  refl, some, take, take-drop, true, ℕ, ℤ, ◌+◌, ◌==ℤ◌, ◌∷◌, ◌≡◌, ◌≢◌, ◌⊎◌,
}
use coflow_sim_online.Text.{Bytes, codes, print_int, c_string, emit_digits, print_nat}
use coflow_sim_online.Text.Stream.{
  read_word, drop_digits, drop_word, read_int, read_magnitude, read_number, read_text, skip_space,
  take_digits, take_word, to_int,
}
use coflow_sim_online.Common.Float.Whole.{whole}
use coflow_sim_online.Common.Epoll.{modfd, removefd}
use coflow_sim_online.Common.Socket.{
  RecvResult, received, recv_again, sent, set_send_msg, send_msg, after_send, close_conn,
  get_recv_buf, init_recv_buf, init_send_buf, receive_loop, receive_message, recv_msg, send_message,
}
use coflow_sim_online.Client.Senders.{SendTask, send_end}
use coflow_sim_online.Client.Senders.Rounds.{report_body}
use coflow_sim_online.Master.Coflow.{Flow, Coflow, unregister, end_found, find_flow, flow_end}
use coflow_sim_online.Master.Machine.{
  Machine, FlowEndInfo, close_info, cut_byte, cut_from, index_lt, move_front,
  parse_flows_finished_info, read_info, retain,
}
use coflow_sim_online.Master.Manager.{
  task_text, transfer, at_logic, find_logic, post, send_to, send_task,
}
use coflow_sim_online.Master.Scheduler.{
  World, Scheduler, run_once, launch, launch_coflows, select_coflows, register_coflow,
  register_from, launch_coflow, launch_flows, send_until, poll, poll_machines, drain, end_in,
  poll_machine, report_one, select_coflow,
}
use coflow_sim_online.Master.Scheduler.Run.{run, run_rounds}
use coflow_sim_online.Master.Scheduler.Ended.{Ends}
use coflow_sim_online.Master.Scheduler.Incoming.{Incoming, Leaves}
use coflow_sim_online.Protocol.Ended.{Starts, infos_of, run-Ends, run-Ends_finally}
use coflow_sim_online.Wire.{wire}

-- What is to come on each descriptor.
abbrev Streams : Type 0
Streams = ℤ → Bytes

abbrev put_stream : ℤ → Bytes → Streams → Streams
put_stream fd bs k other = if other ==ℤ fd then bs else k other

abbrev hand : ℕ → Bytes → ℤ → Streams → RecvResult × Streams
hand room [] fd k = (recv_again, k)
hand room (b ∷ bs) fd k = (received (take room (b ∷ bs)), put_stream fd (drop room (b ∷ bs)) k)

abbrev world : World Streams
world = record {
  kernel = record {
    send = λ fd buf k. (sent (length buf), k);
    recv = λ fd room k. hand room (k fd) fd k;
  };
  clock = λ k. (pos 115, k);
  junk = λ k. true;
}

hand-Leaves :
    (room : ℕ) (bs : Bytes) (fd : ℤ) (k : Streams)
    → k fd ≡ bs
    → Leaves (k fd) ((hand room bs fd k).1 fd) (hand room bs fd k).0
hand-Leaves room [] fd k e = refl
hand-Leaves room (b ∷ bs) fd k e = ground (arith, e, ==ℤ_iff fd fd, take-drop room (b ∷ bs))

hand-other :
    (room : ℕ) (bs : Bytes) (fd other : ℤ) (k : Streams)
    → other ≢ fd
    → (hand room bs fd k).1 other ≡ k other
hand-other room [] fd other k ne = refl
hand-other room (b ∷ bs) fd other k ne = ground (arith, ==ℤ_iff other fd)

abbrev incoming : Incoming world
incoming = record {
  rest = λ fd k. k fd;
  recv_rest = λ fd room k. hand-Leaves room (k fd) fd k refl;
  recv_other = λ fd other room k ne. hand-other room (k fd) fd other k ne;
  send_rest = λ fd other buf k. refl;
  clock_rest = λ fd k. refl;
  junk_below = λ k. refl;
}

abbrev machine : ℕ → Machine
machine id = record {
  machine_id = pos id;
  socket = record {
    sockfd = pos (5 + id);
    address = record { ip = codes "10.0.0.2"; port = pos 4003 };
    recv_buf = [];
    send_buf = [];
    epollfd = pos 3;
    calls = [];
  };
  socketip = codes "10.0.0.2";
  socketport = pos 4003;
  remain_bandwidth = pos 0;
  flows_finished_info = [];
  tmprecv = [];
}

abbrev flow : Flow ℕ
flow = record {
  flow_id = pos 0;
  mapper_id = pos 0;
  reducer_id = pos 1;
  flow_size_mb = 500;
  remain_mb = 500;
  current_mbs = 0;
  flow_state = false;
  end_time = pos 0;
}

abbrev coflow : ℕ → ℕ → Coflow ℕ
coflow id start = record {
  coflow_id = pos id;
  start_time = start;
  coflow_state = unregister;
  flow_collection = flow ∷ [];
  endflow_num = 0;
  endtime = pos 0;
}

abbrev scheduler : Scheduler ℕ
scheduler = record {
  coflows = coflow 1 0 ∷ coflow 2 20 ∷ [];
  register_index = 0;
  machines = record {
    logic_map = (pos 0, some 0) ∷ (pos 1, some 1) ∷ [];
    physics_machines = machine 0 ∷ machine 1 ∷ [];
    logic_machine_num = pos 2;
    physics_machines_num = 2;
  };
  start_time = pos 100;
  coflow_finished_num = 0;
  outfile = [];
}

abbrev task : SendTask ℕ
task = record {
  destination_ip = codes "10.0.0.2";
  destination_port = pos 4003;
  flow_size_mb = 500;
  speed_mbs = 10;
  file_name = codes "f.txt";
  coflow_id = pos 1;
  flow_id = pos 0;
  send_state = send_end;
  end_time = pos 9;
}

abbrev streams : Streams
streams = put_stream (pos 5) (codes "(1 0 9)") (λ fd. [])

abbrev tasks : List (List (SendTask ℕ))
tasks = (task ∷ []) ∷ [] ∷ []

seven_rounds : (r : (Scheduler ℕ × Bool) × Streams) × (run whole world 7 scheduler streams ≡ some r)
unfolding run run_rounds run_once launch launch_coflows select_coflows register_coflow register_from
    launch_coflow launch_flows send_until send_task task_text transfer read_word print_int
    set_send_msg send_msg poll poll_machines modfd removefd after_send close_conn get_recv_buf
    init_recv_buf init_send_buf receive_loop receive_message recv_msg send_message end_found
    find_flow flow_end close_info cut_byte cut_from index_lt move_front parse_flows_finished_info
    read_info retain at_logic find_logic post send_to drain end_in poll_machine report_one
    select_coflow drop_digits drop_word read_int read_magnitude read_number read_text skip_space
    take_digits take_word to_int c_string emit_digits print_nat
seven_rounds = (_, refl)

-- Only the first coflow has been launched and is finished.
seven_rounds_finish : (seven_rounds.0.0.1 ≡ false) × (seven_rounds.0.0.0.coflow_finished_num ≡ 1)
unfolding seven_rounds
seven_rounds_finish = (refl, refl)

nothing_left : All (λ fd. seven_rounds.0.1 fd ≡ []) (pos 5 ∷ pos 6 ∷ [])
unfolding seven_rounds
nothing_left = (refl, (refl, tt))

starts : Starts whole world incoming tasks scheduler.machines.physics_machines streams
unfolding wire report_body print_int
starts = (
  (((omega arith, omega arith, omega arith), tt), refl, refl, refl, refl),
  ((tt, refl, refl, refl, refl), tt),
)

run-Ends_example :
    (takens : List (List FlowEndInfo)) × (lefts : List (List FlowEndInfo)) × (infos_of whole world
        incoming tasks
      ≡ joins takens lefts)
    × Ends (flatten takens) scheduler seven_rounds.0.0.0
run-Ends_example =
    run-Ends whole world incoming tasks 7 scheduler streams {s' = seven_rounds.0.0.0}
      {all = seven_rounds.0.0.1} {k' = seven_rounds.0.1} refl (refl, (refl, tt)) starts
      (((λ e. cc), tt), (tt, tt)) seven_rounds.1

run-Ends_finally_example :
    (seven_rounds.0.0.1 ≡ true)
    ⊎ Ends (flatten (infos_of whole world incoming tasks)) scheduler seven_rounds.0.0.0
run-Ends_finally_example =
    run-Ends_finally whole world incoming tasks 7 scheduler streams {s' = seven_rounds.0.0.0}
      {all = seven_rounds.0.0.1} {k' = seven_rounds.0.1} refl (refl, (refl, tt)) starts
      (((λ e. cc), tt), (tt, tt)) seven_rounds.1 nothing_left
