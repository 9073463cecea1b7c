-- ===== src/Client/Senders/Tests.antt =====
-- A client with one flow to send.
use coflow_sim_online.Client.Senders.Rounds.{Served, round-Served, queue_until_one}
use coflow_sim_online.Text.{print_int, print_nat, c_string, codes}
use coflow_sim_online.Common.Socket.{send_msg, set_send_msg, Socket}
use coflow_sim_online.Client.Senders.{
  report_text, report_task, report_tasks, serve, read_task, sent_off, send_running, SendTask,
  SendManager, send_wait, send_end, new_send_manager, append_task, round, queue_until, enqueue,
}
use coflow_sim_online.Client.Traffic.{
  print_hex, render, set_ip_port_bandwidth, TrafficControlManager,
}
use coflow_sim_online.Text.Stream.{read_int, read_word}
use coflow_sim_online.Client.Senders.Early.{Holds, rounds, early_end-Holds}
use coflow_sim_online.Base.{[], arith, pos, refl, some, true, ℕ, ◌∷◌, ◌≡◌}
use coflow_sim_online.Common.Float.Whole.{whole}
use coflow_sim_online.Common.Socket.Kernels.{eager, eager_pipe}
use coflow_sim_online.Common.Socket.Send.{IsWhole}
use coflow_sim_online.Client.Senders.Queue.{Steps}

abbrev master : Socket
master = record {
  sockfd = pos 5;
  address = record { ip = codes "10.0.0.1"; port = pos 4002 };
  recv_buf = [];
  send_buf = [];
  epollfd = pos 3;
  calls = [];
}

abbrev card : TrafficControlManager ℕ
card = record { net_card_name = codes "eth0"; remain_bandwidth_mbs = 100; executed = [] }

abbrev fresh : SendManager ℕ
fresh = new_send_manager 65536 card master

abbrev raw : SendTask ℕ
raw = record {
  destination_ip = [];
  destination_port = pos 0;
  flow_size_mb = 0;
  speed_mbs = 0;
  file_name = [];
  coflow_id = pos 0;
  flow_id = pos 0;
  send_state = send_wait;
  end_time = pos 0;
}

abbrev task : SendTask ℕ
task = record raw {
  destination_ip = codes "10.0.0.2";
  destination_port = pos 4003;
  flow_size_mb = 500;
  speed_mbs = 10;
  file_name = codes "1_0_500_10.txt";
  coflow_id = pos 1;
}

append_runs :
    append_task whole raw (codes "1 0 10.0.0.2 4003 1_0_500_10.txt 500 10") fresh
    ≡ some (enqueue task fresh)
unfolding append_task read_task read_word read_int c_string
append_runs = refl

eager-IsWhole : IsWhole eager
eager-IsWhole fd buf k n e = ground arith

queue_until_one_example :
    queue_until 5 (codes "(1 0 9)") master ≡ queue_until 1 (codes "(1 0 9)") master
queue_until_one_example = queue_until_one 4 (codes "(1 0 9)") master

-- One flow is done, and the task waits.
abbrev busy : SendManager ℕ
busy = record fresh {
  wait_queue = task ∷ [];
  wait_queue_sem = 1;
  running_queue = record task { flow_id = pos 7; send_state = send_end; end_time = pos 9 } ∷ [];
}

busy_round :
    (sm' : SendManager ℕ) × (round whole (λ cmd. true) eager (pos 2000) busy []
      ≡ some ((sm', some task), codes "(1 7 9)"))
unfolding round serve set_ip_port_bandwidth render print_hex print_nat print_int report_tasks
    report_task queue_until set_send_msg report_text send_msg
busy_round = (_, refl)

round-Served_example :
    Served eager eager_pipe eager-IsWhole whole
      (λ cmd. true)
      task
      []
      busy
      []
      busy_round.0
      (codes "(1 7 9)")
    × (busy_round.0.wait_queue_sem ≡ 0)
    × (some task ≡ some task)
round-Served_example =
    round-Served eager eager_pipe eager-IsWhole whole (λ cmd. true) (pos 2000) task [] 0 busy []
      {sm' = busy_round.0} {next = some task} {k' = codes "(1 7 9)"} (refl, tt) refl refl
      busy_round.1

-- The last sender of the client ends at once.
early_served :
    (sm' : SendManager ℕ) × (serve whole
        (λ cmd. true)
        eager
        (pos 2000)
        (sent_off (pos 9) task)
        fresh
        []
      ≡ some ((sm', [])))
unfolding serve set_ip_port_bandwidth render print_hex print_nat print_int report_tasks report_task
early_served = (_, refl)

two_rounds :
    (sm' : SendManager ℕ) × (rounds whole
        (λ cmd. true)
        eager
        (pos 2001 ∷ pos 2002 ∷ [])
        early_served.0
        []
      ≡ some ((sm', [])))
unfolding rounds round serve set_ip_port_bandwidth render print_hex print_nat print_int report_tasks
    report_task early_served
two_rounds = (_, refl)

early_end-Holds_example :
    Holds (record (sent_off (pos 9) task) { send_state = send_running }) two_rounds.0.running_queue
early_end-Holds_example =
    early_end-Holds whole (λ cmd. true) eager eager_pipe eager-IsWhole (pos 2000) (pos 9)
      (pos 2001 ∷ pos 2002 ∷ []) task fresh [] tt early_served.1 two_rounds.1
