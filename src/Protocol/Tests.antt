-- ===== src/Protocol/Tests.antt =====
-- Reports and tasks that cross the wire in pieces.
use coflow_sim_online.Client.Sender.{send_blocks, flow_size_kb, run, block}
use coflow_sim_online.Base.{
  List, [], ap, append-nil, append_assoc, arith, flatten, length, pos, pos_part, refl, some, suc,
  zero, ℕ, ℤ, ◌*◌, ◌++◌, ◌∙◌, ◌∷◌, ◌≡◌,
}
use coflow_sim_online.Protocol.Data.{blocks, flow_arrives}
use coflow_sim_online.Common.Float.Whole.{whole_products, whole, whole_laws}
use coflow_sim_online.Text.{print_int, Bytes, codes}
use coflow_sim_online.Text.Stream.{read_word}
use coflow_sim_online.Master.Manager.{transfer, task_text}
use coflow_sim_online.Master.Manager.Tasks.{task_body}
use coflow_sim_online.Common.Socket.Kernels.{eager, eager_pipe, Loopback, loopback, loopback_pipe}
use coflow_sim_online.Common.Epoll.{close}
use coflow_sim_online.Client.Senders.{
  sent_off, SendTask, SendManager, send_wait, send_end, new_send_manager,
}
use coflow_sim_online.Client.Receiver.{
  RecvManager, put_file, new_recv_manager, run_file, forget, close_fd, Event,
}
use coflow_sim_online.Client.Receiver.Discard.{tail, tail_line}
use coflow_sim_online.Common.Socket.{receive_message, Socket}
use coflow_sim_online.Client.Loop.{on_events}
use coflow_sim_online.Client.Loop.Reads.{after_reads}
use coflow_sim_online.Protocol.Session.{tasks_received}
use coflow_sim_online.Master.Machine.{Machine}
use coflow_sim_online.Protocol.Arrival.{Order, IsSendable, received, enqueue_all}

abbrev socket : Socket
socket = record {
  sockfd = pos 5;
  address = record { ip = codes "10.0.0.1"; port = pos 4002 };
  recv_buf = [];
  send_buf = [];
  epollfd = pos 3;
  calls = [];
}

abbrev machine : Machine
machine = record {
  machine_id = pos 0;
  socket = socket;
  socketip = codes "10.0.0.2";
  socketport = pos 4003;
  remain_bandwidth = pos 0;
  flows_finished_info = [];
  tmprecv = [];
}

abbrev done : ℕ → SendTask ℕ
done flow = record {
  destination_ip = codes "10.0.0.2";
  destination_port = pos 4003;
  flow_size_mb = 500;
  speed_mbs = 10;
  file_name = codes "f.txt";
  coflow_id = pos 1;
  flow_id = pos flow;
  send_state = send_end;
  end_time = pos 1524000000;
}

abbrev order : Order ℕ
order = record {
  task = record {
    coflow_id = pos 1;
    flow_id = pos 0;
    mapper_id = pos 0;
    reducer_id = pos 1;
    flow_size_mb = 500;
    send_speed_mbs = 10;
  };
  ip = codes "10.0.0.2";
  port = pos 4003;
}

order-IsSendable : IsSendable whole whole_laws order
unfolding print_int task_body
order-IsSendable = record {
  coflow_int = omega arith;
  flow_int = omega arith;
  port_int = omega arith;
  ip_word = ((λ e. cc), ground arith);
  ip_marks = ground arith;
  ip_short = omega arith;
  name_short = omega arith;
  body_short = omega arith;
}

abbrev client : SendManager ℕ
client =
    new_send_manager 65536
      (record { net_card_name = codes "eth0"; remain_bandwidth_mbs = 100; executed = [] }) socket

abbrev raw : SendTask ℕ
raw = record (done 0) { send_state = send_wait }

abbrev pieces : List Bytes
pieces = codes "(1 0 10.0.0.2 40" ∷ codes "03 1_0_500_10.txt 500 10)" ∷ []

abbrev arriving : Loopback
arriving = record {
  out = [];
  handed = [];
  stock = codes "(1 0 10.0.0.2 4003 1_0_500_10.txt 500 10)";
  window = 0;
}

abbrev readable : Event
readable = record { fd = pos 5; events = 1 }

-- One event brings the task, and a second one nothing.
abbrev arrived : Loopback
arrived = record arriving { handed = arriving.stock; stock = [] }

arriving_read :
    after_reads loopback (pos 5) (readable ∷ readable ∷ []) client.master arriving ≡ some arrived
unfolding after_reads receive_message
arriving_read = refl

tasks_received_example :
    on_events whole loopback raw (pos 5) (readable ∷ readable ∷ []) [] client arriving
    ≡ some (
      ([], enqueue_all whole whole_laws (received whole whole_laws raw order ∷ []) client),
      arrived,
    )
unfolding flatten task_text transfer read_word print_int
tasks_received_example =
    tasks_received whole whole_laws loopback loopback_pipe raw (pos 5) (order ∷ [])
      (readable ∷ readable ∷ []) client arriving arrived (order-IsSendable, tt) refl arriving_read
      refl

abbrev megabyte : SendTask ℕ
megabyte = record (done 0) { flow_size_mb = 1; send_state = send_wait; end_time = pos 0 }

send_blocks-eager : (n : ℕ) (fd : ℤ) (k : Bytes) → send_blocks eager n fd k ≡ some (k ++ blocks n)
unfolding send_blocks
send_blocks-eager zero fd k = ground (arith, append-nil k)
send_blocks-eager (suc n) fd k =
    send_blocks-eager n fd (k ++ block) ∙ ap some (append_assoc k block (blocks n))

run-eager :
    (n : ℕ) (now fd : ℤ) (t : SendTask ℕ)
    → pos_part (flow_size_kb whole t) ≡ n
    → run eager whole now fd t [] ≡ some ((sent_off now t, close fd ∷ []), blocks n)
unfolding run
run-eager n now fd t size = rw (size, send_blocks-eager n fd [])

unfoldable megabyte_data : Bytes
megabyte_data = blocks 1024

megabyte_sent :
    run eager whole (pos 9) (pos 6) megabyte []
    ≡ some ((sent_off (pos 9) megabyte, close (pos 6) ∷ []), megabyte_data)
unfolding megabyte_data flow_size_kb
megabyte_sent = run-eager 1024 (pos 9) (pos 6) megabyte refl

abbrev receiver : RecvManager
receiver = put_file 7 (pos 7) (new_recv_manager (pos 4) (pos 3))

flow_arrives_example :
    (sent_off (pos 9) megabyte ≡ sent_off (pos 9) megabyte)
    × (close (pos 6) ∷ [] ≡ close (pos 6) ∷ [])
    × (length megabyte_data ≡ 1 * 1024 * 1024)
    × ((l : Bytes) × (run_file tail (suc (length megabyte_data)) 7 receiver megabyte_data
          ≡ some (forget 7 (close_fd (pos 7) receiver), l))
        × (l ≡ []))
flow_arrives_example =
    flow_arrives eager eager_pipe (λ fd buf k n e. ground arith) tail tail_line whole whole_products
      (pos 9) (pos 6) megabyte 1 [] 7 7 receiver megabyte_data refl (omega arith) megabyte_sent refl
      refl
