-- ===== src/Client/Startup/Tests.antt =====
-- A client of a small cluster.
use coflow_sim_online.Text.{print_nat, codes}
use coflow_sim_online.Client.Traffic.{exec, new_traffic_control_manager, render, print_hex}
use coflow_sim_online.Common.Pool.{new_pool}
use coflow_sim_online.Base.{[], arith, negsuc, pos, refl, some, true, ℕ, ◌∷◌, ◌≡◌}
use coflow_sim_online.Common.Float.Whole.{whole, whole_laws}
use coflow_sim_online.Common.Listen.{open_socket, set_linger, bind_to, listen_on, create_listen}
use coflow_sim_online.Client.Senders.{SendManager}
use coflow_sim_online.Client.Receiver.{new_recv_manager}
use coflow_sim_online.Client.Startup.{
  Config, Environment, default_config, parse_config, start, running, returned,
}
use coflow_sim_online.Client.Startup.Settings.{document_of, IsSettable, parse_config-document_of}

abbrev settings : Config ℕ
settings = record {
  master_server_ip = codes "172.18.0.2";
  master_server_port = pos 4003;
  client_server_ip = codes "172.18.0.2";
  client_server_port = pos 4003;
  net_card_name = codes "eth1";
  net_card_bandwidth_mbs = 100;
  thread_num = pos 20;
}

settings-IsSettable : IsSettable settings
settings-IsSettable = record {
  master_word = ((λ e. cc), ground arith);
  master_short = omega arith;
  master_int = omega arith;
  client_word = ((λ e. cc), ground arith);
  client_short = omega arith;
  client_int = omega arith;
  card_word = ((λ e. cc), ground arith);
  card_short = omega arith;
  threads_int = omega arith;
}

parse_config-document_of_example :
    parse_config whole (document_of settings) (default_config whole) ≡ some settings
parse_config-document_of_example =
    parse_config-document_of whole whole_laws settings (default_config whole) settings-IsSettable

abbrev environment : Environment
environment = record {
  epollfd = pos 3;
  recv_epollfd = pos 6;
  listening = record { sockfd = pos 4; bound = pos 0; listens = pos 0 };
  masterfd = pos 5;
  master_address = record { ip = codes "172.18.0.1"; port = pos 40000 };
  raw_socket = record {
    sockfd = negsuc 0;
    address = record { ip = []; port = pos 0 };
    recv_buf = codes "junk";
    send_buf = [];
    epollfd = negsuc 0;
    calls = [];
  };
}

-- The port is taken.
start_fails :
    start whole
      (λ cmd. true)
      settings
      (record environment {
        listening = record { sockfd = pos 4; bound = negsuc 0; listens = pos 0 };
      })
    ≡ some (
        returned
          (negsuc 0)
          (open_socket ∷ set_linger (pos 4) 1 0 ∷ bind_to (pos 4) (codes "172.18.0.2") 4003 ∷ []))
unfolding start create_listen
start_fails = refl

started :
    (sm : SendManager ℕ) × (start whole (λ cmd. true) settings environment
      ≡ some (
          running (new_recv_manager (pos 6) (pos 4)) sm (
            open_socket
            ∷ set_linger (pos 4) 1 0
            ∷ bind_to (pos 4) (codes "172.18.0.2") 4003
            ∷ listen_on (pos 4) 65535
            ∷ [])))
unfolding start create_listen new_traffic_control_manager render print_hex new_pool exec print_nat
started = (_, refl)
