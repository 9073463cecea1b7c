-- ===== src/Master/Startup/Tests.antt =====
-- A cluster of two clients.
use coflow_sim_online.Text.Load.{load_int, load_text}
use coflow_sim_online.Master.Startup.{
  ConfigDocument, default_config, parse_config, add_client, add_clients, need_number, need_text,
  ClientDocument, MachineDocument, parse_machine_define, load_path, directory,
}
use coflow_sim_online.Master.Machine.{new_machine}
use coflow_sim_online.Master.Manager.{
  add_one_physics_machine, MachineManager, new_manager, set_logic_machine_num,
}
use coflow_sim_online.Text.{print_int, Bytes, codes}
use coflow_sim_online.Base.{List, [], arith, pos, refl, some, ◌∷◌, ◌≡◌}
use coflow_sim_online.Common.Socket.{Socket}
use coflow_sim_online.Master.Manager.Placement.{IsPlaced}
use coflow_sim_online.Master.Startup.Cluster.{Grown, parse_machine_define-IsPlaced}

abbrev raw : Socket
raw = record {
  sockfd = pos 7;
  address = record { ip = []; port = pos 0 };
  recv_buf = [];
  send_buf = [];
  epollfd = pos 3;
  calls = [];
}

abbrev client : Bytes → ClientDocument
client ip = record { ip = some ip; port = some (pos 4003) }

abbrev clients : List ClientDocument
clients = client (codes "172.18.0.2") ∷ client (codes "172.18.0.3") ∷ []

abbrev document : MachineDocument
document = record {
  master_ip = some (codes "172.18.0.1");
  master_port = some (pos 4002);
  clients = some clients;
}

abbrev manager : MachineManager
manager = set_logic_machine_num (pos 3) new_manager

parsed : (mm : MachineManager) × (parse_machine_define raw document manager ≡ some mm)
unfolding parse_machine_define need_text need_number print_int add_clients add_client
    add_one_physics_machine new_machine
parsed = (_, refl)

parse_machine_define-IsPlaced_example : IsPlaced parsed.0 × Grown manager parsed.0 2
parse_machine_define-IsPlaced_example =
    parse_machine_define-IsPlaced raw document clients manager {mm' = parsed.0} (tt, refl) refl
      (omega arith) parsed.1

directory_runs : directory (codes "../config/master.json") ≡ codes "../config/"
unfolding directory
directory_runs = refl

abbrev settings : ConfigDocument
settings = record {
  server_ip = some (codes "10.0.0.1");
  server_port = some (pos 4002);
  broadcast_ip = some (codes "10.0.0.255");
  broadcast_port = some (pos 4001);
  fb_file_path = some (codes "trace.txt");
  machine_define_path = some (codes "machines.json");
  thread_num = some (pos 4);
}

parse_config_runs :
    parse_config (codes "config/master.json") settings default_config
    ≡ some (record {
      master_server_ip = codes "10.0.0.1";
      master_server_port = pos 4002;
      broadcast_ip = codes "10.0.0.255";
      broadcast_port = pos 4001;
      fb_file_path = codes "config/trace.txt";
      machine_define_path = codes "config/machines.json";
      thread_num = pos 4;
    })
unfolding parse_config load_text load_int print_int load_path directory
parse_config_runs = refl
