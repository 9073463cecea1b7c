-- ===== src/Master/Startup.antt =====
-- src/master/main.cpp: parseConfig and parseMachineDefine. What rapidjson read is a parameter: `none`
-- stands for a member that an `assert` finds missing or of the wrong type. All texts go through one
-- string stream, of which `unread` is what is left in it. `none` as a result is a failed `assert`, a
-- text that has no room in its array, or an address that was never set.
pub mod Cluster
pub mod Paths
mod Tests
use coflow_sim_online.Text.Load.{load_text, load_int}
use coflow_sim_online.Base.{
  List, Option, [], if◌then◌else◌, length, ltb, none, pos, some, ℕ, ℤ, ◌++◌, ◌==◌, ◌>>=◌, ◌||◌, ◌∷◌,
}
use coflow_sim_online.Text.{codes, Bytes, print_int}
use coflow_sim_online.Text.Stream.{stream}
use coflow_sim_online.Common.Socket.{Socket}
use coflow_sim_online.Master.Manager.{MachineManager, add_one_physics_machine}
use coflow_sim_online.Master.Trace.{reads}

-- The same for an array that is not set.
unfoldable pub need_text : ℕ → Bytes → Bytes → Option (Bytes × Bytes)
unfolding reads load_text
need_text size text unread =
    if reads (stream (unread ++ text)) then load_text size text [] unread else none

unfoldable pub need_number : ℤ → Bytes → Option (ℤ × Bytes)
unfolding reads load_int
need_number number unread =
    if reads (stream (unread ++ print_int number))
    then some (load_int number (pos 0) unread)
    else none

pub record ClientDocument : Type 0 where
  pub ip : Option Bytes
  pub port : Option ℤ

pub record MachineDocument : Type 0 where
  pub master_ip : Option Bytes
  pub master_port : Option ℤ
  pub clients : Option (List ClientDocument)

abbrev pub ip_size : ℕ
ip_size = 64

-- One round of the loop over the clients. `raw` is the memory of the new machine's socket.
unfoldable pub add_client :
    Socket → ClientDocument → Bytes → MachineManager → Option (MachineManager × Bytes)
add_client raw client unread mm = do
  ip ← client.ip
  (client_ip, unread1) ← need_text ip_size ip unread
  port ← client.port
  (client_port, unread2) ← need_number port unread1
  (mm', _) ← add_one_physics_machine raw client_ip client_port mm
  some (mm', unread2)

unfoldable pub add_clients :
    Socket → List ClientDocument → Bytes → MachineManager → Option MachineManager
add_clients raw [] unread mm = some mm
add_clients raw (client ∷ clients) unread mm = do
  (mm', unread') ← add_client raw client unread mm
  add_clients raw clients unread' mm'

-- The address of the master is read, and not used.
unfoldable pub parse_machine_define :
    Socket → MachineDocument → MachineManager → Option MachineManager
parse_machine_define raw document mm = do
  ip ← document.master_ip
  (_, unread) ← need_text ip_size ip []
  port ← document.master_port
  (_, unread') ← need_number port unread
  clients ← document.clients
  add_clients raw clients unread' mm

-- `while (index >= 0 && path[index] != '/') index--; path[++index] = '\0';`: up to the last slash.
unfoldable pub directory : Bytes → Bytes
directory [] = []
directory (c ∷ s) =
    let rest = directory s in if c == b'/' || ltb 0 (length rest) then c ∷ rest else []

abbrev pub path_size : ℕ
path_size = 1024

-- A path of the configuration is meant relative to the directory of the configuration file.
unfoldable pub load_path : Bytes → Bytes → Bytes → Bytes → Option (Bytes × Bytes)
load_path config_file_path name old unread = do
  (path, unread1) ← load_text path_size config_file_path old unread
  load_text path_size (directory path ++ name) (directory path) unread1

pub record ConfigDocument : Type 0 where
  pub server_ip : Option Bytes
  pub server_port : Option ℤ
  pub broadcast_ip : Option Bytes
  pub broadcast_port : Option ℤ
  pub fb_file_path : Option Bytes
  pub machine_define_path : Option Bytes
  pub thread_num : Option ℤ

-- The global variables.
pub record Config : Type 0 where
  pub master_server_ip : Bytes
  pub master_server_port : ℤ
  pub broadcast_ip : Bytes
  pub broadcast_port : ℤ
  pub fb_file_path : Bytes
  pub machine_define_path : Bytes
  pub thread_num : ℤ

abbrev pub default_config : Config
default_config = record {
  master_server_ip = codes "127.0.0.1";
  master_server_port = pos 4002;
  broadcast_ip = codes "255.255.255.255";
  broadcast_port = pos 4001;
  fb_file_path = codes "../res/FB2010-1Hr-150-0.txt";
  machine_define_path = codes "../res/machine_define.json";
  thread_num = pos 8;
}

unfoldable pub parse_config : Bytes → ConfigDocument → Config → Option Config
parse_config config_file_path document c = do
  server_ip ← document.server_ip
  (ip, u1) ← load_text ip_size server_ip c.master_server_ip []
  server_port ← document.server_port
  let (port, u2) = load_int server_port c.master_server_port u1
  doc_broadcast_ip ← document.broadcast_ip
  (broadcast, u3) ← load_text ip_size doc_broadcast_ip c.broadcast_ip u2
  doc_broadcast_port ← document.broadcast_port
  let (broadcast_port, u4) = load_int doc_broadcast_port c.broadcast_port u3
  trace ← document.fb_file_path
  (fb_file_path, u5) ← load_path config_file_path trace c.fb_file_path u4
  machines ← document.machine_define_path
  (machine_define_path, u6) ← load_path config_file_path machines c.machine_define_path u5
  threads ← document.thread_num
  let (thread_num, _) = load_int threads c.thread_num u6
  some (record {
    master_server_ip = ip;
    master_server_port = port;
    broadcast_ip = broadcast;
    broadcast_port = broadcast_port;
    fb_file_path = fb_file_path;
    machine_define_path = machine_define_path;
    thread_num = thread_num;
  })
