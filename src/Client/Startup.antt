-- ===== src/Client/Startup.antt =====
-- src/client/main.cpp: `parseConfig`, and `coflowSimClient` up to its event loop. What rapidjson read is a parameter,
-- as in Master/Startup: `none` stands for a member that an `assert` finds missing or of the wrong
-- type. `none` as a result is a failed `assert`, or a text that has no room in its array.
pub mod Settings
mod Tests
use coflow_sim_online.Base.{
  Bool, List, Option, [], if◌then◌else◌, negsuc, none, pos, some, ℕ, ℤ, ◌++◌, ◌==ℤ◌, ◌>>=◌,
}
use coflow_sim_online.Text.{Bytes, codes}
use coflow_sim_online.Text.Stream.{stream}
use coflow_sim_online.Text.Load.{load_text, load_int}
use coflow_sim_online.Common.Float.{Float}
use coflow_sim_online.Common.Listen.{NetCall, create_listen}
use coflow_sim_online.Common.Listen
use coflow_sim_online.Common.Socket.{Socket, Address, init_socket}
use coflow_sim_online.Common.Pool.{new_pool}
use coflow_sim_online.Client.Traffic.{new_traffic_control_manager}
use coflow_sim_online.Client.Senders.{SendManager, new_send_manager}
use coflow_sim_online.Client.Receiver.{RecvManager, new_recv_manager}

abbrev pub ip_size : ℕ
ip_size = 64

abbrev pub net_card_name_size : ℕ
net_card_name_size = 256

pub record Document (D : Type 0) : Type 0 where
  pub master_server_ip : Option Bytes
  pub master_server_port : Option ℤ
  pub client_server_ip : Option Bytes
  pub client_server_port : Option ℤ
  pub thread_num : Option ℤ
  pub net_card_name : Option Bytes
  pub net_card_bandwidth_mbs : Option D

-- The global variables.
pub record Config (D : Type 0) : Type 0 where
  pub master_server_ip : Bytes
  pub master_server_port : ℤ
  pub client_server_ip : Bytes
  pub client_server_port : ℤ
  pub net_card_name : Bytes
  pub net_card_bandwidth_mbs : D
  pub thread_num : ℤ

-- How the program begins.
abbrev pub default_config : {D : Type 0} → Float D → Config D
default_config float = record {
  master_server_ip = codes "127.0.0.1";
  master_server_port = pos 4003;
  client_server_ip = codes "127.0.0.1";
  client_server_port = pos 4003;
  net_card_name = codes "eth0";
  net_card_bandwidth_mbs = float.of_int (pos 100);
  thread_num = pos 8;
}

-- What the world gives: the results of `epoll_create`, here and in RecvManager, of the calls that make
-- the listening socket, and of `accept`; and what the memory of the socket object holds.
pub record Environment : Type 0 where
  pub epollfd : ℤ
  pub recv_epollfd : ℤ
  pub listening : Listen.Answers
  pub masterfd : ℤ
  pub master_address : Address
  pub raw_socket : Socket

-- `return`, or the objects of the event loop; the pool has been given the two managers, in this order.
pub data Startup (D : Type 0) : Type 0 where
  returned : ℤ → List NetCall → Startup D
  running : (recv_manager : RecvManager) → (send_manager : SendManager D) → List NetCall → Startup D

module _ {D : Type 0} (float : Float D) where
  -- `ss << number; ss >> variable; ss.clear();` on a `double`.
  unfoldable pub load_double : D → D → Bytes → D × Bytes
  load_double number old unread =
      let (value, ss) = float.read old (stream (unread ++ float.print number)) in (value, ss.unread)

  unfoldable pub parse_config : Document D → Config D → Option (Config D)
  unfolding load_double
  parse_config document c = do
    doc_master_ip ← document.master_server_ip
    (master_ip, u1) ← load_text ip_size doc_master_ip c.master_server_ip []
    doc_master_port ← document.master_server_port
    let (master_port, u2) = load_int doc_master_port c.master_server_port u1
    doc_client_ip ← document.client_server_ip
    (client_ip, u3) ← load_text ip_size doc_client_ip c.client_server_ip u2
    doc_client_port ← document.client_server_port
    let (client_port, u4) = load_int doc_client_port c.client_server_port u3
    doc_thread_num ← document.thread_num
    let (threads, u5) = load_int doc_thread_num c.thread_num u4
    doc_card ← document.net_card_name
    (card, u6) ← load_text net_card_name_size doc_card c.net_card_name u5
    doc_bandwidth ← document.net_card_bandwidth_mbs
    let (bandwidth, _) = load_double doc_bandwidth c.net_card_bandwidth_mbs u6
    some (record {
      master_server_ip = master_ip;
      master_server_port = master_port;
      client_server_ip = client_ip;
      client_server_port = client_port;
      net_card_name = card;
      net_card_bandwidth_mbs = bandwidth;
      thread_num = threads;
    })

  -- The client listens on the address of the master's settings.
  unfoldable pub start : (Bytes → Bool) → Config D → Environment → Option (Startup D)
  start popen c w =
      let (calls, listenfd) = create_listen c.master_server_ip c.master_server_port w.listening in
      let master =
        init_socket w.masterfd w.master_address (record w.raw_socket { epollfd = w.epollfd }) in
      if w.epollfd ==ℤ negsuc 0
      then none
      else if listenfd ==ℤ negsuc 0
      then some (returned (negsuc 0) calls)
      else elim (new_pool {T = Unit} c.thread_num (pos 10000)) [
        | none ↦ some (returned (pos 1) calls)
        | some _ ↦
            new_traffic_control_manager float popen c.net_card_name c.net_card_bandwidth_mbs
            >>= λ tc.
                if w.recv_epollfd ==ℤ negsuc 0
                then none
                else some (
                    running (new_recv_manager w.recv_epollfd listenfd)
                      (new_send_manager 65536 tc master) calls)
      ]
