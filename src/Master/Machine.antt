-- ===== src/Master/Machine.antt =====
-- src/master/datastructures/machine.{h,cpp}: a client machine as the master sees it. `tmprecv` is its
-- first `tmprecvIndex` bytes; its 4096 bytes are taken to suffice. `none` is undefined behaviour.
pub mod Scan
pub mod Delivery
mod Tests
use coflow_sim_online.Base.{
  Bool, List, Option, [], drop, false, if◌then◌else◌, length, ltb, negsuc, none, pos, set, some,
  true, ℕ, ℤ, ◌++◌, ◌+◌, ◌==◌, ◌>>=◌, ◌∷◌,
}
use coflow_sim_online.Text.{Bytes, c_string}
use coflow_sim_online.Text.Stream.{stream, read_int}
use coflow_sim_online.Common.Socket
use coflow_sim_online.Common.Socket.{Socket}

pub record FlowEndInfo : Type 0 where
  pub coflow_id : ℤ
  pub flow_id : ℤ
  pub end_time : ℤ

pub record Machine : Type 0 where
  pub machine_id : ℤ
  pub socket : Socket
  pub socketip : Bytes
  pub socketport : ℤ
  pub remain_bandwidth : ℤ
  pub flows_finished_info : List FlowEndInfo
  pub tmprecv : Bytes

abbrev pub socketip_size : ℕ
socketip_size = 64

-- `none` if the text and its NUL have no room in `socketip`.
unfoldable pub set_socketip : Bytes → Machine → Option Machine
set_socketip ip m =
    if ltb (length ip) socketip_size then some (record m { socketip = ip }) else none

-- The constructor. Of the base object, `raw`, the constructor sets the descriptor only.
unfoldable pub new_machine : Socket → ℤ → Bytes → ℤ → Option Machine
unfolding set_socketip
new_machine raw id ip port = set_socketip ip (record {
  machine_id = id;
  socket = record raw { sockfd = negsuc 0 };
  socketip = [];
  socketport = port;
  remain_bandwidth = pos 0;
  flows_finished_info = [];
  tmprecv = [];
})

unfoldable pub create_connect : ℤ → Machine → Machine
create_connect connected m = record m {
  socket =
      Socket.create_connect connected (record { ip = m.socketip; port = m.socketport }) m.socket;
}

unfoldable pub set_remain_bandwidth : ℤ → Machine → Machine
set_remain_bandwidth b m = record m { remain_bandwidth = b }

take_front : List FlowEndInfo → Machine → Option (FlowEndInfo × Machine)
take_front [] m = none
take_front (info ∷ infos) m = some (info, record m { flows_finished_info = infos })

-- `none` is the result `false`, with the three references left alone.
unfoldable pub get_one_flow_end_info : Machine → Option (FlowEndInfo × Machine)
unfolding take_front
get_one_flow_end_info m = take_front m.flows_finished_info m

-- Three `ss >> int` into a `FlowEndInfo` of zeros.
unfoldable pub read_info : Bytes → FlowEndInfo
unfolding read_int
read_info text =
    let (coflow, ss1) = read_int (pos 0) (stream text) in
    let (flow, ss2) = read_int (pos 0) ss1 in
    let (time, _) = read_int (pos 0) ss2 in
    record { coflow_id = coflow; flow_id = flow; end_time = time }

-- The variables of the loop in `parseFlowsFinishedInfo`; `none` is an index that is not set yet.
pub record Cut : Type 0 where
  pub buf : Bytes
  pub flow_start : Option ℕ
  pub flow_end : Option ℕ
  pub infos : List FlowEndInfo

-- At a `)`: a NUL replaces it, and the C string behind the last `(` is read.
unfoldable pub close_info : ℕ → Option ℕ → Cut → Option Cut
close_info i none s = none
close_info i (some start) s =
    let buf = set s.buf i 0 in
    some (record s {
      buf = buf;
      flow_end = some i;
      infos = s.infos ++ read_info (c_string (drop start buf)) ∷ [];
    })

unfoldable pub cut_byte : ℕ → ℕ → Cut → Option Cut
unfolding close_info
cut_byte i c s =
    let opened = if c == b'(' then record s { flow_start = some (i + 1) } else s in
    if c == b')' then close_info i opened.flow_start opened else some opened

-- `for (i = 0; i < tmprecvIndex; i++)`, at index `i` with these bytes left
unfoldable pub cut_from : ℕ → Bytes → Cut → Option Cut
cut_from i [] s = some s
cut_from i (c ∷ cs) s = cut_byte i c s >>= cut_from (i + 1) cs

-- `flowEndIndex < flowStartIndex`. With an index that is not set the outcome is `junk`.
unfoldable pub index_lt : Bool → Option ℕ → Option ℕ → Bool
index_lt junk (some a) (some b) = ltb a b
index_lt junk _ _ = junk

-- What is moved to the front of `tmprecv`, from `flowStartIndex` on.
unfoldable pub move_front : Option ℕ → Bytes → Option Bytes
move_front none buf = none
move_front (some start) buf = some (b'(' ∷ drop start buf)

unfoldable pub retain : Bool → Cut → Option Bytes
unfolding index_lt move_front
retain junk s =
    if index_lt junk s.flow_end s.flow_start then move_front s.flow_start s.buf else some []

unfoldable pub parse_flows_finished_info : Bool → Machine → Option (Machine × Bool)
parse_flows_finished_info junk m = if length m.socket.recv_buf == 0 then some (m, false) else (do
  let (buf, socket) = Socket.get_recv_buf m.tmprecv m.socket
  s ← cut_from 0 buf (record { buf = buf; flow_start = none; flow_end = none; infos = [] })
  tmprecv ← retain junk s
  some (
    record m {
      socket = socket;
      flows_finished_info = m.flows_finished_info ++ s.infos;
      tmprecv = tmprecv;
    },
    true,
  ))
