-- ===== src/Master/Machine/Tests.antt =====
-- Reports at concrete reads.
use coflow_sim_online.Base.{[], false, negsuc, none, pos, refl, some, true, ℕ, ◌∷◌, ◌≡◌}
use coflow_sim_online.Text.{Bytes, codes, c_string}
use coflow_sim_online.Wire.{feed}
use coflow_sim_online.Common.Socket.{Socket, get_recv_buf}
use coflow_sim_online.Master.Machine.{
  Machine, FlowEndInfo, new_machine, get_one_flow_end_info, read_info, parse_flows_finished_info,
  cut_from, cut_byte, retain,
}
use coflow_sim_online.Master.Machine.Delivery.{parsed, parse_loses_fragment}

abbrev raw : Socket
raw = record {
  sockfd = pos 7;
  address = record { ip = []; port = pos 0 };
  recv_buf = [];
  send_buf = [];
  epollfd = pos 3;
  calls = [];
}

abbrev fresh : Machine
fresh = record {
  machine_id = pos 0;
  socket = record raw { sockfd = negsuc 0 };
  socketip = codes "172.18.0.2";
  socketport = pos 4003;
  remain_bandwidth = pos 0;
  flows_finished_info = [];
  tmprecv = [];
}

-- A machine that has just received these bytes.
abbrev reading : Bytes → Machine
reading b = record fresh { socket = record raw { recv_buf = b } }

abbrev info : ℕ → ℕ → ℕ → FlowEndInfo
info c f t = record { coflow_id = pos c; flow_id = pos f; end_time = pos t }

new_machine_runs : new_machine raw (pos 0) (codes "172.18.0.2") (pos 4003) ≡ some fresh
unfolding new_machine
new_machine_runs = refl

read_info_runs : read_info (codes "1 0 1524000000") ≡ info 1 0 1524000000
unfolding read_info
read_info_runs = refl

-- Missing numbers are zeros.
read_info_short : read_info (codes "12 ") ≡ info 12 0 0
unfolding read_info
read_info_short = refl

get_one_runs :
    get_one_flow_end_info (record fresh { flows_finished_info = info 1 0 9 ∷ info 1 1 9 ∷ [] })
    ≡ some (info 1 0 9, record fresh { flows_finished_info = info 1 1 9 ∷ [] })
unfolding get_one_flow_end_info
get_one_runs = refl

parse_runs :
    parse_flows_finished_info false (reading (codes "(1 0 9)(2 "))
    ≡ some (parsed (reading []) (codes "1 0 9" ∷ []) (codes "(2 "), true)
unfolding parse_flows_finished_info cut_from cut_byte retain get_recv_buf read_info c_string
parse_runs = refl

parse_loses_fragment_example :
    parse_flows_finished_info false (reading (codes "(1 0"))
    ≡ some (parsed (reading (codes "(1 0")) [] [], true)
unfolding feed
parse_loses_fragment_example =
    parse_loses_fragment (reading (codes "(1 0")) none (some (codes "1 0")) tt refl (λ e. cc) refl
