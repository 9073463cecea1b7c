-- ===== src/Client/Traffic/Tests.antt =====
-- The commands for a port.
use coflow_sim_online.Base.{[], pos, refl, some, true, ℕ, ◌∷◌, ◌≡◌}
use coflow_sim_online.Text.{codes, print_nat, print_int}
use coflow_sim_online.Common.Float.Whole.{whole}
use coflow_sim_online.Client.Traffic.{
  TrafficControlManager, replace_class, replace_filter, delete_filter, render, print_hex,
  set_ip_port_bandwidth,
}

render_runs :
    render whole (codes "eth0") (replace_class (pos 65535) 10)
    ≡ codes "tc class replace dev eth0 parent 1:1 classid 1:ffff htb rate 10Mbit"
unfolding render print_hex print_nat
render_runs = refl

abbrev card : TrafficControlManager ℕ
card = record { net_card_name = codes "eth0"; remain_bandwidth_mbs = 100; executed = [] }

abbrev limited_card : TrafficControlManager ℕ
limited_card = record card {
  executed =
      replace_class (pos 4003) 10
      ∷ delete_filter (pos 4003)
      ∷ replace_filter (pos 4003) (pos 4003)
      ∷ [];
}

set_runs : set_ip_port_bandwidth whole (λ cmd. true) (pos 4003) 10 card ≡ some (limited_card, true)
unfolding set_ip_port_bandwidth render print_hex print_nat print_int
set_runs = refl
