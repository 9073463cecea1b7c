-- ===== src/Client/Traffic.antt =====
-- src/client/TrafficControlManager.{h,cpp}. A command is a value; `render` is the text that the
-- source prints into `cmd`. `none` is a text that does not fit there. `popen` says
-- whether a command could be started; those that were are kept in order.
mod Tests
use coflow_sim_online.Base.{
  Bool, List, Option, [], false, if◌then◌else◌, length, ltb, negsuc, none, pos, some, suc, true,
  zero, ℕ, ℤ, ◌%◌, ◌++◌, ◌+◌, ◌-◌, ◌/◌, ◌==◌, ◌>>=◌, ◌^◌, ◌∷◌,
}
use coflow_sim_online.Text.{Bytes, codes, print_int}
use coflow_sim_online.Common.Float.{Float}

-- `printf("%x")` of an `int`: its two's complement, in base 16.
abbrev pub hex_digit : ℕ → ℕ
hex_digit d = if ltb d 10 then b'0' + d else b'a' + (d - 10)

unfoldable pub emit_hex : ℕ → ℕ → Bytes → Bytes
emit_hex zero n out = out
emit_hex (suc fuel) n out =
    let out' = hex_digit (n % 16) ∷ out in
    let rest = emit_hex fuel (n / 16) out' in if n / 16 == 0 then out' else rest

-- A 32-bit number has at most eight digits.
unfoldable pub print_hex : ℤ → Bytes
unfolding emit_hex
print_hex (pos n) = emit_hex 8 (n % 2 ^ 32) []
print_hex (negsuc n) = emit_hex 8 ((2 ^ 32 - 1) - n % 2 ^ 32) []

pub data TcCommand (D : Type 0) : Type 0 where
  add_qdisc : TcCommand D
  replace_root_class : D → TcCommand D
  replace_class : (class_id : ℤ) → D → TcCommand D
  replace_filter : (ip_port flow_classid : ℤ) → TcCommand D
  delete_filter : (ip_port : ℤ) → TcCommand D

pub record TrafficControlManager (D : Type 0) : Type 0 where
  pub net_card_name : Bytes
  pub remain_bandwidth_mbs : D
  pub executed : List (TcCommand D)

abbrev pub command_max_len : ℕ
command_max_len = 256

abbrev pub net_card_name_max_len : ℕ
net_card_name_max_len = 1024

module _ {D : Type 0} (float : Float D) where
  unfoldable pub render : Bytes → TcCommand D → Bytes
  render card add_qdisc =
      codes "tc qdisc add dev " ++ card ++ codes " root handle 1:1 htb default 2"
  render card (replace_root_class rate) =
      codes "tc class replace dev "
      ++ card
      ++ codes " parent 1: classid 1:1 htb rate "
      ++ float.print rate
      ++ codes "Mbit"
  render card (replace_class id rate) =
      codes "tc class replace dev "
      ++ card
      ++ codes " parent 1:1 classid 1:"
      ++ print_hex id
      ++ codes " htb rate "
      ++ float.print rate
      ++ codes "Mbit"
  render card (replace_filter port id) =
      codes "tc filter replace dev "
      ++ card
      ++ codes " parent 1:0 prio "
      ++ print_int port
      ++ codes " protocol ip u32  match ip sport "
      ++ print_int port
      ++ codes " FFFF classid 1:"
      ++ print_hex id
  render card (delete_filter port) =
      codes "tc filter delete dev "
      ++ card
      ++ codes " parent 1:0 prio "
      ++ print_int port
      ++ codes " u32"

module _ {D : Type 0} (float : Float D) (popen : Bytes → Bool) where
  -- `sprintf` into `cmd`, and `execShellCommmand`. The output of the command is only printed.
  unfoldable pub exec :
      TcCommand D → TrafficControlManager D → Option (TrafficControlManager D × Bool)
  exec c tc =
      let cmd = render float tc.net_card_name c in
      let started = if popen cmd then record tc { executed = tc.executed ++ c ∷ [] } else tc in
      if ltb (length cmd) command_max_len then some (started, popen cmd) else none

  abbrev pub add_tc_class :
      ℤ → D → TrafficControlManager D → Option (TrafficControlManager D × Bool)
  add_tc_class class_id bandwidth tc = exec (replace_class class_id bandwidth) tc

  -- The same text as `addTcClass`.
  abbrev pub change_tc_class :
      ℤ → D → TrafficControlManager D → Option (TrafficControlManager D × Bool)
  change_tc_class class_id bandwidth tc = exec (replace_class class_id bandwidth) tc

  abbrev pub add_tc_filter :
      ℤ → ℤ → TrafficControlManager D → Option (TrafficControlManager D × Bool)
  add_tc_filter ip_port flow_classid tc = exec (replace_filter ip_port flow_classid) tc

  abbrev pub delete_tc_filter :
      ℤ → TrafficControlManager D → Option (TrafficControlManager D × Bool)
  delete_tc_filter ip_port tc = exec (delete_filter ip_port) tc

  unfoldable pub change_tc_filter :
      ℤ → ℤ → TrafficControlManager D → Option (TrafficControlManager D × Bool)
  change_tc_filter ip_port flow_classid tc = do
    (tc', ok) ← delete_tc_filter ip_port tc
    if ok then add_tc_filter ip_port flow_classid tc' else some (tc', false)

  -- What the three calls answer is not looked at.
  unfoldable pub set_ip_port_bandwidth :
      ℤ → D → TrafficControlManager D → Option (TrafficControlManager D × Bool)
  unfolding exec
  set_ip_port_bandwidth ip_port bandwidth tc =
      if float.is_positive bandwidth
      then (do
        (tc1, _) ← add_tc_class ip_port bandwidth tc
        (tc2, _) ← delete_tc_filter ip_port tc1
        (tc3, _) ← add_tc_filter ip_port ip_port tc2
        some (tc3, true))
      else some (tc, false)

  unfoldable pub init_tc : TrafficControlManager D → Option (TrafficControlManager D)
  init_tc tc = do
    (tc1, _) ← exec add_qdisc tc
    (tc2, _) ← exec (replace_root_class tc1.remain_bandwidth_mbs) tc1
    (tc3, _) ← add_tc_class (pos 2) (float.of_int (pos 1)) tc2
    some tc3

  unfoldable pub new_traffic_control_manager : Bytes → D → Option (TrafficControlManager D)
  unfolding init_tc
  new_traffic_control_manager name bandwidth =
      if ltb (length name) net_card_name_max_len
      then init_tc
          (record { net_card_name = name; remain_bandwidth_mbs = bandwidth; executed = [] })
      else none
