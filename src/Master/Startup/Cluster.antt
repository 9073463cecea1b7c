-- ===== src/Master/Startup/Cluster.antt =====
-- The machines after parseMachineDefine.
use coflow_sim_online.Master.Machine.{new_machine}
use coflow_sim_online.Master.Manager.{update_logic_map, MachineManager, add_one_physics_machine}
use coflow_sim_online.Base.{
  List, Option-cases, [], arith, inl, inr, length, pos, refl, some, ℕ, ℤ, ◌+◌, ◌<◌, ◌∙◌, ◌∷◌, ◌≡◌,
}
use coflow_sim_online.Text.{Bytes}
use coflow_sim_online.Common.Socket.{Socket}
use coflow_sim_online.Master.Manager.Placement.{
  IsPlaced, IsNumbered, add_one_physics_machine-IsPlaced,
}
use coflow_sim_online.Master.Startup.{
  ClientDocument, need_text, need_number, ip_size, add_client, add_clients, parse_machine_define,
  MachineDocument,
}

add_one-logic_machine_num :
    (raw : Socket) (ip : Bytes) (port : ℤ) (mm : MachineManager) {r : MachineManager × ℤ}
    → add_one_physics_machine raw ip port mm ≡ some r
    → r.0.logic_machine_num ≡ mm.logic_machine_num
unfolding add_one_physics_machine update_logic_map
add_one-logic_machine_num raw ip port mm e =
    elim (Option-cases (new_machine raw (pos mm.physics_machines_num) ip port)) [
      | inl e1 ↦ ground (arith, e1)
      | inr (m, e1) ↦ ground (arith, e1)
    ]

-- So many machines more, numbered in order, for as many logical machines.
abbrev pub Grown : MachineManager → MachineManager → ℕ → Type 0
Grown mm mm' n =
    IsNumbered mm'
    × (length mm'.physics_machines ≡ length mm.physics_machines + n)
    × (mm'.logic_machine_num ≡ mm.logic_machine_num)

add_client-IsPlaced :
    (raw : Socket) (client : ClientDocument) (unread : Bytes) (mm : MachineManager)
    {r : MachineManager × Bytes}
    → IsNumbered mm
    → add_client raw client unread mm ≡ some r
    → IsPlaced r.0 × Grown mm r.0 1
unfolding add_client
add_client-IsPlaced raw client unread mm h e = elim (Option-cases client.ip) [
  | inl e1 ↦ ground (arith, e1)
  | inr (ip, e1) ↦ elim (Option-cases (need_text ip_size ip unread)) [
    | inl e2 ↦ ground (arith, e1, e2)
    | inr ((client_ip, unread1), e2) ↦ elim (Option-cases client.port) [
      | inl e3 ↦ ground (arith, e1, e2, e3)
      | inr (port, e3) ↦ elim (Option-cases (need_number port unread1)) [
        | inl e4 ↦ ground (arith, e1, e2, e3, e4)
        | inr ((client_port, unread2), e4) ↦
            elim (Option-cases (add_one_physics_machine raw client_ip client_port mm)) [
              | inl e5 ↦ ground (arith, e1, e2, e3, e4, e5)
              | inr ((mm', id), e5) ↦
                  let (placed, numbered, size, _) =
                    add_one_physics_machine-IsPlaced raw client_ip client_port mm h e5 in
                  let same = add_one-logic_machine_num raw client_ip client_port mm e5 in
                  ground (arith, e1, e2, e3, e4, e5, placed, numbered, size, same)
            ]
      ]
    ]
  ]
]

add_clients-IsPlaced :
    (raw : Socket) (clients : List ClientDocument) (unread : Bytes) (mm : MachineManager)
    {mm' : MachineManager}
    → (length clients ≡ 0 → IsPlaced mm)
    → IsNumbered mm
    → add_clients raw clients unread mm ≡ some mm'
    → IsPlaced mm' × Grown mm mm' (length clients)
unfolding add_clients
add_clients-IsPlaced raw [] unread mm p h e = ground (arith, p refl, h)
add_clients-IsPlaced raw (client ∷ clients) unread mm {mm'} p h e =
    elim (Option-cases (add_client raw client unread mm)) [
      | inl e1 ↦ ground (arith, e1)
      | inr ((mm1, unread1), e1) ↦
          let (placed, (numbered, size, same)) = add_client-IsPlaced raw client unread mm h e1 in
          let rest : add_clients raw clients unread1 mm1 ≡ some mm' = ground (arith, e, e1) in
          let (placed', (numbered', size', same')) =
            add_clients-IsPlaced raw clients unread1 mm1 {mm' = mm'} (λ _. placed) numbered rest in
          (placed', (numbered', omega (arith, size, size'), same' ∙ same))
    ]

-- From a document with at least one client, and machines that are numbered in order,
-- parseMachineDefine adds one machine for each client, still numbered in order, and spreads all
-- the logical machines, whose number stays, round-robin over all the machines.
pub parse_machine_define-IsPlaced :
    (raw : Socket) (document : MachineDocument) (clients : List ClientDocument)
    (mm : MachineManager) {mm' : MachineManager}
    → IsNumbered mm
    → document.clients ≡ some clients
    → 0 < length clients
    → parse_machine_define raw document mm ≡ some mm'
    → IsPlaced mm' × Grown mm mm' (length clients)
unfolding parse_machine_define
parse_machine_define-IsPlaced raw document clients mm {mm'} h listed some_ e =
    elim (Option-cases document.master_ip) [
      | inl e1 ↦ ground (arith, e1)
      | inr (ip, e1) ↦ elim (Option-cases (need_text ip_size ip [])) [
        | inl e2 ↦ ground (arith, e1, e2)
        | inr ((master_ip, unread), e2) ↦ elim (Option-cases document.master_port) [
          | inl e3 ↦ ground (arith, e1, e2, e3)
          | inr (port, e3) ↦ elim (Option-cases (need_number port unread)) [
            | inl e4 ↦ ground (arith, e1, e2, e3, e4)
            | inr ((master_port, unread'), e4) ↦
                let rest : add_clients raw clients unread' mm ≡ some mm' =
                  ground (arith, e, e1, e2, e3, e4, listed) in
                add_clients-IsPlaced raw clients unread' mm {mm' = mm'}
                  (λ z. absurd (omega (arith, z, some_))) h rest
          ]
        ]
      ]
    ]
