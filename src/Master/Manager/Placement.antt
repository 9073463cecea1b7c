-- ===== src/Master/Manager/Placement.antt =====
-- Which machine stands for which logical machine, and the numbering of the machines.
use coflow_sim_online.Base.{
  ==ℤ_iff, Bool-cases, List, Option, Option-cases, [], ap, arith, get_elem?, if◌then◌else◌, inl,
  inr, length, length-append, pos, pos_part, refl, some, subst, suc, zero, ℕ, ℤ, ◌%◌, ◌++◌, ◌+◌,
  ◌<◌, ◌==ℤ◌, ◌==◌, ◌∙◌, ◌∷◌, ◌≡◌, ◌≤◌,
}
use coflow_sim_online.Text.{Bytes}
use coflow_sim_online.Common.Socket.{Socket}
use coflow_sim_online.Master.Machine.{Machine, new_machine}
use coflow_sim_online.Master.Manager.{
  LogicMap, MachineManager, find_logic, put_logic, update_from, add_one_physics_machine,
  get_phy_machine_by_machine_id, update_logic_map,
}

find_logic-put_logic :
    (k j : ℤ) (v : Option ℕ) (ms : LogicMap)
    → find_logic j (put_logic k v ms) ≡ (if k ==ℤ j then some v else find_logic j ms)
unfolding find_logic put_logic
find_logic-put_logic k j v [] = refl
find_logic-put_logic k j v ((i, m) ∷ ms) =
    ground (arith, ==ℤ_iff k j, ==ℤ_iff i k, ==ℤ_iff i j, find_logic-put_logic k j v ms)

find_logic-update_from_below :
    (rounds i j n : ℕ) (ms : LogicMap)
    → j < i
    → find_logic (pos j) (update_from rounds i n ms) ≡ find_logic (pos j) ms
unfolding update_from
find_logic-update_from_below zero i j n ms h = refl
find_logic-update_from_below (suc rounds) i j n ms h = ground (
  arith,
  find_logic-update_from_below rounds (i + 1) j n (put_logic (pos i) (some (i % n)) ms),
  find_logic-put_logic (pos i) (pos j) (some (i % n)) ms,
)

find_logic-update_from :
    (rounds i j n : ℕ) (ms : LogicMap)
    → i ≤ j
    → j < i + rounds
    → find_logic (pos j) (update_from rounds i n ms) ≡ some (some (j % n))
unfolding update_from
find_logic-update_from zero i j n ms le lt = absurd (omega arith)
find_logic-update_from (suc rounds) i j n ms le lt = elim (Bool-cases (i == j)) [
  | inl same ↦ ground (
    arith,
    find_logic-update_from_below rounds (i + 1) j n (put_logic (pos i) (some (i % n)) ms),
    find_logic-put_logic (pos i) (pos j) (some (i % n)) ms,
  )
  | inr other ↦
      ground
        (arith, find_logic-update_from rounds (i + 1) j n (put_logic (pos i) (some (i % n)) ms))
]

-- Logical machine `j` is on machine `j % n` of `n`.
pub record IsPlaced (mm : MachineManager) : Type 0 where
  pub placed :
      (j : ℕ)
      → j < pos_part mm.logic_machine_num
      → find_logic (pos j) mm.logic_map ≡ some (some (j % length mm.physics_machines))

-- Machine `i` has the id `i`.
abbrev pub Numbered : ℕ → List Machine → Type 0
Numbered i [] = Unit
Numbered i (m ∷ ms) = (m.machine_id ≡ pos i) × Numbered (i + 1) ms

abbrev pub IsNumbered : MachineManager → Type 0
IsNumbered mm =
    Numbered 0 mm.physics_machines × (mm.physics_machines_num ≡ length mm.physics_machines)

Numbered-append :
    (i j : ℕ) (ms : List Machine) (m : Machine)
    → Numbered i ms
    → j ≡ i + length ms
    → m.machine_id ≡ pos j
    → Numbered i (ms ++ m ∷ [])
Numbered-append i j [] m h e id = (ground arith, tt)
Numbered-append i j (m' ∷ ms) m (h, hs) e id =
    (h, Numbered-append (i + 1) j ms m hs (omega arith) id)

new_machine-machine_id :
    (raw : Socket) (id : ℤ) (ip : Bytes) (port : ℤ) {m : Machine}
    → new_machine raw id ip port ≡ some m
    → m.machine_id ≡ id
unfolding new_machine
new_machine-machine_id raw id ip port h = ground arith

update_logic_map-IsPlaced : (mm : MachineManager) → IsPlaced (update_logic_map mm)
unfolding update_logic_map
update_logic_map-IsPlaced mm = record {
  placed = λ j lt.
      find_logic-update_from (pos_part mm.logic_machine_num) 0 j (length mm.physics_machines)
        mm.logic_map (omega arith) (omega arith);
}

added :
    (mm : MachineManager) (ms : List Machine) (m : Machine)
    → mm.physics_machines ≡ ms ++ m ∷ []
    → Numbered 0 ms
    → mm.physics_machines_num ≡ length (ms ++ m ∷ [])
    → m.machine_id ≡ pos (length ms)
    → IsPlaced (update_logic_map mm)
      × IsNumbered (update_logic_map mm)
      × (length (update_logic_map mm).physics_machines ≡ length ms + 1)
unfolding update_logic_map
added mm ms m e h n id = (
  update_logic_map-IsPlaced mm,
  (rw e (Numbered-append 0 (length ms) ms m h (omega arith) id), rw e n),
  rw e (omega (arith, length-append ms (m ∷ []))),
)

-- If the machines are numbered in order, then after each addOnePhysicsMachine that makes its
-- machine all the logical machines are spread round-robin over all the machines that there are,
-- the new one included; the machines are still numbered in order, and the result is the number
-- of the new one.
pub add_one_physics_machine-IsPlaced :
    (raw : Socket) (ip : Bytes) (port : ℤ) (mm : MachineManager) {mm' : MachineManager} {id : ℤ}
    → IsNumbered mm
    → add_one_physics_machine raw ip port mm ≡ some (mm', id)
    → IsPlaced mm'
      × IsNumbered mm'
      × (length mm'.physics_machines ≡ length mm.physics_machines + 1)
      × (id ≡ pos (length mm.physics_machines))
unfolding add_one_physics_machine new_machine
add_one_physics_machine-IsPlaced raw ip port mm {mm'} {id} h e =
    elim (Option-cases (new_machine raw (pos mm.physics_machines_num) ip port)) [
      | inl fails ↦ ground (arith, fails)
      | inr (m, made) ↦
          let mm1 = record mm {
            physics_machines = mm.physics_machines ++ m ∷ [];
            physics_machines_num = mm.physics_machines_num + 1;
          } in
          let result : update_logic_map mm1 ≡ mm' = ground (arith, made) in
          let grown = length-append mm.physics_machines (m ∷ []) in
          let (placed, numbered, size) =
            added mm1 mm.physics_machines m refl (h.0) (omega (arith, h.1, grown)) (
              new_machine-machine_id raw (pos mm.physics_machines_num) ip port made ∙ ap pos h.1) in
          (
            subst IsPlaced result placed,
            subst IsNumbered result numbered,
            subst (λ x. length x.physics_machines ≡ length mm.physics_machines + 1) result size,
            ground (arith, made, h.1),
          )
    ]

find-Numbered :
    (i j : ℕ) (ms : List Machine) {m : Machine}
    → Numbered i ms
    → get_elem? ms j ≡ some m
    → get_phy_machine_by_machine_id (pos (i + j)) ms ≡ some m
unfolding get_phy_machine_by_machine_id
find-Numbered i j [] h e = cc
find-Numbered i zero (m ∷ ms) (h, hs) e = ground arith
find-Numbered i (suc j) (m' ∷ ms) {m} (h, hs) e =
    let next : i + 1 + j ≡ i + suc j = omega arith in
    let rest = find-Numbered (i + 1) j ms {m = m} hs e in
    ground (arith, subst (λ k. get_phy_machine_by_machine_id (pos k) ms ≡ some m) next rest)

-- With machines that are numbered in order, a machine's number finds it.
pub get_phy_machine_lem :
    (mm : MachineManager) (j : ℕ) {m : Machine}
    → IsNumbered mm
    → get_elem? mm.physics_machines j ≡ some m
    → get_phy_machine_by_machine_id (pos j) mm.physics_machines ≡ some m
get_phy_machine_lem mm j {m} h e =
    let same : 0 + j ≡ j = omega arith in
    subst (λ k. get_phy_machine_by_machine_id (pos k) mm.physics_machines ≡ some m) same
      (find-Numbered 0 j mm.physics_machines h.0 e)
