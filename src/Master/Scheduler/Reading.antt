-- ===== src/Master/Scheduler/Reading.antt =====
-- Launching changes nothing of what the machines have read and are to read, and ends no flow.
use coflow_sim_online.Master.Scheduler.Phases.{after_launch}
use coflow_sim_online.Master.Scheduler.Ended.{has_ended}
use coflow_sim_online.Master.Coflow.Marking.{flow_ended}
use coflow_sim_online.Master.Coflow.{find_flow, Flow}
use coflow_sim_online.Base.{
  Bool, List, Option, Option-cases, [], ap, arith, drop, get_elem?, inl, inr, map, none, refl, set,
  some, suc, sym, take, take-drop, zero, ℕ, ℤ, ◌++◌, ◌∙◌, ◌∷◌, ◌≡◌,
}
use coflow_sim_online.Common.Socket.{Socket, set_send_msg, send_msg, send_message, after_send}
use coflow_sim_online.Master.Machine.{Machine, FlowEndInfo}
use coflow_sim_online.Master.Manager.{
  Task, MachineManager, post, send_to, send_task, at_logic, machine_at, task_text,
}
use coflow_sim_online.Master.Scheduler.{World, Float, Coflow, Scheduler}
use coflow_sim_online.Master.Scheduler.Launch.{sends, launched, at_full_speed}
use coflow_sim_online.Master.Scheduler.Incoming.{Incoming}
use coflow_sim_online.Text.{Bytes}
use coflow_sim_online.Master.Scheduler.Register.{due_num, elapsed}

-- What parseFlowsFinishedInfo starts from, and where it reads.
abbrev pub reading : Machine → ℤ × Bytes × Bytes × List FlowEndInfo
reading m = (m.socket.sockfd, m.socket.recv_buf, m.tmprecv, m.flows_finished_info)

abbrev pub readings : MachineManager → List (ℤ × Bytes × Bytes × List FlowEndInfo)
readings mm = map reading mm.physics_machines

set-readings :
    (ms : List Machine) (i : ℕ) (m m' : Machine)
    → get_elem? ms i ≡ some m
    → reading m' ≡ reading m
    → map reading (set ms i m') ≡ map reading ms
set-readings [] i m m' e same = refl
set-readings (x ∷ ms) zero m m' e same = ground (arith, e, same)
set-readings (x ∷ ms) (suc i) m m' e same = ground (arith, set-readings ms i m m' e same)

abbrev ends_of : Socket → ℤ × Bytes
ends_of s = (s.sockfd, s.recv_buf)

set_send_msg-ends_of :
    (msg : Bytes) (s : Socket) {s' : Socket} {ok : Bool}
    → set_send_msg msg s ≡ some (s', ok)
    → ends_of s' ≡ ends_of s
unfolding set_send_msg
set_send_msg-ends_of msg s e = ground (arith, e)

module _ {K : Type 0} (world : World K) (incoming : Incoming world) where
  open incoming use {rest}

  send_msg-ends_of : (s : Socket) (k : K) → ends_of (send_msg world.kernel s k).0.0 ≡ ends_of s
  unfolding send_msg send_message after_send
  send_msg-ends_of s k = ground arith

  send_msg-rest : (fd : ℤ) (s : Socket) (k : K) → rest fd (send_msg world.kernel s k).1 ≡ rest fd k
  unfolding send_msg send_message
  send_msg-rest fd s k = ground (arith, incoming.send_rest s.sockfd fd s.send_buf k)

  -- The machines read as before, and what is to come is the same.
  abbrev pub SameReading : MachineManager → K → MachineManager → K → Type 0
  SameReading mm k mm' k' = (readings mm' ≡ readings mm) × ((fd : ℤ) → rest fd k' ≡ rest fd k)

  module _ {D : Type 0} (float : Float D) where
    post-reading :
        (text : Bytes) (m : Machine) (k : K) {m' : Machine} {k' : K}
        → post float world.kernel text m k ≡ some (m', k')
        → (reading m' ≡ reading m) × ((fd : ℤ) → rest fd k' ≡ rest fd k)
    unfolding post
    post-reading text m k h = elim (Option-cases (set_send_msg text m.socket)) [
      | inl e ↦ ground (arith, e)
      | inr ((socket, ok), e) ↦ (
        ground (arith, e, set_send_msg-ends_of text m.socket e, send_msg-ends_of socket k),
        λ fd. ground (arith, e, send_msg-rest fd socket k),
      )
    ]

    send_to-SameReading :
        (t : Task D) (i : ℕ) (m r : Machine) (mm : MachineManager) (k : K)
        {q : MachineManager × Bool × K}
        → get_elem? mm.physics_machines i ≡ some m
        → send_to float world.kernel t i m r mm k ≡ some q
        → SameReading mm k q.0 q.2
    unfolding send_to
    send_to-SameReading t i m r mm k at h =
        let text = task_text float t r.socketip r.socketport in
        elim (Option-cases (post float world.kernel text m k)) [
          | inl e ↦ ground (arith, e)
          | inr ((m', k'), e) ↦
              let (same, keeps) = post-reading text m k e in
              let set_same = set-readings mm.physics_machines i m m' at same in
              (ground (arith, e, set_same), λ fd. ground (arith, e, keeps fd))
        ]

    machine_at-get_elem? :
        (mm : MachineManager) (p : Option ℕ) {i : ℕ} {m : Machine}
        → machine_at float world.kernel mm p ≡ some (i, m)
        → get_elem? mm.physics_machines i ≡ some m
    machine_at-get_elem? mm none h = ground arith
    machine_at-get_elem? mm (some j) h = elim (Option-cases (get_elem? mm.physics_machines j)) [
      | inl e ↦ ground (arith, e)
      | inr (m', e) ↦ ground (arith, e)
    ]

    send_task-SameReading :
        (t : Task D) (mm : MachineManager) (k : K) {q : MachineManager × Bool × K}
        → send_task float world.kernel t mm k ≡ some q
        → SameReading mm k q.0 q.2
    unfolding send_task
    send_task-SameReading t mm k {q} h =
        let (mapper, map1) = at_logic t.mapper_id mm.logic_map in
        let (reducer, map2) = at_logic t.reducer_id map1 in
        elim (Option-cases (machine_at float world.kernel mm mapper)) [
          | inl e ↦ ground (arith, e)
          | inr ((i, m), e) ↦ elim (Option-cases (machine_at float world.kernel mm reducer)) [
            | inl e' ↦ ground (arith, e, e')
            | inr ((j, r), e') ↦
                send_to-SameReading t i m r (record mm { logic_map = map2 }) k {q = q}
                  (machine_at-get_elem? mm mapper e) (ground (arith, e, e', h))
          ]
        ]

    pub sends-SameReading :
        (ts : List (Task D)) (mm : MachineManager) (k : K) {mm' : MachineManager} {k' : K}
        → sends float world ts mm k ≡ some (mm', k')
        → SameReading mm k mm' k'
    unfolding sends
    sends-SameReading [] mm k h = (ground arith, λ fd. ground arith)
    sends-SameReading (t ∷ ts) mm k {mm'} {k'} h =
        elim (Option-cases (send_task float world.kernel t mm k)) [
          | inl e ↦ ground (arith, e)
          | inr ((mm1, ok, k1), e) ↦
              let (same, keeps) = send_task-SameReading t mm k e in
              let (same', keeps') =
                sends-SameReading ts mm1 k1 {mm' = mm'} {k' = k'} (ground (arith, e, h)) in
              (same' ∙ same, λ fd. keeps' fd ∙ keeps fd)
        ]

module _ {D K : Type 0} (float : Float D) (world : World K) where
  flow_ended-at_full_speed :
      (flow : ℤ) (fs : List (Flow D))
      → flow_ended flow (map (at_full_speed float world) fs) ≡ flow_ended flow fs
  unfolding find_flow
  flow_ended-at_full_speed flow [] = refl
  flow_ended-at_full_speed flow (f ∷ fs) = ground (arith, flow_ended-at_full_speed flow fs)

  has_ended-launched :
      (coflow flow : ℤ) (old new late : List (Coflow D))
      → has_ended coflow flow ((old ++ map (launched float world) new) ++ late)
        ≡ has_ended coflow flow (old ++ (new ++ late))
  has_ended-launched coflow flow [] [] late = refl
  has_ended-launched coflow flow [] (co ∷ new) late = ground (
    arith,
    flow_ended-at_full_speed flow co.flow_collection,
    has_ended-launched coflow flow [] new late,
  )
  has_ended-launched coflow flow (co ∷ old) new late =
      ground (arith, has_ended-launched coflow flow old new late)

  -- A launch ends no flow.
  pub has_ended-after_launch :
      (coflow flow now : ℤ) (s : Scheduler D) (mm : MachineManager)
      → has_ended coflow flow (after_launch float world now s mm).coflows
        ≡ has_ended coflow flow s.coflows
  has_ended-after_launch coflow flow now s mm =
      let i = s.register_index in
      let late = drop i s.coflows in
      let n = due_num float (elapsed float now s) late in
      has_ended-launched coflow flow (take i s.coflows) (take n late) (drop n late)
      ∙ ap (λ cos. has_ended coflow flow (take i s.coflows ++ cos)) (sym (take-drop n late))
      ∙ ap (has_ended coflow flow) (sym (take-drop i s.coflows))
