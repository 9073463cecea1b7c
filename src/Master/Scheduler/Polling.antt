-- ===== src/Master/Scheduler/Polling.antt =====
-- What the reports of the clients leave alone: the states of the coflows, and the tasks of their flows.
use coflow_sim_online.Common.Socket.{recv_msg}
use coflow_sim_online.Base.{
  Bool, Bool-cases, List, Option-cases, [], arith, inl, inr, map, refl, some, ℤ, ◌∙◌, ◌∷◌, ◌≡◌,
}
use coflow_sim_online.Common.Float.{Float}
use coflow_sim_online.Master.Coflow.{Flow, Coflow, CoflowState, flow_end, find_flow, end_found}
use coflow_sim_online.Master.Machine.{FlowEndInfo, Machine, parse_flows_finished_info}
use coflow_sim_online.Master.Scheduler.{
  Scheduler, World, end_in, report_one, drain, Task, task_of, poll, poll_machines, poll_machine,
}
use coflow_sim_online.Master.Scheduler.Launch.{tasks_of, at_full_speed}

module _ {D K : Type 0} (float : Float D) (world : World K) where
  abbrev pub frame : Coflow D → CoflowState × List (Task D)
  frame co = (co.coflow_state, tasks_of float world co)

  abbrev pub frames : List (Coflow D) → List (CoflowState × List (Task D))
  frames = map frame

  tasks-end_found :
      (coflow id time : ℤ) (fs : List (Flow D))
      → map (λ f. task_of float world coflow (at_full_speed float world f)) (end_found id time fs)
        ≡ map (λ f. task_of float world coflow (at_full_speed float world f)) fs
  unfolding end_found
  tasks-end_found coflow id time [] = refl
  tasks-end_found coflow id time (f ∷ fs) = ground (arith, tasks-end_found coflow id time fs)

  flow_end-frame : (id time : ℤ) (co : Coflow D) → frame (flow_end id time co).0 ≡ frame co
  unfolding flow_end
  flow_end-frame id time co = elim (Option-cases (find_flow id co.flow_collection)) [
    | inl e ↦ ground (arith, e)
    | inr (f, e) ↦ ground (arith, e, tasks-end_found co.coflow_id id time co.flow_collection)
  ]

  end_in-frames :
      (info : FlowEndInfo) (cos : List (Coflow D)) → frames (end_in info cos).0 ≡ frames cos
  unfolding end_in
  end_in-frames info [] = refl
  end_in-frames info (co ∷ cos) =
      ground (arith, end_in-frames info cos, flow_end-frame info.flow_id info.end_time co)

  -- The first scheduler, with the reports of some flows worked in.
  abbrev pub Kept : Scheduler D → Scheduler D → Type 0
  Kept s s' = (frames s'.coflows ≡ frames s.coflows) × (s'.register_index ≡ s.register_index)

  report_one-Kept :
      (info : FlowEndInfo) (s : Scheduler D) (k : K) → Kept s (report_one float world info s k).0.0
  unfolding report_one
  report_one-Kept info s k = elim (Option-cases (end_in info s.coflows).1) [
    | inl e ↦ rw (e, report_one) (end_in-frames info s.coflows, refl)
    | inr (co, e) ↦ rw (e, report_one) (end_in-frames info s.coflows, refl)
  ]

  drain-Kept :
      (infos : List FlowEndInfo) (s : Scheduler D) (k : K)
      → Kept s (drain float world infos s k).0.1
  unfolding drain
  drain-Kept [] s k = (refl, refl)
  drain-Kept (info ∷ infos) s k =
      let r = report_one float world info s k in
      let (frames1, index1) = report_one-Kept info s k in
      elim (Bool-cases r.0.1) [
        | inl all ↦ rw (all, drain) (frames1, index1)
        | inr more ↦
            let (frames2, index2) = drain-Kept infos r.0.0 r.1 in
            rw (more, drain) (frames2 ∙ frames1, index2 ∙ index1)
      ]

  poll_machine-Kept :
      (m : Machine) (s : Scheduler D) (k : K) {r : (Machine × Scheduler D × Bool) × K}
      → poll_machine float world m s k ≡ some r
      → Kept s r.0.1
  unfolding poll_machine
  poll_machine-Kept m s k h = elim (Option-cases (recv_msg world.kernel m.socket k)) [
    | inl e ↦ ground (arith, e)
    | inr (((socket, ok), k1), e) ↦
        elim (Option-cases
          (parse_flows_finished_info (world.junk k1) (record m { socket = socket }))) [
            | inl e' ↦ ground (arith, e, e')
            | inr ((m1, more), e') ↦ ground (arith, e, e', drain-Kept m1.flows_finished_info s k1)
          ]
  ]

  poll_machines-Kept :
      (ms : List Machine) (s : Scheduler D) (k : K) {r : (List Machine × Scheduler D × Bool) × K}
      → poll_machines float world ms s k ≡ some r
      → Kept s r.0.1
  unfolding poll_machines
  poll_machines-Kept [] s k h = ground arith
  poll_machines-Kept (m ∷ ms) s k h = elim (Option-cases (poll_machine float world m s k)) [
    | inl e ↦ ground (arith, e)
    | inr (((m1, s1, all), k1), e) ↦ elim (Bool-cases all) [
      | inl stop ↦ ground (arith, e, stop, poll_machine-Kept m s k e)
      | inr more ↦ elim (Option-cases (poll_machines float world ms s1 k1)) [
        | inl e' ↦ ground (arith, e, more, e')
        | inr (r1, e') ↦
            ground (arith, e, more, e', poll_machine-Kept m s k e, poll_machines-Kept ms s1 k1 e')
      ]
    ]
  ]

  -- Reading the reports of all the machines keeps the frames of the coflows.
  pub poll-Kept :
      (s : Scheduler D) (k : K) {s' : Scheduler D} {all : Bool} {k' : K}
      → poll float world s k ≡ some ((s', all), k')
      → Kept s s'
  unfolding poll
  poll-Kept s k h =
      elim (Option-cases (poll_machines float world s.machines.physics_machines s k)) [
        | inl e ↦ ground (arith, e)
        | inr (r, e) ↦ ground (arith, e, poll_machines-Kept s.machines.physics_machines s k e)
      ]
