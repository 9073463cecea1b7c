-- ===== src/Master/Scheduler/Launch.antt =====
-- What one round sends.
use coflow_sim_online.Base.{
  All, Bool, List, Option, Option-cases, [], arith, inl, inr, map, pos, refl, some, suc, true, ℕ, ℤ,
  ◌++◌, ◌>>=◌, ◌∷◌, ◌≡◌,
}
use coflow_sim_online.Common.Float.{Float}
use coflow_sim_online.Master.Coflow.{Flow, Coflow, runninged, set_current_mbs, running}
use coflow_sim_online.Master.Manager.{MachineManager, Task, send_task, send_to, post}
use coflow_sim_online.Master.Scheduler.{
  World, send_until, task_of, launch_flows, launch_coflows, launch_coflow,
}

module _ {D K : Type 0} (float : Float D) (world : World K) where
  -- These tasks, one after another.
  unfoldable pub sends : List (Task D) → MachineManager → K → Option (MachineManager × K)
  sends [] mm k = some (mm, k)
  sends (t ∷ ts) mm k = send_task float world.kernel t mm k >>= λ r. sends ts r.0 r.2

  abbrev pub at_full_speed : Flow D → Flow D
  at_full_speed = set_current_mbs (float.of_int (pos 10))

  abbrev pub tasks_of : Coflow D → List (Task D)
  tasks_of co = map (λ f. task_of float world co.coflow_id (at_full_speed f)) co.flow_collection

  abbrev pub launched : Coflow D → Coflow D
  launched co = record co {
    coflow_state = runninged;
    flow_collection = map at_full_speed co.flow_collection;
  }

  send_task-true :
      (t : Task D) (mm : MachineManager) (k : K) {r : MachineManager × Bool × K}
      → send_task float world.kernel t mm k ≡ some r
      → r.1 ≡ true
  unfolding send_task send_to post
  send_task-true t mm k h = ground arith

  -- The loop that calls sendTask until it succeeds ends with its first round, with whatever
  -- fuel.
  pub send_until_one :
      (fuel : ℕ) (t : Task D) (mm : MachineManager) (k : K)
      → send_until float world (suc fuel) t mm k
        ≡ (send_task float world.kernel t mm k >>= λ r. some (r.0, r.2))
  unfolding send_until
  send_until_one fuel t mm k = elim (Option-cases (send_task float world.kernel t mm k)) [
    | inl e ↦ rw e
    | inr (r, e) ↦ rw (e, send_task-true t mm k e)
  ]

  launch_flows-sends :
      (coflow : ℤ) (fs : List (Flow D)) (mm : MachineManager) (k : K)
      → launch_flows float world coflow fs mm k ≡ (
          sends (map (λ f. task_of float world coflow (at_full_speed f)) fs) mm k >>= λ r.
          some (map at_full_speed fs, r.0, r.1))
  unfolding launch_flows sends
  launch_flows-sends coflow [] mm k = refl
  launch_flows-sends coflow (f ∷ fs) mm k =
      let t = task_of float world coflow (at_full_speed f) in
      elim (Option-cases (send_task float world.kernel t mm k)) [
        | inl e ↦ ground (arith, e, send_until_one 0 t mm k)
        | inr (r, e) ↦
            elim (Option-cases
              (sends (map (λ g. task_of float world coflow (at_full_speed g)) fs) r.0 r.2)) [
                | inl e' ↦
                    ground
                      (arith, e, e', send_until_one 0 t mm k, launch_flows-sends coflow fs r.0 r.2)
                | inr (q, e') ↦
                    ground
                      (arith, e, e', send_until_one 0 t mm k, launch_flows-sends coflow fs r.0 r.2)
              ]
      ]

  sends-append :
      (ts us : List (Task D)) (mm : MachineManager) (k : K)
      → sends (ts ++ us) mm k ≡ (sends ts mm k >>= λ r. sends us r.0 r.1)
  unfolding sends
  sends-append [] us mm k = refl
  sends-append (t ∷ ts) us mm k = elim (Option-cases (send_task float world.kernel t mm k)) [
    | inl e ↦ rw e
    | inr (r, e) ↦ rw e (sends-append ts us r.0 r.2)
  ]

  unfoldable pub tasks_of_all : List (Coflow D) → List (Task D)
  tasks_of_all [] = []
  tasks_of_all (co ∷ cos) = tasks_of co ++ tasks_of_all cos

  launch_coflow-idle :
      (co : Coflow D) (mm : MachineManager) (k : K)
      → co.coflow_state ≡ runninged
      → launch_coflow float world co mm k ≡ some (co, mm, k)
  unfolding launch_coflow
  launch_coflow-idle co mm k h = ground arith

  launch_coflow-running :
      (co : Coflow D) (mm : MachineManager) (k : K)
      → co.coflow_state ≡ running
      → launch_coflow float world co mm k
        ≡ (sends (tasks_of co) mm k >>= λ r. some (launched co, r.0, r.1))
  unfolding launch_coflow
  launch_coflow-running co mm k h = elim (Option-cases (sends (tasks_of co) mm k)) [
    | inl e ↦ ground (arith, e, launch_flows-sends co.coflow_id co.flow_collection mm k)
    | inr (r, e) ↦ ground (arith, e, launch_flows-sends co.coflow_id co.flow_collection mm k)
  ]

  -- On coflows that were launched before, followed by running ones, the loop over the registered
  -- coflows passes over the former and launches the latter in order: it is a sequence of sendTask
  -- calls, one for each of their flows.
  pub launch_coflows-sends :
      (old new : List (Coflow D)) (mm : MachineManager) (k : K)
      → All (λ co. co.coflow_state ≡ runninged) old
      → All (λ co. co.coflow_state ≡ running) new
      → launch_coflows float world (old ++ new) mm k
        ≡ (sends (tasks_of_all new) mm k >>= λ r. some (old ++ map launched new, r.0, r.1))
  unfolding launch_coflows tasks_of_all
  launch_coflows-sends [] [] mm k ho hn = unfold sends in refl
  launch_coflows-sends [] (co ∷ new) mm k ho (h, hn) =
      elim (Option-cases (sends (tasks_of co) mm k)) [
        | inl e ↦ ground (
          arith,
          e,
          launch_coflow-running co mm k h,
          sends-append (tasks_of co) (tasks_of_all new) mm k,
        )
        | inr (r, e) ↦ elim (Option-cases (sends (tasks_of_all new) r.0 r.1)) [
          | inl e' ↦ ground (
            arith,
            e,
            e',
            launch_coflow-running co mm k h,
            sends-append (tasks_of co) (tasks_of_all new) mm k,
            launch_coflows-sends [] new r.0 r.1 tt hn,
          )
          | inr (q, e') ↦ ground (
            arith,
            e,
            e',
            launch_coflow-running co mm k h,
            sends-append (tasks_of co) (tasks_of_all new) mm k,
            launch_coflows-sends [] new r.0 r.1 tt hn,
          )
        ]
      ]
  launch_coflows-sends (co ∷ old) new mm k (h, ho) hn =
      elim (Option-cases (sends (tasks_of_all new) mm k)) [
        | inl e ↦
            ground (arith, e, launch_coflow-idle co mm k h, launch_coflows-sends old new mm k ho hn)
        | inr (r, e) ↦
            ground (arith, e, launch_coflow-idle co mm k h, launch_coflows-sends old new mm k ho hn)
      ]
