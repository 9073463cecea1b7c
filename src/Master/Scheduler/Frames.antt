-- ===== src/Master/Scheduler/Frames.antt =====
-- Coflows compared by their states and the tasks of their flows.
use coflow_sim_online.Base.{
  List, [], ap, append_assoc, drop, length, length-map, map, map-take, refl, sym, take, take-add, ℕ,
  ℤ, ◌++◌, ◌+◌, ◌∙◌, ◌∷◌, ◌≡◌,
}
use coflow_sim_online.Common.Float.{Float}
use coflow_sim_online.Master.Coflow.{Coflow, Flow, CoflowState}
use coflow_sim_online.Master.Manager.{Task}
use coflow_sim_online.Master.Scheduler.{World, task_of}
use coflow_sim_online.Master.Scheduler.Launch.{tasks_of, tasks_of_all, launched, at_full_speed}
use coflow_sim_online.Master.Scheduler.Round.{AllAre}
use coflow_sim_online.Master.Scheduler.Polling.{frame, frames}

module _ {D K : Type 0} (float : Float D) (world : World K) where
  -- The tasks of the first `n` coflows.
  abbrev pub tasks_until : ℕ → List (Coflow D) → List (Task D)
  tasks_until n cos = tasks_of_all float world (take n cos)

  pub length-frames :
      (cos cos' : List (Coflow D))
      → frames float world cos' ≡ frames float world cos
      → length cos' ≡ length cos
  length-frames cos cos' e =
      sym (length-map (frame float world) cos') ∙ ap length e ∙ length-map (frame float world) cos

  pub AllAre-frames :
      (st : CoflowState) (cos cos' : List (Coflow D))
      → frames float world cos' ≡ frames float world cos
      → AllAre st cos
      → AllAre st cos'
  AllAre-frames st cos [] e h = tt
  AllAre-frames st [] (co' ∷ cos') e h = cc
  AllAre-frames st (co ∷ cos) (co' ∷ cos') e (h, hs) = (cc, AllAre-frames st cos cos' (cc) hs)

  -- The tasks of each coflow.
  abbrev pub orders : List (Coflow D) → List (List (Task D))
  orders = map (tasks_of float world)

  snd-frames : (cos : List (Coflow D)) → map (λ r. r.1) (frames float world cos) ≡ orders cos
  snd-frames [] = refl
  snd-frames (co ∷ cos) = ap (◌∷◌ (tasks_of float world co)) (snd-frames cos)

  pub orders-frames :
      (cos cos' : List (Coflow D))
      → frames float world cos' ≡ frames float world cos
      → orders cos' ≡ orders cos
  orders-frames cos cos' e = sym (snd-frames cos') ∙ ap (map (λ r. r.1)) e ∙ snd-frames cos

  head-orders :
      (co co' : Coflow D) (cos cos' : List (Coflow D))
      → orders (co' ∷ cos') ≡ orders (co ∷ cos)
      → tasks_of float world co' ≡ tasks_of float world co
  head-orders co co' cos cos' e = cc

  tasks_of_all-orders :
      (cos cos' : List (Coflow D))
      → orders cos' ≡ orders cos
      → tasks_of_all float world cos' ≡ tasks_of_all float world cos
  unfolding tasks_of_all
  tasks_of_all-orders [] [] e = refl
  tasks_of_all-orders (co ∷ cos) [] e = cc
  tasks_of_all-orders [] (co' ∷ cos') e = cc
  tasks_of_all-orders (co ∷ cos) (co' ∷ cos') e =
      rw (head-orders co co' cos cos' e, tasks_of_all-orders cos cos' (cc)) refl

  pub tasks_until-orders :
      (n : ℕ) (cos cos' : List (Coflow D))
      → orders cos' ≡ orders cos
      → tasks_until n cos' ≡ tasks_until n cos
  tasks_until-orders n cos cos' e = tasks_of_all-orders (take n cos) (take n cos') (
      map-take (tasks_of float world) n cos'
      ∙ ap (take n) e
      ∙ sym (map-take (tasks_of float world) n cos))

  tasks_of_all-append :
      (cos cos' : List (Coflow D))
      → tasks_of_all float world (cos ++ cos')
        ≡ tasks_of_all float world cos ++ tasks_of_all float world cos'
  unfolding tasks_of_all
  tasks_of_all-append [] cos' = refl
  tasks_of_all-append (co ∷ cos) cos' = rw (tasks_of_all-append cos cos') (
      sym (
        append_assoc (tasks_of float world co) (tasks_of_all float world cos)
          (tasks_of_all float world cos')))

  pub tasks_until-add :
      (i n : ℕ) (cos : List (Coflow D))
      → tasks_until (i + n) cos
        ≡ tasks_until i cos ++ tasks_of_all float world (take n (drop i cos))
  tasks_until-add i n cos =
      rw (take-add i n cos) (tasks_of_all-append (take i cos) (take n (drop i cos)))

  tasks_of-speed :
      (coflow : ℤ) (fs : List (Flow D))
      → map
          (λ f. task_of float world coflow (at_full_speed float world f))
          (map (at_full_speed float world) fs)
        ≡ map (λ f. task_of float world coflow (at_full_speed float world f)) fs
  tasks_of-speed coflow [] = refl
  tasks_of-speed coflow (f ∷ fs) =
      ap (◌∷◌ (task_of float world coflow (at_full_speed float world f))) (tasks_of-speed coflow fs)

  pub orders-launched :
      (cos : List (Coflow D)) → orders (map (launched float world) cos) ≡ orders cos
  orders-launched [] = refl
  orders-launched (co ∷ cos) =
      rw (tasks_of-speed co.coflow_id co.flow_collection, orders-launched cos) refl
