-- ===== src/Master/Scheduler/Run.antt =====
-- The whole `run`: what is sent over all its rounds.
use coflow_sim_online.Master.Scheduler.Round.{AllAre}
use coflow_sim_online.Master.Scheduler.Polling.{poll-Kept}
use coflow_sim_online.Master.Scheduler.Launch.{tasks_of_all, sends}
use coflow_sim_online.Master.Coflow.{unregister, runninged}
use coflow_sim_online.Master.Scheduler.Phases.{
  new_tasks, after_launch, launch-cases, Kept-IsPhased, after_launch-IsPhased, after_launch-orders,
  after_launch-reached, IsPhased,
}
use coflow_sim_online.Master.Scheduler.Frames.{
  orders, tasks_until, orders-frames, tasks_until-orders,
}
use coflow_sim_online.Base.{
  Bool, Bool-cases, List, Option, Option-cases, [], ap, append-nil, append_assoc, arith, drop,
  false, if◌then◌else◌, inl, inr, refl, some, subst, suc, sym, take, true, zero, ℕ, ℤ, ◌++◌, ◌>>=◌,
  ◌∙◌, ◌≡◌,
}
use coflow_sim_online.Common.Float.{Float}
use coflow_sim_online.Master.Manager.{Task, MachineManager}
use coflow_sim_online.Master.Scheduler.{
  Scheduler, World, poll, run_once, launch, select_coflows, register_coflow,
}

module _ {D K : Type 0} (float : Float D) (world : World K) where
  -- At most so many rounds of the loop; the flag says that `run` returned.
  unfoldable pub run_rounds : ℕ → Scheduler D → K → Option ((Scheduler D × Bool) × K)
  run_rounds zero s k = some ((s, false), k)
  run_rounds (suc n) s k = do
    ((s', all), k') ← run_once float world s k
    let later = run_rounds n s' k' in if all then some ((s', true), k') else later

  abbrev pub started : ℤ → Scheduler D → Scheduler D
  started now s = record s { start_time = now; coflow_finished_num = 0; outfile = [] }

  -- `run` from its start.
  unfoldable pub run : ℕ → Scheduler D → K → Option ((Scheduler D × Bool) × K)
  unfolding run_rounds
  run n s k = let (now, k') = world.clock k in run_rounds n (started now s) k'

  -- These tasks are given to sendTask, in this order, and between them only the clock is read and
  -- reports are worked in.
  pub data Sent : Scheduler D → K → List (Task D) → Scheduler D → K → Type 0 where
    stops : {s : Scheduler D} {k : K} → Sent s k [] s k
    goes_on :
        {s s1 s2 : Scheduler D} {k k2 k3 : K} (ts us : List (Task D)) (mid : Scheduler D)
        (mm : MachineManager) (all : Bool) (k1 : K)
        → sends float world ts s.machines (world.clock k).1 ≡ some (mm, k1)
        → poll float world (record mid { machines = mm }) k1 ≡ some ((s1, all), k2)
        → Sent s1 k2 us s2 k3
        → Sent s k (ts ++ us) s2 k3

  -- What a part of the run does: these tasks are sent, and with those that were sent before, they are
  -- the tasks of the coflows that are registered now.
  pub record Sends (s : Scheduler D) (k : K) (s' : Scheduler D) (k' : K) : Type 0 where
    pub tasks : List (Task D)
    pub sent : Sent s k tasks s' k'
    pub phased : IsPhased float world s'
    pub same : orders float world s'.coflows ≡ orders float world s.coflows
    pub reached :
        tasks_until float world s'.register_index s.coflows
        ≡ tasks_until float world s.register_index s.coflows ++ tasks

  pub run_once-cases :
      (s : Scheduler D) (k : K) {r : (Scheduler D × Bool) × K}
      → run_once float world s k ≡ some r
      → (s2 : Scheduler D) × (k2 : K) × (launch float world
            (select_coflows (register_coflow float (world.clock k).0 s))
            (world.clock k).1
          ≡ some (s2, k2))
        × (poll float world s2 k2 ≡ some r)
  unfolding run_once
  run_once-cases s k h =
      elim (Option-cases (
        launch float world (select_coflows (register_coflow float (world.clock k).0 s))
          (world.clock k).1)) [
            | inl e ↦ ground (arith, e)
            | inr ((s2, k2), e) ↦ (s2, k2, e, ground (arith, e))
          ]

  -- A round is the first part of a run.
  pub round-Sends :
      (s : Scheduler D) (k : K) {s1 s' : Scheduler D} {all : Bool} {k1 k' : K}
      → IsPhased float world s
      → run_once float world s k ≡ some ((s1, all), k1)
      → (IsPhased float world s1 → Sends s1 k1 s' k')
      → Sends s k s' k'
  round-Sends s k {s1} {s'} {all} {k1} h e later =
      let (s2, k2, launches, polls) = run_once-cases s k e in
      let now = (world.clock k).0 in
      let (mm, sent, after) = launch-cases float world now s (world.clock k).1 h launches in
      let mid = after_launch float world now s mm in
      let polls1 : poll float world mid k2 ≡ some ((s1, all), k1) = rw (sym after) polls in
      let kept = poll-Kept float world mid k2 polls1 in
      let phased =
        Kept-IsPhased float world mid s1 kept (after_launch-IsPhased float world now s mm h) in
      let same =
        orders-frames float world mid.coflows s1.coflows kept.0
        ∙ after_launch-orders float world now s mm in
      let rest = later phased in
      let now_tasks = new_tasks float world now s in
      record {
        tasks = now_tasks ++ rest.tasks;
        sent = goes_on now_tasks rest.tasks mid mm all k2 sent polls1 rest.sent;
        phased = rest.phased;
        same = rest.same ∙ same;
        reached =
            sym (tasks_until-orders float world s'.register_index s.coflows s1.coflows same)
            ∙ rest.reached
            ∙ ap (◌++ rest.tasks) (
                tasks_until-orders float world s1.register_index s.coflows s1.coflows same
                ∙ ap (λ i. tasks_until float world i s.coflows) kept.1
                ∙ after_launch-reached float world now s mm h)
            ∙ append_assoc (tasks_until float world s.register_index s.coflows) now_tasks
                rest.tasks;
      }

  pub nothing-Sends : (s : Scheduler D) (k : K) → IsPhased float world s → Sends s k s k
  nothing-Sends s k h = record {
    tasks = [];
    sent = stops;
    phased = h;
    same = refl;
    reached = sym (append-nil (tasks_until float world s.register_index s.coflows));
  }

  run_rounds-Sends :
      (n : ℕ) (s : Scheduler D) (k : K) {s' : Scheduler D} {all : Bool} {k' : K}
      → IsPhased float world s
      → run_rounds n s k ≡ some ((s', all), k')
      → Sends s k s' k'
  unfolding run_rounds
  run_rounds-Sends zero s k {s'} {all} {k'} h e =
      let same : ◌≡◌ {A = (Scheduler D × Bool) × K} ((s, false), k) ((s', all), k') = cc in
      subst (λ r. Sends s k r.0.0 r.1) same (nothing-Sends s k h)
  run_rounds-Sends (suc n) s k {s'} {all} {k'} h e =
      elim (Option-cases (run_once float world s k)) [
        | inl e' ↦ ground (arith, e, e')
        | inr (((s1, stop), k1), e') ↦ round-Sends s k h e' (λ h1. elim (Bool-cases stop) [
          | inl ends ↦
              let same : ◌≡◌ {A = (Scheduler D × Bool) × K} ((s1, true), k1) ((s', all), k') =
                ground (arith, e, e', ends) in
              subst (λ r. Sends s1 k1 r.0.0 r.1) same (nothing-Sends s1 k1 h1)
          | inr more ↦
              run_rounds-Sends n s1 k1 {s' = s'} {all = all} {k' = k'} h1
                (ground (arith, e, e', more))
        ])
      ]

  -- From coflows that are all new, at whatever round run is looked at, and whatever the clients
  -- report: the tasks that were passed to sendTask are those of the flows of the first
  -- registerIndex coflows, each once and in order; these coflows are marked as launched, and the
  -- others are still unregistered.
  pub run-sends :
      (n : ℕ) (s : Scheduler D) (k : K) {s' : Scheduler D} {all : Bool} {k' : K}
      → s.register_index ≡ 0
      → AllAre unregister s.coflows
      → run n s k ≡ some ((s', all), k')
      → Sent
          (started (world.clock k).0 s)
          (world.clock k).1
          (tasks_until float world s'.register_index s.coflows)
          s'
          k'
        × AllAre runninged (take s'.register_index s'.coflows)
        × AllAre unregister (drop s'.register_index s'.coflows)
  unfolding run tasks_of_all
  run-sends n s k {s'} {all} {k'} index new e =
      let s0 = started (world.clock k).0 s in
      let h : IsPhased float world s0 = record {
        old = rw index tt;
        late = rw index new;
        fits = omega (arith, index);
      } in
      let out = run_rounds-Sends n s0 (world.clock k).1 h e in
      let all_tasks : tasks_until float world s'.register_index s.coflows ≡ out.tasks =
        out.reached ∙ ap (λ i. tasks_until float world i s.coflows ++ out.tasks) index in
      (
        subst (λ ts. Sent s0 (world.clock k).1 ts s' k') (sym all_tasks) out.sent,
        out.phased.old,
        out.phased.late,
      )
