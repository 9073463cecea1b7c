-- ===== src/Master/Scheduler/Phases.antt =====
-- The phases that the coflows are in over the rounds of `run`.
use coflow_sim_online.Master.Scheduler.Frames.{
  orders, tasks_until, tasks_until-add, orders-launched, AllAre-frames, length-frames,
}
use coflow_sim_online.Master.Scheduler.Register.{due_num, elapsed, register_coflow_lem}
use coflow_sim_online.Base.{
  All-append, All-append_right, List, Option-cases, [], ap, append_assoc, arith, drop,
  drop-length_append, inl, inr, length, length-append, length-take_le, map, map-append, map-drop,
  map-take, refl, some, subst, sym, take, take-drop, take-length_append, ℤ, ◌++◌, ◌+◌, ◌∙◌, ◌∷◌,
  ◌≡◌, ◌≤◌,
}
use coflow_sim_online.Master.Scheduler.Polling.{Kept, frame}
use coflow_sim_online.Common.Float.{Float}
use coflow_sim_online.Master.Coflow.{unregister, runninged, Coflow}
use coflow_sim_online.Master.Manager.{Task, MachineManager}
use coflow_sim_online.Master.Scheduler.{Scheduler, World, launch, select_coflows, register_coflow}
use coflow_sim_online.Master.Scheduler.Launch.{sends, tasks_of_all, launched}
use coflow_sim_online.Master.Scheduler.Round.{AllAre, round_launches, length-with_map}

module _ {D K : Type 0} (float : Float D) (world : World K) where
  -- The registered coflows have been launched, and the others are as they were made.
  pub record IsPhased (s : Scheduler D) : Type 0 where
    pub old : AllAre runninged (take s.register_index s.coflows)
    pub late : AllAre unregister (drop s.register_index s.coflows)
    pub fits : s.register_index ≤ length s.coflows

  -- The scheduler after a launch.
  abbrev pub after_launch : ℤ → Scheduler D → MachineManager → Scheduler D
  after_launch now s mm =
      let old = take s.register_index s.coflows in
      let late = drop s.register_index s.coflows in
      let n = due_num float (elapsed float now s) late in
      record s {
        coflows = (old ++ map (launched float world) (take n late)) ++ drop n late;
        register_index = length (old ++ map (launched float world) (take n late));
        machines = mm;
      }

  abbrev pub new_tasks : ℤ → Scheduler D → List (Task D)
  new_tasks now s =
      let late = drop s.register_index s.coflows in
      tasks_of_all float world (take (due_num float (elapsed float now s) late) late)

  pub launch-cases :
      (now : ℤ) (s : Scheduler D) (k : K) {s2 : Scheduler D} {k2 : K}
      → IsPhased s
      → launch float world (select_coflows (register_coflow float now s)) k ≡ some (s2, k2)
      → (mm : MachineManager) × (sends float world (new_tasks now s) s.machines k ≡ some (mm, k2))
        × (s2 ≡ after_launch now s mm)
  launch-cases now s k h e =
      let (law, _, _) =
        round_launches float world now s k (take s.register_index s.coflows)
          (drop s.register_index s.coflows) (take-drop s.register_index s.coflows)
          (sym (length-take_le s.register_index s.coflows h.fits)) h.old in
      elim (Option-cases (sends float world (new_tasks now s) s.machines k)) [
        | inl e' ↦ ground (arith, e, law, e')
        | inr ((mm, k1), e') ↦ (mm, ground (arith, e, law, e'), ground (arith, e, law, e'))
      ]

  due_num-le :
      (now : ℤ) (s : Scheduler D)
      → IsPhased s
      → due_num float (elapsed float now s) (drop s.register_index s.coflows)
        ≤ length (drop s.register_index s.coflows)
  due_num-le now s h =
      (register_coflow_lem float now s (take s.register_index s.coflows)
        (drop s.register_index s.coflows) (take-drop s.register_index s.coflows)
        (sym (length-take_le s.register_index s.coflows h.fits))).3

  launched-runninged : (cos : List (Coflow D)) → AllAre runninged (map (launched float world) cos)
  launched-runninged [] = tt
  launched-runninged (co ∷ cos) = (refl, launched-runninged cos)

  pub after_launch-IsPhased :
      (now : ℤ) (s : Scheduler D) (mm : MachineManager)
      → IsPhased s
      → IsPhased (after_launch now s mm)
  after_launch-IsPhased now s mm h =
      let old = take s.register_index s.coflows in
      let late = drop s.register_index s.coflows in
      let n = due_num float (elapsed float now s) late in
      let front = old ++ map (launched float world) (take n late) in
      record {
        old = rw (take-length_append front (drop n late)) (
            All-append (λ co. co.coflow_state ≡ runninged) old
              (map (launched float world) (take n late)) h.old (launched-runninged (take n late)));
        late = rw (drop-length_append front (drop n late)) (
            All-append_right (λ co. co.coflow_state ≡ unregister) (take n late) (drop n late)
              (subst (AllAre unregister) (take-drop n late) h.late));
        fits = omega (arith, length-append front (drop n late));
      }

  orders_between :
      (old new rest : List (Coflow D))
      → orders float world ((old ++ map (launched float world) new) ++ rest)
        ≡ orders float world (old ++ (new ++ rest))
  orders_between old new rest = simp (map-append, orders-launched float world, append_assoc)

  pub after_launch-orders :
      (now : ℤ) (s : Scheduler D) (mm : MachineManager)
      → orders float world (after_launch now s mm).coflows ≡ orders float world s.coflows
  after_launch-orders now s mm =
      let i = s.register_index in
      let late = drop i s.coflows in
      let n = due_num float (elapsed float now s) late in
      orders_between (take i s.coflows) (take n late) (drop n late)
      ∙ ap (λ cos. orders float world (take i s.coflows ++ cos)) (sym (take-drop n late))
      ∙ ap (orders float world) (sym (take-drop i s.coflows))

  pub after_launch-reached :
      (now : ℤ) (s : Scheduler D) (mm : MachineManager)
      → IsPhased s
      → tasks_until float world (after_launch now s mm).register_index s.coflows
        ≡ tasks_until float world s.register_index s.coflows ++ new_tasks now s
  after_launch-reached now s mm h =
      let i = s.register_index in
      let late = drop i s.coflows in
      let n = due_num float (elapsed float now s) late in
      let size : (after_launch now s mm).register_index ≡ i + n = omega (
        arith,
        length-with_map (launched float world) (take i s.coflows) (take n late),
        length-take_le i s.coflows h.fits,
        length-take_le n late (due_num-le now s h),
      ) in
      rw size (tasks_until-add float world i n s.coflows)

  pub Kept-IsPhased : (s s' : Scheduler D) → Kept float world s s' → IsPhased s → IsPhased s'
  Kept-IsPhased s s' (same, index) h =
      let i = s.register_index in
      record {
        old = rw index (
            AllAre-frames float world runninged (take i s.coflows) (take i s'.coflows)
              (map-take (frame float world) i s'.coflows
                ∙ ap (take i) same
                ∙ sym (map-take (frame float world) i s.coflows))
              h.old);
        late = rw index (
            AllAre-frames float world unregister (drop i s.coflows) (drop i s'.coflows)
              (map-drop (frame float world) i s'.coflows
                ∙ ap (drop i) same
                ∙ sym (map-drop (frame float world) i s.coflows))
              h.late);
        fits = omega (arith, h.fits, index, length-frames float world s.coflows s'.coflows same);
      }
