-- ===== src/Master/Scheduler/Round.antt =====
-- A whole round up to the reports: register, select and launch.
use coflow_sim_online.Master.Scheduler.Register.{
  due_num, elapsed, IsDue, StartsLate, register_coflow_lem,
}
use coflow_sim_online.Master.Scheduler.Launch.{tasks_of_all, launched, sends, launch_coflows-sends}
use coflow_sim_online.Base.{
  All, List, Option-cases, [], ap, append_assoc, arith, drop, drop-length_append, inl, inr, length,
  length-append, length-map, length-take_le, map, map-append, refl, some, sym, take,
  take-length_append, ℤ, ◌++◌, ◌+◌, ◌>>=◌, ◌∷◌, ◌≡◌,
}
use coflow_sim_online.Master.Coflow.{
  Coflow, CoflowState, registed, running, runninged, set_coflow_state,
}
use coflow_sim_online.Master.Scheduler.{
  Scheduler, select_coflow, select_coflows, Float, World, launch, register_coflow,
}

module _ {D : Type 0} where
  abbrev pub AllAre : CoflowState → List (Coflow D) → Type 0
  AllAre st = All (λ co. co.coflow_state ≡ st)

  select-old : (old : List (Coflow D)) → AllAre runninged old → map select_coflow old ≡ old
  unfolding select_coflow
  select-old [] h = refl
  select-old (co ∷ old) (h, hs) = ground (arith, select-old old hs)

  select-new :
      (new : List (Coflow D))
      → map select_coflow (map (set_coflow_state registed) new) ≡ map (set_coflow_state running) new
  unfolding select_coflow
  select-new [] = refl
  select-new (co ∷ new) = ap (◌∷◌ (set_coflow_state running co)) (select-new new)

  new-running : (new : List (Coflow D)) → AllAre running (map (set_coflow_state running) new)
  new-running [] = tt
  new-running (co ∷ new) = (refl, new-running new)

  -- The selection, on coflows that are launched, registered now, or not yet registered.
  select_coflows_lem :
      (s : Scheduler D) (old new rest : List (Coflow D))
      → AllAre runninged old
      → s.coflows ≡ (old ++ map (set_coflow_state registed) new) ++ rest
      → s.register_index ≡ length (old ++ map (set_coflow_state registed) new)
      → select_coflows s
        ≡ record s { coflows = (old ++ map (set_coflow_state running) new) ++ rest }
  unfolding select_coflows
  select_coflows_lem s old new rest h e i =
      let front = old ++ map (set_coflow_state registed) new in
      let part1 : take s.register_index s.coflows ≡ front =
        rw (i, e) (take-length_append front rest) in
      let part2 : drop s.register_index s.coflows ≡ rest =
        rw (i, e) (drop-length_append front rest) in
      ground (
        arith,
        part1,
        part2,
        map-append select_coflow old (map (set_coflow_state registed) new),
        select-old old h,
        select-new new,
      )

pub length-with_map :
    {D : Type 0} (f : Coflow D → Coflow D) (old new : List (Coflow D))
    → length (old ++ map f new) ≡ length old + length new
length-with_map f old new = omega (arith, length-append old (map f new), length-map f new)

module _ {D K : Type 0} (float : Float D) (world : World K) where
  tasks_of_all-running :
      (new : List (Coflow D))
      → tasks_of_all float world (map (set_coflow_state running) new) ≡ tasks_of_all float world new
  unfolding tasks_of_all
  tasks_of_all-running [] = refl
  tasks_of_all-running (co ∷ new) = rw (tasks_of_all-running new)

  launched-running :
      (new : List (Coflow D))
      → map (launched float world) (map (set_coflow_state running) new)
        ≡ map (launched float world) new
  launched-running [] = refl
  launched-running (co ∷ new) = ap (◌∷◌ (launched float world co)) (launched-running new)

  launch_lem :
      (s : Scheduler D) (k : K) (old new rest : List (Coflow D))
      → AllAre runninged old
      → s.coflows ≡ (old ++ map (set_coflow_state running) new) ++ rest
      → s.register_index ≡ length (old ++ map (set_coflow_state running) new)
      → launch float world s k ≡ (
          sends float world (tasks_of_all float world new) s.machines k >>= λ r. some (
            record s { coflows = (old ++ map (launched float world) new) ++ rest; machines = r.0 },
            r.1,
          ))
  unfolding launch
  launch_lem s k old new rest h e i =
      let front = old ++ map (set_coflow_state running) new in
      let part1 : take s.register_index s.coflows ≡ front =
        rw (i, e) (take-length_append front rest) in
      let part2 : drop s.register_index s.coflows ≡ rest =
        rw (i, e) (drop-length_append front rest) in
      let sent =
        launch_coflows-sends float world old (map (set_coflow_state running) new) s.machines k h
          (new-running new) in
      elim (Option-cases (sends float world (tasks_of_all float world new) s.machines k)) [
        | inl e' ↦ ground (arith, part1, part2, sent, e', tasks_of_all-running new)
        | inr (r, e') ↦
            ground (arith, part1, part2, sent, e', tasks_of_all-running new, launched-running new)
      ]

  -- In a round on coflows of which the registered ones have been launched, the coflows that are
  -- due, up to the first that is not, are new: each of their flows is sent once, in order and at
  -- full speed, and no other; the new coflows are launched then, and the others are left alone.
  pub round_launches :
      (now : ℤ) (s : Scheduler D) (k : K) (old late : List (Coflow D))
      → s.coflows ≡ old ++ late
      → s.register_index ≡ length old
      → AllAre runninged old
      → let n = due_num float (elapsed float now s) late in
        let new = take n late in
        (launch float world (select_coflows (register_coflow float now s)) k ≡ (
          sends float world (tasks_of_all float world new) s.machines k >>= λ r. some (
            record s {
              coflows = (old ++ map (launched float world) new) ++ drop n late;
              register_index = length (old ++ map (launched float world) new);
              machines = r.0;
            },
            r.1,
          )))
        × All (IsDue float (elapsed float now s)) new
        × StartsLate float (elapsed float now s) (drop n late)
  round_launches now s k old late e i h =
      let n = due_num float (elapsed float now s) late in
      let new = take n late in
      let rest = drop n late in
      let (registers, due, stops, fits) = register_coflow_lem float now s old late e i in
      let count = length-take_le n late fits in
      let s1 = record s {
        coflows = old ++ (map (set_coflow_state registed) new ++ rest);
        register_index = length old + n;
      } in
      let s2 = record s1 { coflows = (old ++ map (set_coflow_state running) new) ++ rest } in
      let selects : select_coflows s1 ≡ s2 =
        select_coflows_lem s1 old new rest h
          (sym (append_assoc old (map (set_coflow_state registed) new) rest))
          (omega (arith, length-with_map (set_coflow_state registed) old new, count)) in
      let launches =
        launch_lem s2 k old new rest h refl
          (omega (arith, length-with_map (set_coflow_state running) old new, count)) in
      let size : length (old ++ map (launched float world) new) ≡ length old + n =
        omega (arith, length-with_map (launched float world) old new, count) in
      (rw (registers, selects, size) launches, due, stops)
