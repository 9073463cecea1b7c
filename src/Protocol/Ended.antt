-- ===== src/Protocol/Ended.antt =====
-- From SendManager::run of the clients to the flows that Scheduler::run ends.
mod Tests
use coflow_sim_online.Text.{Bytes}
use coflow_sim_online.Master.Scheduler.Told.{or_false, RunTold, names_any-joins}
use coflow_sim_online.Base.{
  All, All-everywhere, Bool, Bool-cases, List, [], ap, arith, flatten, inl, inr, joins, map, none,
  refl, some, subst, sym, true, ℕ, ◌∙◌, ◌∷◌, ◌≡◌, ◌⊎◌,
}
use coflow_sim_online.Common.Float.{Float}
use coflow_sim_online.Client.Senders.{SendTask}
use coflow_sim_online.Client.Senders.Rounds.{report_body}
use coflow_sim_online.Master.Coflow.{unregister}
use coflow_sim_online.Master.Machine.{Machine, FlowEndInfo}
use coflow_sim_online.Master.Scheduler.{World, Scheduler}
use coflow_sim_online.Master.Scheduler.Round.{AllAre}
use coflow_sim_online.Master.Scheduler.Run.{run, started}
use coflow_sim_online.Master.Scheduler.Phases.{IsPhased}
use coflow_sim_online.Master.Scheduler.Ended.{Ends, Ends-same, names_any}
use coflow_sim_online.Master.Scheduler.Incoming.{Incoming}
use coflow_sim_online.Master.Scheduler.Machines.{fds, AreApart, read_infos, Comings, Comings-kept}
use coflow_sim_online.Master.Scheduler.Reported.{run_rounds-RunTold}
use coflow_sim_online.Protocol.Reports.{
  IsReportable, info_of, read_infos_of, reports-IsBody, reports-IsText,
}
use coflow_sim_online.Wire.{wire, feed}
use coflow_sim_online.Wire.Split.{feed-wire, feed-nil}

module _ {D K : Type 0} (float : Float D) (world : World K) (incoming : Incoming world) where
  open incoming use {rest}

  -- Nothing has been read from any machine yet, and to each are to come just the reports of the
  -- tasks of its client, whose ids and times are int values.
  abbrev pub Starts : List (List (SendTask D)) → List Machine → K → Type 0
  Starts [] [] k = Unit
  Starts (ts ∷ tss) (m ∷ ms) k =
      (All IsReportable ts
        × (m.tmprecv ≡ [])
        × (m.socket.recv_buf ≡ [])
        × (m.flows_finished_info ≡ [])
        × (rest m.socket.sockfd k ≡ wire (map report_body ts)))
      × Starts tss ms k
  Starts _ _ _ = ⊥

  abbrev pub infos_of : List (List (SendTask D)) → List (List FlowEndInfo)
  infos_of = map (map info_of)

  abbrev bodies_of : List (List (SendTask D)) → List (List Bytes)
  bodies_of = map (map report_body)

  Starts-Comings :
      (tss : List (List (SendTask D))) (ms : List Machine) (k : K)
      → Starts tss ms k
      → Comings float world incoming (bodies_of tss) ms k
  Starts-Comings [] [] k h = tt
  Starts-Comings [] (m ∷ ms) k h = absurd h
  Starts-Comings (ts ∷ tss) [] k h = absurd h
  Starts-Comings (ts ∷ tss) (m ∷ ms) k ((_, held, clear, empty, brought), hs) = (
    (
      reports-IsText ts,
      (
        none,
        (tt, held, clear, empty),
        ap (feed none) brought ∙ feed-wire (map report_body ts) (reports-IsBody ts),
      ),
    ),
    Starts-Comings tss ms k hs,
  )

  Starts-read_infos :
      (tss : List (List (SendTask D))) (ms : List Machine) (k : K)
      → Starts tss ms k
      → read_infos (bodies_of tss) ≡ infos_of tss
  Starts-read_infos [] [] k h = refl
  Starts-read_infos [] (m ∷ ms) k h = absurd h
  Starts-read_infos (ts ∷ tss) [] k h = absurd h
  Starts-read_infos (ts ∷ tss) (m ∷ ms) k ((reportable, _, _, _, _), hs) =
      ground (arith, read_infos_of ts reportable, Starts-read_infos tss ms k hs)

  Comings-done :
      (laters : List (List Bytes)) (ms : List Machine) (k : K)
      → Comings float world incoming laters ms k
      → All (λ fd. rest fd k ≡ []) (fds ms)
      → flatten (read_infos laters) ≡ []
  unfolding flatten
  Comings-done [] [] k h gone = refl
  Comings-done [] (m ∷ ms) k h gone = absurd h
  Comings-done (later ∷ laters) [] k h gone = absurd h
  Comings-done (later ∷ laters) (m ∷ ms) k ((_, (st, _, coming)), hs) (none_left, gone) =
      ground (
        arith,
        feed-nil st (ap (feed st) (sym none_left) ∙ coming),
        Comings-done laters ms k hs gone,
      )

  run-RunTold :
      (tss : List (List (SendTask D))) (n : ℕ) (s : Scheduler D) (k : K)
      {r : (Scheduler D × Bool) × K}
      → s.register_index ≡ 0
      → AllAre unregister s.coflows
      → Starts tss s.machines.physics_machines k
      → AreApart (fds s.machines.physics_machines)
      → run float world n s k ≡ some r
      → RunTold float world incoming
          (bodies_of tss)
          (started float world (world.clock k).0 s)
          (world.clock k).1
          r
  unfolding run
  run-RunTold tss n s k {r} index new starts apart e =
      let s0 = started float world (world.clock k).0 s in
      let phased : IsPhased float world s0 = record {
        old = rw index tt;
        late = rw index new;
        fits = omega (arith, index);
      } in
      run_rounds-RunTold float world incoming n (bodies_of tss) s0 (world.clock k).1 {r = r} phased
        (Comings-kept float world incoming (bodies_of tss) s.machines.physics_machines k
          (world.clock k).1
          (All-everywhere (λ fd. rest fd (world.clock k).1 ≡ rest fd k)
            (fds s.machines.physics_machines) (λ fd. incoming.clock_rest fd k))
          (Starts-Comings tss s.machines.physics_machines k starts))
        apart e

  -- From coflows that are all new, and machines from which nothing has been read, each with a
  -- descriptor of its own, on which just the reports of some tasks of its client are to come,
  -- with int values as ids and times: at whatever round run is looked at, exactly those flows
  -- have ended that had ended before or are named by the reports that have been worked off, and
  -- these are, for each client, some first of its reports. The premise on the kernel is that an
  -- index that is not set compares as below one that is.
  pub run-Ends :
      (tss : List (List (SendTask D))) (n : ℕ) (s : Scheduler D) (k : K) {s' : Scheduler D}
      {all : Bool} {k' : K}
      → s.register_index ≡ 0
      → AllAre unregister s.coflows
      → Starts tss s.machines.physics_machines k
      → AreApart (fds s.machines.physics_machines)
      → run float world n s k ≡ some ((s', all), k')
      → (takens : List (List FlowEndInfo)) × (lefts : List (List FlowEndInfo)) × (infos_of tss
          ≡ joins takens lefts)
        × Ends (flatten takens) s s'
  run-Ends tss n s k {s'} {all} {k'} index new starts apart e =
      let (takens, lefts, parts, ended, _) =
        run-RunTold tss n s k {r = ((s', all), k')} index new starts apart e in
      (
        takens,
        lefts,
        sym (Starts-read_infos tss s.machines.physics_machines k starts) ∙ parts,
        ended,
      )

  -- From coflows that are all new, and machines from which nothing has been read, each with a
  -- descriptor of its own, on which just the reports of some tasks of its client are to come,
  -- with int values as ids and times: after any rounds of run behind which nothing is left to
  -- come on these descriptors, run has returned, or exactly those flows have ended that had
  -- ended before or are named by one of the reports. The premise on the kernel is that an index
  -- that is not set compares as below one that is.
  pub run-Ends_finally :
      (tss : List (List (SendTask D))) (n : ℕ) (s : Scheduler D) (k : K) {s' : Scheduler D}
      {all : Bool} {k' : K}
      → s.register_index ≡ 0
      → AllAre unregister s.coflows
      → Starts tss s.machines.physics_machines k
      → AreApart (fds s.machines.physics_machines)
      → run float world n s k ≡ some ((s', all), k')
      → All (λ fd. rest fd k' ≡ []) (fds s.machines.physics_machines)
      → (all ≡ true) ⊎ Ends (flatten (infos_of tss)) s s'
  run-Ends_finally tss n s k {s'} {all} {k'} index new starts apart e gone =
      let ms = s.machines.physics_machines in
      let (takens, lefts, parts, ended, next) =
        run-RunTold tss n s k {r = ((s', all), k')} index new starts apart e in
      elim (Bool-cases all) [
        | inl returned ↦ inl returned
        | inr more ↦
            let (laters, lefts_are, comings, fds_are) = next more in
            let none_left : flatten lefts ≡ [] =
              ap flatten lefts_are
              ∙ Comings-done laters s'.machines.physics_machines k' comings
                  (subst (All (λ fd. rest fd k' ≡ [])) (sym fds_are) gone) in
            let whole : infos_of tss ≡ joins takens lefts =
              sym (Starts-read_infos tss ms k starts) ∙ parts in
            inr (
              Ends-same (flatten takens) (flatten (infos_of tss)) s s'
                (λ coflow flow.
                  rw (whole, names_any-joins coflow flow takens lefts, none_left)
                    (or_false (names_any coflow flow (flatten takens))))
                ended)
      ]
