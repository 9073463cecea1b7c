-- ===== src/Master/Scheduler/Reported.antt =====
-- The whole `run`: which flows have ended after any number of its rounds.
use coflow_sim_online.Base.{
  All-everywhere, Bool, Bool-cases, List, Option-cases, [], ap, arith, false, flatten, inl, inr,
  joins, joins_assoc, refl, some, subst, suc, sym, true, zero, ℕ, ℤ, ◌++◌, ◌||◌, ◌∙◌, ◌≡◌,
}
use mathlib.Core.Option
use coflow_sim_online.Master.Scheduler.Told.{
  names_any-joins, fds-reading, Comings-reading, RunTold, poll-RunTold,
}
use coflow_sim_online.Master.Scheduler.Ended.{
  Ends-trans, Ends-same, Ends-nil, names_any, names_any-append,
}
use coflow_sim_online.Master.Scheduler.Run.{run_rounds, run_once-cases, round-Sends, nothing-Sends}
use coflow_sim_online.Master.Scheduler.Machines.{Comings-kept, fds, AreApart, read_infos, Comings}
use coflow_sim_online.Master.Scheduler.Phases.{IsPhased, after_launch, launch-cases, new_tasks}
use coflow_sim_online.Text.{Bytes}
use coflow_sim_online.Master.Scheduler.{World, Scheduler, poll, Float, run_once}
use coflow_sim_online.Master.Scheduler.Incoming.{Incoming}
use coflow_sim_online.Master.Scheduler.Reading.{sends-SameReading, has_ended-after_launch}

module _ {D K : Type 0} (float : Float D) (world : World K) (incoming : Incoming world) where
  open incoming use {rest}

  run_once-RunTold :
      (bss : List (List Bytes)) (s : Scheduler D) (k : K) {r : (Scheduler D × Bool) × K}
      → IsPhased float world s
      → Comings float world incoming bss s.machines.physics_machines k
      → AreApart (fds s.machines.physics_machines)
      → run_once float world s k ≡ some r
      → RunTold float world incoming bss s k r × IsPhased float world r.0.0
  run_once-RunTold bss s k {r} phased h apart e =
      let (s2, k2, launches, polls) = run_once-cases float world s k e in
      let now = (world.clock k).0 in
      let k1 = (world.clock k).1 in
      let (mm, sent, after) = launch-cases float world now s k1 phased launches in
      let mid = after_launch float world now s mm in
      let (reads, keeps) =
        sends-SameReading world incoming float (new_tasks float world now s) s.machines k1 sent in
      let kept = λ (fd : ℤ). keeps fd ∙ incoming.clock_rest fd k in
      let same_fds = fds-reading s.machines.physics_machines mm.physics_machines reads in
      let comings =
        Comings-kept float world incoming bss mm.physics_machines k k2
          (All-everywhere (λ fd. rest fd k2 ≡ rest fd k) (fds mm.physics_machines) kept)
          (Comings-reading float world incoming bss s.machines.physics_machines mm.physics_machines
            k reads h) in
      let (takens, lefts, parts, ended, next) =
        poll-RunTold float world incoming bss mid k2 {r = r} comings
          (subst AreApart (sym same_fds) apart)
          (subst (λ s. poll float world s k2 ≡ some r) after polls) in
      (
        (
          takens,
          lefts,
          parts,
          λ coflow flow.
              ended coflow flow
              ∙ ap (Option.map (λ b. b || names_any coflow flow (flatten takens)))
                  (has_ended-after_launch float world coflow flow now s mm),
          λ more.
              let (laters, lefts_are, later, fds_are) = next more in
              (laters, lefts_are, later, fds_are ∙ same_fds),
        ),
        (round-Sends float world s k {s1 = r.0.0} {s' = r.0.0} {all = r.0.1} {k1 = r.1} {k' = r.1}
            phased e (λ phased'. nothing-Sends float world r.0.0 r.1 phased')).phased,
      )

  RunTold-trans :
      (bss : List (List Bytes)) (s s1 : Scheduler D) (k k1 : K) (r : (Scheduler D × Bool) × K)
      → RunTold float world incoming bss s k ((s1, false), k1)
      → ((laters : List (List Bytes))
          → Comings float world incoming laters s1.machines.physics_machines k1
          → fds s1.machines.physics_machines ≡ fds s.machines.physics_machines
          → RunTold float world incoming laters s1 k1 r)
      → RunTold float world incoming bss s k r
  RunTold-trans bss s s1 k k1 r (takens, lefts, parts, ended, next) go =
      let (laters, lefts_are, comings, fds_are) = next refl in
      let (takens', lefts', parts', ended', next') = go laters comings fds_are in
      (
        joins takens takens',
        lefts',
        parts ∙ ap (joins takens) (lefts_are ∙ parts') ∙ sym (joins_assoc takens takens' lefts'),
        Ends-same (flatten takens ++ flatten takens') (flatten (joins takens takens')) s r.0.0
            (λ coflow flow.
              names_any-append coflow flow (flatten takens) (flatten takens')
              ∙ sym (names_any-joins coflow flow takens takens'))
            (Ends-trans (flatten takens) (flatten takens') s s1 r.0.0 ended ended'),
        λ more.
            let (laters', lefts_are', comings', fds_are') = next' more in
            (laters', lefts_are', comings', fds_are' ∙ fds_are),
      )

  -- After any number of rounds.
  pub run_rounds-RunTold :
      (n : ℕ) (bss : List (List Bytes)) (s : Scheduler D) (k : K) {r : (Scheduler D × Bool) × K}
      → IsPhased float world s
      → Comings float world incoming bss s.machines.physics_machines k
      → AreApart (fds s.machines.physics_machines)
      → run_rounds float world n s k ≡ some r
      → RunTold float world incoming bss s k r
  unfolding run_rounds
  run_rounds-RunTold zero bss s k {r} phased h apart e =
      let same : ◌≡◌ {A = (Scheduler D × Bool) × K} ((s, false), k) r = cc in
      subst (RunTold float world incoming bss s k) same
        ([], read_infos bss, refl, unfold flatten in Ends-nil s, λ _. (bss, refl, h, refl))
  run_rounds-RunTold (suc n) bss s k {r} phased h apart e =
      elim (Option-cases (run_once float world s k)) [
        | inl e' ↦ ground (arith, e, e')
        | inr (((s1, stop), k1), e') ↦
            let (told, phased1) = run_once-RunTold bss s k phased h apart e' in
            elim (Bool-cases stop) [
              | inl ends ↦
                  let out : ◌≡◌ {A = (Scheduler D × Bool) × K} ((s1, true), k1) r =
                    ground (arith, e, e', ends) in
                  let (takens, lefts, parts, ended, _) = told in
                  subst (RunTold float world incoming bss s k) out
                    (takens, lefts, parts, ended, λ more. cc)
              | inr more ↦
                  RunTold-trans bss s s1 k k1 r
                    (subst (λ b. RunTold float world incoming bss s k ((s1, b), k1)) more told)
                    (λ laters comings fds_are.
                      run_rounds-RunTold n laters s1 k1 {r = r} phased1 comings
                        (subst AreApart (sym fds_are) apart) (ground (arith, e, e', more)))
            ]
      ]
