-- ===== src/Master/Scheduler/Drain.antt =====
-- All the reports that one machine has queued.
use coflow_sim_online.Base.{
  Bool, Bool-cases, List, Option-cases, [], ap, arith, false, inl, inr, length, refl, subst, sym,
  true, ◌<◌, ◌↔◌, ◌∙◌, ◌∷◌, ◌≡◌,
}
use coflow_sim_online.Common.Float.{Float}
use coflow_sim_online.Master.Coflow.{Coflow}
use coflow_sim_online.Master.Machine.{FlowEndInfo}
use coflow_sim_online.Master.Scheduler.{Scheduler, World, end_in, report_one, drain}
use coflow_sim_online.Master.Scheduler.Finish.{
  Expects, IsCounted, finished_num, end_in_lem, report_one-IsCounted, finished_num-le,
}

-- Each of these reports is about an open flow when its turn comes.
abbrev pub ExpectsAll : {D : Type 0} → List FlowEndInfo → List (Coflow D) → Type 0
ExpectsAll [] cos = Unit
ExpectsAll (info ∷ infos) cos = Expects info cos × ExpectsAll infos (end_in info cos).0

module _ {D K : Type 0} (float : Float D) (world : World K) where
  pub report_one-coflows :
      (info : FlowEndInfo) (s : Scheduler D) (k : K)
      → (report_one float world info s k).0.0.coflows ≡ (end_in info s.coflows).0
  unfolding report_one
  report_one-coflows info s k = elim (Option-cases (end_in info s.coflows).1) [
    | inl e ↦ rw (e, report_one)
    | inr (co, e) ↦ rw (e, report_one)
  ]

  -- The state after some reports, and whether `run` returns.
  abbrev pub Drained : Scheduler D → (List FlowEndInfo × Scheduler D × Bool) → Type 0
  Drained s r =
      IsCounted r.1
      × (length r.1.coflows ≡ length s.coflows)
      × ((r.2 ≡ true) ↔ (finished_num r.1.coflows ≡ length s.coflows))
      × (r.2 ≡ false → r.0 ≡ [])

  pub drain_stops :
      (info : FlowEndInfo) (infos : List FlowEndInfo) (s : Scheduler D) (k : K)
      → (report_one float world info s k).0.1 ≡ true
      → drain float world (info ∷ infos) s k ≡ (
        (infos, (report_one float world info s k).0.0, true),
        (report_one float world info s k).1,
      )
  unfolding drain
  drain_stops info infos s k e = rw e

  pub drain_goes_on :
      (info : FlowEndInfo) (infos : List FlowEndInfo) (s : Scheduler D) (k : K)
      → (report_one float world info s k).0.1 ≡ false
      → drain float world (info ∷ infos) s k
        ≡ drain float world infos
            (report_one float world info s k).0.0
            (report_one float world info s k).1
  unfolding drain
  drain_goes_on info infos s k e = rw e

  -- Reports of open flows that come while some coflow is unfinished and the counts of ended
  -- flows and of finished coflows are right: all of them are worked off, or run returns in
  -- between; it returns exactly if then no coflow has an open flow any more, and these counts
  -- are right in the end.
  pub drain-Drained :
      (infos : List FlowEndInfo) (s : Scheduler D) (k : K)
      → IsCounted s
      → ExpectsAll infos s.coflows
      → finished_num s.coflows < length s.coflows
      → Drained s (drain float world infos s k).0
  drain-Drained [] s k counted h open_ =
      unfold drain in (counted, refl, (λ e. cc, λ e. absurd (omega (arith, e, open_))), λ e. refl)
  drain-Drained (info ∷ infos) s k counted (now, later) open_ =
      let r = report_one float world info s k in
      let (counted', done) = report_one-IsCounted float world info s k counted now in
      let same = report_one-coflows info s k in
      let size : length r.0.0.coflows ≡ length s.coflows =
        ap length same ∙ (end_in_lem info s.coflows now counted.0).1 in
      elim (Bool-cases r.0.1) [
        | inl stops ↦
            rw (drain_stops info infos s k stops)
              (counted', size, (λ e. done.0 stops, λ e. refl), λ e. cc)
        | inr goes_on ↦
            let rest =
              drain-Drained infos r.0.0 r.1 counted' (subst (ExpectsAll infos) (sym same) later)
                (ground (arith, finished_num-le r.0.0.coflows, size, done, goes_on)) in
            rw (drain_goes_on info infos s k goes_on) (
              rest.0,
              rest.1 ∙ size,
              (λ e. rest.2.0 e ∙ size, λ e. rest.2.1 (e ∙ sym size)),
              rest.3,
            )
      ]
