-- ===== src/Master/Scheduler/Ended.antt =====
-- The abstract view of the reports: which flows have ended, as a set of flows to which each report adds one.
use coflow_sim_online.Master.Coflow.Marking.{flow_ended, flow_ended-flow_end}
use coflow_sim_online.Master.Scheduler.Drain.{report_one-coflows, drain_stops, drain_goes_on}
use coflow_sim_online.Base.{
  ==ℤ_iff, Bool, Bool-cases, List, Option, Option-cases, [], ap, arith, false, if◌then◌else◌, inl,
  inr, none, refl, some, sym, true, ℤ, ◌&&◌, ◌++◌, ◌==ℤ◌, ◌||◌, ◌∙◌, ◌∷◌, ◌≡◌,
}
use mathlib.Core.Option
use coflow_sim_online.Master.Coflow.{Coflow, find_flow, flow_end}
use coflow_sim_online.Master.Machine.{FlowEndInfo}
use coflow_sim_online.Master.Scheduler.{report_one, drain, end_in, Float, World, Scheduler}

-- The report is about this flow of this coflow.
abbrev pub names : ℤ → ℤ → FlowEndInfo → Bool
names coflow flow info = (coflow ==ℤ info.coflow_id) && (flow ==ℤ info.flow_id)

abbrev pub names_any : ℤ → ℤ → List FlowEndInfo → Bool
names_any coflow flow [] = false
names_any coflow flow (info ∷ infos) = names coflow flow info || names_any coflow flow infos

map-false : (o : Option Bool) → Option.map (λ b. b || false) o ≡ o
map-false none = refl
map-false (some true) = refl
map-false (some false) = refl

same : (a b c : ℤ) → (a ==ℤ b) ≡ true → (b ==ℤ c) ≡ true → (a ==ℤ c) ≡ true
same a b c h h' = ground (arith, ==ℤ_iff a b, ==ℤ_iff b c, ==ℤ_iff a c)

==ℤ-left : (b c a : ℤ) → (b ==ℤ c) ≡ true → (a ==ℤ b) ≡ false → (a ==ℤ c) ≡ false
==ℤ-left b c a h ne = ground (arith, ==ℤ_iff a b, ==ℤ_iff b c, ==ℤ_iff a c)

==ℤ-right : (a b c : ℤ) → (a ==ℤ b) ≡ true → (b ==ℤ c) ≡ false → (a ==ℤ c) ≡ false
==ℤ-right a b c h ne = ground (arith, ==ℤ_iff a b, ==ℤ_iff b c, ==ℤ_iff a c)

module _ {D : Type 0} where
  abbrev pub has_ended : ℤ → ℤ → List (Coflow D) → Option Bool
  has_ended coflow flow [] = none
  has_ended coflow flow (co ∷ cos) =
      if coflow ==ℤ co.coflow_id
      then flow_ended flow co.flow_collection
      else has_ended coflow flow cos

  flow_end-id : (id time : ℤ) (co : Coflow D) → (flow_end id time co).0.coflow_id ≡ co.coflow_id
  unfolding flow_end
  flow_end-id id time co = elim (Option-cases (find_flow id co.flow_collection)) [
    | inl e ↦ ground (arith, e)
    | inr (f, e) ↦ ground (arith, e)
  ]

  has_ended-end_in :
      (coflow flow : ℤ) (info : FlowEndInfo) (cos : List (Coflow D))
      → has_ended coflow flow (end_in info cos).0
        ≡ Option.map (λ b. b || names coflow flow info) (has_ended coflow flow cos)
  unfolding end_in
  has_ended-end_in coflow flow info [] = refl
  has_ended-end_in coflow flow info (co ∷ cos) =
      let own = flow_ended-flow_end flow info.flow_id info.end_time co in
      let id = flow_end-id info.flow_id info.end_time co in
      elim (Bool-cases (co.coflow_id ==ℤ info.coflow_id)) [
        | inl here ↦ elim (Bool-cases (coflow ==ℤ co.coflow_id)) [
          | inl asked ↦ rw (here, id, asked, same coflow co.coflow_id info.coflow_id asked here) own
          | inr other ↦
              rw (here, id, other, ==ℤ-left co.coflow_id info.coflow_id coflow here other)
                (sym (map-false (has_ended coflow flow cos)))
        ]
        | inr there ↦ elim (Bool-cases (coflow ==ℤ co.coflow_id)) [
          | inl asked ↦
              rw (there, asked, ==ℤ-right coflow co.coflow_id info.coflow_id asked there)
                (sym (map-false (flow_ended flow co.flow_collection)))
          | inr other ↦ rw (there, other) (has_ended-end_in coflow flow info cos)
        ]
      ]

or_false : (x : Bool) → x ≡ x || false
or_false true = refl
or_false false = refl

map_or :
    (x y : Bool) (o : Option Bool)
    → Option.map (λ b. b || y) (Option.map (λ b. b || x) o) ≡ Option.map (λ b. b || (x || y)) o
map_or x y none = refl
map_or x y (some true) = refl
map_or x y (some false) = refl

module _ {D K : Type 0} (float : Float D) (world : World K) where
  -- The reports that have been worked off, with those that are left.
  abbrev pub WorkedOff :
      List FlowEndInfo → Scheduler D → (List FlowEndInfo × Scheduler D × Bool) → Type 0
  WorkedOff infos s r =
      (taken : List FlowEndInfo) × (infos ≡ taken ++ r.0)
      × ((coflow flow : ℤ)
          → has_ended coflow flow r.1.coflows
            ≡ Option.map (λ b. b || names_any coflow flow taken) (has_ended coflow flow s.coflows))

  -- Working off the reports of a machine takes some first of them, and then exactly those flows
  -- have ended that had ended before or are named by one of these reports: what else they hold,
  -- their order and their repetitions do not matter, and an unknown flow stays unknown.
  pub drain-WorkedOff :
      (infos : List FlowEndInfo) (s : Scheduler D) (k : K)
      → WorkedOff infos s (drain float world infos s k).0
  drain-WorkedOff [] s k =
      unfold drain in ([], refl, λ coflow flow. sym (map-false (has_ended coflow flow s.coflows)))
  drain-WorkedOff (info ∷ infos) s k =
      let r = report_one float world info s k in
      let cos = report_one-coflows float world info s k in
      elim (Bool-cases r.0.1) [
        | inl stops ↦ rw (drain_stops float world info infos s k stops) (
          info ∷ [],
          refl,
          λ coflow flow.
              ap (has_ended coflow flow) cos
              ∙ has_ended-end_in coflow flow info s.coflows
              ∙ ap (λ x. Option.map (λ b. b || x) (has_ended coflow flow s.coflows))
                  (or_false (names coflow flow info)),
        )
        | inr more ↦
            let (taken, split, ended) = drain-WorkedOff infos r.0.0 r.1 in
            rw (drain_goes_on float world info infos s k more) (
              info ∷ taken,
              ap (◌∷◌ info) split,
              λ coflow flow.
                  ended coflow flow
                  ∙ ap (Option.map (λ b. b || names_any coflow flow taken))
                      (ap (has_ended coflow flow) cos ∙ has_ended-end_in coflow flow info s.coflows)
                  ∙ map_or (names coflow flow info) (names_any coflow flow taken)
                      (has_ended coflow flow s.coflows),
            )
      ]

pub names_any-append :
    (coflow flow : ℤ) (infos later : List FlowEndInfo)
    → names_any coflow flow (infos ++ later)
      ≡ names_any coflow flow infos || names_any coflow flow later
names_any-append coflow flow [] later = refl
names_any-append coflow flow (info ∷ infos) later =
    ground (arith, names_any-append coflow flow infos later)

module _ {D : Type 0} where
  -- Just the flows that these reports name have ended in between.
  abbrev pub Ends : List FlowEndInfo → Scheduler D → Scheduler D → Type 0
  Ends taken s s' =
      (coflow flow : ℤ)
      → has_ended coflow flow s'.coflows
        ≡ Option.map (λ b. b || names_any coflow flow taken) (has_ended coflow flow s.coflows)

  pub Ends-nil : (s : Scheduler D) → Ends [] s s
  Ends-nil s coflow flow = sym (map-false (has_ended coflow flow s.coflows))

  pub Ends-trans :
      (taken taken' : List FlowEndInfo) (s s' s'' : Scheduler D)
      → Ends taken s s'
      → Ends taken' s' s''
      → Ends (taken ++ taken') s s''
  Ends-trans taken taken' s s' s'' ended ended' coflow flow =
      ended' coflow flow
      ∙ ap (Option.map (λ b. b || names_any coflow flow taken')) (ended coflow flow)
      ∙ map_or (names_any coflow flow taken) (names_any coflow flow taken')
          (has_ended coflow flow s.coflows)
      ∙ ap (λ x. Option.map (λ b. b || x) (has_ended coflow flow s.coflows))
          (sym (names_any-append coflow flow taken taken'))

  -- Reports that name the same flows.
  pub Ends-same :
      (taken taken' : List FlowEndInfo) (s s' : Scheduler D)
      → ((coflow flow : ℤ) → names_any coflow flow taken ≡ names_any coflow flow taken')
      → Ends taken s s'
      → Ends taken' s s'
  Ends-same taken taken' s s' same ended coflow flow =
      ended coflow flow
      ∙ ap (λ x. Option.map (λ b. b || x) (has_ended coflow flow s.coflows)) (same coflow flow)
