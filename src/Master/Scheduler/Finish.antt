-- ===== src/Master/Scheduler/Finish.antt =====
-- When `run` ends: the count of finished coflows.
use coflow_sim_online.Base.{
  ==ℤ_iff, All, Bool, List, Option, Option-cases, [], ap, arith, false, if◌then◌else◌, inl, inr,
  length, none, refl, some, subst, suc, true, ℕ, ◌+◌, ◌<◌, ◌==◌, ◌↔◌, ◌∷◌, ◌≡◌, ◌≢◌, ◌≤◌,
}
use coflow_sim_online.Master.Coflow.{Coflow, flow_end}
use coflow_sim_online.Master.Coflow.Ending.{open_flows, IsOpen, Counts, flow_end_open}
use coflow_sim_online.Common.Float.{Float}
use coflow_sim_online.Master.Machine.{FlowEndInfo}
use coflow_sim_online.Master.Scheduler.{end_in, Scheduler, World, report_one}

module _ {D : Type 0} where
  -- The coflows with no open flow.
  abbrev pub finished_num : List (Coflow D) → ℕ
  finished_num [] = 0
  finished_num (co ∷ cos) = (if open_flows co.flow_collection == 0 then 1 else 0) + finished_num cos

  -- The report is about an open flow of the first coflow with its id.
  pub data Expects (info : FlowEndInfo) : List (Coflow D) → Type 0 where
    here :
        {co : Coflow D} {cos : List (Coflow D)}
        → co.coflow_id ≡ info.coflow_id
        → IsOpen co.flow_collection info.flow_id
        → Expects info (co ∷ cos)
    there :
        {co : Coflow D} {cos : List (Coflow D)}
        → co.coflow_id ≢ info.coflow_id
        → Expects info cos
        → Expects info (co ∷ cos)

  pub finished_num-le : (cos : List (Coflow D)) → finished_num cos ≤ length cos
  finished_num-le [] = omega arith
  finished_num-le (co ∷ cos) = ground (arith, finished_num-le cos)

  end_in_here :
      (info : FlowEndInfo) (co : Coflow D) (cos : List (Coflow D))
      → co.coflow_id ≡ info.coflow_id
      → end_in info (co ∷ cos) ≡ (
          let r = flow_end info.flow_id info.end_time co in
          (r.0 ∷ cos, if r.1 then some r.0 else none))
  unfolding end_in
  end_in_here info co cos h = ground (arith, ==ℤ_iff co.coflow_id info.coflow_id)

  end_in_there :
      (info : FlowEndInfo) (co : Coflow D) (cos : List (Coflow D))
      → co.coflow_id ≢ info.coflow_id
      → end_in info (co ∷ cos) ≡ (co ∷ (end_in info cos).0, (end_in info cos).1)
  unfolding end_in
  end_in_there info co cos h = ground (arith, ==ℤ_iff co.coflow_id info.coflow_id)

  -- What the outcome says of the coflows before and after.
  abbrev pub Outcome : List (Coflow D) → List (Coflow D) → Option (Coflow D) → Type 0
  Outcome cos cos' none = (finished_num cos' ≡ finished_num cos) × (finished_num cos' < length cos')
  Outcome cos cos' (some co) = finished_num cos' ≡ finished_num cos + 1

  Outcome-here :
      (b : Bool) (co co' : Coflow D) (cos : List (Coflow D))
      → (b ≡ true) ↔ (open_flows co'.flow_collection ≡ 0)
      → open_flows co'.flow_collection + 1 ≡ open_flows co.flow_collection
      → Outcome (co ∷ cos) (co' ∷ cos) (if b then some co' else none)
  Outcome-here true co co' cos done one = ground (arith, done.0)
  Outcome-here false co co' cos done one = ground (arith, done.1, finished_num-le cos)

  Outcome-there :
      (o : Option (Coflow D)) (co : Coflow D) (cos cos' : List (Coflow D))
      → Outcome cos cos' o
      → Outcome (co ∷ cos) (co ∷ cos') o
  Outcome-there none co cos cos' (e, lt) = ground arith
  Outcome-there (some co') co cos cos' e = ground arith

  -- A report that is expected keeps the counts of all the coflows right.
  pub end_in_lem :
      (info : FlowEndInfo) (cos : List (Coflow D))
      → Expects info cos
      → All Counts cos
      → All Counts (end_in info cos).0
        × (length (end_in info cos).0 ≡ length cos)
        × Outcome cos (end_in info cos).0 (end_in info cos).1
  end_in_lem info [] e cs = elim e [ ]
  end_in_lem info (co ∷ cos) (here same open_) (c, cs) =
      let r = flow_end info.flow_id info.end_time co in
      let (counts, one, done, _) = flow_end_open info.flow_id info.end_time co c open_ in
      rw (end_in_here info co cos same) ((counts, cs), refl, Outcome-here r.1 co r.0 cos done one)
  end_in_lem info (co ∷ cos) (there other later) (c, cs) =
      let (counts, size, out) = end_in_lem info cos later cs in
      rw (end_in_there info co cos other)
        ((c, counts), ap suc size, Outcome-there (end_in info cos).1 co cos (end_in info cos).0 out)

-- `coflowFinishedNum` counts the finished coflows.
abbrev pub IsCounted : {D : Type 0} → Scheduler D → Type 0
IsCounted s = All Counts s.coflows × (s.coflow_finished_num ≡ finished_num s.coflows)

module _ {D K : Type 0} (float : Float D) (world : World K) where
  -- If the counts of ended flows and of finished coflows are right, a report of an open flow
  -- keeps them right, and makes run return exactly if no coflow has an open flow any more.
  pub report_one-IsCounted :
      (info : FlowEndInfo) (s : Scheduler D) (k : K)
      → IsCounted s
      → Expects info s.coflows
      → IsCounted (report_one float world info s k).0.0
        × (((report_one float world info s k).0.1 ≡ true)
            ↔ (finished_num (report_one float world info s k).0.0.coflows ≡ length s.coflows))
  unfolding report_one
  report_one-IsCounted info s k (counts, num) expected =
      let (counts', size, out) = end_in_lem info s.coflows expected counts in
      let cos' = (end_in info s.coflows).0 in
      elim (Option-cases (end_in info s.coflows).1) [
        | inl e ↦
            let open_ = subst (Outcome s.coflows cos') e out in
            rw (e, report_one) ((counts', omega (arith, num, open_.0)), ground (arith, open_, size))
        | inr (co, e) ↦
            let ended = subst (Outcome s.coflows cos') e out in
            rw (e, report_one)
              (
                (counts', omega (arith, num, ended)),
                ground (arith, ended, num, size, finished_num-le cos'),
              )
      ]
