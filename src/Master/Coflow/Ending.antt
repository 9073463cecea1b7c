-- ===== src/Master/Coflow/Ending.antt =====
-- When `flowEnd` says that a coflow is done.
use coflow_sim_online.Base.{
  ==ℤ_iff, All, Bool, List, [], arith, false, if◌then◌else◌, leb, length, none, refl, some, subst,
  sym, true, ℕ, ℤ, ◌+◌, ◌==ℤ◌, ◌||◌, ◌↔◌, ◌∙◌, ◌∷◌, ◌≡◌, ◌≢◌,
}
use mathlib.Core.Option
use coflow_sim_online.Master.Coflow.Marking.{flow_ended, flow_ended-flow_end}
use coflow_sim_online.Master.Coflow.{Flow, Coflow, find_flow, end_found, flow_end}

-- Reports that are about different flows.
abbrev pub Distinct : List (ℤ × ℤ) → Type 0
Distinct [] = Unit
Distinct ((id, time) ∷ reports) = All (λ r. id ≢ r.0) reports × Distinct reports

-- `true` in the last place, and in no other.
abbrev pub only_last : List (ℤ × ℤ) → List Bool
only_last [] = []
only_last (r ∷ []) = true ∷ []
only_last (r ∷ r' ∷ reports) = false ∷ only_last (r' ∷ reports)

module _ {D : Type 0} where
  -- The flows that have not ended.
  abbrev pub open_flows : List (Flow D) → ℕ
  open_flows [] = 0
  open_flows (f ∷ fs) = (if f.flow_state then 0 else 1) + open_flows fs

  abbrev pub IsOpen : List (Flow D) → ℤ → Type 0
  IsOpen fs id = (f : Flow D) × (find_flow id fs ≡ some f) × (f.flow_state ≡ false)

  -- `endflowNum` is the number of flows that have ended.
  abbrev pub Counts : Coflow D → Type 0
  Counts co = co.endflow_num + open_flows co.flow_collection ≡ length co.flow_collection

  length-end_found : (id time : ℤ) (fs : List (Flow D)) → length (end_found id time fs) ≡ length fs
  unfolding end_found
  length-end_found id time [] = refl
  length-end_found id time (f ∷ fs) = ground (arith, length-end_found id time fs)

  open_flows-end_found :
      (id time : ℤ) (fs : List (Flow D)) {f : Flow D}
      → find_flow id fs ≡ some f
      → open_flows (end_found id time fs) + (if f.flow_state then 0 else 1) ≡ open_flows fs
  unfolding find_flow end_found
  open_flows-end_found id time [] h = cc
  open_flows-end_found id time (g ∷ fs) {f} h =
      ground (arith, open_flows-end_found id time fs {f = f})

  find_flow-end_found :
      (id id' time : ℤ) (fs : List (Flow D))
      → id ≢ id'
      → find_flow id' (end_found id time fs) ≡ find_flow id' fs
  unfolding find_flow end_found
  find_flow-end_found id id' time [] ne = refl
  find_flow-end_found id id' time (f ∷ fs) ne =
      ground
        (arith, ==ℤ_iff f.flow_id id, ==ℤ_iff f.flow_id id', find_flow-end_found id id' time fs)

  flow_end_found :
      (id time : ℤ) (co : Coflow D) {f : Flow D}
      → find_flow id co.flow_collection ≡ some f
      → ((flow_end id time co).0.flow_collection ≡ end_found id time co.flow_collection)
        × ((flow_end id time co).0.endflow_num ≡ co.endflow_num + 1)
        × ((flow_end id time co).1 ≡ leb (length co.flow_collection) (co.endflow_num + 1))
  unfolding flow_end
  flow_end_found id time co h = ground (arith, length-end_found id time co.flow_collection)

  -- If a coflow's count of ended flows is right, the end of an open flow keeps it right, closes
  -- that flow and no other, and the answer is true exactly if no flow of the coflow is open any
  -- more.
  pub flow_end_open :
      (id time : ℤ) (co : Coflow D)
      → Counts co
      → IsOpen co.flow_collection id
      → Counts (flow_end id time co).0
        × (open_flows (flow_end id time co).0.flow_collection + 1 ≡ open_flows co.flow_collection)
        × (((flow_end id time co).1 ≡ true)
            ↔ (open_flows (flow_end id time co).0.flow_collection ≡ 0))
        × ((other : ℤ)
            → flow_ended other (flow_end id time co).0.flow_collection
              ≡ Option.map (λ b. b || (other ==ℤ id)) (flow_ended other co.flow_collection))
  flow_end_open id time co counts (f, found, open_) =
      let found_end = flow_end_found id time co found in
      let fewer = open_flows-end_found id time co.flow_collection found in
      let same = length-end_found id time co.flow_collection in
      (
        ground (arith, found_end, fewer, same),
        ground (arith, found_end, fewer, same),
        ground (arith, found_end, fewer, same),
        λ other. flow_ended-flow_end other id time co,
      )

  -- A report of an unknown flow changes nothing and ends nothing.
  pub flow_end_unknown :
      (id time : ℤ) (co : Coflow D)
      → find_flow id co.flow_collection ≡ none
      → flow_end id time co ≡ (co, false)
  unfolding flow_end
  flow_end_unknown id time co h = ground arith

  -- A repeated report of a flow that has ended is counted once more: in a coflow whose count is
  -- right and in which one other flow is still open, the coflow is declared done.
  pub flow_end_repeated :
      (id time : ℤ) (co : Coflow D) {f : Flow D}
      → Counts co
      → find_flow id co.flow_collection ≡ some f
      → f.flow_state ≡ true
      → open_flows co.flow_collection ≡ 1
      → ((flow_end id time co).1 ≡ true) × (open_flows (flow_end id time co).0.flow_collection ≡ 1)
  flow_end_repeated id time co counts found ended one = ground (
    arith,
    flow_end_found id time co found,
    open_flows-end_found id time co.flow_collection found,
  )

  -- Reports of flows, one after another, with their answers.
  unfoldable pub end_all : List (ℤ × ℤ) → Coflow D → Coflow D × List Bool
  end_all [] co = (co, [])
  end_all ((id, time) ∷ reports) co =
      let (co', done) = flow_end id time co in
      let (last, answers) = end_all reports co' in (last, done ∷ answers)

  still-IsOpen :
      (id time : ℤ) (fs : List (Flow D)) (reports : List (ℤ × ℤ))
      → All (λ r. id ≢ r.0) reports
      → All (λ r. IsOpen fs r.0) reports
      → All (λ r. IsOpen (end_found id time fs) r.0) reports
  still-IsOpen id time fs [] ne h = tt
  still-IsOpen id time fs ((id', _) ∷ reports) (ne, nes) ((f, found, open_), h) = (
    (f, find_flow-end_found id id' time fs ne ∙ found, open_),
    still-IsOpen id time fs reports nes h,
  )

  -- Reports of all the open flows of a coflow whose count is right, each once, in any order: the
  -- last one is answered true, and no other.
  pub end_all_answers :
      (reports : List (ℤ × ℤ)) (co : Coflow D)
      → Counts co
      → Distinct reports
      → All (λ r. IsOpen co.flow_collection r.0) reports
      → length reports ≡ open_flows co.flow_collection
      → (end_all reports co).1 ≡ only_last reports
  unfolding end_all
  end_all_answers [] co counts d h n = refl
  end_all_answers ((id, time) ∷ []) co counts d h n =
      ground (arith, flow_end_open id time co counts h.0)
  end_all_answers ((id, time) ∷ r ∷ reports) co counts (ne, d) (first, later) n =
      let step = flow_end_open id time co counts first in
      let same = (flow_end_found id time co first.1).0 in
      let opens =
        subst (λ fs. All (λ s. IsOpen fs s.0) (r ∷ reports)) (sym same)
          (still-IsOpen id time co.flow_collection (r ∷ reports) ne later) in
      ground (
        arith,
        step,
        end_all_answers (r ∷ reports) (flow_end id time co).0 step.0 d opens
            (omega (arith, step.1)),
      )
