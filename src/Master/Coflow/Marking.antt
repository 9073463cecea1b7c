-- ===== src/Master/Coflow/Marking.antt =====
-- Which flows of a coflow have ended, before and after a report.
use coflow_sim_online.Base.{
  ==ℤ_iff, Bool, List, Option, Option-cases, [], arith, inl, inr, none, refl, ℤ, ◌==ℤ◌, ◌||◌, ◌∷◌,
  ◌≡◌,
}
use mathlib.Core.Option
use coflow_sim_online.Master.Coflow.{Flow, Coflow, find_flow, end_found, flow_end}

module _ {D : Type 0} where
  -- Whether the flow has ended; `none` if there is no such flow.
  abbrev pub flow_ended : ℤ → List (Flow D) → Option Bool
  flow_ended flow fs = Option.map (λ f. f.flow_state) (find_flow flow fs)

  flow_ended-end_found :
      (flow id time : ℤ) (fs : List (Flow D))
      → flow_ended flow (end_found id time fs)
        ≡ Option.map (λ b. b || (flow ==ℤ id)) (flow_ended flow fs)
  unfolding find_flow end_found
  flow_ended-end_found flow id time [] = refl
  flow_ended-end_found flow id time (f ∷ fs) = ground (
    arith,
    ==ℤ_iff f.flow_id id,
    ==ℤ_iff f.flow_id flow,
    ==ℤ_iff flow id,
    flow_ended-end_found flow id time fs,
  )

  end_found-none :
      (id time : ℤ) (fs : List (Flow D)) → find_flow id fs ≡ none → end_found id time fs ≡ fs
  unfolding find_flow end_found
  end_found-none id time [] h = refl
  end_found-none id time (f ∷ fs) h = ground (arith, end_found-none id time fs)

  pub flow_ended-flow_end :
      (flow id time : ℤ) (co : Coflow D)
      → flow_ended flow (flow_end id time co).0.flow_collection
        ≡ Option.map (λ b. b || (flow ==ℤ id)) (flow_ended flow co.flow_collection)
  unfolding flow_end
  flow_ended-flow_end flow id time co = elim (Option-cases (find_flow id co.flow_collection)) [
    | inl e ↦ ground (
      arith,
      e,
      end_found-none id time co.flow_collection e,
      flow_ended-end_found flow id time co.flow_collection,
    )
    | inr (f, e) ↦ ground (arith, e, flow_ended-end_found flow id time co.flow_collection)
  ]
