-- ===== src/Master/Coflow/Tests.antt =====
-- Coflows at concrete flows. The sizes are numbers here.
use mathlib.Core.Option
use coflow_sim_online.Base.{[], false, pos, refl, some, true, ℕ, ℤ, ◌+◌, ◌==ℤ◌, ◌||◌, ◌↔◌, ◌∷◌, ◌≡◌}
use coflow_sim_online.Master.Coflow.Marking.{flow_ended}
use coflow_sim_online.Master.Coflow.{
  Flow, Coflow, CoflowState, new_coflow, add_flow, find_flow, flow_end, new_collection, add_coflow,
  get_coflow_byindex,
}
use coflow_sim_online.Master.Coflow.Ending.{
  Counts, open_flows, end_all, flow_end_open, flow_end_repeated, end_all_answers,
}

abbrev flow : ℕ → Flow ℕ
flow id = record {
  flow_id = pos id;
  mapper_id = pos 0;
  reducer_id = pos 1;
  flow_size_mb = 500;
  remain_mb = 500;
  current_mbs = 0;
  flow_state = false;
  end_time = pos 0;
}

abbrev ended : ℕ → Flow ℕ
ended id = record (flow id) { flow_state = true; end_time = pos 9 }

abbrev pair : Coflow ℕ
pair = record {
  coflow_id = pos 1;
  start_time = 0;
  coflow_state = CoflowState.runninged;
  flow_collection = flow 0 ∷ flow 1 ∷ [];
  endflow_num = 0;
  endtime = pos 0;
}

abbrev half_done : Coflow ℕ
half_done = record pair { flow_collection = ended 0 ∷ flow 1 ∷ []; endflow_num = 1 }

add_flow_runs :
    (add_flow 0
      (pos 0)
      (pos 0)
      (pos 1)
      500
      (add_flow 0 (pos 1) (pos 0) (pos 1) 500 (new_coflow (pos 0) (pos 1) 0))).flow_collection
    ≡ flow 0 ∷ flow 1 ∷ []
unfolding add_flow new_coflow
add_flow_runs = refl

flow_end_runs : flow_end (pos 0) (pos 9) pair ≡ (half_done, false)
unfolding flow_end
flow_end_runs = refl

add_coflow_runs : get_coflow_byindex 0 (add_coflow pair (new_collection (pos 0))) ≡ some pair
unfolding add_coflow new_collection
add_coflow_runs = refl

flow_end_open_example :
    Counts (flow_end (pos 0) (pos 9) pair).0
    × (open_flows (flow_end (pos 0) (pos 9) pair).0.flow_collection + 1 ≡ 2)
    × (((flow_end (pos 0) (pos 9) pair).1 ≡ true)
        ↔ (open_flows (flow_end (pos 0) (pos 9) pair).0.flow_collection ≡ 0))
    × ((other : ℤ)
        → flow_ended other (flow_end (pos 0) (pos 9) pair).0.flow_collection
          ≡ Option.map (λ b. b || (other ==ℤ pos 0)) (flow_ended other pair.flow_collection))
unfolding find_flow
flow_end_open_example = flow_end_open (pos 0) (pos 9) pair refl (flow 0, refl, refl)

flow_end_repeated_example :
    ((flow_end (pos 0) (pos 9) half_done).1 ≡ true)
    × (open_flows (flow_end (pos 0) (pos 9) half_done).0.flow_collection ≡ 1)
unfolding find_flow
flow_end_repeated_example =
    flow_end_repeated (pos 0) (pos 9) half_done {f = ended 0} refl refl refl refl

end_all_answers_example :
    (end_all ((pos 1, pos 8) ∷ (pos 0, pos 9) ∷ []) pair).1 ≡ false ∷ true ∷ []
unfolding find_flow
end_all_answers_example =
    end_all_answers ((pos 1, pos 8) ∷ (pos 0, pos 9) ∷ []) pair refl (((λ e. cc), tt), (tt, tt))
      ((flow 1, refl, refl), ((flow 0, refl, refl), tt)) refl
