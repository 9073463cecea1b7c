-- ===== src/Master/Coflow.antt =====
-- src/master/datastructures/{flow,coflow,coflowCollection}.{h,cpp}. `D` stands for `double`, of which
-- these classes only store values. The flow map, a `std::map<int, Flow *>`, is a list in the order
-- of its keys; a flow is reached through its coflow only, so it stands in the list itself.
pub mod Flows
pub mod Marking
pub mod Ending
mod Tests
use coflow_sim_online.Base.{
  Bool, List, Option, [], false, get_elem?, if◌then◌else◌, leb, length, ltb_ℤ, none, pos, some,
  true, ℕ, ℤ, ◌++◌, ◌+◌, ◌==ℤ◌, ◌∷◌,
}

pub record Flow (D : Type 0) : Type 0 where
  pub flow_id : ℤ
  pub mapper_id : ℤ
  pub reducer_id : ℤ
  pub flow_size_mb : D
  pub remain_mb : D
  pub current_mbs : D
  pub flow_state : Bool
  pub end_time : ℤ

-- The states of a coflow, 0 to 4.
pub data CoflowState : Type 0 where
  unregister registed running runninged finished : CoflowState

-- `endtime` is read by nobody, and not set before the coflow ends.
pub record Coflow (D : Type 0) : Type 0 where
  pub coflow_id : ℤ
  pub start_time : D
  pub coflow_state : CoflowState
  pub flow_collection : List (Flow D)
  pub endflow_num : ℕ
  pub endtime : ℤ

module _ {D : Type 0} where
  -- `zero_mbs` is the `double` 0.
  unfoldable pub new_flow : D → ℤ → ℤ → ℤ → D → Flow D
  new_flow zero_mbs flow_id mapper_id reducer_id size = record {
    flow_id = flow_id;
    mapper_id = mapper_id;
    reducer_id = reducer_id;
    flow_size_mb = size;
    remain_mb = size;
    current_mbs = zero_mbs;
    flow_state = false;
    end_time = pos 0;
  }

  abbrev pub set_current_mbs : D → Flow D → Flow D
  set_current_mbs v f = record f { current_mbs = v }

  -- `setFlowState(FLOWEND)` and `setEndTime`
  abbrev pub end_flow : ℤ → Flow D → Flow D
  end_flow time f = record f { flow_state = true; end_time = time }

  -- `raw_endtime` is what the memory of `endtime` held.
  unfoldable pub new_coflow : ℤ → ℤ → D → Coflow D
  new_coflow raw_endtime coflow_id start_time = record {
    coflow_id = coflow_id;
    start_time = start_time;
    coflow_state = unregister;
    flow_collection = [];
    endflow_num = 0;
    endtime = raw_endtime;
  }

  -- `flowCollection[flowID] = f`: in the place of the flow with this key, or where the key belongs.
  unfoldable pub put_flow : Flow D → List (Flow D) → List (Flow D)
  put_flow f [] = f ∷ []
  put_flow f (g ∷ gs) =
      if f.flow_id ==ℤ g.flow_id
      then f ∷ gs
      else if ltb_ℤ f.flow_id g.flow_id
      then f ∷ g ∷ gs
      else g ∷ put_flow f gs

  unfoldable pub add_flow : D → ℤ → ℤ → ℤ → D → Coflow D → Coflow D
  unfolding put_flow new_flow
  add_flow zero_mbs flow_id mapper_id reducer_id size co = record co {
    flow_collection =
        put_flow (new_flow zero_mbs flow_id mapper_id reducer_id size) co.flow_collection;
  }

  abbrev pub get_flows_num : Coflow D → ℕ
  get_flows_num co = length co.flow_collection

  abbrev pub set_coflow_state : CoflowState → Coflow D → Coflow D
  set_coflow_state s co = record co { coflow_state = s }

  unfoldable pub find_flow : ℤ → List (Flow D) → Option (Flow D)
  find_flow id [] = none
  find_flow id (f ∷ fs) = if f.flow_id ==ℤ id then some f else find_flow id fs

  -- The flow that `find` found is changed in place.
  unfoldable pub end_found : ℤ → ℤ → List (Flow D) → List (Flow D)
  end_found id time [] = []
  end_found id time (f ∷ fs) =
      if f.flow_id ==ℤ id then end_flow time f ∷ fs else f ∷ end_found id time fs

  -- `endflowNum` counts calls that found their flow; the result says whether the coflow is done.
  unfoldable pub flow_end : ℤ → ℤ → Coflow D → Coflow D × Bool
  unfolding find_flow end_found
  flow_end id time co = elim (find_flow id co.flow_collection) [
    | none ↦ (co, false)
    | some f ↦
        let ended = record co {
          flow_collection = end_found id time co.flow_collection;
          endflow_num = co.endflow_num + 1;
        } in
        if leb (length ended.flow_collection) ended.endflow_num
        then (record ended { endtime = time }, true)
        else (ended, false)
  ]

-- `coflowNum` is not set by the constructor: `raw_num`.
pub record CoflowCollection (D : Type 0) : Type 0 where
  pub coflows : List (Coflow D)
  pub coflow_num : ℤ

module _ {D : Type 0} where
  unfoldable pub new_collection : ℤ → CoflowCollection D
  new_collection raw_num = record { coflows = []; coflow_num = raw_num }

  unfoldable pub add_coflow : Coflow D → CoflowCollection D → CoflowCollection D
  add_coflow co c = record c { coflows = c.coflows ++ co ∷ [] }

  -- No bounds check: `none` is a read outside of the vector.
  abbrev pub get_coflow_byindex : ℕ → CoflowCollection D → Option (Coflow D)
  get_coflow_byindex index c = get_elem? c.coflows index

  abbrev pub set_coflow_num : ℤ → CoflowCollection D → CoflowCollection D
  set_coflow_num n c = record c { coflow_num = n }
