-- ===== src/Master/Trace/Grid.antt =====
-- The flows of a coflow: one for each reducer and mapper.
use coflow_sim_online.Base.{
  All-append, List, [], ap, append-nil, append_assoc, arith, length, length-append, pos, refl,
  subst, suc, ℕ, ℤ, ◌*◌, ◌++◌, ◌+◌, ◌<ℤ◌, ◌∷◌, ◌≡◌, ◌≤◌,
}
use coflow_sim_online.Common.Float.{Float}
use coflow_sim_online.Master.Coflow.{Coflow, Flow, new_flow, add_flow}
use coflow_sim_online.Master.Coflow.Flows.{AllBelow, put_flow_last}
use coflow_sim_online.Master.Trace.{add_mappers, add_reducers}

module _ {D : Type 0} (float : Float D) where
  abbrev pub zero_mbs : D
  zero_mbs = float.of_int (pos 0)

  -- The flows to one reducer, numbered from `i` on.
  abbrev pub row : ℕ → ℤ → D → List ℤ → List (Flow D)
  row i reducer_id size [] = []
  row i reducer_id size (mapper_id ∷ ids) =
      new_flow zero_mbs (pos i) mapper_id reducer_id size ∷ row (i + 1) reducer_id size ids

  -- The size of a reducer's input is divided among the mappers.
  abbrev pub grid : ℤ → ℕ → List ℤ → List (ℤ × D) → List (Flow D)
  grid mapper_num i ids [] = []
  grid mapper_num i ids ((reducer_id, size) ∷ pairs) =
      row i reducer_id (float.div_int size mapper_num) ids
      ++ grid mapper_num (i + length ids) ids pairs

  abbrev pub with_flows : Coflow D → List (Flow D) → Coflow D
  with_flows co fs = record co { flow_collection = co.flow_collection ++ fs }

  below_next : (i j : ℕ) (fs : List (Flow D)) → i ≤ j → AllBelow (pos i) fs → AllBelow (pos j) fs
  below_next i j [] le h = tt
  below_next i j (f ∷ fs) le (hf, h) = (ground arith, below_next i j fs le h)

  below_one :
      (i : ℕ) (mapper_id reducer_id : ℤ) (size : D) (fs : List (Flow D))
      → AllBelow (pos i) fs
      → AllBelow (pos (i + 1)) (fs ++ new_flow zero_mbs (pos i) mapper_id reducer_id size ∷ [])
  unfolding new_flow
  below_one i m r size fs h =
      All-append (λ f. f.flow_id <ℤ pos (i + 1)) fs _ (below_next i (i + 1) fs (omega arith) h)
        (omega arith, tt)

  add_flow-last :
      (i : ℕ) (mapper_id reducer_id : ℤ) (size : D) (co : Coflow D)
      → AllBelow (pos i) co.flow_collection
      → add_flow zero_mbs (pos i) mapper_id reducer_id size co
        ≡ with_flows co (new_flow zero_mbs (pos i) mapper_id reducer_id size ∷ [])
  unfolding add_flow new_flow
  add_flow-last i m r size co h =
      rw (put_flow_last (new_flow zero_mbs (pos i) m r size) co.flow_collection h)

  -- The coflow with these flows at its end, whose ids are below `j`.
  abbrev pub Extends : Coflow D → Coflow D → List (Flow D) → ℕ → Type 0
  Extends co co' fs j = (co' ≡ with_flows co fs) × AllBelow (pos j) (co.flow_collection ++ fs)

  Extends-nil :
      (co : Coflow D) (i j : ℕ) → i ≡ j → AllBelow (pos i) co.flow_collection → Extends co co [] j
  Extends-nil co i j e h =
      rw append-nil (refl, subst (λ k. AllBelow (pos k) co.flow_collection) e h)

  Extends-append :
      (co co' : Coflow D) (fs gs : List (Flow D)) (j k : ℕ)
      → j ≡ k
      → Extends (with_flows co fs) co' gs j
      → Extends co co' (fs ++ gs) k
  Extends-append co co' fs gs j k same (e, h) = (
    ground (arith, e, append_assoc co.flow_collection fs gs),
    subst (λ x. AllBelow (pos k) x) (append_assoc co.flow_collection fs gs)
        (subst (λ x. AllBelow (pos x) ((co.flow_collection ++ fs) ++ gs)) same h),
  )

  add_mappers-row :
      (i : ℕ) (reducer_id : ℤ) (size : D) (ids : List ℤ) (co : Coflow D)
      → AllBelow (pos i) co.flow_collection
      → Extends co
          (add_mappers float i reducer_id size ids co)
          (row i reducer_id size ids)
          (i + length ids)
  unfolding add_mappers
  add_mappers-row i r size [] co h = Extends-nil co i (i + 0) (omega arith) h
  add_mappers-row i r size (m ∷ ids) co h =
      let f = new_flow zero_mbs (pos i) m r size in
      rw (add_flow-last i m r size co h) (
        Extends-append co _ (f ∷ []) (row (i + 1) r size ids) (i + 1 + length ids) _ (omega arith) (
          add_mappers-row (i + 1) r size ids (with_flows co (f ∷ []))
            (below_one i m r size co.flow_collection h)))

  -- The number of the flows.
  abbrev pub grid_size : List ℤ → List (ℤ × D) → ℕ
  grid_size ids [] = 0
  grid_size ids (p ∷ pairs) = length ids + grid_size ids pairs

  pub add_reducers-grid :
      (mapper_num : ℤ) (i : ℕ) (ids : List ℤ) (pairs : List (ℤ × D)) (co : Coflow D)
      → AllBelow (pos i) co.flow_collection
      → Extends co
          (add_reducers float mapper_num i ids pairs co)
          (grid mapper_num i ids pairs)
          (i + grid_size ids pairs)
  unfolding add_reducers
  add_reducers-grid num i ids [] co h = Extends-nil co i (i + 0) (omega arith) h
  add_reducers-grid num i ids ((r, size) ∷ pairs) co h =
      let part = float.div_int size num in
      let (e, below) = add_mappers-row i r part ids co h in
      rw e (
        Extends-append co _ (row i r part ids) (grid num (i + length ids) ids pairs)
          (i + length ids + grid_size ids pairs) _ (omega arith)
          (add_reducers-grid num (i + length ids) ids pairs (with_flows co (row i r part ids))
            below))

  length-row :
      (i : ℕ) (reducer_id : ℤ) (size : D) (ids : List ℤ)
      → length (row i reducer_id size ids) ≡ length ids
  length-row i r size [] = refl
  length-row i r size (m ∷ ids) = ap suc (length-row (i + 1) r size ids)

  pub length-grid :
      (mapper_num : ℤ) (i : ℕ) (ids : List ℤ) (pairs : List (ℤ × D))
      → length (grid mapper_num i ids pairs) ≡ grid_size ids pairs
  length-grid num i ids [] = refl
  length-grid num i ids ((r, size) ∷ pairs) =
      let part = float.div_int size num in
      omega (
        arith,
        length-append (row i r part ids) (grid num (i + length ids) ids pairs),
        length-row i r part ids,
        length-grid num (i + length ids) ids pairs,
      )

  pub grid_size-product :
      (ids : List ℤ) (pairs : List (ℤ × D)) → grid_size ids pairs ≡ length pairs * length ids
  grid_size-product ids [] = ground arith
  grid_size-product ids (p ∷ pairs) = ground (arith, grid_size-product ids pairs)
