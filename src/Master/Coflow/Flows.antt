-- ===== src/Master/Coflow/Flows.antt =====
-- The flow map: keys stay in order, and a lookup sees the last write.
use coflow_sim_online.Base.{
  ==ℤ_iff, All, List, [], arith, if◌then◌else◌, ltb_ℤ_cases, refl, some, ℤ, ◌++◌, ◌<ℤ◌, ◌==ℤ◌, ◌∷◌,
  ◌≡◌,
}
use coflow_sim_online.Master.Coflow.{Flow, put_flow, find_flow}

module _ {D : Type 0} where
  -- All keys from here on are above `id`, and in order.
  abbrev pub OrderedAbove : ℤ → List (Flow D) → Type 0
  OrderedAbove id [] = Unit
  OrderedAbove id (f ∷ fs) = (id <ℤ f.flow_id) × OrderedAbove f.flow_id fs

  abbrev pub IsOrdered : List (Flow D) → Type 0
  IsOrdered [] = Unit
  IsOrdered (f ∷ fs) = OrderedAbove f.flow_id fs

  put_flow-OrderedAbove :
      (id : ℤ) (f : Flow D) (fs : List (Flow D))
      → id <ℤ f.flow_id
      → OrderedAbove id fs
      → OrderedAbove id (put_flow f fs)
  unfolding put_flow
  put_flow-OrderedAbove id f [] lt h = (lt, tt)
  put_flow-OrderedAbove id f (g ∷ gs) lt (hg, h) = ground (
    arith,
    ==ℤ_iff f.flow_id g.flow_id,
    ltb_ℤ_cases f.flow_id g.flow_id,
    put_flow-OrderedAbove g.flow_id f gs,
  )

  -- Adding a flow keeps the map in the order of its keys, each key once.
  pub put_flow-IsOrdered :
      (f : Flow D) (fs : List (Flow D)) → IsOrdered fs → IsOrdered (put_flow f fs)
  unfolding put_flow
  put_flow-IsOrdered f [] h = tt
  put_flow-IsOrdered f (g ∷ gs) h = ground (
    arith,
    ==ℤ_iff f.flow_id g.flow_id,
    ltb_ℤ_cases f.flow_id g.flow_id,
    put_flow-OrderedAbove g.flow_id f gs,
  )

  -- After adding a flow, its id finds it, and every other id finds what it found before.
  pub find_flow-put_flow :
      (id : ℤ) (f : Flow D) (fs : List (Flow D))
      → find_flow id (put_flow f fs) ≡ (if f.flow_id ==ℤ id then some f else find_flow id fs)
  unfolding find_flow put_flow
  find_flow-put_flow id f [] = refl
  find_flow-put_flow id f (g ∷ gs) = ground (
    arith,
    ==ℤ_iff f.flow_id g.flow_id,
    ==ℤ_iff f.flow_id id,
    ==ℤ_iff g.flow_id id,
    find_flow-put_flow id f gs,
  )

  -- A key above all the others goes to the end.
  abbrev pub AllBelow : ℤ → List (Flow D) → Type 0
  AllBelow id fs = All (λ f. f.flow_id <ℤ id) fs

  pub put_flow_last :
      (f : Flow D) (fs : List (Flow D)) → AllBelow f.flow_id fs → put_flow f fs ≡ fs ++ f ∷ []
  unfolding put_flow
  put_flow_last f [] h = refl
  put_flow_last f (g ∷ gs) (hg, h) =
      ground
        (arith, ==ℤ_iff f.flow_id g.flow_id, ltb_ℤ_cases f.flow_id g.flow_id, put_flow_last f gs h)
