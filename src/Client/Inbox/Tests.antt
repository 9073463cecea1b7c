-- ===== src/Client/Inbox/Tests.antt =====
-- The framing of instructions at concrete chunks.
use coflow_sim_online.Base.{List, [], arith, flatten, refl, ◌++◌, ◌∷◌, ◌≡◌}
use coflow_sim_online.Text.{Bytes, codes}
use coflow_sim_online.Wire.{wire}
use coflow_sim_online.Client.Inbox.{on_input, on_inputs}
use coflow_sim_online.Client.Inbox.Delivery.{on_inputs_partial}

abbrev two : List Bytes
two = codes "1 0 a" ∷ codes "2 5 b" ∷ []

abbrev torn : List Bytes
torn = codes "(1 0" ∷ codes " a)(" ∷ codes "2 5 b)" ∷ []

on_input_runs : on_input (codes "(1 0") (codes " a)(2") ≡ (codes "(2", codes "1 0 a" ∷ [])
unfolding on_input
on_input_runs = refl

-- A byte between messages is dropped.
on_input_noise : on_input [] (codes "ok") ≡ ([], [])
unfolding on_input
on_input_noise = refl

on_inputs_partial_example :
    (later : List Bytes) × (two ≡ (on_inputs [] (codes "(1 0 a)" ∷ codes "(2" ∷ [])).1 ++ later)
unfolding wire flatten
on_inputs_partial_example =
    on_inputs_partial two (codes "(1 0 a)" ∷ codes "(2" ∷ []) (codes " 5 b)") (omega arith) refl
