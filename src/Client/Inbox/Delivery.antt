-- ===== src/Client/Inbox/Delivery.antt =====
-- Instructions arrive whole and in order, however the stream was cut into chunks.
use coflow_sim_online.Base.{All, List, [], ap, arith, flatten, none, some, sym, ◌++◌, ◌∙◌, ◌∷◌, ◌≡◌}
use coflow_sim_online.Text.{Bytes}
use coflow_sim_online.Wire.{IsBody, wire, Reader, pending, feed, HoldsBody}
use coflow_sim_online.Wire.Split.{feed-append, feed-wire, feed-HoldsBody, and_then-eq-some}
use coflow_sim_online.Client.Inbox.{on_inputs}
use coflow_sim_online.Client.Inbox.Scan.{on_input-feed}

on_inputs-feed :
    (chunks : List Bytes) (st st' : Reader) (bodies : List Bytes)
    → HoldsBody st
    → feed st (flatten chunks) ≡ some (bodies, st')
    → on_inputs (pending st) chunks ≡ (pending st', bodies)
unfolding on_inputs flatten
on_inputs-feed [] st st' bodies holds h = unfold feed in ground arith
on_inputs-feed (chunk ∷ chunks) st st' bodies holds h =
    let (first, mid, later, e, e', all) =
      and_then-eq-some (feed st chunk) (flatten chunks)
        (sym (feed-append chunk (flatten chunks) st) ∙ h) in
    ground (
      arith,
      on_input-feed st mid chunk first holds e,
      on_inputs-feed chunks mid st' later (feed-HoldsBody chunk st holds e) e',
      all,
    )

-- If what has arrived is a sequence of messages, appendTask was called on exactly their bodies, in
-- order, and nothing is retained, however the bytes were spread over the reads.
pub on_inputs-wire :
    (bodies chunks : List Bytes)
    → All IsBody bodies
    → flatten chunks ≡ wire bodies
    → on_inputs [] chunks ≡ ([], bodies)
on_inputs-wire bodies chunks plain e =
    on_inputs-feed chunks none none bodies tt (ap (feed none) e ∙ feed-wire bodies plain)

-- If only a first part of a sequence of messages has arrived, appendTask was called on the
-- bodies of the first messages: never on a torn one, and never out of order.
pub on_inputs_partial :
    (bodies chunks : List Bytes) (rest : Bytes)
    → All IsBody bodies
    → flatten chunks ++ rest ≡ wire bodies
    → (later : List Bytes) × (bodies ≡ (on_inputs [] chunks).1 ++ later)
on_inputs_partial bodies chunks rest plain e =
    let (first, mid, later, e1, e2, all) =
      and_then-eq-some (feed none (flatten chunks)) rest (
        sym (feed-append (flatten chunks) rest none) ∙ ap (feed none) e ∙ feed-wire bodies plain) in
    (later, ground (arith, on_inputs-feed chunks none mid first tt e1, all))
