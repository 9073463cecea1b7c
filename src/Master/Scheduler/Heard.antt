-- ===== src/Master/Scheduler/Heard.antt =====
-- One machine, polled while its reports come in.
use coflow_sim_online.Text.{Bytes}
use coflow_sim_online.Base.{
  All, All-append_left, All-append_right, Bool, Bool-cases, List, [], ap, append_assoc, arith,
  false, inl, inr, map, map-append, none, refl, some, subst, sym, true, ℤ, ◌++◌, ◌∙◌, ◌∷◌, ◌≡◌,
}
use coflow_sim_online.Master.Scheduler.Ended.{Ends, drain-WorkedOff}
use coflow_sim_online.Master.Scheduler.Incoming.{Incoming, Reads, recv_msg-rest, drain-rest}
use coflow_sim_online.Master.Machine.Delivery.{parsed, parse-feed}
use coflow_sim_online.Master.Machine.Scan.{IsText}
use coflow_sim_online.Master.Machine.{Machine, FlowEndInfo, read_info, parse_flows_finished_info}
use coflow_sim_online.Master.Scheduler.{World, Scheduler, poll_machine, drain, report_one, Float}
use coflow_sim_online.Master.Scheduler.Drain.{drain_stops, drain_goes_on}
use coflow_sim_online.Wire.{Reader, HoldsBody, pending, feed}
use coflow_sim_online.Wire.Split.{feed-append, and_then-eq-some, feed-HoldsBody}
use coflow_sim_online.Common.Socket.{init_recv_buf}
use coflow_sim_online.Common.Socket.Receive.{append_recv}

-- A machine whose buffers are clear but for the fragment that this reader holds.
abbrev pub IsBetween : Reader → Machine → Type 0
IsBetween st m =
    HoldsBody st
    × (m.tmprecv ≡ pending st)
    × (m.socket.recv_buf ≡ [])
    × (m.flows_finished_info ≡ [])

abbrev heard : Machine → Bytes → Machine
heard m fresh = record m { socket = append_recv m.socket fresh }

parse_heard :
    (fresh : Bytes) (m : Machine) (st mid : Reader) (bodies : List Bytes)
    → IsBetween st m
    → All IsText bodies
    → feed st fresh ≡ some (bodies, mid)
    → (m' : Machine) × (ok : Bool) × (parse_flows_finished_info true (heard m fresh)
        ≡ some (m', ok))
      × (m'.tmprecv ≡ pending mid)
      × (m'.socket.recv_buf ≡ [])
      × (m'.flows_finished_info ≡ map read_info bodies)
      × (m'.socket.sockfd ≡ m.socket.sockfd)
parse_heard [] m st mid bodies (holds, held, clear, empty) text h =
    unfold feed in
    (
      heard m [],
      false,
      unfold parse_flows_finished_info in ground (arith, clear),
      ground (arith, held, h),
      ground (arith, clear),
      ground (arith, empty, h),
      refl,
    )
parse_heard (c ∷ cs) m st mid bodies (holds, held, clear, empty) text h = (
  parsed (heard m (c ∷ cs)) bodies (pending mid),
  true,
  parse-feed true (heard m (c ∷ cs)) st mid bodies holds held (ground (arith, clear)) text
      (rw clear h) (inr refl),
  refl,
  unfold init_recv_buf in refl,
  ground (arith, empty),
  unfold init_recv_buf in refl,
)

drain-clear :
    {D K : Type 0} (float : Float D) (world : World K) (infos : List FlowEndInfo) (s : Scheduler D)
    (k : K)
    → (drain float world infos s k).0.2 ≡ false
    → (drain float world infos s k).0.0 ≡ []
drain-clear float world [] s k e = unfold drain in refl
drain-clear float world (info ∷ infos) s k e =
    let r = report_one float world info s k in
    elim (Bool-cases r.0.1) [
      | inl stops ↦ ground (arith, e, drain_stops float world info infos s k stops)
      | inr more ↦
          let on = drain_goes_on float world info infos s k more in
          rw on (drain-clear float world infos r.0.0 r.1 (sym (ap (λ d. d.0.2) on) ∙ e))
    ]

module _ {D K : Type 0} (float : Float D) (world : World K) (incoming : Incoming world) where
  -- The machine is between two polls, and what is still to come to it are just these messages.
  abbrev pub Coming : List Bytes → Machine → K → Type 0
  Coming bodies m k =
      All IsText bodies
      × ((st : Reader) × IsBetween st m
          × (feed st (incoming.rest m.socket.sockfd k) ≡ some (bodies, none)))

  -- The reports of some first of the messages have been worked off; after that `run` returns, or
  -- the other messages are coming.
  abbrev pub Told :
      List Bytes → Machine → Scheduler D → K → (Machine × Scheduler D × Bool) × K → Type 0
  Told bodies m s k r =
      (taken : List FlowEndInfo) × (left : List FlowEndInfo) × (map read_info bodies
        ≡ taken ++ left)
      × Ends taken s r.0.1
      × (r.0.2 ≡ false
          → (later : List Bytes) × (left ≡ map read_info later) × Coming later r.0.0 r.1)
      × (r.0.0.socket.sockfd ≡ m.socket.sockfd)
      × Reads world incoming m.socket.sockfd k r.1

  pub poll_machine-Told :
      (bodies : List Bytes) (m : Machine) (s : Scheduler D) (k : K)
      → Coming bodies m k
      → (r : (Machine × Scheduler D × Bool) × K) × (poll_machine float world m s k ≡ some r)
        × Told bodies m s k r
  unfolding poll_machine
  poll_machine-Told bodies m s k (text, (st, between, coming)) =
      let fd = m.socket.sockfd in
      let (fresh, ok, k1, e, split, others) = recv_msg-rest world incoming m.socket k between.2 in
      let (first, mid, later, e1, e2, all) =
        and_then-eq-some (feed st fresh) (incoming.rest fd k1)
          (sym (feed-append fresh (incoming.rest fd k1) st) ∙ ap (feed st) (sym split) ∙ coming) in
      let texts : All IsText (first ++ later) = subst (All IsText) all text in
      let (m1, _, parses, held, clear, queued, same) =
        parse_heard fresh m st mid first between (All-append_left IsText first later texts) e1 in
      let infos = map read_info first in
      let d = drain float world infos s k1 in
      let open_ = drain-clear float world infos s k1 in
      let keeps = λ (fd : ℤ). drain-rest world incoming float fd infos s k1 in
      let (taken, parts, ended) = drain-WorkedOff float world infos s k1 in
      (
        ((record m1 { flows_finished_info = d.0.0 }, d.0.1, d.0.2), d.1),
        rw (e, incoming.junk_below k1, parses, queued) refl,
        (
          taken,
          d.0.0 ++ map read_info later,
          ap (map read_info) all
              ∙ map-append read_info first later
              ∙ ap (λ x. x ++ map read_info later) parts
              ∙ append_assoc taken d.0.0 (map read_info later),
          ended,
          λ more. (
            later,
            rw (open_ more) refl,
            (
              All-append_right IsText first later texts,
              (
                mid,
                (feed-HoldsBody fresh st between.0 e1, held, clear, open_ more),
                ap (λ fd. feed mid (incoming.rest fd d.1)) same ∙ ap (feed mid) (keeps fd) ∙ e2,
              ),
            ),
          ),
          same,
          λ other ne. keeps other ∙ others other ne,
        ),
      )
