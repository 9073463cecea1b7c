-- ===== src/Master/Scheduler/Incoming.antt =====
-- The bytes that are still to come to the machines, and what the calls of a round do to them.
use coflow_sim_online.Base.{
  Bool, Bool-cases, List, Option-cases, [], append-nil, append_assoc, arith, inl, inr, length,
  length-append, refl, some, suc, true, ℕ, ℤ, ◌++◌, ◌+◌, ◌-◌, ◌<◌, ◌∙◌, ◌∷◌, ◌≡◌, ◌≢◌, ◌⊎◌,
}
use coflow_sim_online.Common.Socket.{
  Socket, RecvResult, received, recv_again, recv_failed, recv_msg, receive_message, msg_len,
  max_recv_buffer_size,
}
use coflow_sim_online.Common.Socket.Receive.{receive_loop_rule, append_recv}
use coflow_sim_online.Master.Machine.{FlowEndInfo}
use coflow_sim_online.Master.Scheduler.{World, Scheduler, drain, report_one, end_in, Float}
use coflow_sim_online.Master.Scheduler.Drain.{drain_stops, drain_goes_on}
use coflow_sim_online.Text.{Bytes}

-- A receive hands out the first of the bytes that are to come.
abbrev pub Leaves : Bytes → Bytes → RecvResult → Type 0
Leaves before after (received bs) = before ≡ bs ++ after
Leaves before after recv_again = before ≡ after
Leaves before after recv_failed = before ≡ after

-- `rest` is what is still to come on a descriptor: only a receive on it takes of this. An index
-- that is not set compares as below one that is.
pub record Incoming {K : Type 0} (world : World K) : Type 0 where
  pub rest : ℤ → K → Bytes
  pub recv_rest :
      (fd : ℤ) (room : ℕ) (k : K)
      → Leaves (rest fd k) (rest fd (world.kernel.recv fd room k).1) (world.kernel.recv fd room k).0
  pub recv_other :
      (fd other : ℤ) (room : ℕ) (k : K)
      → other ≢ fd
      → rest other (world.kernel.recv fd room k).1 ≡ rest other k
  pub send_rest :
      (fd other : ℤ) (buf : Bytes) (k : K)
      → rest other (world.kernel.send fd buf k).1 ≡ rest other k
  pub clock_rest : (fd : ℤ) (k : K) → rest fd (world.clock k).1 ≡ rest fd k
  pub junk_below : (k : K) → world.junk k ≡ true

module _ {K : Type 0} (world : World K) (incoming : Incoming world) where
  open incoming use {rest}

  -- Only this descriptor has got bytes.
  abbrev pub Reads : ℤ → K → K → Type 0
  Reads fd k k' = (other : ℤ) → other ≢ fd → rest other k' ≡ rest other k

  -- What is received comes next.
  abbrev Gets : Socket → K → (Socket × Bool) × K → Type 0
  Gets s k r =
      length s.recv_buf < max_recv_buffer_size
      → (fresh : Bytes) × (r.0.0 ≡ append_recv s fresh)
        × (rest s.sockfd k ≡ fresh ++ rest s.sockfd r.1)
        × Reads s.sockfd k r.1

  recv-Reads :
      (fd : ℤ) (room : ℕ) (k k' : K) (o : RecvResult)
      → world.kernel.recv fd room k ≡ (o, k')
      → Reads fd k k'
  recv-Reads fd room k k' o e other ne = ground (arith, e, incoming.recv_other fd other room k ne)

  Gets-quiet :
      (s : Socket) (k k' : K) (o : RecvResult) (ok : Bool)
      → world.kernel.recv s.sockfd (max_recv_buffer_size - length s.recv_buf) k ≡ (o, k')
      → (o ≡ recv_again) ⊎ ((o ≡ recv_failed) ⊎ (o ≡ received []))
      → Gets s k ((s, ok), k')
  Gets-quiet s k k' o ok e d lt =
      let room = max_recv_buffer_size - length s.recv_buf in
      let law = incoming.recv_rest s.sockfd room k in
      (
        [],
        ground (arith, append-nil s.recv_buf),
        ground (arith, e, law),
        recv-Reads s.sockfd room k k' o e,
      )

  Gets-last :
      (s : Socket) (k k' : K) (bs : Bytes)
      → world.kernel.recv s.sockfd (max_recv_buffer_size - length s.recv_buf) k ≡ (received bs, k')
      → Gets s k ((append_recv s bs, true), k')
  Gets-last s k k' bs e lt =
      let room = max_recv_buffer_size - length s.recv_buf in
      let law = incoming.recv_rest s.sockfd room k in
      (bs, refl, ground (arith, e, law), recv-Reads s.sockfd room k k' (received bs) e)

  Gets-next :
      (s : Socket) (k k' : K) (bs : Bytes) (r : (Socket × Bool) × K)
      → world.kernel.recv s.sockfd (max_recv_buffer_size - length s.recv_buf) k ≡ (received bs, k')
      → length s.recv_buf + length bs < msg_len
      → Gets (append_recv s bs) k' r
      → Gets s k r
  Gets-next s k k' bs r e fits ih lt =
      let room = max_recv_buffer_size - length s.recv_buf in
      let law = incoming.recv_rest s.sockfd room k in
      let others = recv-Reads s.sockfd room k k' (received bs) e in
      let (fresh, grown, split, others') = ih (omega (arith, length-append s.recv_buf bs)) in
      (
        bs ++ fresh,
        ground (arith, grown, append_assoc s.recv_buf bs fresh),
        ground (arith, e, law, split, append_assoc bs fresh (rest s.sockfd r.1)),
        λ other ne. others' other ne ∙ others other ne,
      )

  -- What recvMsg appends to an empty buffer is what comes next.
  pub recv_msg-rest :
      (s : Socket) (k : K)
      → s.recv_buf ≡ []
      → (fresh : Bytes) × (ok : Bool) × (k' : K) × (recv_msg world.kernel s k
          ≡ some ((append_recv s fresh, ok), k'))
        × (rest s.sockfd k ≡ fresh ++ rest s.sockfd k')
        × Reads s.sockfd k k'
  unfolding recv_msg receive_message
  recv_msg-rest s k clear =
      let (((s', ok), k'), e, p) =
        receive_loop_rule world.kernel Gets Gets-quiet Gets-last Gets-next (suc msg_len) s k
          (omega arith) (omega arith) in
      let (fresh, grown, split, reads) = p (ground (arith, clear)) in
      (fresh, true, k', ground (arith, e, clear, grown), split, reads)

  report_one-rest :
      {D : Type 0} (float : Float D) (fd : ℤ) (info : FlowEndInfo) (s : Scheduler D) (k : K)
      → rest fd (report_one float world info s k).1 ≡ rest fd k
  unfolding report_one
  report_one-rest float fd info s k = elim (Option-cases (end_in info s.coflows).1) [
    | inl e ↦ rw (e, report_one) refl
    | inr (co, e) ↦ rw (e, report_one) (incoming.clock_rest fd k)
  ]

  pub drain-rest :
      {D : Type 0} (float : Float D) (fd : ℤ) (infos : List FlowEndInfo) (s : Scheduler D) (k : K)
      → rest fd (drain float world infos s k).1 ≡ rest fd k
  drain-rest float fd [] s k = unfold drain in refl
  drain-rest float fd (info ∷ infos) s k =
      let r = report_one float world info s k in
      elim (Bool-cases r.0.1) [
        | inl stops ↦
            rw (drain_stops float world info infos s k stops) (report_one-rest float fd info s k)
        | inr more ↦
            rw (drain_goes_on float world info infos s k more)
              (drain-rest float fd infos r.0.0 r.1 ∙ report_one-rest float fd info s k)
      ]
