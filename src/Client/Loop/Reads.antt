-- ===== src/Client/Loop/Reads.antt =====
-- The events of the master's connection, as the reads that they make.
use coflow_sim_online.Base.{
  Bool, Bool-cases, List, Option, Option-cases, [], ap, append-nil, append_assoc, arith, false,
  flatten, if◌then◌else◌, inl, inr, length, refl, some, subst, sym, true, ℤ, ◌&&◌, ◌++◌, ◌==ℤ◌,
  ◌>>=◌, ◌∙◌, ◌∷◌, ◌≡◌,
}
use coflow_sim_online.Text.{Bytes}
use coflow_sim_online.Client.Loop.Appending.{append_all-append, append_all-master}
use coflow_sim_online.Common.Epoll.{any_of, epollin}
use coflow_sim_online.Common.Float.{Float}
use coflow_sim_online.Common.Socket.{Socket, Kernel, receive_message, recv_msg, get_recv_buf}
use coflow_sim_online.Common.Socket.Kernels.{Pipe}
use coflow_sim_online.Common.Socket.Receive.{receive_message-Appends}
use coflow_sim_online.Client.Inbox.{on_input, on_inputs}
use coflow_sim_online.Client.Senders.{SendTask, SendManager}
use coflow_sim_online.Client.Receiver.{Event}
use coflow_sim_online.Client.Loop.{on_events, append_all, on_master, on_event}

-- The event makes the client read from the master.
abbrev pub is_read : ℤ → Event → Bool
is_read masterfd e = (e.fd ==ℤ masterfd) && any_of e.events epollin

module _ {K : Type 0} (kernel : Kernel K) where
  -- The kernel after the reads that these events lead to, on a socket whose buffer is empty each time.
  unfoldable pub after_reads : ℤ → List Event → Socket → K → Option K
  after_reads masterfd [] s k = some k
  after_reads masterfd (e ∷ es) s k =
      if is_read masterfd e
      then (receive_message kernel s k >>= λ r. after_reads masterfd es s r.1)
      else after_reads masterfd es s k

module _ {D K : Type 0} (float : Float D) (kernel : Kernel K) (pipe : Pipe kernel) where
  recv_msg-fresh :
      (s : Socket) (k : K)
      → s.recv_buf ≡ []
      → (fresh : Bytes) × (k' : K) × (ok : Bool) × (receive_message kernel s k
          ≡ some ((record s { recv_buf = fresh }, ok), k'))
        × (pipe.given k' ≡ pipe.given k ++ fresh)
  recv_msg-fresh s k empty =
      let (r, e, (fresh, grown, given, _)) =
        receive_message-Appends kernel pipe s k (omega (arith, ap length empty)) in
      (fresh, r.1, r.0.1, ground (arith, e, grown, empty), given)

  emptied :
      (sm : SendManager D)
      → sm.master.recv_buf ≡ []
      → record sm { master = record sm.master { recv_buf = [] } } ≡ sm
  emptied sm empty =
      ap (λ buf. record sm { master = record sm.master { recv_buf = buf } }) (sym empty)

  recv_msg_step :
      (s : Socket) (k : K) {s' : Socket} {ok : Bool} {k' : K}
      → receive_message kernel s k ≡ some ((s', ok), k')
      → recv_msg kernel s k ≡ some ((s', true), k')
  unfolding recv_msg
  recv_msg_step s k reads = rw (reads, recv_msg) refl

  on_master_step :
      (raw : SendTask D) (recvbuf : Bytes) (sm : SendManager D) (k : K) {fresh : Bytes} {ok : Bool}
      {k' : K}
      → sm.master.recv_buf ≡ []
      → receive_message kernel sm.master k ≡ some ((record sm.master { recv_buf = fresh }, ok), k')
      → on_master float kernel raw recvbuf sm k ≡ (
          append_all float raw (on_input recvbuf fresh).1 sm >>= λ sm'.
          some (((on_input recvbuf fresh).0, sm'), k'))
  unfolding on_master get_recv_buf on_input
  on_master_step raw recvbuf sm k {fresh} {ok} {k'} empty reads =
      rw (recv_msg_step sm.master k reads, on_master, emptied sm empty) refl

  -- One read.
  on_master_lem :
      (raw : SendTask D) (recvbuf : Bytes) (sm : SendManager D) (k : K)
      → sm.master.recv_buf ≡ []
      → (fresh : Bytes) × (k' : K) × (ok : Bool) × (receive_message kernel sm.master k
          ≡ some ((record sm.master { recv_buf = fresh }, ok), k'))
        × (pipe.given k' ≡ pipe.given k ++ fresh)
        × (on_master float kernel raw recvbuf sm k ≡ (
            append_all float raw (on_input recvbuf fresh).1 sm >>= λ sm'.
            some (((on_input recvbuf fresh).0, sm'), k')))
  on_master_lem raw recvbuf sm k empty =
      let (fresh, k', ok, reads, given) = recv_msg-fresh sm.master k empty in
      (fresh, k', ok, reads, given, on_master_step raw recvbuf sm k empty reads)

  -- A client whose master is this socket works off the events like these chunks.
  abbrev pub Works : SendTask D → ℤ → List Event → Bytes → Socket → K → List Bytes → K → Type 0
  Works raw masterfd es recvbuf s k chunks k' =
      (sm sm' : SendManager D)
      → sm.master ≡ s
      → append_all float raw (on_inputs recvbuf chunks).1 sm ≡ some sm'
      → on_events float kernel raw masterfd es recvbuf sm k
        ≡ some (((on_inputs recvbuf chunks).0, sm'), k')

  abbrev pub Reads : SendTask D → ℤ → List Event → Bytes → Socket → K → Type 0
  Reads raw masterfd es recvbuf s k =
      (chunks : List Bytes) × (k' : K) × (after_reads kernel masterfd es s k ≡ some k')
      × (pipe.given k' ≡ pipe.given k ++ flatten chunks)
      × Works raw masterfd es recvbuf s k chunks k'

  on_event_reads :
      (raw : SendTask D) (masterfd : ℤ) (e : Event) (recvbuf : Bytes) (sm : SendManager D) (k : K)
      → is_read masterfd e ≡ true
      → on_event float kernel raw masterfd e recvbuf sm k ≡ on_master float kernel raw recvbuf sm k
  unfolding on_event
  on_event_reads raw masterfd e recvbuf sm k h = ground arith

  on_event_skips :
      (raw : SendTask D) (masterfd : ℤ) (e : Event) (recvbuf : Bytes) (sm : SendManager D) (k : K)
      → is_read masterfd e ≡ false
      → on_event float kernel raw masterfd e recvbuf sm k ≡ some ((recvbuf, sm), k)
  unfolding on_event
  on_event_skips raw masterfd e recvbuf sm k h = ground arith

  on_inputs_cons :
      (recvbuf fresh : Bytes) (chunks : List Bytes)
      → on_inputs recvbuf (fresh ∷ chunks) ≡ (
        (on_inputs (on_input recvbuf fresh).0 chunks).0,
        (on_input recvbuf fresh).1 ++ (on_inputs (on_input recvbuf fresh).0 chunks).1,
      )
  unfolding on_inputs
  on_inputs_cons recvbuf fresh chunks = refl

  reads_step :
      (raw : SendTask D) (masterfd : ℤ) (e : Event) (es : List Event) (recvbuf fresh : Bytes)
      (s : Socket) (k k1 k' : K) (ok : Bool) (chunks : List Bytes)
      → s.recv_buf ≡ []
      → is_read masterfd e ≡ true
      → receive_message kernel s k ≡ some ((record s { recv_buf = fresh }, ok), k1)
      → Works raw masterfd es (on_input recvbuf fresh).0 s k1 chunks k'
      → Works raw masterfd (e ∷ es) recvbuf s k (fresh ∷ chunks) k'
  unfolding on_events
  reads_step raw masterfd e es recvbuf fresh s k k1 k' ok chunks empty at reads later sm sm' own
        all_of =
      let first = (on_input recvbuf fresh).1 in
      let more = (on_inputs (on_input recvbuf fresh).0 chunks).1 in
      let both : (append_all float raw first sm >>= λ sm1. append_all float raw more sm1)
          ≡ some sm' =
        sym (append_all-append float raw first more sm)
        ∙ ap (λ r. append_all float raw r.1 sm) (sym (on_inputs_cons recvbuf fresh chunks))
        ∙ all_of in
      let step =
        on_master_step raw recvbuf sm k {fresh = fresh} {ok = ok} {k' = k1}
          (subst (λ t. t.recv_buf ≡ []) (sym own) empty)
          (subst (λ t. receive_message kernel t k ≡ some ((record t { recv_buf = fresh }, ok), k1))
            (sym own) reads) in
      elim (Option-cases (append_all float raw first sm)) [
        | inl stuck ↦ ground (arith, both, stuck)
        | inr (sm1, e1) ↦
            let rest =
              later sm1 sm' (append_all-master float raw first sm {sm' = sm1} e1 ∙ own)
                (ground (arith, both, e1)) in
            rw
              (
                on_events,
                on_event_reads raw masterfd e recvbuf sm k at,
                step,
                e1,
                on_inputs_cons recvbuf fresh chunks,
              )
              rest
      ]

  reads_skip :
      (raw : SendTask D) (masterfd : ℤ) (e : Event) (es : List Event) (recvbuf : Bytes) (s : Socket)
      (k k' : K) (chunks : List Bytes)
      → is_read masterfd e ≡ false
      → Works raw masterfd es recvbuf s k chunks k'
      → Works raw masterfd (e ∷ es) recvbuf s k chunks k'
  unfolding on_events
  reads_skip raw masterfd e es recvbuf s k k' chunks skips works sm sm' own all_of =
      rw (on_events, on_event_skips raw masterfd e recvbuf sm k skips) (works sm sm' own all_of)

  reads_nil :
      (raw : SendTask D) (masterfd : ℤ) (recvbuf : Bytes) (s : Socket) (k : K)
      → Works raw masterfd [] recvbuf s k [] k
  unfolding on_events on_inputs append_all
  reads_nil raw masterfd recvbuf s k sm sm' own all_of =
      ap (λ o. o >>= λ sm1. some ((recvbuf, sm1), k)) all_of

  given-flatten :
      (k : K) (fresh : Bytes) (chunks : List Bytes) {k1 k' : K}
      → pipe.given k1 ≡ pipe.given k ++ fresh
      → pipe.given k' ≡ pipe.given k1 ++ flatten chunks
      → pipe.given k' ≡ pipe.given k ++ flatten (fresh ∷ chunks)
  unfolding flatten
  given-flatten k fresh chunks a b =
      b ∙ ap (◌++ flatten chunks) a ∙ append_assoc (pipe.given k) fresh (flatten chunks)

  given-nil : (k : K) → pipe.given k ≡ pipe.given k ++ flatten []
  unfolding flatten
  given-nil k = sym (append-nil (pipe.given k))

  -- Any events make the client read some chunks, and work them off one after another.
  pub reads_lem :
      (raw : SendTask D) (masterfd : ℤ) (es : List Event) (recvbuf : Bytes) (s : Socket) (k : K)
      → s.recv_buf ≡ []
      → Reads raw masterfd es recvbuf s k
  unfolding after_reads
  reads_lem raw masterfd [] recvbuf s k empty =
      ([], k, refl, given-nil k, reads_nil raw masterfd recvbuf s k)
  reads_lem raw masterfd (e ∷ es) recvbuf s k empty = elim (Bool-cases (is_read masterfd e)) [
    | inl at ↦
        let (fresh, k1, ok, reads, given) = recv_msg-fresh s k empty in
        let (chunks, k', after, given', works) =
          reads_lem raw masterfd es (on_input recvbuf fresh).0 s k1 empty in
        (
          fresh ∷ chunks,
          k',
          ground (arith, at, reads, after),
          given-flatten k fresh chunks given given',
          reads_step raw masterfd e es recvbuf fresh s k k1 k' ok chunks empty at reads works,
        )
    | inr skips ↦
        let (chunks, k', after, given', works) = reads_lem raw masterfd es recvbuf s k empty in
        (
          chunks,
          k',
          ground (arith, skips, after),
          given',
          reads_skip raw masterfd e es recvbuf s k k' chunks skips works,
        )
  ]
