-- ===== src/Common/Socket/Receive.antt =====
-- The receive loop ends, keeps within the buffer, and appends what the kernel hands out.
use coflow_sim_online.Common.Socket.Kernels.{Pipe}
use coflow_sim_online.Base.{
  Bool, Bool-cases, [], append-nil, append_assoc, arith, false, inl, inr, leb, length,
  length-append, ltb, refl, some, suc, true, zero, ℕ, ◌++◌, ◌+◌, ◌-◌, ◌<◌, ◌∷◌, ◌≡◌, ◌≤◌, ◌⊎◌,
}
use coflow_sim_online.Common.Socket.{
  Kernel, RecvResult, received, recv_again, recv_failed, receive_message, Socket, receive_loop,
  Bytes, max_recv_buffer_size, msg_len,
}

abbrev pub append_recv : Socket → Bytes → Socket
append_recv s bs = record s { recv_buf = s.recv_buf ++ bs }

module _ {K : Type 0} (kernel : Kernel K) where
  -- What holds where the loop stops, and carries over from a read that goes on, holds of its result.
  pub receive_loop_rule :
      (P : Socket → K → (Socket × Bool) × K → Type 0)
      → ((s : Socket) (k k' : K) (o : RecvResult) (ok : Bool)
          → kernel.recv s.sockfd (max_recv_buffer_size - length s.recv_buf) k ≡ (o, k')
          → (o ≡ recv_again) ⊎ ((o ≡ recv_failed) ⊎ (o ≡ received []))
          → P s k ((s, ok), k'))
      → ((s : Socket) (k k' : K) (bs : Bytes)
          → kernel.recv s.sockfd (max_recv_buffer_size - length s.recv_buf) k ≡ (received bs, k')
          → P s k ((append_recv s bs, true), k'))
      → ((s : Socket) (k k' : K) (bs : Bytes) (r : (Socket × Bool) × K)
          → kernel.recv s.sockfd (max_recv_buffer_size - length s.recv_buf) k ≡ (received bs, k')
          → length s.recv_buf + length bs < msg_len
          → P (append_recv s bs) k' r
          → P s k r)
      → (fuel : ℕ) (s : Socket) (k : K) → 0 < fuel
      → msg_len < length s.recv_buf + fuel
      → (r : (Socket × Bool) × K) × (receive_loop kernel fuel s k ≡ some r) × P s k r
  unfolding receive_loop
  receive_loop_rule P quiet last next zero s k h lt = absurd (omega arith)
  receive_loop_rule P quiet last next (suc fuel) s k h lt =
      go (kernel.recv s.sockfd (max_recv_buffer_size - length s.recv_buf) k) refl
        (receive_loop_rule P quiet last next fuel)
    where
      go :
          (o : RecvResult × K)
          → kernel.recv s.sockfd (max_recv_buffer_size - length s.recv_buf) k ≡ o
          → ((s' : Socket) (k' : K)
              → 0 < fuel
              → msg_len < length s'.recv_buf + fuel
              → (r : (Socket × Bool) × K) × (receive_loop kernel fuel s' k' ≡ some r) × P s' k' r)
          → (r : (Socket × Bool) × K) × (receive_loop kernel (suc fuel) s k ≡ some r) × P s k r
      go (recv_again, k') e ih =
          (((s, true), k'), ground arith, quiet s k k' recv_again true e (inl refl))
      go (recv_failed, k') e ih =
          (((s, false), k'), ground arith, quiet s k k' recv_failed false e (inr (inl refl)))
      go (received [], k') e ih =
          (((s, false), k'), ground arith, quiet s k k' (received []) false e (inr (inr refl)))
      go (received (b ∷ bs), k') e ih =
          let s' = append_recv s (b ∷ bs) in
          let grows = length-append s.recv_buf (b ∷ bs) in
          elim (Bool-cases (leb msg_len (length s'.recv_buf))) [
            | inl stop ↦ (((s', true), k'), ground (arith, stop), last s k k' (b ∷ bs) e)
            | inr more ↦
                let (r, e', p) =
                  ih s' k' (ground (arith, more, grows)) (ground (arith, more, grows)) in
                (
                  r,
                  ground (arith, more, e'),
                  next s k k' (b ∷ bs) r e (ground (arith, more, grows)) p,
                )
          ]

  -- receiveMessage ends, whatever the kernel returns: each round reads a byte or is the last.
  pub receive_message_total :
      (s : Socket) (k : K) → (r : (Socket × Bool) × K) × (receive_message kernel s k ≡ some r)
  unfolding receive_message
  receive_message_total s k = elim (Bool-cases (ltb max_recv_buffer_size (length s.recv_buf))) [
    | inl full ↦ (((s, false), k), rw full refl)
    | inr room ↦
        let (r, e, _) =
          receive_loop_rule (λ _ _ _. Unit) (λ s k k' o ok e d. tt) (λ s k k' bs e. tt)
            (λ s k k' bs r e lt p. tt) (suc msg_len) s k (omega arith) (omega arith) in
        (r, rw room e)
  ]

module _ {K : Type 0} (kernel : Kernel K) (pipe : Pipe kernel) where
  -- The call only appended to the receive buffer, within its bounds, what the kernel handed out.
  abbrev pub Appends : Socket → K → (Socket × Bool) × K → Type 0
  Appends s k r =
      (fresh : Bytes) × (r.0.0 ≡ append_recv s fresh)
      × (pipe.given r.1 ≡ pipe.given k ++ fresh)
      × (length (s.recv_buf ++ fresh) ≤ max_recv_buffer_size)

  abbrev IfFits : Socket → K → (Socket × Bool) × K → Type 0
  IfFits s k r = length s.recv_buf ≤ max_recv_buffer_size → Appends s k r

  loop_quiet :
      (s : Socket) (k k' : K) (o : RecvResult) (ok : Bool)
      → kernel.recv s.sockfd (max_recv_buffer_size - length s.recv_buf) k ≡ (o, k')
      → (o ≡ recv_again) ⊎ ((o ≡ recv_failed) ⊎ (o ≡ received []))
      → IfFits s k ((s, ok), k')
  loop_quiet s k k' o ok e d fits =
      let law = pipe.recv_law s.sockfd (max_recv_buffer_size - length s.recv_buf) k in
      (
        [],
        ground (arith, append-nil s.recv_buf),
        ground (arith, law, append-nil (pipe.given k)),
        ground (arith, append-nil s.recv_buf),
      )

  loop_last :
      (s : Socket) (k k' : K) (bs : Bytes)
      → kernel.recv s.sockfd (max_recv_buffer_size - length s.recv_buf) k ≡ (received bs, k')
      → IfFits s k ((append_recv s bs, true), k')
  loop_last s k k' bs e fits =
      let law = pipe.recv_law s.sockfd (max_recv_buffer_size - length s.recv_buf) k in
      (bs, refl, ground (arith, law), ground (arith, law, length-append s.recv_buf bs))

  loop_next :
      (s : Socket) (k k' : K) (bs : Bytes) (r : (Socket × Bool) × K)
      → kernel.recv s.sockfd (max_recv_buffer_size - length s.recv_buf) k ≡ (received bs, k')
      → length s.recv_buf + length bs < msg_len
      → IfFits (append_recv s bs) k' r
      → IfFits s k r
  loop_next s k k' bs r e lt ih fits =
      let law = pipe.recv_law s.sockfd (max_recv_buffer_size - length s.recv_buf) k in
      let (fresh, grown, given, bound) = ih (omega (arith, length-append s.recv_buf bs)) in
      (
        bs ++ fresh,
        ground (arith, append_assoc s.recv_buf bs fresh),
        ground (arith, law, append_assoc (pipe.given k) bs fresh),
        ground (arith, append_assoc s.recv_buf bs fresh),
      )

  -- receiveMessage ends, and what it does to a socket whose buffer is in bounds is to append
  -- exactly the bytes that the kernel handed out meanwhile, in order, and still in bounds.
  pub receive_message-Appends :
      (s : Socket) (k : K)
      → length s.recv_buf ≤ max_recv_buffer_size
      → (r : (Socket × Bool) × K) × (receive_message kernel s k ≡ some r) × Appends s k r
  unfolding receive_message
  receive_message-Appends s k fits =
      let (r, e, p) =
        receive_loop_rule kernel IfFits loop_quiet loop_last loop_next (suc msg_len) s k
          (omega arith) (omega arith) in
      (r, ground (arith, e), p fits)
