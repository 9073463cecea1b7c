-- ===== src/Common/Socket/Send.antt =====
-- The send buffer: no message is lost or torn while the kernel takes all or nothing.
use coflow_sim_online.Common.Socket.Kernels.{Sends, Pipe}
use coflow_sim_online.Base.{
  Bool, List, Option, Option-cases, [], append-nil, append_assoc, arith, false, if◌then◌else◌, inl,
  inr, length, length-append, none, refl, some, take, take-length, true, ℕ, ℤ, ◌++◌, ◌+◌, ◌<◌,
  ◌>>=◌, ◌↔◌, ◌∷◌, ◌≡◌, ◌⊎◌,
}
use coflow_sim_online.Text.{Bytes}
use coflow_sim_online.Common.Socket.{
  Socket, max_send_buffer_size, set_send_msg, Kernel, after_send, SendResult, sent, send_msg,
  send_message,
}

-- setSendMsg writes its NUL past the end of m_sendBuf exactly when the message fills the array.
pub set_send_msg_overflow :
    (msg : Bytes) (s : Socket)
    → (set_send_msg msg s ≡ none) ↔ (length s.send_buf + length msg ≡ max_send_buffer_size)
unfolding set_send_msg
set_send_msg_overflow msg s = ground arith

-- When setSendMsg makes no out-of-bounds write, a message that it refuses, for want of room,
-- changes nothing, and one that it accepts stands whole behind the others, with room left for the
-- NUL.
pub set_send_msg_buffer :
    (msg : Bytes) (s : Socket) {s' : Socket} {ok : Bool}
    → set_send_msg msg s ≡ some (s', ok)
    → ((ok ≡ true)
        × (s'.send_buf ≡ s.send_buf ++ msg)
        × (length s'.send_buf < max_send_buffer_size))
      ⊎ ((ok ≡ false) × (s' ≡ s) × (max_send_buffer_size < length s.send_buf + length msg))
unfolding set_send_msg
set_send_msg_buffer msg s h = ground (arith, length-append s.send_buf msg)

pub data SendOp : Type 0 where
  queue : Bytes → SendOp
  flush : SendOp

module _ {K : Type 0} (kernel : Kernel K) where
  -- One call of `setSendMsg` or `sendMsg`, with the bytes that `setSendMsg` accepted.
  unfoldable pub send_step : SendOp → Socket → K → Option ((Socket × K) × Bytes)
  send_step (queue msg) s k = elim (set_send_msg msg s) [
    | none ↦ none
    | some (s', ok) ↦ some ((s', k), if ok then msg else [])
  ]
  send_step flush s k = let ((s', _), k') = send_msg kernel s k in some ((s', k'), [])

  unfoldable pub send_steps : List SendOp → Socket → K → Option ((Socket × K) × Bytes)
  send_steps [] s k = some ((s, k), [])
  send_steps (op ∷ ops) s k = do
    ((s', k'), accepted) ← send_step op s k
    (last, accepted') ← send_steps ops s' k'
    some (last, accepted ++ accepted')

  -- The kernel takes a buffer whole or not at all.
  abbrev pub IsWhole : Type 0
  IsWhole =
      (fd : ℤ) (buf : Bytes) (k : K) (n : ℕ) → (kernel.send fd buf k).0 ≡ sent n → n ≡ length buf

length-eq-zero : (xs : Bytes) → length xs ≡ 0 → xs ≡ []
length-eq-zero [] h = refl
length-eq-zero (x ∷ xs) h = absurd (omega arith)

after_send-Sends :
    (r : SendResult) (s : Socket) (before after : Bytes)
    → ((n : ℕ) → r ≡ sent n → n ≡ length s.send_buf)
    → Sends s.send_buf before after r
    → after ++ (after_send r s).0.send_buf ≡ before ++ s.send_buf
unfolding after_send
after_send-Sends (sent n) s before after whole (le, e) =
    ground (arith, whole n refl, take-length s.send_buf, append-nil (before ++ s.send_buf))
after_send-Sends SendResult.send_again s before after whole e = rw e
after_send-Sends SendResult.send_failed s before after whole e = rw e

module _ {K : Type 0} (kernel : Kernel K) (pipe : Pipe kernel) (whole : IsWhole kernel) where
  send_message-taken :
      (s : Socket) (k : K)
      → pipe.taken (send_message kernel s k).1 ++ (send_message kernel s k).0.0.send_buf
        ≡ pipe.taken k ++ s.send_buf
  unfolding send_message
  send_message-taken s k = ground (
    arith,
    length-eq-zero s.send_buf,
    after_send-Sends (kernel.send s.sockfd s.send_buf k).0 s (pipe.taken k)
        (pipe.taken (kernel.send s.sockfd s.send_buf k).1) (whole s.sockfd s.send_buf k)
        (pipe.send_law s.sockfd s.send_buf k),
  )

  pub send_msg-taken :
      (s : Socket) (k : K)
      → pipe.taken (send_msg kernel s k).1 ++ (send_msg kernel s k).0.0.send_buf
        ≡ pipe.taken k ++ s.send_buf
  unfolding send_msg
  send_msg-taken s k = ground (arith, send_message-taken s k)

  send_step-taken :
      (op : SendOp) (s : Socket) (k : K) {s' : Socket} {k' : K} {accepted : Bytes}
      → send_step kernel op s k ≡ some ((s', k'), accepted)
      → pipe.taken k' ++ s'.send_buf ≡ pipe.taken k ++ (s.send_buf ++ accepted)
  unfolding send_step
  send_step-taken (queue msg) s k h = elim (Option-cases (set_send_msg msg s)) [
    | inl e ↦ ground arith
    | inr ((t, ok), e) ↦ ground (arith, set_send_msg_buffer msg s e, append-nil s.send_buf)
  ]
  send_step-taken flush s k h = ground (arith, send_msg-taken s k, append-nil s.send_buf)

  -- Over any run of setSendMsg and sendMsg calls that makes no out-of-bounds write, with a
  -- kernel that takes a buffer whole or not at all, what the kernel has taken, followed by what
  -- is still queued, is what it had, what was queued, and the accepted messages, whole and in
  -- order.
  pub send_steps_lossless :
      (ops : List SendOp) (s : Socket) (k : K) {s' : Socket} {k' : K} {accepted : Bytes}
      → send_steps kernel ops s k ≡ some ((s', k'), accepted)
      → pipe.taken k' ++ s'.send_buf ≡ pipe.taken k ++ (s.send_buf ++ accepted)
  unfolding send_steps
  send_steps_lossless [] s k h = ground (arith, append-nil s.send_buf)
  send_steps_lossless (op ∷ ops) s k {s' = s'} {k' = k'} h =
      elim (Option-cases (send_step kernel op s k)) [
        | inl e ↦ ground arith
        | inr (((s1, k1), acc1), e) ↦ elim (Option-cases (send_steps kernel ops s1 k1)) [
          | inl e' ↦ ground arith
          | inr (((s2, k2), acc2), e') ↦ ground (
            arith,
            send_step-taken op s k e,
            send_steps_lossless ops s1 k1 e',
            append_assoc (pipe.taken k) (s.send_buf ++ acc1) acc2,
            append_assoc s.send_buf acc1 acc2,
            append_assoc (pipe.taken k1) s1.send_buf acc2,
          )
        ]
      ]

-- A send that takes only a part of the buffer leaves all of it queued, and the result of sendMsg
-- is true: the bytes that the kernel took are queued again.
pub send_msg_partial :
    {K : Type 0} (kernel : Kernel K) (pipe : Pipe kernel) (s : Socket) (k : K) (n : ℕ)
    → (kernel.send s.sockfd s.send_buf k).0 ≡ sent n
    → n < length s.send_buf
    → (pipe.taken (send_msg kernel s k).1 ++ (send_msg kernel s k).0.0.send_buf
        ≡ pipe.taken k ++ (take n s.send_buf ++ s.send_buf))
      × ((send_msg kernel s k).0.1 ≡ true)
unfolding send_msg send_message after_send
send_msg_partial kernel pipe s k n e lt = ground (
  arith,
  pipe.send_law s.sockfd s.send_buf k,
  append_assoc (pipe.taken k) (take n s.send_buf) s.send_buf,
)
