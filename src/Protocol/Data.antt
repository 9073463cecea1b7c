-- ===== src/Protocol/Data.antt =====
-- The data of a flow, from the `Sender` of one client to the `ReceFile` of another.
use coflow_sim_online.Client.Sender.{flow_size_kb, block, send_blocks, run, sender_buffer_size}
use coflow_sim_online.Common.Float.{Float, WholeLaws}
use coflow_sim_online.Base.{
  List, Option-cases, [], ap, append-nil, append_assoc, arith, inl, inr, length, length-append, pos,
  pos_part, refl, some, suc, sym, take-length, zero, ℕ, ℤ, ◌*◌, ◌++◌, ◌<◌, ◌^◌, ◌∙◌, ◌∷◌, ◌≡◌, ◌⊎◌,
}
use coflow_sim_online.Text.{Bytes}
use coflow_sim_online.Common.Epoll.{SysCall, close}
use coflow_sim_online.Common.Socket.{Kernel, sent, SendResult, send_again, send_failed}
use coflow_sim_online.Common.Socket.Kernels.{Pipe}
use coflow_sim_online.Common.Socket.Send.{IsWhole}
use coflow_sim_online.Client.Senders.{SendTask, sent_off}
use coflow_sim_online.Client.Receiver.{RecvManager, run_file, close_fd, forget}
use coflow_sim_online.Client.Receiver.Discard.{Line, run_file-closes}

abbrev pub blocks : ℕ → Bytes
blocks zero = []
blocks (suc n) = block ++ blocks n

length-block : length block ≡ sender_buffer_size
unfolding block
length-block = refl

length-blocks : (n : ℕ) → length (blocks n) ≡ n * sender_buffer_size
length-blocks zero = omega arith
length-blocks (suc n) = omega (arith, length-append block (blocks n), length-block, length-blocks n)

SendResult-cases :
    (r : SendResult) → ((n : ℕ) × (r ≡ sent n)) ⊎ ((r ≡ send_again) ⊎ (r ≡ send_failed))
SendResult-cases (sent n) = inl (n, refl)
SendResult-cases send_again = inr (inl refl)
SendResult-cases send_failed = inr (inr refl)

sent-cases :
    {K : Type 0} (kernel : Kernel K) (fd : ℤ) (k : K) (n : ℕ) {k' : K}
    → send_blocks kernel (suc n) fd k ≡ some k'
    → (c : ℕ) × ((kernel.send fd block k).0 ≡ sent c)
      × (send_blocks kernel n fd (kernel.send fd block k).1 ≡ some k')
unfolding send_blocks
sent-cases kernel fd k n h = elim (SendResult-cases (kernel.send fd block k).0) [
  | inl (c, e) ↦ (c, e, ground (arith, e, h))
  | inr (inl e) ↦ ground (arith, e, h)
  | inr (inr e) ↦ ground (arith, e, h)
]

run-cases :
    {K D : Type 0} (kernel : Kernel K) (float : Float D) (now fd : ℤ) (t : SendTask D) (k : K)
    {t' : SendTask D} {calls : List SysCall} {k' : K}
    → run kernel float now fd t k ≡ some ((t', calls), k')
    → (t' ≡ sent_off now t)
      × (calls ≡ close fd ∷ [])
      × (send_blocks kernel (pos_part (flow_size_kb float t)) fd k ≡ some k')
unfolding run
run-cases kernel float now fd t k h =
    elim (Option-cases (send_blocks kernel (pos_part (flow_size_kb float t)) fd k)) [
      | inl e ↦ ground (arith, e)
      | inr (k1, e) ↦ (ground (arith, e), ground (arith, e), ground (arith, e))
    ]

flow_size_kb-whole :
    {D : Type 0} (float : Float D) (laws : WholeLaws float) (t : SendTask D) (megabytes : ℕ)
    → t.flow_size_mb ≡ float.of_int (pos megabytes)
    → megabytes * 1024 < 2 ^ 31
    → pos_part (flow_size_kb float t) ≡ megabytes * 1024
unfolding flow_size_kb
flow_size_kb-whole float laws t megabytes size fits =
    ap (λ d. pos_part (float.to_int (float.mul_int d (pos 1024)))) size
    ∙ ap pos_part (laws.to_int_product megabytes 1024 fits)

module _ {K : Type 0} (kernel : Kernel K) (pipe : Pipe kernel) (whole : IsWhole kernel) where
  send-block :
      (fd : ℤ) (k : K) (n : ℕ)
      → (kernel.send fd block k).0 ≡ sent n
      → pipe.taken (kernel.send fd block k).1 ≡ pipe.taken k ++ block
  send-block fd k n e =
      let law = pipe.send_law fd block k in
      ground (arith, e, law, whole fd block k n e, take-length block)

  send_blocks-taken :
      (n : ℕ) (fd : ℤ) (k : K) {k' : K}
      → send_blocks kernel n fd k ≡ some k'
      → pipe.taken k' ≡ pipe.taken k ++ blocks n
  unfolding send_blocks
  send_blocks-taken zero fd k h = ground (arith, append-nil (pipe.taken k))
  send_blocks-taken (suc n) fd k h =
      let (c, e, later) = sent-cases kernel fd k n h in
      ground (
        arith,
        send_blocks-taken n fd (kernel.send fd block k).1 later,
        send-block fd k c e,
        append_assoc (pipe.taken k) block (blocks n),
      )

  module _ {L : Type 0} (peer : Kernel L) (line : Line peer) where
    -- A flow has a whole number of megabytes, of which 1024 times is below 2 ^ 31, and in double
    -- the products of whole numbers below that are exact. Then a Sender that gets to its end, on
    -- a kernel that takes a buffer whole or not at all, marks its task as ended at that time and
    -- closes its socket; and a receiver whose connection brings just what was sent gets 1024 *
    -- 1024 bytes for each megabyte, and then closes the connection.
    pub flow_arrives :
        {D : Type 0} (float : Float D) (laws : WholeLaws float) (now fd : ℤ) (t : SendTask D)
        (megabytes : ℕ) (k : K) (i n : ℕ) (m : RecvManager) (l : L) {t' : SendTask D}
        {calls : List SysCall} {k' : K}
        → t.flow_size_mb ≡ float.of_int (pos megabytes)
        → megabytes * 1024 < 2 ^ 31
        → run kernel float now fd t k ≡ some ((t', calls), k')
        → pipe.taken k' ≡ pipe.taken k ++ line.rest l
        → m.rece_files i ≡ some (pos n)
        → (t' ≡ sent_off now t)
          × (calls ≡ close fd ∷ [])
          × (length (line.rest l) ≡ megabytes * 1024 * 1024)
          × ((l' : L) × (run_file peer (suc (length (line.rest l))) i m l
                ≡ some (forget i (close_fd (pos n) m), l'))
              × (line.rest l' ≡ []))
    flow_arrives float laws now fd t megabytes k i n m l {t'} {calls} {k'} size fits h same own =
        let (task, closed, sent_all) = run-cases kernel float now fd t k h in
        let num = pos_part (flow_size_kb float t) in
        (
          task,
          closed,
          omega (
            arith,
            ap length (sym same ∙ send_blocks-taken num fd k sent_all),
            length-append (pipe.taken k) (line.rest l),
            length-append (pipe.taken k) (blocks num),
            length-blocks num,
            flow_size_kb-whole float laws t megabytes size fits,
          ),
          run_file-closes peer line i n m l own,
        )
