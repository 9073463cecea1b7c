-- ===== src/Client/Sender.antt =====
-- `Sender` of src/client/SendManager.h: sends the data of one task. `none` is `exit(1)`.
use coflow_sim_online.Common.Float.{Float}
use coflow_sim_online.Base.{
  List, Option, [], none, pos, pos_part, replicate, some, suc, zero, ℕ, ℤ, ◌>>=◌, ◌∷◌,
}
use coflow_sim_online.Text.{Bytes}
use coflow_sim_online.Common.Epoll.{SysCall, close}
use coflow_sim_online.Common.Socket.{Kernel, sent, send_again, send_failed}
use coflow_sim_online.Client.Senders.{SendTask, sent_off}

abbrev pub sender_buffer_size : ℕ
sender_buffer_size = 1024

-- `memset(buffer, 'a', sizeof(buffer))`
unfoldable pub block : Bytes
block = replicate sender_buffer_size b'a'

-- `flowSizeKB`
unfoldable pub flow_size_kb : {D : Type 0} → Float D → SendTask D → ℤ
flow_size_kb float t = float.to_int (float.mul_int t.flow_size_mb (pos 1024))

module _ {K : Type 0} (kernel : Kernel K) where
  -- The loop around `send`, of which only a negative result counts.
  unfoldable pub send_blocks : ℕ → ℤ → K → Option K
  send_blocks zero fd k = some k
  send_blocks (suc n) fd k =
      let (r, k') = kernel.send fd block k in
      let later = send_blocks n fd k' in
      elim r [ sent _ ↦ later | send_again ↦ none | send_failed ↦ none ]

  -- `now` is the time at the end.
  unfoldable pub run :
      {D : Type 0}
      → Float D
      → (now fd : ℤ) → SendTask D
      → K
      → Option ((SendTask D × List SysCall) × K)
  unfolding send_blocks flow_size_kb
  run float now fd t k = do
    k' ← send_blocks (pos_part (flow_size_kb float t)) fd k
    some ((sent_off now t, close fd ∷ []), k')
