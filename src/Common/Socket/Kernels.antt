-- ===== src/Common/Socket/Kernels.antt =====
-- What the socket code relies on of send(2) and recv(2), and a kernel that does it.
use coflow_sim_online.Base.{
  [], arith, drop, if◌then◌else◌, length, length-take-le, ltb, refl, take, take-length, ℕ, ℤ, ◌++◌,
  ◌∷◌, ◌≡◌, ◌≤◌,
}
use coflow_sim_online.Text.{Bytes}
use coflow_sim_online.Common.Socket.{
  Kernel, SendResult, sent, send_again, send_failed, RecvResult, received, recv_again, recv_failed,
}

-- A send takes the first `n` bytes, and none if it fails.
abbrev pub Sends : Bytes → Bytes → Bytes → SendResult → Type 0
Sends buf before after (sent n) = (n ≤ length buf) × (after ≡ before ++ take n buf)
Sends buf before after send_again = after ≡ before
Sends buf before after send_failed = after ≡ before

-- A receive gives at most as many bytes as there is room for.
abbrev pub Receives : ℕ → Bytes → Bytes → RecvResult → Type 0
Receives room before after (received bs) = (length bs ≤ room) × (after ≡ before ++ bs)
Receives room before after recv_again = after ≡ before
Receives room before after recv_failed = after ≡ before

-- `taken` are the bytes that the kernel has accepted, `given` those that it has handed out.
pub record Pipe {K : Type 0} (kernel : Kernel K) : Type 0 where
  pub taken : K → Bytes
  pub given : K → Bytes
  pub send_law :
      (fd : ℤ) (buf : Bytes) (k : K)
      → Sends buf (taken k) (taken (kernel.send fd buf k).1) (kernel.send fd buf k).0
  pub recv_law :
      (fd : ℤ) (room : ℕ) (k : K)
      → Receives room (given k) (given (kernel.recv fd room k).1) (kernel.recv fd room k).0

-- A kernel with a stock of bytes to hand out, that accepts at most `window` bytes in a send.
pub record Loopback : Type 0 where
  pub out : Bytes
  pub handed : Bytes
  pub stock : Bytes
  pub window : ℕ

abbrev pub loopback_send : Bytes → Loopback → SendResult × Loopback
loopback_send buf k =
    if ltb k.window (length buf)
    then (sent k.window, record k { out = k.out ++ take k.window buf })
    else (sent (length buf), record k { out = k.out ++ buf })

abbrev pub give : ℕ → Bytes → Loopback → RecvResult × Loopback
give room [] k = (recv_again, k)
give room (b ∷ bs) k = (
  received (take room (b ∷ bs)),
  record k { handed = k.handed ++ take room (b ∷ bs); stock = drop room (b ∷ bs) },
)

abbrev pub loopback : Kernel Loopback
loopback = record {
  send = λ fd buf k. loopback_send buf k;
  recv = λ fd room k. give room k.stock k;
}

pub loopback_send-Sends :
    (buf : Bytes) (k : Loopback)
    → Sends buf k.out (loopback_send buf k).1.out (loopback_send buf k).0
loopback_send-Sends buf k = ground (arith, take-length buf)

pub give-Receives :
    (room : ℕ) (stock : Bytes) (k : Loopback)
    → Receives room k.handed (give room stock k).1.handed (give room stock k).0
give-Receives room [] k = refl
give-Receives room (b ∷ bs) k = (length-take-le room (b ∷ bs), refl)

abbrev pub loopback_pipe : Pipe loopback
loopback_pipe = record {
  taken = λ k. k.out;
  given = λ k. k.handed;
  send_law = λ fd buf k. loopback_send-Sends buf k;
  recv_law = λ fd room k. give-Receives room k.stock k;
}

-- A kernel that takes every buffer whole.
abbrev pub eager : Kernel Bytes
eager = record {
  send = λ fd buf k. (sent (length buf), k ++ buf);
  recv = λ fd room k. (recv_again, k);
}

pub eager-Sends : (buf k : Bytes) → Sends buf k (k ++ buf) (sent (length buf))
eager-Sends buf k = (omega arith, rw (take-length buf))

abbrev pub eager_pipe : Pipe eager
eager_pipe = record {
  taken = λ k. k;
  given = λ k. [];
  send_law = λ fd buf k. eager-Sends buf k;
  recv_law = λ fd room k. refl;
}
