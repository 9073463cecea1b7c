-- ===== src/Client/Loop.antt =====
-- src/client/main.cpp, the event loop of `coflowSimClient`: what it does with the events of the master's
-- connection. The socket is that of the send manager, which holds a pointer to it.
pub mod Appending
pub mod Reads
use coflow_sim_online.Base.{List, Option, [], if◌then◌else◌, some, ℤ, ◌==ℤ◌, ◌>>=◌, ◌∷◌}
use coflow_sim_online.Text.{Bytes}
use coflow_sim_online.Common.Epoll.{any_of, epollin}
use coflow_sim_online.Common.Float.{Float}
use coflow_sim_online.Common.Socket.{Kernel, recv_msg, get_recv_buf}
use coflow_sim_online.Client.Inbox.{on_input}
use coflow_sim_online.Client.Senders.{SendTask, SendManager, append_task}
use coflow_sim_online.Client.Receiver.{Event}

module _ {D : Type 0} (float : Float D) where
  -- `appendTask` on one instruction after another, each into memory of the same content.
  unfoldable pub append_all : SendTask D → List Bytes → SendManager D → Option (SendManager D)
  append_all raw [] sm = some sm
  append_all raw (ins ∷ later) sm = append_task float raw ins sm >>= λ r. append_all raw later r.0

  module _ {K : Type 0} (kernel : Kernel K) where
    -- The master's connection has something to read; `recvbuf` is what the last event left there.
    unfoldable pub on_master :
        SendTask D → Bytes → SendManager D → K → Option ((Bytes × SendManager D) × K)
    unfolding append_all on_input get_recv_buf
    on_master raw recvbuf sm k = do
      ((s, _), k') ← recv_msg kernel sm.master k
      let (received, s') = get_recv_buf recvbuf s
      let (retained, instructions) = on_input [] received
      sm' ← append_all raw instructions (record sm { master = s' })
      some ((retained, sm'), k')

    -- One event. Those of other descriptors, and a hang-up, change nothing.
    unfoldable pub on_event :
        SendTask D → ℤ → Event → Bytes → SendManager D → K → Option ((Bytes × SendManager D) × K)
    unfolding on_master
    on_event raw masterfd e recvbuf sm k =
        if e.fd ==ℤ masterfd
        then if any_of e.events epollin then on_master raw recvbuf sm k else some ((recvbuf, sm), k)
        else some ((recvbuf, sm), k)

    -- One event after another.
    unfoldable pub on_events :
        SendTask D
        → ℤ
        → List Event
        → Bytes
        → SendManager D
        → K
        → Option ((Bytes × SendManager D) × K)
    unfolding on_event
    on_events raw masterfd [] recvbuf sm k = some ((recvbuf, sm), k)
    on_events raw masterfd (e ∷ es) recvbuf sm k = do
      ((recvbuf', sm'), k') ← on_event raw masterfd e recvbuf sm k
      on_events raw masterfd es recvbuf' sm' k'
