-- ===== src/Protocol/Session.antt =====
-- The tasks of the master, through the event loop of a client into its wait queue.
use coflow_sim_online.Client.Inbox.{on_inputs}
use coflow_sim_online.Base.{
  All, List, [], ap, append_left_cancel, arith, flatten, map, refl, some, subst, sym, ℤ, ◌++◌, ◌∙◌,
  ◌≡◌,
}
use coflow_sim_online.Common.Float.{Float, FloatLaws}
use coflow_sim_online.Common.Socket.{Kernel}
use coflow_sim_online.Common.Socket.Kernels.{Pipe}
use coflow_sim_online.Client.Senders.{SendTask, SendManager}
use coflow_sim_online.Client.Receiver.{Event}
use coflow_sim_online.Client.Loop.{on_events}
use coflow_sim_online.Client.Loop.Reads.{after_reads, reads_lem}
use coflow_sim_online.Protocol.Arrival.{
  Order, IsSendable, text_of, received, enqueue_all, tasks_arrive,
}

module _ {D K : Type 0} (float : Float D) (laws : FloatLaws float) (kernel : Kernel K)
    (pipe : Pipe kernel) where
  -- A client that holds no fragment, and any events, over which its kernel hands out just the
  -- texts that sendTask queues for some tasks: however these bytes are spread over the reads,
  -- and whatever other events come between, the client does not fail, the wait queue gets, as
  -- far as it has room, the tasks with all the fields that were sent, in order, and no fragment
  -- is left. The premises on the tasks are that the numbers are int values, the address is a
  -- word without parentheses, and the texts fit the client's arrays.
  pub tasks_received :
      (raw : SendTask D) (masterfd : ℤ) (os : List (Order D)) (es : List Event) (sm : SendManager D)
      (k k' : K)
      → All (IsSendable float laws) os
      → sm.master.recv_buf ≡ []
      → after_reads kernel masterfd es sm.master k ≡ some k'
      → pipe.given k' ≡ pipe.given k ++ flatten (map (text_of float laws) os)
      → on_events float kernel raw masterfd es [] sm k
        ≡ some (([], enqueue_all float laws (map (received float laws raw) os) sm), k')
  tasks_received raw masterfd os es sm k k' sendable empty after brought =
      let (chunks, k1, after1, given, works) =
        reads_lem float kernel pipe raw masterfd es [] sm.master k empty in
      let same : k1 ≡ k' = ground (arith, after, after1) in
      let texts : flatten chunks ≡ flatten (map (text_of float laws) os) =
        append_left_cancel (pipe.given k) (flatten chunks) (flatten (map (text_of float laws) os))
          (sym given ∙ ap pipe.given same ∙ brought) in
      let (cut, queued) = tasks_arrive float laws raw os chunks sm sendable texts in
      let queue = enqueue_all float laws (map (received float laws raw) os) sm in
      subst (λ buf. on_events float kernel raw masterfd es [] sm k ≡ some ((buf, queue), k')) cut
        (subst
          (λ l.
            on_events float kernel raw masterfd es [] sm k
            ≡ some (((on_inputs [] chunks).0, queue), l))
          same (works sm queue refl queued))
