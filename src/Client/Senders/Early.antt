-- ===== src/Client/Senders/Early.antt =====
-- A `Sender` that ends between `pool->append` and the assignment of SEND_RUNNING.
use coflow_sim_online.Base.{
  All, All-append, Bool, List, Option, Option-cases, [], append_assoc, arith, false, inl, inr, refl,
  some, subst, ℤ, ◌++◌, ◌>>=◌, ◌∷◌, ◌≡◌,
}
use coflow_sim_online.Client.Senders.{
  SendTask, SendManager, serve, round, sent_off, send_running, is_end, Bytes,
}
use coflow_sim_online.Client.Senders.Rounds.{IsLive, unended, serve_lem, round-Served}
use coflow_sim_online.Client.Senders.Steps.{round_cases}
use coflow_sim_online.Client.Senders.Queue.{unended-IsLive}
use coflow_sim_online.Common.Float.{Float}
use coflow_sim_online.Common.Socket.{Kernel}
use coflow_sim_online.Common.Socket.Kernels.{Pipe}
use coflow_sim_online.Common.Socket.Send.{IsWhole}

-- The task stands in the queue, which holds no task that was reported.
pub record Holds {D : Type 0} (t : SendTask D) (queue : List (SendTask D)) : Type 0 where
  pub before : List (SendTask D)
  pub after : List (SendTask D)
  pub split : queue ≡ before ++ t ∷ after
  pub live : All IsLive queue

unended-middle :
    {D : Type 0} (before after : List (SendTask D)) (t : SendTask D)
    → is_end t.send_state ≡ false
    → unended (before ++ t ∷ after) ≡ unended before ++ t ∷ unended after
unended-middle [] after t h = ground (arith, h)
unended-middle (u ∷ before) after t h = ground (arith, unended-middle before after t h)

module _ {D K : Type 0} (float : Float D) (popen : Bytes → Bool) (kernel : Kernel K) where
  -- Rounds of `run`, each with the port that it binds.
  unfoldable pub rounds : List ℤ → SendManager D → K → Option (SendManager D × K)
  rounds [] sm k = some (sm, k)
  rounds (port ∷ ports) sm k = do
    ((sm', _), k') ← round float popen kernel port sm k
    rounds ports sm' k'

  module _ (pipe : Pipe kernel) (whole : IsWhole kernel) where
    served-Holds :
        (t u : SendTask D) (queue queue' : List (SendTask D))
        → Holds t queue
        → is_end t.send_state ≡ false
        → queue' ≡ unended queue ++ record u { send_state = send_running } ∷ []
        → Holds t queue'
    served-Holds t u queue queue' h running e = record {
      before = unended h.before;
      after = unended h.after ++ record u { send_state = send_running } ∷ [];
      split = ground (
        arith,
        e,
        h.split,
        unended-middle h.before h.after t running,
        append_assoc (unended h.before) (t ∷ unended h.after)
            (record u { send_state = send_running } ∷ []),
      );
      live = rw e (
          All-append IsLive (unended queue) (record u { send_state = send_running } ∷ [])
            (unended-IsLive queue h.live) (refl, tt));
    }

    round-Holds :
        (port : ℤ) (t : SendTask D) (sm : SendManager D) (k : K) {sm' : SendManager D}
        {next : Option (SendTask D)} {k' : K}
        → Holds t sm.running_queue
        → is_end t.send_state ≡ false
        → round float popen kernel port sm k ≡ some ((sm', next), k')
        → Holds t sm'.running_queue
    unfolding round
    round-Holds port t sm k {sm'} h running e = elim (round_cases sm.wait_queue_sem sm.wait_queue) [
      | inl stopped ↦ subst (λ q. Holds t q) (ground (arith, stopped, e)) h
      | inr (inl (n, up, empty)) ↦ subst (λ q. Holds t q) (ground (arith, up, empty, e)) h
      | inr (inr (n, u, us, up, front)) ↦
          let (after, _, _) =
            round-Served kernel pipe whole float popen port u us n sm k h.live front up e in
          served-Holds t u sm.running_queue sm'.running_queue h running after.0
    ]

    rounds-Holds :
        (ports : List ℤ) (t : SendTask D) (sm : SendManager D) (k : K) {sm' : SendManager D}
        {k' : K}
        → Holds t sm.running_queue
        → is_end t.send_state ≡ false
        → rounds ports sm k ≡ some (sm', k')
        → Holds t sm'.running_queue
    unfolding rounds
    rounds-Holds [] t sm k h running e = subst (λ q. Holds t q) (ground (arith, e)) h
    rounds-Holds (port ∷ ports) t sm k {sm'} {k'} h running e =
        elim (Option-cases (round float popen kernel port sm k)) [
          | inl e' ↦ ground (arith, e, e')
          | inr (((sm1, next), k1), e') ↦
              rounds-Holds ports t sm1 k1 {sm' = sm'} {k' = k'}
                (round-Holds port t sm k h running e') running (ground (arith, e, e'))
        ]

    -- If the Sender of a task ends before run marks the task, the mark overwrites its end:
    -- however many rounds follow, the task stays in the running queue, marked as running, and is
    -- never among those that a round finds ended.
    pub early_end-Holds :
        (port now : ℤ) (ports : List ℤ) (t : SendTask D) (sm : SendManager D) (k : K)
        {sm' : SendManager D} {k' : K} {sm'' : SendManager D} {k'' : K}
        → All IsLive sm.running_queue
        → serve float popen kernel port (sent_off now t) sm k ≡ some (sm', k')
        → rounds ports sm' k' ≡ some (sm'', k'')
        → Holds (record (sent_off now t) { send_state = send_running }) sm''.running_queue
    early_end-Holds port now ports t sm k {sm'} {k'} live e later =
        let (after, _) =
          serve_lem kernel pipe whole float popen port (sent_off now t) sm k live e in
        rounds-Holds ports (record (sent_off now t) { send_state = send_running }) sm' k'
          (record {
            before = unended sm.running_queue;
            after = [];
            split = after.0;
            live = rw after.0 (
                All-append IsLive (unended sm.running_queue)
                  (record (sent_off now t) { send_state = send_running } ∷ [])
                  (unended-IsLive sm.running_queue live) (refl, tt));
          })
          refl later
