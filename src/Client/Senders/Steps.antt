-- ===== src/Client/Senders/Steps.antt =====
-- The invariant of the queues, over any interleaving.
use coflow_sim_online.Wire.{wire}
use coflow_sim_online.Client.Senders.{round, SendTask, SendManager}
use coflow_sim_online.Client.Senders.Rounds.{stream_of, reports}
use coflow_sim_online.Base.{
  Bool, List, [], ap, arith, inl, inr, length, none, refl, some, suc, zero, ℕ, ℤ, ◌++◌, ◌+◌, ◌∷◌,
  ◌≡◌, ◌⊎◌,
}
use coflow_sim_online.Common.Socket.Send.{IsWhole}
use coflow_sim_online.Common.Socket.Kernels.{Pipe}
use coflow_sim_online.Text.{Bytes}
use coflow_sim_online.Common.Float.{Float}
use coflow_sim_online.Common.Socket.{Kernel}
use coflow_sim_online.Client.Senders.Queue.{IsBalanced, tasks_num}

pub round_cases :
    {A : Type 0} (sem : ℕ) (waiting : List A)
    → (sem ≡ 0)
      ⊎ (((n : ℕ) × (sem ≡ suc n) × (waiting ≡ []))
          ⊎ ((n : ℕ) × (t : A) × (ts : List A) × (sem ≡ suc n) × (waiting ≡ t ∷ ts)))
round_cases zero waiting = inl refl
round_cases (suc n) [] = inr (inl (n, refl, refl))
round_cases (suc n) (t ∷ ts) = inr (inr (n, t, ts, refl, refl))

module _ {D K : Type 0} (float : Float D) (popen : Bytes → Bool) (kernel : Kernel K)
    (pipe : Pipe kernel) (whole : IsWhole kernel) where
  -- From a balanced state, a round that gets past the semaphore always finds a task.
  pub round_idle :
      (port : ℤ) (sm : SendManager D) (k : K) {sm' : SendManager D} {k' : K}
      → IsBalanced sm
      → round float popen kernel port sm k ≡ some ((sm', none), k')
      → (sm' ≡ sm) × (k' ≡ k)
  unfolding round
  round_idle port sm k h e = elim (round_cases sm.wait_queue_sem sm.wait_queue) [
    | inl stopped ↦ (ground (arith, stopped), ground (arith, stopped))
    | inr (inl (n, up, empty)) ↦ absurd (omega (arith, h.counts, up, ap length empty))
    | inr (inr (n, t, ts, up, front)) ↦ (ground (arith, up, front), ground (arith, up, front))
  ]

  -- The manager is balanced, and what was sent or queued to the master meanwhile are the whole
  -- reports of tasks that had ended, one for each that it no longer holds.
  abbrev pub Reported : SendManager D → K → ℕ → SendManager D → K → Type 0
  Reported sm k accepted sm' k' =
      IsBalanced sm'
      × ((dones : List (SendTask D)) × (stream_of kernel pipe whole sm'.master k'
            ≡ stream_of kernel pipe whole sm.master k ++ wire (reports dones))
          × (tasks_num sm' + length (reports dones) ≡ tasks_num sm + accepted))
