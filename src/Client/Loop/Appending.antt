-- ===== src/Client/Loop/Appending.antt =====
-- One instruction after another is given to appendTask.
use coflow_sim_online.Base.{
  Bool, List, Option-cases, [], arith, inl, inr, refl, some, ◌++◌, ◌>>=◌, ◌∙◌, ◌∷◌, ◌≡◌,
}
use coflow_sim_online.Text.{Bytes}
use coflow_sim_online.Common.Float.{Float}
use coflow_sim_online.Client.Senders.{SendTask, SendManager, append_task, enqueue}
use coflow_sim_online.Client.Loop.{append_all}

module _ {D : Type 0} (float : Float D) where
  pub append_all-append :
      (raw : SendTask D) (xs ys : List Bytes) (sm : SendManager D)
      → append_all float raw (xs ++ ys) sm
        ≡ (append_all float raw xs sm >>= λ sm'. append_all float raw ys sm')
  unfolding append_all
  append_all-append raw [] ys sm = refl
  append_all-append raw (x ∷ xs) ys sm = elim (Option-cases (append_task float raw x sm)) [
    | inl e ↦ rw e
    | inr (r, e) ↦ rw e (append_all-append raw xs ys r.0)
  ]

  append_task-master :
      (raw : SendTask D) (ins : Bytes) (sm : SendManager D) {r : SendManager D × Bool}
      → append_task float raw ins sm ≡ some r
      → r.0.master ≡ sm.master
  unfolding append_task enqueue
  append_task-master raw ins sm h = ground arith

  pub append_all-master :
      (raw : SendTask D) (xs : List Bytes) (sm : SendManager D) {sm' : SendManager D}
      → append_all float raw xs sm ≡ some sm'
      → sm'.master ≡ sm.master
  unfolding append_all
  append_all-master raw [] sm h = ground arith
  append_all-master raw (x ∷ xs) sm {sm'} h = elim (Option-cases (append_task float raw x sm)) [
    | inl e ↦ ground (arith, e)
    | inr (r, e) ↦
        append_all-master raw xs r.0 {sm' = sm'} (ground (arith, e, h))
        ∙ append_task-master raw x sm e
  ]
