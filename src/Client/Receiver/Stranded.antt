-- ===== src/Client/Receiver/Stranded.antt =====
-- Connections that are neither read nor closed any more.
use coflow_sim_online.Client.Receiver.Exclusive.{
  own_event-tasks, at_start, steps-IsExclusive, start-IsExclusive, reported-disarmed,
  own_event-after_calls,
}
use coflow_sim_online.Base.{
  ==_refl, ==ℤ_iff, Bool, Bool-cases, List, [], ap, arith, false, inl, inr, negsuc, pos, some, sym,
  true, ℕ, ℤ, ◌++◌, ◌<◌, ◌==◌, ◌∙◌, ◌∷◌, ◌≡◌, ◌≢◌,
}
use coflow_sim_online.Common.Epoll.{addfd}
use coflow_sim_online.Client.Receiver.{
  emit, put_file, Answers, on_event, RecvManager, accepted, close_fd, hangs_up, rece_file_num,
}
use coflow_sim_online.Client.Receiver.Connections.{
  World, Step, Steps, count, count-append, disarmed, Stage, put_stage, free, watched, listening,
  after_calls, new_calls, after_report, connection_mask, on_event-Kept, count_middle,
}

-- Open, not watched, and in no worker's hands.
abbrev pub IsStranded : ℕ → World → Type 0
IsStranded n w = (w.stage n ≡ disarmed) × (count n w.manager.tasks ≡ 0)

other_stage :
    (n k : ℕ) (st old : Stage) (stage : ℕ → Stage)
    → stage n ≡ disarmed
    → stage k ≡ old
    → old ≢ disarmed
    → (put_stage k st stage n ≡ disarmed) × ((n == k) ≡ false)
other_stage n k st old stage h was ne = elim (Bool-cases (n == k)) [
  | inl same ↦ absurd (ne (sym was ∙ ap stage (ground arith) ∙ h))
  | inr apart ↦ (ground (arith, apart, h), apart)
]

step-IsStranded : {n : ℕ} {w v : World} → IsStranded n w → Step w v → IsStranded n v
unfolding close_fd
step-IsStranded {n} {w} (st, none_left) (Step.accepts k events room m fresh e) =
    let (_, t) =
      own_event-tasks events (record { connfd = pos k; has_room = room }) w.manager {m' = m} e in
    (
      (other_stage n k (after_calls k (new_calls w.manager m) (w.stage k)) free w.stage st fresh
          (ground arith)).0,
      omega (arith, none_left, ap (count n) t),
    )
step-IsStranded {n} {w} (st, none_left) (Step.reports k events mask answers m was e) =
    let (same, apart) =
      other_stage n k (after_report (w.stage k)) (watched mask) w.stage st was (ground arith) in
    (
      same,
      elim (on_event-Kept _ answers w.manager {m' = m} e).1 [
        | inl t ↦ omega (arith, none_left, ap (count n) t)
        | inr (i, at, t) ↦
            ground
              (arith, apart, none_left, at, ap (count n) t, count-append n w.manager.tasks (i ∷ []))
      ],
    )
step-IsStranded {n} {w} (st, none_left) (Step.closes before after k front own) = (
  ground (arith, st, none_left, ap (count n) front, count_middle n k before after),
  omega (arith, none_left, ap (count n) front, count_middle n k before after),
)
step-IsStranded {n} {w} (st, none_left) (Step.fails before after k front) =
    (st, omega (arith, none_left, ap (count n) front, count_middle n k before after))
step-IsStranded {n} {w} (st, none_left) (Step.forgets before after k front) = (st, none_left)

pub steps-IsStranded : {n : ℕ} {w v : World} → IsStranded n w → Steps w v → IsStranded n v
steps-IsStranded h Steps.start = h
steps-IsStranded h (Steps.next steps step) = step-IsStranded (steps-IsStranded h steps) step

watched_ne_listening : (mask : ℕ) → watched mask ≢ listening
watched_ne_listening mask = ground arith

listening_apart :
    (n l mask : ℕ) (stage : ℕ → Stage) → stage n ≡ watched mask → stage l ≡ listening → n ≢ l
listening_apart n l mask stage was h same = watched_ne_listening mask (sym was ∙ ap stage same ∙ h)

hang_up-ignored :
    (n events l : ℕ) (answers : Answers) (m : RecvManager)
    → m.listen_sockfd ≡ pos l
    → n ≢ l
    → hangs_up events ≡ true
    → on_event (record { fd = pos n; events = events }) answers m ≡ some m
unfolding on_event
hang_up-ignored n events l answers m listens ne hup = ground (arith, listens, ne, hup)

-- If epoll disarms just what is watched with EPOLLONESHOT when it reports it: the first report
-- of a connection that tells of a hang-up, be it with data to read, is ignored, and whatever
-- happens then, the connection stays open, unwatched and unread.
pub hang_up-IsStranded :
    (epollfd : ℤ) (l n events mask : ℕ) (answers : Answers) {w v : World}
    → Steps (at_start epollfd l) w
    → w.stage n ≡ watched mask
    → hangs_up events ≡ true
    → Steps (record w { stage = put_stage n (after_report (w.stage n)) w.stage }) v
    → (on_event (record { fd = pos n; events = events }) answers w.manager ≡ some w.manager)
      × IsStranded n v
hang_up-IsStranded epollfd l n events mask answers {w} steps was hup later =
    let h = steps-IsExclusive (start-IsExclusive epollfd l) steps in
    (
      hang_up-ignored n events l answers w.manager h.listens
          (listening_apart n l mask w.stage was h.apart) hup,
      steps-IsStranded {w = record w { stage = put_stage n (after_report (w.stage n)) w.stage }}
          (ground (arith, ==_refl n, reported-disarmed n mask h was), ground (arith, h.once n, was))
          later,
    )

accept_event :
    (n events : ℕ) (room : Bool) (m : RecvManager)
    → n < rece_file_num
    → (m' : RecvManager) × (on_event
          (record { fd = m.listen_sockfd; events = events })
          (record { connfd = pos n; has_room = room })
          m
        ≡ some m')
unfolding on_event accepted
accept_event n events room m lt = (
  emit (addfd m.epollfd (pos n) true false) (put_file n (pos n) m),
  ground (arith, lt, ==ℤ_iff m.listen_sockfd m.listen_sockfd),
)

-- While a worker has closed its descriptor and not yet forgotten it, the manager may accept a
-- new connection under the same number; then the worker's last step makes the receiver forget
-- that one, which stays open while its receiver has no descriptor.
pub reused-forgotten :
    (before after : List ℕ) (n events : ℕ) (room : Bool) (w : World)
    → w.closing ≡ before ++ n ∷ after
    → w.stage n ≡ free
    → n < rece_file_num
    → (v : World) × Steps w v
      × (v.stage n ≡ watched connection_mask)
      × (v.manager.rece_files n ≡ some (negsuc 0))
reused-forgotten before after n events room w pending fresh lt =
    let (m, e) = accept_event n events room w.manager lt in
    (
      _,
      Steps.next (Steps.next Steps.start (Step.accepts n events room m fresh e))
          (Step.forgets before after n pending),
      rw (==_refl n) (
          ap (after_calls n (new_calls w.manager m)) fresh
          ∙ own_event-after_calls n events room w.manager {m' = m} e),
      ground (arith, ==_refl n),
    )
