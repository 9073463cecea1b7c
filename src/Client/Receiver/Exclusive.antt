-- ===== src/Client/Receiver/Exclusive.antt =====
-- A receiver stands in the pool at most once.
use coflow_sim_online.Base.{
  ==_refl, ==ℤ_iff, Bool, Bool-cases, List, [], ap, arith, false, if◌then◌else◌, inl, inr, pos,
  refl, some, subst, sym, true, ℕ, ℤ, ◌++◌, ◌==◌, ◌∙◌, ◌∷◌, ◌≡◌, ◌≢◌, ◌≤◌, ◌⊎◌,
}
use coflow_sim_online.Common.Epoll.{any_of, epolloneshot}
use coflow_sim_online.Client.Receiver.Connections.{
  on_event-Kept, Stage, Kept, listening, count, disarmed, World, Steps, Step, put_stage,
  count_middle, free, accepted-tasks, watched, count-append, after_calls, new_calls,
  connection_mask, after_report, accepted-after_calls,
}
use coflow_sim_online.Client.Receiver.{on_event, close_fd, Answers, RecvManager, new_recv_manager}

abbrev pub at_work : Stage → ℕ
at_work disarmed = 1
at_work _ = 0

-- What is watched is watched for one report.
abbrev pub IsOneShot : Stage → Type 0
IsOneShot (watched mask) = any_of mask epolloneshot ≡ true
IsOneShot _ = Unit

-- Each receiver is in the pool at most once, and only while its connection is open and disarmed.
pub record IsExclusive (l : ℕ) (w : World) : Type 0 where
  pub once : (n : ℕ) → count n w.manager.tasks ≤ at_work (w.stage n)
  pub listens : w.manager.listen_sockfd ≡ pos l
  pub apart : w.stage l ≡ listening
  pub one_shots : (n : ℕ) → IsOneShot (w.stage n)

put_one_shots :
    (n : ℕ) (st : Stage) (stage : ℕ → Stage)
    → ((i : ℕ) → IsOneShot (stage i))
    → IsOneShot st
    → (i : ℕ) → IsOneShot (put_stage n st stage i)
put_one_shots n st stage h own i = elim (Bool-cases (i == n)) [
  | inl same ↦ rw same own
  | inr apart ↦ rw apart (h i)
]

after_report-watched :
    (st : Stage) (mask : ℕ) → IsOneShot st → st ≡ watched mask → after_report st ≡ disarmed
after_report-watched free mask h e = ground arith
after_report-watched listening mask h e = ground arith
after_report-watched disarmed mask h e = ground arith
after_report-watched (watched other) mask h e = rw h

pub reported-disarmed :
    {l : ℕ} {w : World} (n mask : ℕ)
    → IsExclusive l w
    → w.stage n ≡ watched mask
    → after_report (w.stage n) ≡ disarmed
reported-disarmed {l} {w} n mask h was = after_report-watched (w.stage n) mask (h.one_shots n) was

put_bounds :
    (n : ℕ) (st : Stage) (stage : ℕ → Stage) (tasks tasks' : List ℕ)
    → ((i : ℕ) → count i tasks ≤ at_work (stage i))
    → ((i : ℕ) → (i == n) ≡ false → count i tasks' ≤ count i tasks)
    → count n tasks' ≤ at_work st
    → (i : ℕ) → count i tasks' ≤ at_work (put_stage n st stage i)
put_bounds n st stage tasks tasks' h others own i = elim (Bool-cases (i == n)) [
  | inl same ↦ ground (arith, same, own)
  | inr apart ↦ ground (arith, apart, others i apart, h i)
]

stays_listening :
    (l n : ℕ) (st other : Stage) (stage : ℕ → Stage)
    → stage l ≡ listening
    → stage n ≡ other
    → other ≢ listening
    → put_stage n st stage l ≡ listening
stays_listening l n st other stage h was ne = elim (Bool-cases (l == n)) [
  | inl same ↦ absurd (ne (sym was ∙ ap stage (ground arith) ∙ h))
  | inr apart ↦ ground (arith, apart, h)
]

pub own_event-tasks :
    (events : ℕ) (answers : Answers) (m : RecvManager) {m' : RecvManager}
    → on_event (record { fd = m.listen_sockfd; events = events }) answers m ≡ some m'
    → (m'.listen_sockfd ≡ m.listen_sockfd) × (m'.tasks ≡ m.tasks)
unfolding on_event
own_event-tasks events answers m {m'} h =
    accepted-tasks answers.connfd m {m' = m'}
      (ground (arith, h, ==ℤ_iff m.listen_sockfd m.listen_sockfd))

pub own_event-after_calls :
    (n events : ℕ) (room : Bool) (m : RecvManager) {m' : RecvManager}
    → on_event
        (record { fd = m.listen_sockfd; events = events })
        (record { connfd = pos n; has_room = room })
        m
      ≡ some m'
    → after_calls n (new_calls m m') free ≡ watched connection_mask
unfolding on_event
own_event-after_calls n events room m {m'} h =
    accepted-after_calls n m {m' = m'} (ground (arith, h, ==ℤ_iff m.listen_sockfd m.listen_sockfd))

reports-IsExclusive :
    {l : ℕ} {w : World} (n events mask : ℕ) (answers : Answers) (m : RecvManager)
    → IsExclusive l w
    → w.stage n ≡ watched mask
    → Kept (record { fd = pos n; events = events }) w.manager m
    → IsExclusive l (record w { manager = m; stage = put_stage n disarmed w.stage })
reports-IsExclusive {l} {w} n events mask answers m h was (same, kept) = record {
  once =
      put_bounds n disarmed w.stage w.manager.tasks m.tasks h.once
        (λ i ne. elim kept [
          | inl t ↦ omega (arith, ap (count i) t)
          | inr (k, e, t) ↦
              ground (arith, ne, e, ap (count i) t, count-append i w.manager.tasks (k ∷ []))
        ])
        (elim kept [
          | inl t ↦ ground (arith, was, ap (count n) t, h.once n)
          | inr (k, e, t) ↦
              ground
                (arith, was, h.once n, e, ap (count n) t, count-append n w.manager.tasks (k ∷ []))
        ]);
  listens = same ∙ h.listens;
  apart = stays_listening l n disarmed (watched mask) w.stage h.apart was (ground arith);
  one_shots = put_one_shots n disarmed w.stage h.one_shots tt;
}

hits : (l n : ℕ) → l ≡ n → count l (n ∷ []) ≡ 1
hits l n same = ground arith

in_pool_not_listening :
    (l n : ℕ) (stage : ℕ → Stage) (tasks before after : List ℕ)
    → ((i : ℕ) → count i tasks ≤ at_work (stage i))
    → tasks ≡ before ++ n ∷ after
    → stage l ≡ listening
    → l ≢ n
in_pool_not_listening l n stage tasks before after once front h same =
    omega (
      arith,
      once l,
      ap at_work h,
      ap (count l) front,
      count_middle l n before after,
      hits l n same,
    )

step-IsExclusive : {l : ℕ} {w v : World} → IsExclusive l w → Step w v → IsExclusive l v
unfolding close_fd
step-IsExclusive {l} {w} h (Step.accepts n events room m fresh e) =
    let (same, t) =
      own_event-tasks events (record { connfd = pos n; has_room = room }) w.manager {m' = m} e in
    let st = after_calls n (new_calls w.manager m) (w.stage n) in
    let made : st ≡ watched connection_mask =
      ap (after_calls n (new_calls w.manager m)) fresh
      ∙ own_event-after_calls n events room w.manager {m' = m} e in
    record {
      once =
          put_bounds n st w.stage w.manager.tasks m.tasks h.once
            (λ i ne. omega (arith, ap (count i) t))
            (ground (arith, fresh, ap (count n) t, h.once n));
      listens = same ∙ h.listens;
      apart = stays_listening l n st free w.stage h.apart fresh (ground arith);
      one_shots = put_one_shots n st w.stage h.one_shots (subst IsOneShot (sym made) refl);
    }
step-IsExclusive {l} {w} h (Step.reports n events mask answers m was e) =
    subst (λ st. IsExclusive l (record w { manager = m; stage = put_stage n st w.stage }))
      (sym (reported-disarmed n mask h was))
      (reports-IsExclusive n events mask answers m h was
        (on_event-Kept _ answers w.manager {m' = m} e))
step-IsExclusive {l} {w} h (Step.closes before after n front own) = record {
  once =
      put_bounds n free w.stage w.manager.tasks (before ++ after) h.once
        (λ i ne. omega (arith, count_middle i n before after, ap (count i) front))
        (ground (arith, count_middle n n before after, ap (count n) front, h.once n));
  listens = h.listens;
  apart = elim (Bool-cases (l == n)) [
    | inl same ↦ absurd (
        in_pool_not_listening l n w.stage w.manager.tasks before after h.once front h.apart
          (ground arith))
    | inr apart ↦ ground (arith, apart, h.apart)
  ];
  one_shots = put_one_shots n free w.stage h.one_shots tt;
}
step-IsExclusive {l} {w} h (Step.fails before after n front) = record {
  once = λ i. omega (arith, h.once i, count_middle i n before after, ap (count i) front);
  listens = h.listens;
  apart = h.apart;
  one_shots = h.one_shots;
}
step-IsExclusive {l} {w} h (Step.forgets before after n front) = record {
  once = h.once;
  listens = h.listens;
  apart = h.apart;
  one_shots = h.one_shots;
}

pub steps-IsExclusive : {l : ℕ} {w v : World} → IsExclusive l w → Steps w v → IsExclusive l v
steps-IsExclusive h Steps.start = h
steps-IsExclusive h (Steps.next steps step) = step-IsExclusive (steps-IsExclusive h steps) step

Stage-cases : (st : Stage) → (st ≡ disarmed) ⊎ (at_work st ≡ 0)
Stage-cases free = inr refl
Stage-cases listening = inr refl
Stage-cases (watched mask) = inr refl
Stage-cases disarmed = inl refl

-- Where a receiver's manager begins: it listens, and no connection is there.
abbrev pub at_start : ℤ → ℕ → World
at_start epollfd l = record {
  manager = new_recv_manager epollfd (pos l);
  stage = λ i. if i == l then listening else free;
  closing = [];
}

pub start-IsExclusive : (epollfd : ℤ) (l : ℕ) → IsExclusive l (at_start epollfd l)
start-IsExclusive epollfd l = record {
  once = λ i. omega arith;
  listens = refl;
  apart = ground (arith, ==_refl l);
  one_shots = put_one_shots l listening (λ i. free) (λ i. tt) tt;
}

-- However the events, the workers and the manager interleave, and if epoll disarms just what is
-- watched with EPOLLONESHOT when it reports it: no receiver stands in the pool twice, so that no
-- two workers read one connection; and one that stands there has an open connection that epoll
-- does not report.
pub steps-once :
    (epollfd : ℤ) (l : ℕ) {w : World}
    → Steps (at_start epollfd l) w
    → (n : ℕ)
    → (count n w.manager.tasks ≤ 1) × ((w.stage n ≡ disarmed) ⊎ (count n w.manager.tasks ≡ 0))
steps-once epollfd l {w} steps n =
    let bound = (steps-IsExclusive (start-IsExclusive epollfd l) steps).once n in
    elim (Stage-cases (w.stage n)) [
      | inl e ↦ (omega (arith, bound, ap at_work e), inl e)
      | inr e ↦ (omega (arith, bound, e), inr (omega (arith, bound, e)))
    ]
