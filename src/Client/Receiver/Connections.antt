-- ===== src/Client/Receiver/Connections.antt =====
-- The connections of a receiver over any interleaving of epoll, the manager and the workers.
use coflow_sim_online.Base.{
  ==ℤ_iff, Bool, Bool-cases, List, [], arith, drop, drop-length_append, false, if◌then◌else◌, inl,
  inr, length, ltb, negsuc, pos, refl, some, subst, suc, true, ℕ, ℤ, ◌++◌, ◌+◌, ◌==ℤ◌, ◌==◌, ◌∷◌,
  ◌≡◌, ◌⊎◌,
}
use coflow_sim_online.Common.Epoll.{SysCall, epoll_add, epoll_mod, addfd, epolloneshot}
use coflow_sim_online.Client.Receiver.{
  emit, put_file, rece_file_num, RecvManager, Answers, on_event, close_fd, forget, Event, accepted,
  append, hangs_up, any_of, epollin,
}

-- A descriptor is free; or that of the manager; or open and watched by epoll for these events; or
-- open and disarmed, because it was watched with EPOLLONESHOT and has been reported.
pub data Stage : Type 0 where
  free listening disarmed : Stage
  watched : ℕ → Stage

-- What `epoll_ctl` makes of the stage of a descriptor, by its descriptor.
abbrev pub after_call : ℕ → SysCall → Stage → Stage
after_call n (epoll_add _ fd events) st = if fd ==ℤ pos n then watched events else st
after_call n (epoll_mod _ fd events) st = if fd ==ℤ pos n then watched events else st
after_call n _ st = st

abbrev pub after_calls : ℕ → List SysCall → Stage → Stage
after_calls n [] st = st
after_calls n (c ∷ calls) st = after_calls n calls (after_call n c st)

-- The calls that the second manager has made and the first has not.
abbrev pub new_calls : RecvManager → RecvManager → List SysCall
new_calls m m' = drop (length m.calls) m'.calls

-- A report disarms what is watched with EPOLLONESHOT, and nothing else.
abbrev pub after_report : Stage → Stage
after_report (watched events) = if any_of events epolloneshot then disarmed else watched events
after_report st = st

-- `stage` is the kernel's; `closing` are the positions of which a worker has closed the descriptor
-- and not yet forgotten it.
pub record World : Type 0 where
  pub manager : RecvManager
  pub stage : ℕ → Stage
  pub closing : List ℕ

abbrev pub put_stage : ℕ → Stage → (ℕ → Stage) → ℕ → Stage
put_stage n st stage i = if i == n then st else stage i

abbrev pub count : ℕ → List ℕ → ℕ
count n [] = 0
count n (i ∷ is) = if i == n then suc (count n is) else count n is

-- The manager gets an event; a worker ends at the end of its stream or at an error; it forgets the
-- descriptor that it closed. epoll reports only what is watched, and accept gives a free descriptor.
pub data Step : World → World → Type 0 where
  accepts :
      {w : World} (n events : ℕ) (room : Bool) (m : RecvManager)
      → w.stage n ≡ free
      → on_event
          (record { fd = w.manager.listen_sockfd; events = events })
          (record { connfd = pos n; has_room = room })
          w.manager
        ≡ some m
      → Step w (record w {
        manager = m;
        stage = put_stage n (after_calls n (new_calls w.manager m) (w.stage n)) w.stage;
      })
  reports :
      {w : World} (n events mask : ℕ) (answers : Answers) (m : RecvManager)
      → w.stage n ≡ watched mask
      → on_event (record { fd = pos n; events = events }) answers w.manager ≡ some m
      → Step w (record w { manager = m; stage = put_stage n (after_report (w.stage n)) w.stage })
  closes :
      {w : World} (before after : List ℕ) (n : ℕ)
      → w.manager.tasks ≡ before ++ n ∷ after
      → w.manager.rece_files n ≡ some (pos n)
      → Step w (record w {
        manager = close_fd (pos n) (record w.manager { tasks = before ++ after });
        stage = put_stage n free w.stage;
        closing = n ∷ w.closing;
      })
  fails :
      {w : World} (before after : List ℕ) (n : ℕ)
      → w.manager.tasks ≡ before ++ n ∷ after
      → Step w (record w { manager = record w.manager { tasks = before ++ after } })
  forgets :
      {w : World} (before after : List ℕ) (n : ℕ)
      → w.closing ≡ before ++ n ∷ after
      → Step w (record w { manager = forget n w.manager; closing = before ++ after })

pub data Steps : World → World → Type 0 where
  start : {w : World} → Steps w w
  next : {w v u : World} → Steps w v → Step v u → Steps w u

pub count-append : (n : ℕ) (xs ys : List ℕ) → count n (xs ++ ys) ≡ count n xs + count n ys
count-append n [] ys = omega arith
count-append n (x ∷ xs) ys = ground (arith, count-append n xs ys)

-- An event leaves the tasks alone, or adds its own descriptor, which is not the manager's.
abbrev pub Kept : Event → RecvManager → RecvManager → Type 0
Kept e m m' =
    (m'.listen_sockfd ≡ m.listen_sockfd)
    × ((m'.tasks ≡ m.tasks) ⊎ ((n : ℕ) × (e.fd ≡ pos n) × (m'.tasks ≡ m.tasks ++ n ∷ [])))

pub accepted-tasks :
    (connfd : ℤ) (m : RecvManager) {m' : RecvManager}
    → accepted connfd m ≡ some m'
    → (m'.listen_sockfd ≡ m.listen_sockfd) × (m'.tasks ≡ m.tasks)
unfolding accepted
accepted-tasks (negsuc k) m h = ground arith
accepted-tasks (pos n) m h = ground arith

-- EPOLLIN, EPOLLRDHUP, EPOLLET and EPOLLONESHOT
abbrev pub connection_mask : ℕ
connection_mask = 0xc000_2001

pub accepted-after_calls :
    (n : ℕ) (m : RecvManager) {m' : RecvManager}
    → accepted (pos n) m ≡ some m'
    → after_calls n (new_calls m m') free ≡ watched connection_mask
unfolding accepted addfd
accepted-after_calls n m {m'} h = elim (Bool-cases (ltb n rece_file_num)) [
  | inl room ↦
      let made = emit (addfd m.epollfd (pos n) true false) (put_file n (pos n) m) in
      let same : made ≡ m' = ground (arith, room, h) in
      subst (λ m'. after_calls n (new_calls m m') free ≡ watched connection_mask) same
        (rw (drop-length_append m.calls (addfd m.epollfd (pos n) true false))
          (ground (arith, ==ℤ_iff (pos n) (pos n))))
  | inr full ↦ ground (arith, full, h)
]

append-tasks :
    (room : Bool) (fd : ℤ) (m : RecvManager) {m' : RecvManager}
    → append room fd m ≡ some m'
    → (m'.listen_sockfd ≡ m.listen_sockfd)
      × ((m'.tasks ≡ m.tasks) ⊎ ((n : ℕ) × (fd ≡ pos n) × (m'.tasks ≡ m.tasks ++ n ∷ [])))
unfolding append
append-tasks room (negsuc k) m h = ground arith
append-tasks true (pos n) m h = (ground arith, inr (n, refl, ground arith))
append-tasks false (pos n) m h = (ground arith, inl (ground arith))

pub on_event-Kept :
    (e : Event) (answers : Answers) (m : RecvManager) {m' : RecvManager}
    → on_event e answers m ≡ some m'
    → Kept e m m'
unfolding on_event
on_event-Kept e answers m {m'} h = elim (Bool-cases (e.fd ==ℤ m.listen_sockfd)) [
  | inl own ↦
      let (l, t) = accepted-tasks answers.connfd m {m' = m'} (ground (arith, own, h)) in (l, inl t)
  | inr other ↦ elim (Bool-cases (hangs_up e.events)) [
    | inl hup ↦ (ground (arith, other, hup, h), inl (ground (arith, other, hup, h)))
    | inr calm ↦ elim (Bool-cases (any_of e.events epollin)) [
      | inl input ↦
          append-tasks answers.has_room e.fd m {m' = m'} (ground (arith, other, calm, input, h))
      | inr quiet ↦
          (ground (arith, other, calm, quiet, h), inl (ground (arith, other, calm, quiet, h)))
    ]
  ]
]

pub count_middle :
    (i n : ℕ) (before after : List ℕ)
    → count i (before ++ n ∷ after) ≡ count i (before ++ after) + count i (n ∷ [])
count_middle i n before after = omega (
  arith,
  count-append i before (n ∷ after),
  count-append i before after,
  count-append i (n ∷ []) after,
)
