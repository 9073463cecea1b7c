-- ===== src/Client/Receiver.antt =====
-- src/client/RecvManager.{h,cpp} and receFile.{h,cpp}. `receFiles` is its `m_Sockfd` by position, `none`
-- where it was never set; `tasks` are the positions that the pool holds, appended and not yet done.
-- What a receiver reads is thrown away, so its buffer and the name of its file are left out. `none` as
-- a result is a position outside of the array, or a descriptor that was never set.
pub mod Discard
pub mod Connections
pub mod Exclusive
pub mod Stranded
mod Tests
use coflow_sim_online.Base.{
  Bool, List, Option, [], false, if◌then◌else◌, ltb, negsuc, none, not, pos, some, suc, true, zero,
  ℕ, ℤ, ◌&&◌, ◌++◌, ◌==ℤ◌, ◌==◌, ◌>>=◌, ◌∷◌,
}
use Prim.Native.Nat.{bit_or}
use coflow_sim_online.Common.Epoll.{
  SysCall, addfd, removefd, any_of, epollin, epollrdhup, epollhup, epollerr,
}
use coflow_sim_online.Common.Socket.{Kernel, received, recv_again, recv_failed}

abbrev pub rece_file_buffer_size : ℕ
rece_file_buffer_size = 1024

abbrev pub rece_file_num : ℕ
rece_file_num = 65536

-- `rf_epollfd` is the static of ReceFile; `calls` are the calls of epoll_ctl, fcntl and close so far.
pub record RecvManager : Type 0 where
  pub epollfd : ℤ
  pub rf_epollfd : ℤ
  pub listen_sockfd : ℤ
  pub rece_files : ℕ → Option ℤ
  pub tasks : List ℕ
  pub calls : List SysCall

abbrev pub new_recv_manager : ℤ → ℤ → RecvManager
new_recv_manager epollfd listen_sockfd = record {
  epollfd = epollfd;
  rf_epollfd = negsuc 0;
  listen_sockfd = listen_sockfd;
  rece_files = λ i. none;
  tasks = [];
  calls = [];
}

abbrev pub emit : List SysCall → RecvManager → RecvManager
emit cs m = record m { calls = m.calls ++ cs }

abbrev pub put_file : ℕ → ℤ → RecvManager → RecvManager
put_file i fd m = record m { rece_files = λ j. if j == i then some fd else m.rece_files j }

-- `ReceFile::initSocket` and `addfd` for the descriptor that `accept` returned.
unfoldable pub accepted : ℤ → RecvManager → Option RecvManager
unfolding addfd
accepted (negsuc _) m = some m
accepted (pos n) m =
    if ltb n rece_file_num
    then some (emit (addfd m.epollfd (pos n) true false) (put_file n (pos n) m))
    else none

-- `pool->append(receFiles + sockfd)`, of which the answer is ignored.
unfoldable pub append : Bool → ℤ → RecvManager → Option RecvManager
append has_room (negsuc _) m = none
append has_room (pos n) m =
    if not (ltb n rece_file_num)
    then none
    else some (if has_room then record m { tasks = m.tasks ++ n ∷ [] } else m)

pub record Event : Type 0 where
  pub fd : ℤ
  pub events : ℕ

-- What `accept` returns and whether the pool has room, in case that the event leads to the call.
pub record Answers : Type 0 where
  pub connfd : ℤ
  pub has_room : Bool

abbrev pub hangs_up : ℕ → Bool
hangs_up events = any_of events (bit_or (bit_or epollrdhup epollhup) epollerr)

-- One round of the loop over the events.
unfoldable pub on_event : Event → Answers → RecvManager → Option RecvManager
unfolding accepted append
on_event e answers m =
    if e.fd ==ℤ m.listen_sockfd
    then accepted answers.connfd m
    else if hangs_up e.events
    then some m
    else if any_of e.events epollin
    then append answers.has_room e.fd m
    else some m

unfoldable pub on_events : List (Event × Answers) → RecvManager → Option RecvManager
unfolding on_event
on_events [] m = some m
on_events ((e, answers) ∷ es) m = do m' ← on_event e answers m; on_events es m'

-- What `epoll_wait` returned: events, -1 with `EINTR`, or -1 with another error.
pub data WaitResult : Type 0 where
  ready : List (Event × Answers) → WaitResult
  interrupted wait_failed : WaitResult

unfoldable pub close_listen : ℤ → RecvManager → RecvManager
unfolding removefd
close_listen fd m = if fd ==ℤ negsuc 0 then m else emit (removefd m.epollfd fd) m

-- The loop, as long as `epoll_wait` has returned. Nobody calls `stop`.
unfoldable pub run_loop : List WaitResult → RecvManager → Option RecvManager
unfolding on_events close_listen
run_loop [] m = some m
run_loop (ready es ∷ later) m = do m' ← on_events es m; run_loop later m'
run_loop (interrupted ∷ later) m = run_loop later m
run_loop (wait_failed ∷ later) m = some (close_listen m.listen_sockfd m)

unfoldable pub run : List WaitResult → RecvManager → Option RecvManager
unfolding run_loop addfd
run waits m =
    run_loop waits
      (record (emit (addfd m.epollfd m.listen_sockfd false true) m) { rf_epollfd = m.epollfd })

-- `ReceFile::closeConn` in its two steps: between them the descriptor may already be used again.
unfoldable pub close_fd : ℤ → RecvManager → RecvManager
unfolding removefd
close_fd fd m = emit (removefd m.rf_epollfd fd) m

abbrev pub forget : ℕ → RecvManager → RecvManager
forget i m = put_file i (negsuc 0) m

unfoldable pub close_conn : Bool → ℕ → RecvManager → Option RecvManager
unfolding close_fd
close_conn real_close i m = do
  fd ← m.rece_files i
  some (if real_close && not (fd ==ℤ negsuc 0) then forget i (close_fd fd m) else m)

module _ {K : Type 0} (kernel : Kernel K) where
  -- The loop on `recv`, with fuel: `true` at the end of the stream, `false` at an error.
  unfoldable pub read_file : ℕ → ℤ → K → Option (Bool × K)
  read_file zero fd k = none
  read_file (suc fuel) fd k =
      let (r, k') = kernel.recv fd rece_file_buffer_size k in
      let rest = read_file fuel fd k' in
      elim r [
        | recv_again ↦ some (false, k')
        | recv_failed ↦ some (false, k')
        | received [] ↦ some (true, k')
        | received (b ∷ bs) ↦ rest
      ]

  -- `ReceFile::run` of the receiver at position `i`.
  unfoldable pub run_file : ℕ → ℕ → RecvManager → K → Option (RecvManager × K)
  unfolding read_file close_conn
  run_file fuel i m k = do
    fd ← m.rece_files i
    (at_end, k') ← read_file fuel fd k
    m' ← if at_end then close_conn true i m else some m
    some (m', k')
