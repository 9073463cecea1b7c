-- ===== src/Common/Socket.antt =====
-- src/common/socket/socketManage.{h,cpp}. A buffer is the list of the bytes that it holds, so
-- `m_recvIdx` and `m_sendBufSize` are lengths; a write past an array is `none`. Each method that
-- touches a buffer holds that buffer's lock throughout, so a method is one step here. The kernel is
-- a parameter: `recv` and `send` are functions of its state.
pub mod Kernels
pub mod Send
pub mod Receive
mod Tests
use coflow_sim_online.Base.{
  Bool, List, Option, [], false, if◌then◌else◌, leb, length, ltb, negsuc, none, not, some, suc,
  true, zero, ℕ, ℤ, ◌&&◌, ◌++◌, ◌+◌, ◌-◌, ◌==ℤ◌, ◌==◌, ◌∷◌,
}
use coflow_sim_online.Text.{Bytes}
use coflow_sim_online.Common.Epoll.{SysCall, addfd, removefd, modfd, epollin, epollout}

abbrev pub msg_len : ℕ
msg_len = 100

abbrev pub max_recv_buffer_size : ℕ
max_recv_buffer_size = 2048

abbrev pub max_send_buffer_size : ℕ
max_send_buffer_size = 1024

pub record Address : Type 0 where
  pub ip : Bytes
  pub port : ℤ

-- `epollfd` is the static `sEpollfd`; `calls` are the calls of epoll_ctl, fcntl and close so far.
pub record Socket : Type 0 where
  pub sockfd : ℤ
  pub address : Address
  pub recv_buf : Bytes
  pub send_buf : Bytes
  pub epollfd : ℤ
  pub calls : List SysCall

abbrev pub emit : List SysCall → Socket → Socket
emit cs s = record s { calls = s.calls ++ cs }

unfoldable pub init_recv_buf : Socket → Socket
init_recv_buf s = record s { recv_buf = [] }

unfoldable pub init_send_buf : Socket → Socket
init_send_buf s = record s { send_buf = [] }

unfoldable pub init_socket : ℤ → Address → Socket → Socket
unfolding init_recv_buf init_send_buf addfd
init_socket fd addr s =
    let s1 = record s { sockfd = fd; address = addr } in
    init_send_buf (init_recv_buf (emit (addfd s1.epollfd fd false true) s1))

unfoldable pub close_conn : Bool → Socket → Socket
unfolding removefd
close_conn real_close s =
    if real_close && not (s.sockfd ==ℤ negsuc 0)
    then record (emit (removefd s.epollfd s.sockfd) s) { sockfd = negsuc 0 }
    else s

-- `connected` is the descriptor that `socket` and `connect` give. Their failures are only logged.
unfoldable pub create_connect : ℤ → Address → Socket → Socket
unfolding close_conn init_socket
create_connect connected addr s =
    init_socket connected addr (if not (s.sockfd ==ℤ negsuc 0) then close_conn true s else s)

-- A refusal gives `false`. The terminating NUL is written behind the message in any other case.
unfoldable pub set_send_msg : Bytes → Socket → Option (Socket × Bool)
unfolding modfd
set_send_msg msg s =
    let size = length s.send_buf + length msg in
    if ltb max_send_buffer_size size
    then some (s, false)
    else if ltb size max_send_buffer_size
    then some
        (emit (modfd s.epollfd s.sockfd epollout) (record s { send_buf = s.send_buf ++ msg }), true)
    else none

-- What `send` returned: a count, -1 with `EAGAIN`, or -1 with another error.
pub data SendResult : Type 0 where
  sent : ℕ → SendResult
  send_again send_failed : SendResult

unfoldable pub after_send : SendResult → Socket → Socket × Bool
unfolding modfd init_send_buf
after_send (sent n) s =
    if n == length s.send_buf
    then (init_send_buf (emit (modfd s.epollfd s.sockfd epollin) s), true)
    else (s, false)
after_send send_again s = (emit (modfd s.epollfd s.sockfd epollout) s, true)
after_send send_failed s = (s, false)

-- What `recv` returned: bytes (none at the end of the stream), -1 with `EAGAIN`, or another error.
pub data RecvResult : Type 0 where
  received : Bytes → RecvResult
  recv_again recv_failed : RecvResult

-- `send` is given the whole buffer, and `recv` the room that is left.
pub record Kernel (K : Type 0) : Type 0 where
  pub send : ℤ → Bytes → K → SendResult × K
  pub recv : ℤ → ℕ → K → RecvResult × K

module _ {K : Type 0} (kernel : Kernel K) where
  unfoldable pub send_message : Socket → K → (Socket × Bool) × K
  unfolding after_send modfd init_send_buf
  send_message s k =
      if length s.send_buf == 0
      then ((init_send_buf (emit (modfd s.epollfd s.sockfd epollin) s), true), k)
      else (let (r, k') = kernel.send s.sockfd s.send_buf k in (after_send r s, k'))

  unfoldable pub send_msg : Socket → K → (Socket × Bool) × K
  unfolding send_message
  send_msg s k =
      if ltb 0 (length s.send_buf)
      then (let ((s', _), k') = send_message s k in ((s', true), k'))
      else ((s, false), k)

  -- The loop, with fuel: `none` means that the fuel ran out.
  unfoldable pub receive_loop : ℕ → Socket → K → Option ((Socket × Bool) × K)
  receive_loop zero s k = none
  receive_loop (suc fuel) s k =
      let (r, k') = kernel.recv s.sockfd (max_recv_buffer_size - length s.recv_buf) k in
      elim r [
        | recv_again ↦ some ((s, true), k')
        | recv_failed ↦ some ((s, false), k')
        | received [] ↦ some ((s, false), k')
        | received (b ∷ bs) ↦
            let s' = record s { recv_buf = s.recv_buf ++ b ∷ bs } in
            let rest = receive_loop fuel s' k' in
            if leb msg_len (length s'.recv_buf) then some ((s', true), k') else rest
      ]

  unfoldable pub receive_message : Socket → K → Option ((Socket × Bool) × K)
  unfolding receive_loop
  receive_message s k =
      if ltb max_recv_buffer_size (length s.recv_buf)
      then some ((s, false), k)
      else receive_loop (suc msg_len) s k

  -- An error is only reported: the result is always `true`.
  unfoldable pub recv_msg : Socket → K → Option ((Socket × Bool) × K)
  unfolding receive_message
  recv_msg s k = elim (receive_message s k) [
    | none ↦ none
    | some ((s', _), k') ↦ some ((s', true), k')
  ]

  unfoldable pub run : Socket → K → Option (Socket × K)
  unfolding send_message receive_message
  run s k =
      if ltb 0 (length s.send_buf)
      then (let ((s', _), k') = send_message s k in some (s', k'))
      else elim (receive_message s k) [ none ↦ none | some ((s', _), k') ↦ some (s', k') ]

-- Appends to the caller's buffer, and empties this one.
unfoldable pub get_recv_buf : Bytes → Socket → Bytes × Socket
unfolding init_recv_buf
get_recv_buf buf s = (buf ++ s.recv_buf, init_recv_buf s)
