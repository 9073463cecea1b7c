-- ===== src/Common/Socket/Tests.antt =====
-- Runs of the socket model, and its theorems at concrete inputs.
use coflow_sim_online.Common.Socket.Receive.{Appends, receive_message-Appends}
use coflow_sim_online.Base.{
  Bool, List, [], arith, length, none, pos, refl, some, suc, true, zero, ℕ, ◌++◌, ◌+◌, ◌↔◌, ◌∷◌,
  ◌≡◌,
}
use mathlib.Core.Option
use coflow_sim_online.Common.Epoll.{epoll_mod}
use coflow_sim_online.Text.{codes}
use coflow_sim_online.Common.Socket.{
  Socket, recv_msg, get_recv_buf, init_socket, set_send_msg, max_send_buffer_size, receive_message,
  send_msg,
}
use coflow_sim_online.Common.Socket.Kernels.{Loopback, loopback, loopback_pipe, eager, eager_pipe}
use coflow_sim_online.Common.Socket.Send.{
  set_send_msg_overflow, send_steps, SendOp, send_steps_lossless, IsWhole, send_step, queue,
  send_msg_partial, flush,
}

abbrev peer : Socket
peer = record {
  sockfd = pos 5;
  address = record { ip = codes "10.0.0.2"; port = pos 4003 };
  recv_buf = codes "(1 ";
  send_buf = codes "(1 2)";
  epollfd = pos 3;
  calls = [];
}

abbrev calm : Loopback
calm = record { out = []; handed = []; stock = codes "2 9)(3"; window = 2000 }

abbrev narrow : Loopback
narrow = record { out = []; handed = []; stock = []; window = 3 }

init_socket_runs : (init_socket (pos 6) peer.address peer).send_buf ≡ []
unfolding init_socket
init_socket_runs = refl

recv_msg_runs :
    Option.map (λ r. r.0.0.recv_buf) (recv_msg loopback peer calm) ≡ some (codes "(1 2 9)(3")
unfolding recv_msg
recv_msg_runs = refl

get_recv_buf_runs : (get_recv_buf (codes "x") peer).0 ≡ codes "x(1 "
unfolding get_recv_buf
get_recv_buf_runs = refl

abbrev replicate : ℕ → ℕ → List ℕ
replicate zero a = []
replicate (suc n) a = a ∷ replicate n a

abbrev big : List ℕ
big = replicate 1019 b'a'

-- The out-of-bounds write at a concrete message.
set_send_msg_overflow_example :
    (set_send_msg big peer ≡ none) ↔ (length peer.send_buf + length big ≡ max_send_buffer_size)
set_send_msg_overflow_example = set_send_msg_overflow big peer

set_send_msg_fills : set_send_msg big peer ≡ none
unfolding set_send_msg
set_send_msg_fills = refl

abbrev queued : Socket
queued = (record peer {
  send_buf = codes "(1 2)(3)";
  calls = epoll_mod (pos 3) (pos 5) 0xc000_2004 ∷ [];
})

eager-IsWhole : IsWhole eager
eager-IsWhole fd buf k n e = ground arith

abbrev idle : Socket
idle = record peer { send_buf = [] }

abbrev burst : List SendOp
burst = queue (codes "(1)") ∷ queue (codes "(2)") ∷ flush ∷ queue (codes "(3)") ∷ []

sent_burst :
    (t : Socket) × (send_steps eager burst idle [] ≡ some ((t, codes "(1)(2)"), codes "(1)(2)(3)"))
unfolding send_steps send_step set_send_msg send_msg
sent_burst = (_, refl)

send_steps_lossless_example :
    codes "(1)(2)" ++ sent_burst.0.send_buf ≡ [] ++ (idle.send_buf ++ codes "(1)(2)(3)")
send_steps_lossless_example =
    send_steps_lossless eager eager_pipe eager-IsWhole burst idle [] {s' = sent_burst.0}
      sent_burst.1

send_msg_partial_example :
    (loopback_pipe.taken (send_msg loopback peer narrow).1
        ++ (send_msg loopback peer narrow).0.0.send_buf
      ≡ loopback_pipe.taken narrow ++ (codes "(1 " ++ codes "(1 2)"))
    × ((send_msg loopback peer narrow).0.1 ≡ true)
send_msg_partial_example = send_msg_partial loopback loopback_pipe peer narrow 3 refl (omega arith)

receive_message-Appends_example :
    (r : (Socket × Bool) × Loopback) × (receive_message loopback peer calm ≡ some r)
    × Appends loopback loopback_pipe peer calm r
receive_message-Appends_example =
    receive_message-Appends loopback loopback_pipe peer calm (omega arith)
