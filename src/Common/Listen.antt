-- ===== src/Common/Listen.antt =====
-- A listening socket, as `RecvManager::createListen` of src/client/RecvManager.cpp and `coflowSimClient` of
-- src/client/main.cpp make it. `setsockopt` only fails without effect.
use coflow_sim_online.Base.{
  List, [], arith, if◌then◌else◌, negsuc, pos, ℕ, ℤ, ◌%◌, ◌++◌, ◌-◌, ◌==ℤ◌, ◌^◌, ◌∷◌, ◌≡◌, ◌≢◌,
}
use coflow_sim_online.Text.{Bytes}

pub data NetCall : Type 0 where
  open_socket : NetCall
  set_linger : (fd : ℤ) → (onoff linger : ℕ) → NetCall
  bind_to : (fd : ℤ) → (ip : Bytes) → (port : ℕ) → NetCall
  listen_on : (fd : ℤ) → (backlog : ℕ) → NetCall

-- What `socket`, `bind` and `listen` return.
pub record Answers : Type 0 where
  pub sockfd : ℤ
  pub bound : ℤ
  pub listens : ℤ

abbrev pub backlog : ℕ
backlog = 65535

-- `static_cast<uint16_t>(port)`
abbrev pub uint16 : ℤ → ℕ
uint16 (pos n) = n % 2 ^ 16
uint16 (negsuc n) = 2 ^ 16 - 1 - n % 2 ^ 16

-- The calls, and the descriptor or -1.
unfoldable pub create_listen : Bytes → ℤ → Answers → List NetCall × ℤ
create_listen ip port a =
    let fd = a.sockfd in
    let bound = open_socket ∷ set_linger fd 1 0 ∷ bind_to fd ip (uint16 port) ∷ [] in
    if fd ==ℤ negsuc 0
    then (open_socket ∷ [], negsuc 0)
    else if a.bound ==ℤ negsuc 0
    then (bound, negsuc 0)
    else if a.listens ==ℤ negsuc 0
    then (bound ++ listen_on fd backlog ∷ [], negsuc 0)
    else (bound ++ listen_on fd backlog ∷ [], fd)

-- A descriptor other than -1 is the socket's, and it was bound and listens.
pub create_listen_lem :
    (ip : Bytes) (port : ℤ) (a : Answers)
    → (create_listen ip port a).1 ≢ negsuc 0
    → ((create_listen ip port a).1 ≡ a.sockfd)
      × ((create_listen ip port a).0
          ≡ open_socket
            ∷ set_linger a.sockfd 1 0
            ∷ bind_to a.sockfd ip (uint16 port)
            ∷ listen_on a.sockfd backlog
            ∷ [])
unfolding create_listen
create_listen_lem ip port a h = ground arith
