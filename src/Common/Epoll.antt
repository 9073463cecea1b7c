-- ===== src/Common/Epoll.antt =====
-- src/common/lib/epollFunctions.cpp: the system calls that a component makes are values, in order.
use coflow_sim_online.Base.{Bool, List, [], if◌then◌else◌, not, pos, refl, ℕ, ℤ, ◌==◌, ◌∷◌, ◌≡◌}
use Prim.Native.Nat.{bit_and, bit_or}

-- The bits of `epoll_event.events` that <sys/epoll.h> defines.
abbrev pub epollin : ℕ
epollin = 0x1

abbrev pub epollout : ℕ
epollout = 0x4

abbrev pub epollerr : ℕ
epollerr = 0x8

abbrev pub epollhup : ℕ
epollhup = 0x10

abbrev pub epollrdhup : ℕ
epollrdhup = 0x2000

abbrev pub epolloneshot : ℕ
epolloneshot = 0x4000_0000

abbrev pub epollet : ℕ
epollet = 0x8000_0000

pub data SysCall : Type 0 where
  epoll_add : (epollfd fd : ℤ) → (events : ℕ) → SysCall
  epoll_mod : (epollfd fd : ℤ) → (events : ℕ) → SysCall
  epoll_del : (epollfd fd : ℤ) → SysCall
  set_nonblocking : (fd : ℤ) → SysCall
  close : (fd : ℤ) → SysCall

-- `events & mask`
abbrev pub any_of : ℕ → ℕ → Bool
any_of events mask = not (bit_and events mask == 0)

unfoldable pub addfd : ℤ → ℤ → Bool → Bool → List SysCall
addfd epollfd fd one_shot non_block =
    let events = bit_or (bit_or epollin epollet) epollrdhup in
    let armed = if one_shot then bit_or events epolloneshot else events in
    epoll_add epollfd fd armed ∷ (if non_block then set_nonblocking fd ∷ [] else [])

unfoldable pub removefd : ℤ → ℤ → List SysCall
removefd epollfd fd = epoll_del epollfd fd ∷ close fd ∷ []

unfoldable pub modfd : ℤ → ℤ → ℕ → List SysCall
modfd epollfd fd ev =
    epoll_mod epollfd fd (bit_or (bit_or (bit_or ev epollet) epolloneshot) epollrdhup) ∷ []

modfd_runs : modfd (pos 3) (pos 5) epollout ≡ epoll_mod (pos 3) (pos 5) 0xc000_2004 ∷ []
unfolding modfd
modfd_runs = refl
