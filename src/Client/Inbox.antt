-- ===== src/Client/Inbox.antt =====
-- src/client/main.cpp, the EPOLLIN branch of `coflowSimClient`: instructions are cut out of what has
-- been received, and an unfinished one is moved to the front of `recvbuf`. The retained bytes are
-- the first `recvbuflen` bytes of `recvbuf`, whose 4096 bytes are taken to suffice.
pub mod Scan
pub mod Delivery
mod Tests
use coflow_sim_online.Base.{List, [], drop, if◌then◌else◌, ltb, take, ℕ, ◌++◌, ◌+◌, ◌-◌, ◌==◌, ◌∷◌}
use coflow_sim_online.Text.{Bytes}

-- The loop's variables, and the instructions handed to `appendTask` so far.
pub record Cut : Type 0 where
  pub insstart : ℕ
  pub insend : ℕ
  pub instructions : List Bytes

-- `recvbuf + from`, `to - from` bytes long
abbrev pub slice : Bytes → ℕ → ℕ → Bytes
slice buf from to = take (to - from) (drop from buf)

unfoldable pub cut_byte : Bytes → ℕ → ℕ → Cut → Cut
cut_byte buf i c s =
    let opened = if c == b'(' then record s { insstart = i + 1 } else s in
    if c == b')'
    then record opened {
      insend = i;
      instructions = opened.instructions ++ slice buf opened.insstart i ∷ [];
    }
    else opened

-- `for (i = 0; i < recvbuflen; i++)`, at index `i` with these bytes left
unfoldable pub cut_from : Bytes → ℕ → Bytes → Cut → Cut
cut_from buf i [] s = s
cut_from buf i (c ∷ cs) s = cut_from buf (i + 1) cs (cut_byte buf i c s)

unfoldable pub retain : Bytes → Cut → Bytes
retain buf s = if ltb s.insend s.insstart then b'(' ∷ drop s.insstart buf else []

-- Bytes arrive behind the retained ones: what is retained then, and the calls of `appendTask`.
unfoldable pub on_input : Bytes → Bytes → Bytes × List Bytes
unfolding cut_from cut_byte retain
on_input retained arrived =
    let recvbuf = retained ++ arrived in
    let s = cut_from recvbuf 0 recvbuf (record { insstart = 0; insend = 0; instructions = [] }) in
    (retain recvbuf s, s.instructions)

-- One EPOLLIN event after another.
unfoldable pub on_inputs : Bytes → List Bytes → Bytes × List Bytes
on_inputs retained [] = (retained, [])
on_inputs retained (arrived ∷ later) =
    let (retained', instructions) = on_input retained arrived in
    let (last, more) = on_inputs retained' later in (last, instructions ++ more)
