-- ===== src/Wire.antt =====
-- The wire format of both directions: a message is `(`, a body with no parenthesis in it, `)`. This
-- is the abstract reader that client/main.cpp and master/datastructures/machine.cpp are compared
-- with: it reads one byte at a time and knows nothing of buffers, indices or chunks.
pub mod Split
use coflow_sim_online.Base.{
  All, List, Option, [], if◌then◌else◌, none, some, ℕ, ◌++◌, ◌==◌, ◌∷◌, ◌≢◌,
}
use coflow_sim_online.Text.{Bytes}

abbrev pub IsPlain : ℕ → Type 0
IsPlain c = (c ≢ b'(') × (c ≢ b')')

abbrev pub IsBody : Bytes → Type 0
IsBody = All IsPlain

abbrev pub frame : Bytes → Bytes
frame body = b'(' ∷ (body ++ b')' ∷ [])

unfoldable pub wire : List Bytes → Bytes
wire [] = []
wire (body ∷ bodies) = frame body ++ wire bodies

-- The reader is between messages, or inside one of which it has read these bytes.
abbrev pub Reader : Type 0
Reader = Option Bytes

-- The bytes read of an unfinished message.
abbrev pub pending : Reader → Bytes
pending none = []
pending (some p) = b'(' ∷ p

abbrev pub deliver : Bytes → Option (List Bytes × Reader) → Option (List Bytes × Reader)
deliver body none = none
deliver body (some (bodies, st)) = some (body ∷ bodies, st)

-- The bodies that are finished by these bytes; `none` for bytes that are no part of the format.
unfoldable pub feed : Reader → Bytes → Option (List Bytes × Reader)
feed st [] = some ([], st)
feed none (c ∷ cs) = let opened = feed (some []) cs in if c == b'(' then opened else none
feed (some p) (c ∷ cs) =
    let closed = deliver p (feed none cs) in
    let longer = feed (some (p ++ c ∷ [])) cs in
    if c == b'(' then none else if c == b')' then closed else longer

-- What a reader holds has no parenthesis in it.
abbrev pub HoldsBody : Reader → Type 0
HoldsBody none = Unit
HoldsBody (some p) = IsBody p
