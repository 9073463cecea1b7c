-- ===== src/Text/Stream.antt =====
-- `std::stringstream` as the program reads it: `ss >> int` and `ss >> char *`.
use coflow_sim_online.Base.{
  Bool, [], false, if◌then◌else◌, ltb, negsuc, pos, refl, true, ℕ, ℤ, ◌*◌, ◌+◌, ◌-◌, ◌==◌, ◌^◌, ◌∷◌,
  ◌≡◌,
}
use coflow_sim_online.Text.{Bytes, codes, is_space, is_digit}

-- The unread bytes, and whether neither `eofbit` nor `failbit` is set.
pub record Stream : Type 0 where
  pub unread : Bytes
  pub good : Bool

abbrev pub stream : Bytes → Stream
stream s = record { unread = s; good = true }

-- The sentry of a formatted read.
unfoldable pub skip_space : Bytes → Bytes
skip_space [] = []
skip_space (c ∷ s) = if is_space c then skip_space s else c ∷ s

unfoldable pub take_digits : Bytes → Bytes
take_digits [] = []
take_digits (c ∷ s) = if is_digit c then c ∷ take_digits s else []

unfoldable pub drop_digits : Bytes → Bytes
drop_digits [] = []
drop_digits (c ∷ s) = if is_digit c then drop_digits s else c ∷ s

-- The number that digits spell behind `n`.
abbrev pub value : ℕ → Bytes → ℕ
value n [] = n
value n (c ∷ s) = value (n * 10 + (c - b'0')) s

-- Reading up to the end of the bytes sets `eofbit`.
abbrev pub more : Bytes → Bool
more [] = false
more (c ∷ s) = true

-- The magnitude `m` that was read as an `int`: out of range gives the nearest `int` and `failbit`.
unfoldable pub to_int : Bool → ℕ → Bytes → ℤ × Stream
to_int false m rest =
    if ltb m (2 ^ 31)
    then (pos m, record { unread = rest; good = more rest })
    else (pos (2 ^ 31 - 1), record { unread = rest; good = false })
to_int true m rest =
    if m == 0
    then (pos 0, record { unread = rest; good = more rest })
    else if ltb (2 ^ 31) m
    then (negsuc (2 ^ 31 - 1), record { unread = rest; good = false })
    else (negsuc (m - 1), record { unread = rest; good = more rest })

-- The digits behind the sign. With no digit the value is 0 and `failbit` is set.
unfoldable pub read_magnitude : Bool → Bytes → Bytes → ℤ × Stream
unfolding to_int
read_magnitude minus [] rest = (pos 0, record { unread = rest; good = false })
read_magnitude minus (d ∷ ds) rest = to_int minus (value 0 (d ∷ ds)) rest

-- The first byte that is no space. With nothing left but spaces the variable keeps its value.
unfoldable pub read_number : ℤ → Bytes → ℤ × Stream
unfolding read_magnitude take_digits drop_digits
read_number old [] = (old, record { unread = []; good = false })
read_number old (c ∷ s) =
    if c == b'-'
    then read_magnitude true (take_digits s) (drop_digits s)
    else if c == b'+'
    then read_magnitude false (take_digits s) (drop_digits s)
    else read_magnitude false (take_digits (c ∷ s)) (drop_digits (c ∷ s))

-- `ss >> x` for an `int x` whose value is `old`: no read from a stream that is not good.
unfoldable pub read_int : ℤ → Stream → ℤ × Stream
unfolding read_number skip_space
read_int old ss = if ss.good then read_number old (skip_space ss.unread) else (old, ss)

unfoldable pub take_word : Bytes → Bytes
take_word [] = []
take_word (c ∷ s) = if is_space c then [] else c ∷ take_word s

unfoldable pub drop_word : Bytes → Bytes
drop_word [] = []
drop_word (c ∷ s) = if is_space c then c ∷ s else drop_word s

unfoldable pub read_text : Bytes → Bytes → Bytes × Stream
unfolding take_word drop_word
read_text old [] = (old, record { unread = []; good = false })
read_text old (c ∷ s) =
    (take_word (c ∷ s), record { unread = drop_word (c ∷ s); good = more (drop_word (c ∷ s)) })

-- `ss >> buf` for a `char *buf` that holds the C string `old`.
unfoldable pub read_word : Bytes → Stream → Bytes × Stream
unfolding read_text skip_space
read_word old ss = if ss.good then read_text old (skip_space ss.unread) else (old, ss)

read_int_runs :
    read_int (pos 7) (stream (codes " -12 x"))
    ≡ (negsuc 11, record { unread = codes " x"; good = true })
unfolding read_int
read_int_runs = refl

read_int_overflow : (read_int (pos 7) (stream (codes "2147483648"))).0 ≡ pos 2147483647
unfolding read_int
read_int_overflow = refl

read_int_no_digit : (read_int (pos 7) (stream (codes "x"))).0 ≡ pos 0
unfolding read_int
read_int_no_digit = refl

read_word_runs :
    read_word [] (stream (codes "  ab c"))
    ≡ (codes "ab", record { unread = codes " c"; good = true })
unfolding read_word
read_word_runs = refl
