-- ===== src/Master/Trace/Line.antt =====
-- A line of the trace file, written and read.
use coflow_sim_online.Text.Stream.{skip_space, stream, more}
use coflow_sim_online.Text.RoundTrip.{
  IsWord, print_int-IsWord, EndsNumber, EndsWord, read_int-print_int, read_int-space,
  read_word-append, read_word-space, skip_space-dark,
}
use coflow_sim_online.Base.{
  All, IsInt, [], append-nil, arith, length, ltb, lt→ltb, pos, refl, some, subst, true, ℤ, ◌++◌,
  ◌<◌, ◌∷◌, ◌≡◌, ◌≢◌,
}
use coflow_sim_online.Text.{Bytes, print_int}
use coflow_sim_online.Master.Trace.{
  reads, need_int, need_word, strtok, skip_colons, take_token, drop_token, pair_size,
}

pub reads_word : (w rest : Bytes) → IsWord w → reads (stream (w ++ rest)) ≡ true
unfolding reads
reads_word [] rest (ne, h) = absurd (ne refl)
reads_word (c ∷ w) rest (ne, (hc, h)) = rw (skip_space-dark c (w ++ rest) hc) (ground arith)

pub reads_space : (s : Bytes) → reads (stream (b' ' ∷ s)) ≡ reads (stream s)
unfolding reads skip_space
reads_space s = refl

pub need_int-print_int :
    (i : ℤ) (rest : Bytes)
    → IsInt i
    → EndsNumber rest
    → need_int (stream (print_int i ++ rest)) ≡ some (i, record { unread = rest; good = more rest })
unfolding need_int
need_int-print_int i rest h e =
    rw (reads_word (print_int i) rest (print_int-IsWord i), read_int-print_int (pos 0) i rest h e)

pub need_int-space : (s : Bytes) → need_int (stream (b' ' ∷ s)) ≡ need_int (stream s)
unfolding need_int
need_int-space s = rw (reads_space s, read_int-space (pos 0) s) refl

pub need_int-spaced :
    (i : ℤ) (rest : Bytes)
    → IsInt i
    → EndsNumber rest
    → need_int (stream (b' ' ∷ (print_int i ++ rest)))
      ≡ some (i, record { unread = rest; good = more rest })
unfolding need_int
need_int-spaced i rest h e = rw (
  reads_space (print_int i ++ rest),
  reads_word (print_int i) rest (print_int-IsWord i),
  read_int-space (pos 0) (print_int i ++ rest),
  read_int-print_int (pos 0) i rest h e,
)

pub need_word-spaced :
    (w rest : Bytes)
    → IsWord w
    → length w < pair_size
    → EndsWord rest
    → need_word (stream (b' ' ∷ (w ++ rest))) ≡ some (w, record { unread = rest; good = more rest })
unfolding need_word
need_word-spaced w rest word short e = rw (
  read_word-space [] (w ++ rest),
  read_word-append [] w rest (word.0) (word.1) e,
  reads_space (w ++ rest),
  reads_word w rest word,
  lt→ltb (length w) pair_size short,
)

abbrev pub NoColon : Bytes → Type 0
NoColon = All (λ c. c ≢ b':')

take_token-all : (w : Bytes) → NoColon w → (take_token w ≡ w) × (drop_token w ≡ [])
unfolding take_token drop_token
take_token-all [] h = (refl, refl)
take_token-all (c ∷ w) (hc, h) = ground (arith, take_token-all w h)

take_token-colon :
    (w v : Bytes) → NoColon w → (take_token (w ++ b':' ∷ v) ≡ w) × (drop_token (w ++ b':' ∷ v) ≡ v)
unfolding take_token drop_token
take_token-colon [] v h = (refl, refl)
take_token-colon (c ∷ w) v (hc, h) = ground (arith, take_token-colon w v h)

skip_colons-none :
    (w : Bytes) → w ≢ [] → NoColon w → (rest : Bytes) → skip_colons (w ++ rest) ≡ w ++ rest
unfolding skip_colons
skip_colons-none [] ne h rest = absurd (ne refl)
skip_colons-none (c ∷ w) ne (hc, h) rest = ground arith

length-pos : (w rest : Bytes) → w ≢ [] → ltb 0 (length (w ++ rest)) ≡ true
length-pos [] rest ne = absurd (ne refl)
length-pos (c ∷ w) rest ne = ground arith

-- The two calls on a pair.
pub strtok-first : (w v : Bytes) → w ≢ [] → NoColon w → strtok (w ++ b':' ∷ v) ≡ some (w, v)
unfolding strtok
strtok-first w v ne h =
    let (first, behind) = take_token-colon w v h in
    rw (skip_colons-none w ne h (b':' ∷ v), length-pos w (b':' ∷ v) ne, first, behind)

pub strtok-last : (v : Bytes) → v ≢ [] → NoColon v → strtok v ≡ some (v, [])
unfolding strtok
strtok-last v ne h =
    let (first, behind) = take_token-all v h in
    let skip : skip_colons v ≡ v =
      subst (λ x. skip_colons x ≡ x) (append-nil v) (skip_colons-none v ne h []) in
    let some_ : ltb 0 (length v) ≡ true =
      subst (λ x. ltb 0 (length x) ≡ true) (append-nil v) (length-pos v [] ne) in
    rw (skip, some_, first, behind)
