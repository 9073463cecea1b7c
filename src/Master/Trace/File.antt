-- ===== src/Master/Trace/File.antt =====
-- The whole trace file.
use coflow_sim_online.Base.{
  All, Bool, IsInt, List, [], arith, false, if◌then◌else◌, length, lt→ltb, map, pos, refl, some,
  suc, true, zero, ℕ, ℤ, ◌++◌, ◌<◌, ◌^◌, ◌∙◌, ◌∷◌, ◌≡◌, ◌≢◌,
}
use coflow_sim_online.Master.Trace.{
  need_int, take_line, drop_line, get_line, line_size, TraceProducer, prepare_lines,
  prepare_coflows,
}
use coflow_sim_online.Text.{Bytes, print_int}
use coflow_sim_online.Text.Stream.{stream}
use coflow_sim_online.Text.RoundTrip.{read_int-print_int}
use coflow_sim_online.Common.Float.{Float, FloatLaws}
use coflow_sim_online.Master.Coflow.{Coflow}
use coflow_sim_online.Master.Trace.Line.{need_int-space, need_int-print_int}
use coflow_sim_online.Master.Trace.Entry.{
  Entry, IsReadable, coflow_of, print_line, prepare_one_coflow-print_line,
}

abbrev pub IsLine : Bytes → Type 0
IsLine = All (λ c. c ≢ b'\n')

take_line-all :
    (line rest : Bytes)
    → IsLine line
    → (take_line (line ++ b'\n' ∷ rest) ≡ line) × (drop_line (line ++ b'\n' ∷ rest) ≡ b'\n' ∷ rest)
unfolding take_line drop_line
take_line-all [] rest h = (refl, refl)
take_line-all (c ∷ line) rest (hc, h) = ground (arith, take_line-all line rest h)

get_line-line :
    (line rest : Bytes)
    → IsLine line
    → length line < line_size
    → get_line (stream (line ++ b'\n' ∷ rest)) ≡ (line, stream rest)
unfolding get_line
get_line-line line rest h short =
    let (first, behind) = take_line-all line rest h in
    rw (first, behind, lt→ltb (length line) line_size short)

take_line-last : (line : Bytes) → IsLine line → (take_line line ≡ line) × (drop_line line ≡ [])
unfolding take_line drop_line
take_line-last [] h = (refl, refl)
take_line-last (c ∷ line) (hc, h) = ground (arith, take_line-last line h)

get_line-last :
    (line : Bytes)
    → IsLine line
    → length line < line_size
    → get_line (stream line) ≡ (line, record { unread = []; good = false })
unfolding get_line
get_line-last line h short =
    let (first, behind) = take_line-last line h in
    rw (first, behind, lt→ltb (length line) line_size short)

-- This many spaces in front.
abbrev pub spaces : ℕ → Bytes → Bytes
spaces zero s = s
spaces (suc n) s = b' ' ∷ spaces n s

need_int-spaces : (n : ℕ) (s : Bytes) → need_int (stream (spaces n s)) ≡ need_int (stream s)
need_int-spaces zero s = refl
need_int-spaces (suc n) s = need_int-space (spaces n s) ∙ need_int-spaces n s

module _ {D : Type 0} (float : Float D) (laws : FloatLaws float) where
  -- A line of the file, if it fits `buffer`.
  pub record IsListed (e : Entry D) : Type 0 where
    pub readable : IsReadable float laws e
    pub line : IsLine (print_line float laws e)
    pub short : length (print_line float laws e) < line_size

  -- The last line ends with a newline or not.
  abbrev pub print_lines : Bool → List (Entry D) → Bytes
  print_lines ended [] = []
  print_lines ended (e ∷ []) =
      if ended then print_line float laws e ++ b'\n' ∷ [] else print_line float laws e
  print_lines ended (e ∷ e' ∷ es) = print_line float laws e ++ b'\n' ∷ print_lines ended (e' ∷ es)

  -- Line 1: the number of ports and, behind one or more spaces, the number of coflows.
  unfoldable pub print_trace : ℤ → ℕ → Bool → List (Entry D) → Bytes
  print_trace ports more_spaces ended es =
      print_int ports
      ++ b' ' ∷ spaces more_spaces (print_int (pos (length es)) ++ b'\n' ∷ print_lines ended es)

  prepare_lines-print_lines :
      (raw_endtime : ℤ) (ended : Bool) (es : List (Entry D))
      → All IsListed es
      → prepare_lines float raw_endtime (length es) (stream (print_lines ended es))
        ≡ some (map (coflow_of float laws raw_endtime) es)
  unfolding prepare_lines
  prepare_lines-print_lines raw ended [] h = refl
  prepare_lines-print_lines raw true (e ∷ []) (he, h) = rw (
    get_line-line (print_line float laws e) [] he.line he.short,
    (prepare_one_coflow-print_line float laws raw e he.readable).0,
  )
  prepare_lines-print_lines raw false (e ∷ []) (he, h) = rw (
    get_line-last (print_line float laws e) he.line he.short,
    (prepare_one_coflow-print_line float laws raw e he.readable).0,
  )
  prepare_lines-print_lines raw ended (e ∷ e' ∷ es) (he, h) = rw (
    get_line-line (print_line float laws e) (print_lines ended (e' ∷ es)) he.line he.short,
    (prepare_one_coflow-print_line float laws raw e he.readable).0,
    prepare_lines-print_lines raw ended (e' ∷ es) h,
  )

  -- From a trace of which the first line has the numbers of ports and of coflows, with one space
  -- or more between them, and each further line describes a coflow, with single spaces,
  -- prepareCoflows makes the coflows of all its lines, in order, and keeps the number of ports.
  -- The premises are that the numbers are int values, the times and sizes are spelled by texts
  -- that ss >> double reads to their end, with no space, parenthesis, colon or NUL in them, and
  -- each line and each pair fits its buffer. A line break at the end may be missing.
  pub prepare_coflows-print_trace :
      (raw_endtime ports : ℤ) (more_spaces : ℕ) (ended : Bool) (es : List (Entry D))
      (tp : TraceProducer) (coflows : List (Coflow D))
      → IsInt ports
      → length es < 2 ^ 31
      → All IsListed es
      → prepare_coflows float raw_endtime (print_trace ports more_spaces ended es) tp coflows
        ≡ some (
          record tp { logic_machine_port_num = ports },
          coflows ++ map (coflow_of float laws raw_endtime) es,
        )
  unfolding prepare_coflows print_trace
  prepare_coflows-print_trace raw ports more_spaces ended es tp coflows hp hn h = rw (
    read_int-print_int tp.logic_machine_port_num ports _ hp refl,
    need_int-space
        (spaces more_spaces (print_int (pos (length es)) ++ b'\n' ∷ print_lines ended es)),
    need_int-spaces more_spaces (print_int (pos (length es)) ++ b'\n' ∷ print_lines ended es),
    need_int-print_int (pos (length es)) (b'\n' ∷ print_lines ended es) hn refl,
    get_line-line [] (print_lines ended es) tt (omega arith),
    prepare_lines-print_lines raw ended es h,
  )
