-- ===== src/Master/Trace.antt =====
-- src/master/traceProducer/CoflowBenchmarkTraceProducer.{h,cpp}. A variable that is read without
-- having been set makes the result `none`, and so does a null pointer that `strtok` returns.
pub mod Grid
pub mod Line
pub mod Entry
pub mod Numbers
pub mod File
mod Tests
use coflow_sim_online.Base.{
  Bool, List, Option, [], drop, false, if◌then◌else◌, length, ltb, negsuc, none, not, pos, pos_part,
  some, suc, take, true, zero, ℕ, ℤ, ◌&&◌, ◌++◌, ◌+◌, ◌-◌, ◌==ℤ◌, ◌==◌, ◌>>=◌, ◌∷◌,
}
use coflow_sim_online.Text.{Bytes}
use coflow_sim_online.Text.Stream.{Stream, stream, skip_space, read_int, read_word}
use coflow_sim_online.Common.Float.{Float}
use coflow_sim_online.Master.Coflow.{Coflow, new_coflow, add_flow}

-- With nothing left but spaces, or after a failure, `>>` leaves its variable alone.
unfoldable pub reads : Stream → Bool
unfolding skip_space
reads ss = ss.good && ltb 0 (length (skip_space ss.unread))

-- `ss >> x` into an `int` that is not set.
unfoldable pub need_int : Stream → Option (ℤ × Stream)
unfolding reads read_int
need_int ss = if reads ss then some (read_int (pos 0) ss) else none

-- `ss >> mapperIDs[i]`, this many times
unfoldable pub read_ids : ℕ → Stream → Option (List ℤ × Stream)
read_ids zero ss = some ([], ss)
read_ids (suc n) ss = do (id, ss1) ← need_int ss; (ids, ss2) ← read_ids n ss1; some (id ∷ ids, ss2)

unfoldable pub skip_colons : Bytes → Bytes
skip_colons [] = []
skip_colons (c ∷ s) = if c == b':' then skip_colons s else c ∷ s

unfoldable pub take_token : Bytes → Bytes
take_token [] = []
take_token (c ∷ s) = if c == b':' then [] else c ∷ take_token s

-- Behind the delimiter that ends the token.
unfoldable pub drop_token : Bytes → Bytes
drop_token [] = []
drop_token (c ∷ s) = if c == b':' then s else drop_token s

-- `strtok(s, ":")`, with what the next call goes on with. An empty token is a null pointer.
unfoldable pub strtok : Bytes → Option (Bytes × Bytes)
unfolding skip_colons take_token drop_token
strtok s =
    let s' = skip_colons s in
    if ltb 0 (length s') then some (take_token s', drop_token s') else none

-- The size of `buf`.
abbrev pub pair_size : ℕ
pair_size = 50

-- `ss >> buf` into a `buf` whose content does not matter.
unfoldable pub need_word : Stream → Option (Bytes × Stream)
unfolding reads read_word
need_word ss =
    let (word, ss') = read_word [] ss in
    if reads ss && ltb (length word) pair_size then some (word, ss') else none

module _ {D : Type 0} (float : Float D) where
  unfoldable pub need_float : Stream → Option (D × Stream)
  unfolding reads
  need_float ss = if reads ss then some (float.read (float.of_int (pos 0)) ss) else none

  -- `reducerID:sizeMB`
  unfoldable pub read_pair : Bytes → Option (ℤ × D)
  read_pair buf = do
    (first, behind) ← strtok buf
    (second, _) ← strtok behind
    (reducer_id, _) ← need_int (stream first)
    (size_mb, _) ← need_float (stream second)
    some (reducer_id, size_mb)

  unfoldable pub read_pairs : ℕ → Stream → Option (List (ℤ × D))
  read_pairs zero ss = some []
  read_pairs (suc n) ss = do
    (buf, ss') ← need_word ss
    pair ← read_pair buf
    pairs ← read_pairs n ss'
    some (pair ∷ pairs)

  -- The inner loop, with the flow id that it starts at.
  unfoldable pub add_mappers : ℕ → ℤ → D → List ℤ → Coflow D → Coflow D
  add_mappers flow_id reducer_id size [] co = co
  add_mappers flow_id reducer_id size (mapper_id ∷ ids) co =
      add_mappers (flow_id + 1) reducer_id size ids
        (add_flow (float.of_int (pos 0)) (pos flow_id) mapper_id reducer_id size co)

  -- `for (auto &it : reducer_sizeMB)`, with `mapperNum`
  unfoldable pub add_reducers : ℤ → ℕ → List ℤ → List (ℤ × D) → Coflow D → Coflow D
  add_reducers mapper_num flow_id ids [] co = co
  add_reducers mapper_num flow_id ids ((reducer_id, size) ∷ pairs) co =
      add_reducers mapper_num (flow_id + length ids) ids pairs
        (add_mappers flow_id reducer_id (float.div_int size mapper_num) ids co)

  -- An array of negative length cannot be made.
  abbrev pub array_length : ℤ → Option ℕ
  array_length (pos n) = some n
  array_length (negsuc n) = none

  -- `raw_endtime` is the memory of the new coflow's `endtime`.
  unfoldable pub prepare_one_coflow : ℤ → Bytes → Option (Coflow D)
  prepare_one_coflow raw_endtime line = do
    (coflow_id, ss1) ← need_int (stream line)
    (start_time, ss2) ← need_float ss1
    (mapper_num, ss3) ← need_int ss2
    n ← array_length mapper_num
    (mapper_ids, ss4) ← read_ids n ss3
    (reducer_num, ss5) ← need_int ss4
    pairs ← read_pairs (pos_part reducer_num) ss5
    some (add_reducers mapper_num 0 mapper_ids pairs (new_coflow raw_endtime coflow_id start_time))

-- The size of `buffer`.
abbrev pub line_size : ℕ
line_size = 4096

unfoldable pub take_line : Bytes → Bytes
take_line [] = []
take_line (c ∷ s) = if c == b'\n' then [] else c ∷ take_line s

-- From the newline on.
unfoldable pub drop_line : Bytes → Bytes
drop_line [] = []
drop_line (c ∷ s) = if c == b'\n' then c ∷ s else drop_line s

abbrev after_line : Bytes → Stream
after_line [] = record { unread = []; good = false }
after_line (c ∷ s) = record { unread = s; good = true }

-- `getline(buffer, 4096, '\n')`. A line that is too long is read in part, with `failbit`.
unfoldable pub get_line : Stream → Bytes × Stream
unfolding take_line drop_line
get_line ss =
    let line = take_line ss.unread in
    if not ss.good
    then ([], ss)
    else if ltb (length line) line_size
    then (line, after_line (drop_line ss.unread))
    else (
      take (line_size - 1) line,
      record { unread = drop (line_size - 1) ss.unread; good = false },
    )

-- A stream that is not good and has bytes left has not met its end.
abbrev pub is_eof : Stream → Bool
is_eof ss = not ss.good && (length ss.unread == 0)

pub record TraceProducer : Type 0 where
  pub logic_machine_port_num : ℤ
  pub coflow_num : ℤ

abbrev pub new_trace_producer : TraceProducer
new_trace_producer = record { logic_machine_port_num = pos 0; coflow_num = pos 0 }

module _ {D : Type 0} (float : Float D) where
  -- The `while`, with the rounds that `coflowNum` leaves.
  unfoldable pub prepare_lines : ℤ → ℕ → Stream → Option (List (Coflow D))
  prepare_lines raw_endtime zero ss = some []
  prepare_lines raw_endtime (suc n) ss =
      let (line, ss') = get_line ss in
      let rest = prepare_lines raw_endtime n ss' in
      if is_eof ss
      then some []
      else prepare_one_coflow float raw_endtime line >>= λ co. rest >>= λ cos. some (co ∷ cos)

  -- `file` is the content of the trace; of one that cannot be opened, nothing is read. The new
  -- coflows go behind those of the caller's vector.
  unfoldable pub prepare_coflows :
      ℤ → Bytes → TraceProducer → List (Coflow D) → Option (TraceProducer × List (Coflow D))
  prepare_coflows raw_endtime file tp coflows = do
    let (ports, ss1) = read_int tp.logic_machine_port_num (stream file)
    (num, ss2) ← need_int ss1
    let (_, ss3) = get_line ss2
    cos ← prepare_lines raw_endtime (pos_part num) ss3
    some (record tp { logic_machine_port_num = ports }, coflows ++ cos)

-- The number is read once, and kept if it is not 0.
unfoldable pub get_coflow_num : Bytes → TraceProducer → Option (ℤ × TraceProducer)
get_coflow_num file tp = if not (tp.coflow_num ==ℤ pos 0) then some (tp.coflow_num, tp) else (do
  (ports, ss) ← need_int (stream file)
  let (num, _) = read_int ports ss
  some (num, record tp { coflow_num = num }))

unfoldable pub get_logic_machine_port_num : Bytes → TraceProducer → Option (ℤ × TraceProducer)
get_logic_machine_port_num file tp =
    if not (tp.logic_machine_port_num ==ℤ pos 0) then some (tp.logic_machine_port_num, tp) else (do
      (ports, _) ← need_int (stream file)
      some (ports, record tp { logic_machine_port_num = ports }))
