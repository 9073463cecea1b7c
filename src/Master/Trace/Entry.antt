-- ===== src/Master/Trace/Entry.antt =====
-- A line of the trace file, and what `prepareOneCoflow` makes of it.
use coflow_sim_online.Master.Coflow.{get_flows_num, new_coflow, Coflow}
use coflow_sim_online.Master.Trace.Grid.{
  with_flows, grid, add_reducers-grid, length-grid, grid_size-product,
}
use coflow_sim_online.Master.Trace.{
  read_pairs, prepare_one_coflow, pair_size, need_int, need_float, read_ids, read_pair, reads,
}
use coflow_sim_online.Master.Trace.Line.{
  need_word-spaced, need_int-print_int, need_int-spaced, strtok-first, strtok-last, reads_word,
  reads_space, NoColon,
}
use coflow_sim_online.Base.{
  All, All-append, IsInt, List, [], ap, append-nil, arith, false, length, length-map, map, pos,
  refl, some, subst, sym, true, ℤ, ◌*◌, ◌++◌, ◌<◌, ◌^◌, ◌∷◌, ◌≡◌, ◌≢◌,
}
use coflow_sim_online.Text.{Bytes, print_int}
use coflow_sim_online.Text.Stream.{Stream, stream, more}
use coflow_sim_online.Text.RoundTrip.{
  IsWord, IsDark, EndsNumber, EndsWord, print_int-ne-nil, print_int-All, print_int-IsDark,
}
use coflow_sim_online.Common.Float.{Float, FloatLaws, IsMark}

-- A number as it is spelled in the file, such as 1.0, and what it is read as.
pub record Number (D : Type 0) : Type 0 where
  pub text : Bytes
  pub value : D

-- A coflow of the trace: the mappers' locations, and the reducers' with the sizes of their input.
pub record Entry (D : Type 0) : Type 0 where
  pub coflow_id : ℤ
  pub start_time : Number D
  pub mapper_ids : List ℤ
  pub reducers : List (ℤ × Number D)

-- Nothing, or a space in front.
pub data Spaced : Bytes → Type 0 where
  ends : Spaced []
  goes_on : (s : Bytes) → Spaced (b' ' ∷ s)

Spaced-EndsNumber : {s : Bytes} → Spaced s → EndsNumber s
Spaced-EndsNumber ends = tt
Spaced-EndsNumber (goes_on s) = refl

Spaced-EndsWord : {s : Bytes} → Spaced s → EndsWord s
Spaced-EndsWord ends = tt
Spaced-EndsWord (goes_on s) = refl

print_int-NoColon : (i : ℤ) → NoColon (print_int i)
print_int-NoColon i = print_int-All (λ c. c ≢ b':') i (λ c h. ground arith) (ground arith)

abbrev pub print_ids : List ℤ → Bytes → Bytes
print_ids [] rest = rest
print_ids (id ∷ ids) rest = b' ' ∷ (print_int id ++ print_ids ids rest)

print_ids-Spaced : (ids : List ℤ) (s : Bytes) → (t : Bytes) × (print_ids ids (b' ' ∷ s) ≡ b' ' ∷ t)
print_ids-Spaced [] s = (s, refl)
print_ids-Spaced (id ∷ ids) s = (_, refl)

read_ids-print_ids :
    (ids : List ℤ) (s : Bytes)
    → All IsInt ids
    → read_ids (length ids) (stream (print_ids ids (b' ' ∷ s))) ≡ some (ids, stream (b' ' ∷ s))
unfolding read_ids
read_ids-print_ids [] s h = refl
read_ids-print_ids (id ∷ ids) s (hid, h) =
    let (t, e) = print_ids-Spaced ids s in
    let next : need_int (stream (b' ' ∷ (print_int id ++ print_ids ids (b' ' ∷ s))))
        ≡ some (id, stream (print_ids ids (b' ' ∷ s))) =
      subst (λ x. need_int (stream (b' ' ∷ (print_int id ++ x))) ≡ some (id, stream x)) (sym e)
        (need_int-spaced id (b' ' ∷ t) hid refl) in
    rw (next, read_ids-print_ids ids s h)

append-ne-nil : (a b : Bytes) → a ≢ [] → a ++ b ≢ []
append-ne-nil [] b ne = absurd (ne refl)
append-ne-nil (c ∷ a) b ne = λ e. cc

module _ {D : Type 0} (float : Float D) (laws : FloatLaws float) where
  marks-IsDark : (s : Bytes) → All IsMark s → All IsDark s
  marks-IsDark [] h = tt
  marks-IsDark (c ∷ s) (hc, h) = (hc.0, marks-IsDark s h)

  marks-NoColon : (s : Bytes) → All IsMark s → NoColon s
  marks-NoColon [] h = tt
  marks-NoColon (c ∷ s) ((_, _, _, _, hc), h) = (hc, marks-NoColon s h)

  -- The spelling has no space, parenthesis, NUL or colon in it, and `ss >> double` reads it to its end.
  abbrev pub IsSpelled : Number D → Type 0
  IsSpelled d =
      (d.text ≢ [])
      × All IsMark d.text
      × ((old : D) (rest : Bytes)
          → EndsWord rest
          → float.read old (stream (d.text ++ rest))
            ≡ (d.value, record { unread = rest; good = more rest }))

  text-IsWord : (d : Number D) → IsSpelled d → IsWord d.text
  text-IsWord d (ne, marks, _) = (ne, marks-IsDark d.text marks)

  abbrev pub print_pair : ℤ × Number D → Bytes
  print_pair (reducer_id, size) = print_int reducer_id ++ b':' ∷ size.text

  abbrev pub print_pairs : List (ℤ × Number D) → Bytes
  print_pairs [] = []
  print_pairs (p ∷ ps) = b' ' ∷ (print_pair p ++ print_pairs ps)

  -- Line i: coflow, arrival time, mappers with their number, reducers with theirs.
  unfoldable pub print_line : Entry D → Bytes
  print_line e =
      print_int e.coflow_id
      ++ b' '
        ∷ (e.start_time.text
            ++ b' '
              ∷ (print_int (pos (length e.mapper_ids))
                  ++ print_ids e.mapper_ids
                      (b' ' ∷ (print_int (pos (length e.reducers)) ++ print_pairs e.reducers))))

  print_pairs-Spaced : (ps : List (ℤ × Number D)) → Spaced (print_pairs ps)
  print_pairs-Spaced [] = ends
  print_pairs-Spaced (p ∷ ps) = goes_on _

  need_float-spaced :
      (d : Number D) (rest : Bytes)
      → IsSpelled d
      → EndsWord rest
      → need_float float (stream (b' ' ∷ (d.text ++ rest)))
        ≡ some (d.value, record { unread = rest; good = more rest })
  unfolding need_float
  need_float-spaced d rest spelled h = rw (
    reads_space (d.text ++ rest),
    reads_word d.text rest (text-IsWord d spelled),
    laws.read_space (float.of_int (pos 0)) (d.text ++ rest),
    spelled.2 (float.of_int (pos 0)) rest h,
  )

  need_float-text :
      (d : Number D)
      → IsSpelled d
      → (ss : Stream) × (need_float float (stream d.text) ≡ some (d.value, ss))
  unfolding need_float
  need_float-text d spelled =
      let whole = append-nil d.text in
      (
        record { unread = []; good = false },
        rw (
          subst (λ x. reads (stream x) ≡ true) whole (reads_word d.text [] (text-IsWord d spelled)),
          subst
              (λ x.
                float.read (float.of_int (pos 0)) (stream x)
                ≡ (d.value, record { unread = []; good = false }))
              whole (spelled.2 (float.of_int (pos 0)) [] tt),
        ),
      )

  need_int-whole :
      (i : ℤ) → IsInt i → (ss : Stream) × (need_int (stream (print_int i)) ≡ some (i, ss))
  need_int-whole i h = (
    record { unread = []; good = false },
    subst (λ x. need_int (stream x) ≡ some (i, record { unread = []; good = false }))
        (append-nil (print_int i)) (need_int-print_int i [] h tt),
  )

  read_pair-print_pair :
      (r : ℤ) (size : Number D)
      → IsInt r
      → IsSpelled size
      → read_pair float (print_pair (r, size)) ≡ some (r, size.value)
  unfolding read_pair
  read_pair-print_pair r size h spelled =
      let (ss1, number) = need_int-whole r h in
      let (ss2, value) = need_float-text size spelled in
      rw (
        strtok-first (print_int r) size.text (print_int-ne-nil r) (print_int-NoColon r),
        strtok-last size.text spelled.0 (marks-NoColon size.text spelled.1),
        number,
        value,
      )

  abbrev pub shown_pair : ℤ × Number D → ℤ × D
  shown_pair (reducer_id, size) = (reducer_id, size.value)

  -- The id is an `int`, the size is spelled well, and the text fits `buf`.
  abbrev pub IsPair : ℤ × Number D → Type 0
  IsPair (reducer_id, size) =
      IsInt reducer_id × (length (print_pair (reducer_id, size)) < pair_size) × IsSpelled size

  print_pair-IsWord : (p : ℤ × Number D) → IsSpelled p.1 → IsWord (print_pair p)
  print_pair-IsWord (r, size) spelled = (
    append-ne-nil (print_int r) _ (print_int-ne-nil r),
    All-append IsDark (print_int r) _ (print_int-IsDark r) (refl, (text-IsWord size spelled).1),
  )

  read_pairs-print_pairs :
      (ps : List (ℤ × Number D))
      → All IsPair ps
      → read_pairs float
          (length ps)
          (record { unread = print_pairs ps; good = more (print_pairs ps) })
        ≡ some (map shown_pair ps)
  unfolding read_pairs
  read_pairs-print_pairs [] h = refl
  read_pairs-print_pairs (p ∷ ps) (hp, h) =
      let spaced = Spaced-EndsWord (print_pairs-Spaced ps) in
      rw (
        need_word-spaced (print_pair p) (print_pairs ps) (print_pair-IsWord p hp.2) hp.1 spaced,
        read_pair-print_pair p.0 p.1 hp.0 hp.2,
        read_pairs-print_pairs ps h,
      )

  pub record IsReadable (e : Entry D) : Type 0 where
    pub id_int : IsInt e.coflow_id
    pub start_spelled : IsSpelled e.start_time
    pub ids_int : All IsInt e.mapper_ids
    pub pairs : All IsPair e.reducers
    pub mappers_num : length e.mapper_ids < 2 ^ 31
    pub reducers_num : length e.reducers < 2 ^ 31

  -- The coflow of an entry.
  abbrev pub coflow_of : ℤ → Entry D → Coflow D
  coflow_of raw_endtime e =
      with_flows float (new_coflow raw_endtime e.coflow_id e.start_time.value)
        (grid float (pos (length e.mapper_ids)) 0 e.mapper_ids (map shown_pair e.reducers))

  -- A line that describes a coflow, with single spaces, gives that coflow: one flow for each
  -- reducer and each mapper, numbered in order, with that reducer's share of the size for the
  -- mapper; so there are as many flows as the product of the two numbers. The premises are that
  -- the numbers are int values, the times and sizes are spelled by texts that ss >> double reads
  -- to their end, with no space, parenthesis, colon or NUL in them, and the pairs fit the
  -- buffer.
  pub prepare_one_coflow-print_line :
      (raw_endtime : ℤ) (e : Entry D)
      → IsReadable e
      → (prepare_one_coflow float raw_endtime (print_line e) ≡ some (coflow_of raw_endtime e))
        × (get_flows_num (coflow_of raw_endtime e) ≡ length e.reducers * length e.mapper_ids)
  unfolding prepare_one_coflow print_line new_coflow
  prepare_one_coflow-print_line raw_endtime e h =
      let tail : Bytes = print_int (pos (length e.reducers)) ++ print_pairs e.reducers in
      let (ids_tail, spaced) = print_ids-Spaced e.mapper_ids tail in
      let num : need_int (
            stream (
              b' '
              ∷ (print_int (pos (length e.mapper_ids)) ++ print_ids e.mapper_ids (b' ' ∷ tail))))
          ≡ some (pos (length e.mapper_ids), stream (print_ids e.mapper_ids (b' ' ∷ tail))) =
        subst
          (λ x.
            need_int (stream (b' ' ∷ (print_int (pos (length e.mapper_ids)) ++ x)))
            ≡ some (pos (length e.mapper_ids), stream x))
          (sym spaced)
          (need_int-spaced (pos (length e.mapper_ids)) (b' ' ∷ ids_tail) h.mappers_num refl) in
      let all =
        add_reducers-grid float (pos (length e.mapper_ids)) 0 e.mapper_ids
          (map shown_pair e.reducers) (new_coflow raw_endtime e.coflow_id e.start_time.value) tt in
      (
        rw
            (
              need_int-print_int e.coflow_id _ h.id_int refl,
              need_float-spaced e.start_time _ h.start_spelled refl,
              num,
              read_ids-print_ids e.mapper_ids tail h.ids_int,
              need_int-spaced (pos (length e.reducers)) (print_pairs e.reducers) h.reducers_num
                  (Spaced-EndsNumber (print_pairs-Spaced e.reducers)),
              read_pairs-print_pairs e.reducers h.pairs,
            )
            (ap some all.0),
        ground (
          arith,
          length-grid float (pos (length e.mapper_ids)) 0 e.mapper_ids (map shown_pair e.reducers),
          grid_size-product float e.mapper_ids (map shown_pair e.reducers),
          length-map shown_pair e.reducers,
        ),
      )
