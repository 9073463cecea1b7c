-- ===== src/Master/Machine/Delivery.antt =====
-- Reports reach the queue whole and in order, however the stream was cut, unless an index that is
-- not set compares the wrong way.
use coflow_sim_online.Base.{
  All, All-append_left, All-append_right, Bool, List, Option, [], ap, append-nil, append_assoc,
  arith, false, flatten, inl, inr, length_eq_zero, map, map-append, none, refl, some, subst, sym,
  true, ◌++◌, ◌>>=◌, ◌∙◌, ◌∷◌, ◌≡◌, ◌≢◌, ◌⊎◌,
}
use mathlib.Core.Option
use coflow_sim_online.Text.{Bytes}
use coflow_sim_online.Wire.{Reader, pending, feed, HoldsBody, IsBody, wire}
use coflow_sim_online.Wire.Split.{
  feed-pending, feed_unfinished, and_then-eq-some, feed-append, feed-HoldsBody, feed-wire,
}
use coflow_sim_online.Common.Socket.{init_recv_buf, get_recv_buf}
use coflow_sim_online.Master.Machine.{
  Machine, Cut, read_info, cut_from, retain, parse_flows_finished_info,
}
use coflow_sim_online.Master.Machine.Scan.{
  IsText, Tracks, Cuts, cut_from-feed, retain-Tracks, retain_lost,
}

-- The machine after a read that brought it to this reader's state.
abbrev pub parsed : Machine → List Bytes → Bytes → Machine
parsed m bodies tmprecv = record m {
  socket = init_recv_buf m.socket;
  flows_finished_info = m.flows_finished_info ++ map read_info bodies;
  tmprecv = tmprecv;
}

abbrev start : Bytes → Cut
start buf = record { buf = buf; flow_start = none; flow_end = none; infos = [] }

start-Tracks : (buf : Bytes) → Tracks none 0 buf (start buf)
start-Tracks buf = record {
  head = [];
  held = [];
  split = refl;
  at_index = refl;
  ended = tt;
  unset = λ _. refl;
  quiet = λ _. refl;
  inside = tt;
}

parse_by_cut :
    (junk : Bool) (m : Machine) (r : Cut) (tmprecv : Bytes)
    → m.socket.recv_buf ≢ []
    → cut_from 0 (m.tmprecv ++ m.socket.recv_buf) (start (m.tmprecv ++ m.socket.recv_buf)) ≡ some r
    → retain junk r ≡ some tmprecv
    → parse_flows_finished_info junk m
      ≡ some (
        record m {
          socket = init_recv_buf m.socket;
          flows_finished_info = m.flows_finished_info ++ r.infos;
          tmprecv = tmprecv;
        },
        true,
      )
unfolding parse_flows_finished_info get_recv_buf
parse_by_cut junk m r tmprecv ne e e' = rw (length_eq_zero m.socket.recv_buf ne, e, e')

sees :
    (junk : Bool) (st : Reader) (bodies : List Bytes)
    → (bodies ≢ []) ⊎ (junk ≡ true)
    → (bodies ≡ [] → st ≢ none)
    → (map read_info bodies ≢ []) ⊎ ((junk ≡ true) × (st ≢ none))
sees junk st [] seen open_ = inr (ground arith, open_ refl)
sees junk st (b ∷ bodies) seen open_ = inl (λ e. cc)

module _ (junk : Bool) (m : Machine) (st st' : Reader) (bodies : List Bytes) where
  cuts :
      HoldsBody st
      → m.tmprecv ≡ pending st
      → All IsText bodies
      → feed st m.socket.recv_buf ≡ some (bodies, st')
      → Cuts st' bodies 0 (m.tmprecv ++ m.socket.recv_buf) (start (m.tmprecv ++ m.socket.recv_buf))
  cuts holds held text h =
      cut_from-feed (m.tmprecv ++ m.socket.recv_buf) 0 none (start _) (start-Tracks _) text (
        ap (λ b. feed none (b ++ m.socket.recv_buf)) held
        ∙ feed-pending st m.socket.recv_buf holds
        ∙ h)

  -- A read that finishes messages without a NUL, or after which an index that is not set compares
  -- as below any that is, queues the reports of these messages in order and keeps the unfinished
  -- one.
  pub parse-feed :
      HoldsBody st
      → m.tmprecv ≡ pending st
      → m.socket.recv_buf ≢ []
      → All IsText bodies
      → feed st m.socket.recv_buf ≡ some (bodies, st')
      → (bodies ≢ []) ⊎ (junk ≡ true)
      → parse_flows_finished_info junk m ≡ some (parsed m bodies (pending st'), true)
  parse-feed holds held ne text h seen =
      let (r, last, e, out, t) = cuts holds held text h in
      parse_by_cut junk m r (pending st') ne e (
        retain-Tracks junk st' last r t (
          subst (λ infos. (infos ≢ []) ⊎ ((junk ≡ true) × (st' ≢ none))) (sym out)
            (sees junk st' bodies seen (λ e.
              feed_unfinished m.socket.recv_buf st ne
                (subst (λ b. feed st m.socket.recv_buf ≡ some (b, st')) e h)))))
      ∙ ap
          (λ infos. some (
            record m {
              socket = init_recv_buf m.socket;
              flows_finished_info = m.flows_finished_info ++ infos;
              tmprecv = pending st';
            },
            true,
          ))
          out

-- After a read that finishes no message, the fragment is lost if the comparison with an index
-- that is not set comes out false.
pub parse_loses_fragment :
    (m : Machine) (st st' : Reader)
    → HoldsBody st
    → m.tmprecv ≡ pending st
    → m.socket.recv_buf ≢ []
    → feed st m.socket.recv_buf ≡ some ([], st')
    → parse_flows_finished_info false m ≡ some (parsed m [] [], true)
parse_loses_fragment m st st' holds held ne h =
    let (r, last, e, out, t) = cuts false m st st' [] holds held tt h in
    parse_by_cut false m r [] ne e (retain_lost st' last r t out)
    ∙ ap
        (λ infos. some (
          record m {
            socket = init_recv_buf m.socket;
            flows_finished_info = m.flows_finished_info ++ infos;
            tmprecv = [];
          },
          true,
        ))
        out

-- A `recvMsg` that brings these bytes, followed by the parse; and one such round after another.
unfoldable pub receive : Bool → Bytes → Machine → Option Machine
receive junk arrived m =
    Option.map (λ r. r.0)
      (parse_flows_finished_info junk
        (record m { socket = record m.socket { recv_buf = arrived } }))

unfoldable pub receive_all : Bool → List Bytes → Machine → Option Machine
receive_all junk [] m = some m
receive_all junk (arrived ∷ later) m = receive junk arrived m >>= receive_all junk later

abbrev pub Queued : Machine → Bytes → List Bytes → Option Machine → Type 0
Queued m tmprecv bodies r =
    (m' : Machine) × (r ≡ some m')
    × (m'.flows_finished_info ≡ m.flows_finished_info ++ map read_info bodies)
    × (m'.tmprecv ≡ tmprecv)

receive_all_step :
    (junk : Bool) (c : Bytes) (cs : List Bytes) (m m' : Machine) {ok : Bool}
    → parse_flows_finished_info junk (record m { socket = record m.socket { recv_buf = c } })
      ≡ some (m', ok)
    → receive_all junk (c ∷ cs) m ≡ receive_all junk cs m'
unfolding receive_all receive
receive_all_step junk c cs m m' e = rw e

receive_all-feed :
    (chunks : List Bytes) (m : Machine) (st st' : Reader) (bodies : List Bytes)
    → HoldsBody st
    → m.tmprecv ≡ pending st
    → All (λ c. c ≢ []) chunks
    → All IsText bodies
    → feed st (flatten chunks) ≡ some (bodies, st')
    → Queued m (pending st') bodies (receive_all true chunks m)
receive_all-feed [] m st st' bodies holds held ne text h =
    unfold feed flatten receive_all in
    (m, refl, ground (arith, append-nil m.flows_finished_info), ground arith)
receive_all-feed (c ∷ chunks) m st st' bodies holds held (hc, ne) text h =
    let whole : feed st (c ++ flatten chunks) ≡ some (bodies, st') = unfold flatten in h in
    let (first, mid, later, e, e', all) =
      and_then-eq-some (feed st c) (flatten chunks)
        (sym (feed-append c (flatten chunks) st) ∙ whole) in
    let texts : All IsText (first ++ later) = subst (All IsText) all text in
    let m1 = record m { socket = record m.socket { recv_buf = c } } in
    let m2 = parsed m1 first (pending mid) in
    let step =
      parse-feed true m1 st mid first holds held hc (All-append_left IsText first later texts) e
        (inr refl) in
    let (m', run, queued, kept) =
      receive_all-feed chunks m2 mid st' later (feed-HoldsBody c st holds e) refl ne
        (All-append_right IsText first later texts) e' in
    (
      m',
      receive_all_step true c chunks m m2 step ∙ run,
      ground (
        arith,
        queued,
        all,
        map-append read_info first later,
        append_assoc m.flows_finished_info (map read_info first) (map read_info later),
      ),
      kept,
    )

-- A machine that holds no fragment and reads the chunks of a sequence of reports without a NUL in
-- turn queues the reports in order behind the old ones, and no fragment is left, if each read
-- brings something and an index that is not set compares as below one that is.
pub receive_all-wire :
    (bodies chunks : List Bytes) (m : Machine)
    → All IsBody bodies
    → All IsText bodies
    → All (λ c. c ≢ []) chunks
    → flatten chunks ≡ wire bodies
    → m.tmprecv ≡ []
    → Queued m [] bodies (receive_all true chunks m)
receive_all-wire bodies chunks m plain text ne e held =
    receive_all-feed chunks m none none bodies tt held ne text
      (ap (feed none) e ∙ feed-wire bodies plain)
