-- ===== src/Wire/Split.antt =====
-- Reading in pieces, and reading whole messages.
use coflow_sim_online.Base.{
  All, All-append, Bool-cases, List, Option, Option-cases, [], append-nil, append_assoc, arith, inl,
  inr, none, refl, some, subst, ℕ, ◌++◌, ◌==◌, ◌∙◌, ◌∷◌, ◌≡◌, ◌≢◌, ◌⊎◌,
}
use coflow_sim_online.Text.{Bytes}
use coflow_sim_online.Wire.{IsBody, wire, Reader, pending, deliver, feed, HoldsBody, IsPlain, frame}

abbrev pub and_then : Option (List Bytes × Reader) → Bytes → Option (List Bytes × Reader)
and_then none cs = none
and_then (some (bodies, st)) cs = elim (feed st cs) [
  | none ↦ none
  | some (more, st') ↦ some (bodies ++ more, st')
]

and_then-deliver :
    (p : Bytes) (r : Option (List Bytes × Reader)) (cs : Bytes)
    → and_then (deliver p r) cs ≡ deliver p (and_then r cs)
and_then-deliver p none cs = refl
and_then-deliver p (some (bodies, st)) cs = ground arith

-- Reading two pieces in turn is reading their concatenation.
pub feed-append : (bs cs : Bytes) (st : Reader) → feed st (bs ++ cs) ≡ and_then (feed st bs) cs
unfolding feed
feed-append [] cs st = ground arith
feed-append (b ∷ bs) cs none = ground (arith, feed-append bs cs (some []))
feed-append (b ∷ bs) cs (some p) = ground (
  arith,
  feed-append bs cs none,
  feed-append bs cs (some (p ++ b ∷ [])),
  and_then-deliver p (feed none bs) cs,
)

-- Bytes of a body only lengthen what is held.
feed_body :
    (body rest p : Bytes)
    → IsBody body
    → feed (some p) (body ++ rest) ≡ feed (some (p ++ body)) rest
unfolding feed
feed_body [] rest p h = rw append-nil
feed_body (c ∷ body) rest p (hc, h) =
    ground (arith, feed_body body rest (p ++ c ∷ []) h, append_assoc p (c ∷ []) body)

feed_close : (body rest : Bytes) → feed (some body) (b')' ∷ rest) ≡ deliver body (feed none rest)
unfolding feed
feed_close body rest = refl

feed_open : (rest : Bytes) → feed none (b'(' ∷ rest) ≡ feed (some []) rest
unfolding feed
feed_open rest = refl

pub feed-wire :
    (bodies : List Bytes) → All IsBody bodies → feed none (wire bodies) ≡ some (bodies, none)
unfolding wire
feed-wire [] h = unfold feed in refl
feed-wire (body ∷ bodies) (hb, h) =
    rw (append_assoc, feed_open, feed_body body (b')' ∷ wire bodies) [] hb, feed_close)
      (rw (feed-wire bodies h))

-- What was held may be read again.
pub feed-pending :
    (st : Reader) (cs : Bytes) → HoldsBody st → feed none (pending st ++ cs) ≡ feed st cs
feed-pending none cs h = refl
feed-pending (some p) cs h = feed_open (p ++ cs) ∙ feed_body p cs [] h

deliver-eq-some :
    (p : Bytes) (r : Option (List Bytes × Reader)) {bodies : List Bytes} {st : Reader}
    → deliver p r ≡ some (bodies, st)
    → (rest : List Bytes) × (r ≡ some (rest, st)) × (bodies ≡ p ∷ rest)
deliver-eq-some p none h = cc
deliver-eq-some p (some (rest, st)) h = (rest, ground arith, ground arith)

-- The three ways in which a byte can be read inside a message.
pub feed-cons :
    (p cs : Bytes) (c : ℕ) {bodies : List Bytes} {st : Reader}
    → feed (some p) (c ∷ cs) ≡ some (bodies, st)
    → ((c ≡ b')') × ((rest : List Bytes) × (feed none cs ≡ some (rest, st)) × (bodies ≡ p ∷ rest)))
      ⊎ (IsPlain c × (feed (some (p ++ c ∷ [])) cs ≡ some (bodies, st)))
unfolding feed
feed-cons p cs c h = elim (Bool-cases (c == b')')) [
  | inl close ↦ inl (ground arith, deliver-eq-some p (feed none cs) (ground arith))
  | inr other ↦ inr (ground arith)
]

pub feed-cons_none :
    (cs : Bytes) (c : ℕ) {bodies : List Bytes} {st : Reader}
    → feed none (c ∷ cs) ≡ some (bodies, st)
    → (c ≡ b'(') × (feed (some []) cs ≡ some (bodies, st))
unfolding feed
feed-cons_none cs c h = ground arith

pub feed-HoldsBody :
    (cs : Bytes) (st : Reader) {bodies : List Bytes} {st' : Reader}
    → HoldsBody st
    → feed st cs ≡ some (bodies, st')
    → HoldsBody st'
feed-HoldsBody [] st {st' = st'} h e =
    unfold feed in (let same : st ≡ st' = ground arith in subst HoldsBody same h)
feed-HoldsBody (c ∷ cs) none h e = feed-HoldsBody cs (some []) tt (feed-cons_none cs c e).1
feed-HoldsBody (c ∷ cs) (some p) h e = elim (feed-cons p cs c e) [
  | inl (_, (rest, e', _)) ↦ feed-HoldsBody cs none tt e'
  | inr (plain, e') ↦
      feed-HoldsBody cs (some (p ++ c ∷ [])) (All-append IsPlain p (c ∷ []) h (plain, tt)) e'
]

pub and_then-eq-some :
    (r : Option (List Bytes × Reader)) (cs : Bytes) {bodies : List Bytes} {st : Reader}
    → and_then r cs ≡ some (bodies, st)
    → (first : List Bytes) × (mid : Reader) × (later : List Bytes) × (r ≡ some (first, mid))
      × (feed mid cs ≡ some (later, st))
      × (bodies ≡ first ++ later)
and_then-eq-some none cs h = cc
and_then-eq-some (some (first, mid)) cs h = elim (Option-cases (feed mid cs)) [
  | inl e ↦ ground (arith, e)
  | inr ((later, st'), e) ↦ (first, mid, later, refl, ground (arith, e), ground (arith, e))
]

feed_ends_inside : (cs p : Bytes) {st : Reader} → feed (some p) cs ≡ some ([], st) → st ≢ none
unfolding feed
feed_ends_inside [] p h e = ground arith
feed_ends_inside (c ∷ cs) p h e = elim (feed-cons p cs c h) [
  | inl (_, (rest, _, all)) ↦ cc
  | inr (_, h') ↦ feed_ends_inside cs (p ++ c ∷ []) h' e
]

-- Bytes that finish no message leave the reader inside one.
pub feed_unfinished :
    (cs : Bytes) (st : Reader) {st' : Reader} → cs ≢ [] → feed st cs ≡ some ([], st') → st' ≢ none
feed_unfinished [] st ne h = absurd (ne refl)
feed_unfinished (c ∷ cs) none ne h = feed_ends_inside cs [] (feed-cons_none cs c h).1
feed_unfinished (c ∷ cs) (some p) ne h = feed_ends_inside (c ∷ cs) p h

pub feed-nil :
    (st : Reader) {bodies : List Bytes} {last : Reader}
    → feed st [] ≡ some (bodies, last)
    → bodies ≡ []
unfolding feed
feed-nil none e = ground (arith, e)
feed-nil (some p) e = ground (arith, e)

pub wire-append : (bodies later : List Bytes) → wire (bodies ++ later) ≡ wire bodies ++ wire later
unfolding wire
wire-append [] later = refl
wire-append (body ∷ bodies) later =
    ground (arith, wire-append bodies later, append_assoc (frame body) (wire bodies) (wire later))
