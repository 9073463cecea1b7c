-- ===== src/Client/Inbox/Scan.antt =====
-- The index loop agrees with the abstract reader.
use coflow_sim_online.Base.{
  List, [], ap, append-nil, append_assoc, arith, drop-length_append, inl, inr, length,
  length-append, le→ltb, lt→ltb, none, refl, some, subst, sym, take-length_append, ℕ, ◌++◌, ◌+◌,
  ◌-◌, ◌<◌, ◌∙◌, ◌∷◌, ◌≡◌, ◌≤◌,
}
use coflow_sim_online.Text.{Bytes}
use coflow_sim_online.Wire.{Reader, feed, IsPlain, HoldsBody, pending}
use coflow_sim_online.Wire.Split.{feed-cons_none, feed-cons, feed-pending}
use coflow_sim_online.Client.Inbox.{Cut, slice, cut_from, cut_byte, on_input, retain}

-- The indices at position `i`, behind the bytes `before`, when the reader is in this state.
abbrev Tracks : Reader → Bytes → Cut → Type 0
Tracks none before s = (s.insstart ≤ s.insend) × (s.insend ≤ length before)
Tracks (some p) before s =
    (head : Bytes) × (before ≡ head ++ p) × (s.insstart ≡ length head) × (s.insend < s.insstart)

slice-append :
    (head p rest : Bytes) (from to : ℕ)
    → from ≡ length head
    → to ≡ length (head ++ p)
    → slice ((head ++ p) ++ rest) from to ≡ p
slice-append head p rest from to e f =
    let long : to - from ≡ length p = omega (arith, length-append head p) in
    rw (long, e, append_assoc, drop-length_append) (take-length_append p rest)

cut_byte_open :
    (buf : Bytes) (i c : ℕ) (s : Cut)
    → c ≡ b'('
    → cut_byte buf i c s ≡ record s { insstart = i + 1 }
unfolding cut_byte
cut_byte_open buf i c s h = ground arith

cut_byte_close :
    (buf : Bytes) (i c : ℕ) (s : Cut)
    → c ≡ b')'
    → cut_byte buf i c s
      ≡ record s { insend = i; instructions = s.instructions ++ slice buf s.insstart i ∷ [] }
unfolding cut_byte
cut_byte_close buf i c s h = ground arith

cut_byte_plain : (buf : Bytes) (i c : ℕ) (s : Cut) → IsPlain c → cut_byte buf i c s ≡ s
unfolding cut_byte
cut_byte_plain buf i c s h = ground arith

cut_from_nil : (buf : Bytes) (i : ℕ) (s : Cut) → cut_from buf i [] s ≡ s
unfolding cut_from
cut_from_nil buf i s = refl

cut_from_step :
    (buf : Bytes) (i c : ℕ) (cs : Bytes) (s : Cut)
    → cut_from buf i (c ∷ cs) s ≡ cut_from buf (i + 1) cs (cut_byte buf i c s)
unfolding cut_from
cut_from_step buf i c cs s = refl

module _ (buf : Bytes) where
  abbrev Result : Reader → List Bytes → Cut → Cut → Type 0
  Result st bodies s r = (r.instructions ≡ s.instructions ++ bodies) × Tracks st buf r

  cut_from-feed :
      (cs before : Bytes) (i : ℕ) (st : Reader) (s : Cut) {bodies : List Bytes} {st' : Reader}
      → buf ≡ before ++ cs
      → i ≡ length before
      → Tracks st before s
      → feed st cs ≡ some (bodies, st')
      → Result st' bodies s (cut_from buf i cs s)
  cut_from-feed [] before i st s {bodies} {st'} e f t h = rw cut_from_nil (
      unfold feed in
      (let whole : before ≡ buf = sym (e ∙ append-nil before) in
        let done : st ≡ st' = ground arith in
        (
          ground (arith, append-nil s.instructions),
          subst (λ x. Tracks x buf s) done (subst (λ b. Tracks st b s) whole t),
        )))
  cut_from-feed (c ∷ cs) before i none s e f (_, le) h =
      let (opens, h') = feed-cons_none cs c h in
      let one = length-append before (c ∷ []) in
      rw (cut_from_step buf i c cs s, cut_byte_open buf i c s opens)
        (cut_from-feed cs (before ++ c ∷ []) (i + 1) (some []) (record s { insstart = i + 1 })
          (e ∙ sym (append_assoc before (c ∷ []) cs)) (omega (arith, one))
          (before ++ c ∷ [], sym (append-nil _), omega (arith, one), omega arith) h')
  cut_from-feed (c ∷ cs) before i (some p) s e f (head, split, from, lt) h =
      let one = length-append before (c ∷ []) in
      let split' = e ∙ sym (append_assoc before (c ∷ []) cs) in
      elim (feed-cons p cs c h) [
        | inl (closes, (rest, h', all)) ↦
            let body : slice buf s.insstart i ≡ p =
              rw (e, split)
                (slice-append head p (c ∷ cs) s.insstart i from (f ∙ ap length split)) in
            let s' = record s {
              insend = i;
              instructions = s.instructions ++ slice buf s.insstart i ∷ [];
            } in
            let (out, track) =
              cut_from-feed cs (before ++ c ∷ []) (i + 1) none s' split' (omega (arith, one))
                (omega (arith, ap length split, length-append head p), omega (arith, one)) h' in
            rw (cut_from_step buf i c cs s, cut_byte_close buf i c s closes)
              (ground (arith, out, all, body, append_assoc s.instructions (p ∷ []) rest), track)
        | inr (plain, h') ↦
            rw (cut_from_step buf i c cs s, cut_byte_plain buf i c s plain)
              (cut_from-feed cs (before ++ c ∷ []) (i + 1) (some (p ++ c ∷ [])) s split'
                (omega (arith, one))
                (head, ap (λ b. b ++ c ∷ []) split ∙ append_assoc head p (c ∷ []), from, lt) h')
      ]

retain-Tracks : (st : Reader) (buf : Bytes) (s : Cut) → Tracks st buf s → retain buf s ≡ pending st
unfolding retain
retain-Tracks none buf s (le, _) = rw (le→ltb s.insend s.insstart le)
retain-Tracks (some p) buf s (head, split, from, lt) =
    rw (lt→ltb s.insend s.insstart lt, split, from) (ap (◌∷◌ b'(') (drop-length_append head p))

-- Whatever the reader held: the bytes that it accepts give the instructions that it finishes, and
-- what is retained is what it then holds.
pub on_input-feed :
    (st st' : Reader) (arrived : Bytes) (bodies : List Bytes)
    → HoldsBody st
    → feed st arrived ≡ some (bodies, st')
    → on_input (pending st) arrived ≡ (pending st', bodies)
unfolding on_input
on_input-feed st st' arrived bodies holds h =
    let buf = pending st ++ arrived in
    let s : Cut = record { insstart = 0; insend = 0; instructions = [] } in
    let (out, track) =
      cut_from-feed buf buf [] 0 none s refl refl (omega arith, omega arith)
        (feed-pending st arrived holds ∙ h) in
    ground (arith, out, retain-Tracks st' buf (cut_from buf 0 buf s) track)
