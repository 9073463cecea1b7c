-- ===== src/Master/Machine/Scan.antt =====
-- The loop of `parseFlowsFinishedInfo` agrees with the abstract reader.
use coflow_sim_online.Wire.Split.{feed-cons_none, feed-cons}
use coflow_sim_online.Base.{
  All, Bool, List, Option, [], ap, append-nil, append_assoc, arith, drop, drop-length_append, false,
  inl, inr, length, length-append, map, none, refl, set, set-length_append, some, subst, sym, true,
  ℕ, ◌++◌, ◌+◌, ◌<◌, ◌∙◌, ◌∷◌, ◌≡◌, ◌≢◌, ◌≤◌, ◌⊎◌,
}
use mathlib.Core.List.{concat-ne-nil}
use coflow_sim_online.Text.{Bytes, c_string}
use coflow_sim_online.Wire.{IsPlain, Reader, feed, pending}
use coflow_sim_online.Master.Machine.{Cut, read_info, close_info, cut_byte, cut_from, retain}

-- No NUL, so that the bytes are one C string.
abbrev pub IsText : Bytes → Type 0
IsText = All (λ c. c ≢ 0)

-- The indices between messages: both unset, or in order and behind `i`.
abbrev pub Closed : Option ℕ → Option ℕ → Type 0
Closed none none = Unit {0}
Closed (some start) (some last) = start ≤ last
Closed _ _ = ⊥

abbrev pub Below : ℕ → Option ℕ → Type 0
Below i none = Unit {0}
Below i (some j) = j < i

abbrev pub Inside : Reader → Bytes → Bytes → Cut → Type 0
Inside none head held s = Closed s.flow_start s.flow_end
Inside (some p) head held s =
    (held ≡ p) × (s.flow_start ≡ some (length head)) × Below (length head) s.flow_end

-- At index `i`, with the bytes `cs` left, when the reader is in this state.
pub record Tracks (st : Reader) (i : ℕ) (cs : Bytes) (s : Cut) : Type 0 where
  pub head : Bytes
  pub held : Bytes
  pub split : s.buf ≡ (head ++ held) ++ cs
  pub at_index : i ≡ length (head ++ held)
  pub ended : Below i s.flow_end
  pub unset : s.flow_end ≡ none → s.infos ≡ []
  pub quiet : s.infos ≡ [] → s.flow_end ≡ none
  pub inside : Inside st head held s

c_string-append : (p rest : Bytes) → IsText p → c_string (p ++ 0 ∷ rest) ≡ p
unfolding c_string
c_string-append [] rest h = refl
c_string-append (c ∷ p) rest (hc, h) = ground (arith, c_string-append p rest h)

cut_byte_open :
    (i c : ℕ) (s : Cut) → c ≡ b'(' → cut_byte i c s ≡ some (record s { flow_start = some (i + 1) })
unfolding cut_byte
cut_byte_open i c s h = ground arith

cut_byte_plain : (i c : ℕ) (s : Cut) → IsPlain c → cut_byte i c s ≡ some s
unfolding cut_byte
cut_byte_plain i c s h = ground arith

cut_byte_close : (i c : ℕ) (s : Cut) → c ≡ b')' → cut_byte i c s ≡ close_info i s.flow_start s
unfolding cut_byte
cut_byte_close i c s h = ground arith

-- The state after a `)` that ends the body `p`.
abbrev closed : ℕ → Bytes → Bytes → Bytes → Cut → Cut
closed i head p cs s = record s {
  buf = (head ++ p) ++ 0 ∷ cs;
  flow_end = some i;
  infos = s.infos ++ read_info p ∷ [];
}

close_info_body :
    (i c : ℕ) (head p cs : Bytes) (s : Cut)
    → s.buf ≡ (head ++ p) ++ c ∷ cs
    → i ≡ length (head ++ p)
    → s.flow_start ≡ some (length head)
    → IsText p
    → close_info i s.flow_start s ≡ some (closed i head p cs s)
unfolding close_info
close_info_body i c head p cs s split at from text =
    let buf' : set s.buf i 0 ≡ (head ++ p) ++ 0 ∷ cs =
      rw (split, at) (set-length_append (head ++ p) cs c 0) in
    let text' : c_string (drop (length head) ((head ++ p) ++ 0 ∷ cs)) ≡ p =
      rw (append_assoc, drop-length_append) (c_string-append p cs text) in
    rw (from, close_info) (rw buf' (rw text' refl))

Below-mono : {i j : ℕ} (o : Option ℕ) → i ≤ j → Below i o → Below j o
Below-mono none le h = tt
Below-mono (some k) le h = omega arith

Tracks-open :
    (i : ℕ) (cs : Bytes) (s : Cut)
    → Tracks none i (b'(' ∷ cs) s
    → Tracks (some []) (i + 1) cs (record s { flow_start = some (i + 1) })
Tracks-open i cs s t =
    let front = t.head ++ t.held in
    let one = length-append front (b'(' ∷ []) in
    record {
      head = front ++ b'(' ∷ [];
      held = [];
      split = rw append-nil (t.split ∙ sym (append_assoc front (b'(' ∷ []) cs));
      at_index = rw append-nil (omega (arith, one, t.at_index));
      ended = Below-mono s.flow_end (omega arith) t.ended;
      unset = t.unset;
      quiet = t.quiet;
      inside = (
        refl,
        ap some (omega (arith, one, t.at_index)),
        Below-mono s.flow_end (omega (arith, one, t.at_index)) t.ended,
      );
    }

Tracks-plain :
    (p : Bytes) (i c : ℕ) (cs : Bytes) (s : Cut)
    → Tracks (some p) i (c ∷ cs) s
    → Tracks (some (p ++ c ∷ [])) (i + 1) cs s
Tracks-plain p i c cs s t = record {
  head = t.head;
  held = t.held ++ c ∷ [];
  split = t.split ∙ simp append_assoc;
  at_index = omega (
    arith,
    t.at_index,
    length-append t.head (t.held ++ c ∷ []),
    length-append t.held (c ∷ []),
    length-append t.head t.held,
  );
  ended = Below-mono s.flow_end (omega arith) t.ended;
  unset = t.unset;
  quiet = t.quiet;
  inside = (ap (λ b. b ++ c ∷ []) t.inside.0, t.inside.1, t.inside.2);
}

Tracks-close :
    (p : Bytes) (i c : ℕ) (cs : Bytes) (s : Cut) (t : Tracks (some p) i (c ∷ cs) s)
    → Tracks none (i + 1) cs (closed i t.head p cs s)
Tracks-close p i c cs s t =
    let same = t.inside.0 in
    record {
      head = (t.head ++ p) ++ 0 ∷ [];
      held = [];
      split = rw append-nil (sym (append_assoc (t.head ++ p) (0 ∷ []) cs));
      at_index = rw append-nil (
          omega (
            arith,
            t.at_index,
            ap length same,
            length-append t.head t.held,
            length-append t.head p,
            length-append (t.head ++ p) (0 ∷ []),
          ));
      ended = omega arith;
      unset = λ e. cc;
      quiet = λ e. absurd (concat-ne-nil _ _ e);
      inside = rw t.inside.1 (omega (arith, t.at_index, length-append t.head t.held));
    }

abbrev pub Cuts : Reader → List Bytes → ℕ → Bytes → Cut → Type 0
Cuts st bodies i cs s =
    (r : Cut) × (last : ℕ) × (cut_from i cs s ≡ some r)
    × (r.infos ≡ s.infos ++ map read_info bodies)
    × Tracks st last [] r

cut_from_step :
    (i c : ℕ) (cs : Bytes) (s s' : Cut)
    → cut_byte i c s ≡ some s'
    → cut_from i (c ∷ cs) s ≡ cut_from (i + 1) cs s'
unfolding cut_from
cut_from_step i c cs s s' e = rw e

pub cut_from-feed :
    (cs : Bytes) (i : ℕ) (st : Reader) (s : Cut) {bodies : List Bytes} {st' : Reader}
    → Tracks st i cs s
    → All IsText bodies
    → feed st cs ≡ some (bodies, st')
    → Cuts st' bodies i cs s
cut_from-feed [] i st s {bodies} {st'} t text h =
    unfold feed cut_from in
    (let same : st ≡ st' = ground arith in
      (s, i, refl, ground (arith, append-nil s.infos), subst (λ x. Tracks x i [] s) same t))
cut_from-feed (c ∷ cs) i none s t text h =
    let (opens, h') = feed-cons_none cs c h in
    let s' = record s { flow_start = some (i + 1) } in
    let (r, last, e, out, t') =
      cut_from-feed cs (i + 1) (some []) s'
        (Tracks-open i cs s (subst (λ x. Tracks none i (x ∷ cs) s) opens t)) text h' in
    (r, last, cut_from_step i c cs s s' (cut_byte_open i c s opens) ∙ e, out, t')
cut_from-feed (c ∷ cs) i (some p) s t text h = elim (feed-cons p cs c h) [
  | inl (closes, (rest, h', all)) ↦
      let texts : All IsText (p ∷ rest) = subst (All IsText) all text in
      let (same, from, _) = t.inside in
      let s' = closed i t.head p cs s in
      let (r, last, e, out, t') =
        cut_from-feed cs (i + 1) none s' (Tracks-close p i c cs s t) texts.1 h' in
      let byte : cut_byte i c s ≡ some s' =
        cut_byte_close i c s closes
        ∙ close_info_body i c t.head p cs s
            (subst (λ b. s.buf ≡ (t.head ++ b) ++ c ∷ cs) same t.split)
            (subst (λ b. i ≡ length (t.head ++ b)) same t.at_index) from texts.0 in
      (
        r,
        last,
        cut_from_step i c cs s s' byte ∙ e,
        ground (arith, out, all, append_assoc s.infos (read_info p ∷ []) (map read_info rest)),
        t',
      )
  | inr (plain, h') ↦
      let (r, last, e, out, t') =
        cut_from-feed cs (i + 1) (some (p ++ c ∷ [])) s (Tracks-plain p i c cs s t) text h' in
      (r, last, cut_from_step i c cs s s (cut_byte_plain i c s plain) ∙ e, out, t')
]

-- When the loop has ended, an unfinished message is moved to the front, if the comparison sees it.
retain-Inside :
    (junk : Bool) (st : Reader) (s : Cut) (head held : Bytes)
    → s.buf ≡ head ++ held
    → Inside st head held s
    → (s.flow_end ≢ none) ⊎ ((junk ≡ true) × (st ≢ none))
    → retain junk s ≡ some (pending st)
unfolding retain
retain-Inside junk none s head held split inside seen = ground arith
retain-Inside junk (some p) s head held split (same, from, below) seen =
    ground (arith, drop-length_append head held)

pub retain-Tracks :
    (junk : Bool) (st : Reader) (i : ℕ) (s : Cut)
    → Tracks st i [] s
    → (s.infos ≢ []) ⊎ ((junk ≡ true) × (st ≢ none))
    → retain junk s ≡ some (pending st)
retain-Tracks junk st i s t seen =
    retain-Inside junk st s t.head t.held (t.split ∙ append-nil _) t.inside
      (elim seen [ inl h ↦ inl (λ e. h (t.unset e)) | inr j ↦ inr j ])

-- With no `)` in the buffer, a comparison that is false loses the unfinished message.
pub retain_lost :
    (st : Reader) (i : ℕ) (s : Cut) → Tracks st i [] s → s.infos ≡ [] → retain false s ≡ some []
unfolding retain
retain_lost st i s t e = ground (arith, t.quiet e)
