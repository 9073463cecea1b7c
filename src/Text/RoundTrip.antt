-- ===== src/Text/RoundTrip.antt =====
-- A printed `int` or word is read back from a stream, with any text behind it.
use coflow_sim_online.Base.{
  All, IsInt, [], ap, arith, false, negsuc, pos, refl, suc, true, zero, ℕ, ℤ, ◌%◌, ◌++◌, ◌+◌, ◌/◌,
  ◌<◌, ◌∙◌, ◌∷◌, ◌≡◌, ◌≢◌,
}
use coflow_sim_online.Text.{Bytes, is_space, is_digit, emit_digits, print_nat, print_int}
use coflow_sim_online.Text.Stream.{
  stream, skip_space, take_digits, drop_digits, value, more, to_int, read_magnitude, read_number,
  read_int, take_word, drop_word, read_text, read_word,
}

abbrev pub IsDigit : ℕ → Type 0
IsDigit c = is_digit c ≡ true

-- Nothing that would go on with the number.
abbrev pub EndsNumber : Bytes → Type 0
EndsNumber [] = Unit
EndsNumber (c ∷ s) = is_digit c ≡ false

abbrev pub IsDark : ℕ → Type 0
IsDark c = is_space c ≡ false

abbrev pub EndsWord : Bytes → Type 0
EndsWord [] = Unit
EndsWord (c ∷ s) = is_space c ≡ true

value-emit_digits :
    (fuel n : ℕ) (out : Bytes) → n < fuel → value 0 (emit_digits fuel n out) ≡ value n out
unfolding emit_digits
value-emit_digits zero n out h = absurd (omega arith)
value-emit_digits (suc fuel) n out h =
    ground (arith, value-emit_digits fuel (n / 10) ((b'0' + n % 10) ∷ out))

emit_digits-IsDigit :
    (fuel n : ℕ) (out : Bytes) → All IsDigit out → All IsDigit (emit_digits fuel n out)
unfolding emit_digits
emit_digits-IsDigit zero n out h = h
emit_digits-IsDigit (suc fuel) n out h =
    ground (arith, emit_digits-IsDigit fuel (n / 10) ((b'0' + n % 10) ∷ out))

emit_digits-ne-nil : (fuel n : ℕ) (out : Bytes) → out ≢ [] → emit_digits fuel n out ≢ []
unfolding emit_digits
emit_digits-ne-nil zero n out h = h
emit_digits-ne-nil (suc fuel) n out h =
    ground (arith, emit_digits-ne-nil fuel (n / 10) ((b'0' + n % 10) ∷ out))

pub print_nat-IsDigit : (n : ℕ) → All IsDigit (print_nat n)
unfolding print_nat
print_nat-IsDigit n = emit_digits-IsDigit (suc n) n [] tt

pub print_nat-ne-nil : (n : ℕ) → print_nat n ≢ []
unfolding print_nat emit_digits
print_nat-ne-nil n = ground (arith, emit_digits-ne-nil n (n / 10) ((b'0' + n % 10) ∷ []))

pub value-print_nat : (n : ℕ) → value 0 (print_nat n) ≡ n
unfolding print_nat
value-print_nat n = value-emit_digits (suc n) n [] (omega arith)

take_digits-append :
    (ds rest : Bytes) → All IsDigit ds → EndsNumber rest → take_digits (ds ++ rest) ≡ ds
unfolding take_digits
take_digits-append [] [] h e = refl
take_digits-append [] (c ∷ rest) h e = rw e
take_digits-append (d ∷ ds) rest (hd, h) e = rw hd (ap (◌∷◌ d) (take_digits-append ds rest h e))

drop_digits-append :
    (ds rest : Bytes) → All IsDigit ds → EndsNumber rest → drop_digits (ds ++ rest) ≡ rest
unfolding drop_digits
drop_digits-append [] [] h e = refl
drop_digits-append [] (c ∷ rest) h e = rw e
drop_digits-append (d ∷ ds) rest (hd, h) e = rw hd (drop_digits-append ds rest h e)

read_number-digits :
    (old : ℤ) (ds rest : Bytes)
    → All IsDigit ds
    → ds ≢ []
    → EndsNumber rest
    → read_number old (ds ++ rest) ≡ to_int false (value 0 ds) rest
unfolding read_number read_magnitude take_digits
read_number-digits old [] rest h ne e = absurd (ne refl)
read_number-digits old (d ∷ ds) rest (hd, h) ne e =
    ground (
      arith,
      take_digits-append (d ∷ ds) rest (hd, h) e,
      drop_digits-append (d ∷ ds) rest (hd, h) e,
    )

read_magnitude-digits :
    (ds rest : Bytes) → ds ≢ [] → read_magnitude true ds rest ≡ to_int true (value 0 ds) rest
unfolding read_magnitude
read_magnitude-digits [] rest ne = absurd (ne refl)
read_magnitude-digits (d ∷ ds) rest ne = refl

read_number-print_int :
    (old i : ℤ) (rest : Bytes)
    → IsInt i
    → EndsNumber rest
    → read_number old (print_int i ++ rest) ≡ (i, record { unread = rest; good = more rest })
unfolding print_int to_int
read_number-print_int old (pos n) rest h e =
    read_number-digits old (print_nat n) rest (print_nat-IsDigit n) (print_nat-ne-nil n) e
    ∙ rw value-print_nat (ground arith)
read_number-print_int old (negsuc n) rest h e =
    unfold read_number in
    (let ds = print_nat-IsDigit (suc n) in
      rw (take_digits-append _ rest ds e, drop_digits-append _ rest ds e)
        (read_magnitude-digits _ rest (print_nat-ne-nil (suc n))
          ∙ rw value-print_nat (ground arith)))

pub skip_space-dark : (c : ℕ) (s : Bytes) → IsDark c → skip_space (c ∷ s) ≡ c ∷ s
unfolding skip_space
skip_space-dark c s h = rw h

skip_space-digits :
    (ds rest : Bytes) → All IsDigit ds → ds ≢ [] → skip_space (ds ++ rest) ≡ ds ++ rest
skip_space-digits [] rest h ne = absurd (ne refl)
skip_space-digits (d ∷ ds) rest (hd, h) ne = skip_space-dark d _ (ground arith)

skip_space-print_int :
    (i : ℤ) (rest : Bytes) → skip_space (print_int i ++ rest) ≡ print_int i ++ rest
unfolding print_int
skip_space-print_int (pos n) rest =
    skip_space-digits (print_nat n) rest (print_nat-IsDigit n) (print_nat-ne-nil n)
skip_space-print_int (negsuc n) rest = skip_space-dark b'-' _ refl

-- A 32-bit `int` that was printed is read back, whatever the variable held before, and the
-- stream is left at the text behind it.
pub read_int-print_int :
    (old i : ℤ) (rest : Bytes)
    → IsInt i
    → EndsNumber rest
    → read_int old (stream (print_int i ++ rest)) ≡ (i, record { unread = rest; good = more rest })
unfolding read_int
read_int-print_int old i rest h e =
    rw (skip_space-print_int i rest) (read_number-print_int old i rest h e)

pub read_int-space :
    (old : ℤ) (s : Bytes) → read_int old (stream (b' ' ∷ s)) ≡ read_int old (stream s)
unfolding read_int skip_space
read_int-space old s = refl

take_word-append : (w rest : Bytes) → All IsDark w → EndsWord rest → take_word (w ++ rest) ≡ w
unfolding take_word
take_word-append [] [] h e = refl
take_word-append [] (c ∷ rest) h e = rw e
take_word-append (d ∷ w) rest (hd, h) e = rw hd (ap (◌∷◌ d) (take_word-append w rest h e))

drop_word-append : (w rest : Bytes) → All IsDark w → EndsWord rest → drop_word (w ++ rest) ≡ rest
unfolding drop_word
drop_word-append [] [] h e = refl
drop_word-append [] (c ∷ rest) h e = rw e
drop_word-append (d ∷ w) rest (hd, h) e = rw hd (drop_word-append w rest h e)

-- A word with no space in it is read back too.
pub read_word-append :
    (old w rest : Bytes)
    → w ≢ []
    → All IsDark w
    → EndsWord rest
    → read_word old (stream (w ++ rest)) ≡ (w, record { unread = rest; good = more rest })
unfolding read_word read_text
read_word-append old [] rest ne h e = absurd (ne refl)
read_word-append old (c ∷ w) rest ne (hc, h) e =
    rw (skip_space-dark c (w ++ rest) hc, read_text)
      (rw (take_word-append (c ∷ w) rest (hc, h) e, drop_word-append (c ∷ w) rest (hc, h) e))

pub read_word-space : (old s : Bytes) → read_word old (stream (b' ' ∷ s)) ≡ read_word old (stream s)
unfolding read_word skip_space
read_word-space old s = refl

All-map {ℓ} : (P : ℕ → Type ℓ) (s : Bytes) → ((c : ℕ) → IsDigit c → P c) → All IsDigit s → All P s
All-map P [] f h = tt
All-map P (c ∷ s) f (hc, h) = (f c hc, All-map P s f h)

-- What holds of digits and of the minus sign holds of a printed `int`.
pub print_int-All {ℓ} :
    (P : ℕ → Type ℓ) (i : ℤ) → ((c : ℕ) → IsDigit c → P c) → P b'-' → All P (print_int i)
unfolding print_int
print_int-All P (pos n) digit minus = All-map P (print_nat n) digit (print_nat-IsDigit n)
print_int-All P (negsuc n) digit minus =
    (minus, All-map P (print_nat (suc n)) digit (print_nat-IsDigit (suc n)))

pub print_int-ne-nil : (i : ℤ) → print_int i ≢ []
unfolding print_int
print_int-ne-nil (pos n) = print_nat-ne-nil n
print_int-ne-nil (negsuc n) = λ e. cc

pub print_int-IsDark : (i : ℤ) → All IsDark (print_int i)
print_int-IsDark i = print_int-All IsDark i (λ c h. ground arith) refl

-- A word that one `ss >> char *` takes whole.
abbrev pub IsWord : Bytes → Type 0
IsWord w = (w ≢ []) × All IsDark w

pub print_int-IsWord : (i : ℤ) → IsWord (print_int i)
print_int-IsWord i = (print_int-ne-nil i, print_int-IsDark i)
