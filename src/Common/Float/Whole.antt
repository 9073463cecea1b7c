-- ===== src/Common/Float/Whole.antt =====
-- The interface to `double` is met by the whole numbers, written in decimal.
use coflow_sim_online.Base.{
  All, [], arith, leb, ltb, pos, pos_part, refl, ℕ, ◌*◌, ◌++◌, ◌/◌, ◌∷◌, ◌≡◌,
}
use coflow_sim_online.Text.{Bytes, print_nat}
use coflow_sim_online.Text.Stream.{Stream, stream, more, value, read_word}
use coflow_sim_online.Text.RoundTrip.{
  IsDigit, IsDark, EndsWord, read_word-append, read_word-space, print_nat-ne-nil, print_nat-IsDigit,
  value-print_nat,
}
use coflow_sim_online.Common.Float.{WholeLaws, Float, FloatLaws, IsMark}

abbrev pub read_whole : ℕ → Stream → ℕ × Stream
read_whole old s = let (word, s') = read_word [] s in (value 0 word, s')

abbrev pub whole : Float ℕ
whole = record {
  of_int = pos_part;
  div_int = λ d i. d / pos_part i;
  mul_int = λ d i. d * pos_part i;
  to_int = λ d. pos d;
  le_long = λ d i. leb d (pos_part i);
  is_positive = λ d. ltb 0 d;
  print = print_nat;
  read = read_whole;
}

pub digits-IsMark : (ds : Bytes) → All IsDigit ds → All IsMark ds
digits-IsMark [] h = tt
digits-IsMark (d ∷ ds) (hd, h) = (ground arith, digits-IsMark ds h)

digits-IsDark : (ds : Bytes) → All IsDigit ds → All IsDark ds
digits-IsDark [] h = tt
digits-IsDark (d ∷ ds) (hd, h) = (ground arith, digits-IsDark ds h)

pub read_whole-print :
    (old d : ℕ) (rest : Bytes)
    → EndsWord rest
    → read_whole old (stream (print_nat d ++ rest))
      ≡ (d, record { unread = rest; good = more rest })
read_whole-print old d rest ends =
    rw
      (
        read_word-append [] (print_nat d) rest (print_nat-ne-nil d)
            (digits-IsDark (print_nat d) (print_nat-IsDigit d)) ends,
        value-print_nat d,
      )
      refl

pub read_whole-space :
    (old : ℕ) (s : Bytes) → read_whole old (stream (b' ' ∷ s)) ≡ read_whole old (stream s)
read_whole-space old s = rw (read_word-space [] s)

abbrev pub whole_laws : FloatLaws whole
whole_laws = record {
  shown = λ d. d;
  print_ne_nil = print_nat-ne-nil;
  print_marks = λ d. digits-IsMark (print_nat d) (print_nat-IsDigit d);
  read_print = read_whole-print;
  read_space = read_whole-space;
}

abbrev pub whole_products : WholeLaws whole
whole_products = record { to_int_product = λ a b lt. refl }
