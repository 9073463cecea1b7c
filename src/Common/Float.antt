-- ===== src/Common/Float.antt =====
-- What the program does with `double` and the language does not define over numbers: an interface.
pub mod Whole
use coflow_sim_online.Base.{All, Bool, [], false, pos, ℕ, ℤ, ◌*◌, ◌++◌, ◌<◌, ◌^◌, ◌∷◌, ◌≡◌, ◌≢◌}
use coflow_sim_online.Text.{Bytes, is_space}
use coflow_sim_online.Text.Stream.{Stream, stream, more}
use coflow_sim_online.Text.RoundTrip.{EndsWord}

-- `to_int` is `static_cast<int>(d)`, `print` is `ss << d` and `read` is `ss >> d` into a variable that holds the first argument.
pub record Float (D : Type 0) : Type 0 where
  pub of_int : ℤ → D
  pub div_int : D → ℤ → D
  pub mul_int : D → ℤ → D
  pub to_int : D → ℤ
  pub le_long : D → ℤ → Bool
  pub is_positive : D → Bool
  pub print : D → Bytes
  pub read : D → Stream → D × Stream

-- A byte of a printed number: no space, no parenthesis, no NUL, no colon.
abbrev pub IsMark : ℕ → Type 0
IsMark c = (is_space c ≡ false) × (c ≢ b'(') × (c ≢ b')') × (c ≢ 0) × (c ≢ b':')

-- What the standard library does with a finite `double`: it prints some marks, of at most six digits; it
-- reads them back as `shown d`, the value that they spell; and it skips a space in front.
pub record FloatLaws {D : Type 0} (float : Float D) : Type 0 where
  pub shown : D → D
  pub print_ne_nil : (d : D) → float.print d ≢ []
  pub print_marks : (d : D) → All IsMark (float.print d)
  pub read_print :
      (old d : D) (rest : Bytes)
      → EndsWord rest
      → float.read old (stream (float.print d ++ rest))
        ≡ (shown d, record { unread = rest; good = more rest })
  pub read_space :
      (old : D) (s : Bytes) → float.read old (stream (b' ' ∷ s)) ≡ float.read old (stream s)

-- What the language does with whole numbers, of which a `double` holds all that fit an `int`: their
-- product is exact, and the cast gives it back.
pub record WholeLaws {D : Type 0} (float : Float D) : Type 0 where
  pub to_int_product :
      (a b : ℕ)
      → a * b < 2 ^ 31
      → float.to_int (float.mul_int (float.of_int (pos a)) (pos b)) ≡ pos (a * b)
