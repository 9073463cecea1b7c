-- ===== src/Text.antt =====
-- Bytes, C strings and decimal numerals: what `operator<<`, `sprintf("%d")` and `strlen` do in
-- common/, client/ and master/. Reading back is in Text/Stream.
pub mod Stream
pub mod RoundTrip
pub mod Load
use coflow_sim_online.Base.{
  Bool, List, [], if◌then◌else◌, leb, negsuc, pos, refl, suc, zero, ℕ, ℤ, ◌%◌, ◌&&◌, ◌+◌, ◌/◌, ◌==◌,
  ◌||◌, ◌∷◌, ◌≡◌,
}
use Prim.Native.Char.{code}
use Prim.Native.String.{String}

abbrev pub Bytes : Type 0
Bytes = List ℕ

-- The code points of a literal; these are its bytes when the text is ASCII.
abbrev pub codes : String → Bytes
codes String.[] = []
codes (String.◌∷◌ c s) = code c ∷ codes s

-- `isspace` in the C locale.
abbrev pub is_space : ℕ → Bool
is_space c = c == b' ' || (leb 9 c && leb c 13)

abbrev pub is_digit : ℕ → Bool
is_digit c = leb b'0' c && leb c b'9'

-- The C string that starts here: the bytes before the first NUL.
unfoldable pub c_string : Bytes → Bytes
c_string [] = []
c_string (c ∷ s) = if c == 0 then [] else c ∷ c_string s

-- The digits of a number in front of `out`, the last digit first; each round divides by ten.
unfoldable pub emit_digits : ℕ → ℕ → Bytes → Bytes
emit_digits zero n out = out
emit_digits (suc fuel) n out =
    let out' = (b'0' + n % 10) ∷ out in
    let rest = emit_digits fuel (n / 10) out' in if n / 10 == 0 then out' else rest

unfoldable pub print_nat : ℕ → Bytes
unfolding emit_digits
print_nat n = emit_digits (suc n) n []

unfoldable pub print_int : ℤ → Bytes
unfolding print_nat
print_int (pos n) = print_nat n
print_int (negsuc n) = b'-' ∷ print_nat (suc n)

print_int_runs : print_int (negsuc 2147483647) ≡ codes "-2147483648"
unfolding print_int
print_int_runs = refl
