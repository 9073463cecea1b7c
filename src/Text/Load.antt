-- ===== src/Text/Load.antt =====
-- How parseConfig of src/master/main.cpp and of src/client/main.cpp, and parseMachineDefine, take over a
-- value of a document: through one string stream, of which `unread` is what is left in it.
use coflow_sim_online.Base.{
  IsInt, Option, [], append-nil, false, if◌then◌else◌, length, ltb, lt→ltb, none, refl, some, subst,
  ℕ, ℤ, ◌++◌, ◌<◌, ◌≡◌,
}
use coflow_sim_online.Text.{Bytes, print_int}
use coflow_sim_online.Text.Stream.{stream, read_int, read_word}
use coflow_sim_online.Text.RoundTrip.{IsWord, read_word-append, read_int-print_int}

-- `ss << text; ss >> array; ss.clear();` on an array of this size that holds a C string.
unfoldable pub load_text : ℕ → Bytes → Bytes → Bytes → Option (Bytes × Bytes)
unfolding read_word
load_text size text old unread =
    let (word, ss) = read_word old (stream (unread ++ text)) in
    if ltb (length word) size then some (word, ss.unread) else none

-- `ss << number; ss >> variable; ss.clear();`
unfoldable pub load_int : ℤ → ℤ → Bytes → ℤ × Bytes
unfolding read_int
load_int number old unread =
    let (value, ss) = read_int old (stream (unread ++ print_int number)) in (value, ss.unread)

pub load_text-word :
    (size : ℕ) (w old : Bytes) → IsWord w → length w < size → load_text size w old [] ≡ some (w, [])
unfolding load_text
load_text-word size w old (ne, dark) short =
    let whole =
      subst (λ x. read_word old (stream x) ≡ (w, record { unread = []; good = false }))
        (append-nil w) (read_word-append old w [] ne dark tt) in
    rw (whole, lt→ltb (length w) size short)

pub load_int-int : (n old : ℤ) → IsInt n → load_int n old [] ≡ (n, [])
unfolding load_int
load_int-int n old h =
    let whole =
      subst (λ x. read_int old (stream x) ≡ (n, record { unread = []; good = false }))
        (append-nil (print_int n)) (read_int-print_int old n [] h tt) in
    rw whole refl
