-- ===== src/Master/Trace/Numbers.antt =====
-- Numbers of a trace that the whole numbers, as an instance of the interface to `double`, can read.
use coflow_sim_online.Base.{ℕ}
use coflow_sim_online.Text.{print_nat}
use coflow_sim_online.Text.RoundTrip.{print_nat-ne-nil, print_nat-IsDigit}
use coflow_sim_online.Common.Float.Whole.{whole, whole_laws, digits-IsMark, read_whole-print}
use coflow_sim_online.Master.Trace.Entry.{Number, IsSpelled}

abbrev pub number : ℕ → Number ℕ
number n = record { text = print_nat n; value = n }

pub number-IsSpelled : (n : ℕ) → IsSpelled whole whole_laws (number n)
number-IsSpelled n = (
  print_nat-ne-nil n,
  digits-IsMark (print_nat n) (print_nat-IsDigit n),
  λ old rest ends. read_whole-print old n rest ends,
)
