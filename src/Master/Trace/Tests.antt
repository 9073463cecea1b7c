-- ===== src/Master/Trace/Tests.antt =====
-- A trace of one coflow.
use coflow_sim_online.Base.{[], arith, false, none, pos, refl, some, ℕ, ◌*◌, ◌∷◌, ◌≡◌}
use coflow_sim_online.Master.Trace.Numbers.{number, number-IsSpelled}
use coflow_sim_online.Text.{print_nat, emit_digits, codes, print_int}
use coflow_sim_online.Master.Trace.{
  need_int, add_mappers, add_reducers, strtok, read_pair, need_word, read_pairs, read_ids,
  need_float, prepare_one_coflow, prepare_coflows, get_coflow_num, get_logic_machine_port_num,
  new_trace_producer,
}
use coflow_sim_online.Master.Coflow.{new_coflow, add_flow, get_flows_num}
use coflow_sim_online.Text.Stream.{read_word}
use coflow_sim_online.Common.Float.Whole.{whole, whole_laws}
use coflow_sim_online.Master.Trace.Entry.{
  Entry, IsReadable, print_line, coflow_of, prepare_one_coflow-print_line,
}
use coflow_sim_online.Master.Trace.File.{IsListed, print_trace, prepare_coflows-print_trace}

abbrev entry : Entry ℕ
entry = record {
  coflow_id = pos 1;
  start_time = number 0;
  mapper_ids = pos 21 ∷ pos 134 ∷ [];
  reducers = (pos 18, number 100) ∷ (pos 3, number 8) ∷ [];
}

print_line_runs : print_line whole whole_laws entry ≡ codes "1 0 2 21 134 2 18:100 3:8"
unfolding print_line print_int print_nat emit_digits
print_line_runs = refl

-- Without the second part of a pair, `strtok` returns a null pointer.
prepare_no_size : prepare_one_coflow whole (pos 0) (codes "1 0 1 21 1 18") ≡ none
unfolding prepare_one_coflow need_int need_float read_word read_ids read_pairs need_word read_pair
    strtok
prepare_no_size = refl

-- Half of each reducer's input from each mapper.
prepare_runs :
    prepare_one_coflow whole (pos 0) (codes "1 0 2 21 134 2 18:100 3:8")
    ≡ some (coflow_of whole whole_laws (pos 0) entry)
unfolding prepare_one_coflow need_int need_float read_word read_ids read_pairs need_word read_pair
    strtok add_reducers add_mappers add_flow new_coflow
prepare_runs = refl

get_num_runs :
    get_coflow_num (codes "150 526") new_trace_producer
    ≡ some (pos 526, record new_trace_producer { coflow_num = pos 526 })
unfolding get_coflow_num need_int
get_num_runs = refl

get_ports_runs :
    get_logic_machine_port_num (codes "150 526") new_trace_producer
    ≡ some (pos 150, record new_trace_producer { logic_machine_port_num = pos 150 })
unfolding get_logic_machine_port_num need_int
get_ports_runs = refl

entry-IsReadable : IsReadable whole whole_laws entry
unfolding print_int print_nat emit_digits
entry-IsReadable = record {
  id_int = omega arith;
  start_spelled = number-IsSpelled 0;
  ids_int = (omega arith, (omega arith, tt));
  pairs = (
    (omega arith, omega arith, number-IsSpelled 100),
    ((omega arith, omega arith, number-IsSpelled 8), tt),
  );
  mappers_num = omega arith;
  reducers_num = omega arith;
}

prepare_one_coflow-print_line_example :
    (prepare_one_coflow whole (pos 0) (print_line whole whole_laws entry)
      ≡ some (coflow_of whole whole_laws (pos 0) entry))
    × (get_flows_num (coflow_of whole whole_laws (pos 0) entry) ≡ 2 * 2)
prepare_one_coflow-print_line_example =
    prepare_one_coflow-print_line whole whole_laws (pos 0) entry entry-IsReadable

entry-IsListed : IsListed whole whole_laws entry
unfolding print_line print_int print_nat emit_digits
entry-IsListed = record { readable = entry-IsReadable; line = ground arith; short = omega arith }

-- Four spaces in the first line, and no newline at the end of the file.
print_trace_runs :
    print_trace whole whole_laws (pos 150) 3 false (entry ∷ [])
    ≡ codes "150    1\n1 0 2 21 134 2 18:100 3:8"
unfolding print_trace print_line print_int print_nat emit_digits
print_trace_runs = refl

prepare_coflows-print_trace_example :
    prepare_coflows whole
      (pos 0)
      (print_trace whole whole_laws (pos 150) 3 false (entry ∷ []))
      new_trace_producer
      []
    ≡ some (
      record new_trace_producer { logic_machine_port_num = pos 150 },
      coflow_of whole whole_laws (pos 0) entry ∷ [],
    )
prepare_coflows-print_trace_example =
    prepare_coflows-print_trace whole whole_laws (pos 0) (pos 150) 3 false (entry ∷ [])
      new_trace_producer [] (omega arith) (omega arith) (entry-IsListed, tt)
