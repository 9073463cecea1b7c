-- ===== src/Master/Scheduler/Register.antt =====
-- Which coflows `registerCoflow` registers.
use coflow_sim_online.Base.{
  All, Bool-cases, List, [], ap, arith, drop, drop-length_append, false, inl, inr, length, map,
  refl, subst, suc, sym, take, take-length_append, true, ℕ, ℤ, ◌++◌, ◌+◌, ◌-ℤ◌, ◌∷◌, ◌≡◌, ◌≤◌,
}
use coflow_sim_online.Common.Float.{Float}
use coflow_sim_online.Master.Coflow.{Coflow, registed, set_coflow_state}
use coflow_sim_online.Master.Scheduler.{Scheduler, register_from, register_coflow}

module _ {D : Type 0} (float : Float D) where
  abbrev pub IsDue : ℤ → Coflow D → Type 0
  IsDue t co = float.le_long co.start_time t ≡ true

  -- The first of these coflows, if there is one, is not due.
  abbrev pub StartsLate : ℤ → List (Coflow D) → Type 0
  StartsLate t [] = Unit
  StartsLate t (co ∷ cos) = float.le_long co.start_time t ≡ false

  -- How many of these coflows are registered at time `t`.
  abbrev pub due_num : ℤ → List (Coflow D) → ℕ
  due_num t cos = (register_from float t cos).1

  abbrev Splits : ℤ → List (Coflow D) → List (Coflow D) × ℕ → Type 0
  Splits t cos r =
      (r.0 ≡ map (set_coflow_state registed) (take r.1 cos) ++ drop r.1 cos)
      × All (IsDue t) (take r.1 cos)
      × StartsLate t (drop r.1 cos)
      × (r.1 ≤ length cos)

  register_from-due :
      (t : ℤ) (co : Coflow D) (cos : List (Coflow D))
      → IsDue t co
      → register_from float t (co ∷ cos)
        ≡ (set_coflow_state registed co ∷ (register_from float t cos).0, suc (due_num t cos))
  unfolding register_from
  register_from-due t co cos due = rw due

  register_from-late :
      (t : ℤ) (co : Coflow D) (cos : List (Coflow D))
      → float.le_long co.start_time t ≡ false
      → register_from float t (co ∷ cos) ≡ (co ∷ cos, 0)
  unfolding register_from
  register_from-late t co cos late = rw late

  register_from_lem : (t : ℤ) (cos : List (Coflow D)) → Splits t cos (register_from float t cos)
  register_from_lem t [] = unfold register_from in (refl, tt, tt, omega arith)
  register_from_lem t (co ∷ cos) = elim (Bool-cases (float.le_long co.start_time t)) [
    | inl due ↦
        let ih = register_from_lem t cos in
        subst (Splits t (co ∷ cos)) (sym (register_from-due t co cos due))
          (ap (◌∷◌ (set_coflow_state registed co)) ih.0, (due, ih.1), ih.2, omega (arith, ih.3))
    | inr late ↦
        subst (Splits t (co ∷ cos)) (sym (register_from-late t co cos late))
          (refl, tt, late, omega arith)
  ]

  -- The time since the start of the run.
  abbrev pub elapsed : ℤ → Scheduler D → ℤ
  elapsed now s = now -ℤ s.start_time

  -- Of the coflows that the index does not count as registered yet, registerCoflow registers in
  -- order those up to the first one that is not due: all of these are due, and the next one, if
  -- any, is not. The other coflows are left alone, and the index counts the registered ones.
  pub register_coflow_lem :
      (now : ℤ) (s : Scheduler D) (old late : List (Coflow D))
      → s.coflows ≡ old ++ late
      → s.register_index ≡ length old
      → let n = due_num (elapsed now s) late in
        (register_coflow float now s ≡ record s {
          coflows = old ++ (map (set_coflow_state registed) (take n late) ++ drop n late);
          register_index = length old + n;
        })
        × All (IsDue (elapsed now s)) (take n late)
        × StartsLate (elapsed now s) (drop n late)
        × (n ≤ length late)
  unfolding register_coflow
  register_coflow_lem now s old late e i =
      let part = register_from_lem (elapsed now s) late in
      let front : take s.register_index s.coflows ≡ old = rw (i, e) (take-length_append old late) in
      let back : drop s.register_index s.coflows ≡ late = rw (i, e) (drop-length_append old late) in
      (ground (arith, front, back, part.0), part.1, part.2, part.3)
