-- ===== src/Master/Scheduler/Told.antt =====
-- The reports of all the machines in one round, and in the rounds before.
use coflow_sim_online.Base.{
  Bool, Bool-cases, List, [], ap, arith, false, flatten, inl, inr, joins, map, refl, some, subst,
  true, ℤ, ◌++◌, ◌||◌, ◌∙◌, ◌∷◌, ◌≡◌,
}
use coflow_sim_online.Wire.{feed}
use coflow_sim_online.Text.{Bytes}
use coflow_sim_online.Master.Scheduler.{World, Scheduler, poll, Float, close_machine}
use coflow_sim_online.Master.Scheduler.Ended.{Ends, names_any, names_any-append}
use coflow_sim_online.Master.Scheduler.Incoming.{Incoming}
use coflow_sim_online.Master.Scheduler.Heard.{Coming}
use coflow_sim_online.Master.Scheduler.Machines.{
  fds, AreApart, read_infos, Comings, poll_machines-AllTold,
}
use coflow_sim_online.Master.Scheduler.Reading.{reading}
use coflow_sim_online.Master.Machine.{Machine, FlowEndInfo}

pub or_false : (x : Bool) → x ≡ x || false
or_false true = refl
or_false false = refl

or_interchange : (a b c d : Bool) → (a || b) || (c || d) ≡ (a || c) || (b || d)
or_interchange true b c d = refl
or_interchange false true true d = refl
or_interchange false true false d = refl
or_interchange false false c d = refl

pub names_any-joins :
    (coflow flow : ℤ) (infoss laters : List (List FlowEndInfo))
    → names_any coflow flow (flatten (joins infoss laters))
      ≡ names_any coflow flow (flatten infoss) || names_any coflow flow (flatten laters)
unfolding flatten
names_any-joins coflow flow [] laters = refl
names_any-joins coflow flow (infos ∷ infoss) [] =
    or_false (names_any coflow flow (infos ++ flatten infoss))
names_any-joins coflow flow (infos ∷ infoss) (later ∷ laters) =
    names_any-append coflow flow (infos ++ later) (flatten (joins infoss laters))
    ∙ rw
        (
          names_any-append coflow flow infos later,
          names_any-joins coflow flow infoss laters,
          names_any-append coflow flow infos (flatten infoss),
          names_any-append coflow flow later (flatten laters),
        )
        (or_interchange (names_any coflow flow infos) (names_any coflow flow later)
          (names_any coflow flow (flatten infoss)) (names_any coflow flow (flatten laters)))

pub fds-reading : (ms ms' : List Machine) → map reading ms' ≡ map reading ms → fds ms' ≡ fds ms
fds-reading [] [] e = refl
fds-reading [] (m' ∷ ms') e = ground arith
fds-reading (m ∷ ms) [] e = ground arith
fds-reading (m ∷ ms) (m' ∷ ms') e = ground (arith, fds-reading ms ms')

module _ {D K : Type 0} (float : Float D) (world : World K) (incoming : Incoming world) where
  open incoming use {rest}

  Coming-reading :
      (bodies : List Bytes) (m m' : Machine) (k : K)
      → reading m' ≡ reading m
      → Coming float world incoming bodies m k
      → Coming float world incoming bodies m' k
  Coming-reading bodies m m' k e (text, (st, (holds, held, clear, empty), coming)) = (
    text,
    (
      st,
      (holds, ap (λ r. r.2) e ∙ held, ap (λ r. r.1) e ∙ clear, ap (λ r. r.3) e ∙ empty),
      ap (λ r. feed st (rest r.0 k)) e ∙ coming,
    ),
  )

  pub Comings-reading :
      (bss : List (List Bytes)) (ms ms' : List Machine) (k : K)
      → map reading ms' ≡ map reading ms
      → Comings float world incoming bss ms k
      → Comings float world incoming bss ms' k
  Comings-reading [] [] [] k e h = tt
  Comings-reading [] [] (m' ∷ ms') k e h = absurd (ground arith)
  Comings-reading [] (m ∷ ms) ms' k e h = absurd h
  Comings-reading (bodies ∷ bss) [] ms' k e h = absurd h
  Comings-reading (bodies ∷ bss) (m ∷ ms) [] k e h = absurd (ground arith)
  Comings-reading (bodies ∷ bss) (m ∷ ms) (m' ∷ ms') k e (h, hs) =
      (Coming-reading bodies m m' k (cc) h, Comings-reading bss ms ms' k (cc) hs)

  -- The reports of some first of the messages to each machine have been worked off; then `run` has
  -- returned, or the other messages are coming.
  abbrev pub RunTold : List (List Bytes) → Scheduler D → K → (Scheduler D × Bool) × K → Type 0
  RunTold bss s k r =
      (takens : List (List FlowEndInfo)) × (lefts : List (List FlowEndInfo)) × (read_infos bss
        ≡ joins takens lefts)
      × Ends (flatten takens) s r.0.0
      × (r.0.1 ≡ false
          → (laters : List (List Bytes)) × (lefts ≡ read_infos laters)
            × Comings float world incoming laters r.0.0.machines.physics_machines r.1
            × (fds r.0.0.machines.physics_machines ≡ fds s.machines.physics_machines))

  pub poll-RunTold :
      (bss : List (List Bytes)) (s : Scheduler D) (k : K) {r : (Scheduler D × Bool) × K}
      → Comings float world incoming bss s.machines.physics_machines k
      → AreApart (fds s.machines.physics_machines)
      → poll float world s k ≡ some r
      → RunTold bss s k r
  unfolding poll
  poll-RunTold bss s k {r} h apart e =
      let (r', e', (takens, lefts, parts, ended, next, same, others)) =
        poll_machines-AllTold float world incoming bss s.machines.physics_machines s k h apart in
      elim (Bool-cases r'.0.2) [
        | inl stop ↦
            let closed = record r'.0.1 {
              machines = record r'.0.1.machines {
                physics_machines = map (close_machine float world) r'.0.0;
              };
            } in
            let out : ◌≡◌ {A = (Scheduler D × Bool) × K} ((closed, true), r'.1) r =
              ground (arith, e, e', stop) in
            subst (RunTold bss s k) out (takens, lefts, parts, ended, λ more. cc)
        | inr more ↦
            let open_ = record r'.0.1 {
              machines = record r'.0.1.machines { physics_machines = r'.0.0 };
            } in
            let out : ◌≡◌ {A = (Scheduler D × Bool) × K} ((open_, false), r'.1) r =
              ground (arith, e, e', more) in
            let (laters, lefts_are, comings) = next more in
            subst (RunTold bss s k) out
              (takens, lefts, parts, ended, λ _. (laters, lefts_are, comings, same))
      ]
