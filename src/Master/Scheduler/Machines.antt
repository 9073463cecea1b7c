-- ===== src/Master/Scheduler/Machines.antt =====
-- All the machines, polled in a round while their reports come in.
use coflow_sim_online.Wire.{feed}
use coflow_sim_online.Text.{Bytes}
use coflow_sim_online.Base.{
  All, All-mono, Bool, Bool-cases, List, [], ap, append-nil, arith, false, flatten, inl, inr, joins,
  map, refl, some, subst, sym, true, ℤ, ◌∙◌, ◌∷◌, ◌≡◌, ◌≢◌,
}
use coflow_sim_online.Master.Scheduler.Ended.{Ends, Ends-nil, Ends-trans}
use coflow_sim_online.Master.Scheduler.Incoming.{Incoming}
use coflow_sim_online.Master.Scheduler.Heard.{Coming, poll_machine-Told}
use coflow_sim_online.Master.Machine.{Machine, FlowEndInfo, read_info}
use coflow_sim_online.Master.Scheduler.{World, Scheduler, poll_machines, Float}

abbrev pub fds : List Machine → List ℤ
fds = map (λ m. m.socket.sockfd)

-- No descriptor is there twice.
abbrev pub AreApart : List ℤ → Type 0
AreApart [] = Unit
AreApart (fd ∷ rest) = All (λ other. other ≢ fd) rest × AreApart rest

abbrev pub read_infos : List (List Bytes) → List (List FlowEndInfo)
read_infos = map (map read_info)

module _ {D K : Type 0} (float : Float D) (world : World K) (incoming : Incoming world) where
  open incoming use {rest}

  -- To each machine, these messages are coming.
  abbrev pub Comings : List (List Bytes) → List Machine → K → Type 0
  Comings [] [] k = Unit
  Comings (bodies ∷ bss) (m ∷ ms) k = Coming float world incoming bodies m k × Comings bss ms k
  Comings _ _ _ = ⊥

  Coming-kept :
      (bodies : List Bytes) (m : Machine) (k k' : K)
      → rest m.socket.sockfd k' ≡ rest m.socket.sockfd k
      → Coming float world incoming bodies m k
      → Coming float world incoming bodies m k'
  Coming-kept bodies m k k' same (text, (st, between, coming)) =
      (text, (st, between, ap (feed st) same ∙ coming))

  pub Comings-kept :
      (bss : List (List Bytes)) (ms : List Machine) (k k' : K)
      → All (λ fd. rest fd k' ≡ rest fd k) (fds ms)
      → Comings bss ms k
      → Comings bss ms k'
  Comings-kept [] [] k k' same h = tt
  Comings-kept (bodies ∷ bss) (m ∷ ms) k k' (here, there) (h, hs) =
      (Coming-kept bodies m k k' here h, Comings-kept bss ms k k' there hs)
  Comings-kept [] (m ∷ ms) k k' same h = absurd h
  Comings-kept (bodies ∷ bss) [] k k' same h = absurd h

  -- The reports of some first of the messages to each machine have been worked off; after that
  -- `run` returns, or the other messages are coming.
  abbrev pub AllTold :
      List (List Bytes)
      → List Machine
      → Scheduler D
      → K
      → (List Machine × Scheduler D × Bool) × K
      → Type 0
  AllTold bss ms s k r =
      (takens : List (List FlowEndInfo)) × (lefts : List (List FlowEndInfo)) × (read_infos bss
        ≡ joins takens lefts)
      × Ends (flatten takens) s r.0.1
      × (r.0.2 ≡ false
          → (laters : List (List Bytes)) × (lefts ≡ read_infos laters) × Comings laters r.0.0 r.1)
      × (fds r.0.0 ≡ fds ms)
      × ((other : ℤ) → All (λ fd. other ≢ fd) (fds ms) → rest other r.1 ≡ rest other k)

  pub poll_machines-AllTold :
      (bss : List (List Bytes)) (ms : List Machine) (s : Scheduler D) (k : K)
      → Comings bss ms k
      → AreApart (fds ms)
      → (r : (List Machine × Scheduler D × Bool) × K) × (poll_machines float world ms s k ≡ some r)
        × AllTold bss ms s k r
  unfolding poll_machines flatten
  poll_machines-AllTold [] [] s k h apart = (
    (([], s, false), k),
    refl,
    ([], [], refl, Ends-nil s, λ more. ([], refl, tt), refl, λ other ne. refl),
  )
  poll_machines-AllTold [] (m ∷ ms) s k h apart = absurd h
  poll_machines-AllTold (bodies ∷ bss) [] s k h apart = absurd h
  poll_machines-AllTold (bodies ∷ bss) (m ∷ ms) s k (h, hs) (fresh, apart) =
      let (r, e, (taken, left, parts, ended, next, same, others)) =
        poll_machine-Told float world incoming bodies m s k h in
      elim (Bool-cases r.0.2) [
        | inl stop ↦ (
          ((r.0.0 ∷ ms, r.0.1, true), r.1),
          ground (arith, e, stop),
          (
            taken ∷ [],
            left ∷ read_infos bss,
            ap (λ x. x ∷ read_infos bss) parts,
            subst (λ x. Ends x s r.0.1) (sym (append-nil taken)) ended,
            λ more. cc,
            ap (λ fd. fd ∷ fds ms) same,
            λ other ne. others other ne.0,
          ),
        )
        | inr more ↦
            let (later, left_is, coming) = next more in
            let kept : All (λ fd. rest fd r.1 ≡ rest fd k) (fds ms) =
              All-mono (λ other. other ≢ m.socket.sockfd) (λ fd. rest fd r.1 ≡ rest fd k) (fds ms)
                others fresh in
            let (r', e', (takens, lefts, parts', ended', next', same', others')) =
              poll_machines-AllTold bss ms r.0.1 r.1 (Comings-kept bss ms k r.1 kept hs) apart in
            let own : rest m.socket.sockfd r'.1 ≡ rest m.socket.sockfd r.1 =
              others' m.socket.sockfd (
                All-mono (λ other. other ≢ m.socket.sockfd) (λ fd. m.socket.sockfd ≢ fd) (fds ms)
                  (λ fd ne same. ne (sym same)) fresh) in
            (
              ((r.0.0 ∷ r'.0.0, r'.0.1, r'.0.2), r'.1),
              ground (arith, e, more, e'),
              (
                taken ∷ takens,
                left ∷ lefts,
                ground (arith, parts, parts'),
                Ends-trans taken (flatten takens) s r.0.1 r'.0.1 ended ended',
                λ done.
                    let (laters, lefts_are, comings) = next' done in
                    (
                      later ∷ laters,
                      ground (arith, left_is, lefts_are),
                      (
                        Coming-kept later r.0.0 r.1 r'.1
                            (subst (λ fd. rest fd r'.1 ≡ rest fd r.1) (sym same) own) coming,
                        comings,
                      ),
                    ),
                ground (arith, same, same'),
                λ other ne. others' other ne.1 ∙ others other ne.0,
              ),
            )
      ]
