-- ===== src/Protocol/Reports.antt =====
-- From SendManager::run to Machine::parseFlowsFinishedInfo.
use coflow_sim_online.Base.{
  All, All-append, IsInt, List, [], ap, append-nil, arith, false, flatten, map, pos, refl, some,
  subst, true, ℕ, ℤ, ◌++◌, ◌∙◌, ◌∷◌, ◌≡◌, ◌≢◌,
}
use coflow_sim_online.Text.{Bytes, print_int}
use coflow_sim_online.Text.Stream.{stream, read_int, more}
use coflow_sim_online.Text.RoundTrip.{EndsNumber, read_int-print_int, read_int-space, print_int-All}
use coflow_sim_online.Wire.{IsBody, IsPlain, wire}
use coflow_sim_online.Client.Senders.{SendTask}
use coflow_sim_online.Client.Senders.Rounds.{report_body}
use coflow_sim_online.Master.Machine.{Machine, FlowEndInfo, read_info}
use coflow_sim_online.Master.Machine.Scan.{IsText}
use coflow_sim_online.Master.Machine.Delivery.{receive_all, receive_all-wire}

pub read_spaced :
    (old i : ℤ) (rest : Bytes)
    → IsInt i
    → EndsNumber rest
    → read_int old (stream (b' ' ∷ (print_int i ++ rest)))
      ≡ (i, record { unread = rest; good = more rest })
read_spaced old i rest h e =
    read_int-space old (print_int i ++ rest) ∙ read_int-print_int old i rest h e

module _ {D : Type 0} where
  -- The ids are `int` values, and so is the time, which the client prints as a `long`.
  abbrev pub IsReportable : SendTask D → Type 0
  IsReportable t = IsInt t.coflow_id × IsInt t.flow_id × IsInt t.end_time

  abbrev pub info_of : SendTask D → FlowEndInfo
  info_of t = record { coflow_id = t.coflow_id; flow_id = t.flow_id; end_time = t.end_time }

  -- The master reads the numbers that the client printed.
  pub read_info-report_body :
      (t : SendTask D) → IsReportable t → read_info (report_body t) ≡ info_of t
  unfolding read_info report_body
  read_info-report_body t (hc, hf, ht) =
      let time : read_int (pos 0) (stream (b' ' ∷ print_int t.end_time))
          ≡ (t.end_time, record { unread = []; good = false }) =
        subst
          (λ x.
            read_int (pos 0) (stream (b' ' ∷ x))
            ≡ (t.end_time, record { unread = []; good = false }))
          (append-nil (print_int t.end_time)) (read_spaced (pos 0) t.end_time [] ht tt) in
      rw
        (
          read_int-print_int (pos 0) t.coflow_id
              (b' ' ∷ (print_int t.flow_id ++ (b' ' ∷ print_int t.end_time))) hc refl,
          read_spaced (pos 0) t.flow_id (b' ' ∷ print_int t.end_time) hf refl,
          time,
        )
        refl

pub print_int-IsBody : (i : ℤ) → IsBody (print_int i)
print_int-IsBody i = print_int-All IsPlain i (λ c h. ground arith) (ground arith)

pub print_int-IsText : (i : ℤ) → IsText (print_int i)
print_int-IsText i = print_int-All (λ c. c ≢ 0) i (λ c h. ground arith) (ground arith)

-- Two numbers and spaces in between.
All-report {ℓ} :
    {D : Type 0} (P : ℕ → Type ℓ) (t : SendTask D)
    → ((i : ℤ) → All P (print_int i))
    → P b' '
    → All P (report_body t)
unfolding report_body
All-report P t numbers space =
    All-append P (print_int t.coflow_id) _ (numbers t.coflow_id)
      (space, All-append P (print_int t.flow_id) _ (numbers t.flow_id) (space, numbers t.end_time))

All-map-report {ℓ} :
    {D : Type 0} (P : Bytes → Type ℓ) (ts : List (SendTask D))
    → ((t : SendTask D) → P (report_body t))
    → All P (map report_body ts)
All-map-report P [] h = tt
All-map-report P (t ∷ ts) h = (h t, All-map-report P ts h)

pub reports-IsBody : {D : Type 0} (ts : List (SendTask D)) → All IsBody (map report_body ts)
reports-IsBody ts =
    All-map-report IsBody ts (λ t. All-report IsPlain t print_int-IsBody (ground arith))

pub reports-IsText : {D : Type 0} (ts : List (SendTask D)) → All IsText (map report_body ts)
reports-IsText ts =
    All-map-report IsText ts (λ t. All-report (λ c. c ≢ 0) t print_int-IsText (ground arith))

pub read_infos_of :
    {D : Type 0} (ts : List (SendTask D))
    → All IsReportable ts
    → map read_info (map report_body ts) ≡ map info_of ts
read_infos_of [] h = refl
read_infos_of (t ∷ ts) (ht, h) = ground (arith, read_info-report_body t ht, read_infos_of ts h)

-- The reports of tasks whose ids and times are int values, cut into any reads, reach the
-- master's queue for this client complete, in order and with their numbers, and no fragment is
-- left, if each read brings something and an index that is not set compares as below one that
-- is.
pub reports_arrive :
    {D : Type 0} (ts : List (SendTask D)) (chunks : List Bytes) (m : Machine)
    → All IsReportable ts
    → All (λ c. c ≢ []) chunks
    → flatten chunks ≡ wire (map report_body ts)
    → m.tmprecv ≡ []
    → (m' : Machine) × (receive_all true chunks m ≡ some m')
      × (m'.flows_finished_info ≡ m.flows_finished_info ++ map info_of ts)
      × (m'.tmprecv ≡ [])
reports_arrive ts chunks m h ne e held =
    let (m', run, queued, kept) =
      receive_all-wire (map report_body ts) chunks m (reports-IsBody ts) (reports-IsText ts) ne e
        held in
    (m', run, queued ∙ ap (◌++◌ m.flows_finished_info) (read_infos_of ts h), kept)
