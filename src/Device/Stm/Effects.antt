-- ===== src/Device/Stm/Effects.antt =====
-- What the shared steps of the callbacks change, as equations between devices: the callers'
-- proofs need not open these functions.
use sane_airscan.Base.{
  ◌≡◌, refl, ap, inl, inr, Bool, true, false, not, ◌&&◌, Option, some, List, ltb, arith, Bool-cases,
}
use sane_airscan.Device.Types.{State, cancel_sent, scanning, Status, Bytes, Device}
use sane_airscan.Device.Job.{
  same_state, is_good, is_working, device_stm_state_set, device_job_set_status,
}
use sane_airscan.Device.Stm.{is_some, is_platen, device_stm_cancel_perform}

abbrev pub NotGood : Status → Type 0
NotGood s = is_good s ≡ false

pub same_state-eq : (a b : State) → same_state a b ≡ true → a ≡ b
same_state-eq scanning _ h = ground arith
same_state-eq _ _ h = ground arith

-- device_stm_state_set leaves the new state, and may signal the reader.
pub state_set_eq :
    (dev : Device) (s : State)
    → (r : Bool) × (device_stm_state_set dev s ≡ record dev { state = s; read_ready = r })
unfolding device_stm_state_set
state_set_eq dev s = elim (Bool-cases (same_state dev.state s)) [
  | inl e ↦
      (dev.read_ready, rw e (ap (λ t. record dev { state = t }) (same_state-eq dev.state s e)))
  | inr e ↦ elim (Bool-cases (is_working s)) [
    | inl w ↦ (dev.read_ready, rw (e, w) refl)
    | inr w ↦ (true, rw (e, w) refl)
  ]
]

-- device_job_set_status with an error or a cancel leaves an error or a cancel.
pub set_status_eq :
    (dev : Device) (st : Status)
    → NotGood st
    → (x : Status) × (q : List Bytes) × (device_job_set_status dev st
        ≡ record dev { job_status = x; read_queue = q })
      × NotGood x
unfolding device_job_set_status
set_status_eq dev st h = (
  (device_job_set_status dev st).job_status,
  (device_job_set_status dev st).read_queue,
  ground arith,
  ground arith,
)

-- What device_job_set_status changes, for any status.
pub set_status_fields :
    (dev : Device) (st : Status)
    → (x : Status) × (q : List Bytes) × (device_job_set_status dev st
        ≡ record dev { job_status = x; read_queue = q })
      × (NotGood dev.job_status → NotGood x)
unfolding device_job_set_status
set_status_fields dev st = (
  (device_job_set_status dev st).job_status,
  (device_job_set_status dev st).read_queue,
  ground arith,
  ground arith,
)

-- device_stm_cancel_perform with no CANCEL in flight sets the status, and either does no more, or
-- sends a CANCEL, if none has been sent.
pub data Performed (dev : Device) : Option (Bool × Device) → Type 0 where
  skipped :
      {out : Option (Bool × Device)} (x : Status) (q : List Bytes)
      → NotGood x
      → out ≡ some (false, record dev { job_status = x; read_queue = q })
      → Performed dev out
  sent :
      {out : Option (Bool × Device)} (x : Status) (q : List Bytes) (r : Bool)
      → NotGood x
      → dev.stm_cancel_sent ≡ false
      → out
        ≡ some (
          true,
          record dev {
            job_status = x;
            read_queue = q;
            state = cancel_sent;
            read_ready = r;
            cancel_query = true;
            stm_cancel_sent = true;
          },
        )
      → Performed dev out

perform_at :
    (dev : Device) (st : Status) (x : Status) (q : List Bytes) (r : Bool)
    → dev.cancel_query ≡ false
    → NotGood x
    → device_job_set_status dev st ≡ record dev { job_status = x; read_queue = q }
    → device_stm_state_set (record dev { job_status = x; read_queue = q }) cancel_sent
      ≡ record dev { job_status = x; read_queue = q; state = cancel_sent; read_ready = r }
    → Performed dev (device_stm_cancel_perform dev st)
unfolding device_stm_cancel_perform
perform_at dev st x q r c n e f =
    elim (Bool-cases (is_some dev.location && not dev.stm_cancel_sent)) [
      | inl go ↦ elim (Bool-cases (is_platen dev.params.src && ltb 0 dev.images_received)) [
        | inl skip ↦ skipped x q n (rw (e, go, skip))
        | inr send ↦ sent x q r n (ground arith) (rw (e, go, send) (rw (f, c)))
      ]
      | inr stop ↦ skipped x q n (rw (e, stop))
    ]

pub perform_lem :
    (dev : Device) (st : Status)
    → dev.cancel_query ≡ false
    → NotGood st
    → Performed dev (device_stm_cancel_perform dev st)
perform_lem dev st c h =
    let (x, q, e, n) = set_status_eq dev st h in
    let (r, f) = state_set_eq (record dev { job_status = x; read_queue = q }) cancel_sent in
    perform_at dev st x q r c n e f
