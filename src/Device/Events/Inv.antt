-- ===== src/Device/Events/Inv.antt =====
-- The invariant of the scan state machine, against the callbacks of a cancel and of an error.
use sane_airscan.Base.{
  ℕ, ◌+◌, ◌≡◌, refl, Bool, true, false, ◌&&◌, Option, none, some, leb, if◌then◌else◌, arith,
}
use sane_airscan.Device.Types.{
  State, idle, scanning, cancel_req, cancel_delayed, cancel_sent, cancel_job_done, cancel_req_done,
  cleanup, done, cancelled, io_error, no_mem, Proto, Device,
}
use sane_airscan.Device.Job.{same_state, is_working, state_number, device_stm_state_set}
use sane_airscan.Device.Stm.Effects.{NotGood, state_set_eq, Performed, skipped, sent, perform_lem}
use sane_airscan.Device.Stm.{
  ◌>>=◌, has_query, has_decode, device_http_onerror, device_stm_cancel_callback,
  device_stm_cancel_event_callback,
}

-- How many operations, in flight or delayed, the job of a state has.
abbrev pub jobs_of : State → ℕ
jobs_of scanning = 1
jobs_of cancel_req = 1
jobs_of cancel_delayed = 1
jobs_of cancel_sent = 1
jobs_of cancel_req_done = 1
jobs_of cleanup = 1
jobs_of _ = 0

-- Whether a CANCEL query is in flight.
abbrev pub cancel_of : State → Bool
cancel_of cancel_sent = true
cancel_of cancel_job_done = true
cancel_of _ = false

abbrev pub event_of : State → Bool
event_of cancel_req = true
event_of _ = false

-- Whether a CANCEL has been sent, as far as the state says.
abbrev pub sent_of : State → Bool
sent_of cancel_sent = true
sent_of cancel_job_done = true
sent_of cancel_req_done = true
sent_of _ = false

-- From IDLE to DONE: a device that has been probed and is not closed.
abbrev pub is_live : State → Bool
is_live s = leb 3 (state_number s) && leb (state_number s) 11

abbrev pub count : Bool → ℕ
count true = 1
count false = 0

-- `s` is the state of `dev`.
pub record InvAt (p : Proto) (dev : Device) (s : State) : Type 0 where
  pub live : is_live s ≡ true
  pub jobs : dev.op_queries + count dev.timer ≡ jobs_of s
  pub cancel : dev.cancel_query ≡ cancel_of s
  pub event : dev.cancel_event ≡ event_of s
  pub sent : is_working s ≡ true → dev.stm_cancel_sent ≡ sent_of s
  pub decodable : jobs_of s ≡ 1 → has_decode p dev.op ≡ true
  pub queryable : jobs_of s ≡ 1 → has_query p dev.op ≡ true
  pub posted : dev.start_call ≡ true → (s ≡ idle) × (dev.stm_cancel_sent ≡ false)
  pub failed : sent_of s ≡ true → NotGood dev.job_status
  pub empty : s ≡ done → dev.images_received ≡ 0 → NotGood dev.job_status

abbrev pub Inv : Proto → Device → Type 0
Inv p dev = InvAt p dev dev.state

-- The invariant, at a device that is not idle.
abbrev pub Moved : Proto → Device → Type 0
Moved p dev = Inv p dev × (same_state dev.state idle ≡ false)

-- A callback has run without a failed assertion, has kept the invariant, and leaves the device in a
-- state other than IDLE.
abbrev pub Kept : Proto → Option Device → Type 0
Kept p none = ⊥
Kept p (some dev) = Moved p dev

cancel_callback-Inv :
    (p : Proto) (dev : Device) (s : State)
    → dev.state ≡ s
    → dev.cancel_query ≡ true
    → InvAt p dev s
    → Inv p (device_stm_cancel_callback dev)
unfolding device_stm_cancel_callback device_stm_state_set
cancel_callback-Inv p dev cancel_sent e c v = ground arith
cancel_callback-Inv p dev _ e c v = ground arith

-- A job whose only pending work is one operation.
pub record OneJob (p : Proto) (dev : Device) : Type 0 where
  pub one : dev.op_queries + count dev.timer ≡ 1
  pub can_decode : has_decode p dev.op ≡ true
  pub can_query : has_query p dev.op ≡ true
  pub no_cancel : dev.cancel_query ≡ false
  pub no_event : dev.cancel_event ≡ false
  pub not_posted : dev.start_call ≡ false
  pub not_sent : dev.stm_cancel_sent ≡ false

module _ (p : Proto) (dev : Device) where
  cancel_event_by :
      (out : Option (Bool × Device))
      → OneJob p dev
      → Performed dev out
      → Kept p (do
        (ok, dev1) ← out
        if ok then some dev1 else some (device_stm_state_set dev1 cancel_delayed))
  cancel_event_by out j (skipped x q n e) =
      let (r, e') = state_set_eq (record dev { job_status = x; read_queue = q }) cancel_delayed in
      rw (e, e') (ground arith)
  cancel_event_by out j (sent x q r n t e) = rw e (ground arith)

  pub cancel_event_Kept : OneJob p dev → Kept p (device_stm_cancel_event_callback dev)
  unfolding device_stm_cancel_event_callback
  cancel_event_Kept j = cancel_event_by _ j (perform_lem dev cancelled j.no_cancel refl)

-- A job that has nothing pending any more.
pub record Ended (dev : Device) : Type 0 where
  pub no_query : dev.op_queries ≡ 0
  pub no_timer : dev.timer ≡ false
  pub no_cancel : dev.cancel_query ≡ false
  pub no_event : dev.cancel_event ≡ false
  pub not_posted : dev.start_call ≡ false

module _ (p : Proto) (dev : Device) where
  onerror_by :
      (out : Option (Bool × Device))
      → Ended dev
      → Performed dev out
      → Kept p (do
        (ok, dev1) ← out
        if ok
            then some (device_stm_state_set dev1 cancel_job_done)
            else some (device_stm_state_set dev1 done))
  onerror_by out j (skipped x q n e) =
      let (r, e') = state_set_eq (record dev { job_status = x; read_queue = q }) done in
      rw (e, e') (ground arith)
  onerror_by out j (sent x q r n t e) =
      let (r', e') =
        state_set_eq
          (record dev {
            job_status = x;
            read_queue = q;
            state = cancel_sent;
            read_ready = r;
            cancel_query = true;
            stm_cancel_sent = true;
          })
          cancel_job_done in
      rw (e, e') (ground arith)

  pub http_onerror_Kept : (enomem : Bool) → Ended dev → Kept p (device_http_onerror dev enomem)
  unfolding device_http_onerror
  http_onerror_Kept true j = onerror_by _ j (perform_lem dev no_mem j.no_cancel refl)
  http_onerror_Kept false j = onerror_by _ j (perform_lem dev io_error j.no_cancel refl)
