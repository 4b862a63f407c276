-- ===== src/Device/Events/Races.antt =====
-- What device_http_onerror, device_stm_cancel_callback and device_stm_cancel_event_callback do where
-- the environment is not timely.
use sane_airscan.Base.{
  ◌-◌, ◌≡◌, refl, sym, ap, subst, ◌&&◌, List, Bool, true, false, not, none, some, arith,
}
use sane_airscan.Base.Int.{ℤ}
use sane_airscan.Device.Types.{
  cancel_req, cancel_sent, cancelled, cancel_delayed, cancel_req_done, cancel_job_done, done,
  no_mem, io_error, Proto, Device, Bytes, Status,
}
use sane_airscan.Device.Job.{same_state, is_working, device_job_set_status}
use sane_airscan.Device.Stm.Effects.{set_status_eq, state_set_eq}
use sane_airscan.Device.Stm.{
  is_some, device_http_onerror, device_stm_cancel_perform, device_stm_cancel_callback,
  device_stm_cancel_event_callback,
}
use sane_airscan.Device.Events.{
  Event, start_do, op_reply, op_error, cancel_reply, timer_fired, cancel_fired, is_ready, dispatch,
}

-- The device works, and no callback is to come.
abbrev pub IsStuck : Device → Type 0
IsStuck dev = (is_working dev.state ≡ true) × ((ev : Event) → is_ready dev ev ≡ false)

-- A job whose CANCEL is in flight beside its last operation.
pub record CancelInFlight (dev : Device) : Type 0 where
  pub at : dev.state ≡ cancel_sent
  pub was_sent : dev.stm_cancel_sent ≡ true
  pub in_flight : dev.cancel_query ≡ true
  pub one_query : dev.op_queries ≡ 1
  pub no_timer : dev.timer ≡ false
  pub no_event : dev.cancel_event ≡ false
  pub no_start : dev.start_call ≡ false

nothing_ready :
    (dev : Device)
    → dev.op_queries ≡ 0
    → dev.timer ≡ false
    → dev.cancel_query ≡ false
    → dev.cancel_event ≡ false
    → dev.start_call ≡ false
    → (ev : Event) → is_ready dev ev ≡ false
nothing_ready dev o t q e s start_do = s
nothing_ready dev o t q e s (op_reply r) = rw o refl
nothing_ready dev o t q e s (op_error b) = rw o refl
nothing_ready dev o t q e s cancel_reply = q
nothing_ready dev o t q e s timer_fired = t
nothing_ready dev o t q e s cancel_fired = e

-- A cancel that has been sent, or that has no location to be sent to, only sets the status.
abbrev NoSend : Device → Type 0
NoSend dev = (is_some dev.location && not dev.stm_cancel_sent) ≡ false

perform_again :
    (dev : Device) (st x : Status) (q : List Bytes)
    → NoSend dev
    → device_job_set_status dev st ≡ record dev { job_status = x; read_queue = q }
    → device_stm_cancel_perform dev st ≡ some (false, record dev { job_status = x; read_queue = q })
unfolding device_stm_cancel_perform
perform_again dev st x q h e = rw (e, h)

onerror_again :
    (dev : Device) (enomem : Bool)
    → NoSend dev
    → (x : Status) × (q : List Bytes) × (r : Bool) × (device_http_onerror dev enomem
        ≡ some (record dev { job_status = x; read_queue = q; state = done; read_ready = r }))
unfolding device_http_onerror
onerror_again dev true h =
    let (x, q, e, _) = set_status_eq dev no_mem refl in
    let (r, f) = state_set_eq (record dev { job_status = x; read_queue = q }) done in
    (x, q, r, rw (perform_again dev no_mem x q h e) (rw f))
onerror_again dev false h =
    let (x, q, e, _) = set_status_eq dev io_error refl in
    let (r, f) = state_set_eq (record dev { job_status = x; read_queue = q }) done in
    (x, q, r, rw (perform_again dev io_error x q h e) (rw f))

event_again :
    (dev : Device)
    → NoSend dev
    → (x : Status) × (q : List Bytes) × (r : Bool) × (device_stm_cancel_event_callback dev
        ≡ some
            (record dev { job_status = x; read_queue = q; state = cancel_delayed; read_ready = r }))
unfolding device_stm_cancel_event_callback
event_again dev h =
    let (x, q, e, _) = set_status_eq dev cancelled refl in
    let (r, f) = state_set_eq (record dev { job_status = x; read_queue = q }) cancel_delayed in
    (x, q, r, rw (perform_again dev cancelled x q h e) (rw f))

late_reply :
    (dev : Device)
    → dev.state ≡ done
    → (r : Bool) × (device_stm_cancel_callback dev
        ≡ record dev { cancel_query = false; state = cancel_req_done; read_ready = r })
unfolding device_stm_cancel_callback
late_reply dev h =
    let other : same_state dev.state cancel_job_done ≡ false =
      subst (λ s. same_state s cancel_job_done ≡ false) (sym h) refl in
    let (r, f) = state_set_eq (record dev { cancel_query = false }) cancel_req_done in
    (r, rw other (rw f refl))

-- When the operation fails in transport while its CANCEL is in flight, the job is done; the reply to
-- the CANCEL then takes the device back to work, with nothing to end it.
pub error_during_cancel :
    (mm2px : ℤ → ℤ → ℤ) (p : Proto) (dev : Device) (enomem : Bool)
    → CancelInFlight dev
    → (d1 d2 : Device) × (dispatch mm2px p dev (op_error enomem) ≡ some d1)
      × (d1.state ≡ done)
      × (dispatch mm2px p d1 cancel_reply ≡ some d2)
      × IsStuck d2
unfolding dispatch
error_during_cancel mm2px p dev b c =
    let lost = record dev { op_queries = dev.op_queries - 1 } in
    let sent : NoSend lost = ground (arith, c.was_sent) in
    let (x, q, r, e) = onerror_again lost b sent in
    let ended = record lost { job_status = x; read_queue = q; state = done; read_ready = r } in
    let (r', f) = late_reply ended refl in
    let stuck = record ended { cancel_query = false; state = cancel_req_done; read_ready = r' } in
    (
      ended,
      stuck,
      e,
      refl,
      ap some f,
      (
        refl,
        nothing_ready stuck (omega (arith, c.one_query)) c.no_timer refl c.no_event c.no_start,
      ),
    )

-- A job whose cancel has been requested, before the callback of the request, while its SCAN has no
-- location yet.
pub record CancelRequested (dev : Device) : Type 0 where
  pub at : dev.state ≡ cancel_req
  pub no_location : dev.location ≡ none
  pub not_in_flight : dev.cancel_query ≡ false
  pub one_query : dev.op_queries ≡ 1
  pub no_timer : dev.timer ≡ false
  pub has_event : dev.cancel_event ≡ true
  pub no_start : dev.start_call ≡ false

-- When the operation of a job without a location fails in transport between the request of a cancel and
-- its callback, the job is done; the callback then takes the device back to work, with nothing to end it.
pub error_before_cancel :
    (mm2px : ℤ → ℤ → ℤ) (p : Proto) (dev : Device) (enomem : Bool)
    → CancelRequested dev
    → (d1 d2 : Device) × (dispatch mm2px p dev (op_error enomem) ≡ some d1)
      × (d1.state ≡ done)
      × (dispatch mm2px p d1 cancel_fired ≡ some d2)
      × IsStuck d2
unfolding dispatch
error_before_cancel mm2px p dev b c =
    let lost = record dev { op_queries = dev.op_queries - 1 } in
    let nowhere : NoSend lost = ground (arith, c.no_location) in
    let (x, q, r, e) = onerror_again lost b nowhere in
    let ended = record lost { job_status = x; read_queue = q; state = done; read_ready = r } in
    let (x', q', r', f) = event_again (record ended { cancel_event = false }) nowhere in
    let stuck = record ended {
      cancel_event = false;
      job_status = x';
      read_queue = q';
      state = cancel_delayed;
      read_ready = r';
    } in
    (
      ended,
      stuck,
      e,
      refl,
      f,
      (
        refl,
        nothing_ready stuck (omega (arith, c.one_query)) c.no_timer c.not_in_flight refl c.no_start,
      ),
    )
