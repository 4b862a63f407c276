-- ===== src/Device/Events/Ending.antt =====
-- The end of a job, a delayed cancel and the saving of an image against the invariant.
use sane_airscan.Base.{
  ℕ, subst, ◌≡◌, refl, sym, ◌∙◌, inl, inr, Bool, true, false, Option, none, some, List, ◌==◌,
  if◌then◌else◌, arith, Bool-cases,
}
use sane_airscan.Device.Types.{
  State, scanning, cancel_delayed, cancel_sent, cancel_job_done, done, Status, cancelled, io_error,
  Op, op_scan, op_load, Bytes, Proto, Device,
}
use sane_airscan.Device.Job.{same_state, device_stm_state_set, device_job_set_status}
use sane_airscan.Device.Stm.Effects.{
  NotGood, same_state-eq, state_set_eq, set_status_eq, Performed, skipped, sent, perform_lem,
}
use sane_airscan.Device.Stm.{
  ◌>>=◌, has_query, has_decode, finish_job, go_on, delayed_cancel, save_result,
  device_proto_op_submit,
}
use sane_airscan.Device.Events.Inv.{Moved, Kept, jobs_of, cancel_of, event_of, sent_of}

-- What holds between the reply to an operation and the next operation. `s` is the state.
pub record Between (p : Proto) (dev : Device) (s : State) : Type 0 where
  pub job : jobs_of s ≡ 1
  pub no_query : dev.op_queries ≡ 0
  pub no_timer : dev.timer ≡ false
  pub no_event : dev.cancel_event ≡ false
  pub not_requested : event_of s ≡ false
  pub not_posted : dev.start_call ≡ false
  pub cancel : dev.cancel_query ≡ cancel_of s
  pub was_sent : dev.stm_cancel_sent ≡ sent_of s
  pub status : sent_of s ≡ true → NotGood dev.job_status

-- An operation that the protocol can be asked for.
abbrev pub IsSupported : Proto → Op → Type 0
IsSupported p op = (has_query p op ≡ true) × (has_decode p op ≡ true)

go_on-Kept :
    (p : Proto) (dev : Device) (s : State) (next : Op) (delay : ℕ)
    → dev.state ≡ s
    → Between p dev s
    → IsSupported p next
    → Kept p (go_on p dev next delay)
unfolding go_on device_proto_op_submit
go_on-Kept p dev scanning next delay e b n = ground arith
go_on-Kept p dev _ next delay e b n = ground arith

-- The status that the end of a job leaves.
abbrev ended_status : Device → Device
ended_status dev = if dev.images_received == 0 then device_job_set_status dev io_error else dev

ended_status_eq :
    (dev : Device)
    → (x : Status) × (q : List Bytes) × (ended_status dev
        ≡ record dev { job_status = x; read_queue = q })
      × (NotGood dev.job_status → NotGood x)
      × (dev.images_received ≡ 0 → NotGood x)
ended_status_eq dev = elim (Bool-cases (dev.images_received == 0)) [
  | inl z ↦ let (x, q, e, n) = set_status_eq dev io_error refl in (x, q, rw z e, λ _. n, λ _. n)
  | inr nz ↦ (dev.job_status, dev.read_queue, rw nz refl, λ h. h, λ h. ground arith)
]

finish_sent :
    (p : Proto) (dev : Device) (s : State) (x : Status) (q : List Bytes) (r : Bool)
    → Between p dev s
    → (NotGood dev.job_status → NotGood x)
    → s ≡ cancel_sent
    → Moved p
        (record dev { job_status = x; read_queue = q; state = cancel_job_done; read_ready = r })
finish_sent p dev cancel_sent x q r b n e = ground arith
finish_sent p dev _ x q r b n e = cc

finish_other :
    (p : Proto) (dev : Device) (s : State) (x : Status) (q : List Bytes) (r : Bool)
    → Between p dev s
    → (dev.images_received ≡ 0 → NotGood x)
    → same_state s cancel_sent ≡ false
    → Moved p (record dev { job_status = x; read_queue = q; state = done; read_ready = r })
finish_other p dev cancel_sent x q r b m e = cc
finish_other p dev _ x q r b m e = ground arith

finish_by :
    (p : Proto) (dev : Device) (s : State) (x : Status) (q : List Bytes) (r r' : Bool)
    → dev.state ≡ s
    → Between p dev s
    → (NotGood dev.job_status → NotGood x)
    → (dev.images_received ≡ 0 → NotGood x)
    → ended_status dev ≡ record dev { job_status = x; read_queue = q }
    → device_stm_state_set (record dev { job_status = x; read_queue = q }) cancel_job_done
      ≡ record dev { job_status = x; read_queue = q; state = cancel_job_done; read_ready = r }
    → device_stm_state_set (record dev { job_status = x; read_queue = q }) done
      ≡ record dev { job_status = x; read_queue = q; state = done; read_ready = r' }
    → Moved p (finish_job dev)
unfolding finish_job
finish_by p dev s x q r r' is b n m e f g = elim (Bool-cases (same_state dev.state cancel_sent)) [
  | inl y ↦ rw (e, y) (rw f (finish_sent p dev s x q r b n (sym is ∙ same_state-eq _ _ y)))
  | inr y ↦ rw (e, y) (rw g (finish_other p dev s x q r' b m (rw is at y)))
]

pub finish_job-Moved :
    (p : Proto) (dev : Device) (s : State)
    → dev.state ≡ s
    → Between p dev s
    → Moved p (finish_job dev)
finish_job-Moved p dev s is b =
    let (x, q, e, n, m) = ended_status_eq dev in
    let (r, f) = state_set_eq (record dev { job_status = x; read_queue = q }) cancel_job_done in
    let (r', g) = state_set_eq (record dev { job_status = x; read_queue = q }) done in
    finish_by p dev s x q r r' is b n m e f g

-- A delayed cancel is sent, and the job goes on, or the job ends.
delayed_by :
    (p : Proto) (dev : Device) (next : Op) (delay : ℕ) (out : Option (Bool × Device))
    → Between p dev cancel_delayed
    → IsSupported p next
    → Performed dev out
    → Kept p (do
      (ok, dev1) ← out
      if ok then go_on p dev1 next delay else some (device_stm_state_set dev1 done))
delayed_by p dev next delay out b n (skipped x q g e) =
    let (r, e') = state_set_eq (record dev { job_status = x; read_queue = q }) done in
    rw (e, e') (ground arith)
delayed_by p dev next delay out b n (sent x q r g t e) =
    rw e (go_on-Kept p _ cancel_sent next delay refl (ground arith) n)

pub delayed_cancel-Kept :
    (p : Proto) (dev : Device) (s : State) (next : Op) (delay : ℕ)
    → dev.state ≡ s
    → Between p dev s
    → IsSupported p next
    → Kept p (delayed_cancel p dev next delay)
unfolding delayed_cancel
delayed_cancel-Kept p dev s next delay is b n =
    elim (Bool-cases (same_state dev.state cancel_delayed)) [
      | inl y ↦
          let at_delayed : s ≡ cancel_delayed = sym is ∙ same_state-eq _ _ y in
          let b' : Between p dev cancel_delayed = subst (Between p dev) at_delayed b in
          rw y (delayed_by p dev next delay _ b' n (perform_lem dev cancelled b'.cancel refl))
      | inr y ↦ rw y (go_on-Kept p dev s next delay is b n)
    ]

pub save_result-Between :
    (p : Proto) (dev : Device) (s : State) (op : Op) (c : Option Bytes)
    → dev.state ≡ s
    → Between p dev s
    → Between p (save_result dev op c) s × ((save_result dev op c).state ≡ s)
unfolding save_result
save_result-Between p dev s op_scan none is b = (b, is)
save_result-Between p dev s op_scan (some _) is b = ground arith
save_result-Between p dev s op_load (some _) is b = ground arith
save_result-Between p dev s _ _ is b = (b, is)
