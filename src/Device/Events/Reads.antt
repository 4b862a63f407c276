-- ===== src/Device/Events/Reads.antt =====
-- The end of a device_read, and an error of the decoder, against the invariants.
use sane_airscan.Base.{
  ◌≡◌, refl, inl, inr, Bool, true, false, not, ◌&&◌, ◌||◌, Option, some, if◌then◌else◌, arith,
  Bool-cases,
}
use sane_airscan.Device.Types.{idle, scanning, done, Status, io_error, Proto, Device}
use sane_airscan.Device.Job.{same_state, is_good, device_job_set_status}
use sane_airscan.Device.Stm.{device_stm_cancel_req}
use sane_airscan.Device.Stm.Effects.{set_status_fields}
use sane_airscan.Device.Client.{
  Started, Decoding, is_eof, is_io_error, read_end, read_done, read_lines,
}
use sane_airscan.Device.Events.{Thread, outside, settle}
use sane_airscan.Device.Events.Drift.{Drift, Drift-trans, set_status-Drift}
use sane_airscan.Device.Events.Whole.{SysInv, cancel_req-SysInv, end_read-SysInv, status-SysInv}
use sane_airscan.Device.Events.Reading.{
  ReadInv, drift-ReadInv, IsQuiet, quiet-ReadInv, if-ReadInv, rest-ReadInv,
}

-- Both invariants.
pub record BothInv (p : Proto) (dev : Device) (t : Thread) : Type 0 where
  pub sys : SysInv p dev t
  pub reader : ReadInv dev t

-- Where a call stands, after no failed assertion.
pub data CallKept (p : Proto) : Option Started → Type 0 where
  call_kept : {r : Started} → BothInv p (settle r).dev (settle r).thread → CallKept p (some r)

pub if-CallKept :
    (p : Proto) (b : Bool) (x y : Option Started)
    → (b ≡ true → CallKept p x)
    → (b ≡ false → CallKept p y)
    → CallKept p (if b then x else y)
if-CallKept p true x y v w = v refl
if-CallKept p false x y v w = w refl

-- A call that has returned.
abbrev pub Back : Proto → Started → Type 0
Back p r = BothInv p (settle r).dev (settle r).thread

pub if-Back :
    (p : Proto) (b : Bool) (x y : Started)
    → (b ≡ true → Back p x)
    → (b ≡ false → Back p y)
    → Back p (if b then x else y)
if-Back p true x y v w = v refl
if-Back p false x y v w = w refl

end_read-ReadInv :
    (dev : Device) (st : Status) → ReadInv dev outside → ReadInv (read_end dev st) outside
unfolding read_end
end_read-ReadInv dev st v =
    let dev1 = record dev { flag_scanning = false; flag_reading = false; read_image = false } in
    let q : IsQuiet dev1 = record { decoder = v.decoder; images = v.images; still = refl } in
    if-ReadInv (same_state dev1.state done && (not (is_eof st) || is_good dev1.job_status)) _ _
      outside (rest-ReadInv dev1 q) (quiet-ReadInv dev1 q)

pub read_end-BothInv :
    (p : Proto) (dev : Device) (st : Status)
    → BothInv p dev outside
    → BothInv p (read_end dev st) outside
read_end-BothInv p dev st v = record {
  sys = end_read-SysInv p dev st v.sys;
  reader = end_read-ReadInv dev st v.reader;
}

read_done-Back :
    (p : Proto) (dev : Device) (st : Status) (copied : Bool)
    → BothInv p dev outside
    → Back p (read_done dev st copied)
unfolding read_done
read_done-Back p dev st copied v =
    if-Back p (is_good st || (is_eof st && copied)) _ _ (λ _. v) (λ _. read_end-BothInv p dev st v)

-- A request to cancel leaves the reader its things.
cancel_req-Drift : (dev : Device) → Drift dev (device_stm_cancel_req dev)
unfolding device_stm_cancel_req
cancel_req-Drift dev = elim (Bool-cases (same_state dev.state scanning)) [
  | inl y ↦ rw y (ground arith)
  | inr n ↦ rw n (ground arith)
]

pub cancel_req-ReadInv :
    (dev : Device) (t : Thread) → ReadInv dev t → ReadInv (device_stm_cancel_req dev) t
unfolding device_stm_cancel_req
cancel_req-ReadInv dev t v = elim (Bool-cases (same_state dev.state scanning)) [
  | inl y ↦ rw y (drift-ReadInv dev _ t (ground arith) refl v)
  | inr n ↦ rw n v
]

cancel_req-state :
    (dev : Device)
    → same_state dev.state idle ≡ false
    → same_state (device_stm_cancel_req dev).state idle ≡ false
unfolding device_stm_cancel_req
cancel_req-state dev h = elim (Bool-cases (same_state dev.state scanning)) [
  | inl y ↦ rw y refl
  | inr n ↦ rw n h
]

status-state :
    (dev : Device) (st : Status)
    → same_state dev.state idle ≡ false
    → same_state (device_job_set_status dev st).state idle ≡ false
status-state dev st h = let (x, q, e, n) = set_status_fields dev st in rw e h

-- The status and the cancel after an error of the decoder.
broken-BothInv :
    (p : Proto) (dev : Device)
    → same_state dev.state idle ≡ false
    → BothInv p dev outside
    → BothInv p (device_stm_cancel_req (device_job_set_status dev io_error)) outside
broken-BothInv p dev i v =
    let failed = device_job_set_status dev io_error in
    record {
      sys = cancel_req-SysInv p failed outside (status-SysInv p dev io_error v.sys);
      reader =
          drift-ReadInv dev _ outside
            (Drift-trans _ _ _ (set_status-Drift dev io_error) (cancel_req-Drift failed))
            (cancel_req-state failed (status-state dev io_error i)) v.reader;
    }

pub if-BothInv :
    (p : Proto) (b : Bool) (x y : Device)
    → BothInv p x outside
    → BothInv p y outside
    → BothInv p (if b then x else y) outside
if-BothInv p true x y v w = v
if-BothInv p false x y v w = w

pub read_lines-Back :
    (p : Proto) (d : Decoding) (dev : Device)
    → same_state dev.state idle ≡ false
    → BothInv p dev outside
    → Back p (read_lines d dev)
unfolding read_lines
read_lines-Back p d dev i v =
    read_done-Back p _ d.loop.status _
      (if-BothInv p (is_io_error d.loop.status) _ _ (broken-BothInv p dev i v) v)
