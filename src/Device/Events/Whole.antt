-- ===== src/Device/Events/Whole.antt =====
-- The invariant of the whole system, the device with the thread of its client, and the simple changes
-- of the device that keep it.
use sane_airscan.Base.{
  ◌≡◌, refl, inl, inr, Bool, true, false, not, ◌&&◌, Option, none, some, if◌then◌else◌, arith,
  Bool-cases,
}
use sane_airscan.Device.Types.{State, idle, scanning, cancel_req, done, Status, Proto, Device}
use sane_airscan.Device.Job.{same_state, device_stm_state_set, device_job_set_status}
use sane_airscan.Device.Stm.Effects.{state_set_eq, set_status_fields}
use sane_airscan.Device.Stm.{device_stm_cancel_req}
use sane_airscan.Device.Client.{Started, device_cancel, read_end, new_job_begin}
use sane_airscan.Device.Events.Inv.{Inv, InvAt, Moved, Kept}
use sane_airscan.Device.Events.{
  Thread, outside, starting, syncing, reading, System, settle, on_device,
}

abbrev pub is_starting : Thread → Bool
is_starting starting = true
is_starting _ = false

abbrev pub is_syncing : Thread → Bool
is_syncing syncing = true
is_syncing _ = false

abbrev pub is_reading : Thread → Bool
is_reading reading = true
is_reading _ = false

pub record SysInv (p : Proto) (dev : Device) (thread : Thread) : Type 0 where
  pub inv : Inv p dev
  pub posted_by : dev.start_call ≡ true → is_starting thread ≡ true
  pub starts : is_starting thread ≡ true → same_state dev.state idle ≡ true → dev.start_call ≡ true
  pub syncs : is_syncing thread ≡ true → same_state dev.state idle ≡ false

abbrev pub SysKept : Proto → Option System → Type 0
SysKept p none = ⊥
SysKept p (some s) = SysInv p s.dev s.thread

abbrev pub SettleKept : Proto → Option Started → Type 0
SettleKept p none = ⊥
SettleKept p (some r) = SysInv p (settle r).dev (settle r).thread

pub Moved-SysInv : (p : Proto) (dev : Device) (t : Thread) → Moved p dev → SysInv p dev t
Moved-SysInv p dev t (v, m) = record {
  inv = v;
  posted_by = λ c. ground (arith, v.posted c);
  starts = λ _ i. ground arith;
  syncs = λ _. m;
}

pub loop-SysKept :
    (p : Proto) (s : System) (out : Option Device) → Kept p out → SysKept p (on_device s out)
loop-SysKept p s none k = elim k [ ]
loop-SysKept p s (some dev) k = Moved-SysInv p dev s.thread k

-- A new job is posted only for an idle device.
begin-InvAt :
    (p : Proto) (dev : Device) (s : State)
    → same_state s idle ≡ true
    → InvAt p dev s
    → InvAt p (new_job_begin dev) s
unfolding new_job_begin
begin-InvAt p dev idle i v = ground arith
begin-InvAt p dev _ i v = cc

pub begin-SysInv :
    (p : Proto) (dev : Device)
    → same_state dev.state idle ≡ true
    → Inv p dev
    → SysInv p (new_job_begin dev) starting
unfolding new_job_begin
begin-SysInv p dev i v = record {
  inv = begin-InvAt p dev dev.state i v;
  posted_by = λ _. refl;
  starts = λ _ _. refl;
  syncs = λ h. cc;
}

-- DONE becomes IDLE.
pub idle-InvAt :
    (p : Proto) (dev : Device) (s : State) (r : Bool)
    → same_state s done ≡ true
    → InvAt p dev s
    → InvAt p (record dev { state = idle; read_ready = r }) idle
idle-InvAt p dev done r i v = ground arith
idle-InvAt p dev _ r i v = cc

-- A device that is not idle has no start posted.
pub not_posted :
    (p : Proto) (dev : Device)
    → Inv p dev
    → same_state dev.state idle ≡ false
    → dev.start_call ≡ false
not_posted p dev v h = ground (arith, v.posted)

req-InvAt :
    (p : Proto) (dev : Device) (s : State)
    → same_state s scanning ≡ true
    → InvAt p dev s
    → InvAt p (record dev { state = cancel_req; cancel_event = true }) cancel_req
req-InvAt p dev scanning i v = ground arith
req-InvAt p dev _ i v = cc

scanning-not-idle : (s : State) → same_state s scanning ≡ true → same_state s idle ≡ false
scanning-not-idle scanning h = refl
scanning-not-idle _ h = cc

pub cancel_req-SysInv :
    (p : Proto) (dev : Device) (t : Thread)
    → SysInv p dev t
    → SysInv p (device_stm_cancel_req dev) t
unfolding device_stm_cancel_req
cancel_req-SysInv p dev t v = elim (Bool-cases (same_state dev.state scanning)) [
  | inl y ↦ rw y (record {
    inv = req-InvAt p dev dev.state y v.inv;
    posted_by = v.posted_by;
    starts = λ _ h. cc;
    syncs = λ _. refl;
  })
  | inr n ↦ rw n v
]

pub cancel-SysInv :
    (p : Proto) (dev : Device) (t : Thread) → SysInv p dev t → SysInv p (device_cancel dev) t
unfolding device_cancel
cancel-SysInv p dev t v = elim (Bool-cases (not dev.flag_scanning)) [
  | inl y ↦ rw y v
  | inr n ↦ rw n (cancel_req-SysInv p dev t v)
]

-- Outside of the calls the flags and what the reader uses do not matter.
pub outside-SysInv :
    (p : Proto) (dev : Device) → Inv p dev → dev.start_call ≡ false → SysInv p dev outside
outside-SysInv p dev v h = record {
  inv = v;
  posted_by = λ c. cc;
  starts = λ c. cc;
  syncs = λ c. cc;
}

-- The device goes back to IDLE where it is done.
release-SysInv :
    (p : Proto) (dev : Device) (b : Bool)
    → Inv p dev
    → dev.start_call ≡ false
    → SysInv p
        (if same_state dev.state done && b then device_stm_state_set dev idle else dev)
        outside
release-SysInv p dev b v c = elim (Bool-cases (same_state dev.state done && b)) [
  | inl y ↦
      let (r, e) = state_set_eq dev idle in
      rw (y, e) (outside-SysInv p _ (idle-InvAt p dev dev.state r (ground arith) v) c)
  | inr n ↦ rw n (outside-SysInv p dev v c)
]

pub end_read-SysInv :
    (p : Proto) (dev : Device) (st : Status)
    → SysInv p dev outside
    → SysInv p (read_end dev st) outside
unfolding read_end
end_read-SysInv p dev st v =
    release-SysInv p
      (record dev { flag_scanning = false; flag_reading = false; read_image = false }) _
      (ground (arith, v.inv)) (ground (arith, v.posted_by))

-- A call of device_read that waits.
pub reading-SysInv : (p : Proto) (dev : Device) → SysInv p dev outside → SysInv p dev reading
reading-SysInv p dev v = record {
  inv = v.inv;
  posted_by = λ c. ground (arith, v.posted_by);
  starts = λ c. cc;
  syncs = λ c. cc;
}

pub outside_again-SysInv : (p : Proto) (dev : Device) → SysInv p dev reading → SysInv p dev outside
outside_again-SysInv p dev v = record {
  inv = v.inv;
  posted_by = λ c. ground (arith, v.posted_by);
  starts = λ c. cc;
  syncs = λ c. cc;
}

-- A job status does not touch what the state machine goes by.
pub status-SysInv :
    (p : Proto) (dev : Device) (st : Status)
    → SysInv p dev outside
    → SysInv p (device_job_set_status dev st) outside
status-SysInv p dev st v =
    let (x, q, e, n) = set_status_fields dev st in
    rw e (outside-SysInv p _ (ground (arith, v.inv)) (ground (arith, v.posted_by)))
