-- ===== src/Device/Events/Starts.antt =====
-- device_start against the invariant of the reader.
use sane_airscan.Base.{
  ◌≡◌, refl, inl, inr, Bool, true, false, not, ◌&&◌, ◌||◌, Option, none, some, if◌then◌else◌, arith,
  Bool-cases,
}
use sane_airscan.Base.Int.{pos, eqb_ℤ}
use sane_airscan.Device.Types.{idle, done, Status, Device}
use sane_airscan.Device.Job.{same_state, is_good, device_stm_state_set, device_stm_state_working}
use sane_airscan.Device.Client.{
  Started, returned, in_start_wait, device_start, start_wait_resume, start_wait_test, sync_resume,
  new_job_begin, new_job_end, is_empty, is_cancelled,
}
use sane_airscan.Device.Events.{outside, starting, syncing, settle}
use sane_airscan.Device.Events.Drift.{state_set-Drift}
use sane_airscan.Device.Events.Calls.{wait_test-idle}
use sane_airscan.Device.Events.Reading.{
  ReadInv, IsQuiet, quiet-ReadInv, Drift-IsQuiet, if-ReadInv, rest-ReadInv,
}

begin-ReadInv :
    (dev : Device) → IsQuiet dev → dev.flag_scanning ≡ true → ReadInv (new_job_begin dev) starting
unfolding new_job_begin
begin-ReadInv dev q s = record {
  decoder = q.decoder;
  images = q.images;
  fed = λ h. ground arith;
  busy = λ h. ground (arith, q.still);
  scans = λ _. s;
  calls = λ _. s;
  starts = λ _. q.still;
  waits = λ h. cc;
}

new_job_end-ReadInv :
    (dev : Device) (st : Status)
    → same_state dev.state idle ≡ false
    → ReadInv dev starting
    → ReadInv (new_job_end dev st) outside
unfolding new_job_end
new_job_end-ReadInv dev st i v =
    let still = v.starts refl in
    let scans = v.calls refl in
    let dev1 = record dev { flag_scanning = false } in
    let quiet : IsQuiet dev1 = record { decoder = v.decoder; images = v.images; still = still } in
    if-ReadInv (is_good st) _ _ outside
      (record {
        decoder = v.decoder;
        images = v.images;
        fed = λ h. v.fed (ground arith);
        busy = λ _. i;
        scans = λ _. scans;
        calls = λ h. cc;
        starts = λ h. cc;
        waits = λ h. cc;
      })
      (if-ReadInv (same_state dev1.state done) _ _ outside (rest-ReadInv dev1 quiet)
        (quiet-ReadInv dev1 quiet))

-- Where a call stands.
pub data ReadKept : Option Started → Type 0 where
  read_kept : {r : Started} → ReadInv (settle r).dev (settle r).thread → ReadKept (some r)
  read_failed : ReadKept none

if-ReadKept :
    (b : Bool) (x y : Option Started)
    → ReadKept x
    → (b ≡ false → ReadKept y)
    → ReadKept (if b then x else y)
if-ReadKept true x y v w = v
if-ReadKept false x y v w = w refl

wait_read_at :
    (dev : Device) (o : Option Status)
    → start_wait_test dev dev.state ≡ o
    → ReadInv dev starting
    → let r : Started = elim o [
      | none ↦ in_start_wait dev
      | some st ↦ returned st (new_job_end dev st)
    ] in
      ReadInv (settle r).dev (settle r).thread
wait_read_at dev none e v = v
wait_read_at dev (some st) e v = elim (Bool-cases (same_state dev.state idle)) [
  | inl y ↦ cc (wait_test-idle dev dev.state y)
  | inr n ↦ new_job_end-ReadInv dev st n v
]

pub wait_resume-ReadInv :
    (dev : Device)
    → ReadInv dev starting
    → ReadInv (settle (start_wait_resume dev)).dev (settle (start_wait_resume dev)).thread
unfolding start_wait_resume
wait_resume-ReadInv dev v = wait_read_at dev _ refl v

-- device_start at a finished job.
after_job-ReadKept :
    (dev : Device)
    → IsQuiet dev
    → dev.flag_scanning ≡ true
    → ReadKept (
        if not (is_good dev.job_status) && not (is_cancelled dev.job_status)
        then some (returned dev.job_status (record dev { flag_scanning = false }))
        else some (in_start_wait (new_job_begin dev)))
after_job-ReadKept dev q s =
    if-ReadKept (not (is_good dev.job_status) && not (is_cancelled dev.job_status)) _ _
      (read_kept (
        quiet-ReadInv (record dev { flag_scanning = false })
          (record { decoder = q.decoder; images = q.images; still = q.still })))
      (λ _. read_kept (begin-ReadInv dev q s))

-- The next image of the job is there.
image-ReadInv :
    (dev : Device)
    → IsQuiet dev
    → dev.flag_scanning ≡ true
    → same_state dev.state idle ≡ false
    → is_empty dev.read_queue ≡ false
    → ReadInv (record dev { flag_reading = true; read_ready = true }) outside
image-ReadInv dev q s i full = record {
  decoder = q.decoder;
  images = q.images;
  fed = λ _. ground (arith, full);
  busy = λ _. i;
  scans = λ _. s;
  calls = λ h. cc;
  starts = λ h. cc;
  waits = λ h. cc;
}

sync-ReadInv : (dev : Device) → IsQuiet dev → dev.flag_scanning ≡ true → ReadInv dev syncing
sync-ReadInv dev q s = record {
  decoder = q.decoder;
  images = q.images;
  fed = λ h. ground (arith, q.still);
  busy = λ h. ground (arith, q.still);
  scans = λ _. s;
  calls = λ _. s;
  starts = λ _. q.still;
  waits = λ h. cc;
}

sync-ReadKept :
    (dev : Device)
    → IsQuiet dev
    → dev.flag_scanning ≡ true
    → same_state dev.state idle ≡ false
    → ReadKept (sync_resume dev)
unfolding sync_resume
sync-ReadKept dev q s i =
    let rest = device_stm_state_set dev idle in
    let d = state_set-Drift dev idle in
    if-ReadKept (device_stm_state_working dev && is_empty dev.read_queue) _ _
      (read_kept (sync-ReadInv dev q s))
      λ _. elim (Bool-cases (is_empty dev.read_queue)) [
        | inr full ↦ rw full (read_kept (image-ReadInv dev q s i full))
        | inl void ↦ rw void (
            if-ReadKept (not (same_state dev.state done)) _ _ read_failed
              (λ _. after_job-ReadKept rest (Drift-IsQuiet dev rest d q) (rw d.scans s)))
      ]

pub sync_resume-ReadKept :
    (dev : Device)
    → same_state dev.state idle ≡ false
    → ReadInv dev syncing
    → ReadKept (sync_resume dev)
sync_resume-ReadKept dev i v =
    sync-ReadKept dev (record { decoder = v.decoder; images = v.images; still = v.starts refl })
      (v.calls refl) i

pub start-ReadKept : (dev : Device) → ReadInv dev outside → ReadKept (device_start dev)
unfolding device_start
start-ReadKept dev v = if-ReadKept dev.flag_scanning _ _ (read_kept v) λ n.
    let still : dev.flag_reading ≡ false = ground (arith, v.scans) in
    let dev1 = record dev { flag_scanning = true; read_ready = false; read_non_blocking = false } in
    let q : IsQuiet dev1 = record { decoder = v.decoder; images = v.images; still = still } in
    if-ReadKept (eqb_ℤ dev.opt.lines (pos 0) || eqb_ℤ dev.opt.pixels_per_line (pos 0)) _ _
      (read_kept v)
      λ _.
        if-ReadKept (same_state dev.state idle) _ _ (read_kept (begin-ReadInv dev1 q refl))
          λ i. sync-ReadKept dev1 q refl i
