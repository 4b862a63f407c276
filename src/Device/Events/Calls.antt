-- ===== src/Device/Events/Calls.antt =====
-- device_start against the invariant of the whole system, up to its waits and behind them.
use sane_airscan.Base.{
  ◌≡◌, refl, inl, inr, Bool, true, false, not, ◌&&◌, ◌||◌, Option, none, some, if◌then◌else◌, arith,
  Bool-cases,
}
use sane_airscan.Base.Int.{pos, eqb_ℤ}
use sane_airscan.Device.Types.{State, idle, done, Status, Proto, Device}
use sane_airscan.Device.Job.{
  same_state, is_good, is_working, device_stm_state_set, device_stm_state_working,
}
use sane_airscan.Device.Stm.Effects.{state_set_eq}
use sane_airscan.Device.Client.{
  Started, returned, in_start_wait, device_start, start_wait_resume, start_wait_test, sync_resume,
  new_job_begin, new_job_end, is_empty, is_cancelled,
}
use sane_airscan.Device.Events.Inv.{Inv, is_live}
use sane_airscan.Device.Events.{outside, starting, syncing, settle, settled}
use sane_airscan.Device.Events.Whole.{
  SysInv, SysKept, SettleKept, Moved-SysInv, begin-SysInv, idle-InvAt, not_posted, outside-SysInv,
}

release1-SysInv :
    (p : Proto) (dev : Device)
    → Inv p dev
    → dev.start_call ≡ false
    → SysInv p (if same_state dev.state done then device_stm_state_set dev idle else dev) outside
release1-SysInv p dev v c = elim (Bool-cases (same_state dev.state done)) [
  | inl y ↦
      let (r, e) = state_set_eq dev idle in
      rw (y, e) (outside-SysInv p _ (idle-InvAt p dev dev.state r y v) c)
  | inr n ↦ rw n (outside-SysInv p dev v c)
]

new_job_end-SysInv :
    (p : Proto) (dev : Device) (st : Status)
    → Inv p dev
    → dev.start_call ≡ false
    → SysInv p (new_job_end dev st) outside
unfolding new_job_end
new_job_end-SysInv p dev st v c = elim (Bool-cases (is_good st)) [
  | inl y ↦ rw y (outside-SysInv p _ (ground (arith, v)) c)
  | inr n ↦ rw n (release1-SysInv p (record dev { flag_scanning = false }) (ground (arith, v)) c)
]

pub wait_test-idle :
    (dev : Device) (s : State) → same_state s idle ≡ true → start_wait_test dev s ≡ none
unfolding start_wait_test
wait_test-idle dev idle h = refl
wait_test-idle dev _ h = cc

wait_resume_at :
    (p : Proto) (dev : Device) (o : Option Status)
    → start_wait_test dev dev.state ≡ o
    → SysInv p dev starting
    → let r : Started = elim o [
      | none ↦ in_start_wait dev
      | some st ↦ returned st (new_job_end dev st)
    ] in
      SysInv p (settle r).dev (settle r).thread
wait_resume_at p dev none e v = v
wait_resume_at p dev (some st) e v = elim (Bool-cases (same_state dev.state idle)) [
  | inl y ↦ cc (wait_test-idle dev dev.state y)
  | inr n ↦ new_job_end-SysInv p dev st v.inv (not_posted p dev v.inv n)
]

pub wait_resume-SysInv :
    (p : Proto) (dev : Device)
    → SysInv p dev starting
    → SysInv p (settle (start_wait_resume dev)).dev (settle (start_wait_resume dev)).thread
unfolding start_wait_resume
wait_resume-SysInv p dev v = wait_resume_at p dev _ refl v

-- A live device that neither works nor is idle is done: the assertion of device_start.
pub rests_done :
    (s : State)
    → is_working s ≡ false
    → same_state s idle ≡ false
    → is_live s ≡ true
    → same_state s done ≡ true
rests_done done w i l = refl
rests_done _ w i l = cc

-- device_start at a finished job.
after_job :
    (p : Proto) (dev : Device) (r : Bool)
    → Inv p dev
    → dev.start_call ≡ false
    → same_state dev.state done ≡ true
    → SettleKept p (
        let dev1 = record dev { state = idle; read_ready = r } in
        if not (is_good dev1.job_status) && not (is_cancelled dev1.job_status)
        then some (returned dev1.job_status (record dev1 { flag_scanning = false }))
        else some (in_start_wait (new_job_begin dev1)))
after_job p dev r v c d =
    elim (Bool-cases (not (is_good dev.job_status) && not (is_cancelled dev.job_status))) [
      | inl y ↦ rw y (outside-SysInv p _ (ground (arith, idle-InvAt p dev dev.state r d v)) c)
      | inr n ↦ rw n (begin-SysInv p _ refl (idle-InvAt p dev dev.state r d v))
    ]

pub sync_resume-Kept :
    (p : Proto) (dev : Device)
    → Inv p dev
    → same_state dev.state idle ≡ false
    → SettleKept p (sync_resume dev)
unfolding sync_resume device_stm_state_working
sync_resume-Kept p dev v ni = elim (Bool-cases (is_working dev.state && is_empty dev.read_queue)) [
  | inl y ↦ rw y (Moved-SysInv p dev syncing (v, ni))
  | inr n ↦ elim (Bool-cases (is_empty dev.read_queue)) [
    | inr full ↦ rw (n, full) (outside-SysInv p _ (ground (arith, v)) (not_posted p dev v ni))
    | inl void ↦
        let d : same_state dev.state done ≡ true = rests_done dev.state (ground arith) ni v.live in
        let (r, e) = state_set_eq dev idle in
        rw (n, void, d) (rw e (after_job p dev r v (not_posted p dev v ni) d))
  ]
]

pub if-Kept :
    (p : Proto) (b : Bool) (x y : Option Started)
    → SettleKept p x
    → SettleKept p y
    → SettleKept p (if b then x else y)
if-Kept p true x y k l = k
if-Kept p false x y k l = l

-- device_start behind its checks.
start_ready-Kept :
    (p : Proto) (dev : Device)
    → SysInv p dev outside
    → SettleKept p (
        if same_state dev.state idle
        then some (in_start_wait (new_job_begin dev))
        else sync_resume dev)
start_ready-Kept p dev v = elim (Bool-cases (same_state dev.state idle)) [
  | inl i ↦ rw i (begin-SysInv p dev i v.inv)
  | inr i ↦ rw i (sync_resume-Kept p dev v.inv i)
]

entered :
    (p : Proto) (dev : Device)
    → SysInv p dev outside
    → SysInv p
        (record dev { flag_scanning = true; read_ready = false; read_non_blocking = false })
        outside
entered p dev v = outside-SysInv p _ (ground (arith, v.inv)) (ground (arith, v.posted_by))

pub start-Kept : (p : Proto) (dev : Device) → SysInv p dev outside → SettleKept p (device_start dev)
unfolding device_start
start-Kept p dev v = if-Kept p dev.flag_scanning _ _ v (
    if-Kept p (eqb_ℤ dev.opt.lines (pos 0) || eqb_ℤ dev.opt.pixels_per_line (pos 0)) _ _ v
      (start_ready-Kept p _ (entered p dev v)))

pub settle-Kept : (p : Proto) (o : Option Started) → SettleKept p o → SysKept p (settled o)
settle-Kept p none k = elim k [ ]
settle-Kept p (some r) k = k
