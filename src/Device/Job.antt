-- ===== src/Device/Job.antt =====
-- device_job_set_status, and the state of the state machine that it goes by.
pub mod Final
use sane_airscan.Base.{ℕ, Bool, true, false, not, ◌&&◌, List, [], ltb, if◌then◌else◌}
use sane_airscan.Device.Types.{
  State, opened, probing, probing_failed, idle, scanning, cancel_req, cancel_delayed, cancel_sent,
  cancel_job_done, cancel_req_done, cleanup, done, closed, Status, good, cancelled, Device,
}

-- The number of the enumerator.
abbrev pub state_number : State → ℕ
state_number opened = 0
state_number probing = 1
state_number probing_failed = 2
state_number idle = 3
state_number scanning = 4
state_number cancel_req = 5
state_number cancel_delayed = 6
state_number cancel_sent = 7
state_number cancel_job_done = 8
state_number cancel_req_done = 9
state_number cleanup = 10
state_number done = 11
state_number closed = 12

abbrev pub is_working : State → Bool
is_working s = ltb (state_number idle) (state_number s) && ltb (state_number s) (state_number done)

abbrev pub same_state : State → State → Bool
same_state idle idle = true
same_state scanning scanning = true
same_state cancel_req cancel_req = true
same_state cancel_delayed cancel_delayed = true
same_state cancel_sent cancel_sent = true
same_state cancel_job_done cancel_job_done = true
same_state cancel_req_done cancel_req_done = true
same_state cleanup cleanup = true
same_state done done = true
same_state opened opened = true
same_state probing probing = true
same_state probing_failed probing_failed = true
same_state closed closed = true
same_state _ _ = false

abbrev pub is_good : Status → Bool
is_good good = true
is_good _ = false

unfoldable pub device_stm_state_working : Device → Bool
device_stm_state_working dev = is_working dev.state

-- The condition variable is not a part of the state: a waiting thread looks at the device again.
unfoldable pub device_stm_state_set : Device → State → Device
device_stm_state_set dev state =
    if same_state dev.state state
    then dev
    else if not (is_working state)
    then record dev { state = state; read_ready = true }
    else record dev { state = state }

-- `dev->job_status` after the assignment, with the queue purged by a cancel.
store_status : Device → Status → Device
store_status dev good = dev
store_status dev cancelled = elim dev.job_status [
  | cancelled ↦ dev
  | _ ↦ record dev { job_status = cancelled; read_queue = [] }
]
store_status dev status = if is_good dev.job_status then record dev { job_status = status } else dev

unfoldable pub device_job_set_status : Device → Status → Device
unfolding store_status
device_job_set_status dev status = store_status dev status
