-- ===== src/Device/Job/Final.antt =====
-- The status of a job after all that its callbacks report.
use sane_airscan.Base.{◌≡◌, ◌∙◌, ap, Bool, true, false, ◌||◌, List, [], ◌∷◌, if◌then◌else◌, arith}
use sane_airscan.Device.Types.{Status, good, cancelled, Device}
use sane_airscan.Device.Job.{is_good, device_job_set_status}

abbrev is_cancel : Status → Bool
is_cancel cancelled = true
is_cancel _ = false

-- The reports of a job, in order.
pub report_all : Device → List Status → Device
report_all dev [] = dev
report_all dev (st ∷ sts) = report_all (device_job_set_status dev st) sts

pub any_cancel : List Status → Bool
any_cancel [] = false
any_cancel (st ∷ sts) = is_cancel st || any_cancel sts

pub first_error : List Status → Status
first_error [] = good
first_error (st ∷ sts) = if is_good st then first_error sts else st

-- A cancel prevails over all else; of errors the first is kept.
abbrev pub final_status : Status → List Status → Status
final_status start sts =
    if is_cancel start || any_cancel sts
    then cancelled
    else if is_good start
    then first_error sts
    else start

set_status_job :
    (dev : Device) (st : Status)
    → (device_job_set_status dev st).job_status ≡ final_status dev.job_status (st ∷ [])
unfolding device_job_set_status any_cancel first_error
set_status_job dev st = ground arith

final-cons :
    (start st : Status) (sts : List Status)
    → final_status (final_status start (st ∷ [])) sts ≡ final_status start (st ∷ sts)
unfolding any_cancel first_error
final-cons good st sts = ground arith
final-cons cancelled st sts = ground arith
final-cons _ st sts = ground arith

-- Whatever a job reports, its status is CANCELLED if a cancel is among the reports or was there
-- before, and else the first error.
pub job_status_lem :
    (dev : Device) (sts : List Status)
    → (report_all dev sts).job_status ≡ final_status dev.job_status sts
unfolding report_all
job_status_lem dev [] = nothing dev.job_status
  where
    nothing : (s : Status) → s ≡ final_status s []
    nothing s = unfold any_cancel first_error in ground arith
job_status_lem dev (st ∷ sts) =
    job_status_lem (device_job_set_status dev st) sts
    ∙ ap (λ s. final_status s sts) (set_status_job dev st)
    ∙ final-cons dev.job_status st sts
