-- ===== src/Device/Client.antt =====
-- The calls of a client: device_start, device_read, device_cancel, device_set_io_mode,
-- device_set_option and device_close. A call that waits on the condition variable is cut at
-- the wait, and the rest of it is a function of its own.
use sane_airscan.Base.{
  Bool, true, false, not, ◌&&◌, ◌||◌, Option, none, some, List, [], ◌∷◌, if◌then◌else◌,
}
use sane_airscan.Base.Int.{pos, eqb_ℤ}
use sane_airscan.Device.Types.{
  State, idle, scanning, done, closed, Status, good, cancelled, inval, eof, io_error, op_none,
  Bytes, Options, Device,
}
use sane_airscan.Device.Job.{
  same_state, is_good, device_stm_state_set, device_stm_state_working, device_job_set_status,
}
use sane_airscan.Device.Stm.{is_some, device_stm_cancel_req}
use sane_airscan.Device.Image.{image_format_detect, has_decoder}
use sane_airscan.Device.Read.Lines.{Copied}

-- Where device_start or device_read stands: it has returned, or waits for a new job in
-- device_start_wait, or for the previous job, or for an image.
pub data Started : Type 0 where
  returned : Status → Device → Started
  in_start_wait : Device → Started
  in_sync : Device → Started
  in_read : Device → Started

abbrev pub is_cancelled : Status → Bool
is_cancelled cancelled = true
is_cancelled _ = false

abbrev pub is_eof : Status → Bool
is_eof eof = true
is_eof _ = false

abbrev pub is_empty {ℓ} : {A : Type ℓ} → List A → Bool
is_empty [] = true
is_empty (_ ∷ _) = false

-- One turn of the loop of device_start_wait; `none` is a further wait.
unfoldable pub start_wait_test : Device → State → Option Status
start_wait_test dev idle = none
start_wait_test dev scanning = if is_some dev.location then some good else none
start_wait_test dev done = some dev.job_status
start_wait_test dev _ = some good

-- device_start_new_job up to the wait. The pause between retries takes time and nothing else.
unfoldable pub new_job_begin : Device → Device
new_job_begin dev = record dev {
  stm_cancel_sent = false;
  job_status = good;
  location = none;
  failed_op = op_none;
  failed_attempt = 0;
  images_received = 0;
  start_call = true;
}

-- device_start_new_job behind the wait.
unfoldable pub new_job_end : Device → Status → Device
new_job_end dev status =
    if is_good status
    then record dev { flag_reading = true }
    else (let dev1 = record dev { flag_scanning = false } in
        if same_state dev1.state done then device_stm_state_set dev1 idle else dev1)

-- A waiting device_start_new_job looks at the device.
unfoldable pub start_wait_resume : Device → Started
start_wait_resume dev = elim (start_wait_test dev dev.state) [
  | none ↦ in_start_wait dev
  | some status ↦ returned status (new_job_end dev status)
]

-- A waiting device_start looks at the device. `none` is a failed assertion.
unfoldable pub sync_resume : Device → Option Started
sync_resume dev =
    if device_stm_state_working dev && is_empty dev.read_queue
    then some (in_sync dev)
    else if not (is_empty dev.read_queue)
    then some (returned good (record dev { flag_reading = true; read_ready = true }))
    else if not (same_state dev.state done)
    then none
    else (let dev1 = device_stm_state_set dev idle in
        if not (is_good dev1.job_status) && not (is_cancelled dev1.job_status)
        then some (returned dev1.job_status (record dev1 { flag_scanning = false }))
        else some (in_start_wait (new_job_begin dev1)))

unfoldable pub device_start : Device → Option Started
device_start dev =
    if dev.flag_scanning
    then some (returned inval dev)
    else if eqb_ℤ dev.opt.lines (pos 0) || eqb_ℤ dev.opt.pixels_per_line (pos 0)
    then some (returned inval dev)
    else (let dev1 = record dev {
      flag_scanning = true;
      read_ready = false;
      read_non_blocking = false;
    } in
        if same_state dev1.state idle
        then some (in_start_wait (new_job_begin dev1))
        else sync_resume dev1)

unfoldable pub device_cancel : Device → Device
device_cancel dev = if not dev.flag_scanning then dev else device_stm_cancel_req dev

unfoldable pub device_set_io_mode : Device → Bool → Status × Device
device_set_io_mode dev non_blocking =
    if not dev.flag_scanning
    then (inval, dev)
    else (good, record dev { read_non_blocking = non_blocking })

-- `options` are those that devopt_set_option leaves.
unfoldable pub device_set_option : Device → Options → Device
device_set_option dev options = if dev.flag_scanning then dev else record dev { opt = options }

-- device_read behind its label DONE, with a status that is not GOOD.
unfoldable pub read_end : Device → Status → Device
read_end dev status =
    let dev1 = record dev { flag_scanning = false; flag_reading = false; read_image = false } in
    if same_state dev1.state done && (not (is_eof status) || is_good dev1.job_status)
    then device_stm_state_set dev1 idle
    else dev1

-- What the decoder of an image makes of it in a call of device_read: whether the rest of
-- device_read_next succeeds, behind the choice of the decoder, and what the loop comes to.
pub record Decoding : Type 0 where
  pub begins : Bool
  pub loop : Copied

-- device_read behind its label DONE.
unfoldable pub read_done : Device → Status → Bool → Started
unfolding read_end
read_done dev status copied =
    if is_good status || (is_eof status && copied)
    then returned good dev
    else returned status (read_end dev status)

abbrev pub is_io_error : Status → Bool
is_io_error io_error = true
is_io_error _ = false

-- The loop of device_read and what follows it.
unfoldable pub read_lines : Decoding → Device → Started
unfolding read_done
read_lines d dev =
    read_done
      (if is_io_error d.loop.status
        then device_stm_cancel_req (device_job_set_status dev io_error)
        else dev)
      d.loop.status (not (is_empty d.loop.bytes))

-- device_read_next with an image `image`, that leaves `queue`, and what follows in device_read.
unfoldable pub read_image_next : Decoding → Device → Bytes → List Bytes → Started
unfolding read_lines
read_image_next d dev image queue =
    let dev1 = record dev { read_queue = queue; format_detected = image_format_detect image } in
    if has_decoder dev1.format_detected && d.begins
    then read_lines d (record dev1 { read_image = true; read_ready = true })
    else returned io_error (read_end dev1 io_error)

-- The image is pulled off the queue, or the status of the job is the result; `none` is a failed
-- assertion.
unfoldable pub read_pull : Decoding → Device → List Bytes → Option Started
unfolding read_image_next
read_pull d dev [] =
    if is_good dev.job_status
    then none
    else some (returned dev.job_status (read_end dev dev.job_status))
read_pull d dev (image ∷ queue) = some (read_image_next d dev image queue)

-- A device_read without an image looks at the device, at first or after a wait.
unfoldable pub read_resume : Decoding → Device → Option Started
unfolding read_pull
read_resume d dev =
    if device_stm_state_working dev && is_empty dev.read_queue
    then if dev.read_non_blocking then some (returned good dev) else some (in_read dev)
    else if is_cancelled dev.job_status
    then some (returned cancelled (read_end dev cancelled))
    else read_pull d dev dev.read_queue

-- The pointers of the arguments are not NULL.
unfoldable pub device_read : Decoding → Device → Option Started
unfolding read_resume
device_read d dev =
    if not (has_decoder dev.format_detected)
    then none
    else if not dev.flag_reading
    then some (returned inval dev)
    else if dev.read_image
    then some (read_lines d dev)
    else read_resume d dev

-- device_close up to its wait, and behind it.
unfoldable pub close_begin : Device → Device
close_begin dev = if device_stm_state_working dev then device_stm_cancel_req dev else dev

unfoldable pub close_end : Device → Device
close_end dev = device_stm_state_set dev closed
