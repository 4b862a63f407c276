-- ===== src/Device/Stm.antt =====
-- The scan state machinery of airscan-device.c: the callbacks that the event loop runs for a device,
-- one function for each.
-- `none` is a failed assertion, at which the program stops.
pub mod Effects
use sane_airscan.Base.{
  ℕ, ◌+◌, ◌-◌, ◌%◌, ◌^◌, Bool, true, false, not, ◌&&◌, ◌||◌, Option, none, some, List, [], ◌∷◌,
  ◌++◌, ltb, ◌==◌, if◌then◌else◌,
}
use sane_airscan.Base.Int.{ℤ, pos}
use sane_airscan.Device.Types.{
  State, idle, scanning, cancel_req, cancel_delayed, cancel_sent, cancel_job_done, cancel_req_done,
  cleanup, done, Status, good, cancelled, io_error, no_mem, Op, op_none, op_precheck, op_scan,
  op_load, op_check, op_cleanup, op_finish, Source, source_platen, Bytes, Reply, Proto, ScanParams,
  Device,
}
use sane_airscan.Device.Job.{same_state, device_stm_state_set, device_job_set_status}
use sane_airscan.Device.Geom.{device_geom_compute, device_choose_format}

infixl 5 ◌>>=◌
abbrev pub ◌>>=◌ {ℓ κ} : {A : Type ℓ} {B : Type κ} → Option A → (A → Option B) → Option B
none >>= f = none
some a >>= f = f a

abbrev pub is_some {ℓ} : {A : Type ℓ} → Option A → Bool
is_some none = false
is_some (some _) = true

abbrev pub is_platen : Source → Bool
is_platen source_platen = true
is_platen _ = false

abbrev pub same_op : Op → Op → Bool
same_op op_none op_none = true
same_op op_precheck op_precheck = true
same_op op_scan op_scan = true
same_op op_load op_load = true
same_op op_check op_check = true
same_op op_cleanup op_cleanup = true
same_op op_finish op_finish = true
same_op _ _ = false

-- `func != NULL` in device_proto_op_submit.
abbrev pub has_query : Proto → Op → Bool
has_query p op_none = false
has_query p op_finish = false
has_query p op_precheck = p.precheck_query
has_query p op_scan = p.scan_query
has_query p op_load = p.load_query
has_query p op_check = p.status_query
has_query p op_cleanup = p.cleanup_query

-- `func != NULL` in device_proto_op_decode.
abbrev pub has_decode : Proto → Op → Bool
has_decode p op_none = false
has_decode p op_finish = false
has_decode p op_precheck = p.precheck_decode
has_decode p op_scan = p.scan_decode
has_decode p op_load = p.load_decode
has_decode p op_check = p.status_decode
has_decode p op_cleanup = true

unfoldable pub device_proto_op_submit : Proto → Device → Op → Option Device
device_proto_op_submit p dev op =
    if has_query p op then some (record dev { op = op; op_queries = dev.op_queries + 1 }) else none

abbrev pub device_proto_dummy_decode : Reply
device_proto_dummy_decode = record { next = op_finish; delay = 0; status = good; content = none }

-- `reply` is what the decoder of the protocol returns; it is not asked for CLEANUP.
unfoldable pub device_proto_op_decode : Proto → Device → Reply → Option (Reply × Device)
device_proto_op_decode p dev reply =
    if has_decode p dev.op
    then (let result = if same_op dev.op op_cleanup then device_proto_dummy_decode else reply in
        some (
          result,
          record dev {
            failed_op = if same_op result.next op_check then dev.op else dev.failed_op;
            failed_attempt =
                if same_op dev.op op_check then dev.failed_attempt + 1 else dev.failed_attempt;
          },
        ))
    else none

-- The result is the returned flag and the device.
unfoldable pub device_stm_cancel_perform : Device → Status → Option (Bool × Device)
device_stm_cancel_perform dev0 status =
    let dev = device_job_set_status dev0 status in
    if is_some dev.location && not dev.stm_cancel_sent
    then if is_platen dev.params.src && ltb 0 dev.images_received
      then some (false, dev)
      else (let dev1 = device_stm_state_set dev cancel_sent in
          if dev1.cancel_query
          then none
          else some (true, record dev1 { cancel_query = true; stm_cancel_sent = true }))
    else some (false, dev)

-- The callback of the CANCEL query.
unfoldable pub device_stm_cancel_callback : Device → Device
device_stm_cancel_callback dev0 =
    let dev = record dev0 { cancel_query = false } in
    if same_state dev.state cancel_job_done
    then device_stm_state_set dev done
    else device_stm_state_set dev cancel_req_done

unfoldable pub device_stm_cancel_event_callback : Device → Option Device
device_stm_cancel_event_callback dev = do
  (ok, dev1) ← device_stm_cancel_perform dev cancelled
  if ok then some dev1 else some (device_stm_state_set dev1 cancel_delayed)

-- The compare-and-exchange and the trigger.
unfoldable pub device_stm_cancel_req : Device → Device
device_stm_cancel_req dev =
    if same_state dev.state scanning
    then record dev { state = cancel_req; cancel_event = true }
    else dev

unfoldable pub device_stm_timer_callback : Proto → Device → Option Device
device_stm_timer_callback p dev = device_proto_op_submit p (record dev { timer = false }) dev.op

-- The pointer of the reply, taken by the operation that was asked for.
unfoldable pub save_result : Device → Op → Option Bytes → Device
save_result dev op_scan (some l) = record dev { location = some l; failed_attempt = 0 }
save_result dev op_load (some image) = record dev {
  read_queue = dev.read_queue ++ image ∷ [];
  images_received = (dev.images_received + 1) % 2 ^ 32;
  read_ready = true;
  failed_attempt = 0;
}
save_result dev _ _ = dev

-- What follows the reply, after the check for a sent CANCEL.
unfoldable pub next_op : Device → Reply → Op
next_op dev result =
    if dev.stm_cancel_sent && (same_op result.next op_cleanup || same_op dev.op op_check)
    then op_finish
    else result.next

unfoldable pub finish_job : Device → Device
finish_job dev0 =
    let dev = if dev0.images_received == 0 then device_job_set_status dev0 io_error else dev0 in
    if same_state dev.state cancel_sent
    then device_stm_state_set dev cancel_job_done
    else device_stm_state_set dev done

-- Handles the delay, or submits the next operation.
unfoldable pub go_on : Proto → Device → Op → ℕ → Option Device
go_on p dev next delay =
    if not (delay == 0)
    then if dev.timer then none else some (record dev { timer = true; op = next })
    else device_proto_op_submit p dev next

-- Handles a delayed cancel, and goes on.
unfoldable pub delayed_cancel : Proto → Device → Op → ℕ → Option Device
delayed_cancel p dev next delay =
    if same_state dev.state cancel_delayed
    then (do
      (ok, dev1) ← device_stm_cancel_perform dev cancelled
      if ok then go_on p dev1 next delay else some (device_stm_state_set dev1 done))
    else go_on p dev next delay

-- The callback behind the decoder.
unfoldable pub after_reply : Proto → Device → Reply → Option Device
after_reply p dev1 result =
    let dev2 = device_job_set_status (save_result dev1 dev1.op result.content) result.status in
    let next = next_op dev2 result in
    if same_op next op_finish
    then some (finish_job dev2)
    else delayed_cancel p
        (if same_op next op_cleanup then device_stm_state_set dev2 cleanup else dev2) next
        result.delay

unfoldable pub device_stm_op_callback : Proto → Device → Reply → Option Device
device_stm_op_callback p dev0 reply = do
  (result, dev1) ← device_proto_op_decode p dev0 reply
  after_reply p dev1 result

-- A transport error of an operation's query. The flag says that memory ran out.
unfoldable pub device_http_onerror : Device → Bool → Option Device
device_http_onerror dev enomem = do
  (ok, dev1) ← device_stm_cancel_perform dev (if enomem then no_mem else io_error)
  if ok
      then some (device_stm_state_set dev1 cancel_job_done)
      else some (device_stm_state_set dev1 done)

-- The window and the scan parameters of a new job. `mm2px` is math_mm2px_res.
unfoldable pub fill_params : (ℤ → ℤ → ℤ) → Device → Device
fill_params mm2px dev =
    let opt = dev.opt in
    let x =
      device_geom_compute mm2px opt.tl_x opt.br_x opt.min_wid_px opt.max_wid_px opt.resolution
        opt.units in
    let y =
      device_geom_compute mm2px opt.tl_y opt.br_y opt.min_hei_px opt.max_hei_px opt.resolution
        opt.units in
    record dev {
      job_skip_x = x.skip;
      job_skip_y = y.skip;
      params = record {
        x_off = x.off;
        y_off = y.off;
        wid = x.len;
        hei = y.len;
        x_res = opt.resolution;
        y_res = opt.resolution;
        src = opt.src;
        format = device_choose_format opt.formats;
      };
    }

-- Posted by device_start_new_job, through device_start_do.
unfoldable pub device_stm_start_scan : (ℤ → ℤ → ℤ) → Proto → Device → Option Device
device_stm_start_scan mm2px p dev =
    device_proto_op_submit p (device_stm_state_set (fill_params mm2px dev) scanning)
      (if p.precheck_query then op_precheck else op_scan)
