-- ===== src/Tests/Scan.antt =====
-- The scan state machinery at concrete devices.
use sane_airscan.Base.{◌≡◌, refl, true, false, none, some, [], ◌∷◌, arith}
use sane_airscan.Base.Int.{ℤ, pos}
use sane_airscan.Device.Types.{
  idle, scanning, cancel_req, cancel_sent, done, good, cancelled, io_error, jammed, op_none,
  op_precheck, op_scan, op_load, source_adf_simplex, format_unknown, format_jpeg, Proto, Options,
  Device,
}
use sane_airscan.Device.Job.Final.{report_all, final_status, job_status_lem}
use sane_airscan.Device.Geom.{device_geom_compute, device_choose_format}
use sane_airscan.Device.Geom.Window.{FitsWindow, geom_window}
use sane_airscan.Device.Events.{op_error, cancel_reply, cancel_fired, dispatch, System, outside}
use sane_airscan.Device.Events.Reach.{IsFresh}
use sane_airscan.Device.Events.Races.{IsStuck, error_during_cancel, error_before_cancel}

-- A stand-in for the conversion: as many pixels as millimeters.
abbrev pub mm2px : ℤ → ℤ → ℤ
mm2px x units = x

-- The operations of eSCL.
abbrev pub escl : Proto
escl = record {
  precheck_query = true;
  scan_query = true;
  load_query = true;
  status_query = true;
  cleanup_query = true;
  precheck_decode = true;
  scan_decode = true;
  load_decode = true;
  status_decode = true;
}

abbrev options : Options
options = record {
  tl_x = pos 0;
  tl_y = pos 0;
  br_x = pos 100;
  br_y = pos 200;
  resolution = pos 300;
  units = pos 300;
  src = source_adf_simplex;
  formats = 5;
  min_wid_px = pos 1;
  max_wid_px = pos 2550;
  min_hei_px = pos 1;
  max_hei_px = pos 3300;
  lines = pos 200;
  pixels_per_line = pos 100;
}

abbrev pub at_rest : Device
at_rest = record {
  state = idle;
  flag_scanning = false;
  flag_reading = false;
  opt = options;
  job_status = good;
  job_skip_x = pos 0;
  job_skip_y = pos 0;
  stm_cancel_sent = false;
  params = record {
    x_off = pos 0;
    y_off = pos 0;
    wid = pos 0;
    hei = pos 0;
    x_res = pos 0;
    y_res = pos 0;
    src = source_adf_simplex;
    format = format_unknown;
  };
  op = op_none;
  location = none;
  images_received = 0;
  failed_op = op_none;
  failed_attempt = 0;
  format_detected = format_jpeg;
  read_image = false;
  read_queue = [];
  read_ready = false;
  read_non_blocking = false;
  op_queries = 0;
  cancel_query = false;
  timer = false;
  cancel_event = false;
  start_call = false;
}

abbrev pub begin : System
begin = record { dev = at_rest; thread = outside }

pub begin-IsFresh : IsFresh begin
begin-IsFresh = record {
  is_idle = refl;
  is_out = refl;
  no_job = refl;
  no_timer = refl;
  no_cancel = refl;
  no_event = refl;
  no_start = refl;
  not_read = refl;
  no_images = refl;
  decoder = refl;
}

-- The device after device_start, and after the PRECHECK has been submitted.
abbrev pub posted : Device
posted = record at_rest { flag_scanning = true; start_call = true }

abbrev pub sent_precheck : Device
sent_precheck = record posted {
  start_call = false;
  state = scanning;
  params = record {
    x_off = pos 0;
    y_off = pos 0;
    wid = pos 100;
    hei = pos 200;
    x_res = pos 300;
    y_res = pos 300;
    src = source_adf_simplex;
    format = device_choose_format 5;
  };
  op = op_precheck;
  op_queries = 1;
}

-- A job that loads an image while its CANCEL is in flight.
abbrev cancelling : Device
cancelling = record sent_precheck {
  state = cancel_sent;
  op = op_load;
  location = some [];
  job_status = cancelled;
  stm_cancel_sent = true;
  cancel_query = true;
}

error_during_cancel_example :
    (d1 d2 : Device) × (dispatch mm2px escl cancelling (op_error false) ≡ some d1)
    × (d1.state ≡ done)
    × (dispatch mm2px escl d1 cancel_reply ≡ some d2)
    × IsStuck d2
error_during_cancel_example = error_during_cancel mm2px escl cancelling false (record {
  at = refl;
  was_sent = refl;
  in_flight = refl;
  one_query = refl;
  no_timer = refl;
  no_event = refl;
  no_start = refl;
})

-- A client cancels before the reply to the SCAN.
abbrev requested : Device
requested = record sent_precheck { op = op_scan; state = cancel_req; cancel_event = true }

error_before_cancel_example :
    (d1 d2 : Device) × (dispatch mm2px escl requested (op_error false) ≡ some d1)
    × (d1.state ≡ done)
    × (dispatch mm2px escl d1 cancel_fired ≡ some d2)
    × IsStuck d2
error_before_cancel_example = error_before_cancel mm2px escl requested false (record {
  at = refl;
  no_location = refl;
  not_in_flight = refl;
  one_query = refl;
  no_timer = refl;
  has_event = refl;
  no_start = refl;
})

job_status_lem_example :
    (report_all at_rest (good ∷ jammed ∷ io_error ∷ cancelled ∷ [])).job_status
    ≡ final_status good (good ∷ jammed ∷ io_error ∷ cancelled ∷ [])
job_status_lem_example = job_status_lem at_rest (good ∷ jammed ∷ io_error ∷ cancelled ∷ [])

geom_window_example :
    FitsWindow
      (pos 90)
      (pos 1)
      (pos 100)
      (pos 300)
      (pos 300)
      (device_geom_compute mm2px (pos 90) (pos 120) (pos 1) (pos 100) (pos 300) (pos 300))
geom_window_example =
    geom_window mm2px (pos 90) (pos 120) (pos 1) (pos 100) (pos 300) (pos 300) (omega arith)
      (omega arith) (omega arith)
