-- ===== src/Tests/Runs.antt =====
-- Runs of the whole system: a scanner without documents, and a job of one image that a decoder fails at.
use sane_airscan.Base.{◌≡◌, refl, ◌⊎◌, true, false, none, some, [], ◌∷◌}
use sane_airscan.Base.Int.{◌+ℤ◌, ◌-ℤ◌}
use sane_airscan.Math.{math_bound, math_max}
use sane_airscan.Device.Types.{
  done, good, io_error, no_docs, op_scan, op_load, op_finish, Reply, Device,
}
use sane_airscan.Device.Job.{is_good, is_working, device_job_set_status, device_stm_state_set}
use sane_airscan.Device.Geom.{
  device_geom_compute, device_choose_format, format_bit, formats_supported,
}
use sane_airscan.Device.Client.{device_start, new_job_begin, Decoding}
use sane_airscan.Device.Stm.{
  device_stm_start_scan, device_proto_op_submit, fill_params, device_stm_op_callback,
  device_proto_op_decode, after_reply, save_result, next_op, finish_job,
}
use sane_airscan.Device.Events.{
  start_do, op_reply, dispatch, starting, loop, call_start, is_outside, act,
}
use sane_airscan.Device.Events.Reach.{Run, here, next}
use sane_airscan.Device.Events.Progress.{Pending, Leaves, Run-progress, Run-status}
use sane_airscan.Tests.Scan.{mm2px, escl, begin, begin-IsFresh, posted, sent_precheck}

start_act : act mm2px escl begin call_start ≡ some (record { dev = posted; thread = starting })
unfolding act device_start new_job_begin
start_act = refl

scan_act :
    act mm2px escl (record { dev = posted; thread = starting }) (loop start_do)
    ≡ some (record { dev = sent_precheck; thread = starting })
unfolding act dispatch device_stm_start_scan device_proto_op_submit fill_params device_geom_compute
    sane_airscan.Device.Geom.clip_geom math_bound math_max device_stm_state_set ◌+ℤ◌ ◌-ℤ◌
scan_act = refl

-- A decoder that fails at its first line.
abbrev broken : Decoding
broken = record {
  begins = true;
  loop = record {
    status = io_error;
    bytes = [];
    reader = record {
      lines = 200;
      bytes_per_line = 100;
      read_24_to_8 = false;
      read_skip_bytes = 0;
      read_line_real_wid = 100;
      read_line_end = 200;
      read_line_num = 0;
      read_line_off = 100;
      read_line_buf = [];
      read_filters = [];
    };
  };
}

-- The scanner has no documents.
abbrev refusal : Reply
refusal = record { next = op_finish; delay = 0; status = no_docs; content = none }

abbrev refused : Device
refused = record sent_precheck {
  op_queries = 0;
  job_status = no_docs;
  state = done;
  read_ready = true;
}

refuse_act :
    act mm2px escl (record { dev = sent_precheck; thread = starting }) (loop (op_reply refusal))
    ≡ some (record { dev = refused; thread = starting })
unfolding act dispatch device_stm_op_callback device_proto_op_decode after_reply save_result next_op
    finish_job device_job_set_status device_stm_state_set
refuse_act = refl

submitted : Run mm2px escl begin (record { dev = sent_precheck; thread = starting })
submitted = next (loop start_do) (next call_start here refl tt start_act) refl tt scan_act

ended : Run mm2px escl begin (record { dev = refused; thread = starting })
ended = next (loop (op_reply refusal)) submitted refl (refl, λ h. cc, tt) refuse_act

-- The job of one JPEG image: the replies to PRECHECK, SCAN and LOAD.
abbrev go_ahead : Reply
go_ahead = record { next = op_scan; delay = 0; status = good; content = none }

abbrev located : Reply
located = record { next = op_load; delay = 0; status = good; content = some (b'1' ∷ []) }

abbrev loaded : Reply
loaded = record { next = op_finish; delay = 0; status = good; content = some (0xff ∷ 0xd8 ∷ []) }

abbrev asked_scan : Device
asked_scan = record sent_precheck { op = op_scan }

abbrev asked_load : Device
asked_load = record sent_precheck { op = op_load; location = some (b'1' ∷ []) }

abbrev finished : Device
finished = record asked_load {
  op_queries = 0;
  images_received = 1;
  read_queue = (0xff ∷ 0xd8 ∷ []) ∷ [];
  read_ready = true;
  state = done;
}

abbrev to_read : Device
to_read = record finished { flag_reading = true }

Run-progress_example :
    (is_working sent_precheck.state ≡ true → Pending sent_precheck)
    × (is_outside starting ≡ false
        → Pending sent_precheck
          ⊎ Leaves mm2px escl (record { dev = sent_precheck; thread = starting }))
Run-progress_example = Run-progress (refl, refl) begin-IsFresh submitted

Run-status_example : is_good refused.job_status ≡ false
Run-status_example = Run-status (refl, refl) begin-IsFresh ended refl refl
