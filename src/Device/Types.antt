-- ===== src/Device/Types.antt =====
-- The data of airscan-device.c: states, statuses, operations, and the device itself with what is
-- pending for it in the event loop.
use sane_airscan.Base.{ℕ, Bool, List, Option}
use sane_airscan.Base.Int.{ℤ}

-- DEVICE_STM_STATE, in the source's order.
pub data State : Type 0 where
  opened probing probing_failed idle scanning cancel_req cancel_delayed : State
  cancel_sent cancel_job_done cancel_req_done cleanup done closed : State

-- SANE_Status.
pub data Status : Type 0 where
  good unsupported cancelled device_busy inval eof jammed no_docs : Status
  cover_open io_error no_mem access_denied : Status

-- PROTO_OP. The source's PROTO_OP_NONE is `op_none`.
pub data Op : Type 0 where
  op_none op_precheck op_scan op_load op_check op_cleanup op_finish : Op

-- ID_SOURCE and ID_FORMAT.
pub data Source : Type 0 where
  source_unknown source_platen source_adf_simplex source_adf_duplex : Source

pub data Format : Type 0 where
  format_unknown format_jpeg format_tiff format_png format_pdf format_bmp : Format

abbrev pub Bytes : Type 0
Bytes = List ℕ

-- proto_result. The union of the two pointers is one pointer, `none` if it is NULL; the error
-- text is only logged.
pub record Reply : Type 0 where
  pub next : Op
  pub delay : ℕ
  pub status : Status
  pub content : Option Bytes

-- Which pointers of a proto_handler are not NULL.
pub record Proto : Type 0 where
  pub precheck_query : Bool
  pub scan_query : Bool
  pub load_query : Bool
  pub status_query : Bool
  pub cleanup_query : Bool
  pub precheck_decode : Bool
  pub scan_decode : Bool
  pub load_decode : Bool
  pub status_decode : Bool

-- proto_scan_params, without the color mode, which is only passed on.
pub record ScanParams : Type 0 where
  pub x_off : ℤ
  pub y_off : ℤ
  pub wid : ℤ
  pub hei : ℤ
  pub x_res : ℤ
  pub y_res : ℤ
  pub src : Source
  pub format : Format

-- What device_stm_start_scan and device_start read of devopt and of the chosen devcaps_source.
pub record Options : Type 0 where
  pub tl_x : ℤ
  pub tl_y : ℤ
  pub br_x : ℤ
  pub br_y : ℤ
  pub resolution : ℤ
  pub units : ℤ
  pub src : Source
  pub formats : ℕ
  pub min_wid_px : ℤ
  pub max_wid_px : ℤ
  pub min_hei_px : ℤ
  pub max_hei_px : ℤ
  pub lines : ℤ
  pub pixels_per_line : ℤ

-- struct device and its proto_ctx. `read_image` is `true` if the pointer is not NULL. The last five fields are what the event loop holds for the
-- device: queries of operations in flight, the two pointers `stm_cancel_query` and `stm_timer`
-- (`true` if not NULL), the triggered `stm_cancel_event`, and a posted call of device_start_do.
pub record Device : Type 0 where
  pub state : State
  pub flag_scanning : Bool
  pub flag_reading : Bool
  pub opt : Options
  pub job_status : Status
  pub job_skip_x : ℤ
  pub job_skip_y : ℤ
  pub stm_cancel_sent : Bool
  pub params : ScanParams
  pub op : Op
  pub location : Option Bytes
  pub images_received : ℕ
  pub failed_op : Op
  pub failed_attempt : ℕ
  pub format_detected : Format
  pub read_image : Bool
  pub read_queue : List Bytes
  pub read_ready : Bool
  pub read_non_blocking : Bool
  pub op_queries : ℕ
  pub cancel_query : Bool
  pub timer : Bool
  pub cancel_event : Bool
  pub start_call : Bool
