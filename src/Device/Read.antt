-- ===== src/Device/Read.antt =====
-- The read machinery of airscan-device.c: how the window of the client is cut out of an image, and the
-- conversion of a line to gray. The line buffer is the list of its bytes, changed in place.
pub mod Gray
pub mod Buffer
pub mod Overrun
pub mod Lines
pub mod Pieces
pub mod Stream
use sane_airscan.Base.{
  ℕ, zero, suc, ◌+◌, ◌-◌, ◌*◌, ◌/◌, ◌^◌, Bool, true, false, not, ◌&&◌, ◌||◌, Option, none, some,
  List, [], ◌∷◌, get_or, set, ltb, leb, ◌==◌, if◌then◌else◌, max,
}
use sane_airscan.Device.Job.{is_good}

-- The luminance, before the shift by 24 rounds it.
unfoldable pub luma : ℕ → ℕ → ℕ → ℕ
luma r g b = (5016387 * r + 9848226 * g + 1912603 * b + 2 ^ 23) / 2 ^ 24

-- `n` rounds from pixel `i` on: `out` is at `i` and `in` is at `3 * i` of the same buffer.
unfoldable pub resample_from : ℕ → ℕ → List ℕ → List ℕ
resample_from zero i buf = buf
resample_from (suc n) i buf =
    resample_from n (i + 1) (
      set buf i (luma (get_or buf (3 * i) 0) (get_or buf (3 * i + 1) 0) (get_or buf (3 * i + 2) 0)))

-- `memset(buf + i, 0xff, n)`.
unfoldable pub fill_white : ℕ → ℕ → List ℕ → List ℕ
fill_white zero i buf = buf
fill_white (suc n) i buf = fill_white n (i + 1) (set buf i 0xff)

-- `len` is read_line_real_wid.
unfoldable pub device_read_24_to_8_resample : ℕ → ℕ → List ℕ → List ℕ
device_read_24_to_8_resample len bytes_per_line buf =
    let out = resample_from len 0 buf in
    if ltb len bytes_per_line then fill_white (bytes_per_line - len) len out else out

-- SANE_FRAME_GRAY and SANE_FRAME_RGB.
pub data Frame : Type 0 where
  gray rgb : Frame

-- image_window.
pub record Window : Type 0 where
  pub x_off : ℕ
  pub y_off : ℕ
  pub wid : ℕ
  pub hei : ℕ

-- What device_read_next leaves for the reader, and the capacity of the buffer that it allocates.
pub record Clip : Type 0 where
  pub read_24_to_8 : Bool
  pub read_skip_bytes : ℕ
  pub read_line_real_wid : ℕ
  pub read_line_end : ℕ
  pub line_capacity : ℕ
  pub skip_lines : ℕ

abbrev pub same_frame : Frame → Frame → Bool
same_frame gray gray = true
same_frame rgb rgb = true
same_frame _ _ = false

-- Bytes of a pixel.
abbrev pub bytes_of : Frame → ℕ
bytes_of gray = 1
bytes_of rgb = 3

-- What the client asks for, and the image from the decoder.
pub record Request : Type 0 where
  pub frame : Frame
  pub bytes_per_line : ℕ
  pub skip_x : ℕ
  pub skip_y : ℕ
  pub image_frame : Frame
  pub image_wid : ℕ
  pub image_hei : ℕ

-- `params.format` against `dev->opt.params.format`: the flag read_24_to_8, or an error.
unfoldable pub choose_resampling : Frame → Frame → Option Bool
choose_resampling image wanted =
    if same_frame image rgb && same_frame wanted gray
    then some true
    else if not (same_frame image wanted)
    then none
    else some false

-- The window that is asked of the decoder.
unfoldable pub wanted_window : Request → Window
wanted_window r = record {
  x_off = r.skip_x;
  y_off = r.skip_y;
  wid = r.image_wid - r.skip_x;
  hei = r.image_hei - r.skip_y;
}

-- The setup for the window that the decoder grants. `read_line_end` is what the function assigns
-- behind the two cases.
unfoldable pub clip_window : Request → Bool → Window → Clip
clip_window r resample win =
    let skip =
      if not (win.x_off == r.skip_x) then bytes_of r.frame * (r.skip_x - win.x_off) else 0 in
    let lines = if not (win.y_off == r.skip_y) then r.skip_y - win.y_off else 0 in
    record {
      read_24_to_8 = resample;
      read_skip_bytes = skip;
      read_line_real_wid = win.wid;
      read_line_end = r.image_hei - lines;
      line_capacity = max (win.wid * bytes_of r.image_frame) (skip + r.bytes_per_line);
      skip_lines = lines;
    }

-- The case in which everything is to be skipped. The zero that it assigns to `read_line_end` is
-- overwritten behind the two cases.
unfoldable pub clip_all : Request → Bool → Clip
clip_all r resample = record {
  read_24_to_8 = resample;
  read_skip_bytes = 0;
  read_line_real_wid = 0;
  read_line_end = r.image_hei;
  line_capacity = r.bytes_per_line;
  skip_lines = 0;
}

-- device_read_next from the validation of the image's parameters on. The decoder's answer to
-- image_decoder_set_window is a parameter, `none` if it is an error; and so is `none` of the result.
unfoldable pub device_read_next : (Window → Option Window) → Request → Option Clip
device_read_next set_window r = elim (choose_resampling r.image_frame r.frame) [
  | none ↦ none
  | some resample ↦
      if leb r.image_wid r.skip_x || leb r.image_hei r.skip_y
      then some (clip_all r resample)
      else elim (set_window (wanted_window r)) [
        | none ↦ none
        | some win ↦ some (clip_window r resample win)
      ]
]
