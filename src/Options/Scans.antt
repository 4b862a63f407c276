-- ===== src/Options/Scans.antt =====
-- device_stm_start_scan of airscan-device.c on the options of airscan-devops.c.
use sane_airscan.Base.{ℕ}
use sane_airscan.Base.Int.{ℤ, pos, ◌+ℤ◌, ◌≤ℤ◌}
use sane_airscan.Device.Types.{Options, Device, ScanParams}
use sane_airscan.Device.Geom.Window.{geom_window}
use sane_airscan.Device.Stm.{fill_params}
use sane_airscan.Math.{Range}
use sane_airscan.Math.Within.{IsExtent, IsInRange}
use sane_airscan.Caps.{DevcapsSource}
use sane_airscan.Caps.Usable.{IsUsable}
use sane_airscan.Options.Data.{Devopt}
use sane_airscan.Options.Valid.{IsSettled, IsSupported}

-- What the device reads of its options, for the units of the scanner and a set of formats.
abbrev pub options_of : Devopt → DevcapsSource → ℤ → ℕ → Options
options_of opt src units formats = record {
  tl_x = opt.tl_x;
  tl_y = opt.tl_y;
  br_x = opt.br_x;
  br_y = opt.br_y;
  resolution = opt.resolution;
  units = units;
  src = opt.src;
  formats = formats;
  min_wid_px = src.min_wid_px;
  max_wid_px = src.max_wid_px;
  min_hei_px = src.min_hei_px;
  max_hei_px = src.max_hei_px;
  lines = opt.params.lines;
  pixels_per_line = opt.params.pixels_per_line;
}

-- The dimensions of a source admit a pixel.
pub record HasSize (src : DevcapsSource) : Type 0 where
  pub wid : src.min_wid_px ≤ℤ src.max_wid_px
  pub hei : src.min_hei_px ≤ℤ src.max_hei_px
  pub some_wid : pos 1 ≤ℤ src.max_wid_px
  pub some_hei : pos 1 ≤ℤ src.max_hei_px

-- A request that the source can serve.
pub record IsRequest (src : DevcapsSource) (params : ScanParams) : Type 0 where
  pub left : pos 0 ≤ℤ params.x_off
  pub right : params.x_off +ℤ params.wid ≤ℤ src.max_wid_px
  pub wide : (pos 1 ≤ℤ params.wid) × (src.min_wid_px ≤ℤ params.wid)
  pub top : pos 0 ≤ℤ params.y_off
  pub bottom : params.y_off +ℤ params.hei ≤ℤ src.max_hei_px
  pub high : (pos 1 ≤ℤ params.hei) × (src.min_hei_px ≤ℤ params.hei)
  pub x_res : IsSupported src params.x_res
  pub y_res : IsSupported src params.y_res

not_before : (r : Range) (x : ℤ) → IsExtent r → IsInRange r x → pos 0 ≤ℤ x
not_before r x e i = let low = e.low in rw low at i.lower

-- For settled options of a usable source whose dimensions admit a pixel, and a conversion of
-- millimeters that keeps what is not negative so: the window that device_stm_start_scan asks for lies
-- in the scanner's range and is at least a pixel and the scanner's least size long, and the
-- resolution is one of the source.
pub start_scan-IsRequest :
    (mm2px : ℤ → ℤ → ℤ) (dev : Device) (opt : Devopt) (src : DevcapsSource) (units : ℤ)
    (formats : ℕ)
    → ((a b : ℤ) → pos 0 ≤ℤ a → pos 0 ≤ℤ mm2px a b)
    → IsUsable src
    → HasSize src
    → IsSettled src opt
    → IsRequest src
        (fill_params mm2px (record dev { opt = options_of opt src units formats })).params
unfolding fill_params
start_scan-IsRequest mm2px dev opt src units formats k u h s =
    let w = s.window in
    let x =
      geom_window mm2px opt.tl_x opt.br_x src.min_wid_px src.max_wid_px opt.resolution units
        (k opt.tl_x units (not_before src.win_x_range_mm opt.tl_x u.x w.left)) h.wid h.some_wid in
    let y =
      geom_window mm2px opt.tl_y opt.br_y src.min_hei_px src.max_hei_px opt.resolution units
        (k opt.tl_y units (not_before src.win_y_range_mm opt.tl_y u.y w.top)) h.hei h.some_hei in
    record {
      left = x.not_before;
      right = x.ends_inside;
      wide = (x.not_empty, x.long_enough);
      top = y.not_before;
      bottom = y.ends_inside;
      high = (y.not_empty, y.long_enough);
      x_res = s.resolution;
      y_res = s.resolution;
    }
