-- ===== src/Device/Geom.antt =====
-- device_geom_compute and device_choose_format. The conversion of millimeters to pixels is long
-- double arithmetic, and is a parameter.
pub mod Window
use Prim.Native.Nat.{bit_and}
use sane_airscan.Base.{
  ℕ, ◌+◌, ◌*◌, ◌^◌, ◌<◌, ◌≡◌, refl, Bool, true, false, not, List, [], ◌∷◌, ◌==◌, if◌then◌else◌,
  arith,
}
use sane_airscan.Base.Int.{ℤ, pos, ◌+ℤ◌, ◌-ℤ◌, ltb_ℤ, ◌≤ℤ◌, int_laws, ltb_ℤ-cases}
use sane_airscan.Math.{math_max, math_bound, math_muldiv}
use sane_airscan.Device.Types.{
  Format, format_unknown, format_jpeg, format_tiff, format_png, format_pdf, format_bmp,
}

pub record Geom : Type 0 where
  pub off : ℤ
  pub len : ℤ
  pub skip : ℤ

-- The window after it has been bounded: moved back where it passes the end.
unfoldable pub clip_geom : ℤ → ℤ → ℤ → ℤ → ℤ → Geom
clip_geom off len maxlen res units =
    if ltb_ℤ maxlen (off +ℤ len)
    then (let over = off +ℤ len -ℤ maxlen in
        record { off = off -ℤ over; len = len; skip = math_muldiv over res units })
    else record { off = off; len = len; skip = pos 0 }

unfoldable pub device_geom_compute : (ℤ → ℤ → ℤ) → ℤ → ℤ → ℤ → ℤ → ℤ → ℤ → Geom
device_geom_compute mm2px tl br minlen maxlen res units =
    clip_geom (mm2px tl units)
      (math_bound (mm2px (br -ℤ tl) units) (math_max minlen (pos 1)) maxlen) maxlen res units

-- The bit of an ID_FORMAT, which is 0 for JPEG.
unfoldable pub format_bit : Format → ℕ
format_bit format_jpeg = 1
format_bit format_tiff = 2
format_bit format_png = 4
format_bit format_pdf = 8
format_bit format_bmp = 16
format_bit format_unknown = 0

-- DEVCAPS_FORMATS_SUPPORTED.
abbrev pub formats_supported : ℕ
formats_supported = 1 + 4 + 2 + 16

abbrev pub use_order : List Format
use_order = format_png ∷ format_jpeg ∷ format_tiff ∷ format_bmp ∷ []

first_format : ℕ → List Format → Format
first_format formats [] = format_unknown
first_format formats (f ∷ fs) =
    if not (bit_and formats (format_bit f) == 0) then f else first_format formats fs

unfoldable pub device_choose_format : ℕ → Format
unfolding first_format format_bit
device_choose_format formats = first_format (bit_and formats formats_supported) use_order
