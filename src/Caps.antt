-- ===== src/Caps.antt =====
-- devcaps_source of airscan-devcaps.c: what a source of a scanner can do.
pub mod Usable
pub mod Listed
pub mod Merging
use sane_airscan.Base.{
  ℕ, Bool, true, false, not, ◌&&◌, ◌||◌, Option, none, some, List, [], ◌∷◌, ◌==◌, if◌then◌else◌,
}
use mathlib.Core.Option
use sane_airscan.Base.Int.{ℤ, pos, ltb_ℤ}
use sane_airscan.Math.{Range, Merged, refused, merged, math_min, math_max, math_range_merge}
use sane_airscan.Array.{sane_word_array_intersect_sorted}

-- An unsigned int of flags: the bit at each position.
abbrev pub Mask : Type 0
Mask = ℕ → Bool

abbrev pub both : Mask → Mask → Mask
both a b i = a i && b i

abbrev pub clear : ℕ → Mask → Mask
clear bit a i = if i == bit then false else a i

-- The positions of DEVCAPS_SOURCE_RES_DISCRETE and DEVCAPS_SOURCE_RES_RANGE.
abbrev pub res_discrete : ℕ
res_discrete = 7

abbrev pub res_ranged : ℕ
res_ranged = 8

-- The positions of the formats of DEVCAPS_FORMATS_SUPPORTED: JPEG, TIFF, PNG and BMP.
abbrev pub any_format : Mask → Bool
any_format formats = formats 0 || (formats 1 || (formats 2 || formats 4))

-- Those of DEVCAPS_COLORMODES_SUPPORTED: color and grayscale.
abbrev pub any_colormode : Mask → Bool
any_colormode colormodes = colormodes 0 || colormodes 1

pub record DevcapsSource : Type 0 where
  pub flags : Mask
  pub colormodes : Mask
  pub formats : Mask
  pub min_wid_px : ℤ
  pub max_wid_px : ℤ
  pub min_hei_px : ℤ
  pub max_hei_px : ℤ
  pub resolutions : List ℤ
  pub res_range : Range
  pub win_x_range_mm : Range
  pub win_y_range_mm : Range

pub data Merge : Type 0 where
  failed : Merge
  source : DevcapsSource → Merge

-- A source without discrete resolutions in common loses their flag.
abbrev pub set_resolutions : DevcapsSource → List ℤ → DevcapsSource
set_resolutions src [] = record src { resolutions = []; flags = clear res_discrete src.flags }
set_resolutions src (x ∷ a) = record src { resolutions = x ∷ a }

unfoldable pub merge_discrete : DevcapsSource → DevcapsSource → DevcapsSource → DevcapsSource
merge_discrete s1 s2 src =
    if src.flags res_discrete
    then set_resolutions src (sane_word_array_intersect_sorted s1.resolutions s2.resolutions)
    else src

abbrev pub set_res_range : DevcapsSource → Merged → DevcapsSource
set_res_range src refused = record src { flags = clear res_ranged src.flags }
set_res_range src (merged r) = record src { res_range = r }

unfoldable pub merge_ranged :
    ℕ → DevcapsSource → DevcapsSource → DevcapsSource → Option DevcapsSource
merge_ranged fuel s1 s2 src =
    if src.flags res_ranged
    then Option.map (set_res_range src) (math_range_merge fuel s1.res_range s2.res_range)
    else some src

abbrev pub check_resolutions : DevcapsSource → Merge
check_resolutions src =
    if src.flags res_discrete || src.flags res_ranged then source src else failed

-- From the merging of the resolutions on.
unfoldable pub merge_resolutions : ℕ → DevcapsSource → DevcapsSource → DevcapsSource → Option Merge
merge_resolutions fuel s1 s2 src =
    Option.map check_resolutions (merge_ranged fuel s1 s2 (merge_discrete s1 s2 src))

-- A merged range goes into the source, and the merging goes on; or it fails.
abbrev pub with_range : Option Merged → (Range → Option Merge) → Option Merge
with_range none rest = none
with_range (some refused) rest = some failed
with_range (some (merged r)) rest = rest r

-- A new source, with the flags, formats, color modes and dimensions of both.
abbrev pub merge_begin : DevcapsSource → DevcapsSource → Range → Range → DevcapsSource
merge_begin s1 s2 x y = record {
  flags = both s1.flags s2.flags;
  colormodes = both s1.colormodes s2.colormodes;
  formats = both s1.formats s2.formats;
  min_wid_px = math_max s1.min_wid_px s2.min_wid_px;
  max_wid_px = math_min s1.max_wid_px s2.max_wid_px;
  min_hei_px = math_max s1.min_hei_px s2.min_hei_px;
  max_hei_px = math_min s1.max_hei_px s2.max_hei_px;
  resolutions = [];
  res_range = record { lo = pos 0; hi = pos 0; quant = pos 0 };
  win_x_range_mm = x;
  win_y_range_mm = y;
}

-- The conditions under which the merging fails before it comes to the ranges.
abbrev pub merge_fails : DevcapsSource → DevcapsSource → Bool
merge_fails s1 s2 =
    not (any_format (both s1.formats s2.formats))
    || (not (any_colormode (both s1.colormodes s2.colormodes))
        || (ltb_ℤ (math_min s1.max_wid_px s2.max_wid_px) (math_max s1.min_wid_px s2.min_wid_px)
            || ltb_ℤ (math_min s1.max_hei_px s2.max_hei_px) (math_max s1.min_hei_px s2.min_hei_px)))

-- The fuel is for the merging of ranges; `none` means that it ran out.
unfoldable pub devcaps_source_merge : ℕ → DevcapsSource → DevcapsSource → Option Merge
devcaps_source_merge fuel s1 s2 =
    if merge_fails s1 s2
    then some failed
    else with_range (math_range_merge fuel s1.win_x_range_mm s2.win_x_range_mm) (λ x.
      with_range (math_range_merge fuel s1.win_y_range_mm s2.win_y_range_mm)
        (λ y. merge_resolutions fuel s1 s2 (merge_begin s1 s2 x y)))
