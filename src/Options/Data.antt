-- ===== src/Options/Data.antt =====
-- devopt, devcaps and their parts.
use sane_airscan.Base.{ℕ, Bool, Option, none, List}
use sane_airscan.Base.Int.{ℤ}
use sane_airscan.Math.{Range}
use sane_airscan.Device.Types.{
  Source, source_unknown, source_platen, source_adf_simplex, source_adf_duplex,
}
use sane_airscan.Caps.{DevcapsSource}

-- ID_COLORMODE, whose values are from -1 on.
pub data ColorMode : Type 0 where
  mode_unknown mode_color mode_grayscale mode_bw1 : ColorMode

-- devcaps: the sources, and the justification is left out.
pub record Devcaps : Type 0 where
  pub platen : Option DevcapsSource
  pub adf_simplex : Option DevcapsSource
  pub adf_duplex : Option DevcapsSource

unfoldable pub caps_src : Devcaps → Source → Option DevcapsSource
caps_src caps source_unknown = none
caps_src caps source_platen = caps.platen
caps_src caps source_adf_simplex = caps.adf_simplex
caps_src caps source_adf_duplex = caps.adf_duplex

pub data FrameFormat : Type 0 where
  frame_gray frame_rgb : FrameFormat

-- SANE_Parameters; last_frame is always set.
pub record Parameters : Type 0 where
  pub format : FrameFormat
  pub depth : ℕ
  pub pixels_per_line : ℤ
  pub lines : ℤ
  pub bytes_per_line : ℤ

-- The constraint of the resolution.
pub data ResConstraint : Type 0 where
  word_list : List ℤ → ResConstraint
  in_range : Range → ResConstraint

-- What of the descriptors depends on the state.
pub record Descriptors : Type 0 where
  pub sane_sources : List Source
  pub sane_colormodes : List ColorMode
  pub resolution : ResConstraint
  pub window_x : Range
  pub window_y : Range

-- devopt. A SANE_Fixed is its word.
pub record Devopt : Type 0 where
  pub caps : Devcaps
  pub desc : Descriptors
  pub src : Source
  pub colormode_emul : ColorMode
  pub colormode_real : ColorMode
  pub resolution : ℤ
  pub tl_x : ℤ
  pub tl_y : ℤ
  pub br_x : ℤ
  pub br_y : ℤ
  pub params : Parameters
  pub brightness : ℤ
  pub contrast : ℤ
  pub shadow : ℤ
  pub highlight : ℤ
  pub gamma : ℤ
  pub negative : Bool
