-- ===== src/Options/Get.antt =====
-- devopt_get_option of airscan-devops.c, without the justification.
use sane_airscan.Base.{Bool, Option, none, some}
use sane_airscan.Base.Int.{ℤ, pos, negsuc}
use sane_airscan.Device.Types.{
  Source, source_unknown, source_platen, source_adf_simplex, source_adf_duplex,
}
use sane_airscan.Uuid.{Text}
use sane_airscan.Id.{id_source_sane_name, id_colormode_sane_name}
use sane_airscan.Options.Data.{
  Devopt, ColorMode, mode_unknown, mode_color, mode_grayscale, mode_bw1,
}
use sane_airscan.Options.Single.{
  Corner, Enhancement, of_brightness, of_contrast, of_shadow, of_highlight, of_gamma, corner,
}
use sane_airscan.Options.Handlers.{
  ModeNames, Setting, opt_scan_resolution, opt_scan_window, opt_enhancement,
}

-- The options whose value is a number.
pub data Numeric : Type 0 where
  of_resolution : Numeric
  of_window : Corner → Numeric
  of_enhancement : Enhancement → Numeric

pub data OptionName : Type 0 where
  num_options : OptionName
  numeric : Numeric → OptionName
  scan_colormode scan_source : OptionName
  negative_image : OptionName
  other_option : OptionName

pub data Value : Type 0 where
  word : ℤ → Value
  text : Text → Value
  flag : Bool → Value
  invalid : Value

abbrev pub mode_number : ColorMode → ℤ
mode_number mode_unknown = negsuc 0
mode_number mode_color = pos 0
mode_number mode_grayscale = pos 1
mode_number mode_bw1 = pos 2

abbrev pub source_number : Source → ℤ
source_number source_unknown = negsuc 0
source_number source_platen = pos 0
source_number source_adf_simplex = pos 1
source_number source_adf_duplex = pos 2

abbrev pub enhancement : Devopt → Enhancement → ℤ
enhancement opt of_brightness = opt.brightness
enhancement opt of_contrast = opt.contrast
enhancement opt of_shadow = opt.shadow
enhancement opt of_highlight = opt.highlight
enhancement opt of_gamma = opt.gamma

abbrev pub number : Devopt → Numeric → ℤ
number opt of_resolution = opt.resolution
number opt (of_window at) = corner opt at
number opt (of_enhancement which) = enhancement opt which

-- `strcpy` of a name; there is none for NULL.
abbrev pub copied : Option (Option Text) → Option Value
copied none = none
copied (some none) = none
copied (some (some name)) = some (text name)

-- `invalid` is the status INVAL.
unfoldable pub devopt_get_option : ModeNames → Devopt → OptionName → Option Value
devopt_get_option names opt num_options = some (word (pos 19))
devopt_get_option names opt (numeric name) = some (word (number opt name))
devopt_get_option names opt scan_colormode =
    copied (
      id_colormode_sane_name names.halftone names.gray names.color (mode_number opt.colormode_emul))
devopt_get_option names opt scan_source = copied (id_source_sane_name (source_number opt.src))
devopt_get_option names opt negative_image = some (flag opt.negative)
devopt_get_option names opt other_option = some invalid

-- The setting of a number.
abbrev pub set_number : Numeric → ℤ → Setting
set_number of_resolution v = opt_scan_resolution v
set_number (of_window at) v = opt_scan_window at v
set_number (of_enhancement which) v = opt_enhancement which v
