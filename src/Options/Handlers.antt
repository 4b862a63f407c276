-- ===== src/Options/Handlers.antt =====
-- devopt_set_option and devopt_set_defaults of airscan-devops.c, on top of the handlers of the options.
use sane_airscan.Base.{zero, suc, Bool, true, false, not, Option, none, some}
use sane_airscan.Base.Int.{ℤ, pos, negsuc, ◌-ℤ◌, eqb_ℤ}
use sane_airscan.Math.{math_max}
use sane_airscan.Device.Types.{
  Source, source_unknown, source_platen, source_adf_simplex, source_adf_duplex, good, inval,
}
use sane_airscan.Uuid.{Text}
use sane_airscan.Id.{id_source_by_sane_name, id_colormode_by_sane_name}
use sane_airscan.Caps.{DevcapsSource}
use sane_airscan.Options.Data.{
  ColorMode, mode_unknown, mode_color, mode_grayscale, mode_bw1, caps_src, Parameters, Devopt,
}
use sane_airscan.Options.Choose.{
  fix, devopt_choose_default_source, devopt_real_colormode, devopt_choose_colormode,
  devopt_choose_resolution, devopt_rebuild_opt_desc, mode_params,
}
use sane_airscan.Options.Single.{
  Outcome, unchanged, set_resolution_at, set_colormode_at, devopt_set_source, Corner, set_geom_at,
  Enhancement, devopt_set_enh, at_source,
}

-- The value of an option, with the option.
pub data Setting : Type 0 where
  opt_scan_resolution : ℤ → Setting
  opt_scan_colormode : Text → Setting
  opt_scan_source : Text → Setting
  opt_scan_window : Corner → ℤ → Setting
  opt_enhancement : Enhancement → ℤ → Setting
  opt_negative : ℤ → Setting
  opt_other : Setting

-- The names that the headers of SANE define for color modes.
pub record ModeNames : Type 0 where
  pub halftone : Text
  pub gray : Text
  pub color : Text

-- The result of a lookup by name, as an ID.
abbrev pub source_id : ℤ → Source
source_id (pos zero) = source_platen
source_id (pos (suc zero)) = source_adf_simplex
source_id (pos (suc (suc n))) = source_adf_duplex
source_id (negsuc n) = source_unknown

abbrev pub mode_id : ℤ → ColorMode
mode_id (pos zero) = mode_color
mode_id (pos (suc zero)) = mode_grayscale
mode_id (pos (suc (suc n))) = mode_bw1
mode_id (negsuc n) = mode_unknown

abbrev pub known_mode : DevcapsSource → Devopt → ColorMode → Option Outcome
known_mode src opt mode_unknown = some (unchanged inval opt)
known_mode src opt mode = set_colormode_at src opt mode

abbrev pub known_source : Devopt → Source → Option Outcome
known_source opt source_unknown = some (unchanged inval opt)
known_source opt id = devopt_set_source opt id

-- The switch by option, on the current source; a lookup that does not end has no result.
abbrev pub by_mode_name : DevcapsSource → Devopt → Option ℤ → Option Outcome
by_mode_name src opt none = none
by_mode_name src opt (some id) = known_mode src opt (mode_id id)

abbrev pub by_source_name : Devopt → Option ℤ → Option Outcome
by_source_name opt none = none
by_source_name opt (some id) = known_source opt (source_id id)

unfoldable pub handle : ModeNames → DevcapsSource → Devopt → Setting → Option Outcome
handle names src opt (opt_scan_resolution v) = set_resolution_at src opt v
handle names src opt (opt_scan_colormode name) =
    by_mode_name src opt (id_colormode_by_sane_name names.halftone names.gray names.color name)
handle names src opt (opt_scan_source name) = by_source_name opt (id_source_by_sane_name name)
handle names src opt (opt_scan_window at v) = set_geom_at src opt at v
handle names src opt (opt_enhancement which v) = some (devopt_set_enh opt which v)
handle names src opt (opt_negative v) =
    some (unchanged good (record opt { negative = not (eqb_ℤ v (pos 0)) }))
handle names src opt opt_other = some (unchanged inval opt)

-- devopt_update_params; the conversion of millimeters to pixels at a resolution is a parameter.
abbrev pub params_of : (ℤ → ℤ → ℤ) → Devopt → Option Parameters
params_of mm2px opt =
    let wid = math_max (pos 0) (opt.br_x -ℤ opt.tl_x) in
    let hei = math_max (pos 0) (opt.br_y -ℤ opt.tl_y) in
    mode_params opt.colormode_emul (mm2px wid opt.resolution) (mm2px hei opt.resolution)

abbrev pub with_params : Devopt → Option Parameters → Option Devopt
with_params opt none = none
with_params opt (some p) = some (record opt { params = p })

unfoldable pub devopt_update_params : (ℤ → ℤ → ℤ) → Devopt → Option Devopt
devopt_update_params mm2px opt = with_params opt (params_of mm2px opt)

-- The descriptors of the current source, if they are asked for.
abbrev pub reload_desc : Bool → Option DevcapsSource → Devopt → Option Devopt
reload_desc false src opt = some opt
reload_desc true none opt = none
reload_desc true (some src) opt = some (record opt { desc = devopt_rebuild_opt_desc opt.caps src })

abbrev pub reload_params_if : (ℤ → ℤ → ℤ) → Bool → Option Devopt → Option Devopt
reload_params_if mm2px b none = none
reload_params_if mm2px false (some opt) = some opt
reload_params_if mm2px true (some opt) = devopt_update_params mm2px opt

abbrev pub with_opt : Outcome → Option Devopt → Option Outcome
with_opt out none = none
with_opt out (some opt) = some (record out { opt = opt })

-- What follows the switch.
unfoldable pub reload : (ℤ → ℤ → ℤ) → Option Outcome → Option Outcome
reload mm2px none = none
reload mm2px (some out) = with_opt out (
    reload_params_if mm2px out.info.reload_params
      (reload_desc out.info.reload_options (caps_src out.opt.caps out.opt.src) out.opt))

-- A state without a current source is left out: it has no result.
abbrev pub on_source : Option DevcapsSource → (DevcapsSource → Option Outcome) → Option Outcome
on_source none f = none
on_source (some src) f = f src

unfoldable pub devopt_set_option : (ℤ → ℤ → ℤ) → ModeNames → Devopt → Setting → Option Outcome
devopt_set_option mm2px names opt setting =
    on_source (caps_src opt.caps opt.src) (λ src. reload mm2px (handle names src opt setting))

-- The values that devopt_set_defaults gives, before it works out the descriptors and the parameters.
abbrev pub default_values : Devopt → Source → DevcapsSource → ColorMode → ℤ → ColorMode → Devopt
default_values opt id src mode res real = record (at_source opt id src mode res) {
  colormode_real = real;
  brightness = fix 0;
  contrast = fix 0;
  shadow = fix 0;
  highlight = fix 100;
  gamma = fix 1;
}

abbrev pub with_real : (ColorMode → Devopt) → Option ColorMode → Option Devopt
with_real f none = none
with_real f (some real) = some (f real)

abbrev pub default_modes :
    Devopt → Source → DevcapsSource → Option ColorMode → Option ℤ → Option Devopt
default_modes opt id src none _ = none
default_modes opt id src (some mode) none = none
default_modes opt id src (some mode) (some res) =
    with_real (default_values opt id src mode res) (devopt_real_colormode mode src)

abbrev pub defaults_at : Devopt → Source → Option DevcapsSource → Option Devopt
defaults_at opt id none = none
defaults_at opt id (some src) =
    default_modes opt id src (devopt_choose_colormode src mode_unknown)
      (devopt_choose_resolution src (pos 300))

abbrev pub choose_defaults : Devopt → Option Source → Option Devopt
choose_defaults opt none = none
choose_defaults opt (some id) = defaults_at opt id (caps_src opt.caps id)

abbrev pub with_desc : Option Devopt → Option Devopt
with_desc none = none
with_desc (some opt) = reload_desc true (caps_src opt.caps opt.src) opt

unfoldable pub devopt_set_defaults : (ℤ → ℤ → ℤ) → Devopt → Option Devopt
devopt_set_defaults mm2px opt =
    reload_params_if mm2px true
      (with_desc (choose_defaults opt (devopt_choose_default_source opt.caps)))
