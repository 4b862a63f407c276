-- ===== src/Options/Single.antt =====
-- The handlers of the single options in airscan-devops.c.
use sane_airscan.Base.{Bool, true, false, not, Option, none, some, if◌then◌else◌}
use sane_airscan.Base.Int.{ℤ, pos, ◌+ℤ◌, ◌-ℤ◌, eqb_ℤ}
use sane_airscan.Math.{Range, math_range_fit}
use sane_airscan.Device.Types.{
  Source, source_unknown, source_platen, source_adf_simplex, source_adf_duplex, Status, good, inval,
}
use sane_airscan.Caps.{DevcapsSource}
use sane_airscan.Options.Data.{
  ColorMode, mode_unknown, mode_color, mode_grayscale, mode_bw1, caps_src, Devopt,
}
use sane_airscan.Options.Choose.{
  fix, devopt_percent_range, devopt_nonnegative_percent_range, devopt_gamma_range, mode_bit,
  devopt_available_colormodes, devopt_real_colormode, devopt_choose_colormode,
  devopt_choose_resolution,
}

-- The bits of `*info`.
pub record Info : Type 0 where
  pub inexact : Bool
  pub reload_options : Bool
  pub reload_params : Bool

abbrev pub no_info : Info
no_info = record { inexact = false; reload_options = false; reload_params = false }

-- What a handler of an option leaves.
pub record Outcome : Type 0 where
  pub status : Status
  pub info : Info
  pub opt : Devopt

abbrev pub unchanged : Status → Devopt → Outcome
unchanged status opt = record { status = status; info = no_info; opt = opt }

abbrev pub resolution_set : Devopt → ℤ → Option ℤ → Option Outcome
resolution_set opt wanted none = none
resolution_set opt wanted (some res) = some (record {
  status = good;
  info = record no_info { reload_params = true; inexact = not (eqb_ℤ res wanted) };
  opt = record opt { resolution = res };
})

-- The handlers on the current source, which is `src`.
unfoldable pub set_resolution_at : DevcapsSource → Devopt → ℤ → Option Outcome
set_resolution_at src opt wanted =
    if eqb_ℤ opt.resolution wanted
    then some (unchanged good opt)
    else resolution_set opt wanted (devopt_choose_resolution src wanted)

abbrev pub same_mode : ColorMode → ColorMode → Bool
same_mode mode_unknown mode_unknown = true
same_mode mode_color mode_color = true
same_mode mode_grayscale mode_grayscale = true
same_mode mode_bw1 mode_bw1 = true
same_mode _ _ = false

abbrev pub colormode_set : Devopt → ColorMode → Option ColorMode → Option Outcome
colormode_set opt mode none = none
colormode_set opt mode (some real) = some (record {
  status = good;
  info = record no_info { reload_params = true };
  opt = record opt { colormode_emul = mode; colormode_real = real };
})

unfoldable pub set_colormode_at : DevcapsSource → Devopt → ColorMode → Option Outcome
set_colormode_at src opt mode =
    if same_mode opt.colormode_emul mode
    then some (unchanged good opt)
    else if not (mode_bit mode (devopt_available_colormodes src))
    then some (unchanged inval opt)
    else colormode_set opt mode (devopt_real_colormode mode src)

abbrev pub same_source : Source → Source → Bool
same_source source_unknown source_unknown = true
same_source source_platen source_platen = true
same_source source_adf_simplex source_adf_simplex = true
same_source source_adf_duplex source_adf_duplex = true
same_source _ _ = false

-- The source, with the window of its size.
abbrev pub at_source : Devopt → Source → DevcapsSource → ColorMode → ℤ → Devopt
at_source opt id src mode res = record opt {
  src = id;
  colormode_emul = mode;
  resolution = res;
  tl_x = pos 0;
  tl_y = pos 0;
  br_x = src.win_x_range_mm.hi;
  br_y = src.win_y_range_mm.hi;
}

abbrev pub source_set :
    Devopt → Source → DevcapsSource → Option ColorMode → Option ℤ → Option Outcome
source_set opt id src none _ = none
source_set opt id src (some mode) none = none
source_set opt id src (some mode) (some res) = some (record {
  status = good;
  info = record { inexact = false; reload_options = true; reload_params = true };
  opt = at_source opt id src mode res;
})

unfoldable pub set_source_at : Option DevcapsSource → Devopt → Source → Option Outcome
set_source_at none opt id = some (unchanged inval opt)
set_source_at (some src) opt id =
    if same_source opt.src id
    then some (unchanged good opt)
    else source_set opt id src (devopt_choose_colormode src opt.colormode_emul)
        (devopt_choose_resolution src opt.resolution)

unfoldable pub devopt_set_source : Devopt → Source → Option Outcome
devopt_set_source opt id = set_source_at (caps_src opt.caps id) opt id

pub data Corner : Type 0 where
  at_tl_x at_tl_y at_br_x at_br_y : Corner

abbrev pub corner : Devopt → Corner → ℤ
corner opt at_tl_x = opt.tl_x
corner opt at_tl_y = opt.tl_y
corner opt at_br_x = opt.br_x
corner opt at_br_y = opt.br_y

abbrev pub set_corner : Devopt → Corner → ℤ → Devopt
set_corner opt at_tl_x v = record opt { tl_x = v }
set_corner opt at_tl_y v = record opt { tl_y = v }
set_corner opt at_br_x v = record opt { br_x = v }
set_corner opt at_br_y v = record opt { br_y = v }

abbrev pub corner_range : DevcapsSource → Corner → Range
corner_range src at_tl_x = src.win_x_range_mm
corner_range src at_tl_y = src.win_y_range_mm
corner_range src at_br_x = src.win_x_range_mm
corner_range src at_br_y = src.win_y_range_mm

unfoldable pub set_geom_at : DevcapsSource → Devopt → Corner → ℤ → Option Outcome
set_geom_at src opt at val =
    let fitted = math_range_fit (corner_range src at) val in
    if eqb_ℤ (corner opt at) val
    then some (unchanged good opt)
    else some (record {
      status = good;
      info = record no_info { reload_params = true; inexact = not (eqb_ℤ fitted val) };
      opt = set_corner opt at fitted;
    })

pub data Enhancement : Type 0 where
  of_brightness of_contrast of_shadow of_highlight of_gamma : Enhancement

-- The range of the descriptor, where shadow stays below highlight.
abbrev pub enh_range : Devopt → Enhancement → Range
enh_range opt of_brightness = devopt_percent_range
enh_range opt of_contrast = devopt_percent_range
enh_range opt of_shadow = record devopt_nonnegative_percent_range { hi = opt.highlight -ℤ fix 1 }
enh_range opt of_highlight = record devopt_nonnegative_percent_range { lo = opt.shadow +ℤ fix 1 }
enh_range opt of_gamma = devopt_gamma_range

abbrev pub set_enhancement : Devopt → Enhancement → ℤ → Devopt
set_enhancement opt of_brightness v = record opt { brightness = v }
set_enhancement opt of_contrast v = record opt { contrast = v }
set_enhancement opt of_shadow v = record opt { shadow = v }
set_enhancement opt of_highlight v = record opt { highlight = v }
set_enhancement opt of_gamma v = record opt { gamma = v }

unfoldable pub devopt_set_enh : Devopt → Enhancement → ℤ → Outcome
devopt_set_enh opt which val =
    let adjusted = math_range_fit (enh_range opt which) val in
    record {
      status = good;
      info = record no_info { inexact = not (eqb_ℤ adjusted val) };
      opt = set_enhancement opt which adjusted;
    }
