-- ===== src/Tests/Options.antt =====
-- The options of a scanner with a flatbed and a feeder.
use sane_airscan.Base.{◌≡◌, refl, false, not, ◌||◌, none, some, [], ◌∷◌, ◌==◌, arith}
use sane_airscan.Base.Int.{ℤ, pos, ◌*ℤ◌, int_laws}
use sane_airscan.Math.{Range, math_max, math_min, math_range_merge}
use sane_airscan.Math.Ordered.{MergesTo, range_merge_lem}
use sane_airscan.Device.Types.{
  Source, source_unknown, source_platen, source_adf_simplex, source_adf_duplex,
}
use sane_airscan.Array.Intersect.{has, is_sorted, is_above}
use sane_airscan.Caps.{DevcapsSource, Merge, devcaps_source_merge}
use sane_airscan.Caps.Usable.{IsUsable}
use sane_airscan.Caps.Listed.{MergeOk}
use sane_airscan.Caps.Merging.{source_merge-MergeOk}
use sane_airscan.Options.Data.{Devcaps, Devopt, caps_src, mode_color, frame_rgb}
use sane_airscan.Options.Choose.{
  fix, devopt_rebuild_opt_desc, devopt_choose_resolution, mode_params, mode_bit,
}
use sane_airscan.Options.Nearest.{IsNearest, choose_resolution_lem}
use sane_airscan.Options.Single.{Outcome, at_tl_x, of_shadow, devopt_set_source}
use sane_airscan.Options.Handlers.{
  ModeNames, Setting, opt_scan_source, opt_enhancement, devopt_set_option, devopt_set_defaults,
}
use sane_airscan.Options.Choose.{devopt_available_colormodes}
use sane_airscan.Options.Modes.{Available}
use sane_airscan.Options.Valid.{IsSettled, IsConsistent}
use sane_airscan.Options.Reloads.{Returns}
use sane_airscan.Options.Defaults.{IsDefault, set_defaults_lem}
use sane_airscan.Options.Runs.{set_option-Returns, from_defaults, session-IsConsistent}
use sane_airscan.Options.Get.{of_window, numeric, word, set_number, devopt_get_option}
use sane_airscan.Options.Exact.{get-set_option}
use sane_airscan.Options.Scans.{IsRequest, options_of, start_scan-IsRequest}
use sane_airscan.Options.Stale.{set_source_stale}
use sane_airscan.Device.Stm.{fill_params}
use sane_airscan.Base.Int.{◌-ℤ◌, eqb_ℤ}
use sane_airscan.Tests.Scan.{at_rest}
use sane_airscan.Device.Types.{good}

-- A flatbed with color, three resolutions and a window of 200 by 300 millimeters.
abbrev flatbed : DevcapsSource
flatbed = record {
  flags = λ i. i == 7;
  colormodes = λ i. i == 0;
  formats = λ i. i == 0 || i == 2;
  min_wid_px = pos 16;
  max_wid_px = pos 2480;
  min_hei_px = pos 16;
  max_hei_px = pos 3508;
  resolutions = pos 75 ∷ pos 150 ∷ pos 300 ∷ [];
  res_range = record { lo = pos 0; hi = pos 0; quant = pos 0 };
  win_x_range_mm = record { lo = pos 0; hi = fix 200; quant = pos 0 };
  win_y_range_mm = record { lo = pos 0; hi = fix 300; quant = pos 0 };
}

-- A feeder with grayscale and the resolutions 150 and 300.
abbrev feeder : DevcapsSource
feeder = record flatbed {
  colormodes = λ i. i == 1;
  formats = λ i. i == 0;
  resolutions = pos 150 ∷ pos 300 ∷ [];
}

flatbed-IsUsable : IsUsable flatbed
flatbed-IsUsable = record {
  modes = refl;
  resolution = refl;
  discrete = λ _ e. cc;
  ranged = λ e. absurd (cc);
  x = record { low = refl; high = omega arith; free = refl };
  y = record { low = refl; high = omega arith; free = refl };
}

feeder-IsUsable : IsUsable feeder
feeder-IsUsable = record {
  modes = refl;
  resolution = refl;
  discrete = λ _ e. cc;
  ranged = λ e. absurd (cc);
  x = record { low = refl; high = omega arith; free = refl };
  y = record { low = refl; high = omega arith; free = refl };
}

choose_resolution_lem_example :
    (res : ℤ) × ((devopt_choose_resolution flatbed (pos 200) ≡ some res)
      × IsNearest (pos 200) res flatbed.resolutions)
choose_resolution_lem_example = choose_resolution_lem flatbed (pos 200) refl (λ e. cc)

abbrev coarse : Range
coarse = record { lo = pos 100; hi = pos 600; quant = pos 100 }

abbrev fine : Range
fine = record { lo = pos 50; hi = pos 400; quant = pos 25 }

-- The merged range has the values 150, 250 and 350.
range_merge_lem_example : MergesTo (math_range_merge 401 coarse fine)
unfolding math_max math_min
range_merge_lem_example =
    range_merge_lem 400 coarse fine (record { ordered = omega arith; step = omega arith })
      (record { ordered = omega arith; step = omega arith })
      (record { starts = omega int_laws; ends = omega int_laws })

-- The back side of the feeder has color as well.
abbrev back_side : DevcapsSource
back_side = record feeder { colormodes = λ i. i == 0 || i == 1 }

back_side-IsUsable : IsUsable back_side
back_side-IsUsable = record {
  modes = refl;
  resolution = refl;
  discrete = λ _ e. cc;
  ranged = λ e. absurd (cc);
  x = feeder-IsUsable.x;
  y = feeder-IsUsable.y;
}

source_merge-MergeOk_example :
    (m : Merge) × ((devcaps_source_merge 1 flatbed back_side ≡ some m)
      × MergeOk 0 flatbed back_side m)
unfolding math_max math_min is_sorted is_above
source_merge-MergeOk_example =
    source_merge-MergeOk 0 flatbed back_side flatbed-IsUsable back_side-IsUsable refl refl
      (record { starts = omega int_laws; ends = omega int_laws })

abbrev scanner : Devcaps
scanner = record { platen = some flatbed; adf_simplex = some feeder; adf_duplex = none }

scanner-IsUsable :
    (id : Source) (src : DevcapsSource) → caps_src scanner id ≡ some src → IsUsable src
unfolding caps_src
scanner-IsUsable source_unknown src e = absurd (cc)
scanner-IsUsable source_platen src e = let same : flatbed ≡ src = cc in rw (← same) flatbed-IsUsable
scanner-IsUsable source_adf_simplex src e =
    let same : feeder ≡ src = cc in rw (← same) feeder-IsUsable
scanner-IsUsable source_adf_duplex src e = absurd (cc)

-- A stand-in for the conversion: as many pixels as units of length.
abbrev mm2px : ℤ → ℤ → ℤ
mm2px x units = x

abbrev names : ModeNames
names = record { halftone = b'h' ∷ []; gray = b'g' ∷ []; color = b'c' ∷ [] }

-- The options after devopt_set_defaults: color from the flatbed at 300 dpi, the whole window.
abbrev defaults : Devopt
defaults = record {
  caps = scanner;
  desc = devopt_rebuild_opt_desc scanner flatbed;
  src = source_platen;
  colormode_emul = mode_color;
  colormode_real = mode_color;
  resolution = pos 300;
  tl_x = pos 0;
  tl_y = pos 0;
  br_x = fix 200;
  br_y = fix 300;
  params = record {
    format = frame_rgb;
    depth = 8;
    pixels_per_line = fix 200;
    lines = fix 300;
    bytes_per_line = fix 200 *ℤ pos 3;
  };
  brightness = fix 0;
  contrast = fix 0;
  shadow = fix 0;
  highlight = fix 100;
  gamma = fix 1;
  negative = false;
}

defaults-IsSettled : IsSettled flatbed defaults
unfolding caps_src devopt_available_colormodes has
defaults-IsSettled = record {
  here = refl;
  mode = refl;
  resolution = record { listed = λ _. refl; ranged = λ e. absurd (cc) };
  window = record {
    left = record { lower = omega arith; upper = omega arith };
    top = record { lower = omega arith; upper = omega arith };
    right = record { lower = omega arith; upper = omega arith };
    bottom = record { lower = omega arith; upper = omega arith };
  };
  enhanced = record {
    brightness = record { lower = omega int_laws; upper = omega arith };
    contrast = record { lower = omega int_laws; upper = omega arith };
    dark = omega arith;
    order = omega int_laws;
    light = omega arith;
    gamma = record { lower = omega arith; upper = omega arith };
  };
}

defaults-IsConsistent : IsConsistent mm2px defaults
unfolding mode_params math_max ◌-ℤ◌
defaults-IsConsistent = record {
  at = flatbed;
  settled = defaults-IsSettled;
  params = refl;
  desc = refl;
}

set_defaults_lem_example :
    (opt : Devopt) × ((devopt_set_defaults mm2px defaults ≡ some opt) × IsDefault mm2px scanner opt)
unfolding caps_src
set_defaults_lem_example =
    set_defaults_lem mm2px defaults source_adf_simplex feeder refl scanner-IsUsable

-- "ADF" is the name of the feeder.
abbrev to_feeder : Setting
to_feeder = opt_scan_source (b'A' ∷ b'D' ∷ b'F' ∷ [])

set_option-Returns_example :
    Returns mm2px defaults (devopt_set_option mm2px names defaults to_feeder)
set_option-Returns_example =
    set_option-Returns mm2px names defaults to_feeder scanner-IsUsable defaults-IsConsistent

session-IsConsistent_example :
    (opt : Devopt) × ((from_defaults mm2px names
          (to_feeder ∷ opt_enhancement of_shadow (fix 120) ∷ [])
          (devopt_set_defaults mm2px defaults)
        ≡ some opt)
      × (IsConsistent mm2px opt × (opt.caps ≡ scanner)))
unfolding caps_src
session-IsConsistent_example =
    session-IsConsistent mm2px names (to_feeder ∷ opt_enhancement of_shadow (fix 120) ∷ []) defaults
      source_platen flatbed refl scanner-IsUsable

get-set_option_example :
    (out : Outcome) × (now : ℤ) × (devopt_set_option mm2px names defaults
        (set_number (of_window at_tl_x) (fix 250))
      ≡ some out)
    × (devopt_get_option names out.opt (numeric (of_window at_tl_x)) ≡ some (word now))
    × (out.info.inexact ≡ not (eqb_ℤ now (fix 250)))
get-set_option_example =
    get-set_option mm2px names defaults (of_window at_tl_x) (fix 250) scanner-IsUsable
      defaults-IsConsistent

set_source_stale_example :
    (out : Outcome) × (devopt_set_source defaults source_adf_simplex ≡ some out)
    × (out.status ≡ good)
    × (out.opt.src ≡ source_adf_simplex)
    × Available out.opt.colormode_emul feeder
    × (mode_bit out.opt.colormode_real feeder.colormodes ≡ false)
unfolding caps_src
set_source_stale_example =
    set_source_stale defaults source_adf_simplex feeder refl feeder-IsUsable refl refl

start_scan-IsRequest_example :
    IsRequest flatbed
      (fill_params mm2px (record at_rest { opt = options_of defaults flatbed (pos 300) 5 })).params
start_scan-IsRequest_example =
    start_scan-IsRequest mm2px at_rest defaults flatbed (pos 300) 5 (λ a b h. h) flatbed-IsUsable
      (record {
        wid = omega arith;
        hei = omega arith;
        some_wid = omega arith;
        some_hei = omega arith;
      })
      defaults-IsSettled
