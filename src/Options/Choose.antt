-- ===== src/Options/Choose.antt =====
-- The values that airscan-devops.c chooses for the options of a source, and what it works out of them.
use sane_airscan.Base.{
  ℕ, ◌+◌, ◌*◌, Bool, false, ◌&&◌, ◌||◌, Option, none, some, List, [], ◌∷◌, leb, ◌==◌, if◌then◌else◌,
}
use sane_airscan.Base.Int.{ℤ, pos, pos_part, neg_part, ◌+ℤ◌, ◌-ℤ◌, ◌*ℤ◌, ◌/ℤ◌}
use sane_airscan.Math.{Range, math_range_fit}
use sane_airscan.Device.Types.{Source, source_platen, source_adf_simplex, source_adf_duplex}
use sane_airscan.Caps.{Mask, DevcapsSource, res_discrete}
use sane_airscan.Options.Data.{
  ColorMode, mode_unknown, mode_color, mode_grayscale, mode_bw1, Devcaps, caps_src, frame_gray,
  frame_rgb, Parameters, word_list, in_range, Descriptors,
}

-- SANE_FIX of a whole number.
abbrev pub fix : ℕ → ℤ
fix n = pos (n * 65536)

abbrev pub devopt_percent_range : Range
devopt_percent_range = record { lo = pos 0 -ℤ fix 100; hi = fix 100; quant = fix 1 }

abbrev pub devopt_nonnegative_percent_range : Range
devopt_nonnegative_percent_range = record { lo = fix 0; hi = fix 100; quant = fix 1 }

-- SANE_FIX(0.1) is 6553.
abbrev pub devopt_gamma_range : Range
devopt_gamma_range = record { lo = pos 6553; hi = fix 4; quant = pos 0 }

abbrev pub all_sources : List Source
all_sources = source_platen ∷ source_adf_simplex ∷ source_adf_duplex ∷ []

abbrev or_next : Source → Option DevcapsSource → Option Source → Option Source
or_next id none rest = rest
or_next id (some src) rest = some id

-- The loop over the sources, from the first one on.
unfoldable pub first_source : Devcaps → List Source → Option Source
first_source caps [] = none
first_source caps (id ∷ list) = or_next id (caps_src caps id) (first_source caps list)

unfoldable pub devopt_choose_default_source : Devcaps → Option Source
devopt_choose_default_source caps = first_source caps all_sources

-- The bit of a color mode; the code shifts by no negative number.
abbrev pub mode_bit : ColorMode → Mask → Bool
mode_bit mode_unknown modes = false
mode_bit mode_color modes = modes 0
mode_bit mode_grayscale modes = modes 1
mode_bit mode_bw1 modes = modes 2

-- Color can be resampled to grayscale.
unfoldable pub devopt_available_colormodes : DevcapsSource → Mask
devopt_available_colormodes src i = src.colormodes i || (src.colormodes 0 && i == 1)

unfoldable pub devopt_real_colormode : ColorMode → DevcapsSource → Option ColorMode
devopt_real_colormode mode_grayscale src =
    if src.colormodes 1
    then some mode_grayscale
    else if src.colormodes 0
    then some mode_color
    else none
devopt_real_colormode emulated src =
    if mode_bit emulated src.colormodes then some emulated else none

-- The color modes from one on, as `wanted ++` runs through them.
abbrev pub modes_from : ColorMode → List ColorMode
modes_from mode_unknown = []
modes_from mode_color = mode_color ∷ mode_grayscale ∷ mode_bw1 ∷ []
modes_from mode_grayscale = mode_grayscale ∷ mode_bw1 ∷ []
modes_from mode_bw1 = mode_bw1 ∷ []

unfoldable pub first_mode : Mask → List ColorMode → Option ColorMode
first_mode modes [] = none
first_mode modes (mode ∷ list) =
    let rest = first_mode modes list in if mode_bit mode modes then some mode else rest

abbrev pub first_of : Option ColorMode → Option ColorMode → Option ColorMode
first_of none other = other
first_of (some mode) other = some mode

-- The second loop starts at the first color mode; its assertion fails behind the last one, as no bit
-- of a set of color modes stands behind it.
unfoldable pub devopt_choose_colormode : DevcapsSource → ColorMode → Option ColorMode
devopt_choose_colormode src wanted =
    let modes = devopt_available_colormodes src in
    first_of (first_mode modes (modes_from wanted)) (first_mode modes (modes_from mode_color))

-- labs(a - b).
abbrev pub distance : ℤ → ℤ → ℕ
distance a b = let d = a -ℤ b in pos_part d + neg_part d

-- The loop over the resolutions behind the first one.
unfoldable pub nearest : ℤ → ℤ → ℕ → List ℤ → ℤ
nearest wanted res delta [] = res
nearest wanted res delta (res2 ∷ list) =
    let nearer = nearest wanted res2 (distance wanted res2) list in
    let rest = nearest wanted res delta list in
    if leb (distance wanted res2) delta then nearer else rest

abbrev pub choose_discrete : ℤ → List ℤ → Option ℤ
choose_discrete wanted [] = none
choose_discrete wanted (res ∷ list) = some (nearest wanted res (distance wanted res) list)

unfoldable pub devopt_choose_resolution : DevcapsSource → ℤ → Option ℤ
devopt_choose_resolution src wanted =
    if src.flags res_discrete
    then choose_discrete wanted src.resolutions
    else some (math_range_fit src.res_range wanted)

abbrev keep_source : Source → Option DevcapsSource → List Source → List Source
keep_source id none rest = rest
keep_source id (some src) rest = id ∷ rest

-- The sources that are there, and the modes that are available.
unfoldable pub present_sources : Devcaps → List Source → List Source
present_sources caps [] = []
present_sources caps (id ∷ list) = keep_source id (caps_src caps id) (present_sources caps list)

unfoldable pub present_modes : Mask → List ColorMode → List ColorMode
present_modes modes [] = []
present_modes modes (mode ∷ list) =
    let rest = present_modes modes list in if mode_bit mode modes then mode ∷ rest else rest

unfoldable pub devopt_rebuild_opt_desc : Devcaps → DevcapsSource → Descriptors
devopt_rebuild_opt_desc caps src = record {
  sane_sources = present_sources caps all_sources;
  sane_colormodes = present_modes (devopt_available_colormodes src) (modes_from mode_color);
  resolution = if src.flags res_discrete then word_list src.resolutions else in_range src.res_range;
  window_x = src.win_x_range_mm;
  window_y = src.win_y_range_mm;
}

-- The parameters for a line of `wid` pixels.
unfoldable pub mode_params : ColorMode → ℤ → ℤ → Option Parameters
mode_params mode_color wid lines = some (record {
  format = frame_rgb;
  depth = 8;
  pixels_per_line = wid;
  lines = lines;
  bytes_per_line = wid *ℤ pos 3;
})
mode_params mode_grayscale wid lines = some (record {
  format = frame_gray;
  depth = 8;
  pixels_per_line = wid;
  lines = lines;
  bytes_per_line = wid;
})
mode_params mode_bw1 wid lines = some (record {
  format = frame_gray;
  depth = 1;
  pixels_per_line = wid;
  lines = lines;
  bytes_per_line = (wid +ℤ pos 7) /ℤ pos 8 *ℤ pos 8;
})
mode_params mode_unknown wid lines = none
