-- ===== src/Caps/Usable.antt =====
-- The sources that a scanner can have.
use sane_airscan.Base.{◌≡◌, ◌≢◌, true, ◌||◌, []}
use sane_airscan.Math.Within.{IsRange, IsExtent}
use sane_airscan.Caps.{DevcapsSource, any_colormode, res_discrete, res_ranged}

-- A source that a scanner can have: color or grayscale, at least one resolution, and a window from 0 on.
pub record IsUsable (src : DevcapsSource) : Type 0 where
  pub modes : any_colormode src.colormodes ≡ true
  pub resolution : (src.flags res_discrete || src.flags res_ranged) ≡ true
  pub discrete : src.flags res_discrete ≡ true → src.resolutions ≢ []
  pub ranged : src.flags res_ranged ≡ true → IsRange src.res_range
  pub x : IsExtent src.win_x_range_mm
  pub y : IsExtent src.win_y_range_mm
