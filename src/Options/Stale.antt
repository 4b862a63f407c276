-- ===== src/Options/Stale.antt =====
-- devopt_set_source and the color mode that the scanner is asked for.
use sane_airscan.Base.{◌≡◌, refl, true, false, some}
use sane_airscan.Base.Int.{ℤ}
use sane_airscan.Device.Types.{Source, good}
use sane_airscan.Caps.{DevcapsSource}
use sane_airscan.Caps.Usable.{IsUsable}
use sane_airscan.Options.Data.{Devopt, caps_src, ColorMode}
use sane_airscan.Options.Choose.{mode_bit}
use sane_airscan.Options.Single.{Outcome, same_source, at_source, set_source_at, devopt_set_source}
use sane_airscan.Options.Modes.{Available, choose_colormode_lem}
use sane_airscan.Options.Valid.{choose-IsSupported}

-- A switch to another usable source, which cannot scan in the real color mode of before: the call
-- succeeds, and the emulated color mode is then available on the source, but the real one is still
-- one that the source does not have.
pub set_source_stale :
    (opt : Devopt) (id : Source) (src : DevcapsSource)
    → caps_src opt.caps id ≡ some src
    → IsUsable src
    → same_source opt.src id ≡ false
    → mode_bit opt.colormode_real src.colormodes ≡ false
    → (out : Outcome) × (devopt_set_source opt id ≡ some out)
      × (out.status ≡ good)
      × (out.opt.src ≡ id)
      × Available out.opt.colormode_emul src
      × (mode_bit out.opt.colormode_real src.colormodes ≡ false)
unfolding devopt_set_source set_source_at
set_source_stale opt id src e u n m =
    let (mode, (f, a)) = choose_colormode_lem src opt.colormode_emul u.modes in
    let (res, (g, _)) = choose-IsSupported src opt.resolution u in
    (set_out mode res, rw (e, n, f, g) refl, refl, refl, a, m)
  where
    set_out : ColorMode → ℤ → Outcome
    set_out mode res = record {
      status = good;
      info = record { inexact = false; reload_options = true; reload_params = true };
      opt = at_source opt id src mode res;
    }
