-- ===== src/Options/Kept.antt =====
-- The handlers of the options keep the state settled.
pub mod Window
pub mod Enhance
use sane_airscan.Base.{
  ◌≡◌, refl, sym, ap, ◌∙◌, ◌⊎◌, inl, inr, false, Option, some, none, arith, Bool-cases,
}
use sane_airscan.Base.Int.{ℤ, pos, int_laws, eqb_ℤ}
use sane_airscan.Math.{Range, math_range_fit}
use sane_airscan.Device.Types.{Source, Status, good, inval}
use sane_airscan.Caps.{DevcapsSource}
use sane_airscan.Options.Data.{Devopt, caps_src, ColorMode}
use sane_airscan.Options.Choose.{devopt_available_colormodes, devopt_rebuild_opt_desc, mode_bit}
use sane_airscan.Options.Single.{
  Outcome, unchanged, resolution_set, set_resolution_at, same_mode, colormode_set, set_colormode_at,
  same_source, source_set, set_source_at, devopt_set_source, Corner, at_tl_x, at_tl_y, at_br_x,
  at_br_y, corner, set_corner, corner_range, set_geom_at, Enhancement, of_brightness, of_contrast,
  of_shadow, of_highlight, of_gamma, enh_range, set_enhancement, devopt_set_enh,
}
use sane_airscan.Options.Handlers.{params_of}
use sane_airscan.Math.Within.{IsRange, IsExtent, extent-IsRange, IsInRange, range_fit-IsInRange}
use sane_airscan.Options.Modes.{Available, real_colormode_lem, choose_colormode_lem}
use sane_airscan.Caps.Usable.{IsUsable}
use sane_airscan.Options.Valid.{
  AllUsable, IsWindow, IsSupported, IsSettled, IsConsistent, choose-IsSupported,
}

-- What a handler leaves: a settled state, in which what does not hold any more is marked for a reload.
pub record Handled (mm2px : ℤ → ℤ → ℤ) (opt : Devopt) (result : Option Outcome) : Type 0 where
  pub out : Outcome
  pub returns : result ≡ some out
  pub at : DevcapsSource
  pub settled : IsSettled at out.opt
  pub same_caps : out.opt.caps ≡ opt.caps
  pub params : out.info.reload_params ≡ false → params_of mm2px out.opt ≡ some out.opt.params
  pub desc : out.info.reload_options ≡ false → out.opt.desc ≡ devopt_rebuild_opt_desc opt.caps at
  pub atomic : (out.status ≡ good) ⊎ (out ≡ unchanged inval opt)

-- The window that a new source gets.
pub whole-IsWindow :
    (src : DevcapsSource)
    → IsUsable src
    → IsWindow src (pos 0) (pos 0) src.win_x_range_mm.hi src.win_y_range_mm.hi
whole-IsWindow src u = record {
  left = from_zero src.win_x_range_mm u.x;
  top = from_zero src.win_y_range_mm u.y;
  right = at_end src.win_x_range_mm u.x;
  bottom = at_end src.win_y_range_mm u.y;
}
  where
    from_zero : (r : Range) → IsExtent r → IsInRange r (pos 0)
    from_zero r e = let low = e.low in record { lower = rw low (omega arith); upper = e.high }

    at_end : (r : Range) → IsExtent r → IsInRange r r.hi
    at_end r e = record { lower = (extent-IsRange r e).ordered; upper = omega arith }

module _ (mm2px : ℤ → ℤ → ℤ) (opt : Devopt) (c : IsConsistent mm2px opt) where
  pub unchanged_kept :
      (status : Status)
      → (status ≡ good) ⊎ (status ≡ inval)
      → Handled mm2px opt (some (unchanged status opt))
  unchanged_kept status h = record {
    out = unchanged status opt;
    returns = refl;
    at = c.at;
    settled = c.settled;
    same_caps = refl;
    params = λ _. c.params;
    desc = λ _. c.desc;
    atomic = elim h [ inl e ↦ inl e | inr e ↦ inr (ap (λ s. unchanged s opt) e) ];
  }

  resolution_kept :
      (res wanted : ℤ)
      → IsSupported c.at res
      → Handled mm2px opt (resolution_set opt wanted (some res))
  resolution_kept res wanted s = record {
    out = _;
    returns = refl;
    at = c.at;
    settled = record {
      here = c.settled.here;
      mode = c.settled.mode;
      resolution = s;
      window = c.settled.window;
      enhanced = c.settled.enhanced;
    };
    same_caps = refl;
    params = λ e. absurd (cc);
    desc = λ _. c.desc;
    atomic = inl refl;
  }

  pub set_resolution_kept :
      (wanted : ℤ) → IsUsable c.at → Handled mm2px opt (set_resolution_at c.at opt wanted)
  unfolding set_resolution_at
  set_resolution_kept wanted u = elim (Bool-cases (eqb_ℤ opt.resolution wanted)) [
    | inl e ↦ rw e (unchanged_kept good (inl refl))
    | inr n ↦
        let (res, (e, s)) = choose-IsSupported c.at wanted u in
        rw (n, e) (resolution_kept res wanted s)
  ]

  colormode_kept :
      (mode real : ColorMode)
      → Available mode c.at
      → Handled mm2px opt (colormode_set opt mode (some real))
  colormode_kept mode real a = record {
    out = _;
    returns = refl;
    at = c.at;
    settled = record {
      here = c.settled.here;
      mode = a;
      resolution = c.settled.resolution;
      window = c.settled.window;
      enhanced = c.settled.enhanced;
    };
    same_caps = refl;
    params = λ e. absurd (cc);
    desc = λ _. c.desc;
    atomic = inl refl;
  }

  pub set_colormode_kept : (mode : ColorMode) → Handled mm2px opt (set_colormode_at c.at opt mode)
  unfolding set_colormode_at
  set_colormode_kept mode = elim (Bool-cases (same_mode opt.colormode_emul mode)) [
    | inl e ↦ rw e (unchanged_kept good (inl refl))
    | inr n ↦ elim (Bool-cases (mode_bit mode (devopt_available_colormodes c.at))) [
      | inl a ↦
          let (real, (e, _)) = real_colormode_lem mode c.at a in
          rw (n, a, e) (colormode_kept mode real a)
      | inr b ↦ rw (n, b) (unchanged_kept inval (inr refl))
    ]
  ]

  source_kept :
      (id : Source) (src : DevcapsSource) (mode : ColorMode) (res : ℤ)
      → caps_src opt.caps id ≡ some src
      → IsUsable src
      → Available mode src
      → IsSupported src res
      → Handled mm2px opt (source_set opt id src (some mode) (some res))
  source_kept id src mode res e u a r = record {
    out = _;
    returns = refl;
    at = src;
    settled = record {
      here = e;
      mode = a;
      resolution = r;
      window = whole-IsWindow src u;
      enhanced = c.settled.enhanced;
    };
    same_caps = refl;
    params = λ e. absurd (cc);
    desc = λ e. absurd (cc);
    atomic = inl refl;
  }

  source_at_kept :
      (found : Option DevcapsSource) (id : Source)
      → caps_src opt.caps id ≡ found
      → AllUsable opt.caps
      → Handled mm2px opt (set_source_at found opt id)
  unfolding set_source_at
  source_at_kept none id e u = unchanged_kept inval (inr refl)
  source_at_kept (some src) id e u = elim (Bool-cases (same_source opt.src id)) [
    | inl y ↦ rw y (unchanged_kept good (inl refl))
    | inr n ↦
        let usable = u id src e in
        let (mode, (f, a)) = choose_colormode_lem src opt.colormode_emul usable.modes in
        let (res, (g, r)) = choose-IsSupported src opt.resolution usable in
        rw (n, f, g) (source_kept id src mode res e usable a r)
  ]

  pub set_source_kept :
      (id : Source) → AllUsable opt.caps → Handled mm2px opt (devopt_set_source opt id)
  unfolding devopt_set_source
  set_source_kept id u = source_at_kept (caps_src opt.caps id) id refl u
