-- ===== src/Options/Kept/Enhance.antt =====
-- devopt_set_enh keeps the state settled.
use sane_airscan.Base.{◌≡◌, refl, sym, ap, ◌∙◌, inl, some, arith}
use sane_airscan.Base.Int.{ℤ, int_laws}
use sane_airscan.Math.{math_range_fit}
use sane_airscan.Options.Data.{Devopt}
use sane_airscan.Options.Single.{
  Enhancement, of_brightness, of_contrast, of_shadow, of_highlight, of_gamma, enh_range,
  set_enhancement, devopt_set_enh,
}
use sane_airscan.Options.Handlers.{params_of}
use sane_airscan.Math.Within.{IsRange, IsInRange, range_fit-IsInRange}
use sane_airscan.Options.Valid.{IsEnhanced, IsSettled, IsConsistent}
use sane_airscan.Options.Kept.{Handled}

module _ (mm2px : ℤ → ℤ → ℤ) (opt : Devopt) (c : IsConsistent mm2px opt) where
  enhanced_settled :
      (b k s h g : ℤ)
      → IsEnhanced b k s h g
      → IsSettled c.at
          (record opt { brightness = b; contrast = k; shadow = s; highlight = h; gamma = g })
  enhanced_settled b k s h g e = record {
    here = c.settled.here;
    mode = c.settled.mode;
    resolution = c.settled.resolution;
    window = c.settled.window;
    enhanced = e;
  }

  enhancement_settled :
      (which : Enhancement) (v : ℤ)
      → IsInRange (enh_range opt which) v
      → IsSettled c.at (set_enhancement opt which v)
  enhancement_settled of_brightness v r =
      let e = c.settled.enhanced in
      enhanced_settled v opt.contrast opt.shadow opt.highlight opt.gamma (record {
        brightness = r;
        contrast = e.contrast;
        dark = e.dark;
        order = e.order;
        light = e.light;
        gamma = e.gamma;
      })
  enhancement_settled of_contrast v r =
      let e = c.settled.enhanced in
      enhanced_settled opt.brightness v opt.shadow opt.highlight opt.gamma (record {
        brightness = e.brightness;
        contrast = r;
        dark = e.dark;
        order = e.order;
        light = e.light;
        gamma = e.gamma;
      })
  enhancement_settled of_shadow v r =
      let e = c.settled.enhanced in
      enhanced_settled opt.brightness opt.contrast v opt.highlight opt.gamma (record {
        brightness = e.brightness;
        contrast = e.contrast;
        dark = r.lower;
        order = omega (int_laws, r.upper);
        light = e.light;
        gamma = e.gamma;
      })
  enhancement_settled of_highlight v r =
      let e = c.settled.enhanced in
      enhanced_settled opt.brightness opt.contrast opt.shadow v opt.gamma (record {
        brightness = e.brightness;
        contrast = e.contrast;
        dark = e.dark;
        order = r.lower;
        light = r.upper;
        gamma = e.gamma;
      })
  enhancement_settled of_gamma v r =
      let e = c.settled.enhanced in
      enhanced_settled opt.brightness opt.contrast opt.shadow opt.highlight v (record {
        brightness = e.brightness;
        contrast = e.contrast;
        dark = e.dark;
        order = e.order;
        light = e.light;
        gamma = r;
      })

  enhancement-caps : (which : Enhancement) (v : ℤ) → (set_enhancement opt which v).caps ≡ opt.caps
  enhancement-caps of_brightness v = refl
  enhancement-caps of_contrast v = refl
  enhancement-caps of_shadow v = refl
  enhancement-caps of_highlight v = refl
  enhancement-caps of_gamma v = refl

  enhancement-desc : (which : Enhancement) (v : ℤ) → (set_enhancement opt which v).desc ≡ opt.desc
  enhancement-desc of_brightness v = refl
  enhancement-desc of_contrast v = refl
  enhancement-desc of_shadow v = refl
  enhancement-desc of_highlight v = refl
  enhancement-desc of_gamma v = refl

  enhancement-params :
      (which : Enhancement) (v : ℤ)
      → (params_of mm2px (set_enhancement opt which v) ≡ params_of mm2px opt)
        × ((set_enhancement opt which v).params ≡ opt.params)
  enhancement-params of_brightness v = (refl, refl)
  enhancement-params of_contrast v = (refl, refl)
  enhancement-params of_shadow v = (refl, refl)
  enhancement-params of_highlight v = (refl, refl)
  enhancement-params of_gamma v = (refl, refl)

  enh_range-IsRange : (which : Enhancement) → IsRange (enh_range opt which)
  enh_range-IsRange of_brightness = record { ordered = omega int_laws; step = omega arith }
  enh_range-IsRange of_contrast = record { ordered = omega int_laws; step = omega arith }
  enh_range-IsRange of_shadow =
      let e = c.settled.enhanced in
      record { ordered = omega (int_laws, e.dark, e.order); step = omega arith }
  enh_range-IsRange of_highlight =
      let e = c.settled.enhanced in
      record { ordered = omega (int_laws, e.order, e.light); step = omega arith }
  enh_range-IsRange of_gamma = record { ordered = omega arith; step = omega arith }

  pub set_enh_kept :
      (which : Enhancement) (v : ℤ) → Handled mm2px opt (some (devopt_set_enh opt which v))
  unfolding devopt_set_enh
  set_enh_kept which v = record {
    out = _;
    returns = refl;
    at = c.at;
    settled =
        enhancement_settled which _
          (range_fit-IsInRange (enh_range opt which) v (enh_range-IsRange which));
    same_caps = enhancement-caps which _;
    params = λ _. kept_params;
    desc = λ _. enhancement-desc which _ ∙ c.desc;
    atomic = inl refl;
  }
    where
      kept_params :
          params_of mm2px (set_enhancement opt which (math_range_fit (enh_range opt which) v))
          ≡ some (set_enhancement opt which (math_range_fit (enh_range opt which) v)).params
      kept_params =
          let (p, q) = enhancement-params which (math_range_fit (enh_range opt which) v) in
          p ∙ (c.params ∙ ap some (sym q))
