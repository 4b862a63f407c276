-- ===== src/Options/Kept/Window.antt =====
-- devopt_set_geom keeps the state settled.
use sane_airscan.Base.{◌≡◌, refl, ◌∙◌, inl, inr, Bool-cases}
use sane_airscan.Base.Int.{ℤ, eqb_ℤ}
use sane_airscan.Device.Types.{good}
use sane_airscan.Options.Data.{Devopt}
use sane_airscan.Options.Single.{
  Corner, at_tl_x, at_tl_y, at_br_x, at_br_y, corner, set_corner, corner_range, set_geom_at,
}
use sane_airscan.Math.Within.{IsRange, extent-IsRange, IsInRange, range_fit-IsInRange}
use sane_airscan.Caps.Usable.{IsUsable}
use sane_airscan.Options.Valid.{IsWindow, IsSettled, IsConsistent}
use sane_airscan.Options.Kept.{Handled, unchanged_kept}

module _ (mm2px : ℤ → ℤ → ℤ) (opt : Devopt) (c : IsConsistent mm2px opt) where
  window_settled :
      (l t r b : ℤ)
      → IsWindow c.at l t r b
      → IsSettled c.at (record opt { tl_x = l; tl_y = t; br_x = r; br_y = b })
  window_settled l t r b w = record {
    here = c.settled.here;
    mode = c.settled.mode;
    resolution = c.settled.resolution;
    window = w;
    enhanced = c.settled.enhanced;
  }

  corner_settled :
      (at : Corner) (v : ℤ)
      → IsInRange (corner_range c.at at) v
      → IsSettled c.at (set_corner opt at v)
  corner_settled at_tl_x v r =
      let w = c.settled.window in
      window_settled v opt.tl_y opt.br_x opt.br_y
        (record { left = r; top = w.top; right = w.right; bottom = w.bottom })
  corner_settled at_tl_y v r =
      let w = c.settled.window in
      window_settled opt.tl_x v opt.br_x opt.br_y
        (record { left = w.left; top = r; right = w.right; bottom = w.bottom })
  corner_settled at_br_x v r =
      let w = c.settled.window in
      window_settled opt.tl_x opt.tl_y v opt.br_y
        (record { left = w.left; top = w.top; right = r; bottom = w.bottom })
  corner_settled at_br_y v r =
      let w = c.settled.window in
      window_settled opt.tl_x opt.tl_y opt.br_x v
        (record { left = w.left; top = w.top; right = w.right; bottom = r })

  -- The rest of the state does not depend on the corner.
  corner-caps : (at : Corner) (v : ℤ) → (set_corner opt at v).caps ≡ opt.caps
  corner-caps at_tl_x v = refl
  corner-caps at_tl_y v = refl
  corner-caps at_br_x v = refl
  corner-caps at_br_y v = refl

  corner-desc : (at : Corner) (v : ℤ) → (set_corner opt at v).desc ≡ opt.desc
  corner-desc at_tl_x v = refl
  corner-desc at_tl_y v = refl
  corner-desc at_br_x v = refl
  corner-desc at_br_y v = refl

  pub set_geom_kept :
      (at : Corner) (v : ℤ) → IsUsable c.at → Handled mm2px opt (set_geom_at c.at opt at v)
  unfolding set_geom_at
  set_geom_kept at v u = elim (Bool-cases (eqb_ℤ (corner opt at) v)) [
    | inl e ↦ rw e (unchanged_kept mm2px opt c good (inl refl))
    | inr n ↦ rw n (record {
      out = _;
      returns = refl;
      at = c.at;
      settled = corner_settled at _ (range_fit-IsInRange (corner_range c.at at) v (ranges at));
      same_caps = corner-caps at _;
      params = λ e. absurd (cc);
      desc = λ _. corner-desc at _ ∙ c.desc;
      atomic = inl refl;
    })
  ]
    where
      ranges : (at : Corner) → IsRange (corner_range c.at at)
      ranges at_tl_x = extent-IsRange _ u.x
      ranges at_tl_y = extent-IsRange _ u.y
      ranges at_br_x = extent-IsRange _ u.x
      ranges at_br_y = extent-IsRange _ u.y
