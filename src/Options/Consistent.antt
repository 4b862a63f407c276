-- ===== src/Options/Consistent.antt =====
-- devopt_set_option and devopt_set_defaults keep the state of the options consistent.
use sane_airscan.Base.{◌≢◌, refl, inl, inr, Option, some, none}
use sane_airscan.Base.Int.{ℤ, pos}
use sane_airscan.Device.Types.{
  Source, source_unknown, source_platen, source_adf_simplex, source_adf_duplex, inval,
}
use sane_airscan.Uuid.{Text}
use sane_airscan.Id.{
  id_source_by_sane_name, id_colormode_by_sane_name, id_source_sane_name_table,
  id_colormode_sane_name_table,
}
use sane_airscan.Id.Lookup.{is_terminated, lookup_ends}
use sane_airscan.Options.Data.{
  Devopt, ColorMode, mode_unknown, mode_color, mode_grayscale, mode_bw1,
}
use sane_airscan.Options.Handlers.{
  Setting, opt_scan_resolution, opt_scan_colormode, opt_scan_source, opt_scan_window,
  opt_enhancement, opt_negative, opt_other, ModeNames, source_id, mode_id, known_mode, known_source,
  by_mode_name, by_source_name, handle, devopt_set_option,
}
use sane_airscan.Caps.Usable.{IsUsable}
use sane_airscan.Options.Valid.{AllUsable, IsConsistent}
use sane_airscan.Options.Kept.{
  Handled, unchanged_kept, set_resolution_kept, set_colormode_kept, set_source_kept,
}
use sane_airscan.Options.Kept.Window.{set_geom_kept}
use sane_airscan.Options.Kept.Enhance.{set_enh_kept}
use sane_airscan.Options.Reloads.{Returns, reload-Returns}

-- The lookups of names end.
source_ends : (name : Text) → id_source_by_sane_name name ≢ none
unfolding is_terminated
source_ends name = (lookup_ends id_source_sane_name_table (pos 0) name refl).1

colormode_ends :
    (names : ModeNames) (name : Text)
    → id_colormode_by_sane_name names.halftone names.gray names.color name ≢ none
unfolding is_terminated
colormode_ends names name =
    (lookup_ends (id_colormode_sane_name_table names.halftone names.gray names.color) (pos 0) name
      refl).1

module _ (mm2px : ℤ → ℤ → ℤ) (opt : Devopt) (c : IsConsistent mm2px opt)
    (u : AllUsable opt.caps) where
  known_mode_kept : (mode : ColorMode) → Handled mm2px opt (known_mode c.at opt mode)
  known_mode_kept mode_unknown = unchanged_kept mm2px opt c inval (inr refl)
  known_mode_kept mode_color = set_colormode_kept mm2px opt c mode_color
  known_mode_kept mode_grayscale = set_colormode_kept mm2px opt c mode_grayscale
  known_mode_kept mode_bw1 = set_colormode_kept mm2px opt c mode_bw1

  known_source_kept : (id : Source) → Handled mm2px opt (known_source opt id)
  known_source_kept source_unknown = unchanged_kept mm2px opt c inval (inr refl)
  known_source_kept source_platen = set_source_kept mm2px opt c source_platen u
  known_source_kept source_adf_simplex = set_source_kept mm2px opt c source_adf_simplex u
  known_source_kept source_adf_duplex = set_source_kept mm2px opt c source_adf_duplex u

  by_mode_name_kept : (id : Option ℤ) → id ≢ none → Handled mm2px opt (by_mode_name c.at opt id)
  by_mode_name_kept none h = absurd (h refl)
  by_mode_name_kept (some id) h = known_mode_kept (mode_id id)

  by_source_name_kept : (id : Option ℤ) → id ≢ none → Handled mm2px opt (by_source_name opt id)
  by_source_name_kept none h = absurd (h refl)
  by_source_name_kept (some id) h = known_source_kept (source_id id)

  here-IsUsable : IsUsable c.at
  here-IsUsable = u opt.src c.at c.settled.here

  handle_kept :
      (names : ModeNames) (setting : Setting) → Handled mm2px opt (handle names c.at opt setting)
  unfolding handle
  handle_kept names (opt_scan_resolution v) = set_resolution_kept mm2px opt c v here-IsUsable
  handle_kept names (opt_scan_colormode name) = by_mode_name_kept _ (colormode_ends names name)
  handle_kept names (opt_scan_source name) = by_source_name_kept _ (source_ends name)
  handle_kept names (opt_scan_window at v) = set_geom_kept mm2px opt c at v here-IsUsable
  handle_kept names (opt_enhancement which v) = set_enh_kept mm2px opt c which v
  handle_kept names (opt_negative v) = record {
    out = _;
    returns = refl;
    at = c.at;
    settled = record {
      here = c.settled.here;
      mode = c.settled.mode;
      resolution = c.settled.resolution;
      window = c.settled.window;
      enhanced = c.settled.enhanced;
    };
    same_caps = refl;
    params = λ _. c.params;
    desc = λ _. c.desc;
    atomic = inl refl;
  }
  handle_kept names opt_other = unchanged_kept mm2px opt c inval (inr refl)

  pub set_option_lem :
      (names : ModeNames) (setting : Setting)
      → Returns mm2px opt (devopt_set_option mm2px names opt setting)
  unfolding devopt_set_option
  set_option_lem names setting =
      rw c.settled.here (reload-Returns mm2px opt _ (handle_kept names setting))
