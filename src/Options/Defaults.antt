-- ===== src/Options/Defaults.antt =====
-- devopt_set_defaults gives a consistent state.
use sane_airscan.Base.{◌≡◌, refl, ◌⊎◌, inl, inr, true, Option, some, none, arith}
use sane_airscan.Base.Int.{ℤ, pos, int_laws}
use sane_airscan.Device.Types.{
  Source, source_unknown, source_platen, source_adf_simplex, source_adf_duplex,
}
use sane_airscan.Caps.{DevcapsSource}
use sane_airscan.Options.Data.{Devcaps, Devopt, caps_src, ColorMode, mode_unknown}
use sane_airscan.Options.Choose.{fix, devopt_choose_default_source, first_source, mode_bit}
use sane_airscan.Options.Handlers.{devopt_update_params, default_values, devopt_set_defaults}
use sane_airscan.Options.Modes.{Available, choose_colormode_lem, real_colormode_lem}
use sane_airscan.Caps.Usable.{IsUsable}
use sane_airscan.Options.Valid.{
  AllUsable, IsSupported, IsEnhanced, IsSettled, IsConsistent, choose-IsSupported,
}
use sane_airscan.Options.Kept.{whole-IsWindow}
use sane_airscan.Options.Reloads.{settled-IsConsistent, params_lem}

found : (o : Option DevcapsSource) → (o ≡ none) ⊎ ((src : DevcapsSource) × (o ≡ some src))
found none = inl refl
found (some src) = inr (src, refl)

none_there :
    (caps : Devcaps)
    → caps_src caps source_platen ≡ none
    → caps_src caps source_adf_simplex ≡ none
    → caps_src caps source_adf_duplex ≡ none
    → (id : Source) → caps_src caps id ≡ none
unfolding caps_src
none_there caps a b c source_unknown = refl
none_there caps a b c source_platen = a
none_there caps a b c source_adf_simplex = b
none_there caps a b c source_adf_duplex = c

-- A source that is there is chosen, if there is one.
default_source_lem :
    (caps : Devcaps) (id : Source) (src : DevcapsSource)
    → caps_src caps id ≡ some src
    → (id2 : Source) × ((src2 : DevcapsSource) × ((devopt_choose_default_source caps ≡ some id2)
          × (caps_src caps id2 ≡ some src2)))
unfolding devopt_choose_default_source first_source caps_src
default_source_lem caps id src e = elim (found caps.platen) [
  | inr (s, a) ↦ (source_platen, (s, (rw a refl, a)))
  | inl a ↦ elim (found caps.adf_simplex) [
    | inr (s, b) ↦ (source_adf_simplex, (s, (rw (a, b) refl, b)))
    | inl b ↦ elim (found caps.adf_duplex) [
      | inr (s, c) ↦ (source_adf_duplex, (s, (rw (a, b, c) refl, c)))
      | inl c ↦ absurd (let n = none_there caps a b c id in cc)
    ]
  ]
]

default_enhancements : IsEnhanced (fix 0) (fix 0) (fix 0) (fix 100) (fix 1)
default_enhancements = record {
  brightness = record { lower = omega int_laws; upper = omega arith };
  contrast = record { lower = omega int_laws; upper = omega arith };
  dark = omega arith;
  order = omega int_laws;
  light = omega arith;
  gamma = record { lower = omega arith; upper = omega arith };
}

default_values-IsSettled :
    (opt : Devopt) (id : Source) (src : DevcapsSource) (mode : ColorMode) (res : ℤ)
    (real : ColorMode)
    → caps_src opt.caps id ≡ some src
    → IsUsable src
    → Available mode src
    → IsSupported src res
    → IsSettled src (default_values opt id src mode res real)
default_values-IsSettled opt id src mode res real e u a r = record {
  here = e;
  mode = a;
  resolution = r;
  window = whole-IsWindow src u;
  enhanced = default_enhancements;
}

-- The defaults, and what they are: a consistent state of the same capabilities, in which the scanner
-- is asked for a color mode of its own.
pub record IsDefault (mm2px : ℤ → ℤ → ℤ) (caps : Devcaps) (opt : Devopt) : Type 0 where
  pub consistent : IsConsistent mm2px opt
  pub same_caps : opt.caps ≡ caps
  pub current : DevcapsSource
  pub here : caps_src caps opt.src ≡ some current
  pub real : mode_bit opt.colormode_real current.colormodes ≡ true

-- When the scanner has a source, and all of its sources are usable, devopt_set_defaults returns. The
-- state is consistent then, has the same capabilities, and the color mode that the scanner will be
-- asked for is one of the current source.
pub set_defaults_lem :
    (mm2px : ℤ → ℤ → ℤ) (opt : Devopt) (id : Source) (src : DevcapsSource)
    → caps_src opt.caps id ≡ some src
    → AllUsable opt.caps
    → (opt2 : Devopt) × ((devopt_set_defaults mm2px opt ≡ some opt2)
        × IsDefault mm2px opt.caps opt2)
unfolding devopt_set_defaults devopt_update_params
set_defaults_lem mm2px opt id src e u =
    let (id2, (src2, (f, g))) = default_source_lem opt.caps id src e in
    let usable = u id2 src2 g in
    let (mode, (m, a)) = choose_colormode_lem src2 mode_unknown usable.modes in
    let (res, (r, s)) = choose-IsSupported src2 (pos 300) usable in
    let (real, (k, own)) = real_colormode_lem mode src2 a in
    let settled = default_values-IsSettled opt id2 src2 mode res real g usable a s in
    let (p, q) = params_lem mm2px (default_values opt id2 src2 mode res real) src2 a in
    (
      _,
      (
        rw (f, g, m, r, k, g, q) refl,
        record {
          consistent =
              settled-IsConsistent mm2px src2 (default_values opt id2 src2 mode res real) p settled
                q;
          same_caps = refl;
          current = src2;
          here = g;
          real = own;
        },
      ),
    )
