-- ===== src/Options/Modes.antt =====
-- The color modes that airscan-devops.c chooses are available, and have a real one.
use sane_airscan.Base.{
  ◌≡◌, ◌⊎◌, refl, inl, inr, true, Option, some, none, List, [], ◌∷◌, arith, Bool-cases,
}
use sane_airscan.Caps.{Mask, DevcapsSource, any_colormode}
use sane_airscan.Options.Data.{ColorMode, mode_unknown, mode_color, mode_grayscale, mode_bw1}
use sane_airscan.Options.Choose.{
  mode_bit, devopt_available_colormodes, devopt_real_colormode, modes_from, first_mode, first_of,
  devopt_choose_colormode,
}

abbrev pub Available : ColorMode → DevcapsSource → Type 0
Available mode src = mode_bit mode (devopt_available_colormodes src) ≡ true

-- The mode that the scanner is asked for is one of its own.
pub real_colormode_lem :
    (mode : ColorMode) (src : DevcapsSource)
    → Available mode src
    → (real : ColorMode) × ((devopt_real_colormode mode src ≡ some real)
        × (mode_bit real src.colormodes ≡ true))
unfolding devopt_real_colormode devopt_available_colormodes
real_colormode_lem mode_unknown src h = absurd (ground arith)
real_colormode_lem mode_color src h =
    let own : src.colormodes 0 ≡ true = ground arith in (mode_color, (rw own refl, own))
real_colormode_lem mode_grayscale src h = elim (Bool-cases (src.colormodes 1)) [
  | inl own ↦ (mode_grayscale, (rw own refl, own))
  | inr n ↦
      let own : src.colormodes 0 ≡ true = ground arith in (mode_color, (rw (n, own) refl, own))
]
real_colormode_lem mode_bw1 src h =
    let own : src.colormodes 2 ≡ true = ground arith in (mode_bw1, (rw own refl, own))

first_of-some :
    (a b : Option ColorMode) (m : ColorMode) → first_of a b ≡ some m → (a ≡ some m) ⊎ (b ≡ some m)
first_of-some none b m h = inr h
first_of-some (some x) b m h = inl h

first_hit :
    (a b : ColorMode) (modes : Mask)
    → mode_bit a modes ≡ true
    → some a ≡ some b
    → mode_bit b modes ≡ true
first_hit a b modes h e = cc

first_mode-bit :
    (modes : Mask) (list : List ColorMode) (m : ColorMode)
    → first_mode modes list ≡ some m
    → mode_bit m modes ≡ true
unfolding first_mode
first_mode-bit modes [] m h = absurd (cc)
first_mode-bit modes (mode ∷ list) m h = elim (Bool-cases (mode_bit mode modes)) [
  | inl e ↦ first_hit mode m modes e (rw e at h)
  | inr n ↦ first_mode-bit modes list m (rw n at h)
]

first_of-some_right :
    (a b : Option ColorMode) (m : ColorMode)
    → b ≡ some m
    → (x : ColorMode) × (first_of a b ≡ some x)
first_of-some_right none b m h = (m, h)
first_of-some_right (some x) b m h = (x, refl)

first_color :
    (src : DevcapsSource)
    → any_colormode src.colormodes ≡ true
    → (m : ColorMode) × (first_mode (devopt_available_colormodes src) (modes_from mode_color)
        ≡ some m)
unfolding first_mode devopt_available_colormodes
first_color src h = elim (Bool-cases (src.colormodes 0)) [
  | inl e ↦ (mode_color, rw e refl)
  | inr n ↦ let gray : src.colormodes 1 ≡ true = rw n at h in (mode_grayscale, rw (n, gray) refl)
]

-- On a source with color or grayscale a mode is chosen, whatever was wanted, and it is available.
pub choose_colormode_lem :
    (src : DevcapsSource) (wanted : ColorMode)
    → any_colormode src.colormodes ≡ true
    → (mode : ColorMode) × ((devopt_choose_colormode src wanted ≡ some mode) × Available mode src)
unfolding devopt_choose_colormode
choose_colormode_lem src wanted h =
    let (m, e) = first_color src h in
    let (mode, f) =
      first_of-some_right (first_mode (devopt_available_colormodes src) (modes_from wanted)) _ m
        e in
    (mode, (f, chosen mode f))
  where
    chosen :
        (mode : ColorMode)
        → first_of
            (first_mode (devopt_available_colormodes src) (modes_from wanted))
            (first_mode (devopt_available_colormodes src) (modes_from mode_color))
          ≡ some mode
        → mode_bit mode (devopt_available_colormodes src) ≡ true
    chosen mode f = elim (first_of-some _ _ mode f) [
      | inl a ↦ first_mode-bit (devopt_available_colormodes src) (modes_from wanted) mode a
      | inr b ↦ first_mode-bit (devopt_available_colormodes src) (modes_from mode_color) mode b
    ]
