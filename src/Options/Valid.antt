-- ===== src/Options/Valid.antt =====
-- What the state of airscan-devops.c rests on, and what it keeps.
use sane_airscan.Base.{◌≡◌, refl, inl, inr, true, false, some, Bool-cases}
use sane_airscan.Base.Int.{ℤ, ◌≤ℤ◌, ◌+ℤ◌}
use sane_airscan.Device.Types.{Source}
use sane_airscan.Array.Intersect.{has}
use sane_airscan.Caps.{DevcapsSource, res_discrete}
use sane_airscan.Options.Data.{Devcaps, Devopt, caps_src}
use sane_airscan.Options.Choose.{
  fix, devopt_percent_range, devopt_gamma_range, devopt_choose_resolution, devopt_rebuild_opt_desc,
}
use sane_airscan.Options.Handlers.{params_of}
use sane_airscan.Caps.Usable.{IsUsable}
use sane_airscan.Math.Within.{IsInRange, range_fit-IsInRange}
use sane_airscan.Options.Nearest.{choose_resolution_lem}
use sane_airscan.Options.Modes.{Available}

abbrev pub AllUsable : Devcaps → Type 0
AllUsable caps = (id : Source) (src : DevcapsSource) → caps_src caps id ≡ some src → IsUsable src

-- The source can scan at the resolution.
pub record IsSupported (src : DevcapsSource) (res : ℤ) : Type 0 where
  pub listed : src.flags res_discrete ≡ true → has res src.resolutions ≡ true
  pub ranged : src.flags res_discrete ≡ false → IsInRange src.res_range res

-- The corners of a window that the source can scan.
pub record IsWindow (src : DevcapsSource) (tl_x tl_y br_x br_y : ℤ) : Type 0 where
  pub left : IsInRange src.win_x_range_mm tl_x
  pub top : IsInRange src.win_y_range_mm tl_y
  pub right : IsInRange src.win_x_range_mm br_x
  pub bottom : IsInRange src.win_y_range_mm br_y

-- Shadow is below highlight by one percent at least, and all enhancements are in their ranges.
pub record IsEnhanced (b c s h g : ℤ) : Type 0 where
  pub brightness : IsInRange devopt_percent_range b
  pub contrast : IsInRange devopt_percent_range c
  pub dark : fix 0 ≤ℤ s
  pub order : s +ℤ fix 1 ≤ℤ h
  pub light : h ≤ℤ fix 100
  pub gamma : IsInRange devopt_gamma_range g

-- The state against its current source, without what is worked out of it.
pub record IsSettled (src : DevcapsSource) (opt : Devopt) : Type 0 where
  pub here : caps_src opt.caps opt.src ≡ some src
  pub mode : Available opt.colormode_emul src
  pub resolution : IsSupported src opt.resolution
  pub window : IsWindow src opt.tl_x opt.tl_y opt.br_x opt.br_y
  pub enhanced : IsEnhanced opt.brightness opt.contrast opt.shadow opt.highlight opt.gamma

-- The state between the calls: the descriptors and the parameters are those of the options.
pub record IsConsistent (mm2px : ℤ → ℤ → ℤ) (opt : Devopt) : Type 0 where
  pub at : DevcapsSource
  pub settled : IsSettled at opt
  pub params : params_of mm2px opt ≡ some opt.params
  pub desc : opt.desc ≡ devopt_rebuild_opt_desc opt.caps at

ranged-IsSupported :
    (src : DevcapsSource) (wanted : ℤ)
    → src.flags res_discrete ≡ false
    → IsUsable src
    → (res : ℤ) × ((devopt_choose_resolution src wanted ≡ some res) × IsSupported src res)
unfolding devopt_choose_resolution
ranged-IsSupported src wanted n u = rw n (
  _,
  (
    refl,
    record {
      listed = λ y. absurd (cc);
      ranged = λ _. range_fit-IsInRange src.res_range wanted (u.ranged (rw n at u.resolution));
    },
  ),
)

listed-IsSupported :
    (src : DevcapsSource) (wanted : ℤ)
    → src.flags res_discrete ≡ true
    → IsUsable src
    → (res : ℤ) × ((devopt_choose_resolution src wanted ≡ some res) × IsSupported src res)
listed-IsSupported src wanted d u =
    let (res, (e, near)) = choose_resolution_lem src wanted d (u.discrete d) in
    (res, (e, record { listed = λ _. near.listed; ranged = λ n. absurd (cc) }))

-- A resolution is chosen, and the source can scan at it.
pub choose-IsSupported :
    (src : DevcapsSource) (wanted : ℤ)
    → IsUsable src
    → (res : ℤ) × ((devopt_choose_resolution src wanted ≡ some res) × IsSupported src res)
choose-IsSupported src wanted u = elim (Bool-cases (src.flags res_discrete)) [
  | inl d ↦ listed-IsSupported src wanted d u
  | inr n ↦ ranged-IsSupported src wanted n u
]
