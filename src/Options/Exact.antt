-- ===== src/Options/Exact.antt =====
-- Numbers that are set and read again, and the bit of `*info` that tells of a difference.
use sane_airscan.Base.{
  ◌≡◌, refl, sym, ap, ◌∙◌, inl, inr, Bool, true, false, not, Option, none, some, Bool-cases,
}
use sane_airscan.Base.Int.{ℤ, eqb_ℤ}
use sane_airscan.Math.{math_range_fit}
use sane_airscan.Caps.{DevcapsSource}
use sane_airscan.Options.Data.{Devopt, caps_src, Parameters, Descriptors}
use sane_airscan.Options.Choose.{devopt_rebuild_opt_desc, devopt_choose_resolution}
use sane_airscan.Options.Single.{
  Outcome, resolution_set, set_resolution_at, set_geom_at, Corner, at_tl_x, at_tl_y, at_br_x,
  at_br_y, corner, set_corner, corner_range, Enhancement, of_brightness, of_contrast, of_shadow,
  of_highlight, of_gamma, enh_range, set_enhancement, devopt_set_enh,
}
use sane_airscan.Options.Handlers.{
  ModeNames, handle, reload, reload_desc, reload_params_if, with_opt, with_params,
  devopt_update_params, devopt_set_option, params_of,
}
use sane_airscan.Options.Get.{
  Numeric, of_resolution, of_window, of_enhancement, numeric, number, enhancement, word, set_number,
  devopt_get_option,
}
use sane_airscan.Options.Valid.{AllUsable, IsConsistent}
use sane_airscan.Options.Runs.{set_option-Returns}

-- An outcome that says truly whether the number is the one that was set.
abbrev Tells : Numeric → ℤ → Outcome → Type 0
Tells name v out = out.info.inexact ≡ not (eqb_ℤ (number out.opt name) v)

corner-set : (opt : Devopt) (at : Corner) (v : ℤ) → corner (set_corner opt at v) at ≡ v
corner-set opt at_tl_x v = refl
corner-set opt at_tl_y v = refl
corner-set opt at_br_x v = refl
corner-set opt at_br_y v = refl

enhancement-set :
    (opt : Devopt) (which : Enhancement) (v : ℤ)
    → enhancement (set_enhancement opt which v) which ≡ v
enhancement-set opt of_brightness v = refl
enhancement-set opt of_contrast v = refl
enhancement-set opt of_shadow v = refl
enhancement-set opt of_highlight v = refl
enhancement-set opt of_gamma v = refl

data TellsIn (name : Numeric) (v : ℤ) : Option Outcome → Type 0 where
  no_outcome : TellsIn name v none
  outcome : {out : Outcome} → Tells name v out → TellsIn name v (some out)

told : {name : Numeric} {v : ℤ} {out : Outcome} → TellsIn name v (some out) → Tells name v out
told (outcome t) = t

same_value : (a b : ℤ) → eqb_ℤ a b ≡ true → false ≡ not (eqb_ℤ a b)
same_value a b h = rw h refl

resolution_set-TellsIn :
    (opt : Devopt) (wanted : ℤ) (res : Option ℤ)
    → TellsIn of_resolution wanted (resolution_set opt wanted res)
resolution_set-TellsIn opt wanted none = no_outcome
resolution_set-TellsIn opt wanted (some res) = outcome refl

handle-TellsIn :
    (names : ModeNames) (src : DevcapsSource) (opt : Devopt) (name : Numeric) (v : ℤ)
    → TellsIn name v (handle names src opt (set_number name v))
unfolding handle set_resolution_at set_geom_at devopt_set_enh
handle-TellsIn names src opt of_resolution v = elim (Bool-cases (eqb_ℤ opt.resolution v)) [
  | inl e ↦ rw e (outcome (same_value opt.resolution v e))
  | inr n ↦ rw n (resolution_set-TellsIn opt v (devopt_choose_resolution src v))
]
handle-TellsIn names src opt (of_window at) v = elim (Bool-cases (eqb_ℤ (corner opt at) v)) [
  | inl e ↦ rw e (outcome (same_value (corner opt at) v e))
  | inr n ↦ rw n (outcome (rw (corner-set opt at (math_range_fit (corner_range src at) v)) refl))
]
handle-TellsIn names src opt (of_enhancement which) v =
    outcome (rw (enhancement-set opt which (math_range_fit (enh_range opt which) v)) refl)

-- The reloads change no number.
data SameNumber (name : Numeric) (a : Devopt) : Option Devopt → Type 0 where
  no_options : SameNumber name a none
  options : {b : Devopt} → number b name ≡ number a name → SameNumber name a (some b)

number-reloaded :
    (a : Devopt) (d : Descriptors) (p : Parameters) (name : Numeric)
    → number (record a { desc = d; params = p }) name ≡ number a name
number-reloaded a d p of_resolution = refl
number-reloaded a d p (of_window at_tl_x) = refl
number-reloaded a d p (of_window at_tl_y) = refl
number-reloaded a d p (of_window at_br_x) = refl
number-reloaded a d p (of_window at_br_y) = refl
number-reloaded a d p (of_enhancement of_brightness) = refl
number-reloaded a d p (of_enhancement of_contrast) = refl
number-reloaded a d p (of_enhancement of_shadow) = refl
number-reloaded a d p (of_enhancement of_highlight) = refl
number-reloaded a d p (of_enhancement of_gamma) = refl

desc-SameNumber :
    (name : Numeric) (b : Bool) (src : Option DevcapsSource) (a : Devopt)
    → SameNumber name a (reload_desc b src a)
desc-SameNumber name false src a = options refl
desc-SameNumber name true none a = no_options
desc-SameNumber name true (some src) a =
    options (number-reloaded a (devopt_rebuild_opt_desc a.caps src) a.params name)

params-SameNumber :
    (mm2px : ℤ → ℤ → ℤ) (name : Numeric) (a b : Devopt) (p : Option Parameters)
    → number b name ≡ number a name
    → SameNumber name a (with_params b p)
params-SameNumber mm2px name a b none h = no_options
params-SameNumber mm2px name a b (some p) h = options (number-reloaded b b.desc p name ∙ h)

params_if-SameNumber :
    (mm2px : ℤ → ℤ → ℤ) (name : Numeric) (a : Devopt) (b : Bool) {o : Option Devopt}
    → SameNumber name a o
    → SameNumber name a (reload_params_if mm2px b o)
unfolding devopt_update_params
params_if-SameNumber mm2px name a b no_options = no_options
params_if-SameNumber mm2px name a false (options h) = options h
params_if-SameNumber mm2px name a true (options {b = b} h) =
    params-SameNumber mm2px name a b (params_of mm2px b) h

with_opt-TellsIn :
    (name : Numeric) (v : ℤ) (out : Outcome) {o : Option Devopt}
    → Tells name v out
    → SameNumber name out.opt o
    → TellsIn name v (with_opt out o)
with_opt-TellsIn name v out t no_options = no_outcome
with_opt-TellsIn name v out t (options h) = outcome (t ∙ ap (λ n. not (eqb_ℤ n v)) (sym h))

reload-TellsIn :
    (mm2px : ℤ → ℤ → ℤ) (name : Numeric) (v : ℤ) {result : Option Outcome}
    → TellsIn name v result
    → TellsIn name v (reload mm2px result)
unfolding reload
reload-TellsIn mm2px name v no_outcome = no_outcome
reload-TellsIn mm2px name v (outcome {out = out} t) = with_opt-TellsIn name v out t (
    params_if-SameNumber mm2px name out.opt out.info.reload_params
      (desc-SameNumber name out.info.reload_options (caps_src out.opt.caps out.opt.src) out.opt))

-- In a consistent state of a scanner with usable sources, setting a number returns, and the bit
-- SANE_INFO_INEXACT is set exactly when devopt_get_option then reads another number than was set.
pub get-set_option :
    (mm2px : ℤ → ℤ → ℤ) (names : ModeNames) (opt : Devopt) (name : Numeric) (v : ℤ)
    → AllUsable opt.caps
    → IsConsistent mm2px opt
    → (out : Outcome) × (now : ℤ) × (devopt_set_option mm2px names opt (set_number name v)
        ≡ some out)
      × (devopt_get_option names out.opt (numeric name) ≡ some (word now))
      × (out.info.inexact ≡ not (eqb_ℤ now v))
unfolding devopt_set_option devopt_get_option
get-set_option mm2px names opt name v u c =
    let r = set_option-Returns mm2px names opt (set_number name v) u c in
    (r.out, number r.out.opt name, r.returns, refl, told (in_result r.returns))
  where
    in_result :
        {out : Outcome}
        → devopt_set_option mm2px names opt (set_number name v) ≡ some out
        → TellsIn name v (some out)
    in_result e =
        rw (← e)
          (rw c.settled.here (reload-TellsIn mm2px name v (handle-TellsIn names c.at opt name v)))
