-- ===== src/Options/Reloads.antt =====
-- What follows the switch in devopt_set_option makes the state consistent again.
use mathlib.Core.Option
use sane_airscan.Base.{◌≡◌, refl, sym, ap, ◌∙◌, ◌⊎◌, inl, inr, Bool, true, false, Option, some}
use sane_airscan.Base.Int.{ℤ}
use sane_airscan.Device.Types.{good, inval}
use sane_airscan.Caps.{DevcapsSource}
use sane_airscan.Options.Data.{
  Devopt, ColorMode, mode_unknown, mode_color, mode_grayscale, mode_bw1, Parameters,
}
use sane_airscan.Options.Choose.{devopt_rebuild_opt_desc, mode_params}
use sane_airscan.Options.Single.{Outcome, unchanged}
use sane_airscan.Options.Handlers.{
  params_of, with_params, devopt_update_params, reload_desc, reload_params_if, with_opt, reload,
}
use sane_airscan.Options.Modes.{Available}
use sane_airscan.Options.Valid.{IsSettled, IsConsistent}
use sane_airscan.Options.Kept.{Handled}

-- A call that returns, with a consistent state and the same capabilities.
pub record Returns (mm2px : ℤ → ℤ → ℤ) (opt : Devopt) (result : Option Outcome) : Type 0 where
  pub out : Outcome
  pub returns : result ≡ some out
  pub consistent : IsConsistent mm2px out.opt
  pub same_caps : out.opt.caps ≡ opt.caps
  pub atomic : (out.status ≡ good) ⊎ (out ≡ unchanged inval opt)

-- An available color mode has parameters.
pub params_lem :
    (mm2px : ℤ → ℤ → ℤ) (opt : Devopt) (src : DevcapsSource)
    → Available opt.colormode_emul src
    → (p : Parameters) × (params_of mm2px opt ≡ some p)
unfolding mode_params
params_lem mm2px opt src a = by_mode opt.colormode_emul a _ _
  where
    by_mode :
        (mode : ColorMode)
        → Available mode src
        → (wid lines : ℤ) → (p : Parameters) × (mode_params mode wid lines ≡ some p)
    by_mode mode_unknown a wid lines = absurd (cc)
    by_mode mode_color a wid lines = (_, refl)
    by_mode mode_grayscale a wid lines = (_, refl)
    by_mode mode_bw1 a wid lines = (_, refl)

desc_lem :
    (b : Bool) (src : DevcapsSource) (opt : Devopt)
    → (b ≡ false → opt.desc ≡ devopt_rebuild_opt_desc opt.caps src)
    → reload_desc b (some src) opt
      ≡ some (record opt { desc = devopt_rebuild_opt_desc opt.caps src })
desc_lem false src opt h = ap (λ d. some (record opt { desc = d })) (h refl)
desc_lem true src opt h = refl

params_if_lem :
    (mm2px : ℤ → ℤ → ℤ) (b : Bool) (opt : Devopt) (p : Parameters)
    → params_of mm2px opt ≡ some p
    → (b ≡ false → params_of mm2px opt ≡ some opt.params)
    → reload_params_if mm2px b (some opt) ≡ some (record opt { params = p })
unfolding devopt_update_params
params_if_lem mm2px false opt p e h =
    ap (Option.map (λ (q : Parameters). record opt { params = q })) (sym (h refl) ∙ e)
params_if_lem mm2px true opt p e h = ap (with_params opt) e

-- The state after both reloads.
pub settled-IsConsistent :
    (mm2px : ℤ → ℤ → ℤ) (src : DevcapsSource) (opt : Devopt) (p : Parameters)
    → IsSettled src opt
    → params_of mm2px opt ≡ some p
    → IsConsistent mm2px (record opt { desc = devopt_rebuild_opt_desc opt.caps src; params = p })
settled-IsConsistent mm2px src opt p s e = record {
  at = src;
  settled = record {
    here = s.here;
    mode = s.mode;
    resolution = s.resolution;
    window = s.window;
    enhanced = s.enhanced;
  };
  params = e;
  desc = refl;
}

reload_out :
    (mm2px : ℤ → ℤ → ℤ) (opt : Devopt) (result : Option Outcome) (h : Handled mm2px opt result)
    → (p : Parameters) → params_of mm2px h.out.opt ≡ some p
    → reload mm2px (some h.out)
      ≡ some (record h.out {
        opt = record h.out.opt { desc = devopt_rebuild_opt_desc h.out.opt.caps h.at; params = p };
      })
unfolding reload
reload_out mm2px opt result h p e =
    let here = h.settled.here in
    rw (here, desc_lem h.out.info.reload_options h.at h.out.opt same_desc)
      (ap (with_opt h.out) (
        params_if_lem mm2px h.out.info.reload_params
          (record h.out.opt { desc = devopt_rebuild_opt_desc h.out.opt.caps h.at }) p e h.params))
  where
    same_desc :
        h.out.info.reload_options ≡ false
        → h.out.opt.desc ≡ devopt_rebuild_opt_desc h.out.opt.caps h.at
    same_desc n = h.desc n ∙ ap (λ k. devopt_rebuild_opt_desc k h.at) (sym h.same_caps)

as_it_was :
    (mm2px : ℤ → ℤ → ℤ) (opt : Devopt) (out : Outcome)
    → reload mm2px (some (unchanged inval opt)) ≡ some out
    → out ≡ unchanged inval opt
unfolding reload
as_it_was mm2px opt out h = cc

pub reload-Returns :
    (mm2px : ℤ → ℤ → ℤ) (opt : Devopt) (result : Option Outcome)
    → Handled mm2px opt result
    → Returns mm2px opt (reload mm2px result)
reload-Returns mm2px opt result h =
    let (p, e) = params_lem mm2px h.out.opt h.at h.settled.mode in
    record {
      out = _;
      returns = ap (reload mm2px) h.returns ∙ reload_out mm2px opt result h p e;
      consistent = settled-IsConsistent mm2px h.at h.out.opt p h.settled e;
      same_caps = h.same_caps;
      atomic = elim h.atomic [
        | inl g ↦ inl g
        | inr f ↦ inr (
            as_it_was mm2px opt _
              (sym (ap (λ o. reload mm2px (some o)) f) ∙ reload_out mm2px opt result h p e))
      ];
    }
