-- ===== src/Options/Runs.antt =====
-- Sequences of calls of devopt_set_option after devopt_set_defaults.
use sane_airscan.Base.{◌≡◌, refl, ◌∙◌, Option, some, none, List, [], ◌∷◌}
use sane_airscan.Base.Int.{ℤ}
use sane_airscan.Device.Types.{Source}
use sane_airscan.Caps.{DevcapsSource}
use sane_airscan.Options.Data.{Devcaps, Devopt, caps_src}
use sane_airscan.Options.Single.{Outcome}
use sane_airscan.Options.Handlers.{Setting, ModeNames, devopt_set_option, devopt_set_defaults}
use sane_airscan.Options.Valid.{AllUsable, IsConsistent}
use sane_airscan.Options.Reloads.{Returns}
use sane_airscan.Options.Consistent.{set_option_lem}
use sane_airscan.Options.Defaults.{set_defaults_lem}

-- In a consistent state of a scanner with usable sources devopt_set_option returns, whatever the option
-- and the value are, and the new state is consistent and has the same capabilities. Either the status
-- is GOOD, or it is INVAL and the call has changed nothing.
pub set_option-Returns :
    (mm2px : ℤ → ℤ → ℤ) (names : ModeNames) (opt : Devopt) (setting : Setting)
    → AllUsable opt.caps
    → IsConsistent mm2px opt
    → Returns mm2px opt (devopt_set_option mm2px names opt setting)
set_option-Returns mm2px names opt setting u c = set_option_lem mm2px opt c u names setting

abbrev pub after_call : Option Outcome → (Devopt → Option Devopt) → Option Devopt
after_call none rest = none
after_call (some out) rest = rest out.opt

-- A frontend that sets one option after the other.
unfoldable pub set_options : (ℤ → ℤ → ℤ) → ModeNames → List Setting → Devopt → Option Devopt
set_options mm2px names [] opt = some opt
set_options mm2px names (setting ∷ list) opt =
    after_call (devopt_set_option mm2px names opt setting) (set_options mm2px names list)

abbrev pub from_defaults : (ℤ → ℤ → ℤ) → ModeNames → List Setting → Option Devopt → Option Devopt
from_defaults mm2px names list none = none
from_defaults mm2px names list (some opt) = set_options mm2px names list opt

set_options-IsConsistent :
    (mm2px : ℤ → ℤ → ℤ) (names : ModeNames) (list : List Setting) (caps : Devcaps) (opt : Devopt)
    → AllUsable caps
    → opt.caps ≡ caps
    → IsConsistent mm2px opt
    → (opt2 : Devopt) × ((set_options mm2px names list opt ≡ some opt2)
        × (IsConsistent mm2px opt2 × (opt2.caps ≡ caps)))
unfolding set_options
set_options-IsConsistent mm2px names [] caps opt u e c = (opt, (refl, (c, e)))
set_options-IsConsistent mm2px names (setting ∷ list) caps opt u e c =
    let r = set_option-Returns mm2px names opt setting (rw e u) c in
    let (opt2, (f, rest)) =
      set_options-IsConsistent mm2px names list caps r.out.opt u (r.same_caps ∙ e) r.consistent in
    let returns = r.returns in (opt2, (rw returns f, rest))

-- After devopt_set_defaults, any sequence of settings goes through to its end, on a scanner that has a
-- source and whose sources are usable. The state at the end is consistent.
pub session-IsConsistent :
    (mm2px : ℤ → ℤ → ℤ) (names : ModeNames) (list : List Setting) (opt : Devopt) (id : Source)
    (src : DevcapsSource)
    → caps_src opt.caps id ≡ some src
    → AllUsable opt.caps
    → (opt2 : Devopt) × ((from_defaults mm2px names list (devopt_set_defaults mm2px opt)
          ≡ some opt2)
        × (IsConsistent mm2px opt2 × (opt2.caps ≡ opt.caps)))
session-IsConsistent mm2px names list opt id src e u =
    let (first, (f, d)) = set_defaults_lem mm2px opt id src e u in
    let (opt2, (g, rest)) =
      set_options-IsConsistent mm2px names list opt.caps first u d.same_caps d.consistent in
    (opt2, (rw f g, rest))
