-- ===== src/Caps/Merging.antt =====
-- devcaps_source_merge against what both sources can do.
use sane_airscan.Base.{
  ℕ, suc, ◌≡◌, refl, sym, ap, ◌∙◌, inl, inr, Bool, true, false, ◌&&◌, ◌||◌, some, arith, Bool-cases,
}
use mathlib.Core.Option
use sane_airscan.Base.Int.{pos}
use sane_airscan.Math.{Range, Merged, refused, merged, math_min, math_range_merge}
use sane_airscan.Math.Within.{IsRange, IsExtent}
use sane_airscan.Math.Extents.{extents_merge}
use sane_airscan.Math.Ordered.{IsCovered, OkRange, no_range, good_range, MergesTo, range_merge_lem}
use sane_airscan.Array.Intersect.{is_sorted}
use sane_airscan.Caps.{
  DevcapsSource, Mask, both, clear, res_discrete, res_ranged, any_colormode, Merge, failed,
  set_res_range, merge_ranged, check_resolutions, merge_resolutions, merge_begin, merge_fails,
  devcaps_source_merge,
}
use sane_airscan.Caps.Usable.{IsUsable}
use sane_airscan.Caps.Listed.{
  NoRange, IsCommon, MergeOk, nothing_common, no_resolution, in_common, Listed,
  merge_discrete-Listed,
}

module _ (fuel : ℕ) (s1 s2 : DevcapsSource) where
  -- What is known where the merging of the ranges of windows succeeds.
  record Begun (x y : Range) : Type 0 where
    x_extent : IsExtent x
    y_extent : IsExtent y
    wid : x.hi ≡ math_min s1.win_x_range_mm.hi s2.win_x_range_mm.hi
    hei : y.hi ≡ math_min s1.win_y_range_mm.hi s2.win_y_range_mm.hi
    modes : any_colormode (both s1.colormodes s2.colormodes) ≡ true

  module _ (x y : Range) (begun : Begun x y) (out : DevcapsSource)
      (l : Listed fuel s1 s2 (merge_begin s1 s2 x y) out) where
    abbrev unset : Range
    unset = record { lo = pos 0; hi = pos 0; quant = pos 0 }

    abbrev with_res : Mask → Range → DevcapsSource
    with_res flags r = record (merge_begin s1 s2 x y) {
      resolutions = l.list;
      flags = flags;
      res_range = r;
    }

    with_res-IsCommon :
        (flags : Mask) (r : Range)
        → flags res_discrete ≡ l.flags res_discrete
        → (flags res_ranged ≡ true → IsRange r)
        → (flags res_discrete || flags res_ranged) ≡ true
        → IsCommon fuel s1 s2 (with_res flags r)
    with_res-IsCommon flags r e f h = record {
      usable = record {
        modes = begun.modes;
        resolution = h;
        discrete = λ t. l.filled (sym e ∙ t);
        ranged = f;
        x = begun.x_extent;
        y = begun.y_extent;
      };
      formats = λ i. refl;
      colormodes = λ i. refl;
      resolutions = l.words;
      width = begun.wid;
      height = begun.hei;
    }

    checked :
        (flags : Mask) (r : Range)
        → flags res_discrete ≡ l.flags res_discrete
        → (flags res_ranged ≡ true → IsRange r)
        → (flags res_ranged ≡ false → NoRange fuel s1 s2)
        → MergeOk fuel s1 s2 (check_resolutions (with_res flags r))
    checked flags r e f g = elim (Bool-cases (flags res_discrete || flags res_ranged)) [
      | inl h ↦ rw h (in_common (with_res-IsCommon flags r e f h))
      | inr n ↦
          let (a, b) = neither (flags res_discrete) (flags res_ranged) n in
          rw n (no_resolution (l.empty (sym e ∙ a)) (g b))
    ]
      where
        neither : (a b : Bool) → (a || b) ≡ false → (a ≡ false) × (b ≡ false)
        neither a b h = ground arith

    set_range-MergeOk :
        (m : Merged)
        → math_range_merge (suc fuel) s1.res_range s2.res_range ≡ some m
        → OkRange m
        → MergeOk fuel s1 s2 (check_resolutions (set_res_range (with_res l.flags unset) m))
    set_range-MergeOk refused e no_range =
        checked (clear res_ranged l.flags) _ refl (λ t. absurd (cc)) (λ _. inr e)
    set_range-MergeOk (merged r) e (good_range v) =
        checked l.flags r refl (λ _. v) (λ n. inl (sym l.ranged ∙ n))

    abbrev Checks : DevcapsSource → Type 0
    Checks src =
        (m : Merge) × ((Option.map check_resolutions (merge_ranged (suc fuel) s1 s2 src) ≡ some m)
          × MergeOk fuel s1 s2 m)

    with_range-Checks :
        l.flags res_ranged ≡ true
        → MergesTo (math_range_merge (suc fuel) s1.res_range s2.res_range)
        → Checks (with_res l.flags unset)
    unfolding merge_ranged
    with_range-Checks t m =
        let returns = m.returns in
        (
          check_resolutions (set_res_range (with_res l.flags unset) m.out),
          (rw (t, returns) refl, set_range-MergeOk m.out m.returns m.ok),
        )

    merge_ranged-without :
        l.flags res_ranged ≡ false
        → merge_ranged (suc fuel) s1 s2 (with_res l.flags unset) ≡ some (with_res l.flags unset)
    unfolding merge_ranged
    merge_ranged-without n = rw n refl

    without-Checks : l.flags res_ranged ≡ false → Checks (with_res l.flags unset)
    without-Checks n = (
      check_resolutions (with_res l.flags unset),
      (
        ap (Option.map check_resolutions) (merge_ranged-without n),
        checked l.flags unset refl (λ t. absurd (cc)) (λ n. inl (sym l.ranged ∙ n)),
      ),
    )

    ranged-Checks :
        (both s1.flags s2.flags res_ranged ≡ true
          → MergesTo (math_range_merge (suc fuel) s1.res_range s2.res_range))
        → Checks out
    ranged-Checks merges =
        let is = l.is in
        rw is (elim (Bool-cases (l.flags res_ranged)) [
          | inl t ↦ with_range-Checks t (merges (sym l.ranged ∙ t))
          | inr n ↦ without-Checks n
        ])

-- Two usable sources, with sorted lists of resolutions: devcaps_source_merge returns, when the fuel
-- covers the ranges of resolutions. It gives a usable source, with exactly the formats, the color modes
-- and the listed resolutions of both sources and with the smaller window; or it fails, since the
-- formats, the color modes or the dimensions leave nothing, or since no resolution is common.
pub source_merge-MergeOk :
    (fuel : ℕ) (s1 s2 : DevcapsSource)
    → IsUsable s1
    → IsUsable s2
    → is_sorted s1.resolutions ≡ true
    → is_sorted s2.resolutions ≡ true
    → IsCovered fuel s1.res_range s2.res_range
    → (m : Merge) × ((devcaps_source_merge (suc fuel) s1 s2 ≡ some m) × MergeOk fuel s1 s2 m)
unfolding devcaps_source_merge merge_resolutions
source_merge-MergeOk fuel s1 s2 u1 u2 h k c = elim (Bool-cases (merge_fails s1 s2)) [
  | inl f ↦ (failed, (rw f refl, nothing_common f))
  | inr n ↦
      let (x, (ex, (vx, wid))) =
        extents_merge (suc fuel) s1.win_x_range_mm s2.win_x_range_mm u1.x u2.x in
      let (y, (ey, (vy, hei))) =
        extents_merge (suc fuel) s1.win_y_range_mm s2.win_y_range_mm u1.y u2.y in
      let begun : Begun fuel s1 s2 x y = record {
        x_extent = vx;
        y_extent = vy;
        wid = wid;
        hei = hei;
        modes = ground arith;
      } in
      rw (n, ex, ey)
        (ranged-Checks fuel s1 s2 x y begun _ (merge_discrete-Listed fuel s1 s2 x y h k) (λ t.
          range_merge_lem fuel s1.res_range s2.res_range (u1.ranged (both_left _ _ t))
            (u2.ranged (both_right _ _ t)) c))
]
  where
    both_left : (a b : Bool) → (a && b) ≡ true → a ≡ true
    both_left a b h = ground arith

    both_right : (a b : Bool) → (a && b) ≡ true → b ≡ true
    both_right a b h = ground arith
