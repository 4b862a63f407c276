-- ===== src/Caps/Listed.antt =====
-- What the merging of two sources is to give, and what the merging of the lists leaves.
use sane_airscan.Base.{
  ℕ, suc, ◌≡◌, ◌≢◌, refl, sym, ◌∙◌, ◌⊎◌, inl, inr, Bool, true, false, ◌&&◌, some, List, [], ◌∷◌,
  Bool-cases,
}
use sane_airscan.Base.Int.{ℤ}
use sane_airscan.Math.{Range, refused, math_min, math_range_merge}
use sane_airscan.Array.Intersect.{has, is_sorted, intersect_lem}
use sane_airscan.Caps.{
  DevcapsSource, Mask, both, clear, res_discrete, res_ranged, Merge, failed, source,
  set_resolutions, merge_discrete, merge_begin, merge_fails,
}
use sane_airscan.Caps.Usable.{IsUsable}

-- Both sources list the resolution.
abbrev pub common : DevcapsSource → DevcapsSource → ℤ → Bool
common s1 s2 w =
    both s1.flags s2.flags res_discrete && (has w s1.resolutions && has w s2.resolutions)

module _ (fuel : ℕ) (s1 s2 : DevcapsSource) where
  -- The ranges of resolutions have nothing in common, or one of the sources has none.
  abbrev pub NoRange : Type 0
  NoRange =
      (both s1.flags s2.flags res_ranged ≡ false)
      ⊎ (math_range_merge (suc fuel) s1.res_range s2.res_range ≡ some refused)

  -- The merged source can do what both of them can.
  pub record IsCommon (src : DevcapsSource) : Type 0 where
    pub usable : IsUsable src
    pub formats : (i : ℕ) → src.formats i ≡ both s1.formats s2.formats i
    pub colormodes : (i : ℕ) → src.colormodes i ≡ both s1.colormodes s2.colormodes i
    pub resolutions : (w : ℤ) → has w src.resolutions ≡ common s1 s2 w
    pub width : src.win_x_range_mm.hi ≡ math_min s1.win_x_range_mm.hi s2.win_x_range_mm.hi
    pub height : src.win_y_range_mm.hi ≡ math_min s1.win_y_range_mm.hi s2.win_y_range_mm.hi

  pub data MergeOk : Merge → Type 0 where
    nothing_common : merge_fails s1 s2 ≡ true → MergeOk failed
    no_resolution : ((w : ℤ) → common s1 s2 w ≡ false) → NoRange → MergeOk failed
    in_common : {src : DevcapsSource} → IsCommon src → MergeOk (source src)

  -- What the merging of the lists leaves of a source.
  pub record Listed (base out : DevcapsSource) : Type 0 where
    pub list : List ℤ
    pub flags : Mask
    pub is : out ≡ record base { resolutions = list; flags = flags }
    pub filled : flags res_discrete ≡ true → list ≢ []
    pub words : (w : ℤ) → has w list ≡ common s1 s2 w
    pub ranged : flags res_ranged ≡ both s1.flags s2.flags res_ranged
    pub empty : flags res_discrete ≡ false → (w : ℤ) → common s1 s2 w ≡ false

  has-none : (w : ℤ) → has w [] ≡ false
  unfolding has
  has-none w = refl

  set_resolutions-Listed :
      (x y : Range) (list : List ℤ)
      → ((w : ℤ) → has w list ≡ common s1 s2 w)
      → Listed (merge_begin s1 s2 x y) (set_resolutions (merge_begin s1 s2 x y) list)
  set_resolutions-Listed x y [] h = record {
    list = [];
    flags = clear res_discrete (both s1.flags s2.flags);
    is = refl;
    filled = λ e. absurd (cc);
    words = h;
    ranged = refl;
    empty = λ _ w. sym (h w) ∙ has-none w;
  }
  set_resolutions-Listed x y (r ∷ list) h = record {
    list = r ∷ list;
    flags = both s1.flags s2.flags;
    is = refl;
    filled = λ _ e. cc;
    words = h;
    ranged = refl;
    empty = λ n w. rw n refl;
  }

  pub merge_discrete-Listed :
      (x y : Range)
      → is_sorted s1.resolutions ≡ true
      → is_sorted s2.resolutions ≡ true
      → Listed (merge_begin s1 s2 x y) (merge_discrete s1 s2 (merge_begin s1 s2 x y))
  unfolding merge_discrete
  merge_discrete-Listed x y h k = elim (Bool-cases (both s1.flags s2.flags res_discrete)) [
    | inl e ↦ rw e (
        set_resolutions-Listed x y _
          (λ w. rw e (intersect_lem s1.resolutions s2.resolutions w h k)))
    | inr n ↦ rw n (record {
      list = [];
      flags = both s1.flags s2.flags;
      is = refl;
      filled = λ e. absurd (cc);
      words = λ w. rw n (has-none w);
      ranged = refl;
      empty = λ _ w. rw n refl;
    })
  ]
