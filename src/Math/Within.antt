-- ===== src/Math/Within.antt =====
-- Ranges, and `math_range_fit` and `math_range_merge` on them.
use sane_airscan.Base.{zero, suc, ◌≡◌, inl, inr, arith}
use sane_airscan.Base.Int.{ℤ, pos, negsuc, ◌≤ℤ◌, ltb_ℤ-cases}
use sane_airscan.Math.{Range, math_range_fit}
use sane_airscan.Math.Fit.{range_fit_lem}

pub record IsInRange (r : Range) (x : ℤ) : Type 0 where
  pub lower : r.lo ≤ℤ x
  pub upper : x ≤ℤ r.hi

-- A range that is not empty, with no negative quantization.
pub record IsRange (r : Range) : Type 0 where
  pub ordered : r.lo ≤ℤ r.hi
  pub step : pos 0 ≤ℤ r.quant

exact-IsInRange :
    (lo hi i : ℤ)
    → lo ≤ℤ hi
    → IsInRange
        (record { lo = lo; hi = hi; quant = pos 0 })
        (math_range_fit (record { lo = lo; hi = hi; quant = pos 0 }) i)
unfolding math_range_fit
exact-IsInRange lo hi i h = elim (ltb_ℤ-cases i lo) [
  | inl (e, _) ↦ rw e (record { lower = omega arith; upper = h })
  | inr (e, a) ↦ elim (ltb_ℤ-cases hi i) [
    | inl (f, _) ↦ rw (e, f) (record { lower = h; upper = omega arith })
    | inr (f, b) ↦ rw (e, f) (record { lower = a; upper = b })
  ]
]

fit-IsInRange :
    (lo hi q i : ℤ)
    → lo ≤ℤ hi
    → pos 0 ≤ℤ q
    → IsInRange
        (record { lo = lo; hi = hi; quant = q })
        (math_range_fit (record { lo = lo; hi = hi; quant = q }) i)
fit-IsInRange lo hi (pos zero) i h k = exact-IsInRange lo hi i h
fit-IsInRange lo hi (pos (suc n)) i h k =
    let f = range_fit_lem lo hi (suc n) i h (omega arith) in
    record { lower = f.lower; upper = f.upper }
fit-IsInRange lo hi (negsuc n) i h k = absurd (omega arith)

pub range_fit-IsInRange : (r : Range) (i : ℤ) → IsRange r → IsInRange r (math_range_fit r i)
range_fit-IsInRange r i v = fit-IsInRange r.lo r.hi r.quant i v.ordered v.step

-- The range of a coordinate in a window: from 0 on, in steps of any size.
pub record IsExtent (r : Range) : Type 0 where
  pub low : r.lo ≡ pos 0
  pub high : pos 0 ≤ℤ r.hi
  pub free : r.quant ≡ pos 0

pub extent-IsRange : (r : Range) → IsExtent r → IsRange r
extent-IsRange r e =
    let low = e.low in
    let free = e.free in record { ordered = rw low e.high; step = rw free (omega arith) }
