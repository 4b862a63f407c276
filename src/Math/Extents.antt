-- ===== src/Math/Extents.antt =====
-- `math_range_merge` of the ranges of coordinates.
use sane_airscan.Base.{ℕ, ◌≡◌, refl, sym, inl, inr, true, some, arith, Bool-cases}
use sane_airscan.Base.Int.{ℤ, pos, ◌≤ℤ◌, eqb_ℤ}
use sane_airscan.Math.{
  Range, merged, math_min, math_max, math_range_eq, math_range_ovp, math_range_merge,
}
use sane_airscan.Math.Fit.{math_min-cases}
use sane_airscan.Math.Within.{IsExtent}

abbrev from_zero : ℤ → Range
from_zero h = record { lo = pos 0; hi = h; quant = pos 0 }

from_zero-IsExtent : (h : ℤ) → pos 0 ≤ℤ h → IsExtent (from_zero h)
from_zero-IsExtent h p = record { low = refl; high = p; free = refl }

min-of_two : (P : ℤ → Type 0) (a b : ℤ) → P a → P b → P (math_min a b)
min-of_two P a b p q = elim (math_min-cases a b) [ inl e ↦ rw e p | inr e ↦ rw e q ]

zero_overlap :
    (a b : ℤ) → pos 0 ≤ℤ a → pos 0 ≤ℤ b → math_range_ovp (from_zero a) (from_zero b) ≡ true
unfolding math_range_ovp
zero_overlap a b h k = ground arith

min_same : (a b : ℤ) → eqb_ℤ a b ≡ true → math_min a b ≡ a
unfolding math_min
min_same a b h = ground arith

zero_eq : (a b : ℤ) → math_range_eq (from_zero a) (from_zero b) ≡ eqb_ℤ a b
unfolding math_range_eq
zero_eq a b = ground arith

zero_max : math_max (pos 0) (pos 0) ≡ pos 0
unfolding math_max
zero_max = refl

zero_merge :
    (fuel : ℕ) (a b : ℤ)
    → pos 0 ≤ℤ a
    → pos 0 ≤ℤ b
    → (r : Range) × ((math_range_merge fuel (from_zero a) (from_zero b) ≡ some (merged r))
        × (IsExtent r × (r.hi ≡ math_min a b)))
unfolding math_range_merge
zero_merge fuel a b h k = elim (Bool-cases (eqb_ℤ a b)) [
  | inl e ↦
      (from_zero a, (rw (zero_eq a b, e) refl, (from_zero-IsExtent a h, sym (min_same a b e))))
  | inr n ↦ (
    from_zero (math_min a b),
    (
      rw (zero_eq a b, n, zero_overlap a b h k, zero_max) refl,
      (from_zero-IsExtent (math_min a b) (min-of_two (λ t. pos 0 ≤ℤ t) a b h k), refl),
    ),
  )
]

-- Two ranges of coordinates merge to the shorter one.
pub extents_merge :
    (fuel : ℕ) (r1 r2 : Range)
    → IsExtent r1
    → IsExtent r2
    → (r : Range) × ((math_range_merge fuel r1 r2 ≡ some (merged r))
        × (IsExtent r × (r.hi ≡ math_min r1.hi r2.hi)))
extents_merge fuel r1 r2 v w = by_ends r1.lo r1.quant r2.lo r2.quant v.low v.free w.low w.free
  where
    by_ends :
        (l1 q1 l2 q2 : ℤ)
        → l1 ≡ pos 0
        → q1 ≡ pos 0
        → l2 ≡ pos 0
        → q2 ≡ pos 0
        → (r : Range) × ((math_range_merge fuel
                (record { lo = l1; hi = r1.hi; quant = q1 })
                (record { lo = l2; hi = r2.hi; quant = q2 })
              ≡ some (merged r))
            × (IsExtent r × (r.hi ≡ math_min r1.hi r2.hi)))
    by_ends l1 q1 l2 q2 a b c d = rw (a, b, c, d) (zero_merge fuel r1.hi r2.hi v.high w.high)
