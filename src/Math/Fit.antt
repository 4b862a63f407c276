-- ===== src/Math/Fit.antt =====
-- `math_range_fit` against the grid of a range.
use sane_airscan.Base.{
  ℕ, ◌+◌, ◌*◌, ◌/◌, ◌≤◌, ◌<◌, ◌≡◌, refl, ◌⊎◌, inl, inr, ap, true, false, arith, ◌==◌,
}
use sane_airscan.Base.Int.{
  ℤ, pos, pos_part, neg_part, ◌+ℤ◌, ltb_ℤ, ◌≤ℤ◌, int_laws, above, add-sub_self, pos-add, pos-mul,
  pos-div, +ℤ_comm, ltb_ℤ-cases, ltb_ℤ-false,
}
use sane_airscan.Math.{Range, math_min, math_range_fit}

-- The offset that the code computes for an input `lo + d`: a multiple of `q`.
abbrev pub rounded : ℕ → ℕ → ℕ
rounded q d = (d + q / 2) / q * q

rounded_near : (q d : ℕ) → 0 < q → (rounded q d ≤ d + q / 2) × (d ≤ rounded q d + q / 2)
rounded_near q d h = grind arith

pub math_min-le : (a b : ℤ) → (math_min a b ≤ℤ a) × (math_min a b ≤ℤ b)
unfolding math_min
math_min-le a b = ground arith

pub math_min-cases : (a b : ℤ) → (math_min a b ≡ a) ⊎ (math_min a b ≡ b)
unfolding math_min
math_min-cases a b = ground arith

pub fit_inside :
    (lo hi : ℤ) (q d : ℕ)
    → 0 < q
    → lo +ℤ pos d ≤ℤ hi
    → math_range_fit (record { lo = lo; hi = hi; quant = pos q }) (lo +ℤ pos d)
      ≡ math_min (lo +ℤ pos (rounded q d)) hi
unfolding math_range_fit
fit_inside lo hi q d h k = rw (
  ltb_ℤ-false (lo +ℤ pos d) lo (omega int_laws),
  ltb_ℤ-false hi (lo +ℤ pos d) k,
  nonzero,
  add-sub_self,
  pos-div,
  pos-add,
  pos-div,
  pos-mul,
  +ℤ_comm,
)
  where
    nonzero : (q == 0) ≡ false
    nonzero = ground arith

-- `x` is a value of the range's grid, which starts at `lo`.
abbrev pub OnGrid : ℤ → ℕ → ℤ → Type 0
OnGrid lo q x = (k : ℕ) × (x ≡ lo +ℤ pos (k * q))

pub record Fitted (lo hi : ℤ) (q : ℕ) (i x : ℤ) : Type 0 where
  pub lower : lo ≤ℤ x
  pub upper : x ≤ℤ hi
  pub grid : OnGrid lo q x ⊎ (x ≡ hi)
  pub near : lo ≤ℤ i → i ≤ℤ hi → (x ≤ℤ i +ℤ pos (q / 2)) × (i ≤ℤ x +ℤ pos (q / 2))

fit_grid :
    (lo hi : ℤ) (q d : ℕ)
    → OnGrid lo q (math_min (lo +ℤ pos (rounded q d)) hi)
      ⊎ (math_min (lo +ℤ pos (rounded q d)) hi ≡ hi)
fit_grid lo hi q d = elim (math_min-cases (lo +ℤ pos (rounded q d)) hi) [
  | inl e ↦ inl ((d + q / 2) / q, e)
  | inr e ↦ inr e
]

fit_between :
    (lo hi : ℤ) (q d : ℕ)
    → 0 < q
    → lo +ℤ pos d ≤ℤ hi
    → Fitted lo hi q (lo +ℤ pos d) (math_min (lo +ℤ pos (rounded q d)) hi)
fit_between lo hi q d h k = record {
  lower = elim (math_min-cases (lo +ℤ pos (rounded q d)) hi) [
    | inl e ↦ rw e (omega int_laws)
    | inr e ↦ rw e (omega int_laws)
  ];
  upper = (math_min-le (lo +ℤ pos (rounded q d)) hi).1;
  grid = fit_grid lo hi q d;
  near = λ _ _. elim (math_min-cases (lo +ℤ pos (rounded q d)) hi) [
    | inl e ↦ rw e (omega (int_laws, rounded_near q d h))
    | inr e ↦ rw e (
        omega (
          int_laws,
          rounded_near q d h,
          (math_min-le (lo +ℤ pos (rounded q d)) hi).0,
          ap pos_part e,
          ap neg_part e,
        ))
  ];
}

pub fit_below : (r : Range) (i : ℤ) → ltb_ℤ i r.lo ≡ true → math_range_fit r i ≡ r.lo
unfolding math_range_fit
fit_below r i e = rw e

pub fit_over : (r : Range) (i : ℤ) → r.lo ≤ℤ i → ltb_ℤ r.hi i ≡ true → math_range_fit r i ≡ r.hi
unfolding math_range_fit
fit_over r i a e = rw (ltb_ℤ-false i r.lo a, e)

-- For a range that is not empty and a positive quantization, `math_range_fit` returns a value of the
-- range that is on its grid or is its end, and that is at most half a step away from an input in
-- the range.
pub range_fit_lem :
    (lo hi : ℤ) (q : ℕ) (i : ℤ)
    → lo ≤ℤ hi
    → 0 < q
    → Fitted lo hi q i (math_range_fit (record { lo = lo; hi = hi; quant = pos q }) i)
range_fit_lem lo hi q i v h = elim (ltb_ℤ-cases i lo) [
  | inl (e, below) ↦ rw (fit_below (record { lo = lo; hi = hi; quant = pos q }) i e) (record {
    lower = omega int_laws;
    upper = v;
    grid = inl (0, omega int_laws);
    near = λ a _. absurd (omega int_laws);
  })
  | inr (_, a) ↦ elim (ltb_ℤ-cases hi i) [
    | inl (e, over) ↦ rw (fit_over (record { lo = lo; hi = hi; quant = pos q }) i a e) (record {
      lower = v;
      upper = omega int_laws;
      grid = inr refl;
      near = λ _ b. absurd (omega int_laws);
    })
    | inr (_, b) ↦
        let (d, e) = above lo i a in
        let inside : lo +ℤ pos d ≤ℤ hi = rw e at b in
        rw e (rw (fit_inside lo hi q d h inside) (fit_between lo hi q d h inside))
  ]
]
