-- ===== src/Math/Merge.antt =====
-- `math_range_merge`.
use sane_airscan.Base.{
  ℕ, zero, suc, ◌+◌, ◌*◌, ◌≤◌, ◌<◌, ◌≡◌, refl, ◌⊎◌, inl, inr, ap, ◌∙◌, true, false, some, arith,
}
use sane_airscan.Base.Int.{ℤ, pos, ◌+ℤ◌, ltb_ℤ, ◌≤ℤ◌, int_laws, ltb_ℤ-cases}
use sane_airscan.Math.{
  math_lcm, Range, Merged, refused, merged, math_min, math_max, raise_min, raise_max, merge_quants,
}
use native.Mathlib.Decide.{dec_lt}
use native.Mathlib.Nat.{mul-le-mul_right}
use sane_airscan.Math.Gcd.{Divides, lcm_lem}

-- One more step of a grid.
grid_step : (m : ℤ) (q k : ℕ) → (m +ℤ pos q) +ℤ pos (k * q) ≡ m +ℤ pos (suc k * q)
grid_step m q k = omega int_laws

-- The loop stops at the first value of the grid of step `q` above `m` that reaches `bound`.
raise_min_lem :
    (fuel q : ℕ) (bound m : ℤ)
    → 0 < q
    → bound ≤ℤ m +ℤ pos fuel
    → (k : ℕ) × (raise_min (suc fuel) (pos q) bound m ≡ some (m +ℤ pos (k * q)))
      × (bound ≤ℤ m +ℤ pos (k * q))
      × ((k ≡ 0) ⊎ (m +ℤ pos (k * q) +ℤ pos 1 ≤ℤ bound +ℤ pos q))
unfolding raise_min
raise_min_lem zero q bound m h f = elim (ltb_ℤ-cases m bound) [
  | inl (e, lt) ↦ absurd (omega int_laws)
  | inr (e, le) ↦ (0, rw e (ap some (omega int_laws)), omega int_laws, inl refl)
]
raise_min_lem (suc fuel) q bound m h f = elim (ltb_ℤ-cases m bound) [
  | inl (e, lt) ↦
      let (k, e', low, near) = raise_min_lem fuel q bound (m +ℤ pos q) h (omega int_laws) in
      let shift : m +ℤ pos q +ℤ pos (k * q) ≡ m +ℤ pos (suc k * q) = grid_step m q k in
      (
        suc k,
        rw e (e' ∙ ap some shift),
        rw shift at low,
        inr (elim near [ inl z ↦ omega (int_laws, ap (λ t. t * q) z) | inr n ↦ rw shift at n ]),
      )
  | inr (e, le) ↦ (0, rw e (ap some (omega int_laws)), omega int_laws, inl refl)
]

-- The loop stops at the last value of the grid of step `q` above `m` within `bound`.
raise_max_lem :
    (fuel q : ℕ) (bound m : ℤ)
    → 0 < q
    → m ≤ℤ bound
    → bound ≤ℤ m +ℤ pos fuel
    → (k : ℕ) × (raise_max (suc fuel) (pos q) bound m ≡ some (m +ℤ pos (k * q)))
      × (m +ℤ pos (k * q) ≤ℤ bound)
      × (bound +ℤ pos 1 ≤ℤ m +ℤ pos (k * q) +ℤ pos q)
unfolding raise_max
raise_max_lem zero q bound m h v f = elim (ltb_ℤ-cases bound (m +ℤ pos q)) [
  | inl (e, lt) ↦ (0, rw e (ap some (omega int_laws)), omega int_laws, omega int_laws)
  | inr (e, le) ↦ absurd (omega int_laws)
]
raise_max_lem (suc fuel) q bound m h v f = elim (ltb_ℤ-cases bound (m +ℤ pos q)) [
  | inl (e, lt) ↦ (0, rw e (ap some (omega int_laws)), omega int_laws, omega int_laws)
  | inr (e, le) ↦
      let (k, e', low, near) = raise_max_lem fuel q bound (m +ℤ pos q) h le (omega int_laws) in
      let shift : m +ℤ pos q +ℤ pos (k * q) ≡ m +ℤ pos (suc k * q) = grid_step m q k in
      (suc k, rw e (e' ∙ ap some shift), rw shift at low, rw shift at near)
]

pub grid_gap : (i j q : ℕ) → i * q < j * q + q → i * q ≤ j * q
grid_gap i j q h = elim (dec_lt j i) [
  | yes over ↦ absurd (omega (arith, mul-le-mul_right q over))
  | no fits ↦ mul-le-mul_right q (omega arith)
]

-- The values of the grid of step `q` above `base` that lie between two bounds, as a range: the
-- first of them and the last.
pub record Spans (base low high : ℤ) (q : ℕ) (out : Range) : Type 0 where
  pub step : out.quant ≡ pos q
  pub ordered : out.lo ≤ℤ out.hi
  pub lower : low ≤ℤ out.lo
  pub upper : out.hi ≤ℤ high
  pub on_grid : (k : ℕ) × out.lo ≡ base +ℤ pos (k * q)
  pub whole_steps : (k : ℕ) × out.hi ≡ out.lo +ℤ pos (k * q)
  pub first : (k : ℕ) → low ≤ℤ base +ℤ pos (k * q) → out.lo ≤ℤ base +ℤ pos (k * q)
  pub last : (k : ℕ) → base +ℤ pos (k * q) ≤ℤ high → base +ℤ pos (k * q) ≤ℤ out.hi

-- No value of the grid lies between the bounds.
abbrev pub Misses : ℤ → ℤ → ℤ → ℕ → Type 0
Misses base low high q = (k : ℕ) → low ≤ℤ base +ℤ pos (k * q) → high +ℤ pos 1 ≤ℤ base +ℤ pos (k * q)

abbrev pub Outcome : ℤ → ℤ → ℤ → ℕ → Merged → Type 0
Outcome base low high q refused = Misses base low high q
Outcome base low high q (merged out) = Spans base low high q out

first_lem :
    (base low : ℤ) (q k0 k : ℕ)
    → (k0 ≡ 0) ⊎ (base +ℤ pos (k0 * q) +ℤ pos 1 ≤ℤ low +ℤ pos q)
    → low ≤ℤ base +ℤ pos (k * q)
    → k0 * q ≤ k * q
first_lem base low q k0 k (inl z) h = omega (arith, ap (λ t. t * q) z)
first_lem base low q k0 k (inr n) h = grid_gap k0 k q (omega int_laws)

spans_lem :
    (base low high : ℤ) (q k0 j : ℕ)
    → low ≤ℤ base +ℤ pos (k0 * q)
    → (k0 ≡ 0) ⊎ (base +ℤ pos (k0 * q) +ℤ pos 1 ≤ℤ low +ℤ pos q)
    → base +ℤ pos (k0 * q) +ℤ pos (j * q) ≤ℤ high
    → high +ℤ pos 1 ≤ℤ base +ℤ pos (k0 * q) +ℤ pos (j * q) +ℤ pos q
    → Spans base low high q (record {
      lo = base +ℤ pos (k0 * q);
      hi = base +ℤ pos (k0 * q) +ℤ pos (j * q);
      quant = pos q;
    })
spans_lem base low high q k0 j a b c d = record {
  step = refl;
  ordered = omega int_laws;
  lower = a;
  upper = c;
  on_grid = (k0, refl);
  whole_steps = (j, refl);
  first = λ k h. omega (int_laws, first_lem base low q k0 k b h);
  last = λ k h. omega (int_laws, grid_gap k (k0 + j) q (omega int_laws));
}

module _ (fuel q1 q2 : ℕ) (lo1 hi1 lo2 hi2 : ℤ) where
  abbrev pub Result : ℕ → Type 0
  Result q =
      (out : Merged) × (merge_quants (suc fuel) (record { lo = lo1; hi = hi1; quant = pos q1 })
          (record { lo = lo2; hi = hi2; quant = pos q2 })
        ≡ some out)
      × Outcome (math_min lo1 lo2) (math_max lo1 lo2) (math_min hi1 hi2) q out

  merge_refused :
      (q k0 : ℕ)
      → math_lcm q1 q2 ≡ some q
      → raise_min (suc fuel) (pos q) (math_max lo1 lo2) (math_min lo1 lo2)
        ≡ some (math_min lo1 lo2 +ℤ pos (k0 * q))
      → (k0 ≡ 0) ⊎ (math_min lo1 lo2 +ℤ pos (k0 * q) +ℤ pos 1 ≤ℤ math_max lo1 lo2 +ℤ pos q)
      → ltb_ℤ (math_min hi1 hi2) (math_min lo1 lo2 +ℤ pos (k0 * q)) ≡ true
      → math_min hi1 hi2 +ℤ pos 1 ≤ℤ math_min lo1 lo2 +ℤ pos (k0 * q)
      → Result q
  unfolding merge_quants
  merge_refused q k0 e e0 near t over = (
    refused,
    rw (e, merge_quants) (rw (e0, t)),
    λ k h. omega (int_laws, first_lem (math_min lo1 lo2) (math_max lo1 lo2) q k0 k near h),
  )

  merge_spans :
      (q k0 : ℕ)
      → 0 < q
      → math_lcm q1 q2 ≡ some q
      → raise_min (suc fuel) (pos q) (math_max lo1 lo2) (math_min lo1 lo2)
        ≡ some (math_min lo1 lo2 +ℤ pos (k0 * q))
      → math_max lo1 lo2 ≤ℤ math_min lo1 lo2 +ℤ pos (k0 * q)
      → (k0 ≡ 0) ⊎ (math_min lo1 lo2 +ℤ pos (k0 * q) +ℤ pos 1 ≤ℤ math_max lo1 lo2 +ℤ pos q)
      → ltb_ℤ (math_min hi1 hi2) (math_min lo1 lo2 +ℤ pos (k0 * q)) ≡ false
      → math_min lo1 lo2 +ℤ pos (k0 * q) ≤ℤ math_min hi1 hi2
      → math_min hi1 hi2 ≤ℤ math_min lo1 lo2 +ℤ pos fuel
      → Result q
  unfolding merge_quants
  merge_spans q k0 h e e0 low near t fits f =
      let (j, e1, top, gap) =
        raise_max_lem fuel q (math_min hi1 hi2) (math_min lo1 lo2 +ℤ pos (k0 * q)) h fits
          (omega int_laws) in
      (merged _, rw (e, merge_quants) (rw (e0, t, e1)), spans_lem _ _ _ q k0 j low near top gap)

-- Two quantized ranges: the merged range holds exactly the values of the grid that starts at the
-- lower of the two starts and goes by the least common multiple of the steps, as far as they lie in
-- both ranges; it is refused where there is no such value. The fuel has to cover the two ranges.
pub merge_quants_lem :
    (fuel q1 q2 : ℕ) (lo1 hi1 lo2 hi2 : ℤ)
    → 0 < q1
    → 0 < q2
    → math_max lo1 lo2 ≤ℤ math_min lo1 lo2 +ℤ pos fuel
    → math_min hi1 hi2 ≤ℤ math_min lo1 lo2 +ℤ pos fuel
    → (q : ℕ) × (math_lcm q1 q2 ≡ some q)
      × Divides q1 q
      × Divides q2 q
      × Result fuel q1 q2 lo1 hi1 lo2 hi2 q
merge_quants_lem fuel q1 q2 lo1 hi1 lo2 hi2 p1 p2 f1 f2 =
    let (g, q, e, is) = lcm_lem q1 q2 p1 p2 in
    let (k0, e0, low, near) = raise_min_lem fuel q (math_max lo1 lo2) (math_min lo1 lo2) is.4 f1 in
    (
      q,
      e,
      is.2,
      is.3,
      elim (ltb_ℤ-cases (math_min hi1 hi2) (math_min lo1 lo2 +ℤ pos (k0 * q))) [
        | inl (t, over) ↦ merge_refused fuel q1 q2 lo1 hi1 lo2 hi2 q k0 e e0 near t over
        | inr (t, fits) ↦ merge_spans fuel q1 q2 lo1 hi1 lo2 hi2 q k0 is.4 e e0 low near t fits f2
      ],
    )
