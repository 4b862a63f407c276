-- ===== src/Math/Ordered.antt =====
-- `math_range_merge` of ranges that are not empty.
use sane_airscan.Base.{
  ℕ, zero, suc, ◌+◌, ◌*◌, ◌/◌, ◌≤◌, ◌<◌, ◌≡◌, refl, inl, inr, true, false, Option, some, arith,
  Bool-cases,
}
use sane_airscan.Base.Int.{ℤ, pos, negsuc, ◌+ℤ◌, ◌≤ℤ◌, int_laws, eqb_ℤ, ltb_ℤ-cases, above}
use sane_airscan.Math.{
  Range, Merged, refused, merged, math_min, math_max, math_range_fit, math_range_eq, math_range_ovp,
  merge_fit, merge_quants, math_range_merge,
}
use sane_airscan.Math.Fit.{rounded, fit_below, fit_over, fit_inside, range_fit_lem}
use sane_airscan.Math.Merge.{merge_quants_lem, grid_gap, Outcome}
use sane_airscan.Math.Within.{IsRange}

rounded_mono : (q a b : ℕ) → 0 < q → a ≤ b → rounded q a ≤ rounded q b
rounded_mono q a b p h = grid_gap ((a + q / 2) / q) ((b + q / 2) / q) q between
  where
    below : (n : ℕ) → n / q * q ≤ n
    below n = grind arith

    over : (n : ℕ) → n < n / q * q + q
    over n = grind arith

    between : (a + q / 2) / q * q < (b + q / 2) / q * q + q
    between = omega (arith, below (a + q / 2), over (b + q / 2))

min_mono : (a b c : ℤ) → a ≤ℤ b → math_min a c ≤ℤ math_min b c
unfolding math_min
min_mono a b c h = ground arith

max-le-min : (a b c d : ℤ) → a ≤ℤ c → a ≤ℤ d → b ≤ℤ c → b ≤ℤ d → math_max a b ≤ℤ math_min c d
unfolding math_min math_max
max-le-min a b c d h k l m = ground arith

ovp-le : (r1 r2 : Range) → math_range_ovp r1 r2 ≡ true → (r2.lo ≤ℤ r1.hi) × (r1.lo ≤ℤ r2.hi)
unfolding math_range_ovp
ovp-le r1 r2 h = ground arith

fit_mono_inside :
    (lo hi : ℤ) (q d e : ℕ)
    → 0 < q
    → d ≤ e
    → lo +ℤ pos e ≤ℤ hi
    → math_range_fit (record { lo = lo; hi = hi; quant = pos q }) (lo +ℤ pos d)
      ≤ℤ math_range_fit (record { lo = lo; hi = hi; quant = pos q }) (lo +ℤ pos e)
fit_mono_inside lo hi q d e h m k =
    let less : lo +ℤ pos d ≤ℤ hi = omega (int_laws, k, m) in
    rw (fit_inside lo hi q d h less, fit_inside lo hi q e h k)
      (min_mono (lo +ℤ pos (rounded q d)) (lo +ℤ pos (rounded q e)) hi
        (omega (int_laws, rounded_mono q d e h m)))

fit_mono :
    (lo hi : ℤ) (q : ℕ) (a b : ℤ)
    → lo ≤ℤ hi
    → 0 < q
    → a ≤ℤ b
    → math_range_fit (record { lo = lo; hi = hi; quant = pos q }) a
      ≤ℤ math_range_fit (record { lo = lo; hi = hi; quant = pos q }) b
fit_mono lo hi q a b v h le = elim (ltb_ℤ-cases a lo) [
  | inl (e, below) ↦
      rw (fit_below (record { lo = lo; hi = hi; quant = pos q }) a e)
        (range_fit_lem lo hi q b v h).lower
  | inr (_, low) ↦ elim (ltb_ℤ-cases hi b) [
    | inl (e, over) ↦
        rw (fit_over (record { lo = lo; hi = hi; quant = pos q }) b (omega (arith, low, le)) e)
          (range_fit_lem lo hi q a v h).upper
    | inr (_, high) ↦
        let (d, f) = above lo a low in
        let (e, g) = above lo b (omega (arith, low, le)) in
        rw (f, g) (fit_mono_inside lo hi q d e h (omega (int_laws, rw (f, g) at le)) (rw g at high))
  ]
]

-- The ranges lie within as many steps as the fuel has.
pub record IsCovered (fuel : ℕ) (r1 r2 : Range) : Type 0 where
  pub starts : math_max r1.lo r2.lo ≤ℤ math_min r1.lo r2.lo +ℤ pos fuel
  pub ends : math_min r1.hi r2.hi ≤ℤ math_min r1.lo r2.lo +ℤ pos fuel

-- A merged range, if there is one, is not empty.
pub data OkRange : Merged → Type 0 where
  no_range : OkRange refused
  good_range : {r : Range} → IsRange r → OkRange (merged r)

pub record MergesTo (result : Option Merged) : Type 0 where
  pub out : Merged
  pub returns : result ≡ some out
  pub ok : OkRange out

fit-MergesTo :
    (r1 r2 : Range)
    → IsRange r1
    → IsRange r2
    → eqb_ℤ r1.quant (pos 0) ≡ false
    → MergesTo (some (merge_fit r1 r2))
unfolding merge_fit
fit-MergesTo r1 r2 v w n = record {
  out = _;
  returns = refl;
  ok = good_range (record { ordered = by_quant r1.quant v.step n; step = v.step });
}
  where
    by_quant :
        (q : ℤ)
        → pos 0 ≤ℤ q
        → eqb_ℤ q (pos 0) ≡ false
        → math_range_fit (record { lo = r1.lo; hi = r1.hi; quant = q }) r2.lo
          ≤ℤ math_range_fit (record { lo = r1.lo; hi = r1.hi; quant = q }) r2.hi
    by_quant (pos zero) h k = absurd (cc)
    by_quant (pos (suc q)) h k =
        fit_mono r1.lo r1.hi (suc q) r2.lo r2.hi v.ordered (omega arith) w.ordered
    by_quant (negsuc q) h k = absurd (omega arith)

equal-MergesTo :
    (r1 r2 : Range)
    → IsRange r1
    → IsRange r2
    → math_range_ovp r1 r2 ≡ true
    → MergesTo (
        some (
          merged
            (record { lo = math_max r1.lo r2.lo; hi = math_min r1.hi r2.hi; quant = r1.quant })))
equal-MergesTo r1 r2 v w o =
    let (a, b) = ovp-le r1 r2 o in
    record {
      out = _;
      returns = refl;
      ok = good_range (record {
        ordered = max-le-min r1.lo r2.lo r1.hi r2.hi v.ordered b a w.ordered;
        step = v.step;
      });
    }

quants-MergesTo :
    (fuel : ℕ) (r1 r2 : Range)
    → IsRange r1
    → IsRange r2
    → eqb_ℤ r1.quant (pos 0) ≡ false
    → eqb_ℤ r2.quant (pos 0) ≡ false
    → IsCovered fuel r1 r2
    → MergesTo (merge_quants (suc fuel) r1 r2)
quants-MergesTo fuel r1 r2 v w n m c = by_quant r1.quant r2.quant v.step w.step n m
  where
    ok_outcome :
        (base low high : ℤ) (q : ℕ) (out : Merged) → Outcome base low high q out → OkRange out
    ok_outcome base low high q refused o = no_range
    ok_outcome base low high q (merged r) o =
        good_range
          (let step = o.step in record { ordered = o.ordered; step = rw step (omega arith) })

    by_quant :
        (q1 q2 : ℤ)
        → pos 0 ≤ℤ q1
        → pos 0 ≤ℤ q2
        → eqb_ℤ q1 (pos 0) ≡ false
        → eqb_ℤ q2 (pos 0) ≡ false
        → MergesTo (
            merge_quants
              (suc fuel)
              (record { lo = r1.lo; hi = r1.hi; quant = q1 })
              (record { lo = r2.lo; hi = r2.hi; quant = q2 }))
    by_quant (pos zero) q2 a b d e = absurd (cc)
    by_quant (negsuc _) q2 a b d e = absurd (omega arith)
    by_quant (pos (suc q1)) (pos zero) a b d e = absurd (cc)
    by_quant (pos (suc q1)) (negsuc _) a b d e = absurd (omega arith)
    by_quant (pos (suc q1)) (pos (suc q2)) a b d e =
        let (q, _, _, _, (out, returns, o)) =
          merge_quants_lem fuel (suc q1) (suc q2) r1.lo r1.hi r2.lo r2.hi (omega arith)
            (omega arith) c.starts c.ends in
        record {
          out = out;
          returns = returns;
          ok =
              ok_outcome (math_min r1.lo r2.lo) (math_max r1.lo r2.lo) (math_min r1.hi r2.hi) q out
                o;
        }

-- Two ranges that are not empty, whatever their quantizations, merge to a range that is not empty, or
-- the merge is refused. The fuel has to cover the two ranges.
pub range_merge_lem :
    (fuel : ℕ) (r1 r2 : Range)
    → IsRange r1
    → IsRange r2
    → IsCovered fuel r1 r2
    → MergesTo (math_range_merge (suc fuel) r1 r2)
unfolding math_range_merge
range_merge_lem fuel r1 r2 v w c = elim (Bool-cases (math_range_eq r1 r2)) [
  | inl e ↦ rw e (record { out = _; returns = refl; ok = good_range v })
  | inr e ↦ elim (Bool-cases (math_range_ovp r1 r2)) [
    | inr o ↦ rw (e, o) (record { out = _; returns = refl; ok = no_range })
    | inl o ↦ elim (Bool-cases (eqb_ℤ r1.quant r2.quant)) [
      | inl q ↦ rw (e, o, q) (equal-MergesTo r1 r2 v w o)
      | inr q ↦ elim (Bool-cases (eqb_ℤ r1.quant (pos 0))) [
        | inl a ↦ rw (e, o, q, a) (fit-MergesTo r2 r1 w v (other_quant r1.quant r2.quant a q))
        | inr a ↦ elim (Bool-cases (eqb_ℤ r2.quant (pos 0))) [
          | inl b ↦ rw (e, o, q, a, b) (fit-MergesTo r1 r2 v w a)
          | inr b ↦ rw (e, o, q, a, b) (quants-MergesTo fuel r1 r2 v w a b c)
        ]
      ]
    ]
  ]
]
  where
    other_quant : (a b : ℤ) → eqb_ℤ a (pos 0) ≡ true → eqb_ℤ a b ≡ false → eqb_ℤ b (pos 0) ≡ false
    other_quant a b h k = ground arith
