-- ===== src/Math.antt =====
-- airscan-math.c, and the inline functions of airscan.h that it stands on.
-- SANE_Word is a signed 32-bit integer. Its sums and products stand as integers, since a run that
-- overflows is undefined in C; a narrowing cast wraps. Division is C's, towards zero.
pub mod Fit
pub mod Gcd
pub mod Merge
pub mod Within
pub mod Ordered
pub mod Extents
use sane_airscan.Base.{
  ℕ, zero, suc, ◌+◌, ◌-◌, ◌*◌, ◌/◌, ◌%◌, ◌^◌, Bool, true, false, not, ◌&&◌, ◌||◌, Option, none,
  some, ltb, leb, ◌==◌, if◌then◌else◌,
}
use sane_airscan.Base.Int.{
  ℤ, pos, negsuc, pos_part, neg_part, sub_ℕ, ◌+ℤ◌, ◌-ℤ◌, ◌*ℤ◌, ◌/ℤ◌, ltb_ℤ, leb_ℤ, eqb_ℤ,
}

-- The cast of a 64-bit value to SANE_Word.
abbrev pub to_word : ℤ → ℤ
to_word a =
    let low = (pos_part a + (2 ^ 32 - neg_part a % 2 ^ 32)) % 2 ^ 32 in
    if ltb low (2 ^ 31) then pos low else negsuc (2 ^ 32 - 1 - low)

unfoldable pub math_min : ℤ → ℤ → ℤ
math_min a b = if ltb_ℤ a b then a else b

unfoldable pub math_max : ℤ → ℤ → ℤ
math_max a b = if ltb_ℤ b a then a else b

unfoldable pub math_bound : ℤ → ℤ → ℤ → ℤ
math_bound x lo hi = if ltb_ℤ x lo then lo else if ltb_ℤ hi x then hi else x

-- The 64-bit product cannot overflow.
unfoldable pub math_muldiv : ℤ → ℤ → ℤ → ℤ
math_muldiv x mul div = to_word ((x *ℤ mul +ℤ div /ℤ pos 2) /ℤ div)

-- SANE_Range. A zero `quant` is no quantization.
pub record Range : Type 0 where
  pub lo : ℤ
  pub hi : ℤ
  pub quant : ℤ

unfoldable pub math_range_fit : Range → ℤ → ℤ
math_range_fit r i =
    if ltb_ℤ i r.lo
    then r.lo
    else if ltb_ℤ r.hi i
    then r.hi
    else if eqb_ℤ r.quant (pos 0)
    then i
    else let off = i -ℤ r.lo in
      let steps = (off +ℤ r.quant /ℤ pos 2) /ℤ r.quant in math_min (steps *ℤ r.quant +ℤ r.lo) r.hi

-- The subtractive loop of `math_gcd`, on fuel; `none` means that it ran out. The assertion of the
-- code, that both are positive, is a hypothesis of the theorems.
unfoldable pub math_gcd : ℕ → ℕ → ℕ → Option ℕ
math_gcd zero x y = none
math_gcd (suc fuel) x y =
    let less_x = math_gcd fuel (x - y) y in
    let less_y = math_gcd fuel x (y - x) in
    if x == y then some x else if ltb y x then less_x else less_y

-- Both loops of `math_gcd` end within `x + y` rounds.
unfoldable pub math_lcm : ℕ → ℕ → Option ℕ
math_lcm x y = elim (math_gcd (x + y) x y) [ none ↦ none | some g ↦ some (x * y / g) ]

unfoldable pub math_range_eq : Range → Range → Bool
math_range_eq r1 r2 = eqb_ℤ r1.lo r2.lo && eqb_ℤ r1.hi r2.hi && eqb_ℤ r1.quant r2.quant

unfoldable pub math_range_ovp : Range → Range → Bool
math_range_ovp r1 r2 = leb_ℤ r2.lo r1.hi && leb_ℤ r1.lo r2.hi

-- `for (min = m; min < bounds_min; min += quant)`, on fuel.
unfoldable pub raise_min : ℕ → ℤ → ℤ → ℤ → Option ℤ
raise_min zero quant bound m = none
raise_min (suc fuel) quant bound m =
    let rest = raise_min fuel quant bound (m +ℤ quant) in if ltb_ℤ m bound then rest else some m

-- `for (max = m; max + quant <= bounds_max; max += quant)`, on fuel.
unfoldable pub raise_max : ℕ → ℤ → ℤ → ℤ → Option ℤ
raise_max zero quant bound m = none
raise_max (suc fuel) quant bound m =
    let rest = raise_max fuel quant bound (m +ℤ quant) in
    if leb_ℤ (m +ℤ quant) bound then rest else some m

-- What a call leaves: `false`, or `true` and the range in `*out`.
pub data Merged : Type 0 where
  refused : Merged
  merged : Range → Merged

-- The case with two different quantizations, both above zero.
unfoldable pub merge_quants : ℕ → Range → Range → Option Merged
merge_quants fuel r1 r2 =
    let bounds_min = math_max r1.lo r2.lo in
    let bounds_max = math_min r1.hi r2.hi in
    elim (math_lcm (pos_part r1.quant) (pos_part r2.quant)) [
      | none ↦ none
      | some q ↦ elim (raise_min fuel (pos q) bounds_min (math_min r1.lo r2.lo)) [
        | none ↦ none
        | some m ↦
            if ltb_ℤ bounds_max m
            then some refused
            else elim (raise_max fuel (pos q) bounds_max m) [
              | none ↦ none
              | some top ↦ some (merged (record { lo = m; hi = top; quant = pos q }))
            ]
      ]
    ]

-- `r1` has quantization and `r2` has none.
unfoldable pub merge_fit : Range → Range → Merged
merge_fit r1 r2 =
    merged (record { lo = math_range_fit r1 r2.lo; hi = math_range_fit r1 r2.hi; quant = r1.quant })

-- The fuel bounds the rounds of each of the two loops.
unfoldable pub math_range_merge : ℕ → Range → Range → Option Merged
math_range_merge fuel r1 r2 =
    if math_range_eq r1 r2
    then some (merged r1)
    else if not (math_range_ovp r1 r2)
    then some refused
    else if eqb_ℤ r1.quant r2.quant
    then some
        (merged (record { lo = math_max r1.lo r2.lo; hi = math_min r1.hi r2.hi; quant = r1.quant }))
    else if eqb_ℤ r1.quant (pos 0)
    then some (merge_fit r2 r1)
    else if eqb_ℤ r2.quant (pos 0)
    then some (merge_fit r1 r2)
    else merge_quants fuel r1 r2
