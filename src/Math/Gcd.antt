-- ===== src/Math/Gcd.antt =====
-- `math_gcd` and `math_lcm`.
use sane_airscan.Base.{
  ℕ, zero, suc, ◌+◌, ◌-◌, ◌*◌, ◌/◌, ◌≤◌, ◌<◌, ◌≡◌, inl, inr, ap, ◌∙◌, some, arith, ltb, ◌==◌,
  Bool-cases, ==_iff, ltb→lt,
}
use native.Mathlib.Nat.{mul_comm, mul-sub, mul-div_left, mul_assoc}
use sane_airscan.Math.{math_gcd, math_lcm}

abbrev pub Divides : ℕ → ℕ → Type 0
Divides d n = (k : ℕ) × (n ≡ k * d)

Divides-sub : (d a b : ℕ) → b < a → Divides d a → Divides d b → Divides d (a - b)
Divides-sub d a b h (j, p) (k, q) =
    (j - k, omega (arith, mul-sub d j k, mul_comm d (j - k), mul_comm d j, mul_comm d k))

Divides-of_sub : (d a b : ℕ) → b < a → Divides d (a - b) → Divides d b → Divides d a
Divides-of_sub d a b h (j, p) (k, q) = (j + k, grind arith)

pub record IsGcd (x y g : ℕ) : Type 0 where
  pub positive : 0 < g
  pub left : Divides g x
  pub right : Divides g y
  pub greatest : (d : ℕ) → Divides d x → Divides d y → Divides d g

-- Within `x + y` rounds the loop of `math_gcd` ends with the greatest common divisor of two
-- positive numbers.
pub gcd_lem :
    (fuel x y : ℕ)
    → 0 < x
    → 0 < y
    → x + y ≤ fuel
    → (g : ℕ) × (math_gcd fuel x y ≡ some g) × IsGcd x y g
unfolding math_gcd
gcd_lem zero x y p q h = absurd (omega arith)
gcd_lem (suc fuel) x y p q h = elim (Bool-cases (x == y)) [
  | inl e ↦
      let same : x ≡ y = (==_iff x y).0 e in
      (
        x,
        rw e,
        record {
          positive = p;
          left = (1, omega arith);
          right = (1, omega arith);
          greatest = λ d a b. a;
        },
      )
  | inr ne ↦ elim (Bool-cases (ltb y x)) [
    | inl lt ↦
        let y-lt : y < x = ltb→lt y x lt in
        let (g, e, is) = gcd_lem fuel (x - y) y (omega arith) q (omega arith) in
        (
          g,
          rw (ne, lt) e,
          record {
            positive = is.positive;
            left = Divides-of_sub g x y y-lt is.left is.right;
            right = is.right;
            greatest = λ d a b. is.greatest d (Divides-sub d x y y-lt a b) b;
          },
        )
    | inr ge ↦
        let x-lt : x < y = ground arith in
        let (g, e, is) = gcd_lem fuel x (y - x) p (omega arith) (omega arith) in
        (
          g,
          rw (ne, ge) e,
          record {
            positive = is.positive;
            left = is.left;
            right = Divides-of_sub g y x x-lt is.right is.left;
            greatest = λ d a b. is.greatest d a (Divides-sub d y x x-lt b a);
          },
        )
  ]
]

quotient_lem : (x k g : ℕ) → 0 < g → x * (k * g) / g ≡ x * k
quotient_lem x k g h = rw (← mul_assoc) (mul-div_left (x * k) h)

-- Both ways to the common multiple meet.
cross : (x y g j k : ℕ) → 0 < g → x ≡ j * g → y ≡ k * g → x * k ≡ j * y
cross x y g j k h e f = rw (e, f, mul_assoc, mul_comm g k)

pos_of_parts : (x k g : ℕ) → 0 < k * g → 0 < x → 0 < x * k
pos_of_parts x zero g h p = absurd (omega arith)
pos_of_parts x (suc k) g h p = omega arith

abbrev pub IsLcm : ℕ → ℕ → ℕ → ℕ → Type 0
IsLcm x y g m = IsGcd x y g × (m * g ≡ x * y) × Divides x m × Divides y m × (0 < m)

IsLcm-of_gcd :
    (x y g : ℕ)
    → 0 < x
    → 0 < y
    → math_gcd (x + y) x y ≡ some g
    → IsGcd x y g
    → (m : ℕ) × (math_lcm x y ≡ some m) × IsLcm x y g m
unfolding math_lcm
IsLcm-of_gcd x y g p q e is =
    let (j, x-eq) = is.left in
    let (k, y-eq) = is.right in
    let by_y : x * y / g ≡ x * k = ap (λ t. x * t / g) y-eq ∙ quotient_lem x k g is.positive in
    (
      x * k,
      rw (e, math_lcm) (ap some by_y),
      (
        is,
        rw y-eq (mul_assoc x k g),
        (k, mul_comm x k),
        (j, cross x y g j k is.positive x-eq y-eq),
        pos_of_parts x k g (rw y-eq at q) p,
      ),
    )

-- For two positive numbers `math_lcm` returns a positive common multiple of them, the one whose
-- product with the greatest common divisor is the product of the two.
pub lcm_lem :
    (x y : ℕ) → 0 < x → 0 < y → (g : ℕ) × (m : ℕ) × (math_lcm x y ≡ some m) × IsLcm x y g m
lcm_lem x y p q =
    let (g, e, is) = gcd_lem (x + y) x y p q (omega arith) in
    let (m, e', is') = IsLcm-of_gcd x y g p q e is in (g, m, e', is')
