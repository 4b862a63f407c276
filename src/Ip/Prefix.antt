-- ===== src/Ip/Prefix.antt =====
-- ip_network_contains against the prefixes of addresses.
use sane_airscan.Base.{
  ℕ, zero, suc, ◌+◌, ◌-◌, ◌≤◌, ◌<◌, ◌≡◌, refl, sym, ap, ◌∙◌, Bool, true, false, ◌&&◌, some, [], ◌∷◌,
  ◌++◌, ltb, leb, length, take, drop, replicate, length-take, length-drop, lt→ltb, length-replicate,
  arith,
}
use mathlib.Core.Path.{ap₂}
use native.Mathlib.Decide.{dec_le}
use native.Mathlib.Nat.{zero-add, suc-add}
use sane_airscan.Ip.{
  Bits, eq_bits, and_bits, xor_bits, is_zero, shift_left, ones, zeros, contains_v4, mask_v6,
  contains_v6, Network, Addr, ip_network_contains, contains_at, Family, af_inet, af_inet6, af_other,
}

take_zero : (a : Bits) → take 0 a ≡ []
take_zero a = refl

-- A mask keeps the difference of the first bits only.
masked_zero :
    (a b : Bits) (k r : ℕ)
    → length a ≡ k + r
    → length b ≡ k + r
    → is_zero (and_bits (xor_bits a b) (replicate k true ++ replicate r false))
      ≡ eq_bits (take k a) (take k b)
unfolding is_zero and_bits xor_bits eq_bits
masked_zero [] [] zero r h l = refl
masked_zero [] [] (suc k) r h l = refl
masked_zero [] (b ∷ br) k r h l = absurd (omega arith)
masked_zero (a ∷ ar) [] k r h l = absurd (omega arith)
masked_zero (a ∷ ar) (b ∷ br) zero zero h l = absurd (omega arith)
masked_zero (a ∷ ar) (b ∷ br) zero (suc r) h l =
    ground (arith, masked_zero ar br zero r (omega arith) (omega arith), take_zero ar, take_zero br)
masked_zero (a ∷ ar) (b ∷ br) (suc k) r h l =
    ground (arith, masked_zero ar br k r (omega arith) (omega arith))

ones_eq : (m n : ℕ) → m ≡ n → ones m ≡ ones n
ones_eq m n e = ap ones e

drop-ones : (n k : ℕ) → drop k (ones n) ≡ ones (n - k)
drop-ones zero zero = refl
drop-ones zero (suc k) = ones_eq 0 (0 - suc k) (omega arith)
drop-ones (suc n) zero = ones_eq (suc n) (suc n - 0) (omega arith)
drop-ones (suc n) (suc k) = drop-ones n k ∙ ones_eq (n - k) (suc n - suc k) (omega arith)

-- The mask of `k` bits, where the shift is defined.
prefix_mask :
    (n k : ℕ) → 0 < k → k ≤ n → shift_left (ones n) (n - k) ≡ some (ones k ++ zeros (n - k))
unfolding shift_left
prefix_mask n k h l =
    let fits : ltb (n - k) (length (ones n)) ≡ true =
      lt→ltb _ _ (omega (arith, length-replicate n true)) in
    rw fits (
      ap some (
        ap (λ w. w ++ zeros (n - k)) (drop-ones n (n - k) ∙ ones_eq (n - (n - k)) k (omega arith))))

-- For an IPv4 network with a mask of 1 to 32 bits, ip_network_contains tells whether the first
-- `mask` bits of the two addresses are the same.
contains_v4_lem :
    (mask : ℕ) (net addr : Bits)
    → 0 < mask
    → mask ≤ 32
    → length net ≡ 32
    → length addr ≡ 32
    → contains_v4 mask net addr ≡ some (eq_bits (take mask net) (take mask addr))
unfolding contains_v4
contains_v4_lem mask net addr h l n a =
    let fits : leb mask 32 ≡ true = ground arith in
    rw fits (
      rw (prefix_mask 32 mask h l)
        (ap some (masked_zero net addr mask (32 - mask) (omega arith) (omega arith))))

take-take : (m n : ℕ) (a : Bits) → m ≤ n → take m (take n a) ≡ take m a
take-take zero n a h = refl
take-take (suc m) zero a h = absurd (omega arith)
take-take (suc m) (suc n) [] h = refl
take-take (suc m) (suc n) (x ∷ a) h = ap (λ r. x ∷ r) (take-take m n a (omega arith))

eq_nil_prefix : (j : ℕ) → eq_bits (take j []) (take j []) ≡ true
unfolding eq_bits
eq_nil_prefix zero = refl
eq_nil_prefix (suc j) = refl

-- Two prefixes agree where their parts agree.
eq_prefix_split :
    (i j : ℕ) (a b : Bits)
    → eq_bits (take (i + j) a) (take (i + j) b)
      ≡ (eq_bits (take i a) (take i b) && eq_bits (take j (drop i a)) (take j (drop i b)))
unfolding eq_bits
eq_prefix_split zero j a b = rw zero-add refl
eq_prefix_split (suc i) j [] [] = rw suc-add (sym (eq_nil_prefix j))
eq_prefix_split (suc i) j [] (y ∷ b) = rw suc-add refl
eq_prefix_split (suc i) j (x ∷ a) [] = rw suc-add refl
eq_prefix_split (suc i) j (x ∷ a) (y ∷ b) = rw suc-add (ground (arith, eq_prefix_split i j a b))

and_zeros : (a : Bits) (n : ℕ) → is_zero (and_bits a (zeros n)) ≡ true
unfolding is_zero and_bits
and_zeros [] n = refl
and_zeros (x ∷ a) zero = refl
and_zeros (x ∷ a) (suc n) = ground (arith, and_zeros a n)

and_true : (b : Bool) → (b && true) ≡ b
and_true b = ground arith

high_mask :
    (mask : ℕ)
    → 0 < mask
    → mask ≤ 64
    → mask_v6 mask ≡ some (ones mask ++ zeros (64 - mask), zeros 64)
unfolding mask_v6
high_mask mask h l =
    let fits : leb mask 64 ≡ true = ground arith in rw fits (rw (prefix_mask 64 mask h l))

low_mask : (j : ℕ) → 0 < j → j ≤ 64 → mask_v6 (64 + j) ≡ some (ones 64, ones j ++ zeros (64 - j))
unfolding mask_v6
low_mask j h l =
    let over : leb (64 + j) 64 ≡ false = ground arith in
    let fits : leb (64 + j) 128 ≡ true = ground arith in
    let shift : 128 - (64 + j) ≡ 64 - j = omega arith in
    rw (over, fits, shift) (rw (prefix_mask 64 j h l))

module _ (net addr : Bits) (n : length net ≡ 128) (a : length addr ≡ 128) where
  contains_high :
      (mask : ℕ)
      → 0 < mask
      → mask ≤ 64
      → contains_v6 mask net addr ≡ some (eq_bits (take mask addr) (take mask net))
  unfolding contains_v6
  contains_high mask h l =
      rw (high_mask mask h l, contains_v6)
        (ap some (
          ap₂ ◌&&◌
            (masked_zero (take 64 addr) (take 64 net) mask (64 - mask) (size addr a mask l)
                (size net n mask l)
              ∙ ap₂ eq_bits (take-take mask 64 addr l) (take-take mask 64 net l))
            (and_zeros (xor_bits (drop 64 addr) (drop 64 net)) 64)
          ∙ and_true _))
    where
      size : (x : Bits) → length x ≡ 128 → (m : ℕ) → m ≤ 64 → length (take 64 x) ≡ m + (64 - m)
      size x e m l = omega (arith, length-take 64 x)

  contains_low :
      (j : ℕ)
      → 0 < j
      → j ≤ 64
      → contains_v6 (64 + j) net addr ≡ some (eq_bits (take (64 + j) addr) (take (64 + j) net))
  unfolding contains_v6
  contains_low j h l =
      rw (low_mask j h l, contains_v6)
        (ap some (
          ap₂ ◌&&◌
            (masked_zero (take 64 addr) (take 64 net) 64 0 (first addr a) (first net n)
              ∙ ap₂ eq_bits (take-take 64 64 addr (omega arith))
                  (take-take 64 64 net (omega arith)))
            (masked_zero (drop 64 addr) (drop 64 net) j (64 - j) (rest addr a) (rest net n))
          ∙ sym (eq_prefix_split 64 j addr net)))
    where
      first : (x : Bits) → length x ≡ 128 → length (take 64 x) ≡ 64 + 0
      first x e = omega (arith, length-take 64 x)

      rest : (x : Bits) → length x ≡ 128 → length (drop 64 x) ≡ j + (64 - j)
      rest x e = omega (arith, length-drop 64 x)

pub eq_bits_sym : (a b : Bits) → eq_bits a b ≡ eq_bits b a
unfolding eq_bits
eq_bits_sym (x ∷ a) (y ∷ b) = ground (arith, eq_bits_sym a b)
eq_bits_sym [] [] = refl
eq_bits_sym [] (_ ∷ _) = refl
eq_bits_sym (_ ∷ _) [] = refl

contains_v6_lem :
    (mask : ℕ) (net addr : Bits)
    → 0 < mask
    → mask ≤ 128
    → length net ≡ 128
    → length addr ≡ 128
    → contains_v6 mask net addr ≡ some (eq_bits (take mask net) (take mask addr))
contains_v6_lem mask net addr h l n a = elim (dec_le mask 64) [
  | yes fits ↦ contains_high net addr n a mask h fits ∙ ap some (eq_bits_sym _ _)
  | no over ↦
      let split : 64 + (mask - 64) ≡ mask = omega arith in
      rw (← split) (
        contains_low net addr n a (mask - 64) (omega arith) (omega arith)
        ∙ ap some (eq_bits_sym _ _))
]

-- The bits of an address of a family.
abbrev pub width_of : Family → ℕ
width_of af_inet = 32
width_of af_inet6 = 128
width_of (af_other _) = 0

contains_at_lem :
    (f g : Family) (net : Network) (addr : Addr)
    → f ≡ g
    → 0 < net.mask
    → net.mask ≤ width_of g
    → length net.addr.ip ≡ width_of g
    → length addr.ip ≡ width_of g
    → contains_at f g net addr ≡ some (eq_bits (take net.mask net.addr.ip) (take net.mask addr.ip))
unfolding contains_at
contains_at_lem af_inet af_inet net addr e h l n a =
    contains_v4_lem net.mask net.addr.ip addr.ip h l n a
contains_at_lem af_inet6 af_inet6 net addr e h l n a =
    contains_v6_lem net.mask net.addr.ip addr.ip h l n a
contains_at_lem f (af_other k) net addr e h l n a = absurd (omega arith)
contains_at_lem af_inet af_inet6 net addr e h l n a = cc
contains_at_lem (af_other k) af_inet6 net addr e h l n a = cc
contains_at_lem af_inet6 af_inet net addr e h l n a = cc
contains_at_lem (af_other k) af_inet net addr e h l n a = cc

-- For a mask of 1 to 32 or 128 bits and an address of the network's family, ip_network_contains
-- shifts by less than a word and tells whether the addresses share the first `mask` bits.
pub network_contains_lem :
    (net : Network) (addr : Addr)
    → net.addr.af ≡ addr.af
    → 0 < net.mask
    → net.mask ≤ width_of addr.af
    → length net.addr.ip ≡ width_of addr.af
    → length addr.ip ≡ width_of addr.af
    → ip_network_contains net addr
      ≡ some (eq_bits (take net.mask net.addr.ip) (take net.mask addr.ip))
unfolding ip_network_contains
network_contains_lem net addr e h l n a = contains_at_lem net.addr.af addr.af net addr e h l n a
