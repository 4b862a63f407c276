-- ===== src/Ip/Members.antt =====
-- Membership of an address in a set, and the deletion of the first equal address.
use sane_airscan.Base.{
  ℕ, suc, ◌+◌, ◌≡◌, refl, ap, ◌∙◌, inl, inr, Bool, true, false, not, ◌&&◌, ◌||◌, Option, none, some,
  [], ◌∷◌, ◌++◌, if◌then◌else◌, take, drop, arith, Bool-cases,
}
use sane_airscan.Ip.Prefix.{eq_bits_sym}
use sane_airscan.Ip.{
  Bits, eq_bits, Family, af_inet, af_inet6, af_other, Addr, same_addr, ip_addr_equal, AddrSet,
  index_from, ip_addrset_index, ip_addrset_lookup, ip_addrset_del,
}

-- Membership, and what it is to have no address twice.
unfoldable pub contains : AddrSet → Addr → Bool
contains [] a = false
contains (x ∷ xs) a = ip_addr_equal x a || contains xs a

unfoldable pub is_distinct : AddrSet → Bool
is_distinct [] = true
is_distinct (x ∷ xs) = not (contains xs x) && is_distinct xs

eq_bits_trans : (a b c : Bits) → eq_bits a b ≡ true → eq_bits b c ≡ true → eq_bits a c ≡ true
unfolding eq_bits
eq_bits_trans [] [] c h k = k
eq_bits_trans [] (y ∷ b) c h k = cc
eq_bits_trans (x ∷ a) [] c h k = cc
eq_bits_trans (x ∷ a) (y ∷ b) [] h k = cc
eq_bits_trans (x ∷ a) (y ∷ b) (z ∷ c) h k = ground (arith, eq_bits_trans a b c)

same_addr_sym : (f g : Family) (a b : Addr) → same_addr f g a b ≡ same_addr g f b a
unfolding same_addr
same_addr_sym af_inet af_inet a b = eq_bits_sym a.ip b.ip
same_addr_sym af_inet6 af_inet6 a b = ground (arith, eq_bits_sym a.ip b.ip)
same_addr_sym af_inet af_inet6 a b = refl
same_addr_sym af_inet6 af_inet a b = refl
same_addr_sym af_inet (af_other _) a b = refl
same_addr_sym af_inet6 (af_other _) a b = refl
same_addr_sym (af_other _) af_inet a b = refl
same_addr_sym (af_other _) af_inet6 a b = refl
same_addr_sym (af_other _) (af_other _) a b = refl

same_addr_trans :
    (f g h : Family) (a b c : Addr)
    → same_addr f g a b ≡ true
    → same_addr g h b c ≡ true
    → same_addr f h a c ≡ true
unfolding same_addr
same_addr_trans af_inet af_inet af_inet a b c p q = eq_bits_trans a.ip b.ip c.ip p q
same_addr_trans af_inet6 af_inet6 af_inet6 a b c p q = ground (arith, eq_bits_trans a.ip b.ip c.ip)
same_addr_trans _ _ _ a b c p q = cc

pub equal_sym : (a b : Addr) → ip_addr_equal a b ≡ ip_addr_equal b a
unfolding ip_addr_equal
equal_sym a b = same_addr_sym a.af b.af a b

pub equal_trans :
    (a b c : Addr) → ip_addr_equal a b ≡ true → ip_addr_equal b c ≡ true → ip_addr_equal a c ≡ true
unfolding ip_addr_equal
equal_trans a b c p q = same_addr_trans a.af b.af c.af a b c p q

-- Equal addresses are members alike.
pub contains_cong :
    (s : AddrSet) (a b : Addr) → ip_addr_equal a b ≡ true → contains s a ≡ contains s b
unfolding contains
contains_cong [] a b h = refl
contains_cong (x ∷ xs) a b h =
    ground (arith, contains_cong xs a b h, equal_trans x a b, equal_trans x b a, equal_sym a b)

pub contains-append :
    (s t : AddrSet) (a : Addr) → contains (s ++ t) a ≡ (contains s a || contains t a)
unfolding contains
contains-append [] t a = refl
contains-append (x ∷ xs) t a = ground (arith, contains-append xs t a)

is_found : Option ℕ → Bool
is_found none = false
is_found (some _) = true

index_from-contains : (i : ℕ) (s : AddrSet) (a : Addr) → is_found (index_from i s a) ≡ contains s a
unfolding index_from contains is_found
index_from-contains i [] a = refl
index_from-contains i (x ∷ xs) a = ground (arith, index_from-contains (i + 1) xs a)

pub lookup-contains : (s : AddrSet) (a : Addr) → ip_addrset_lookup s a ≡ contains s a
unfolding ip_addrset_lookup ip_addrset_index is_found
lookup-contains s a = ground (arith, index_from-contains 0 s a)

-- The first equal address is taken out.
unfoldable pub erase : AddrSet → Addr → AddrSet
erase [] a = []
erase (x ∷ xs) a = if ip_addr_equal x a then xs else x ∷ erase xs a

shift_index : Option ℕ → Option ℕ
shift_index none = none
shift_index (some i) = some (suc i)

index_from-suc :
    (i : ℕ) (s : AddrSet) (a : Addr) → index_from (suc i) s a ≡ shift_index (index_from i s a)
unfolding index_from shift_index
index_from-suc i [] a = refl
index_from-suc i (x ∷ xs) a = elim (Bool-cases (ip_addr_equal x a)) [
  | inl e ↦ rw e refl
  | inr n ↦
      let step : suc i + 1 ≡ suc (i + 1) = omega arith in rw (n, step) (index_from-suc (i + 1) xs a)
]

cut : AddrSet → Option ℕ → AddrSet
cut s none = s
cut s (some i) = take i s ++ drop (i + 1) s

cut_cons : (x : Addr) (xs : AddrSet) (o : Option ℕ) → cut (x ∷ xs) (shift_index o) ≡ x ∷ cut xs o
unfolding cut shift_index
cut_cons x xs none = refl
cut_cons x xs (some i) =
    let step : suc i + 1 ≡ suc (i + 1) = omega arith in
    ap (λ n. x ∷ (take i xs ++ drop n (x ∷ xs))) step

cut-erase : (s : AddrSet) (a : Addr) → cut s (index_from 0 s a) ≡ erase s a
unfolding index_from erase
cut-erase [] a = unfold cut in refl
cut-erase (x ∷ xs) a = elim (Bool-cases (ip_addr_equal x a)) [
  | inl e ↦ rw e (unfold cut in refl)
  | inr n ↦ rw n (
      ap (cut (x ∷ xs)) (index_from-suc 0 xs a)
      ∙ cut_cons x xs (index_from 0 xs a)
      ∙ ap (λ r. x ∷ r) (cut-erase xs a))
]

pub del-erase : (s : AddrSet) (a : Addr) → ip_addrset_del s a ≡ erase s a
unfolding ip_addrset_del ip_addrset_index
del-erase s a = same_cut (index_from 0 s a) ∙ cut-erase s a
  where
    same_cut :
        (o : Option ℕ) → (elim o [ none ↦ s | some i ↦ take i s ++ drop (i + 1) s ]) ≡ cut s o
    same_cut none = unfold cut in refl
    same_cut (some i) = unfold cut in refl

pub contains-erase :
    (s : AddrSet) (a b : Addr)
    → is_distinct s ≡ true
    → contains (erase s a) b ≡ (contains s b && not (ip_addr_equal a b))
unfolding contains erase is_distinct
contains-erase [] a b d = refl
contains-erase (x ∷ xs) a b d = elim (Bool-cases (ip_addr_equal x a)) [
  | inl e ↦
      rw e
        (ground (arith, contains_cong xs x b, equal_trans x a b, equal_trans a x b, equal_sym x a))
  | inr n ↦ rw n (ground (arith, contains-erase xs a b, equal_trans x b a, equal_sym a b))
]
