-- ===== src/Ip/Set.antt =====
-- The operations of ip_addrset against membership.
use sane_airscan.Base.{
  ◌≡◌, refl, sym, ap, ◌∙◌, inl, inr, true, false, not, ◌&&◌, ◌||◌, ◌↔◌, [], ◌∷◌, ◌++◌, arith,
  Bool-cases,
}
use sane_airscan.Ip.{
  Addr, ip_addr_equal, AddrSet, ip_addrset_lookup, ip_addrset_add_unsafe, ip_addrset_add,
  ip_addrset_del, ip_addrset_merge, ip_addrset_is_intersect,
}
use sane_airscan.Ip.Members.{
  contains, is_distinct, equal_sym, equal_trans, contains_cong, contains-append, lookup-contains,
  erase, del-erase, contains-erase,
}

-- Deleting an address from a set without repetitions takes out exactly the addresses equal to it.
pub lookup-del :
    (s : AddrSet) (a b : Addr)
    → is_distinct s ≡ true
    → ip_addrset_lookup (ip_addrset_del s a) b ≡ (ip_addrset_lookup s b && not (ip_addr_equal a b))
lookup-del s a b d =
    rw (lookup-contains, del-erase)
      (contains-erase s a b d ∙ ap (λ t. t && not (ip_addr_equal a b)) (sym (lookup-contains s b)))

contains-add :
    (s : AddrSet) (a b : Addr)
    → contains (ip_addrset_add s a).1 b ≡ (contains s b || ip_addr_equal a b)
unfolding ip_addrset_add ip_addrset_add_unsafe
contains-add s a b = elim (Bool-cases (ip_addrset_lookup s a)) [
  | inl e ↦ rw e (absorbed (sym (lookup-contains s a) ∙ e))
  | inr n ↦ rw n (contains-append s (a ∷ []) b ∙ ap (λ t. contains s b || t) one)
]
  where
    absorbed : contains s a ≡ true → contains s b ≡ (contains s b || ip_addr_equal a b)
    absorbed h = ground (arith, contains_cong s a b)

    one : contains (a ∷ []) b ≡ ip_addr_equal a b
    one = unfold contains in ground arith

-- Adding an address tells whether it was new, and makes the addresses equal to it members.
pub lookup-add :
    (s : AddrSet) (a b : Addr)
    → ((ip_addrset_add s a).0 ≡ not (ip_addrset_lookup s a))
      × (ip_addrset_lookup (ip_addrset_add s a).1 b ≡ (ip_addrset_lookup s b || ip_addr_equal a b))
lookup-add s a b = (
  unfold ip_addrset_add in ground arith,
  lookup-contains (ip_addrset_add s a).1 b
      ∙ contains-add s a b
      ∙ ap (λ t. t || ip_addr_equal a b) (sym (lookup-contains s b)),
)

contains-merge :
    (t s : AddrSet) (b : Addr) → contains (ip_addrset_merge s t) b ≡ (contains s b || contains t b)
unfolding ip_addrset_merge contains
contains-merge [] s b = ground arith
contains-merge (x ∷ xs) s b =
    ground (arith, contains-merge xs (ip_addrset_add s x).1 b, contains-add s x b)

-- Merging makes the union.
pub lookup-merge :
    (s t : AddrSet) (b : Addr)
    → ip_addrset_lookup (ip_addrset_merge s t) b ≡ (ip_addrset_lookup s b || ip_addrset_lookup t b)
lookup-merge s t b = ground (
  arith,
  lookup-contains (ip_addrset_merge s t) b,
  lookup-contains s b,
  lookup-contains t b,
  contains-merge t s b,
)

-- For each set without repetitions, each other set and two addresses: adding the first address tells
-- whether it was new and makes the addresses equal to it members, deleting it takes out exactly these,
-- merging the other set makes the union, and all other membership stays as it was.
pub set_lookups :
    (s t : AddrSet) (a b : Addr)
    → is_distinct s ≡ true
    → ((ip_addrset_add s a).0 ≡ not (ip_addrset_lookup s a))
      × (ip_addrset_lookup (ip_addrset_add s a).1 b ≡ (ip_addrset_lookup s b || ip_addr_equal a b))
      × (ip_addrset_lookup (ip_addrset_del s a) b
          ≡ (ip_addrset_lookup s b && not (ip_addr_equal a b)))
      × (ip_addrset_lookup (ip_addrset_merge s t) b
          ≡ (ip_addrset_lookup s b || ip_addrset_lookup t b))
set_lookups s t a b d =
    ((lookup-add s a b).0, (lookup-add s a b).1, lookup-del s a b d, lookup-merge s t b)

distinct-append :
    (s : AddrSet) (a : Addr)
    → is_distinct s ≡ true
    → contains s a ≡ false
    → is_distinct (s ++ a ∷ []) ≡ true
unfolding is_distinct contains
distinct-append [] a d h = unfold contains in refl
distinct-append (x ∷ xs) a d h =
    ground (arith, distinct-append xs a, contains-append xs (a ∷ []) x, equal_sym x a)

distinct-add :
    (s : AddrSet) (a : Addr) → is_distinct s ≡ true → is_distinct (ip_addrset_add s a).1 ≡ true
unfolding ip_addrset_add ip_addrset_add_unsafe
distinct-add s a d = elim (Bool-cases (ip_addrset_lookup s a)) [
  | inl e ↦ rw e d
  | inr n ↦ rw n (distinct-append s a d (sym (lookup-contains s a) ∙ n))
]

distinct-merge : (t s : AddrSet) → is_distinct s ≡ true → is_distinct (ip_addrset_merge s t) ≡ true
unfolding ip_addrset_merge
distinct-merge [] s d = d
distinct-merge (x ∷ xs) s d = distinct-merge xs (ip_addrset_add s x).1 (distinct-add s x d)

erase-absent : (s : AddrSet) (a b : Addr) → contains s b ≡ false → contains (erase s a) b ≡ false
unfolding contains erase
erase-absent [] a b h = refl
erase-absent (x ∷ xs) a b h = ground (arith, erase-absent xs a b)

distinct-erase : (s : AddrSet) (a : Addr) → is_distinct s ≡ true → is_distinct (erase s a) ≡ true
unfolding is_distinct erase
distinct-erase [] a d = refl
distinct-erase (x ∷ xs) a d = ground (arith, distinct-erase xs a, erase-absent xs a x)

-- The operations keep a set free of repetitions.
pub set_ops-distinct :
    (s t : AddrSet) (a : Addr)
    → is_distinct s ≡ true
    → (is_distinct (ip_addrset_add s a).1 ≡ true)
      × (is_distinct (ip_addrset_del s a) ≡ true)
      × (is_distinct (ip_addrset_merge s t) ≡ true)
set_ops-distinct s t a d = (
  distinct-add s a d,
  ap is_distinct (del-erase s a) ∙ distinct-erase s a d,
  distinct-merge t s d,
)

-- A member of a set equals itself: its family is one of the two.
contains_self : (a : Addr) (t : AddrSet) → contains t a ≡ true → ip_addr_equal a a ≡ true
unfolding contains
contains_self a [] h = cc
contains_self a (x ∷ xs) h = ground (arith, contains_self a xs, equal_trans a x a, equal_sym x a)

equal_self : (a : Addr) (t : AddrSet) → ip_addrset_lookup t a ≡ true → ip_addr_equal a a ≡ true
equal_self a t h = contains_self a t (sym (lookup-contains t a) ∙ h)

common_member :
    (s t : AddrSet)
    → ip_addrset_is_intersect s t ≡ true
    → (a : Addr) × (contains s a ≡ true) × (ip_addrset_lookup t a ≡ true)
unfolding ip_addrset_is_intersect contains
common_member [] t h = cc
common_member (x ∷ xs) t h = elim (Bool-cases (ip_addrset_lookup t x)) [
  | inl y ↦ (x, rw (equal_self x t y) refl, y)
  | inr n ↦ let (a, m, k) = common_member xs t (rw n at h) in (a, ground arith, k)
]

members_meet :
    (s t : AddrSet) (a : Addr)
    → contains s a ≡ true
    → contains t a ≡ true
    → ip_addrset_is_intersect s t ≡ true
unfolding ip_addrset_is_intersect contains
members_meet [] t a h k = cc
members_meet (x ∷ xs) t a h k =
    ground (arith, members_meet xs t a, contains_cong t x a, lookup-contains t x)

-- Two sets intersect exactly where they have a common member.
pub is_intersect_iff :
    (s t : AddrSet)
    → (ip_addrset_is_intersect s t ≡ true)
      ↔ ((a : Addr) × (ip_addrset_lookup s a ≡ true) × (ip_addrset_lookup t a ≡ true))
is_intersect_iff s t = (
  λ h. let (a, m, k) = common_member s t h in (a, lookup-contains s a ∙ m, k),
  λ (a, h, k). members_meet s t a (sym (lookup-contains s a) ∙ h) (sym (lookup-contains t a) ∙ k),
)
