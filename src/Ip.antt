-- ===== src/Ip.antt =====
-- airscan-ip.c: addresses, networks and sets of addresses. An address is the list of its bits in
-- network order, 32 or 128 of them; so ntohl, htonl and htobe64 are identities here, and a machine
-- word is the list of its bits from the highest to the lowest.
pub mod Prefix
pub mod Members
pub mod Set
pub mod Order
use sane_airscan.Base.{
  ℕ, zero, suc, ◌+◌, ◌-◌, ◌*◌, ◌/◌, ◌%◌, ◌^◌, Bool, true, false, not, ◌&&◌, ◌||◌, Option, none,
  some, List, [], ◌∷◌, ◌++◌, ltb, leb, ◌==◌, if◌then◌else◌, length, take, drop, replicate,
}

abbrev pub Bits : Type 0
Bits = List Bool

-- The bits of a number, from the highest of `width` to the lowest.
unfoldable pub bits_of : ℕ → ℕ → Bits
bits_of zero n = []
bits_of (suc width) n = (n / 2 ^ width % 2 == 1) ∷ bits_of width n

abbrev pub eq_bit : Bool → Bool → Bool
eq_bit true b = b
eq_bit false b = not b

unfoldable pub eq_bits : Bits → Bits → Bool
eq_bits [] [] = true
eq_bits (a ∷ ar) (b ∷ br) = eq_bit a b && eq_bits ar br
eq_bits _ _ = false

unfoldable pub and_bits : Bits → Bits → Bits
and_bits (a ∷ ar) (b ∷ br) = (a && b) ∷ and_bits ar br
and_bits _ _ = []

unfoldable pub xor_bits : Bits → Bits → Bits
xor_bits (a ∷ ar) (b ∷ br) = not (eq_bit a b) ∷ xor_bits ar br
xor_bits _ _ = []

-- `w == 0`.
unfoldable pub is_zero : Bits → Bool
is_zero [] = true
is_zero (a ∷ ar) = not a && is_zero ar

-- `w << k`; `none` where C leaves the result undefined.
unfoldable pub shift_left : Bits → ℕ → Option Bits
shift_left w k = if ltb k (length w) then some (drop k w ++ replicate k false) else none

-- The address family; of the others the code knows AF_UNIX.
pub data Family : Type 0 where
  af_inet : Family
  af_inet6 : Family
  af_other : ℕ → Family

-- ip_addr. The union of the two addresses is their bits.
pub record Addr : Type 0 where
  pub af : Family
  pub ifindex : ℕ
  pub ip : Bits

-- ip_is_linklocal: any family but AF_INET is taken for AF_INET6.
unfoldable pub ip_is_linklocal : Family → Bits → Bool
unfolding bits_of eq_bits and_bits
ip_is_linklocal af_inet a = eq_bits (and_bits a (bits_of 32 0xffff0000)) (bits_of 32 0xa9fe0000)
ip_is_linklocal _ a =
    eq_bits (take 8 a) (bits_of 8 0xfe)
    && eq_bits (and_bits (take 8 (drop 8 a)) (bits_of 8 0xc0)) (bits_of 8 0x80)

unfoldable pub ip_is_loopback : Family → Bits → Bool
unfolding bits_of eq_bits
ip_is_loopback af_inet a = eq_bits a (bits_of 32 0x7f000001)
ip_is_loopback _ a = eq_bits a (bits_of 128 1)

-- ip_addr_make.
unfoldable pub ip_addr_make : ℕ → Family → Bits → Addr
unfolding ip_is_linklocal
ip_addr_make ifindex af_inet addr = record { af = af_inet; ifindex = 0; ip = take 32 addr }
ip_addr_make ifindex af_inet6 addr = record {
  af = af_inet6;
  ifindex = if ip_is_linklocal af_inet6 (take 128 addr) then ifindex else 0;
  ip = take 128 addr;
}
ip_addr_make ifindex (af_other n) addr = record { af = af_other n; ifindex = 0; ip = [] }

same_addr : Family → Family → Addr → Addr → Bool
same_addr af_inet af_inet a1 a2 = eq_bits a1.ip a2.ip
same_addr af_inet6 af_inet6 a1 a2 = a1.ifindex == a2.ifindex && eq_bits a1.ip a2.ip
same_addr _ _ a1 a2 = false

-- ip_addr_equal. Two addresses of another family are never equal.
unfoldable pub ip_addr_equal : Addr → Addr → Bool
unfolding same_addr
ip_addr_equal a1 a2 = same_addr a1.af a2.af a1 a2

-- ip_network. The mask is its length.
pub record Network : Type 0 where
  pub addr : Addr
  pub mask : ℕ

abbrev pub ones : ℕ → Bits
ones n = replicate n true

abbrev pub zeros : ℕ → Bits
zeros n = replicate n false

unfoldable pub contains_v4 : ℕ → Bits → Bits → Option Bool
contains_v4 mask net addr =
    if leb mask 32
    then elim (shift_left (ones 32) (32 - mask)) [
      | none ↦ none
      | some m ↦ some (is_zero (and_bits (xor_bits net addr) m))
    ]
    else none

-- The two words of the mask.
unfoldable pub mask_v6 : ℕ → Option (Bits × Bits)
mask_v6 mask =
    if leb mask 64
    then elim (shift_left (ones 64) (64 - mask)) [ none ↦ none | some m ↦ some (m, zeros 64) ]
    else if leb mask 128
    then elim (shift_left (ones 64) (128 - mask)) [ none ↦ none | some m ↦ some (ones 64, m) ]
    else none

unfoldable pub contains_v6 : ℕ → Bits → Bits → Option Bool
contains_v6 mask net addr = elim (mask_v6 mask) [
  | none ↦ none
  | some (high, low) ↦ some (
      is_zero (and_bits (xor_bits (take 64 addr) (take 64 net)) high)
      && is_zero (and_bits (xor_bits (drop 64 addr) (drop 64 net)) low))
]

contains_at : Family → Family → Network → Addr → Option Bool
contains_at af_inet af_inet net addr = contains_v4 net.mask net.addr.ip addr.ip
contains_at af_inet6 af_inet6 net addr = contains_v6 net.mask net.addr.ip addr.ip
contains_at _ _ net addr = some false

-- ip_network_contains; `none` where a shift is undefined in C.
unfoldable pub ip_network_contains : Network → Addr → Option Bool
unfolding contains_at
ip_network_contains net addr = contains_at net.addr.af addr.af net addr

-- ip_addrset: the array of its addresses.
abbrev pub AddrSet : Type 0
AddrSet = List Addr

unfoldable pub index_from : ℕ → AddrSet → Addr → Option ℕ
index_from i [] addr = none
index_from i (x ∷ xs) addr = if ip_addr_equal x addr then some i else index_from (i + 1) xs addr

-- The position, or `none` for the source's -1.
unfoldable pub ip_addrset_index : AddrSet → Addr → Option ℕ
ip_addrset_index set addr = index_from 0 set addr

unfoldable pub ip_addrset_lookup : AddrSet → Addr → Bool
ip_addrset_lookup set addr = elim (ip_addrset_index set addr) [ none ↦ false | some _ ↦ true ]

unfoldable pub ip_addrset_add_unsafe : AddrSet → Addr → AddrSet
ip_addrset_add_unsafe set addr = set ++ addr ∷ []

unfoldable pub ip_addrset_add : AddrSet → Addr → Bool × AddrSet
ip_addrset_add set addr =
    if ip_addrset_lookup set addr then (false, set) else (true, ip_addrset_add_unsafe set addr)

-- The tail moves down over the deleted element.
unfoldable pub ip_addrset_del : AddrSet → Addr → AddrSet
ip_addrset_del set addr = elim (ip_addrset_index set addr) [
  | none ↦ set
  | some i ↦ take i set ++ drop (i + 1) set
]

unfoldable pub ip_addrset_merge : AddrSet → AddrSet → AddrSet
ip_addrset_merge set [] = set
ip_addrset_merge set (x ∷ xs) = ip_addrset_merge (ip_addrset_add set x).1 xs

unfoldable pub ip_addrset_is_intersect : AddrSet → AddrSet → Bool
ip_addrset_is_intersect [] set2 = false
ip_addrset_is_intersect (x ∷ xs) set2 = ip_addrset_lookup set2 x || ip_addrset_is_intersect xs set2

abbrev pub same_family : Family → Family → Bool
same_family af_inet af_inet = true
same_family af_inet6 af_inet6 = true
same_family (af_other a) (af_other b) = a == b
same_family _ _ = false

unfoldable pub ip_addrset_has_af : AddrSet → Family → Bool
ip_addrset_has_af [] af = false
ip_addrset_has_af (x ∷ xs) af = same_family x.af af || ip_addrset_has_af xs af

-- A failed shift in the first networks that are looked at fails the whole.
unfoldable pub ip_addrset_on_network : AddrSet → Network → Option Bool
ip_addrset_on_network [] net = some false
ip_addrset_on_network (x ∷ xs) net =
    let rest = ip_addrset_on_network xs net in
    elim (ip_network_contains net x) [ none ↦ none | some true ↦ some true | some false ↦ rest ]

abbrev pub is_inet6 : Family → Bool
is_inet6 af_inet6 = true
is_inet6 _ = false

-- The sign of the result, `less` for below zero. `order` is strcmp on the texts of the addresses.
pub data Sign : Type 0 where
  less same more : Sign

unfoldable pub ip_addrset_friendly_sort_cmp : (Addr → Addr → Sign) → Addr → Addr → Sign
ip_addrset_friendly_sort_cmp order a1 a2 =
    let ll1 = ip_is_linklocal a1.af a1.ip in
    let ll2 = ip_is_linklocal a2.af a2.ip in
    if not (eq_bit ll1 ll2)
    then if ll1 then more else less
    else if not (same_family a1.af a2.af)
    then if is_inet6 a1.af then more else less
    else order a1 a2
