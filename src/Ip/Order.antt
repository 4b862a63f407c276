-- ===== src/Ip/Order.antt =====
-- The order in which a user is shown addresses.
use sane_airscan.Base.{◌≡◌, Bool, true, false, not, if◌then◌else◌, arith}
use sane_airscan.Ip.{
  Family, af_inet, af_inet6, af_other, Addr, Sign, less, same, more, eq_bit, same_family, is_inet6,
  ip_is_linklocal, ip_addrset_friendly_sort_cmp,
}

unfoldable pub flip : Sign → Sign
flip less = more
flip same = same
flip more = less

abbrev pub is_ip : Family → Bool
is_ip af_inet = true
is_ip af_inet6 = true
is_ip (af_other _) = false

-- The comparison behind the addresses' properties.
by_class : (ll1 ll2 : Bool) (f1 f2 : Family) (o : Sign) → Sign
by_class ll1 ll2 f1 f2 o =
    if not (eq_bit ll1 ll2)
    then if ll1 then more else less
    else if not (same_family f1 f2)
    then if is_inet6 f1 then more else less
    else o

by_class-flip :
    (ll1 ll2 : Bool) (f1 f2 : Family) (o : Sign)
    → is_ip f1 ≡ true
    → is_ip f2 ≡ true
    → by_class ll1 ll2 f1 f2 o ≡ flip (by_class ll2 ll1 f2 f1 (flip o))
unfolding by_class flip
by_class-flip ll1 ll2 af_inet af_inet o h k = ground arith
by_class-flip ll1 ll2 af_inet af_inet6 o h k = ground arith
by_class-flip ll1 ll2 af_inet6 af_inet o h k = ground arith
by_class-flip ll1 ll2 af_inet6 af_inet6 o h k = ground arith
by_class-flip ll1 ll2 (af_other n) f2 o h k = cc
by_class-flip ll1 ll2 af_inet (af_other n) o h k = cc
by_class-flip ll1 ll2 af_inet6 (af_other n) o h k = cc

-- For two IP addresses whose texts compare the other way round when exchanged, so does the comparison
-- of the addresses.
pub sort_cmp-flip :
    (order : Addr → Addr → Sign) (a b : Addr)
    → is_ip a.af ≡ true
    → is_ip b.af ≡ true
    → order b a ≡ flip (order a b)
    → ip_addrset_friendly_sort_cmp order a b ≡ flip (ip_addrset_friendly_sort_cmp order b a)
unfolding ip_addrset_friendly_sort_cmp by_class
sort_cmp-flip order a b h k e = rw e (
    by_class-flip (ip_is_linklocal a.af a.ip) (ip_is_linklocal b.af b.ip) a.af b.af (order a b) h k)
