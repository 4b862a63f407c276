-- ===== src/Tests/Data.antt =====
-- Addresses, identifiers and numbers at concrete inputs.
use sane_airscan.Base.{ℕ, ◌≡◌, refl, true, none, some, List, [], ◌∷◌, take, arith}
use sane_airscan.Ip.{
  Bits, bits_of, eq_bits, Family, af_inet, af_inet6, Addr, Network, ip_network_contains, AddrSet,
  ip_addr_equal, ip_addrset_lookup, ip_addrset_add, ip_addrset_del, ip_addrset_merge,
  ip_addrset_is_intersect,
}
use sane_airscan.Ip.Prefix.{network_contains_lem}
use sane_airscan.Ip.Members.{is_distinct}
use sane_airscan.Uuid.{uuid_format, uuid_parse}
use sane_airscan.Uuid.RoundTrip.{parse-format}
use sane_airscan.Devid.{Devid, devid_range, devid_bits_get, devid_alloc, devid_init}
use sane_airscan.Devid.Alloc.{Allocated, devid_init-IsValid, devid_alloc_lem}

abbrev v4 : ℕ → Addr
v4 n = record { af = af_inet; ifindex = 0; ip = unfold bits_of in bits_of 32 n }

-- 192.168.1.0/24.
abbrev net : Network
net = record { addr = v4 0xc0a80100; mask = 24 }

network_contains_lem_example :
    ip_network_contains net (v4 0xc0a80117)
    ≡ some (eq_bits (take 24 (v4 0xc0a80100).ip) (take 24 (v4 0xc0a80117).ip))
unfolding bits_of
network_contains_lem_example =
    network_contains_lem net (v4 0xc0a80117) refl (omega arith) (omega arith) refl refl

-- A network of no bits shifts a word by its width.
contains_all : ip_network_contains (record { addr = v4 0; mask = 0 }) (v4 1) ≡ none
unfolding ip_network_contains sane_airscan.Ip.contains_v4 sane_airscan.Ip.shift_left
contains_all = refl

abbrev a1 : Addr
a1 = v4 0x0a000001

abbrev a2 : Addr
a2 = v4 0x0a000002

abbrev a3 : Addr
a3 = v4 0x7f000001

pair_distinct : is_distinct (a1 ∷ a2 ∷ []) ≡ true
unfolding is_distinct sane_airscan.Ip.Members.contains bits_of ip_addr_equal eq_bits
pair_distinct = refl

abbrev uuid_bytes : List ℕ
uuid_bytes =
    0 ∷ 17 ∷ 34 ∷ 51 ∷ 68 ∷ 85 ∷ 102 ∷ 119 ∷ 136 ∷ 153 ∷ 170 ∷ 187 ∷ 204 ∷ 221 ∷ 238 ∷ 255 ∷ []

parse-format_example : uuid_parse (uuid_format uuid_bytes) ≡ uuid_format uuid_bytes
parse-format_example = parse-format uuid_bytes refl (ground arith)

devid_alloc_lem_example :
    (r : ℕ) × (s' : Devid) × (devid_alloc devid_range devid_init ≡ some (r, s'))
    × Allocated devid_init r s'
devid_alloc_lem_example =
    devid_alloc_lem devid_init 7 devid_init-IsValid (omega arith)
      (unfold devid_bits_get devid_init in refl)
