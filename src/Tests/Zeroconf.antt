-- ===== src/Tests/Zeroconf.antt =====
-- Devices that were discovered by one and by two findings.
use sane_airscan.Base.{ℕ, ◌≡◌, refl, true, false, none, some, List, [], ◌∷◌, arith}
use sane_airscan.Uuid.{Text, hex_digit}
use sane_airscan.Zeroconf.Ident.{
  proto_escl, proto_wsd, hex_onto, zeroconf_ident_proto_encode, zeroconf_ident_make,
  zeroconf_ident_split,
}
use sane_airscan.Zeroconf.RoundTrip.{split-make}
use sane_airscan.Zeroconf.Device.{
  wsd, uscan_tcp, Finding, ZeroconfDevice, left, same_proto, zeroconf_device_add,
  zeroconf_device_name, zeroconf_device_find_by_ident, zeroconf_device_del_finding,
}
use sane_airscan.Ip.{AddrSet, af_inet}
use sane_airscan.Zeroconf.Buddies.{with_buddy, zeroconf_merge_recompute_buddies}
use sane_airscan.Zeroconf.Named.{recompute-IsNamed}
use sane_airscan.Zeroconf.Paired.{BuddyOk, buddies_lem}
use sane_airscan.Zeroconf.Find.{has_no_devid, find_by_ident-make, find_gone}
use sane_airscan.Zeroconf.Sets.{
  offers, claims, add_findings, all_new, IsOffered, published-IsOffered, del_finding-claims,
}

abbrev scanner_name : Text
scanner_name = b'S' ∷ b':' ∷ b'1' ∷ []

split-make_example :
    (ident : Text) × (zeroconf_ident_make scanner_name 411 proto_wsd ≡ some ident)
    × (zeroconf_ident_split ident
        ≡ some (record { devid = 411; proto = proto_wsd; name = scanner_name }))
split-make_example = split-make scanner_name 411 proto_wsd (λ e. cc) (omega arith)

-- 411 is 0x19b.
made :
    zeroconf_ident_make scanner_name 411 proto_wsd
    ≡ some (b'w' ∷ b'1' ∷ b'9' ∷ b'b' ∷ b':' ∷ scanner_name)
unfolding zeroconf_ident_make hex_onto hex_digit zeroconf_ident_proto_encode
made = refl

abbrev mdns_finding : Finding
mdns_finding = record {
  method = uscan_tcp;
  name = some scanner_name;
  model = some (b'M' ∷ []);
  uuid = [];
  addrs = [];
  endpoints = record { proto = proto_escl; uri = [] } ∷ [];
  in_device = false;
}

-- WS-Discovery publishes a finding without endpoints for a device that does not scan.
abbrev wsd_finding : Finding
wsd_finding = record mdns_finding { method = wsd; name = none; endpoints = [] }

published-IsOffered_example :
    (device : ZeroconfDevice) × (add_findings
        (zeroconf_device_add 3 mdns_finding)
        (mdns_finding ∷ wsd_finding ∷ [])
      ≡ some device)
    × IsOffered device (mdns_finding ∷ wsd_finding ∷ [])
unfolding all_new
published-IsOffered_example =
    published-IsOffered 3 mdns_finding (mdns_finding ∷ wsd_finding ∷ []) refl

abbrev device_at : ℕ → ZeroconfDevice
device_at devid = record {
  devid = devid;
  uuid = [];
  addrs = [];
  mdns_name = some scanner_name;
  model = none;
  protocols = same_proto proto_escl;
  methods = λ k. false;
  findings = mdns_finding ∷ wsd_finding ∷ [];
  buddy = none;
}

-- The eSCL finding is withdrawn, and the device has WSD.
del_finding-claims_example :
    (next : ZeroconfDevice) × (zeroconf_device_del_finding (device_at 3) 0 ≡ some (left next))
    × (offers proto_wsd next.findings ≡ false)
    × (next.protocols proto_wsd ≡ true)
unfolding offers claims
del_finding-claims_example =
    del_finding-claims (device_at 3) 0 wsd_finding [] proto_wsd refl refl refl

find_by_ident-make_example :
    (ident : Text) × (zeroconf_ident_make scanner_name 4 proto_escl ≡ some ident)
    × (zeroconf_device_find_by_ident (device_at 3 ∷ device_at 4 ∷ device_at 5 ∷ []) ident
        ≡ some (some (device_at 4)))
unfolding zeroconf_device_name has_no_devid
find_by_ident-make_example =
    find_by_ident-make (device_at 3 ∷ []) (device_at 5 ∷ []) (device_at 4) scanner_name proto_escl
      (λ e. cc) (omega arith) refl refl refl

-- The device 9 is gone, and the device 5 is found.
find_gone_example :
    (ident : Text) × (zeroconf_ident_make scanner_name 9 proto_escl ≡ some ident)
    × (zeroconf_device_find_by_ident (device_at 3 ∷ device_at 5 ∷ []) ident
        ≡ some (some (device_at 5)))
unfolding has_no_devid
find_gone_example =
    find_gone (device_at 3 ∷ []) (device_at 5) scanner_name 9 proto_escl (λ e. cc) (omega arith)
      refl refl refl

-- The device 3 speaks WSD and has the address of the device 4.
abbrev shared : AddrSet
shared = record { af = af_inet; ifindex = 0; ip = [] } ∷ []

abbrev two_worlds : List ZeroconfDevice
two_worlds =
    record (device_at 3) { mdns_name = none; addrs = shared }
    ∷ record (device_at 4) { addrs = shared }
    ∷ []

buddies_lem_example : BuddyOk two_worlds 1 (zeroconf_merge_recompute_buddies two_worlds 1)
buddies_lem_example = buddies_lem two_worlds 1

-- The first device gets the name of the second one.
recompute-IsNamed_example :
    (name : Text) × (zeroconf_device_name (
        with_buddy two_worlds
          (zeroconf_merge_recompute_buddies two_worlds 0)
          (record (device_at 3) { mdns_name = none; addrs = shared }))
      ≡ some name)
recompute-IsNamed_example =
    recompute-IsNamed two_worlds 0 (record (device_at 3) { mdns_name = none; addrs = shared }) refl
