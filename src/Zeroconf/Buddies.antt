-- ===== src/Zeroconf/Buddies.antt =====
-- zeroconf_merge_recompute_buddies of airscan-zeroconf.c. A device is its place in the list of devices.
use sane_airscan.Base.{
  ℕ, suc, Bool, true, false, not, ◌&&◌, Option, none, some, List, [], ◌∷◌, ◌==◌, if◌then◌else◌,
  get_elem?,
}
use sane_airscan.Ip.{ip_addrset_is_intersect, eq_bit}
use sane_airscan.Uuid.{Text}
use sane_airscan.Zeroconf.Device.{ZeroconfDevice}

abbrev pub is_some {ℓ} : {A : Type ℓ} → Option A → Bool
is_some none = false
is_some (some x) = true

abbrev pub zeroconf_device_is_mdns : ZeroconfDevice → Bool
zeroconf_device_is_mdns device = is_some device.mdns_name

-- The place of the buddy of each device.
abbrev pub Buddies : Type 0
Buddies = ℕ → Option ℕ

abbrev pub set_buddy : ℕ → ℕ → Buddies → Buddies
set_buddy i j buddies k = if k == i then some j else buddies k

-- The condition under which two devices become buddies.
abbrev pub is_pair : ZeroconfDevice → ZeroconfDevice → Bool
is_pair device device2 =
    not (eq_bit (zeroconf_device_is_mdns device) (zeroconf_device_is_mdns device2))
    && ip_addrset_is_intersect device.addrs device2.addrs

abbrev pub pair_up : Bool → ℕ → ℕ → Buddies → Buddies
pair_up false i j buddies = buddies
pair_up true i j buddies = set_buddy j i (set_buddy i j buddies)

-- The inner loop, for the device `i`, from the device `j` on.
unfoldable pub buddies_of : ℕ → ZeroconfDevice → ℕ → List ZeroconfDevice → Buddies → Buddies
buddies_of i device j [] buddies = buddies
buddies_of i device j (device2 ∷ list) buddies =
    buddies_of i device (suc j) list (pair_up (is_pair device device2) i j buddies)

-- The outer loop, from the device `i` on.
unfoldable pub buddies_from : ℕ → List ZeroconfDevice → Buddies → Buddies
buddies_from i [] buddies = buddies
buddies_from i (device ∷ list) buddies =
    buddies_from (suc i) list (buddies_of i device (suc i) list buddies)

unfoldable pub zeroconf_merge_recompute_buddies : List ZeroconfDevice → Buddies
zeroconf_merge_recompute_buddies list = buddies_from 0 list (λ k. none)

-- The buddies as they stand in the devices.
abbrev pub mdns_name_of : Option ZeroconfDevice → Option (Option Text)
mdns_name_of none = none
mdns_name_of (some device) = some device.mdns_name

abbrev pub name_at : List ZeroconfDevice → Option ℕ → Option (Option Text)
name_at all none = none
name_at all (some j) = mdns_name_of (get_elem? all j)

abbrev pub with_buddy : List ZeroconfDevice → Option ℕ → ZeroconfDevice → ZeroconfDevice
with_buddy all place device = record device { buddy = name_at all place }
