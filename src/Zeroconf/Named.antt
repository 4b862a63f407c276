-- ===== src/Zeroconf/Named.antt =====
-- The names of devices after zeroconf_merge_recompute_buddies.
use sane_airscan.Base.{
  ℕ, ◌≡◌, refl, inl, inr, Bool, true, false, not, ◌&&◌, Option, none, some, List, get_elem?,
}
use sane_airscan.Uuid.{Text}
use sane_airscan.Ip.{eq_bit}
use sane_airscan.Zeroconf.Device.{
  ZeroconfDevice, zeroconf_device_name, name_of, zeroconf_device_model,
}
use sane_airscan.Zeroconf.Buddies.{is_some, name_at, with_buddy, zeroconf_merge_recompute_buddies}
use sane_airscan.Zeroconf.Paired.{Pairs, BuddyOk, no_buddy, one_buddy, buddies_lem}

abbrev IsNamed : Option Text → Type 0
IsNamed o = (name : Text) × (o ≡ some name)

-- If one device of a pair has no MDNS name, the other one has.
second-IsNamed :
    (a b : Option Text) (c : Bool)
    → a ≡ none
    → (not (eq_bit (is_some a) (is_some b)) && c) ≡ true
    → IsNamed b
second-IsNamed a none c e h = let bad : false ≡ true = rw e at h in absurd (cc)
second-IsNamed a (some name) c e h = (name, refl)

first-IsNamed :
    (a b : Option Text) (c : Bool)
    → b ≡ none
    → (not (eq_bit (is_some a) (is_some b)) && c) ≡ true
    → IsNamed a
first-IsNamed none b c e h = let bad : false ≡ true = rw e at h in absurd (cc)
first-IsNamed (some name) b c e h = (name, refl)

-- The other device of a pair, with its name.
other_lem :
    (list : List ZeroconfDevice) (k m : ℕ) (device : ZeroconfDevice)
    → get_elem? list k ≡ some device
    → device.mdns_name ≡ none
    → Pairs list k m
    → (other : ZeroconfDevice) × (get_elem? list m ≡ some other) × IsNamed other.mdns_name
other_lem list k m device e n (inl p) =
    let at = p.at in
    let same : device ≡ p.device = cc in
    (
      p.device2,
      p.at2,
      second-IsNamed p.device.mdns_name p.device2.mdns_name _ (rw same at n) p.pair,
    )
other_lem list k m device e n (inr p) =
    let at = p.at2 in
    let same : device ≡ p.device2 = cc in
    (p.device, p.at, first-IsNamed p.device.mdns_name p.device2.mdns_name _ (rw same at n) p.pair)

place-IsNamed :
    (list : List ZeroconfDevice) (k : ℕ) (device : ZeroconfDevice) (place : Option ℕ)
    → get_elem? list k ≡ some device
    → BuddyOk list k place
    → (own : Option Text) → device.mdns_name ≡ own
    → IsNamed (name_of (with_buddy list place device) own (name_at list place))
place-IsNamed list k device place e ok (some name) n = (name, refl)
place-IsNamed list k device place e (no_buddy _) none n = (zeroconf_device_model device, refl)
place-IsNamed list k device place e (one_buddy {m = m} p) none n =
    let (other, at, (name, named)) = other_lem list k m device e n p in (name, rw (at, named) refl)

-- After zeroconf_merge_recompute_buddies every device of the list has a name: zeroconf_device_name does
-- not give NULL, to which a name would be compared.
pub recompute-IsNamed :
    (list : List ZeroconfDevice) (k : ℕ) (device : ZeroconfDevice)
    → get_elem? list k ≡ some device
    → (name : Text) × (zeroconf_device_name
          (with_buddy list (zeroconf_merge_recompute_buddies list k) device)
        ≡ some name)
unfolding zeroconf_device_name
recompute-IsNamed list k device e =
    place-IsNamed list k device (zeroconf_merge_recompute_buddies list k) e (buddies_lem list k)
      device.mdns_name refl
