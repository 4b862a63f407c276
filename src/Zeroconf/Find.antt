-- ===== src/Zeroconf/Find.antt =====
-- zeroconf_device_find_by_ident on the idents of devices.
use sane_airscan.Base.{
  ℕ, ◌<◌, ◌^◌, ◌≡◌, ◌≢◌, refl, ◌∙◌, Bool, true, false, not, ◌&&◌, Option, none, some, List, [], ◌∷◌,
  ◌++◌, ◌==◌, arith,
}
use sane_airscan.Uuid.{Text}
use sane_airscan.Zeroconf.Ident.{ProtoId, proto_unknown, zeroconf_ident_make}
use sane_airscan.Zeroconf.RoundTrip.{split-make}
use sane_airscan.Zeroconf.Device.{
  ZeroconfDevice, zeroconf_device_name, same_text, find_loop, zeroconf_device_find_by_ident,
}

-- No device of the list has the identifier.
unfoldable pub has_no_devid : ℕ → List ZeroconfDevice → Bool
has_no_devid devid [] = true
has_no_devid devid (device ∷ list) = not (device.devid == devid) && has_no_devid devid list

abbrev last_or : Option ZeroconfDevice → List ZeroconfDevice → Option ZeroconfDevice
last_or current [] = current
last_or current (device ∷ list) = last_or (some device) list

find_loop-append :
    (devid : ℕ) (name : Text) (current : Option ZeroconfDevice) (before rest : List ZeroconfDevice)
    → has_no_devid devid before ≡ true
    → find_loop devid name current (before ++ rest)
      ≡ find_loop devid name (last_or current before) rest
unfolding find_loop has_no_devid
find_loop-append devid name current [] rest h = refl
find_loop-append devid name current (device ∷ before) rest h =
    let other : (device.devid == devid) ≡ false = ground arith in
    let others : has_no_devid devid before ≡ true = ground arith in
    rw other (find_loop-append devid name (some device) before rest others)

same_text_self : (s : Text) → same_text s s ≡ true
same_text_self [] = refl
same_text_self (c ∷ s) = ground (arith, same_text_self s)

find_loop-wanted :
    (current : Option ZeroconfDevice) (device : ZeroconfDevice) (name : Text)
    (rest : List ZeroconfDevice)
    → zeroconf_device_name device ≡ some name
    → find_loop device.devid name current (device ∷ rest) ≡ some (some device)
unfolding find_loop
find_loop-wanted current device name rest e =
    let same : (device.devid == device.devid) ≡ true = ground arith in
    rw (same, e, same_text_self name) refl

-- What a search with an ident comes to.
find_made :
    (list : List ZeroconfDevice) (name : Text) (devid : ℕ) (proto : ProtoId)
    (device : ZeroconfDevice)
    → proto ≢ proto_unknown
    → devid < 2 ^ 32
    → find_loop devid name none list ≡ some (some device)
    → device.protocols proto ≡ true
    → (ident : Text) × (zeroconf_ident_make name devid proto ≡ some ident)
      × (zeroconf_device_find_by_ident list ident ≡ some (some device))
unfolding zeroconf_device_find_by_ident
find_made list name devid proto device k h e p =
    let (ident, made, split) = split-make name devid proto k h in
    (ident, made, rw (split, e, p) refl)

-- The ident that is made of a device's name and 32-bit identifier, and of a known protocol that it has,
-- leads back to the device, when no device before it in the list has the same identifier.
pub find_by_ident-make :
    (before after : List ZeroconfDevice) (device : ZeroconfDevice) (name : Text) (proto : ProtoId)
    → proto ≢ proto_unknown
    → device.devid < 2 ^ 32
    → zeroconf_device_name device ≡ some name
    → has_no_devid device.devid before ≡ true
    → device.protocols proto ≡ true
    → (ident : Text) × (zeroconf_ident_make name device.devid proto ≡ some ident)
      × (zeroconf_device_find_by_ident (before ++ device ∷ after) ident ≡ some (some device))
find_by_ident-make before after device name proto k h e n p =
    find_made (before ++ device ∷ after) name device.devid proto device k h
      (find_loop-append device.devid name none before (device ∷ after) n
        ∙ find_loop-wanted (last_or none before) device name after e)
      p

-- An ident of a known protocol, with a 32-bit identifier that no device has, as that of a device that
-- is gone: it finds the last device of the list, if this one has the protocol.
pub find_gone :
    (list : List ZeroconfDevice) (last : ZeroconfDevice) (name : Text) (devid : ℕ) (proto : ProtoId)
    → proto ≢ proto_unknown
    → devid < 2 ^ 32
    → has_no_devid devid list ≡ true
    → (last.devid == devid) ≡ false
    → last.protocols proto ≡ true
    → (ident : Text) × (zeroconf_ident_make name devid proto ≡ some ident)
      × (zeroconf_device_find_by_ident (list ++ last ∷ []) ident ≡ some (some last))
unfolding find_loop
find_gone list last name devid proto k h n o p =
    find_made (list ++ last ∷ []) name devid proto last k h
      (find_loop-append devid name none list (last ∷ []) n ∙ rw o refl) p
