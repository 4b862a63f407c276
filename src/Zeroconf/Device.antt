-- ===== src/Zeroconf/Device.antt =====
-- The devices of airscan-zeroconf.c with their findings, where only the name of a buddy is read.
use sane_airscan.Base.{
  ℕ, zero, suc, Bool, true, false, not, ◌&&◌, ◌||◌, Option, none, some, List, [], ◌∷◌, ◌++◌, ◌==◌,
  if◌then◌else◌,
}
use sane_airscan.Uuid.{Text}
use sane_airscan.Ip.{AddrSet, ip_addrset_merge}
use sane_airscan.Zeroconf.Ident.{
  ProtoId, proto_unknown, proto_escl, proto_wsd, Split, zeroconf_ident_split,
}

-- ZEROCONF_METHOD.
pub data Method : Type 0 where
  mdns_hint uscan_tcp uscans_tcp wsd : Method

-- zeroconf_endpoint, with the URI as its text.
pub record Endpoint : Type 0 where
  pub proto : ProtoId
  pub uri : Text

-- zeroconf_finding; a text that may be NULL is an option. `in_device` is `device != NULL`: which device
-- it is, is told by the list that the finding stands in.
pub record Finding : Type 0 where
  pub method : Method
  pub name : Option Text
  pub model : Option Text
  pub uuid : Text
  pub addrs : AddrSet
  pub endpoints : List Endpoint
  pub in_device : Bool

-- zeroconf_device. A set of protocols or methods is its membership. `buddy` holds the mdns_name of the
-- buddy, if there is one.
pub record ZeroconfDevice : Type 0 where
  pub devid : ℕ
  pub uuid : Text
  pub addrs : AddrSet
  pub mdns_name : Option Text
  pub model : Option Text
  pub protocols : ProtoId → Bool
  pub methods : Method → Bool
  pub findings : List Finding
  pub buddy : Option (Option Text)

abbrev pub zeroconf_method_to_proto : Method → ProtoId
zeroconf_method_to_proto mdns_hint = proto_unknown
zeroconf_method_to_proto uscan_tcp = proto_escl
zeroconf_method_to_proto uscans_tcp = proto_escl
zeroconf_method_to_proto wsd = proto_wsd

-- Equality of known protocols; there is no bit for the unknown one.
abbrev pub same_proto : ProtoId → ProtoId → Bool
same_proto proto_escl proto_escl = true
same_proto proto_wsd proto_wsd = true
same_proto _ _ = false

abbrev pub same_method : Method → Method → Bool
same_method mdns_hint mdns_hint = true
same_method uscan_tcp uscan_tcp = true
same_method uscans_tcp uscans_tcp = true
same_method wsd wsd = true
same_method _ _ = false

-- zeroconf_device_add; `devid` is the result of devid_alloc.
unfoldable pub zeroconf_device_add : ℕ → Finding → ZeroconfDevice
zeroconf_device_add devid finding = record {
  devid = devid;
  uuid = finding.uuid;
  addrs = [];
  mdns_name = finding.name;
  model = finding.model;
  protocols = λ p. false;
  methods = λ k. false;
  findings = [];
  buddy = none;
}

-- The sets with the bits of a finding.
abbrev pub with_proto_bit : Finding → (ProtoId → Bool) → ProtoId → Bool
with_proto_bit finding protocols p =
    protocols p || same_proto (zeroconf_method_to_proto finding.method) p

abbrev pub with_method_bit : Finding → (Method → Bool) → Method → Bool
with_method_bit finding methods k = methods k || same_method finding.method k

abbrev pub add_bits : ZeroconfDevice → Finding → ZeroconfDevice
add_bits device finding = record device {
  protocols = with_proto_bit finding device.protocols;
  methods = with_method_bit finding device.methods;
}

unfoldable pub rebuild_from : ZeroconfDevice → List Finding → ZeroconfDevice
rebuild_from device [] = device
rebuild_from device (finding ∷ list) = rebuild_from (add_bits device finding) list

unfoldable pub zeroconf_device_rebuild_sets : ZeroconfDevice → ZeroconfDevice
zeroconf_device_rebuild_sets device =
    rebuild_from (record device { protocols = λ p. false; methods = λ k. false }) device.findings

-- `hint == NULL`, and what is kept.
abbrev pub or_first : Option Finding → Finding → Option Finding
or_first none finding = some finding
or_first (some first) finding = some first

abbrev pub model_at_end : Option Finding → Option Finding → Option (Option Text)
model_at_end (some hint) first = some hint.model
model_at_end none (some first) = some first.model
model_at_end none none = none

abbrev pub by_method :
    Method
    → Option (Option Text)
    → Option (Option Text)
    → Option (Option Text)
    → Option (Option Text)
by_method uscan_tcp scan hint wsd_later = scan
by_method uscans_tcp scan hint wsd_later = scan
by_method mdns_hint scan hint wsd_later = hint
by_method wsd scan hint wsd_later = wsd_later

-- The loop of zeroconf_device_update_model; `none` is a NULL dereference.
unfoldable pub model_of : Option Finding → Option Finding → List Finding → Option (Option Text)
model_of hint first_wsd [] = model_at_end hint first_wsd
model_of hint first_wsd (finding ∷ list) =
    let hinted = model_of (or_first hint finding) first_wsd list in
    let later = model_of hint (or_first first_wsd finding) list in
    by_method finding.method (some finding.model) hinted later

abbrev pub with_model : ZeroconfDevice → Option (Option Text) → Option ZeroconfDevice
with_model device none = none
with_model device (some model) = some (record device { model = model })

unfoldable pub zeroconf_device_update_model : ZeroconfDevice → Option ZeroconfDevice
zeroconf_device_update_model device = with_model device (model_of none none device.findings)

abbrev pub is_empty {ℓ} : {A : Type ℓ} → List A → Bool
is_empty [] = true
is_empty (x ∷ list) = false

-- Without endpoints the sets of the device stay as they are.
abbrev pub add_bits_if : Bool → ZeroconfDevice → Finding → ZeroconfDevice
add_bits_if true device finding = add_bits device finding
add_bits_if false device finding = device

abbrev pub link : Finding → Finding
link finding = record finding { in_device = true }

-- `none` is a failed assertion, or a NULL dereference.
unfoldable pub zeroconf_device_add_finding : ZeroconfDevice → Finding → Option ZeroconfDevice
zeroconf_device_add_finding device finding =
    let linked : ZeroconfDevice = record device {
      findings = device.findings ++ link finding ∷ [];
      addrs = ip_addrset_merge device.addrs finding.addrs;
    } in
    if finding.in_device
    then none
    else zeroconf_device_update_model
        (add_bits_if (not (is_empty finding.endpoints)) linked finding)

abbrev pub remove_at : ℕ → List Finding → List Finding
remove_at i [] = []
remove_at zero (x ∷ list) = list
remove_at (suc i) (x ∷ list) = x ∷ remove_at i list

-- What is left of a device.
pub data Left : Type 0 where
  deleted : Left
  left : ZeroconfDevice → Left

abbrev pub some_left : Option ZeroconfDevice → Option Left
some_left none = none
some_left (some device) = some (left device)

abbrev pub rebuilt : ZeroconfDevice → List Finding → Option Left
rebuilt device [] = some deleted
rebuilt device (finding ∷ list) = some_left (
    zeroconf_device_update_model
      (zeroconf_device_rebuild_sets (record device { findings = finding ∷ list })))

-- The finding stands at a position of the list of its device, so that its `device` is not NULL.
unfoldable pub zeroconf_device_del_finding : ZeroconfDevice → ℕ → Option Left
zeroconf_device_del_finding device i = rebuilt device (remove_at i device.findings)

abbrev pub or_uuid : Option Text → Text → Text
or_uuid none uuid = uuid
or_uuid (some model) uuid = model

abbrev pub zeroconf_device_model : ZeroconfDevice → Text
zeroconf_device_model device = or_uuid device.model device.uuid

abbrev pub name_of : ZeroconfDevice → Option Text → Option (Option Text) → Option Text
name_of device (some name) buddy = some name
name_of device none (some name) = name
name_of device none none = some (zeroconf_device_model device)

-- `none` is NULL.
unfoldable pub zeroconf_device_name : ZeroconfDevice → Option Text
zeroconf_device_name device = name_of device device.mdns_name device.buddy

-- `!strcmp`.
abbrev pub same_text : Text → Text → Bool
same_text [] [] = true
same_text (a ∷ s) (b ∷ t) = a == b && same_text s t
same_text _ _ = false

-- `none` is the comparison with NULL.
abbrev pub is_named : Text → Option Text → Option Bool
is_named name none = none
is_named name (some other) = some (same_text name other)

abbrev pub is_wanted : ℕ → Text → ZeroconfDevice → Option Bool
is_wanted devid name device =
    if device.devid == devid then is_named name (zeroconf_device_name device) else some false

abbrev pub found_or :
    Option Bool → ZeroconfDevice → Option (Option ZeroconfDevice) → Option (Option ZeroconfDevice)
found_or none device rest = none
found_or (some true) device rest = some (some device)
found_or (some false) device rest = rest

-- The loop of zeroconf_device_find_by_ident, with the value that `device` has when a round begins.
unfoldable pub find_loop :
    ℕ → Text → Option ZeroconfDevice → List ZeroconfDevice → Option (Option ZeroconfDevice)
find_loop devid name current [] = some current
find_loop devid name current (device ∷ list) =
    found_or (is_wanted devid name device) device (find_loop devid name (some device) list)

abbrev pub with_protocol : ProtoId → Option (Option ZeroconfDevice) → Option (Option ZeroconfDevice)
with_protocol proto none = none
with_protocol proto (some none) = some none
with_protocol proto (some (some device)) =
    if device.protocols proto then some (some device) else some none

abbrev pub find_split : List ZeroconfDevice → Option Split → Option (Option ZeroconfDevice)
find_split list none = some none
find_split list (some split) =
    with_protocol split.proto (find_loop split.devid split.name none list)

unfoldable pub zeroconf_device_find_by_ident :
    List ZeroconfDevice → Text → Option (Option ZeroconfDevice)
zeroconf_device_find_by_ident list ident = find_split list (zeroconf_ident_split ident)
