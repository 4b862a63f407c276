-- ===== src/Zeroconf/Sets.antt =====
-- The set of protocols of a device against the endpoints of its findings.
use sane_airscan.Base.{
  ℕ, ◌≡◌, refl, sym, ap, subst, ◌∙◌, Bool, true, false, not, ◌&&◌, ◌||◌, Option, none, some, List,
  [], ◌∷◌, ◌++◌, map, if◌then◌else◌, arith,
}
use mathlib.Core.List.{append_assoc, append-nil, map-append}
use sane_airscan.Uuid.{Text}
use sane_airscan.Ip.{ip_addrset_merge}
use sane_airscan.Zeroconf.Ident.{ProtoId}
use sane_airscan.Zeroconf.Device.{
  Method, mdns_hint, uscan_tcp, uscans_tcp, wsd, Finding, ZeroconfDevice, zeroconf_method_to_proto,
  same_proto, zeroconf_device_add, add_bits, rebuild_from, zeroconf_device_rebuild_sets, or_first,
  by_method, model_of, with_model, zeroconf_device_update_model, is_empty, add_bits_if, link,
  zeroconf_device_add_finding, remove_at, left, some_left, zeroconf_device_del_finding,
}

-- The finding is of a method for the protocol.
abbrev pub is_for : ProtoId → Finding → Bool
is_for p finding = same_proto (zeroconf_method_to_proto finding.method) p

-- One of the findings is for the protocol, or one of them has endpoints for it.
unfoldable pub claims : ProtoId → List Finding → Bool
claims p [] = false
claims p (finding ∷ list) = is_for p finding || claims p list

unfoldable pub offers : ProtoId → List Finding → Bool
offers p [] = false
offers p (finding ∷ list) = (not (is_empty finding.endpoints) && is_for p finding) || offers p list

-- No finding belongs to a device yet.
unfoldable pub all_new : List Finding → Bool
all_new [] = true
all_new (finding ∷ list) = not finding.in_device && all_new list

offers-append :
    (p : ProtoId) (list : List Finding) (finding : Finding)
    → offers p (list ++ finding ∷ [])
      ≡ (offers p list || (not (is_empty finding.endpoints) && is_for p finding))
unfolding offers
offers-append p [] finding = ground arith
offers-append p (x ∷ list) finding = ground (arith, offers-append p list finding)

abbrev HasModel : Option (Option Text) → Type 0
HasModel o = (model : Option Text) × (o ≡ some model)

by_method-HasModel :
    (method : Method) (a b c : Option (Option Text))
    → HasModel a
    → HasModel b
    → HasModel c
    → HasModel (by_method method a b c)
by_method-HasModel mdns_hint a b c x y z = y
by_method-HasModel uscan_tcp a b c x y z = x
by_method-HasModel uscans_tcp a b c x y z = x
by_method-HasModel wsd a b c x y z = z

-- A finding is kept by the loop already.
data IsMet : Option Finding → Option Finding → Type 0 where
  met_hint : {finding : Finding} {first : Option Finding} → IsMet (some finding) first
  met_wsd : {hint : Option Finding} {finding : Finding} → IsMet hint (some finding)

or_first-met :
    (first : Option Finding) (finding : Finding) → (x : Finding) × (or_first first finding ≡ some x)
or_first-met none finding = (finding, refl)
or_first-met (some x) finding = (x, refl)

hint-IsMet : (hint first : Option Finding) (finding : Finding) → IsMet (or_first hint finding) first
hint-IsMet hint first finding = let (x, e) = or_first-met hint finding in rw e met_hint

wsd-IsMet : (hint first : Option Finding) (finding : Finding) → IsMet hint (or_first first finding)
wsd-IsMet hint first finding = let (x, e) = or_first-met first finding in rw e met_wsd

-- The loop gives a model once a finding has been met.
met-HasModel :
    (hint first : Option Finding) (list : List Finding)
    → IsMet hint first
    → HasModel (model_of hint first list)
unfolding model_of
met-HasModel none none [] m = elim m [ ]
met-HasModel (some x) first [] met_hint = (x.model, refl)
met-HasModel none (some x) [] met_wsd = (x.model, refl)
met-HasModel (some y) (some x) [] met_wsd = (y.model, refl)
met-HasModel hint first (finding ∷ list) m =
    by_method-HasModel finding.method _ _ _ (finding.model, refl)
      (met-HasModel (or_first hint finding) first list (hint-IsMet hint first finding))
      (met-HasModel hint (or_first first finding) list (wsd-IsMet hint first finding))

model_of-HasModel :
    (finding : Finding) (list : List Finding) → HasModel (model_of none none (finding ∷ list))
unfolding model_of
model_of-HasModel finding list =
    by_method-HasModel finding.method _ _ _ (finding.model, refl)
      (met-HasModel (or_first none finding) none list (hint-IsMet none none finding))
      (met-HasModel none (or_first none finding) list (wsd-IsMet none none finding))

append-HasModel :
    (list : List Finding) (finding : Finding) → HasModel (model_of none none (list ++ finding ∷ []))
append-HasModel [] finding = model_of-HasModel finding []
append-HasModel (x ∷ list) finding = model_of-HasModel x (list ++ finding ∷ [])

-- The findings of the device are those of the list, and its protocols are those for which one of them has
-- endpoints.
pub record IsOffered (device : ZeroconfDevice) (list : List Finding) : Type 0 where
  pub findings : device.findings ≡ map link list
  pub protocols : (p : ProtoId) → device.protocols p ≡ offers p list

add_bits_if-protocols :
    (b : Bool) (device : ZeroconfDevice) (finding : Finding) (p : ProtoId)
    → (add_bits_if b device finding).protocols p ≡ (device.protocols p || (b && is_for p finding))
add_bits_if-protocols true device finding p = refl
add_bits_if-protocols false device finding p = ground arith

add_bits_if-findings :
    (b : Bool) (device : ZeroconfDevice) (finding : Finding)
    → (add_bits_if b device finding).findings ≡ device.findings
add_bits_if-findings true device finding = refl
add_bits_if-findings false device finding = refl

update_model_lem :
    (device : ZeroconfDevice)
    → HasModel (model_of none none device.findings)
    → (next : ZeroconfDevice) × (zeroconf_device_update_model device ≡ some next)
      × (next.findings ≡ device.findings)
      × ((p : ProtoId) → next.protocols p ≡ device.protocols p)
unfolding zeroconf_device_update_model
update_model_lem device (model, e) =
    (record device { model = model }, ap (with_model device) e, refl, λ p. refl)

-- The device has one more finding, and the bits of its endpoints.
add_finding-IsOffered :
    (device : ZeroconfDevice) (list : List Finding) (finding : Finding)
    → finding.in_device ≡ false
    → IsOffered device list
    → (next : ZeroconfDevice) × (zeroconf_device_add_finding device finding ≡ some next)
      × IsOffered next (list ++ finding ∷ [])
unfolding zeroconf_device_add_finding
add_finding-IsOffered device list finding new o =
    let same =
      add_bits_if-findings b linked finding ∙ ap (λ l. l ++ link finding ∷ []) o.findings in
    let (next, e, f, g) = update_model_lem (add_bits_if b linked finding) (
      subst (λ l. HasModel (model_of none none l)) (sym same)
        (append-HasModel (map link list) (link finding))) in
    (
      next,
      ap (λ c. if c then none else zeroconf_device_update_model (add_bits_if b linked finding)) new
          ∙ e,
      record {
        findings = f ∙ same ∙ sym (map-append link list (finding ∷ []));
        protocols = λ p.
            g p
            ∙ add_bits_if-protocols b linked finding p
            ∙ ap (λ c. c || (b && is_for p finding)) (o.protocols p)
            ∙ sym (offers-append p list finding);
      },
    )
  where
    b : Bool
    b = not (is_empty finding.endpoints)

    linked : ZeroconfDevice
    linked = record device {
      findings = device.findings ++ link finding ∷ [];
      addrs = ip_addrset_merge device.addrs finding.addrs;
    }

abbrev pub next_finding :
    Option ZeroconfDevice → (ZeroconfDevice → Option ZeroconfDevice) → Option ZeroconfDevice
next_finding none rest = none
next_finding (some device) rest = rest device

-- Findings that are published one after the other for a device.
unfoldable pub add_findings : ZeroconfDevice → List Finding → Option ZeroconfDevice
add_findings device [] = some device
add_findings device (finding ∷ list) =
    next_finding (zeroconf_device_add_finding device finding) (λ next. add_findings next list)

add_findings-IsOffered :
    (device : ZeroconfDevice) (old list : List Finding)
    → all_new list ≡ true
    → IsOffered device old
    → (next : ZeroconfDevice) × (add_findings device list ≡ some next)
      × IsOffered next (old ++ list)
unfolding add_findings all_new
add_findings-IsOffered device old [] n o = (device, refl, rw (append-nil old) o)
add_findings-IsOffered device old (finding ∷ list) n o =
    let (first, e, f) = add_finding-IsOffered device old finding (ground arith) o in
    let (next, g, h) = add_findings-IsOffered first (old ++ finding ∷ []) list (ground arith) f in
    (next, rw e g, rw (append_assoc old (finding ∷ []) list) at h)

-- A new device, to which any findings are added, none of which belongs to a device yet: this succeeds,
-- and the device then has these findings, and exactly the protocols for which one of them has endpoints.
pub published-IsOffered :
    (devid : ℕ) (finding : Finding) (list : List Finding)
    → all_new list ≡ true
    → (device : ZeroconfDevice) × (add_findings (zeroconf_device_add devid finding) list
        ≡ some device)
      × IsOffered device list
unfolding zeroconf_device_add offers
published-IsOffered devid finding list n =
    add_findings-IsOffered (zeroconf_device_add devid finding) [] list n
      (record { findings = refl; protocols = λ p. refl })

rebuild_from-protocols :
    (device : ZeroconfDevice) (list : List Finding) (p : ProtoId)
    → (rebuild_from device list).protocols p ≡ (device.protocols p || claims p list)
unfolding rebuild_from claims
rebuild_from-protocols device [] p = ground arith
rebuild_from-protocols device (finding ∷ list) p =
    rebuild_from-protocols (add_bits device finding) list p ∙ ground arith

rebuild_from-findings :
    (device : ZeroconfDevice) (list : List Finding)
    → (rebuild_from device list).findings ≡ device.findings
unfolding rebuild_from
rebuild_from-findings device [] = refl
rebuild_from-findings device (finding ∷ list) = rebuild_from-findings (add_bits device finding) list

-- A finding is deleted from a device, and of the findings that are left one is for a protocol, but none
-- has endpoints for it: the device then has the protocol.
pub del_finding-claims :
    (device : ZeroconfDevice) (i : ℕ) (first : Finding) (list : List Finding) (p : ProtoId)
    → remove_at i device.findings ≡ first ∷ list
    → offers p (first ∷ list) ≡ false
    → claims p (first ∷ list) ≡ true
    → (next : ZeroconfDevice) × (zeroconf_device_del_finding device i ≡ some (left next))
      × (offers p next.findings ≡ false)
      × (next.protocols p ≡ true)
unfolding zeroconf_device_del_finding zeroconf_device_rebuild_sets
del_finding-claims device i first list p e n y =
    let same = rebuild_from-findings cleared (first ∷ list) in
    let (next, f, g, h) =
      update_model_lem (rebuild_from cleared (first ∷ list))
        (subst (λ l. HasModel (model_of none none l)) (sym same) (model_of-HasModel first list)) in
    (
      next,
      rw e (ap some_left f),
      rw (g, same) n,
      h p ∙ rebuild_from-protocols cleared (first ∷ list) p ∙ y,
    )
  where
    cleared : ZeroconfDevice
    cleared = record device {
      findings = first ∷ list;
      protocols = λ p. false;
      methods = λ k. false;
    }
