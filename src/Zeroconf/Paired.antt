-- ===== src/Zeroconf/Paired.antt =====
-- Who becomes a buddy of whom.
use sane_airscan.Base.{
  ℕ, zero, suc, ◌+◌, ◌-◌, ◌<◌, ◌≡◌, refl, sym, ap, ◌∙◌, ◌⊎◌, inl, inr, Bool, true, false, Option,
  none, some, List, [], ◌∷◌, ◌==◌, arith, Bool-cases, get_elem?,
}
use sane_airscan.Zeroconf.Device.{ZeroconfDevice}
use sane_airscan.Zeroconf.Buddies.{
  is_some, Buddies, set_buddy, is_pair, pair_up, buddies_of, buddies_from,
  zeroconf_merge_recompute_buddies,
}

-- The devices at two places, the first one before the second one, are a pair.
pub record IsPair (list : List ZeroconfDevice) (i j : ℕ) : Type 0 where
  pub device : ZeroconfDevice
  pub device2 : ZeroconfDevice
  pub at : get_elem? list i ≡ some device
  pub at2 : get_elem? list j ≡ some device2
  pub order : i < j
  pub pair : is_pair device device2 ≡ true

-- What is in the table is a pair, one way round or the other.
abbrev pub AllPaired : List ZeroconfDevice → Buddies → Type 0
AllPaired list buddies = (k m : ℕ) → buddies k ≡ some m → IsPair list k m ⊎ IsPair list m k

set_buddy-cases :
    (i j k m : ℕ) (buddies : Buddies)
    → set_buddy i j buddies k ≡ some m
    → ((k ≡ i) × (j ≡ m)) ⊎ (buddies k ≡ some m)
set_buddy-cases i j k m buddies h = elim (Bool-cases (k == i)) [
  | inl e ↦ inl (ground arith, some_injective j m (rw e at h))
  | inr n ↦ inr (rw n at h)
]
  where
    some_injective : (a b : ℕ) → some a ≡ some b → a ≡ b
    some_injective a b e = cc

pair_up-AllPaired :
    (list : List ZeroconfDevice) (i j : ℕ) (device device2 : ZeroconfDevice) (buddies : Buddies)
    → get_elem? list i ≡ some device
    → get_elem? list j ≡ some device2
    → i < j
    → AllPaired list buddies
    → AllPaired list (pair_up (is_pair device device2) i j buddies)
pair_up-AllPaired list i j device device2 buddies a b l h k m e =
    elim (Bool-cases (is_pair device device2)) [
      | inr n ↦ h k m (rw n at e)
      | inl y ↦
          let found : set_buddy j i (set_buddy i j buddies) k ≡ some m = rw y at e in
          let pair : IsPair list i j = record {
            device = device;
            device2 = device2;
            at = a;
            at2 = b;
            order = l;
            pair = y;
          } in
          elim (set_buddy-cases j i k m (set_buddy i j buddies) found) [
            | inl (p, q) ↦ rw (p, ← q) (inr pair)
            | inr r ↦ elim (set_buddy-cases i j k m buddies r) [
              | inl (p, q) ↦ rw (p, ← q) (inl pair)
              | inr old ↦ h k m old
            ]
          ]
    ]

-- The list from a place on.
abbrev pub From : List ZeroconfDevice → ℕ → List ZeroconfDevice → Type 0
From whole j list = (n : ℕ) → get_elem? whole (j + n) ≡ get_elem? list n

here-From :
    (whole : List ZeroconfDevice) (j : ℕ) (x : ZeroconfDevice) (list : List ZeroconfDevice)
    → From whole j (x ∷ list)
    → get_elem? whole j ≡ some x
here-From whole j x list f = let e : j + 0 ≡ j = omega arith in rw e at (f 0)

next-From :
    (whole : List ZeroconfDevice) (j : ℕ) (x : ZeroconfDevice) (list : List ZeroconfDevice)
    → From whole j (x ∷ list)
    → From whole (suc j) list
next-From whole j x list f n = let e : suc j + n ≡ j + suc n = omega arith in rw e (f (suc n))

buddies_of-AllPaired :
    (whole : List ZeroconfDevice) (i : ℕ) (device : ZeroconfDevice) (j : ℕ)
    (list : List ZeroconfDevice) (buddies : Buddies)
    → get_elem? whole i ≡ some device
    → From whole j list
    → i < j
    → AllPaired whole buddies
    → AllPaired whole (buddies_of i device j list buddies)
unfolding buddies_of
buddies_of-AllPaired whole i device j [] buddies a f l h = h
buddies_of-AllPaired whole i device j (device2 ∷ list) buddies a f l h =
    buddies_of-AllPaired whole i device (suc j) list _ a (next-From whole j device2 list f)
      (omega arith)
      (pair_up-AllPaired whole i j device device2 buddies a (here-From whole j device2 list f) l h)

buddies_from-AllPaired :
    (whole : List ZeroconfDevice) (i : ℕ) (list : List ZeroconfDevice) (buddies : Buddies)
    → From whole i list
    → AllPaired whole buddies
    → AllPaired whole (buddies_from i list buddies)
unfolding buddies_from
buddies_from-AllPaired whole i [] buddies f h = h
buddies_from-AllPaired whole i (device ∷ list) buddies f h =
    buddies_from-AllPaired whole (suc i) list _ (next-From whole i device list f) (
      buddies_of-AllPaired whole i device (suc i) list buddies (here-From whole i device list f)
        (next-From whole i device list f) (omega arith) h)

set_buddy-keeps :
    (i j k : ℕ) (buddies : Buddies)
    → is_some (buddies k) ≡ true
    → is_some (set_buddy i j buddies k) ≡ true
set_buddy-keeps i j k buddies h = elim (Bool-cases (k == i)) [ inl e ↦ rw e refl | inr n ↦ rw n h ]

set_buddy-sets : (i j : ℕ) (buddies : Buddies) → is_some (set_buddy i j buddies i) ≡ true
set_buddy-sets i j buddies = let same : (i == i) ≡ true = ground arith in rw same refl

-- A device that has a buddy keeps one.
pair_up-keeps :
    (b : Bool) (i j k : ℕ) (buddies : Buddies)
    → is_some (buddies k) ≡ true
    → is_some (pair_up b i j buddies k) ≡ true
pair_up-keeps false i j k buddies h = h
pair_up-keeps true i j k buddies h =
    set_buddy-keeps j i k (set_buddy i j buddies) (set_buddy-keeps i j k buddies h)

buddies_of-keeps :
    (i : ℕ) (device : ZeroconfDevice) (j k : ℕ) (list : List ZeroconfDevice) (buddies : Buddies)
    → is_some (buddies k) ≡ true
    → is_some (buddies_of i device j list buddies k) ≡ true
unfolding buddies_of
buddies_of-keeps i device j k [] buddies h = h
buddies_of-keeps i device j k (device2 ∷ list) buddies h =
    buddies_of-keeps i device (suc j) k list _
      (pair_up-keeps (is_pair device device2) i j k buddies h)

buddies_from-keeps :
    (i k : ℕ) (list : List ZeroconfDevice) (buddies : Buddies)
    → is_some (buddies k) ≡ true
    → is_some (buddies_from i list buddies k) ≡ true
unfolding buddies_from
buddies_from-keeps i k [] buddies h = h
buddies_from-keeps i k (device ∷ list) buddies h =
    buddies_from-keeps (suc i) k list _ (buddies_of-keeps i device (suc i) k list buddies h)

abbrev pub Both : ℕ → ℕ → Buddies → Type 0
Both i j buddies = (is_some (buddies i) ≡ true) × (is_some (buddies j) ≡ true)

pair_up-Both : (i j : ℕ) (buddies : Buddies) → Both i j (pair_up true i j buddies)
pair_up-Both i j buddies = (
  set_buddy-keeps j i i (set_buddy i j buddies) (set_buddy-sets i j buddies),
  set_buddy-sets j i (set_buddy i j buddies),
)

-- The inner loop comes to each device behind its start.
buddies_of-Both :
    (i : ℕ) (device : ZeroconfDevice) (j n : ℕ) (device2 : ZeroconfDevice)
    (list : List ZeroconfDevice) (buddies : Buddies)
    → get_elem? list n ≡ some device2
    → is_pair device device2 ≡ true
    → Both i (j + n) (buddies_of i device j list buddies)
unfolding buddies_of
buddies_of-Both i device j n device2 [] buddies e p = absurd (cc)
buddies_of-Both i device j zero device2 (x ∷ list) buddies e p =
    let same : x ≡ device2 = cc in
    let here : j + 0 ≡ j = omega arith in
    let pair : is_pair device x ≡ true = rw same p in
    let (a, b) = pair_up-Both i j buddies in
    rw (here, pair)
      (buddies_of-keeps i device (suc j) i list _ a, buddies_of-keeps i device (suc j) j list _ b)
buddies_of-Both i device j (suc n) device2 (x ∷ list) buddies e p =
    let next : j + suc n ≡ suc j + n = omega arith in
    rw next (buddies_of-Both i device (suc j) n device2 list _ e p)

-- The outer loop comes to each device with each one behind it.
buddies_from-Both :
    (i x n : ℕ) (device device2 : ZeroconfDevice) (list : List ZeroconfDevice) (buddies : Buddies)
    → get_elem? list x ≡ some device
    → get_elem? list (x + suc n) ≡ some device2
    → is_pair device device2 ≡ true
    → Both (i + x) (i + (x + suc n)) (buddies_from i list buddies)
unfolding buddies_from
buddies_from-Both i x n device device2 [] buddies e f p = absurd (cc)
buddies_from-Both i zero n device device2 (d ∷ list) buddies e f p =
    let same : d ≡ device = cc in
    let here : i + 0 ≡ i = omega arith in
    let there : i + (0 + suc n) ≡ suc i + n = omega arith in
    let next : 0 + suc n ≡ suc n = omega arith in
    let (a, b) = buddies_of-Both i d (suc i) n device2 list buddies (rw next at f) (rw same p) in
    rw (here, there)
      (buddies_from-keeps (suc i) i list _ a, buddies_from-keeps (suc i) (suc i + n) list _ b)
buddies_from-Both i (suc x) n device device2 (d ∷ list) buddies e f p =
    let first : i + suc x ≡ suc i + x = omega arith in
    let second : i + (suc x + suc n) ≡ suc i + (x + suc n) = omega arith in
    let next : suc x + suc n ≡ suc (x + suc n) = omega arith in
    rw (first, second) (buddies_from-Both (suc i) x n device device2 list _ e (rw next at f) p)

start-From : (list : List ZeroconfDevice) → From list 0 list
start-From list n = let e : 0 + n ≡ n = omega arith in rw e refl

pair-Both :
    (list : List ZeroconfDevice) (i j : ℕ)
    → IsPair list i j
    → Both i j (buddies_from 0 list (λ k. none))
pair-Both list i j p =
    let gap : j ≡ i + suc (j - i - 1) = omega (arith, p.order) in
    let first : 0 + i ≡ i = omega arith in
    let second : 0 + (i + suc (j - i - 1)) ≡ j = omega (arith, p.order) in
    let at2 : get_elem? list (i + suc (j - i - 1)) ≡ some p.device2 =
      ap (get_elem? list) (sym gap) ∙ p.at2 in
    rw (first, second) at
      (buddies_from-Both 0 i (j - i - 1) p.device p.device2 list (λ k. none) p.at at2 p.pair)

-- Two devices of the list, in one order or the other.
abbrev pub Pairs : List ZeroconfDevice → ℕ → ℕ → Type 0
Pairs list k m = IsPair list k m ⊎ IsPair list m k

-- What there can be in the place of a buddy.
pub data BuddyOk (list : List ZeroconfDevice) (k : ℕ) : Option ℕ → Type 0 where
  no_buddy : ((m : ℕ) → ¬ Pairs list k m) → BuddyOk list k none
  one_buddy : {m : ℕ} → Pairs list k m → BuddyOk list k (some m)

some_or-BuddyOk :
    (list : List ZeroconfDevice) (k : ℕ) (o : Option ℕ)
    → ((m : ℕ) → o ≡ some m → Pairs list k m)
    → ((m : ℕ) → Pairs list k m → is_some o ≡ true)
    → BuddyOk list k o
some_or-BuddyOk list k none sound complete = no_buddy (λ m p. let e = complete m p in cc)
some_or-BuddyOk list k (some m) sound complete = one_buddy (sound m refl)

Pairs-some :
    (list : List ZeroconfDevice) (k m : ℕ)
    → Pairs list k m
    → is_some (buddies_from 0 list (λ k. none) k) ≡ true
Pairs-some list k m (inl p) = (pair-Both list k m p).0
Pairs-some list k m (inr p) = (pair-Both list m k p).1

-- The buddy of a device is another device of the list, one of the two was found by MDNS and the other
-- was not, and they have an address in common; a device without a buddy has no such other device.
pub buddies_lem :
    (list : List ZeroconfDevice) (k : ℕ) → BuddyOk list k (zeroconf_merge_recompute_buddies list k)
unfolding zeroconf_merge_recompute_buddies
buddies_lem list k =
    some_or-BuddyOk list k (buddies_from 0 list (λ k. none) k)
      (buddies_from-AllPaired list 0 list (λ k. none) (start-From list) (λ k m e. absurd (cc)) k)
      (Pairs-some list k)
