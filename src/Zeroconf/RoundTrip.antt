-- ===== src/Zeroconf/RoundTrip.antt =====
-- An ident string is split into what it was made of.
use sane_airscan.Base.{
  ℕ, zero, suc, ◌+◌, ◌*◌, ◌/◌, ◌%◌, ◌^◌, ◌<◌, ◌≡◌, ◌≢◌, refl, ap, inl, inr, true, false, ◌||◌, some,
  [], ◌∷◌, leb, ◌==◌, arith, Bool-cases,
}
use sane_airscan.Uuid.{Text, hex_digit}
use sane_airscan.Uuid.RoundTrip.{hex_digit_lem}
use sane_airscan.Inifile.File.{is_space}
use sane_airscan.Zeroconf.Ident.{
  ProtoId, proto_unknown, proto_escl, proto_wsd, zeroconf_ident_proto_encode,
  zeroconf_ident_proto_decode, hex_onto, zeroconf_ident_make, after_char, read_digits, skip_space,
  skip_0x, strtoul, split_number, split_at, zeroconf_ident_split,
}

-- A text that starts with digits and a colon: the value of the digits, added to `v`, and what follows.
pub data Reads : ℕ → Text → ℕ → Text → Type 0 where
  colon : {v : ℕ} {s : Text} → Reads v (b':' ∷ s) v s
  digit :
      {v w : ℕ} {s t : Text} (d : ℕ)
      → d < 16
      → Reads (v * 16 + d) s w t
      → Reads v (hex_digit d ∷ s) w t

-- The last digit of a number.
last_digit : (n w : ℕ) (s t : Text) → Reads n s w t → Reads (n / 16) (hex_digit (n % 16) ∷ s) w t
last_digit n w s t r =
    let whole : n / 16 * 16 + n % 16 ≡ n = omega arith in digit (n % 16) (omega arith) (rw whole r)

-- The same, with the first digit apart.
pub record Starts (w : ℕ) (t s : Text) : Type 0 where
  pub first : ℕ
  pub is_digit : first < 16
  pub others : Text
  pub is : s ≡ hex_digit first ∷ others
  pub reads : Reads (0 * 16 + first) others w t

only_digit :
    (n w : ℕ) (s t : Text) → n / 16 ≡ 0 → Reads n s w t → Starts w t (hex_digit (n % 16) ∷ s)
only_digit n w s t e r =
    let whole : 0 * 16 + n % 16 ≡ n = omega (arith, e) in
    record { first = n % 16; is_digit = omega arith; others = s; is = refl; reads = rw whole r }

-- The numbers of so many digits and one.
abbrev places : ℕ → ℕ
places zero = 16
places (suc fuel) = places fuel * 16

fewer_digits : (n m : ℕ) → n < m * 16 → n / 16 < m
fewer_digits n m h = omega arith

-- The printed number reads as itself, in front of anything that reads on.
hex_onto-Starts :
    (fuel n w : ℕ) (s t : Text) → n < places fuel → Reads n s w t → Starts w t (hex_onto fuel n s)
unfolding hex_onto
hex_onto-Starts zero n w s t h r = only_digit n w s t (omega arith) r
hex_onto-Starts (suc fuel) n w s t h r = elim (Bool-cases (n / 16 == 0)) [
  | inl e ↦ rw e (only_digit n w s t (ground arith) r)
  | inr e ↦ rw e (
      hex_onto-Starts fuel (n / 16) w (hex_digit (n % 16) ∷ s) t (fewer_digits n (places fuel) h)
        (last_digit n w s t r))
]

-- What a digit is not.
record IsPlain (c : ℕ) : Type 0 where
  no_space : is_space c ≡ false
  no_minus : (c == b'-') ≡ false
  no_plus : (c == b'+') ≡ false
  no_colon : (c == b':') ≡ false
  no_x : ((c == b'x') || (c == b'X')) ≡ false

digit-IsPlain : (d : ℕ) → d < 16 → IsPlain (hex_digit d)
unfolding hex_digit
digit-IsPlain d h = record {
  no_space = ground arith;
  no_minus = ground arith;
  no_plus = ground arith;
  no_colon = ground arith;
  no_x = ground arith;
}

after_char-Reads : {v w : ℕ} {s t : Text} → Reads v s w t → after_char b':' s ≡ some t
unfolding after_char
after_char-Reads colon = refl
after_char-Reads (digit d h r) = let n = (digit-IsPlain d h).no_colon in rw n (after_char-Reads r)

read_digits-Reads :
    {v w : ℕ} {s t : Text}
    → Reads v s w t
    → read_digits v true s ≡ record { value = w; some_digit = true; rest = b':' ∷ t }
unfolding read_digits
read_digits-Reads colon = refl
read_digits-Reads {v = v} (digit d h r) =
    let (x, e) = hex_digit_lem d h in rw (x, e) (read_digits-Reads r)

-- A number that starts with a digit.
first_digit :
    {w : ℕ} {s t : Text} (d : ℕ)
    → d < 16
    → Reads (0 * 16 + d) s w t
    → read_digits 0 false (hex_digit d ∷ s)
      ≡ record { value = w; some_digit = true; rest = b':' ∷ t }
unfolding read_digits
first_digit d h r = let (x, e) = hex_digit_lem d h in rw (x, e) (read_digits-Reads r)

no_0x : (c : ℕ) {v w : ℕ} {s t : Text} → Reads v s w t → skip_0x (c ∷ s) ≡ c ∷ s
unfolding skip_0x
no_0x c (colon {s = []}) = refl
no_0x c (colon {s = x ∷ s}) = ground arith
no_0x c (digit {s = []} d h r) = refl
no_0x c (digit {s = x ∷ s} d h r) = let n = (digit-IsPlain d h).no_x in ground (arith, n)

strtoul-Reads :
    {w : ℕ} {s t : Text} (d : ℕ)
    → d < 16
    → w < 2 ^ 64
    → Reads (0 * 16 + d) s w t
    → strtoul (hex_digit d ∷ s) ≡ record { value = w; some_digit = true; rest = b':' ∷ t }
unfolding strtoul skip_space
strtoul-Reads {w = w} {s = s} d h l r =
    let p = digit-IsPlain d h in
    let no_space = p.no_space in
    let no_minus = p.no_minus in
    let no_plus = p.no_plus in
    let small : leb (2 ^ 64) w ≡ false = ground arith in
    rw (no_space, no_minus, no_plus, no_0x (hex_digit d) r, first_digit d h r, small) refl

number_split :
    (proto : ProtoId) (w : ℕ) (name : Text)
    → w < 2 ^ 32
    → split_number proto (record { value = w; some_digit = true; rest = b':' ∷ name }) name
      ≡ some (record { devid = w; proto = proto; name = name })
number_split proto w name h =
    let whole : w % 2 ^ 32 ≡ w = omega arith in
    ap (λ v. some (record { devid = v; proto = proto; name = name })) whole

split_at-Starts :
    (proto : ProtoId) (s name : Text) (w : ℕ)
    → proto ≢ proto_unknown
    → w < 2 ^ 32
    → Starts w name s
    → split_at proto s name ≡ some (record { devid = w; proto = proto; name = name })
split_at-Starts proto_unknown s name w k h t = absurd (k refl)
split_at-Starts proto_escl s name w k h t =
    let is = t.is in
    rw (is, strtoul-Reads t.first t.is_digit (omega arith) t.reads)
      (number_split proto_escl w name h)
split_at-Starts proto_wsd s name w k h t =
    let is = t.is in
    rw (is, strtoul-Reads t.first t.is_digit (omega arith) t.reads)
      (number_split proto_wsd w name h)

encode-decode :
    (proto : ProtoId)
    → proto ≢ proto_unknown
    → (c : ℕ) × (zeroconf_ident_proto_encode proto ≡ some c)
      × (zeroconf_ident_proto_decode c ≡ proto)
      × ((c == b':') ≡ false)
unfolding zeroconf_ident_proto_encode zeroconf_ident_proto_decode
encode-decode proto_unknown k = absurd (k refl)
encode-decode proto_escl k = (b'e', refl, refl, refl)
encode-decode proto_wsd k = (b'w', refl, refl, refl)

-- For a known protocol and a 32-bit identifier an ident string is made, and it is split into the name,
-- the identifier and the protocol again, whatever bytes the name has.
pub split-make :
    (name : Text) (devid : ℕ) (proto : ProtoId)
    → proto ≢ proto_unknown
    → devid < 2 ^ 32
    → (ident : Text) × (zeroconf_ident_make name devid proto ≡ some ident)
      × (zeroconf_ident_split ident ≡ some (record { devid = devid; proto = proto; name = name }))
unfolding zeroconf_ident_make zeroconf_ident_split after_char
split-make name devid proto k h =
    let (c, e, f, n) = encode-decode proto k in
    let t = hex_onto-Starts 7 devid devid (b':' ∷ name) name h colon in
    let is = t.is in
    let found : after_char b':' (hex_onto 7 devid (b':' ∷ name)) ≡ some name =
      rw is (after_char-Reads {v = 0} (digit t.first t.is_digit t.reads)) in
    (
      c ∷ hex_onto 7 devid (b':' ∷ name),
      rw e refl,
      rw (n, found, f) (split_at-Starts proto _ name devid k h t),
    )
