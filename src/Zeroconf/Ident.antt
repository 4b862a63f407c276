-- ===== src/Zeroconf/Ident.antt =====
-- The ident strings of airscan-zeroconf.c, and strtoul of C with the base 16 and a 64-bit result.
use sane_airscan.Base.{
  ℕ, zero, suc, ◌+◌, ◌-◌, ◌*◌, ◌/◌, ◌%◌, ◌^◌, Bool, true, false, ◌&&◌, ◌||◌, Option, none, some, [],
  ◌∷◌, leb, ◌==◌, if◌then◌else◌,
}
use sane_airscan.Uuid.{Text, is_xdigit, digit_value, hex_digit}
use sane_airscan.Inifile.File.{is_space}

-- ID_PROTO.
pub data ProtoId : Type 0 where
  proto_unknown proto_escl proto_wsd : ProtoId

-- `none` is the internal error.
unfoldable pub zeroconf_ident_proto_encode : ProtoId → Option ℕ
zeroconf_ident_proto_encode proto_unknown = none
zeroconf_ident_proto_encode proto_escl = some b'e'
zeroconf_ident_proto_encode proto_wsd = some b'w'

unfoldable pub zeroconf_ident_proto_decode : ℕ → ProtoId
zeroconf_ident_proto_decode c =
    if c == b'e' then proto_escl else if c == b'w' then proto_wsd else proto_unknown

-- `%x`, with the digits in front of a text. The fuel is the number of digits that there can be, less 1.
unfoldable pub hex_onto : ℕ → ℕ → Text → Text
hex_onto zero n s = hex_digit (n % 16) ∷ s
hex_onto (suc fuel) n s =
    let all = hex_onto fuel (n / 16) (hex_digit (n % 16) ∷ s) in
    if n / 16 == 0 then hex_digit (n % 16) ∷ s else all

abbrev pub with_proto : Option ℕ → Text → Option Text
with_proto none s = none
with_proto (some c) s = some (c ∷ s)

-- An unsigned int has 8 digits at most.
unfoldable pub zeroconf_ident_make : Text → ℕ → ProtoId → Option Text
zeroconf_ident_make name devid proto =
    with_proto (zeroconf_ident_proto_encode proto) (hex_onto 7 devid (b':' ∷ name))

-- `strchr(s, c) + 1`.
unfoldable pub after_char : ℕ → Text → Option Text
after_char c [] = none
after_char c (x ∷ s) = let rest = after_char c s in if x == c then some s else rest

-- What strtoul reads: the number, whether it had a digit, and what follows.
pub record Number : Type 0 where
  pub value : ℕ
  pub some_digit : Bool
  pub rest : Text

-- The digits; a value that passes the maximum stays above it.
unfoldable pub read_digits : ℕ → Bool → Text → Number
read_digits v any [] = record { value = v; some_digit = any; rest = [] }
read_digits v any (c ∷ s) =
    let more = read_digits (v * 16 + digit_value c) true s in
    if is_xdigit c then more else record { value = v; some_digit = any; rest = c ∷ s }

unfoldable pub skip_space : Text → Text
skip_space [] = []
skip_space (c ∷ s) = let rest = skip_space s in if is_space c then rest else c ∷ s

-- A prefix "0x" counts only in front of a digit.
unfoldable pub skip_0x : Text → Text
skip_0x (z ∷ x ∷ c ∷ s) =
    if z == b'0' && (x == b'x' || x == b'X') && is_xdigit c then c ∷ s else z ∷ x ∷ c ∷ s
skip_0x s = s

-- ULONG_MAX on overflow; a sign negates what does not overflow.
abbrev pub limited : Bool → ℕ → ℕ
limited minus v = if leb (2 ^ 64) v then 2 ^ 64 - 1 else if minus then (2 ^ 64 - v) % 2 ^ 64 else v

abbrev pub signed : Bool → Text → Number
signed minus s =
    let n = read_digits 0 false (skip_0x s) in record n { value = limited minus n.value }

abbrev pub after_space : Text → Number
after_space [] = signed false []
after_space (c ∷ s) =
    if c == b'-' then signed true s else if c == b'+' then signed false s else signed false (c ∷ s)

unfoldable pub strtoul : Text → Number
strtoul s = after_space (skip_space s)

pub record Split : Type 0 where
  pub devid : ℕ
  pub proto : ProtoId
  pub name : Text

abbrev pub starts_with : ℕ → Text → Bool
starts_with c [] = false
starts_with c (x ∷ s) = x == c

-- The cast to unsigned int; without a digit `end` is `ident`.
abbrev pub split_number : ProtoId → Number → Text → Option Split
split_number proto n name =
    if n.some_digit && starts_with b':' n.rest
    then some (record { devid = n.value % 2 ^ 32; proto = proto; name = name })
    else none

abbrev pub split_at : ProtoId → Text → Text → Option Split
split_at proto_unknown ident name = none
split_at proto ident name = split_number proto (strtoul ident) name

abbrev pub split_named : Text → Option Text → Option Split
split_named ident none = none
split_named [] (some name) = none
split_named (c ∷ ident) (some name) = split_at (zeroconf_ident_proto_decode c) ident name

unfoldable pub zeroconf_ident_split : Text → Option Split
zeroconf_ident_split ident = split_named ident (after_char b':' ident)
