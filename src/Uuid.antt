-- ===== src/Uuid.antt =====
-- airscan-uuid.c. A text is the list of its bytes; a UUID is its text, and uuid_invalid is the empty
-- one. The calls of isxdigit, isdigit, isupper and strncasecmp are those of the C locale.
pub mod RoundTrip
use sane_airscan.Base.{
  ℕ, zero, suc, ◌+◌, ◌-◌, ◌*◌, ◌/◌, ◌%◌, ◌^◌, Bool, true, false, not, ◌&&◌, ◌||◌, Option, none,
  some, List, [], ◌∷◌, ◌++◌, ltb, leb, ◌==◌, if◌then◌else◌, take, drop,
}
use mathlib.Core.List.{reverse}

abbrev pub Text : Type 0
Text = List ℕ

abbrev pub is_digit : ℕ → Bool
is_digit c = leb b'0' c && leb c b'9'

abbrev pub is_upper : ℕ → Bool
is_upper c = leb b'A' c && leb c b'Z'

abbrev pub is_xdigit : ℕ → Bool
is_xdigit c = is_digit c || (leb b'A' c && leb c b'F') || (leb b'a' c && leb c b'f')

abbrev pub to_lower : ℕ → ℕ
to_lower c = if is_upper c then c + 32 else c

-- `!strncasecmp(in, prefix, n)` for a prefix of `n` bytes; a text that ends sooner differs.
unfoldable pub has_prefix : Text → Text → Bool
has_prefix [] s = true
has_prefix (p ∷ ps) [] = false
has_prefix (p ∷ ps) (c ∷ s) = to_lower p == to_lower c && has_prefix ps s

abbrev pub skip : ℕ → Text → Text
skip zero s = s
skip (suc n) [] = []
skip (suc n) (c ∷ s) = skip n s

abbrev pub urn_prefix : Text
urn_prefix = b'u' ∷ b'r' ∷ b'n' ∷ b':' ∷ []

abbrev pub uuid_prefix : Text
uuid_prefix = b'u' ∷ b'u' ∷ b'i' ∷ b'd' ∷ b':' ∷ []

unfoldable pub strip_prefixes : Text → Text
unfolding has_prefix
strip_prefixes s =
    let s1 = if has_prefix urn_prefix s then skip 4 s else s in
    if has_prefix uuid_prefix s1 then skip 5 s1 else s1

unfoldable pub digit_value : ℕ → ℕ
digit_value c = if is_digit c then c - b'0' else if is_upper c then c + 10 - b'A' else c + 10 - b'a'

-- `buf[cnt / 2] |= v`, into a byte whose low half is 0.
unfoldable pub or_low : List ℕ → ℕ → List ℕ
or_low [] v = []
or_low (b ∷ bs) v = (b + v) ∷ bs

-- The loop of uuid_parse. `bytes` is what has been stored in `buf`, the last byte first. `none` is
-- the return of uuid_invalid at a digit too many.
unfoldable pub parse_digits : List ℕ → ℕ → Text → Option (List ℕ × ℕ)
parse_digits bytes cnt [] = some (bytes, cnt)
parse_digits bytes cnt (c ∷ s) =
    let skipped = parse_digits bytes cnt s in
    let high = parse_digits ((digit_value c * 16 % 256) ∷ bytes) (cnt + 1) s in
    let low = parse_digits (or_low bytes (digit_value c)) (cnt + 1) s in
    if not (is_xdigit c)
    then skipped
    else if cnt == 32
    then none
    else if cnt % 2 == 0
    then high
    else low

unfoldable pub hex_digit : ℕ → ℕ
hex_digit n = if ltb n 10 then b'0' + n else b'a' + (n - 10)

-- `%.2x` of each byte.
unfoldable pub hex_bytes : List ℕ → Text
hex_bytes [] = []
hex_bytes (b ∷ bs) = hex_digit (b / 16) ∷ hex_digit (b % 16) ∷ hex_bytes bs

-- The groups of 4, 2, 2, 2 and the remaining 6 of the 16 bytes.
unfoldable pub grouped : List ℕ → Text
grouped bs =
    hex_bytes (take 4 bs)
    ++ (b'-'
        ∷ (hex_bytes (take 2 (drop 4 bs))
            ++ (b'-'
                ∷ (hex_bytes (take 2 (drop 6 bs))
                    ++ (b'-'
                        ∷ (hex_bytes (take 2 (drop 8 bs)) ++ (b'-' ∷ hex_bytes (drop 10 bs))))))))

unfoldable pub uuid_format : List ℕ → Text
uuid_format bs = urn_prefix ++ (uuid_prefix ++ grouped bs)

abbrev pub uuid_invalid : Text
uuid_invalid = []

-- What follows the loop.
unfoldable pub parse_end : Option (List ℕ × ℕ) → Text
parse_end none = uuid_invalid
parse_end (some (bytes, cnt)) =
    if not (cnt == 32) then uuid_invalid else uuid_format (reverse bytes)

unfoldable pub uuid_parse : Text → Text
uuid_parse s = parse_end (parse_digits [] 0 (strip_prefixes s))

-- Random and hashed identifiers: `rand_bytes` fills 16 bytes, and `sha256` is the digest of GnuTLS,
-- of which the first 16 bytes are taken.
unfoldable pub uuid_rand : (ℕ → List ℕ) → Text
uuid_rand rand_bytes = uuid_format (rand_bytes 16)

unfoldable pub uuid_hash : (Text → List ℕ) → Text → Text
uuid_hash sha256 s = uuid_format (take 16 (sha256 s))
