-- ===== src/Uuid/RoundTrip.antt =====
-- uuid_parse against uuid_format.
use mathlib.Core.List.{reverse, reverse-append, append_assoc, append-nil, reverse-reverse}
use sane_airscan.Base.{
  ℕ, zero, suc, ◌+◌, ◌*◌, ◌/◌, ◌%◌, ◌≤◌, ◌<◌, ◌≡◌, ◌≢◌, refl, sym, ap, ◌∙◌, Bool, true, false,
  Option, none, some, ◌↔◌, List, [], ◌∷◌, ◌++◌, ◌==◌, if◌then◌else◌, take, drop, length,
  take-append-drop, length-take, length-drop, arith, ==_iff,
}
use sane_airscan.Uuid.{
  Text, is_xdigit, digit_value, or_low, parse_digits, hex_digit, hex_bytes, grouped, uuid_format,
  parse_end, uuid_parse, strip_prefixes, urn_prefix, uuid_prefix,
}

abbrev pub IsByte : List ℕ → Type 0
IsByte [] = Unit {0}
IsByte (b ∷ bs) = (b < 256) × IsByte bs

pub hex_digit_lem :
    (n : ℕ) → n < 16 → (is_xdigit (hex_digit n) ≡ true) × (digit_value (hex_digit n) ≡ n)
unfolding hex_digit digit_value
hex_digit_lem n h = ground arith

step_skip :
    (bytes : List ℕ) (cnt c : ℕ) (s : Text)
    → is_xdigit c ≡ false
    → parse_digits bytes cnt (c ∷ s) ≡ parse_digits bytes cnt s
unfolding parse_digits
step_skip bytes cnt c s h = rw h refl

step_full :
    (bytes : List ℕ) (c : ℕ) (s : Text) → is_xdigit c ≡ true → parse_digits bytes 32 (c ∷ s) ≡ none
unfolding parse_digits
step_full bytes c s h = rw h refl

step_high :
    (bytes : List ℕ) (cnt c : ℕ) (s : Text)
    → is_xdigit c ≡ true
    → cnt < 32
    → cnt % 2 ≡ 0
    → parse_digits bytes cnt (c ∷ s) ≡ parse_digits ((digit_value c * 16 % 256) ∷ bytes) (cnt + 1) s
unfolding parse_digits
step_high bytes cnt c s h l e =
    let room : (cnt == 32) ≡ false = ground arith in
    let even : (cnt % 2 == 0) ≡ true = (==_iff (cnt % 2) 0).1 e in rw (h, room, even) refl

step_low :
    (bytes : List ℕ) (cnt c : ℕ) (s : Text)
    → is_xdigit c ≡ true
    → cnt < 32
    → cnt % 2 ≡ 1
    → parse_digits bytes cnt (c ∷ s) ≡ parse_digits (or_low bytes (digit_value c)) (cnt + 1) s
unfolding parse_digits
step_low bytes cnt c s h l e =
    let room : (cnt == 32) ≡ false = ground arith in
    let odd : (cnt % 2 == 0) ≡ false = ground arith in rw (h, room, odd) refl

-- The two digits of a byte are read back at an even count.
parse_byte :
    (b : ℕ) (bytes : List ℕ) (cnt : ℕ) (s : Text)
    → b < 256
    → cnt % 2 ≡ 0
    → cnt < 32
    → parse_digits bytes cnt (hex_digit (b / 16) ∷ hex_digit (b % 16) ∷ s)
      ≡ parse_digits (b ∷ bytes) (cnt + 2) s
unfolding or_low
parse_byte b bytes cnt s h e l =
    let (x, v) = hex_digit_lem (b / 16) (omega arith) in
    let (y, w) = hex_digit_lem (b % 16) (omega arith) in
    let count : cnt + 1 + 1 ≡ cnt + 2 = omega arith in
    let whole : digit_value (hex_digit (b / 16)) * 16 % 256 + digit_value (hex_digit (b % 16)) ≡ b =
      omega (arith, v, w) in
    step_high bytes cnt _ _ x l e
    ∙ step_low _ (cnt + 1) _ s y (omega arith) (omega arith)
    ∙ rw (whole, count) refl

parse_bytes :
    (bs bytes : List ℕ) (cnt : ℕ) (s : Text)
    → IsByte bs
    → cnt % 2 ≡ 0
    → cnt + 2 * length bs ≤ 32
    → parse_digits bytes cnt (hex_bytes bs ++ s)
      ≡ parse_digits (reverse bs ++ bytes) (cnt + 2 * length bs) s
unfolding hex_bytes
parse_bytes [] bytes cnt s h e l = ap (λ n. parse_digits bytes n s) (omega arith)
parse_bytes (b ∷ bs) bytes cnt s h e l =
    let count : cnt + 2 + 2 * length bs ≡ cnt + 2 * suc (length bs) = omega arith in
    parse_byte b bytes cnt (hex_bytes bs ++ s) h.0 e (omega arith)
    ∙ parse_bytes bs (b ∷ bytes) (cnt + 2) s h.1 (omega arith) (omega arith)
    ∙ rw (count, reverse-append (b ∷ []) bs, append_assoc) refl

parse_dash :
    (bytes : List ℕ) (cnt : ℕ) (s : Text)
    → parse_digits bytes cnt (b'-' ∷ s) ≡ parse_digits bytes cnt s
parse_dash bytes cnt s = step_skip bytes cnt b'-' s refl

-- A group of bytes and the dash behind it.
parse_group :
    (bs bytes : List ℕ) (cnt cnt' : ℕ) (s : Text)
    → IsByte bs
    → cnt % 2 ≡ 0
    → cnt + 2 * length bs ≡ cnt'
    → cnt' ≤ 32
    → parse_digits bytes cnt (hex_bytes bs ++ (b'-' ∷ s))
      ≡ parse_digits (reverse bs ++ bytes) cnt' s
parse_group bs bytes cnt cnt' s h e c l =
    parse_bytes bs bytes cnt (b'-' ∷ s) h e (omega arith)
    ∙ parse_dash _ _ s
    ∙ ap (λ n. parse_digits (reverse bs ++ bytes) n s) c

-- The last group.
parse_last :
    (bs bytes : List ℕ) (cnt : ℕ)
    → IsByte bs
    → cnt % 2 ≡ 0
    → cnt + 2 * length bs ≡ 32
    → parse_digits bytes cnt (hex_bytes bs) ≡ some (reverse bs ++ bytes, 32)
parse_last bs bytes cnt h e c =
    ap (parse_digits bytes cnt) (sym (append-nil (hex_bytes bs)))
    ∙ parse_bytes bs bytes cnt [] h e (omega arith)
    ∙ ap (λ n. parse_digits (reverse bs ++ bytes) n []) c
    ∙ finished (reverse bs ++ bytes)
  where
    finished : (r : List ℕ) → parse_digits r 32 [] ≡ some (r, 32)
    finished r = unfold parse_digits in refl

drop-drop : (k i : ℕ) (bs : List ℕ) → drop i (drop k bs) ≡ drop (k + i) bs
drop-drop zero i bs = let e : i ≡ 0 + i = omega arith in ap (λ n. drop n bs) e
drop-drop (suc k) zero [] = let e : suc (k + 0) ≡ suc k + 0 = omega arith in ap (λ n. drop n []) e
drop-drop (suc k) (suc i) [] =
    let e : suc (k + suc i) ≡ suc k + suc i = omega arith in ap (λ n. drop n []) e
drop-drop (suc k) i (b ∷ bs) =
    let e : suc (k + i) ≡ suc k + i = omega arith in drop-drop k i bs ∙ ap (λ n. drop n (b ∷ bs)) e

-- A group and what follows it.
join_group : (k i : ℕ) (bs : List ℕ) → take i (drop k bs) ++ drop (k + i) bs ≡ drop k bs
join_group k i bs = rw (← drop-drop k i bs) (take-append-drop i (drop k bs))

IsByte-take : (n : ℕ) (bs : List ℕ) → IsByte bs → IsByte (take n bs)
IsByte-take zero bs h = tt
IsByte-take (suc n) [] h = tt
IsByte-take (suc n) (b ∷ bs) h = (h.0, IsByte-take n bs h.1)

IsByte-drop : (n : ℕ) (bs : List ℕ) → IsByte bs → IsByte (drop n bs)
IsByte-drop zero bs h = h
IsByte-drop (suc n) [] h = tt
IsByte-drop (suc n) (b ∷ bs) h = IsByte-drop n bs h.1

-- The bytes in the order in which the loop has stored them.
stored : List ℕ → List ℕ
stored bs =
    reverse (drop 10 bs)
    ++ (reverse (take 2 (drop 8 bs))
        ++ (reverse (take 2 (drop 6 bs))
            ++ (reverse (take 2 (drop 4 bs)) ++ (reverse (take 4 bs) ++ []))))

reverse-stored : (bs : List ℕ) → reverse (stored bs) ≡ bs
unfolding stored
reverse-stored bs =
    simp (reverse-append, reverse-reverse, append-nil, append_assoc)
      (rw (join_group 8 2 bs)
        (rw (join_group 6 2 bs) (rw (join_group 4 2 bs) (take-append-drop 4 bs))))

-- The loop over the text of 16 bytes.
parse_grouped :
    (bs : List ℕ)
    → length bs ≡ 16
    → IsByte bs
    → parse_digits [] 0 (grouped bs) ≡ some (stored bs, 32)
unfolding grouped stored
parse_grouped bs l h =
    parse_group (take 4 bs) _ 0 8 _ (IsByte-take 4 bs h) refl (omega (arith, length-take 4 bs))
      (omega arith)
    ∙ parse_group (take 2 (drop 4 bs)) _ 8 12 _ (IsByte-take 2 _ (IsByte-drop 4 bs h)) refl
        (size 4 2 bs l (omega arith)) (omega arith)
    ∙ parse_group (take 2 (drop 6 bs)) _ 12 16 _ (IsByte-take 2 _ (IsByte-drop 6 bs h)) refl
        (size 6 2 bs l (omega arith)) (omega arith)
    ∙ parse_group (take 2 (drop 8 bs)) _ 16 20 _ (IsByte-take 2 _ (IsByte-drop 8 bs h)) refl
        (size 8 2 bs l (omega arith)) (omega arith)
    ∙ parse_last (drop 10 bs) _ 20 (IsByte-drop 10 bs h) refl (omega (arith, length-drop 10 bs))
  where
    size :
        (k i : ℕ) (bs : List ℕ)
        → length bs ≡ 16
        → k + i ≤ 16
        → (2 * k) + 2 * length (take i (drop k bs)) ≡ 2 * k + 2 * i
    size k i bs l h = omega (arith, length-take i (drop k bs), length-drop k bs)

strip_format : (s : Text) → strip_prefixes (urn_prefix ++ (uuid_prefix ++ s)) ≡ s
unfolding strip_prefixes
strip_format s = refl

-- Parsing the text of 16 bytes gives that text again.
pub parse-format :
    (bs : List ℕ) → length bs ≡ 16 → IsByte bs → uuid_parse (uuid_format bs) ≡ uuid_format bs
unfolding uuid_parse uuid_format parse_end
parse-format bs l h =
    rw (strip_format (grouped bs)) (rw (parse_grouped bs l h) (ap uuid_format (reverse-stored bs)))

-- How many hexadecimal digits a text has.
pub count_digits : Text → ℕ
count_digits [] = 0
count_digits (c ∷ s) = (if is_xdigit c then 1 else 0) + count_digits s

is_valid_end : Option (List ℕ × ℕ) → Bool
is_valid_end none = false
is_valid_end (some (_, n)) = n == 32

parse_digits-count :
    (s : Text) (bytes : List ℕ) (cnt : ℕ)
    → cnt ≤ 32
    → is_valid_end (parse_digits bytes cnt s) ≡ (cnt + count_digits s == 32)
unfolding parse_digits count_digits is_valid_end
parse_digits-count [] bytes cnt h = ground arith
parse_digits-count (c ∷ s) bytes cnt h = ground (
  arith,
  parse_digits-count s bytes cnt,
  parse_digits-count s ((digit_value c * 16 % 256) ∷ bytes) (cnt + 1),
  parse_digits-count s (or_low bytes (digit_value c)) (cnt + 1),
)

valid_end-parse : (o : Option (List ℕ × ℕ)) → (parse_end o ≡ []) ↔ (is_valid_end o ≡ false)
unfolding parse_end is_valid_end uuid_format
valid_end-parse none = (λ _. refl, λ _. refl)
valid_end-parse (some (bytes, n)) = ground arith

-- A text is refused exactly where it has not 32 hexadecimal digits behind the prefixes.
pub parse_refuses_iff : (s : Text) → (uuid_parse s ≡ []) ↔ (count_digits (strip_prefixes s) ≢ 32)
unfolding uuid_parse
parse_refuses_iff s =
    let c = parse_digits-count (strip_prefixes s) [] 0 (omega arith) in
    let v = valid_end-parse (parse_digits [] 0 (strip_prefixes s)) in
    (λ e. ground (arith, v.0 e), λ n. v.1 (ground arith))
