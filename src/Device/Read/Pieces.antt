-- ===== src/Device/Read/Pieces.antt =====
-- The bytes that a reader has left, and a piece of its line in front of them.
use sane_airscan.Base.{
  ℕ, zero, suc, ◌+◌, ◌-◌, ◌≤◌, ◌≡◌, refl, ap, false, Option, none, some, List, [], ◌∷◌, ◌++◌,
  get_or, leb, ◌==◌, if◌then◌else◌, length, take, drop, arith, Bool-cases, inl, inr, ◌⊎◌,
}
use mathlib.Core.List.{append_assoc}
use sane_airscan.Device.Types.{Status, io_error}
use sane_airscan.Device.Job.{is_good}
use sane_airscan.Device.Read.{fill_white}
use sane_airscan.Device.Read.Lines.{
  Reader, line_ready, line_decoded, device_read_decode_line, bytes_at,
}

-- What is left of the line in the buffer.
abbrev pub line_left : Reader → List ℕ
line_left r =
    bytes_at r.read_line_buf (r.read_skip_bytes + r.read_line_off)
      (r.bytes_per_line - r.read_line_off)

module _ (read_line : ℕ → List ℕ → Option (List ℕ)) where
  abbrev after_line : Status × Reader → (Reader → List ℕ) → List ℕ
  after_line (status, r) rest = if is_good status then rest r else []

  -- All the bytes that are left, of which `k` lines are not yet in the buffer: up to the end of the image
  -- or the decoder's first error.
  unfoldable pub stream : ℕ → Reader → List ℕ
  unfolding device_read_decode_line line_ready line_decoded
  stream zero r = line_left r
  stream (suc k) r =
      line_left r ++ after_line (device_read_decode_line read_line r) (λ r'. stream k r')

pub length-bytes_at : (buf : List ℕ) (i n : ℕ) → length (bytes_at buf i n) ≡ n
unfolding bytes_at
length-bytes_at buf i zero = refl
length-bytes_at buf i (suc n) = omega (arith, length-bytes_at buf (i + 1) n)

bytes_at-append :
    (buf : List ℕ) (i n m : ℕ) → bytes_at buf i (n + m) ≡ bytes_at buf i n ++ bytes_at buf (i + n) m
unfolding bytes_at
bytes_at-append buf i zero m =
    let e : 0 + m ≡ m = omega arith in let f : i + 0 ≡ i = omega arith in rw (e, f) refl
bytes_at-append buf i (suc n) m =
    let e : suc n + m ≡ suc (n + m) = omega arith in
    let f : i + suc n ≡ i + 1 + n = omega arith in
    rw (e, f) (ap (λ l. get_or buf i 0 ∷ l) (bytes_at-append buf (i + 1) n m))

-- The reader after bytes of its line.
abbrev pub moved : Reader → ℕ → Reader
moved r n = record r { read_line_off = r.read_line_off + n }

abbrev pub piece_of : Reader → ℕ → List ℕ
piece_of r n = bytes_at r.read_line_buf (r.read_skip_bytes + r.read_line_off) n

left-moved :
    (r : Reader) (n : ℕ)
    → r.read_line_off + n ≤ r.bytes_per_line
    → line_left r ≡ piece_of r n ++ line_left (moved r n)
left-moved r n h =
    let e : r.bytes_per_line - r.read_line_off ≡ n + (r.bytes_per_line - (r.read_line_off + n)) =
      omega arith in
    let f : r.read_skip_bytes + r.read_line_off + n ≡ r.read_skip_bytes + (r.read_line_off + n) =
      omega arith in
    rw (e, ← f)
      (bytes_at-append r.read_line_buf (r.read_skip_bytes + r.read_line_off) n
        (r.bytes_per_line - (r.read_line_off + n)))

pub left_none : (r : Reader) → r.read_line_off ≡ r.bytes_per_line → line_left r ≡ []
unfolding bytes_at
left_none r h = let e : r.bytes_per_line - r.read_line_off ≡ 0 = omega arith in rw e refl

pub take-pieces : (p s : List ℕ) (n : ℕ) → take (length p + n) (p ++ s) ≡ p ++ take n s
take-pieces [] s n = let e : 0 + n ≡ n = omega arith in rw e refl
take-pieces (x ∷ p) s n =
    let e : suc (length p) + n ≡ suc (length p + n) = omega arith in
    rw e (ap (λ l. x ∷ l) (take-pieces p s n))

pub drop-pieces : (p s : List ℕ) (n : ℕ) → drop (length p + n) (p ++ s) ≡ drop n s
drop-pieces [] s n = let e : 0 + n ≡ n = omega arith in rw e refl
drop-pieces (x ∷ p) s n =
    let e : suc (length p) + n ≡ suc (length p + n) = omega arith in rw e (drop-pieces p s n)

pub take_none : (n : ℕ) → take {A = ℕ} n [] ≡ []
take_none zero = refl
take_none (suc n) = refl

pub drop_none : (n : ℕ) → drop {A = ℕ} n [] ≡ []
drop_none zero = refl
drop_none (suc n) = refl

-- A reader with `k` lines to come.
pub record IsReader (k : ℕ) (r : Reader) : Type 0 where
  pub lines : k + r.read_line_num ≡ r.lines
  pub off : r.read_line_off ≤ r.bytes_per_line

module _ (read_line : ℕ → List ℕ → Option (List ℕ)) where
  -- A line that is to come is made ready, or the decoder fails.
  decoded-cases :
      (r : Reader) (found : Option (List ℕ))
      → ((buf : List ℕ) × (line_decoded r found ≡ line_ready r buf))
        ⊎ (line_decoded r found ≡ (io_error, r))
  unfolding line_decoded
  decoded-cases r none = inr refl
  decoded-cases r (some buf) = inl (_, refl)

  pub line-cases :
      (r : Reader)
      → (r.read_line_num == r.lines) ≡ false
      → ((buf : List ℕ) × (device_read_decode_line read_line r ≡ line_ready r buf))
        ⊎ (device_read_decode_line read_line r ≡ (io_error, r))
  unfolding device_read_decode_line
  line-cases r h = elim (Bool-cases (leb r.read_line_end r.read_line_num)) [
    | inl e ↦ inl (fill_white r.bytes_per_line r.read_skip_bytes r.read_line_buf, rw (h, e) refl)
    | inr e ↦ rw (h, e) (decoded-cases r (read_line r.read_line_num r.read_line_buf))
  ]

  after_decoded :
      (r : Reader) (n : ℕ) (found : Option (List ℕ)) (rest : Reader → List ℕ)
      → after_line read_line (line_decoded (moved r n) found) rest
        ≡ after_line read_line (line_decoded r found) rest
  unfolding line_decoded line_ready
  after_decoded r n none rest = refl
  after_decoded r n (some buf) rest = refl

  -- What follows a line does not depend on how much of it has been read.
  after-moved :
      (r : Reader) (n : ℕ) (rest : Reader → List ℕ)
      → after_line read_line (device_read_decode_line read_line (moved r n)) rest
        ≡ after_line read_line (device_read_decode_line read_line r) rest
  unfolding device_read_decode_line line_ready
  after-moved r n rest = elim (Bool-cases (r.read_line_num == r.lines)) [
    | inl e ↦ rw e refl
    | inr e ↦ elim (Bool-cases (leb r.read_line_end r.read_line_num)) [
      | inl f ↦ rw (e, f) refl
      | inr f ↦ rw (e, f) (after_decoded r n (read_line r.read_line_num r.read_line_buf) rest)
    ]
  ]

  pub stream-moved :
      (k : ℕ) (r : Reader) (n : ℕ)
      → r.read_line_off + n ≤ r.bytes_per_line
      → stream read_line k r ≡ piece_of r n ++ stream read_line k (moved r n)
  unfolding stream
  stream-moved zero r n h = left-moved r n h
  stream-moved (suc k) r n h =
      rw
        (
          left-moved r n h,
          append_assoc (piece_of r n) (line_left (moved r n)) (
              after_line read_line (device_read_decode_line read_line r)
                (λ r'. stream read_line k r')),
          after-moved r n (λ r'. stream read_line k r'),
        )
        refl
