-- ===== src/Device/Read/Gray.antt =====
-- device_read_24_to_8_resample against the bytes of the line before it.
use sane_airscan.Base.{
  ℕ, zero, suc, ◌+◌, ◌-◌, ◌*◌, ◌≤◌, ◌<◌, ◌≡◌, refl, ◌∙◌, ◌⊎◌, inl, inr, true, false, List, get_or,
  set, get_or-set_self, get_or-set_ne, length, length-set, ltb, if◌then◌else◌, arith,
}
use native.Mathlib.Decide.{ℕ_discrete, dec_lt}
use sane_airscan.Device.Read.{luma, resample_from, fill_white, device_read_24_to_8_resample}

-- Pixel `j` of the line as it was, in gray.
abbrev pub gray_at : List ℕ → ℕ → ℕ
gray_at buf j = luma (get_or buf (3 * j) 0) (get_or buf (3 * j + 1) 0) (get_or buf (3 * j + 2) 0)

resample_length : (n i : ℕ) (buf : List ℕ) → length (resample_from n i buf) ≡ length buf
unfolding resample_from
resample_length zero i buf = refl
resample_length (suc n) i buf = resample_length n (i + 1) _ ∙ length-set buf i _

resample_outside :
    (n i j : ℕ) (buf : List ℕ)
    → (j < i) ⊎ (i + n ≤ j)
    → get_or (resample_from n i buf) j 0 ≡ get_or buf j 0
unfolding resample_from
resample_outside zero i j buf h = refl
resample_outside (suc n) i j buf (inl h) =
    resample_outside n (i + 1) j _ (inl (omega arith))
    ∙ get_or-set_ne buf i j _ 0 (λ e. omega arith)
resample_outside (suc n) i j buf (inr h) =
    resample_outside n (i + 1) j _ (inr (omega arith))
    ∙ get_or-set_ne buf i j _ 0 (λ e. omega arith)

-- A write at `i` leaves the pixels behind `i` as they are.
gray_at-set : (buf : List ℕ) (i j v : ℕ) → i < j → gray_at (set buf i v) j ≡ gray_at buf j
gray_at-set buf i j v h =
    rw
      (
        get_or-set_ne buf i (3 * j) v 0 (λ e. omega arith),
        get_or-set_ne buf i (3 * j + 1) v 0 (λ e. omega arith),
        get_or-set_ne buf i (3 * j + 2) v 0 (λ e. omega arith),
      )
      refl

resample_inside :
    (n i j : ℕ) (buf : List ℕ)
    → i ≤ j
    → j < i + n
    → i + n ≤ length buf
    → get_or (resample_from n i buf) j 0 ≡ gray_at buf j
unfolding resample_from
resample_inside zero i j buf h k l = absurd (omega arith)
resample_inside (suc n) i j buf h k l = elim (ℕ_discrete i j) [
  | yes e ↦
      resample_outside n (i + 1) j _ (inl (omega arith))
      ∙ rw (← e) (get_or-set_self buf i (gray_at buf i) 0 (omega arith))
  | no e ↦
      resample_inside n (i + 1) j (set buf i (gray_at buf i)) (omega arith) (omega arith)
        (omega (arith, length-set buf i (gray_at buf i)))
      ∙ gray_at-set buf i j (gray_at buf i) (omega arith)
]

fill_outside :
    (n i j : ℕ) (buf : List ℕ)
    → (j < i) ⊎ (i + n ≤ j)
    → get_or (fill_white n i buf) j 0 ≡ get_or buf j 0
unfolding fill_white
fill_outside zero i j buf h = refl
fill_outside (suc n) i j buf (inl h) =
    fill_outside n (i + 1) j _ (inl (omega arith)) ∙ get_or-set_ne buf i j 0xff 0 (λ e. omega arith)
fill_outside (suc n) i j buf (inr h) =
    fill_outside n (i + 1) j _ (inr (omega arith)) ∙ get_or-set_ne buf i j 0xff 0 (λ e. omega arith)

fill_inside :
    (n i j : ℕ) (buf : List ℕ)
    → i ≤ j
    → j < i + n
    → i + n ≤ length buf
    → get_or (fill_white n i buf) j 0 ≡ 0xff
unfolding fill_white
fill_inside zero i j buf h k l = absurd (omega arith)
fill_inside (suc n) i j buf h k l = elim (ℕ_discrete i j) [
  | yes e ↦
      fill_outside n (i + 1) j _ (inl (omega arith))
      ∙ rw (← e) (get_or-set_self buf i 0xff 0 (omega arith))
  | no e ↦
      fill_inside n (i + 1) j (set buf i 0xff) (omega arith) (omega arith)
        (omega (arith, length-set buf i 0xff))
]

-- Byte `j` of a line of `bytes_per_line` bytes, from an image line of `len` pixels.
abbrev pub gray_line : ℕ → List ℕ → ℕ → ℕ
gray_line len buf j = if ltb j len then gray_at buf j else 0xff

-- Where the buffer holds `len` pixels of three bytes and a line of the client, byte `j` of the line
-- becomes the luminance of pixel `j` as it was before, and white behind the last pixel.
pub resample_lem :
    (len bytes_per_line : ℕ) (buf : List ℕ) (j : ℕ)
    → 3 * len ≤ length buf
    → bytes_per_line ≤ length buf
    → j < bytes_per_line
    → get_or (device_read_24_to_8_resample len bytes_per_line buf) j 0 ≡ gray_line len buf j
unfolding device_read_24_to_8_resample
resample_lem len bpl buf j a b h = elim (dec_lt j len) [
  | yes inside ↦
      let t : ltb j len ≡ true = ground arith in
      rw t (elim (dec_lt len bpl) [
        | yes short ↦
            let s : ltb len bpl ≡ true = ground arith in
            rw s (
              fill_outside (bpl - len) len j _ (inl inside)
              ∙ resample_inside len 0 j buf (omega arith) (omega arith) (omega arith))
        | no long ↦
            let s : ltb len bpl ≡ false = ground arith in
            rw s (resample_inside len 0 j buf (omega arith) (omega arith) (omega arith))
      ])
  | no behind ↦
      let t : ltb j len ≡ false = ground arith in
      let s : ltb len bpl ≡ true = ground arith in
      rw (t, s)
        (fill_inside (bpl - len) len j _ (omega arith) (omega arith)
          (omega (arith, resample_length len 0 buf)))
]

-- The luminance of bytes is a byte, and that of equal bytes is their value.
pub luma_lem : (r g b : ℕ) → r < 256 → g < 256 → b < 256 → (luma r g b < 256) × (luma r r r ≡ r)
unfolding luma
luma_lem r g b x y z = (omega arith, omega arith)
