-- ===== src/Device/Geom/Window.antt =====
-- The window that is asked of the scanner, and the format of the image.
use Prim.Native.Nat.{bit_and}
use sane_airscan.Base.{
  ℕ, zero, suc, ◌<◌, ◌≡◌, refl, ◌⊎◌, inl, inr, ◌≢◌, ap, Bool, true, not, ◌&&◌, ◌==◌, if◌then◌else◌,
  arith,
}
use sane_airscan.Base.Int.{ℤ, pos, ◌+ℤ◌, ◌-ℤ◌, ◌≤ℤ◌, int_laws, ltb_ℤ-cases}
use sane_airscan.Math.{math_max, math_bound, math_muldiv}
use sane_airscan.Device.Geom.{
  Geom, clip_geom, device_geom_compute, format_bit, formats_supported, device_choose_format,
}

-- The window `g` for a request that starts at `off`.
pub record FitsWindow (off minlen maxlen res units : ℤ) (g : Geom) : Type 0 where
  pub not_empty : pos 1 ≤ℤ g.len
  pub long_enough : minlen ≤ℤ g.len
  pub not_longer : g.len ≤ℤ maxlen
  pub not_before : pos 0 ≤ℤ g.off
  pub ends_inside : g.off +ℤ g.len ≤ℤ maxlen
  pub moved :
      ((g.off ≡ off) × (g.skip ≡ pos 0))
      ⊎ ((g.off +ℤ g.len ≡ maxlen)
          × (g.off +ℤ pos 1 ≤ℤ off)
          × (g.skip ≡ math_muldiv (off -ℤ g.off) res units))

max_le :
    (a b m : ℤ) → a ≤ℤ m → b ≤ℤ m → (math_max a b ≤ℤ m) × (a ≤ℤ math_max a b) × (b ≤ℤ math_max a b)
unfolding math_max
max_le a b m h k = elim (ltb_ℤ-cases b a) [
  | inl (e, lt) ↦ rw e (h, omega arith, omega int_laws)
  | inr (e, le) ↦ rw e (k, le, omega arith)
]

bound_within : (x lo hi : ℤ) → lo ≤ℤ hi → (lo ≤ℤ math_bound x lo hi) × (math_bound x lo hi ≤ℤ hi)
unfolding math_bound
bound_within x lo hi h = elim (ltb_ℤ-cases x lo) [
  | inl (e, _) ↦ rw e (omega arith, h)
  | inr (e, a) ↦ elim (ltb_ℤ-cases hi x) [
    | inl (f, _) ↦ rw (e, f) (h, omega arith)
    | inr (f, b) ↦ rw (e, f) (a, b)
  ]
]

clip_lem :
    (off len minlen maxlen res units : ℤ)
    → pos 0 ≤ℤ off
    → pos 1 ≤ℤ len
    → minlen ≤ℤ len
    → len ≤ℤ maxlen
    → FitsWindow off minlen maxlen res units (clip_geom off len maxlen res units)
unfolding clip_geom
clip_lem off len minlen maxlen res units o l m h = elim (ltb_ℤ-cases maxlen (off +ℤ len)) [
  | inl (e, over) ↦ rw e (record {
    not_empty = l;
    long_enough = m;
    not_longer = h;
    not_before = omega int_laws;
    ends_inside = omega int_laws;
    moved =
        inr (omega int_laws, omega int_laws, ap (λ t. math_muldiv t res units) (omega int_laws));
  })
  | inr (e, fits) ↦ rw e (record {
    not_empty = l;
    long_enough = m;
    not_longer = h;
    not_before = o;
    ends_inside = fits;
    moved = inl (refl, refl);
  })
]

-- For a start that is not negative, and limits of the scanner that admit a pixel, the window that
-- device_geom_compute gives is at least a pixel and at least `minlen` long, lies in the scanner's
-- range from 0 to `maxlen`, and either starts where it was asked to, with nothing to skip, or ends
-- at `maxlen`, and the pixels by which it starts too early are to be skipped at the scan resolution.
pub geom_window :
    (mm2px : ℤ → ℤ → ℤ) (tl br minlen maxlen res units : ℤ)
    → pos 0 ≤ℤ mm2px tl units
    → minlen ≤ℤ maxlen
    → pos 1 ≤ℤ maxlen
    → FitsWindow
        (mm2px tl units)
        minlen
        maxlen
        res
        units
        (device_geom_compute mm2px tl br minlen maxlen res units)
unfolding device_geom_compute
geom_window mm2px tl br minlen maxlen res units o h one =
    let (m, a, b) = max_le minlen (pos 1) maxlen h one in
    let (lo, hi) = bound_within (mm2px (br -ℤ tl) units) (math_max minlen (pos 1)) maxlen m in
    clip_lem (mm2px tl units) _ minlen maxlen res units o (omega arith) (omega arith) hi

-- The format is one that the scanner has and a decoder is there for, or none of them is.
good_choice : ℕ → Bool
good_choice n =
    if bit_and n formats_supported == 0
    then format_bit (device_choose_format n) == 0
    else not (bit_and n (format_bit (device_choose_format n)) == 0)
      && not (bit_and formats_supported (format_bit (device_choose_format n)) == 0)

all_below : ℕ → (ℕ → Bool) → Bool
all_below zero f = true
all_below (suc n) f = f n && all_below n f

all_below_sound : (n : ℕ) (f : ℕ → Bool) (x : ℕ) → all_below n f ≡ true → x < n → f x ≡ true
unfolding all_below
all_below_sound zero f x h lt = absurd (omega arith)
all_below_sound (suc n) f x h lt = ground (arith, all_below_sound n f x)

choices : all_below 32 good_choice ≡ true
unfolding all_below good_choice device_choose_format
choices = refl

-- For every set of the five formats, device_choose_format returns a format that is in the set and is
-- supported by a decoder, or UNKNOWN, and this exactly where the set has no supported format.
pub choose_format_lem :
    (formats : ℕ)
    → formats < 32
    → (bit_and formats formats_supported ≡ 0 → format_bit (device_choose_format formats) ≡ 0)
      × (bit_and formats formats_supported ≢ 0
          → (bit_and formats (format_bit (device_choose_format formats)) ≢ 0)
            × (bit_and formats_supported (format_bit (device_choose_format formats)) ≢ 0))
unfolding good_choice
choose_format_lem formats h =
    let t = all_below_sound 32 good_choice formats choices h in
    (λ z. ground arith, λ nz. ground arith)
