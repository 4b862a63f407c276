-- ===== src/Array.antt =====
-- airscan-array.c: arrays of SANE_Word. The length in the first word is the length of the list, whose
-- positions are those of the array less one.
pub mod Bound
pub mod Intersect
use sane_airscan.Base.{
  ℕ, zero, suc, ◌+◌, Bool, true, false, ◌&&◌, List, [], ◌∷◌, ◌++◌, get_or, set, take, length,
  if◌then◌else◌, max,
}
use sane_airscan.Base.Int.{ℤ, pos, leb_ℤ, ltb_ℤ}

unfoldable pub sane_word_array_append : List ℤ → ℤ → List ℤ
sane_word_array_append a w = a ++ w ∷ []

-- `n` rounds of the loop of sane_word_array_bound, from position `i` on; the words that stay go to
-- position `o`. The result is the array cut to the last `o`.
unfoldable pub bound_from : ℤ → ℤ → ℕ → ℕ → ℕ → List ℤ → List ℤ
bound_from lo hi zero i o a = take o a
bound_from lo hi (suc n) i o a =
    let w = get_or a i (pos 0) in
    let kept = bound_from lo hi n (suc i) (suc o) (set a o w) in
    let dropped = bound_from lo hi n (suc i) o a in
    if leb_ℤ lo w && leb_ℤ w hi then kept else dropped

unfoldable pub sane_word_array_bound : List ℤ → ℤ → ℤ → List ℤ
sane_word_array_bound a lo hi = bound_from lo hi (length a) 0 0 a

-- The loop of sane_word_array_intersect_sorted, on fuel. The two lists are what is left of the arrays.
unfoldable pub intersect_from : ℕ → List ℤ → List ℤ → List ℤ → List ℤ
intersect_from zero out a1 a2 = out
intersect_from (suc n) out [] a2 = out
intersect_from (suc n) out (x ∷ a1) [] = out
intersect_from (suc n) out (x ∷ a1) (y ∷ a2) =
    let first = intersect_from n out a1 (y ∷ a2) in
    let second = intersect_from n out (x ∷ a1) a2 in
    let both = intersect_from n (sane_word_array_append out x) a1 a2 in
    if ltb_ℤ x y then first else if ltb_ℤ y x then second else both

-- Each round takes a word off one of the arrays.
unfoldable pub sane_word_array_intersect_sorted : List ℤ → List ℤ → List ℤ
sane_word_array_intersect_sorted a1 a2 = intersect_from (length a1 + length a2) [] a1 a2

-- A string counts by its length.
unfoldable pub sane_string_array_max_strlen : List (List ℕ) → ℕ
sane_string_array_max_strlen [] = 0
sane_string_array_max_strlen (s ∷ a) = max (length s) (sane_string_array_max_strlen a)
