-- ===== src/Array/Bound.antt =====
-- sane_word_array_bound against the words within the bounds.
use sane_airscan.Base.{
  ℕ, zero, suc, ◌+◌, ◌≤◌, ◌<◌, ◌≡◌, refl, ap, ◌∙◌, inl, inr, ◌&&◌, List, [], ◌∷◌, ◌++◌, get_or, set,
  take, drop, length, length-set, if◌then◌else◌, arith, Bool-cases,
}
use mathlib.Core.List.{append_assoc}
use sane_airscan.Base.Int.{ℤ, pos, leb_ℤ}
use sane_airscan.Array.{bound_from, sane_word_array_bound}

-- The words within the bounds.
pub within : ℤ → ℤ → List ℤ → List ℤ
within lo hi [] = []
within lo hi (w ∷ a) = if leb_ℤ lo w && leb_ℤ w hi then w ∷ within lo hi a else within lo hi a

take-set_next :
    (a : List ℤ) (o : ℕ) (w : ℤ) → o < length a → take (suc o) (set a o w) ≡ take o a ++ w ∷ []
take-set_next [] o w h = absurd (omega arith)
take-set_next (x ∷ a) zero w h = refl
take-set_next (x ∷ a) (suc o) w h = ap (λ t. x ∷ t) (take-set_next a o w (omega arith))

drop-set_before : (a : List ℤ) (i o : ℕ) (w : ℤ) → o ≤ i → drop (suc i) (set a o w) ≡ drop (suc i) a
drop-set_before [] i o w h = refl
drop-set_before (x ∷ a) zero zero w h = refl
drop-set_before (x ∷ a) (suc i) zero w h = refl
drop-set_before (x ∷ a) zero (suc o) w h = absurd (omega arith)
drop-set_before (x ∷ a) (suc i) (suc o) w h = drop-set_before a i o w (omega arith)

drop_next : (a : List ℤ) (i : ℕ) → i < length a → drop i a ≡ get_or a i (pos 0) ∷ drop (suc i) a
drop_next [] i h = absurd (omega arith)
drop_next (x ∷ a) zero h = refl
drop_next (x ∷ a) (suc i) h = drop_next a i (omega arith)

drop_all : (a : List ℤ) (i : ℕ) → i ≡ length a → drop i a ≡ []
drop_all [] zero e = refl
drop_all [] (suc i) e = refl
drop_all (x ∷ a) zero e = absurd (omega arith)
drop_all (x ∷ a) (suc i) e = drop_all a i (omega arith)

append_nil : (a : List ℤ) → a ≡ a ++ []
append_nil [] = refl
append_nil (x ∷ a) = ap (λ t. x ∷ t) (append_nil a)

bound_from_lem :
    (lo hi : ℤ) (n i o : ℕ) (a : List ℤ)
    → o ≤ i
    → i + n ≡ length a
    → bound_from lo hi n i o a ≡ take o a ++ within lo hi (drop i a)
unfolding bound_from within
bound_from_lem lo hi zero i o a h e = rw (drop_all a i (omega arith)) (append_nil (take o a))
bound_from_lem lo hi (suc n) i o a h e =
    elim (Bool-cases (leb_ℤ lo (get_or a i (pos 0)) && leb_ℤ (get_or a i (pos 0)) hi)) [
      | inl keep ↦
          rw (drop_next a i (omega arith), keep)
            (bound_from_lem lo hi n (suc i) (suc o) (set a o (get_or a i (pos 0))) (omega arith)
                (omega (arith, length-set a o (get_or a i (pos 0))))
              ∙ rw
                  (
                    take-set_next a o (get_or a i (pos 0)) (omega arith),
                    drop-set_before a i o (get_or a i (pos 0)) h,
                  )
                  (append_assoc (take o a) (get_or a i (pos 0) ∷ [])
                    (within lo hi (drop (suc i) a))))
      | inr lose ↦
          rw (drop_next a i (omega arith), lose)
            (bound_from_lem lo hi n (suc i) o a (omega arith) (omega arith))
    ]

-- sane_word_array_bound leaves the words from `lo` to `hi`, in their order.
pub bound_lem : (a : List ℤ) (lo hi : ℤ) → sane_word_array_bound a lo hi ≡ within lo hi a
unfolding sane_word_array_bound
bound_lem a lo hi = bound_from_lem lo hi (length a) 0 0 a (omega arith) (omega arith)
