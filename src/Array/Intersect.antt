-- ===== src/Array/Intersect.antt =====
-- sane_word_array_intersect_sorted against membership.
use sane_airscan.Base.{
  ℕ, zero, suc, ◌+◌, ◌≤◌, ◌≡◌, refl, sym, ap, ◌∙◌, inl, inr, Bool, true, false, ◌&&◌, ◌||◌, List,
  [], ◌∷◌, length, arith, Bool-cases,
}
use sane_airscan.Base.Int.{ℤ, leb_ℤ, ltb_ℤ, eqb_ℤ, eqb_ℤ-eq}
use sane_airscan.Array.{sane_word_array_append, intersect_from, sane_word_array_intersect_sorted}

unfoldable pub has : ℤ → List ℤ → Bool
has w [] = false
has w (x ∷ a) = eqb_ℤ x w || has w a

-- No word of the array is below `w`.
unfoldable pub is_above : ℤ → List ℤ → Bool
is_above w [] = true
is_above w (x ∷ a) = leb_ℤ w x && is_above w a

unfoldable pub is_sorted : List ℤ → Bool
unfolding is_above
is_sorted [] = true
is_sorted (x ∷ a) = is_above x a && is_sorted a

has-append : (w v : ℤ) (a : List ℤ) → has w (sane_word_array_append a v) ≡ (has w a || eqb_ℤ v w)
unfolding has sane_word_array_append
has-append w v [] = ground arith
has-append w v (x ∷ a) = ground (arith, has-append w v a)

-- A word below the first of a sorted array is not in it.
below_all : (w x : ℤ) (a : List ℤ) → ltb_ℤ w x ≡ true → is_above x a ≡ true → has w a ≡ false
unfolding has is_above
below_all w x [] h k = refl
below_all w x (y ∷ a) h k = ground (arith, below_all w x a)

below_has :
    (w x : ℤ) (a : List ℤ) → ltb_ℤ w x ≡ true → is_sorted (x ∷ a) ≡ true → has w (x ∷ a) ≡ false
unfolding has is_sorted
below_has w x a h k = ground (arith, below_all w x a)

tail_sorted : (x : ℤ) (a : List ℤ) → is_sorted (x ∷ a) ≡ true → is_sorted a ≡ true
unfolding is_sorted
tail_sorted x a h = ground arith

neither_below : (x y : ℤ) → ltb_ℤ x y ≡ false → ltb_ℤ y x ≡ false → x ≡ y
neither_below x y h k = ground arith

-- What a round finds: a word that stands in both arrays is not below the first word of either.
drop_first :
    (w x y : ℤ) (a1 a2 : List ℤ)
    → ltb_ℤ x y ≡ true
    → is_sorted (y ∷ a2) ≡ true
    → (has w (x ∷ a1) && has w (y ∷ a2)) ≡ (has w a1 && has w (y ∷ a2))
unfolding has
drop_first w x y a1 a2 h s = elim (Bool-cases (eqb_ℤ x w)) [
  | inl e ↦
      let absent : has x (y ∷ a2) ≡ false = below_has x y a2 h s in
      rw (← eqb_ℤ-eq x w e) (ground (arith, absent))
  | inr n ↦ ground arith
]

intersect_from_lem :
    (n : ℕ) (out a1 a2 : List ℤ) (w : ℤ)
    → length a1 + length a2 ≤ n
    → is_sorted a1 ≡ true
    → is_sorted a2 ≡ true
    → has w (intersect_from n out a1 a2) ≡ (has w out || (has w a1 && has w a2))
unfolding intersect_from
intersect_from_lem zero out [] a2 w l s t = unfold has in ground arith
intersect_from_lem zero out (x ∷ a1) a2 w l s t = absurd (omega arith)
intersect_from_lem (suc n) out [] a2 w l s t = unfold has in ground arith
intersect_from_lem (suc n) out (x ∷ a1) [] w l s t = unfold has in ground arith
intersect_from_lem (suc n) out (x ∷ a1) (y ∷ a2) w l s t = elim (Bool-cases (ltb_ℤ x y)) [
  | inl lt ↦ rw lt (
      intersect_from_lem n out a1 (y ∷ a2) w (omega arith) (tail_sorted x a1 s) t
      ∙ ap (λ b. has w out || b) (sym (drop_first w x y a1 a2 lt t)))
  | inr ge ↦ elim (Bool-cases (ltb_ℤ y x)) [
    | inl gt ↦
        rw (ge, gt)
          (intersect_from_lem n out (x ∷ a1) a2 w (omega arith) s (tail_sorted y a2 t)
            ∙ ap (λ b. has w out || b) (exchanged gt))
    | inr le ↦
        rw (ge, le)
          (intersect_from_lem n (sane_word_array_append out x) a1 a2 w (omega arith)
              (tail_sorted x a1 s) (tail_sorted y a2 t)
            ∙ rw (has-append w x out) (common ge le))
  ]
]
  where
    exchanged : ltb_ℤ y x ≡ true → (has w (x ∷ a1) && has w a2) ≡ (has w (x ∷ a1) && has w (y ∷ a2))
    exchanged gt = ground (arith, drop_first w y x a2 a1 gt s)

    common :
        ltb_ℤ x y ≡ false
        → ltb_ℤ y x ≡ false
        → ((has w out || eqb_ℤ x w) || (has w a1 && has w a2))
          ≡ (has w out || (has w (x ∷ a1) && has w (y ∷ a2)))
    common ge le = unfold has in rw (← neither_below x y ge le) ground arith

-- For sorted arrays the loop ends within as many rounds as they have words, and the result has exactly
-- the words of both.
pub intersect_lem :
    (a1 a2 : List ℤ) (w : ℤ)
    → is_sorted a1 ≡ true
    → is_sorted a2 ≡ true
    → has w (sane_word_array_intersect_sorted a1 a2) ≡ (has w a1 && has w a2)
unfolding sane_word_array_intersect_sorted has
intersect_lem a1 a2 w s t = intersect_from_lem (length a1 + length a2) [] a1 a2 w (omega arith) s t
