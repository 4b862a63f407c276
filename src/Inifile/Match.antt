-- ===== src/Inifile/Match.antt =====
-- inifile_match_name against the comparison of normal forms.
use sane_airscan.Base.{
  ℕ, zero, suc, ◌≤◌, ◌≡◌, refl, sym, ◌∙◌, inl, inr, Bool, true, false, not, ◌&&◌, [], ◌∷◌, ◌==◌,
  if◌then◌else◌, length, arith, Bool-cases,
}
use sane_airscan.Uuid.{Text}
use sane_airscan.Inifile.File.{is_space, to_upper}
use sane_airscan.Inifile.Record.{skip_spaces, match_loop, is_end, inifile_match_name}

-- A name in its normal form: no space at its beginning and at its end, one space for each run of
-- spaces inside, and upper-case letters. `pad` says that a run of spaces has been passed.
pub normal_from : Bool → Text → Text
normal_from pad [] = []
normal_from pad (c ∷ s) =
    let spaces = normal_from true s in
    let chars = to_upper c ∷ normal_from false s in
    if is_space c then spaces else if pad then 32 ∷ chars else chars

pub normal_name : Text → Text
normal_name s = normal_from false (skip_spaces s)

pub same_text : Text → Text → Bool
same_text [] [] = true
same_text (a ∷ s) (b ∷ t) = a == b && same_text s t
same_text _ _ = false

normal-skip : (s : Text) → normal_from true (skip_spaces s) ≡ normal_from true s
unfolding normal_from skip_spaces
normal-skip [] = refl
normal-skip (c ∷ s) = ground (arith, normal-skip s)

skip-length : (s : Text) → length (skip_spaces s) ≤ length s
unfolding skip_spaces
skip-length [] = omega arith
skip-length (c ∷ s) = ground (arith, skip-length s)

-- The spaces that stand first, if any, have been passed.
pub starts_bare : Text → Bool
starts_bare [] = true
starts_bare (c ∷ s) = not (is_space c)

skip-bare : (s : Text) → starts_bare (skip_spaces s) ≡ true
unfolding skip_spaces starts_bare
skip-bare [] = refl
skip-bare (c ∷ s) = ground (arith, skip-bare s)

-- Behind passed spaces, a name that is not at its end begins with one space.
pad_bare :
    (s t : Text)
    → starts_bare s ≡ true
    → starts_bare t ≡ true
    → same_text (normal_from true s) (normal_from true t)
      ≡ same_text (normal_from false s) (normal_from false t)
unfolding normal_from starts_bare same_text
pad_bare [] [] h k = refl
pad_bare [] (b ∷ t) h k = ground arith
pad_bare (a ∷ s) [] h k = ground arith
pad_bare (a ∷ s) (b ∷ t) h k = ground arith

-- What is left of both names is nothing but spaces.
abbrev both_end : Text × Text → Bool
both_end (r1, r2) = is_end (skip_spaces r1) && is_end (skip_spaces r2)

end_normal : (pad : Bool) (s : Text) → is_end (skip_spaces s) ≡ is_end (normal_from pad s)
unfolding normal_from skip_spaces
end_normal pad [] = refl
end_normal pad (c ∷ s) = ground (arith, end_normal true s)

same_end : (t : Text) → same_text [] t ≡ is_end t
unfolding same_text
same_end [] = refl
same_end (_ ∷ _) = refl

same_end_left : (t : Text) → same_text t [] ≡ is_end t
unfolding same_text
same_end_left [] = refl
same_end_left (_ ∷ _) = refl

upper_bare : (c : ℕ) → is_space c ≡ false → (to_upper c == 32) ≡ false
unfolding to_upper
upper_bare c h = ground arith

upper_space :
    (c d : ℕ) → is_space d ≡ true → is_space c ≡ false → (to_upper c == to_upper d) ≡ false
unfolding to_upper
upper_space c d h k = ground arith

-- Spaces on one side only make a difference, unless nothing else is to come.
space_char :
    (s u : Text) (b : ℕ)
    → is_space b ≡ false
    → same_text (normal_from true s) (to_upper b ∷ u) ≡ false
unfolding normal_from same_text
space_char [] u b h = refl
space_char (c ∷ s) u b h = ground (arith, space_char s u b h, upper_bare b h)

same_text_sym : (s t : Text) → same_text s t ≡ same_text t s
unfolding same_text
same_text_sym [] [] = refl
same_text_sym [] (_ ∷ _) = refl
same_text_sym (_ ∷ _) [] = refl
same_text_sym (a ∷ s) (b ∷ t) = ground (arith, same_text_sym s t)

module _ (a b : ℕ) (s t : Text) where
  both_spaces :
      is_space a ≡ true
      → is_space b ≡ true
      → same_text (normal_from false (skip_spaces s)) (normal_from false (skip_spaces t))
        ≡ same_text (normal_from false (a ∷ s)) (normal_from false (b ∷ t))
  both_spaces h k =
      sym (pad_bare (skip_spaces s) (skip_spaces t) (skip-bare s) (skip-bare t))
      ∙ (λ i. same_text (normal-skip s i) (normal-skip t i))
      ∙ unfold normal_from in rw (h, k) refl

  one_space :
      is_space a ≡ true
      → is_space b ≡ false
      → false ≡ same_text (normal_from false (a ∷ s)) (normal_from false (b ∷ t))
  unfolding normal_from
  one_space h k = rw (h, k) (sym (space_char s (normal_from false t) b k))

  same_char :
      is_space a ≡ false
      → (to_upper a == to_upper b) ≡ true
      → same_text (normal_from false s) (normal_from false t)
        ≡ same_text (normal_from false (a ∷ s)) (normal_from false (b ∷ t))
  same_char h k = elim (Bool-cases (is_space b)) [
    | inl y ↦ cc (upper_space a b y h)
    | inr n ↦ unfold normal_from same_text in ground arith
  ]

  other_char :
      is_space a ≡ false
      → (to_upper a == to_upper b) ≡ false
      → false ≡ same_text (normal_from false (a ∷ s)) (normal_from false (b ∷ t))
  other_char h k = elim (Bool-cases (is_space b)) [
    | inl y ↦
        unfold normal_from in
        rw (h, y)
          (sym (
            same_text_sym (to_upper a ∷ normal_from false s) (normal_from true t)
            ∙ space_char t (normal_from false s) a h))
    | inr n ↦ unfold normal_from same_text in ground arith
  ]

empty_left : (t : Text) → both_end ([], t) ≡ same_text (normal_from false []) (normal_from false t)
unfolding skip_spaces normal_from
empty_left t = end_normal false t ∙ sym (same_end (normal_from false t))

and_true : (x : Bool) → (x && true) ≡ x
and_true x = ground arith

empty_right : (s : Text) → both_end (s, []) ≡ same_text (normal_from false s) (normal_from false [])
unfolding skip_spaces normal_from
empty_right s =
    and_true (is_end (skip_spaces s))
    ∙ end_normal false s
    ∙ sym (same_end_left (normal_from false s))

match_loop_lem :
    (n : ℕ) (s t : Text)
    → length s ≤ n
    → both_end (match_loop n s t) ≡ same_text (normal_from false s) (normal_from false t)
unfolding match_loop
match_loop_lem zero [] t h = empty_left t
match_loop_lem zero (a ∷ s) t h = absurd (omega arith)
match_loop_lem (suc n) [] t h = empty_left t
match_loop_lem (suc n) (a ∷ s) [] h = empty_right (a ∷ s)
match_loop_lem (suc n) (a ∷ s) (b ∷ t) h = elim (Bool-cases (is_space a)) [
  | inl y ↦ elim (Bool-cases (is_space b)) [
    | inl z ↦
        rw (y, z)
          (match_loop_lem n (skip_spaces s) (skip_spaces t) (omega (arith, skip-length s))
            ∙ both_spaces a b s t y z)
    | inr z ↦ rw (y, z) (unfold skip_spaces in ground arith) ∙ one_space a b s t y z
  ]
  | inr y ↦ elim (Bool-cases (to_upper a == to_upper b)) [
    | inl z ↦ rw (y, z) (match_loop_lem n s t (omega arith)) ∙ same_char a b s t y z
    | inr z ↦ rw (y, z) (unfold skip_spaces in ground arith) ∙ other_char a b s t y z
  ]
]

-- Two names match exactly where their normal forms are the same.
pub match_name_lem :
    (n1 n2 : Text) → inifile_match_name n1 n2 ≡ same_text (normal_name n1) (normal_name n2)
unfolding inifile_match_name normal_name
match_name_lem n1 n2 = match_loop_lem (length n1) (skip_spaces n1) (skip_spaces n2) (skip-length n1)
