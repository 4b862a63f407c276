-- ===== src/Http/Lookup.antt =====
-- http_hdr as a map from names to values, in which case does not matter.
use sane_airscan.Base.{
  ◌≡◌, refl, ◌∙◌, true, false, none, some, List, [], ◌∷◌, if◌then◌else◌, arith, Bool-cases, inl,
  inr,
}
use sane_airscan.Uuid.{Text}
use sane_airscan.Id.{same_name}
use sane_airscan.Http.Header.{
  HttpHdrField, value_text, http_hdr_lookup, http_hdr_get, http_hdr_set, http_hdr_del,
}

same_left : (a b c : Text) → same_name a b ≡ true → same_name a c ≡ same_name b c
unfolding same_name
same_left [] [] c h = refl
same_left [] (y ∷ b) c h = cc
same_left (x ∷ a) [] c h = cc
same_left (x ∷ a) (y ∷ b) [] h = refl
same_left (x ∷ a) (y ∷ b) (z ∷ c) h = ground (arith, same_left a b c)

same_refl : (a : Text) → same_name a a ≡ true
unfolding same_name
same_refl [] = refl
same_refl (x ∷ a) = ground (arith, same_refl a)

same-flip : (a b : Text) → same_name a b ≡ same_name b a
unfolding same_name
same-flip [] [] = refl
same-flip [] (y ∷ b) = refl
same-flip (x ∷ a) [] = refl
same-flip (x ∷ a) (y ∷ b) = ground (arith, same-flip a b)

-- Two names that compare as the same as a third.
same_both : (a b c : Text) → same_name a c ≡ true → same_name b c ≡ true → same_name a b ≡ true
same_both a b c h k = same_left a c b h ∙ same-flip c b ∙ k

module _ (field : HttpHdrField) (hdr : List HttpHdrField) where
  get-here :
      (name : Text)
      → same_name field.name name ≡ true
      → http_hdr_get (field ∷ hdr) name ≡ some (value_text field)
  unfolding http_hdr_get http_hdr_lookup
  get-here name e = rw e refl

  get-later :
      (name : Text)
      → same_name field.name name ≡ false
      → http_hdr_get (field ∷ hdr) name ≡ http_hdr_get hdr name
  unfolding http_hdr_get http_hdr_lookup
  get-later name e = rw e refl

  get-cons :
      (name : Text)
      → http_hdr_get (field ∷ hdr) name
        ≡ (if same_name field.name name then some (value_text field) else http_hdr_get hdr name)
  get-cons name = elim (Bool-cases (same_name field.name name)) [
    | inl e ↦ rw (get-here name e, e) refl
    | inr e ↦ rw (get-later name e, e) refl
  ]

get-set :
    (hdr : List HttpHdrField) (name value other : Text)
    → http_hdr_get (http_hdr_set hdr name value) other
      ≡ (if same_name name other then some value else http_hdr_get hdr other)
unfolding http_hdr_set
get-set [] name value other = get-cons _ [] other
get-set (field ∷ hdr) name value other = elim (Bool-cases (same_name field.name name)) [
  | inl e ↦ rw e (
      ground (
        arith,
        get-cons (record field { value = some value }) hdr other,
        get-cons field hdr other,
        same_left field.name name other e,
      ))
  | inr e ↦ rw e (
      ground (
        arith,
        get-cons field (http_hdr_set hdr name value) other,
        get-cons field hdr other,
        get-set hdr name value other,
        same_both field.name name other,
      ))
]

-- No two fields have the same name.
abbrev pub IsUnique : List HttpHdrField → Type 0
IsUnique [] = Unit
IsUnique (field ∷ hdr) = (http_hdr_get hdr field.name ≡ none) × IsUnique hdr

get-same :
    (hdr : List HttpHdrField) (a b : Text)
    → same_name a b ≡ true
    → http_hdr_get hdr a ≡ http_hdr_get hdr b
unfolding http_hdr_get http_hdr_lookup
get-same [] a b h = refl
get-same (field ∷ hdr) a b h = ground (
  arith,
  get-cons field hdr a,
  get-cons field hdr b,
  get-same hdr a b h,
  same_left a b field.name h,
  same-flip a field.name,
  same-flip b field.name,
)

get-del :
    (hdr : List HttpHdrField) (name other : Text)
    → IsUnique hdr
    → http_hdr_get (http_hdr_del hdr name) other
      ≡ (if same_name name other then none else http_hdr_get hdr other)
unfolding http_hdr_del http_hdr_get http_hdr_lookup
get-del [] name other u = ground arith
get-del (field ∷ hdr) name other (h, u) = elim (Bool-cases (same_name field.name name)) [
  | inl e ↦ rw e (
      ground (
        arith,
        h,
        get-cons field hdr other,
        same_left field.name name other e,
        get-same hdr field.name other,
      ))
  | inr e ↦ rw e (
      ground (
        arith,
        get-cons field (http_hdr_del hdr name) other,
        get-cons field hdr other,
        get-del hdr name other u,
        same_both field.name name other,
      ))
]

set-IsUnique :
    (hdr : List HttpHdrField) (name value : Text)
    → IsUnique hdr
    → IsUnique (http_hdr_set hdr name value)
unfolding http_hdr_set http_hdr_get http_hdr_lookup
set-IsUnique [] name value u = (refl, tt)
set-IsUnique (field ∷ hdr) name value (h, u) = elim (Bool-cases (same_name field.name name)) [
  | inl e ↦ rw e (h, u)
  | inr e ↦ rw e (
    ground (arith, h, get-set hdr name value field.name, e, same-flip name field.name),
    set-IsUnique hdr name value u,
  )
]

del-IsUnique :
    (hdr : List HttpHdrField) (name : Text) → IsUnique hdr → IsUnique (http_hdr_del hdr name)
unfolding http_hdr_del
del-IsUnique [] name u = tt
del-IsUnique (field ∷ hdr) name (h, u) = elim (Bool-cases (same_name field.name name)) [
  | inl e ↦ rw e u
  | inr e ↦ rw e (ground (arith, h, get-del hdr name field.name u), del-IsUnique hdr name u)
]

-- For a header in which no two fields have the same name but for case, two names and a value: setting and
-- deleting the first keep it so; after setting it, the other name has the value when it is the same but for
-- case, and what it had otherwise; after deleting it, the other name has nothing when it is the same but
-- for case, and what it had otherwise.
pub header_map :
    (hdr : List HttpHdrField) (name value other : Text)
    → IsUnique hdr
    → IsUnique (http_hdr_set hdr name value)
      × IsUnique (http_hdr_del hdr name)
      × (http_hdr_get (http_hdr_set hdr name value) other
          ≡ (if same_name name other then some value else http_hdr_get hdr other))
      × (http_hdr_get (http_hdr_del hdr name) other
          ≡ (if same_name name other then none else http_hdr_get hdr other))
header_map hdr name value other u = (
  set-IsUnique hdr name value u,
  del-IsUnique hdr name u,
  get-set hdr name value other,
  get-del hdr name other u,
)
