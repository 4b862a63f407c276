-- ===== src/Http/Pieces.antt =====
-- A header as the parser's callbacks build it, piece by piece.
use sane_airscan.Base.{
  arith, ◌≡◌, refl, sym, ap, ◌∙◌, Bool, true, false, none, some, List, [], ◌∷◌, ◌++◌,
}
use mathlib.Core.List.{append_assoc, append-nil, map}
use sane_airscan.Uuid.{Text}
use sane_airscan.Http.Header.{
  HttpHdrField, value_text, http_hdr_on_header_field, http_hdr_on_header_value,
}

-- A field as the parser hands it over: its name and then its value, each in one piece or more.
pub record Pieces : Type 0 where
  pub name : Text
  pub more_name : List Text
  pub value : Text
  pub more_value : List Text

pub names_fed : List HttpHdrField → List Text → List HttpHdrField
names_fed hdr [] = hdr
names_fed hdr (piece ∷ list) = names_fed (http_hdr_on_header_field hdr piece) list

pub values_fed : List HttpHdrField → List Text → List HttpHdrField
values_fed hdr [] = hdr
values_fed hdr (piece ∷ list) = values_fed (http_hdr_on_header_value hdr piece) list

-- The callbacks of the parser, in their order.
pub fed : List HttpHdrField → List Pieces → List HttpHdrField
unfolding names_fed values_fed
fed hdr [] = hdr
fed hdr (p ∷ list) =
    fed (values_fed (names_fed hdr (p.name ∷ p.more_name)) (p.value ∷ p.more_value)) list

abbrev pub joined : List Text → Text
joined [] = []
joined (piece ∷ list) = piece ++ joined list

-- The field in one piece.
abbrev pub whole : Pieces → HttpHdrField
whole p = record {
  name = p.name ++ joined p.more_name;
  value = some (p.value ++ joined p.more_value);
}

abbrev has_value : HttpHdrField → Bool
has_value field = elim field.value [ none ↦ false | some _ ↦ true ]

-- The last field, if any, has a value.
abbrev pub is_complete : List HttpHdrField → Bool
is_complete [] = true
is_complete (field ∷ []) = has_value field
is_complete (field ∷ next ∷ hdr) = is_complete (next ∷ hdr)

starts_field :
    (hdr : List HttpHdrField) (piece : Text)
    → is_complete hdr ≡ true
    → http_hdr_on_header_field hdr piece ≡ hdr ++ record { name = piece; value = none } ∷ []
unfolding http_hdr_on_header_field
starts_field [] piece h = refl
starts_field (field ∷ []) piece h = ground arith
starts_field (field ∷ next ∷ hdr) piece h = ap (λ l. field ∷ l) (starts_field (next ∷ hdr) piece h)

goes_on :
    (hdr : List HttpHdrField) (name piece : Text)
    → http_hdr_on_header_field (hdr ++ record { name = name; value = none } ∷ []) piece
      ≡ hdr ++ record { name = name ++ piece; value = none } ∷ []
unfolding http_hdr_on_header_field
goes_on [] name piece = refl
goes_on (field ∷ []) name piece = refl
goes_on (field ∷ next ∷ hdr) name piece = ap (λ l. field ∷ l) (goes_on (next ∷ hdr) name piece)

takes_value :
    (hdr : List HttpHdrField) (field : HttpHdrField) (piece : Text)
    → http_hdr_on_header_value (hdr ++ field ∷ []) piece
      ≡ hdr ++ record field { value = some (value_text field ++ piece) } ∷ []
unfolding http_hdr_on_header_value
takes_value [] field piece = refl
takes_value (x ∷ []) field piece = refl
takes_value (x ∷ next ∷ hdr) field piece = ap (λ l. x ∷ l) (takes_value (next ∷ hdr) field piece)

names_lem :
    (hdr : List HttpHdrField) (name : Text) (list : List Text)
    → names_fed (hdr ++ record { name = name; value = none } ∷ []) list
      ≡ hdr ++ record { name = name ++ joined list; value = none } ∷ []
unfolding names_fed
names_lem hdr name [] = rw (append-nil name) refl
names_lem hdr name (piece ∷ list) =
    rw (goes_on hdr name piece)
      (names_lem hdr (name ++ piece) list ∙ rw (append_assoc name piece (joined list)) refl)

values_lem :
    (hdr : List HttpHdrField) (name value : Text) (list : List Text)
    → values_fed (hdr ++ record { name = name; value = some value } ∷ []) list
      ≡ hdr ++ record { name = name; value = some (value ++ joined list) } ∷ []
unfolding values_fed
values_lem hdr name value [] = rw (append-nil value) refl
values_lem hdr name value (piece ∷ list) =
    rw (takes_value hdr (record { name = name; value = some value }) piece)
      (values_lem hdr name (value ++ piece) list ∙ rw (append_assoc value piece (joined list)) refl)

field_lem :
    (hdr : List HttpHdrField) (p : Pieces)
    → is_complete hdr ≡ true
    → values_fed (names_fed hdr (p.name ∷ p.more_name)) (p.value ∷ p.more_value)
      ≡ hdr ++ whole p ∷ []
unfolding values_fed names_fed
field_lem hdr p h =
    rw (starts_field hdr p.name h, names_lem hdr p.name p.more_name)
      (rw (takes_value hdr (record { name = p.name ++ joined p.more_name; value = none }) p.value)
        (values_lem hdr (p.name ++ joined p.more_name) p.value p.more_value))

complete-append : (hdr : List HttpHdrField) (p : Pieces) → is_complete (hdr ++ whole p ∷ []) ≡ true
complete-append [] p = refl
complete-append (field ∷ []) p = refl
complete-append (field ∷ next ∷ hdr) p = complete-append (next ∷ hdr) p

-- For each header whose last field has a value, and each list of fields that the parser hands over in any
-- number of pieces, the header gets exactly these fields, whole and in order.
pub pieces_lem :
    (hdr : List HttpHdrField) (list : List Pieces)
    → is_complete hdr ≡ true
    → fed hdr list ≡ hdr ++ map whole list
unfolding fed
pieces_lem hdr [] h = sym (append-nil hdr)
pieces_lem hdr (p ∷ list) h =
    rw (field_lem hdr p h) (pieces_lem (hdr ++ whole p ∷ []) list (complete-append hdr p))
    ∙ append_assoc hdr (whole p ∷ []) (map whole list)
