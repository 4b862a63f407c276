-- ===== src/Http/Header.antt =====
-- http_hdr of airscan-http.c: a header as the list of its fields, in order.
use sane_airscan.Base.{Option, none, some, List, [], ◌∷◌, ◌++◌, if◌then◌else◌}
use sane_airscan.Uuid.{Text}
use sane_airscan.Id.{same_name}

-- http_hdr_field; `value` is none where the source has NULL.
pub record HttpHdrField : Type 0 where
  pub name : Text
  pub value : Option Text

abbrev pub http_hdr_field_new : Option Text → HttpHdrField
http_hdr_field_new none = record { name = []; value = none }
http_hdr_field_new (some name) = record { name = name; value = none }

-- The value, empty where it is NULL.
abbrev pub value_text : HttpHdrField → Text
value_text field = elim field.value [ none ↦ [] | some value ↦ value ]

unfoldable pub http_hdr_lookup : List HttpHdrField → Text → Option HttpHdrField
http_hdr_lookup [] name = none
http_hdr_lookup (field ∷ hdr) name =
    let rest = http_hdr_lookup hdr name in if same_name field.name name then some field else rest

abbrev pub found_value : Option HttpHdrField → Option Text
found_value none = none
found_value (some field) = some (value_text field)

unfoldable pub http_hdr_get : List HttpHdrField → Text → Option Text
http_hdr_get hdr name = found_value (http_hdr_lookup hdr name)

-- The field that http_hdr_lookup finds gets the value; where it finds none, a new one stands at the end.
unfoldable pub http_hdr_set : List HttpHdrField → Text → Text → List HttpHdrField
http_hdr_set [] name value = record (http_hdr_field_new (some name)) { value = some value } ∷ []
http_hdr_set (field ∷ hdr) name value =
    let rest = http_hdr_set hdr name value in
    if same_name field.name name then record field { value = some value } ∷ hdr else field ∷ rest

-- The field that http_hdr_lookup finds is left out.
unfoldable pub http_hdr_del : List HttpHdrField → Text → List HttpHdrField
http_hdr_del [] name = []
http_hdr_del (field ∷ hdr) name =
    let rest = http_hdr_del hdr name in if same_name field.name name then hdr else field ∷ rest

-- The last field takes the bytes, or a new field when the last one has a value.
unfoldable pub http_hdr_on_header_field : List HttpHdrField → Text → List HttpHdrField
http_hdr_on_header_field [] bytes = record (http_hdr_field_new none) { name = bytes } ∷ []
http_hdr_on_header_field (field ∷ []) bytes = elim field.value [
  | none ↦ record field { name = field.name ++ bytes } ∷ []
  | some _ ↦ field ∷ record (http_hdr_field_new none) { name = bytes } ∷ []
]
http_hdr_on_header_field (field ∷ next ∷ hdr) bytes =
    field ∷ http_hdr_on_header_field (next ∷ hdr) bytes

unfoldable pub http_hdr_on_header_value : List HttpHdrField → Text → List HttpHdrField
http_hdr_on_header_value [] bytes = []
http_hdr_on_header_value (field ∷ []) bytes =
    record field { value = some (value_text field ++ bytes) } ∷ []
http_hdr_on_header_value (field ∷ next ∷ hdr) bytes =
    field ∷ http_hdr_on_header_value (next ∷ hdr) bytes
