-- ===== src/Http/Quoting.antt =====
-- http_hdr_params_parse against the writing of parameters in quotes.
use sane_airscan.Base.{
  ℕ, ◌≡◌, refl, ap, ◌∙◌, Bool, true, false, not, ◌&&◌, ◌||◌, Option, none, some, List, [], ◌∷◌,
  ◌++◌, ◌==◌, if◌then◌else◌, arith, and_left, and_right, Bool-cases, inl, inr,
}
use mathlib.Core.List.{append_assoc, append-nil, map}
use sane_airscan.Uuid.{Text}
use sane_airscan.Http.Header.{HttpHdrField}
use sane_airscan.Http.Params.{
  http_hdr_params_chr_isspec, http_hdr_params_chr_isspace, sp1, pname, pstring, sp4, Params, fields,
  name_append, value_append, round, rounds_on, parsed, params_loop, params_from,
  http_hdr_params_parse,
}
use sane_airscan.Http.Settles.{has_no_semicolon, after_semicolon_lem, no_semicolon_lem}

pub record Param : Type 0 where
  pub name : Text
  pub value : Text

abbrev pub field_of : Param → HttpHdrField
field_of param = record { name = param.name; value = some param.value }

-- The rest of a value in quotes, and what comes after it.
pub write_value : Text → Text → Text
write_value [] rest = 34 ∷ rest
write_value (c ∷ value) rest =
    let later = write_value value rest in if c == 34 || c == 92 then 92 ∷ c ∷ later else c ∷ later

pub write_params : List Param → Text
unfolding write_value
write_params [] = []
write_params (param ∷ list) =
    b';' ∷ (param.name ++ b'=' ∷ 34 ∷ write_value param.value (write_params list))

abbrev all_plain : Text → Bool
all_plain [] = true
all_plain (c ∷ bytes) = not (http_hdr_params_chr_isspec c) && all_plain bytes

-- A name has bytes, and none of them is special.
abbrev pub is_name : Text → Bool
is_name [] = false
is_name (c ∷ bytes) = all_plain (c ∷ bytes)

abbrev pub all_named : List Param → Bool
all_named [] = true
all_named (param ∷ list) = is_name param.name && all_named list

plain_no_space :
    (c : ℕ) → not (http_hdr_params_chr_isspec c) ≡ true → http_hdr_params_chr_isspace c ≡ false
plain_no_space c h = ground arith

name_lem :
    (bytes done rest : Text) (before : List HttpHdrField) (value : Option Text)
    → all_plain bytes ≡ true
    → params_loop
        (bytes ++ rest)
        pname
        (record { before = before; field = some (record { name = done; value = value }) })
      ≡ params_loop rest pname (record {
        before = before;
        field = some (record { name = done ++ bytes; value = value });
      })
unfolding params_loop rounds_on round name_append
name_lem [] done rest before value h = rw (append-nil done) refl
name_lem (c ∷ bytes) done rest before value h =
    rw (and_left (not (http_hdr_params_chr_isspec c)) (all_plain bytes) h) (
      name_lem bytes (done ++ c ∷ []) rest before value
        (and_right (not (http_hdr_params_chr_isspec c)) (all_plain bytes) h)
      ∙ rw (append_assoc done (c ∷ []) bytes) refl)

first_lem :
    (c : ℕ) (rest : Text) (before : List HttpHdrField)
    → not (http_hdr_params_chr_isspec c) ≡ true
    → params_loop (c ∷ rest) sp1 (record { before = before; field = none })
      ≡ params_loop rest pname
          (record { before = before; field = some (record { name = c ∷ []; value = some [] }) })
unfolding params_loop rounds_on round name_append
first_lem c rest before h = rw (plain_no_space c h) (rw h refl)

open_lem :
    (rest : Text) (p : Params) → params_loop (b'=' ∷ 34 ∷ rest) pname p ≡ params_loop rest pstring p
unfolding params_loop rounds_on round
open_lem rest p = refl

plain_no_quote : (c : ℕ) → (c == 34 || c == 92) ≡ false → (c == 34) ≡ false
plain_no_quote c h = ground arith

plain_no_bslash : (c : ℕ) → (c == 34 || c == 92) ≡ false → (c == 92) ≡ false
plain_no_bslash c h = ground arith

value_lem :
    (value done rest : Text) (before : List HttpHdrField) (name : Text)
    → params_loop
        (write_value value rest)
        pstring
        (record { before = before; field = some (record { name = name; value = some done }) })
      ≡ params_loop rest sp4 (record {
        before = before;
        field = some (record { name = name; value = some (done ++ value) });
      })
unfolding params_loop rounds_on round value_append write_value
value_lem [] done rest before name = rw (append-nil done) refl
value_lem (c ∷ value) done rest before name = elim (Bool-cases (c == 34 || c == 92)) [
  | inl e ↦ rw e (
      value_lem value (done ++ c ∷ []) rest before name
      ∙ rw (append_assoc done (c ∷ []) value) refl)
  | inr e ↦ rw e (
      rw (plain_no_bslash c e) (
        rw (plain_no_quote c e) (
          value_lem value (done ++ c ∷ []) rest before name
          ∙ rw (append_assoc done (c ∷ []) value) refl)))
]

param_lem :
    (name value rest : Text) (before : List HttpHdrField)
    → is_name name ≡ true
    → params_loop
        (name ++ b'=' ∷ 34 ∷ write_value value rest)
        sp1
        (record { before = before; field = none })
      ≡ params_loop rest sp4
          (record { before = before; field = some (record { name = name; value = some value }) })
param_lem [] value rest before h = cc
param_lem (c ∷ bytes) value rest before h =
    first_lem c _ before (and_left (not (http_hdr_params_chr_isspec c)) (all_plain bytes) h)
    ∙ name_lem bytes (c ∷ []) _ before (some [])
        (and_right (not (http_hdr_params_chr_isspec c)) (all_plain bytes) h)
    ∙ open_lem (write_value value rest) _
    ∙ value_lem value [] rest before (c ∷ bytes)

semicolon_lem :
    (rest : Text) (p : Params)
    → params_loop (b';' ∷ rest) sp4 p
      ≡ params_loop rest sp1 (record { before = fields p; field = none })
unfolding params_loop rounds_on round
semicolon_lem rest p = refl

list_lem :
    (list : List Param) (before : List HttpHdrField) (field : HttpHdrField)
    → all_named list ≡ true
    → params_loop (write_params list) sp4 (record { before = before; field = some field })
      ≡ some (parsed ((before ++ field ∷ []) ++ map field_of list))
unfolding params_loop write_params
list_lem [] before field h = rw (append-nil (before ++ field ∷ [])) refl
list_lem (param ∷ list) before field h =
    semicolon_lem _ (record { before = before; field = some field })
    ∙ param_lem param.name param.value (write_params list) (before ++ field ∷ [])
        (and_left (is_name param.name) (all_named list) h)
    ∙ list_lem list (before ++ field ∷ []) (field_of param)
        (and_right (is_name param.name) (all_named list) h)
    ∙ rw (append_assoc (before ++ field ∷ []) (field_of param ∷ []) (map field_of list)) refl

-- For each list of fields, text with no semicolon and list of parameters whose names are not empty and
-- have no special bytes, parsing the text and after it the parameters, each with its value in quotes and
-- a backslash before each quote and each backslash of it, appends to the fields the parameters in order.
pub parse-write :
    (params : List HttpHdrField) (first : Text) (list : List Param)
    → has_no_semicolon first ≡ true
    → all_named list ≡ true
    → http_hdr_params_parse params (first ++ write_params list)
      ≡ some (parsed (params ++ map field_of list))
unfolding http_hdr_params_parse params_from write_params
parse-write params first [] f h =
    rw (append-nil first, append-nil params) (ap (params_from params) (no_semicolon_lem first f))
parse-write params first (param ∷ list) f h =
    ap (params_from params) (after_semicolon_lem first _ f)
    ∙ param_lem param.name param.value (write_params list) params
        (and_left (is_name param.name) (all_named list) h)
    ∙ list_lem list params (field_of param) (and_right (is_name param.name) (all_named list) h)
    ∙ rw (append_assoc params (field_of param ∷ []) (map field_of list)) refl
