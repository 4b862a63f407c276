-- ===== src/Http/Params.antt =====
-- http_hdr_params_parse of airscan-http.c.
use sane_airscan.Base.{
  ℕ, zero, suc, Bool, true, false, not, ◌&&◌, ◌||◌, Option, none, some, List, [], ◌∷◌, ◌++◌, ltb,
  ◌==◌, if◌then◌else◌,
}
use sane_airscan.Uuid.{Text}
use sane_airscan.Http.Header.{HttpHdrField}
use sane_airscan.Inifile.File.{is_space}

abbrev pub is_one_of : Text → ℕ → Bool
is_one_of [] c = false
is_one_of (x ∷ list) c = c == x || is_one_of list c

-- A byte from 128 on is negative as a `char`.
abbrev pub http_hdr_params_chr_isspec : ℕ → Bool
http_hdr_params_chr_isspec c =
    if ltb 32 c && ltb c 127
    then if is_one_of
        (b'(' ∷ b')' ∷ b'<' ∷ b'>' ∷ b'@' ∷ b',' ∷ b';' ∷ b':' ∷ 92 ∷ 34 ∷ b'/' ∷ b'[' ∷ b']' ∷ b'?'
          ∷ b'=' ∷ [])
        c
      then true
      else is_space c
    else true

abbrev pub http_hdr_params_chr_isspace : ℕ → Bool
http_hdr_params_chr_isspace c = is_one_of (9 ∷ 10 ∷ 11 ∷ 12 ∷ 13 ∷ 32 ∷ 0x85 ∷ 0xA0 ∷ []) c

pub data Pps : Type 0 where
  sp1 : Pps
  pname : Pps
  sp2 : Pps
  equals : Pps
  sp3 : Pps
  pvalue : Pps
  ptoken : Pps
  pstring : Pps
  pstring_bslash : Pps
  sp4 : Pps
  pend : Pps

-- The params. The last field is `field` while the code's pointer `field` is set: it is in no other place
-- of the list.
pub record Params : Type 0 where
  pub before : List HttpHdrField
  pub field : Option HttpHdrField

abbrev pub fields : Params → List HttpHdrField
fields p = elim p.field [ none ↦ p.before | some field ↦ p.before ++ field ∷ [] ]

-- field = NULL.
abbrev pub field_clear : Params → Params
field_clear p = record { before = fields p; field = none }

-- What one round of the loop does: it goes on with the next byte, goes on with the same byte (`continue`),
-- returns an error, or writes through `field` where it is NULL.
pub data Round : Type 0 where
  advance : Pps → Params → Round
  again : Pps → Params → Round
  fails : Round
  crashes : Round

abbrev pub value_onto : Pps → Params → HttpHdrField → Option Text → ℕ → Round
value_onto state p field none c = crashes
value_onto state p field (some value) c =
    advance state (record p { field = some (record field { value = some (value ++ c ∷ []) }) })

abbrev pub value_into : Pps → Params → Option HttpHdrField → ℕ → Round
value_into state p none c = crashes
value_into state p (some field) c = value_onto state p field field.value c

-- field->value = str_append_c(field->value, c).
unfoldable pub value_append : Pps → Params → ℕ → Round
value_append state p c = value_into state p p.field c

unfoldable pub name_append : Params → ℕ → Params
name_append p c = elim p.field [
  | none ↦ record p { field = some (record { name = c ∷ []; value = some [] }) }
  | some field ↦ record p { field = some (record field { name = field.name ++ c ∷ [] }) }
]

-- A byte in one of the states for spaces, of which the state after it is given.
abbrev pub space_round : Pps → Pps → Params → ℕ → Round
space_round state next p c = if http_hdr_params_chr_isspace c then advance state p else again next p

unfoldable pub round : Pps → Params → ℕ → Round
round sp1 p c = space_round sp1 pname p c
round pname p c =
    if not (http_hdr_params_chr_isspec c)
    then advance pname (name_append p c)
    else if c == b';'
    then advance sp1 (field_clear p)
    else again sp2 p
round sp2 p c = space_round sp2 equals p c
round equals p c =
    if c == b'=' then advance sp3 p else if c == b';' then advance sp1 (field_clear p) else fails
round sp3 p c = space_round sp3 pvalue p c
round pvalue p c = if c == 34 then advance pstring p else again ptoken p
round pstring p c =
    if c == 92
    then advance pstring_bslash p
    else if c == 34
    then advance sp4 p
    else value_append pstring p c
round pstring_bslash p c = value_append pstring p c
round ptoken p c =
    if not (c == b';') && (not (c == 34) && not (is_space c))
    then value_append ptoken p c
    else again sp4 p
round sp4 p c = space_round sp4 pend p c
round pend p c = if not (c == b';') then fails else advance sp1 (field_clear p)

abbrev pub same_byte : Round → (Pps → Params → Option Round) → Option Round
same_byte (again state p) rest = rest state p
same_byte r rest = some r

-- The rounds on one byte, on fuel.
unfoldable pub rounds_on : ℕ → Pps → Params → ℕ → Option Round
rounds_on zero state p c = none
rounds_on (suc fuel) state p c =
    same_byte (round state p c) (λ state' p'. rounds_on fuel state' p' c)

pub data Parsed : Type 0 where
  parsed : List HttpHdrField → Parsed
  refused : Parsed
  null_written : Parsed

abbrev pub at_end : Pps → Params → Parsed
at_end pstring p = refused
at_end pstring_bslash p = refused
at_end _ p = parsed (fields p)

abbrev pub settled : Option Round → (Pps → Params → Option Parsed) → Option Parsed
settled none rest = none
settled (some (advance state p)) rest = rest state p
settled (some (again state p)) rest = none
settled (some fails) rest = some refused
settled (some crashes) rest = some null_written

abbrev pub rounds : ℕ
rounds = 5

-- The loop; a byte may take as many rounds as `rounds`.
unfoldable pub params_loop : Text → Pps → Params → Option Parsed
params_loop [] state p = some (at_end state p)
params_loop (c ∷ rest) state p =
    settled (rounds_on rounds state p c) (λ state' p'. params_loop rest state' p')

-- strchr(in, ';'), and the byte after it.
unfoldable pub after_semicolon : Text → Option Text
after_semicolon [] = none
after_semicolon (c ∷ rest) =
    let later = after_semicolon rest in if c == b';' then some rest else later

unfoldable pub params_from : List HttpHdrField → Option Text → Option Parsed
params_from params none = some (parsed params)
params_from params (some rest) = params_loop rest sp1 (record { before = params; field = none })

unfoldable pub http_hdr_params_parse : List HttpHdrField → Text → Option Parsed
http_hdr_params_parse params bytes = params_from params (after_semicolon bytes)
