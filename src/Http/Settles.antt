-- ===== src/Http/Settles.antt =====
-- http_hdr_params_parse: that its loop ends, and what a parameter with no name does to it.
use sane_airscan.Base.{
  ℕ, suc, ◌≡◌, ◌≢◌, refl, ap, ◌∙◌, Bool, true, false, not, ◌&&◌, Option, none, some, List, [], ◌∷◌,
  ◌++◌, ◌==◌, if◌then◌else◌, arith, and_left, and_right,
}
use sane_airscan.Uuid.{Text}
use sane_airscan.Http.Header.{HttpHdrField}
use sane_airscan.Inifile.File.{is_space}
use sane_airscan.Http.Params.{
  http_hdr_params_chr_isspec, http_hdr_params_chr_isspace, Pps, sp1, pname, sp2, equals, sp3,
  pvalue, ptoken, pstring, pstring_bslash, sp4, pend, Params, Round, advance, again, fails, crashes,
  value_append, value_into, value_onto, params_from, round, same_byte, rounds_on, Parsed,
  null_written, settled, rounds, params_loop, after_semicolon, http_hdr_params_parse,
}

-- The rounds on a byte came to an end.
abbrev IsFinal : Option Round → Type 0
IsFinal none = ⊥
IsFinal (some (again _ _)) = ⊥
IsFinal (some _) = Unit

if_IsFinal :
    (b : Bool) (r s : Round) (rest : Pps → Params → Option Round)
    → IsFinal (same_byte r rest)
    → IsFinal (same_byte s rest)
    → IsFinal (same_byte (if b then r else s) rest)
if_IsFinal true r s rest u v = u
if_IsFinal false r s rest u v = v

onto-IsFinal :
    (state : Pps) (p : Params) (field : HttpHdrField) (value : Option Text) (c : ℕ)
    (rest : Pps → Params → Option Round)
    → IsFinal (same_byte (value_onto state p field value c) rest)
onto-IsFinal state p field none c rest = tt
onto-IsFinal state p field (some value) c rest = tt

into-IsFinal :
    (state : Pps) (p : Params) (field : Option HttpHdrField) (c : ℕ)
    (rest : Pps → Params → Option Round)
    → IsFinal (same_byte (value_into state p field c) rest)
into-IsFinal state p none c rest = tt
into-IsFinal state p (some field) c rest = onto-IsFinal state p field field.value c rest

value-IsFinal :
    (state : Pps) (p : Params) (c : ℕ) (rest : Pps → Params → Option Round)
    → IsFinal (same_byte (value_append state p c) rest)
unfolding value_append
value-IsFinal state p c rest = into-IsFinal state p p.field c rest

-- Each state by how many rounds it may take.
module _ (p : Params) (c : ℕ) where
  equals-IsFinal : (n : ℕ) → IsFinal (rounds_on (suc n) equals p c)
  unfolding rounds_on round
  equals-IsFinal n = if_IsFinal (c == b'=') _ _ _ tt (if_IsFinal (c == b';') _ _ _ tt tt)

  sp2-IsFinal : (n : ℕ) → IsFinal (rounds_on (suc (suc n)) sp2 p c)
  unfolding rounds_on round
  sp2-IsFinal n = if_IsFinal (http_hdr_params_chr_isspace c) _ _ _ tt (equals-IsFinal n)

  name-IsFinal : (n : ℕ) → IsFinal (rounds_on (suc (suc (suc n))) pname p c)
  unfolding rounds_on round
  name-IsFinal n =
      if_IsFinal (not (http_hdr_params_chr_isspec c)) _ _ _ tt
        (if_IsFinal (c == b';') _ _ _ tt (sp2-IsFinal n))

  sp1-IsFinal : (n : ℕ) → IsFinal (rounds_on (suc (suc (suc (suc n)))) sp1 p c)
  unfolding rounds_on round
  sp1-IsFinal n = if_IsFinal (http_hdr_params_chr_isspace c) _ _ _ tt (name-IsFinal n)

  end-IsFinal : (n : ℕ) → IsFinal (rounds_on (suc n) pend p c)
  unfolding rounds_on round
  end-IsFinal n = if_IsFinal (not (c == b';')) _ _ _ tt tt

  sp4-IsFinal : (n : ℕ) → IsFinal (rounds_on (suc (suc n)) sp4 p c)
  unfolding rounds_on round
  sp4-IsFinal n = if_IsFinal (http_hdr_params_chr_isspace c) _ _ _ tt (end-IsFinal n)

  token-IsFinal : (n : ℕ) → IsFinal (rounds_on (suc (suc (suc n))) ptoken p c)
  unfolding rounds_on round
  token-IsFinal n =
      if_IsFinal (not (c == b';') && (not (c == 34) && not (is_space c))) _ _ _
        (value-IsFinal ptoken p c (λ s q. rounds_on (suc (suc n)) s q c)) (sp4-IsFinal n)

  pvalue-IsFinal : (n : ℕ) → IsFinal (rounds_on (suc (suc (suc (suc n)))) pvalue p c)
  unfolding rounds_on round
  pvalue-IsFinal n = if_IsFinal (c == 34) _ _ _ tt (token-IsFinal n)

  sp3-IsFinal : (n : ℕ) → IsFinal (rounds_on (suc (suc (suc (suc (suc n))))) sp3 p c)
  unfolding rounds_on round
  sp3-IsFinal n = if_IsFinal (http_hdr_params_chr_isspace c) _ _ _ tt (pvalue-IsFinal n)

  string-IsFinal : (n : ℕ) → IsFinal (rounds_on (suc n) pstring p c)
  unfolding rounds_on round
  string-IsFinal n =
      if_IsFinal (c == 92) _ _ _ tt
        (if_IsFinal (c == 34) _ _ _ tt (value-IsFinal pstring p c (λ s q. rounds_on n s q c)))

  bslash-IsFinal : (n : ℕ) → IsFinal (rounds_on (suc n) pstring_bslash p c)
  unfolding rounds_on round
  bslash-IsFinal n = value-IsFinal pstring p c (λ s q. rounds_on n s q c)

settle-IsFinal : (state : Pps) (p : Params) (c : ℕ) → IsFinal (rounds_on rounds state p c)
settle-IsFinal sp1 p c = sp1-IsFinal p c 1
settle-IsFinal pname p c = name-IsFinal p c 2
settle-IsFinal sp2 p c = sp2-IsFinal p c 3
settle-IsFinal equals p c = equals-IsFinal p c 4
settle-IsFinal sp3 p c = sp3-IsFinal p c 0
settle-IsFinal pvalue p c = pvalue-IsFinal p c 1
settle-IsFinal ptoken p c = token-IsFinal p c 2
settle-IsFinal pstring p c = string-IsFinal p c 4
settle-IsFinal pstring_bslash p c = bslash-IsFinal p c 4
settle-IsFinal sp4 p c = sp4-IsFinal p c 3
settle-IsFinal pend p c = end-IsFinal p c 4

settled_ends :
    (o : Option Round) (rest : Pps → Params → Option Parsed)
    → IsFinal o
    → ((state : Pps) (p : Params) → rest state p ≢ none)
    → settled o rest ≢ none
settled_ends none rest f k = elim f [ ]
settled_ends (some (again _ _)) rest f k = elim f [ ]
settled_ends (some (advance state p)) rest f k = k state p
settled_ends (some fails) rest f k = λ e. cc
settled_ends (some crashes) rest f k = λ e. cc

loop_ends : (bytes : Text) (state : Pps) (p : Params) → params_loop bytes state p ≢ none
unfolding params_loop
loop_ends [] state p = λ e. cc
loop_ends (c ∷ bytes) state p =
    settled_ends (rounds_on rounds state p c) (λ s q. params_loop bytes s q)
      (settle-IsFinal state p c) (λ s q. loop_ends bytes s q)

from_ends : (params : List HttpHdrField) (rest : Option Text) → params_from params rest ≢ none
unfolding params_from
from_ends params none = λ e. cc
from_ends params (some rest) = loop_ends rest sp1 (record { before = params; field = none })

-- For each list of fields and each text, parsing the parameters of a header comes to an end: five rounds
-- of its loop on each byte are enough.
pub parse_ends :
    (params : List HttpHdrField) (bytes : Text) → http_hdr_params_parse params bytes ≢ none
unfolding http_hdr_params_parse
parse_ends params bytes = from_ends params (after_semicolon bytes)

-- Spaces take the loop no further.
abbrev pub is_blank : Text → Bool
is_blank [] = true
is_blank (c ∷ bytes) = http_hdr_params_chr_isspace c && is_blank bytes

sp1_blank :
    (bytes rest : Text) (p : Params)
    → is_blank bytes ≡ true
    → params_loop (bytes ++ rest) sp1 p ≡ params_loop rest sp1 p
unfolding params_loop rounds_on round
sp1_blank [] rest p h = refl
sp1_blank (c ∷ bytes) rest p h =
    rw (and_left (http_hdr_params_chr_isspace c) (is_blank bytes) h)
      (sp1_blank bytes rest p (and_right (http_hdr_params_chr_isspace c) (is_blank bytes) h))

sp3_blank :
    (bytes rest : Text) (p : Params)
    → is_blank bytes ≡ true
    → params_loop (bytes ++ rest) sp3 p ≡ params_loop rest sp3 p
unfolding params_loop rounds_on round
sp3_blank [] rest p h = refl
sp3_blank (c ∷ bytes) rest p h =
    rw (and_left (http_hdr_params_chr_isspace c) (is_blank bytes) h)
      (sp3_blank bytes rest p (and_right (http_hdr_params_chr_isspace c) (is_blank bytes) h))

abbrev pub has_no_semicolon : Text → Bool
has_no_semicolon [] = true
has_no_semicolon (c ∷ bytes) = not (c == b';') && has_no_semicolon bytes

pub after_semicolon_lem :
    (first rest : Text)
    → has_no_semicolon first ≡ true
    → after_semicolon (first ++ b';' ∷ rest) ≡ some rest
unfolding after_semicolon
after_semicolon_lem [] rest h = refl
after_semicolon_lem (c ∷ first) rest h = ground (arith, after_semicolon_lem first rest)

pub no_semicolon_lem : (first : Text) → has_no_semicolon first ≡ true → after_semicolon first ≡ none
unfolding after_semicolon
no_semicolon_lem [] h = refl
no_semicolon_lem (c ∷ first) h = ground (arith, no_semicolon_lem first)

-- A byte that starts a value with no quotes.
abbrev pub starts_token : ℕ → Bool
starts_token c =
    not (http_hdr_params_chr_isspace c) && (not (c == b';') && (not (c == 34) && not (is_space c)))

token_no_space : (c : ℕ) → starts_token c ≡ true → http_hdr_params_chr_isspace c ≡ false
token_no_space c h = ground arith

token_no_quote : (c : ℕ) → starts_token c ≡ true → (c == 34) ≡ false
token_no_quote c h = ground arith

token_taken :
    (c : ℕ)
    → starts_token c ≡ true
    → (not (c == b';') && (not (c == 34) && not (is_space c))) ≡ true
token_taken c h = ground arith

crash_at :
    (c : ℕ) (rest : Text) (params : List HttpHdrField)
    → starts_token c ≡ true
    → params_loop (c ∷ rest) sp3 (record { before = params; field = none }) ≡ some null_written
unfolding params_loop rounds_on round value_append
crash_at c rest params h =
    rw (token_no_space c h) (rw (token_no_quote c h) (rw (token_taken c h) refl))

-- The equals sign where a name is due goes on to the value.
equals_at : (rest : Text) (p : Params) → params_loop (b'=' ∷ rest) sp1 p ≡ params_loop rest sp3 p
unfolding params_loop rounds_on round
equals_at rest p = refl

-- For each list of fields and each value of a header in which the first semicolon is followed, but for
-- spaces, by an equals sign, and that, but for spaces, by a byte other than a quote or a semicolon,
-- parsing the parameters writes through a null pointer.
pub nameless_crashes :
    (params : List HttpHdrField) (first blank1 blank2 : Text) (c : ℕ) (rest : Text)
    → has_no_semicolon first ≡ true
    → is_blank blank1 ≡ true
    → is_blank blank2 ≡ true
    → starts_token c ≡ true
    → http_hdr_params_parse params (first ++ b';' ∷ (blank1 ++ b'=' ∷ (blank2 ++ c ∷ rest)))
      ≡ some null_written
unfolding http_hdr_params_parse params_from
nameless_crashes params first blank1 blank2 c rest f b1 b2 h =
    let p : Params = record { before = params; field = none } in
    ap (params_from params) (after_semicolon_lem first _ f)
    ∙ sp1_blank blank1 (b'=' ∷ (blank2 ++ c ∷ rest)) p b1
    ∙ equals_at (blank2 ++ c ∷ rest) p
    ∙ sp3_blank blank2 (c ∷ rest) p b2
    ∙ crash_at c rest params h
