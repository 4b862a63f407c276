-- ===== src/Inifile/Scan.antt =====
-- inifile_gets of airscan-inifile.c, one function for each case of its switch.
use sane_airscan.Base.{
  ℕ, zero, suc, ◌+◌, ◌-◌, ◌*◌, ◌%◌, Bool, true, false, not, ◌&&◌, ◌||◌, Option, none, some, [], ◌∷◌,
  ◌++◌, ◌==◌, if◌then◌else◌, length, take,
}
use sane_airscan.Uuid.{is_xdigit}
use sane_airscan.Inifile.File.{
  newline, backslash, quote, is_space, Inifile, inifile_getc, inifile_ungetc, inifile_iscomment,
  inifile_isoctal, inifile_istkbreaker, inifile_hex2int, inifile_tk_reset, inifile_tk_open,
  inifile_tk_close, inifile_tk_append,
}

-- The states of inifile_gets.
pub data Prs : Type 0 where
  skip_space body string string_bslash string_hex string_octal comment : Prs

-- inifile_gets between two characters.
pub record Scan : Type 0 where
  pub file : Inifile
  pub state : Prs
  pub accumulator : ℕ
  pub count : ℕ
  pub trailing_space : ℕ

-- `mem_len(file->buffer) - *trailing_space` does not wrap, as IsValid in Offsets has it.
unfoldable pub inifile_strip_trailing_space : Scan → Scan
inifile_strip_trailing_space s = record s {
  file = record (s.file) { buffer = take (length s.file.buffer - s.trailing_space) s.file.buffer };
  trailing_space = 0;
}

-- `file->buffer = str_append_c(...)`.
unfoldable pub put : Inifile → ℕ → Inifile
put f c = record f { buffer = f.buffer ++ c ∷ [] }

-- Appends to the line and to the token.
unfoldable pub put_both : Scan → ℕ → Scan
unfolding inifile_tk_append put
put_both s c = record s { file = inifile_tk_append (put s.file c) c }

-- A backslash outside of a string.
unfoldable pub line_continuation : Scan → Scan
unfolding inifile_getc inifile_strip_trailing_space inifile_ungetc
line_continuation s =
    let (c2, f) = inifile_getc s.file in
    elim c2 [
      | none ↦ record s { file = inifile_ungetc f backslash }
      | some c ↦
          if c == newline
          then record (inifile_strip_trailing_space (record s { file = f })) { state = skip_space }
          else record s { file = inifile_ungetc f backslash }
    ]

abbrev pub is_body : Prs → Bool
is_body body = true
is_body _ = false

-- The end of the case PRS_BODY.
unfoldable pub after_body : ℕ → Scan → Scan
unfolding inifile_strip_trailing_space
after_body c s =
    if is_body s.state
    then (if is_space c
        then record s { trailing_space = s.trailing_space + 1; file = inifile_tk_close s.file }
        else record s {
          trailing_space = 0;
          file =
              if inifile_istkbreaker c then inifile_tk_close s.file else inifile_tk_append s.file c;
        })
    else inifile_strip_trailing_space s

-- The case PRS_BODY, in this state.
unfoldable pub body_turn : Bool → ℕ → Scan → Scan
unfolding line_continuation after_body
body_turn linecont c s = after_body c (
    if c == quote
    then record s { state = string; file = inifile_tk_open s.file }
    else if inifile_iscomment c
    then record s { state = comment }
    else if c == backslash && linecont
    then line_continuation s
    else record s { file = put s.file c })

-- The character for a letter behind a backslash.
unfoldable pub escaped : ℕ → ℕ
escaped c =
    if c == b'a'
    then 7
    else if c == b'b'
    then 8
    else if c == b'e'
    then 0x1b
    else if c == b'f'
    then 12
    else if c == b'n'
    then 10
    else if c == b'r'
    then 13
    else if c == b't'
    then 9
    else if c == b'v'
    then 11
    else c

unfoldable pub bslash_turn : ℕ → Scan → Scan
unfolding escaped
bslash_turn c s =
    if c == b'x' || c == b'X'
    then record s { state = string_hex; accumulator = 0; count = 0 }
    else if inifile_isoctal c
    then record s { state = string_octal; accumulator = inifile_hex2int c; count = 1 }
    else record (put_both s (escaped c)) { state = string }

-- `str_append_c` takes the accumulator for a char.
abbrev pub end_number : Scan → Scan
end_number s = put_both (record s { state = string }) (s.accumulator % 256)

unfoldable pub hex_turn : ℕ → Scan → Scan
hex_turn c s =
    if is_xdigit c
    then (if not (s.count == 2)
        then record s { accumulator = s.accumulator * 16 + inifile_hex2int c; count = s.count + 1 }
        else s)
    else end_number (record s { file = inifile_ungetc s.file c })

unfoldable pub octal_turn : ℕ → Scan → Scan
octal_turn c s =
    if inifile_isoctal c
    then (let s1 = record s {
      accumulator = s.accumulator * 8 + inifile_hex2int c;
      count = s.count + 1;
    } in
        if s1.count == 3 then end_number s1 else s1)
    else end_number (record s { file = inifile_ungetc s.file c })

-- A round of the switch.
unfoldable pub turn_at : Prs → Bool → ℕ → Scan → Scan
turn_at skip_space linecont c s =
    if is_space c then s else body_turn linecont c (record s { state = body })
turn_at body linecont c s = body_turn linecont c s
turn_at string linecont c s =
    if c == backslash
    then record s { state = string_bslash }
    else if c == quote
    then record s { state = body }
    else put_both s c
turn_at string_bslash linecont c s = bslash_turn c s
turn_at string_hex linecont c s = hex_turn c s
turn_at string_octal linecont c s = octal_turn c s
turn_at comment linecont c s = s

unfoldable pub turn : Bool → ℕ → Scan → Scan
unfolding turn_at
turn linecont c s = turn_at s.state linecont c s

-- The delimiter; `none` is that of the call with EOF, which no character equals.
abbrev pub is_delimiter : Option ℕ → ℕ → Bool
is_delimiter none c = false
is_delimiter (some d) c = c == d

abbrev pub takes_delimiter : Prs → Bool
takes_delimiter body = true
takes_delimiter skip_space = true
takes_delimiter _ = false

-- The loop, on fuel, with the character at which it stops; `none` is out of fuel.
unfoldable pub gets_loop : ℕ → Option ℕ → Bool → Scan → Option (Option ℕ × Scan)
gets_loop zero delimiter linecont s = none
gets_loop (suc fuel) delimiter linecont s =
    let (c, f) = inifile_getc s.file in
    elim c [
      | none ↦ some (none, record s { file = f })
      | some c ↦
          let s1 = record s { file = f } in
          let rest = gets_loop fuel delimiter linecont (turn linecont c s1) in
          if c == newline
          then some (some c, s1)
          else if takes_delimiter s.state && is_delimiter delimiter c
          then some (some c, record s { file = inifile_tk_close f })
          else rest
    ]

unfoldable pub gets_begin : Inifile → Scan
gets_begin f = record {
  file = record (inifile_tk_reset f) { buffer = [] };
  state = skip_space;
  accumulator = 0;
  count = 0;
  trailing_space = 0;
}

abbrev pub is_open : Prs → Bool
is_open skip_space = false
is_open body = false
is_open comment = false
is_open _ = true

-- The character, the flag of a syntax error, and the file.
unfoldable pub inifile_gets : ℕ → Inifile → Option ℕ → Bool → Option (Option ℕ × Bool × Inifile)
inifile_gets fuel f delimiter linecont = elim (gets_loop fuel delimiter linecont (gets_begin f)) [
  | none ↦ none
  | some (c, s) ↦ some (c, is_open s.state, (inifile_strip_trailing_space s).file)
]
