-- ===== src/Inifile/Record.antt =====
-- inifile_read and inifile_match_name of airscan-inifile.c.
use sane_airscan.Base.{
  ℕ, zero, suc, ◌+◌, ◌-◌, ◌%◌, ◌^◌, Bool, true, false, not, ◌&&◌, Option, none, some, List, [], ◌∷◌,
  ◌==◌, if◌then◌else◌, length,
}
use sane_airscan.Uuid.{Text}
use sane_airscan.Inifile.File.{
  newline, is_space, Inifile, inifile_ungetc, inifile_getc_nonspace, inifile_getc_nl,
  inifile_iscomment, to_upper, inifile_tk_array_export,
}
use sane_airscan.Inifile.Scan.{inifile_gets}

-- INIFILE_RECORD.
pub data RecordType : Type 0 where
  rec_section rec_variable rec_command rec_syntax : RecordType

-- inifile_record; `none` is NULL, `tokc` the length of `tokv`. The name of the file is left out.
pub record Record : Type 0 where
  pub kind : RecordType
  pub section : Text
  pub variable : Option Text
  pub value : Option Text
  pub tokv : List Text
  pub line : ℕ

-- What a call of inifile_read comes to: NULL, a record, a failed assertion, or out of fuel.
pub data Read : Type 0 where
  end_of_file : Inifile → Read
  got : Record → Inifile → Read
  aborted : Read
  stopped : Read

abbrev pub is_newline : Option ℕ → Bool
is_newline none = false
is_newline (some c) = c == newline

abbrev pub is_eof : Option ℕ → Bool
is_eof none = true
is_eof (some _) = false

-- The line of the record, and the file behind the rest of the line.
unfoldable pub finish_line : Inifile → Option ℕ → ℕ × Inifile
finish_line f last =
    if is_newline last
    then ((f.line + 2 ^ 32 - 1) % 2 ^ 32, f)
    else (f.line, if is_eof last then f else inifile_getc_nl f)

-- A command is split into its first token and the others.
unfoldable pub finish_command : Inifile → Option ℕ → List Text → Read
unfolding finish_line
finish_command f last [] = aborted
finish_command f last (name ∷ args) =
    let (line, f1) = finish_line f last in
    got
      (record {
        kind = rec_command;
        section = f.section;
        variable = some name;
        value = none;
        tokv = args;
        line = line;
      })
      f1

unfoldable pub inifile_read_finish : Inifile → Option ℕ → RecordType → Read
unfolding finish_line finish_command
inifile_read_finish f last rec_variable =
    let (line, f1) = finish_line f last in
    got
      (record {
        kind = rec_variable;
        section = f.section;
        variable = some f.variable;
        value = some f.value;
        tokv = inifile_tk_array_export f;
        line = line;
      })
      f1
inifile_read_finish f last rec_command = finish_command f last (inifile_tk_array_export f)
inifile_read_finish f last other =
    let (line, f1) = finish_line f last in
    got
      (record {
        kind = other;
        section = f.section;
        variable = none;
        value = none;
        tokv = [];
        line = line;
      })
      f1

-- The first character that is neither a space nor in a comment, on fuel: each round takes one line.
unfoldable pub skip_comments : ℕ → Inifile → Option (Option ℕ × Inifile)
skip_comments zero f = none
skip_comments (suc fuel) f =
    let (c, f1) = inifile_getc_nonspace f in
    let rest = skip_comments fuel (inifile_getc_nl f1) in
    elim c [
      | none ↦ some (none, f1)
      | some c ↦ if inifile_iscomment c then rest else some (some c, f1)
    ]

abbrev pub is_char : ℕ → Option ℕ → Bool
is_char d none = false
is_char d (some c) = c == d

-- Behind `[`.
unfoldable pub read_section : ℕ → Inifile → Read
read_section fuel f = elim (inifile_gets fuel f (some b']') false) [
  | none ↦ stopped
  | some (c, syntax, f1) ↦
      if is_char b']' c && not syntax
      then inifile_read_finish (record f1 { section = f1.buffer }) c rec_section
      else inifile_read_finish f1 c rec_syntax
]

-- Behind `=`.
unfoldable pub read_value : ℕ → Inifile → Read
read_value fuel f = elim (inifile_gets fuel f none true) [
  | none ↦ stopped
  | some (c, syntax, f1) ↦
      if not syntax
      then inifile_read_finish (record f1 { value = f1.buffer }) c rec_variable
      else inifile_read_finish f1 c rec_syntax
]

unfoldable pub read_line : ℕ → Inifile → Read
read_line fuel f = elim (inifile_gets fuel f (some b'=') false) [
  | none ↦ stopped
  | some (c, syntax, f1) ↦
      if is_char b'=' c && not syntax
      then read_value fuel (record f1 { variable = f1.buffer })
      else if not syntax
      then inifile_read_finish f1 c rec_command
      else inifile_read_finish f1 c rec_syntax
]

-- The record that begins with a character.
unfoldable pub read_at : ℕ → Option ℕ → Inifile → Read
read_at fuel none f = end_of_file f
read_at fuel (some c) f =
    if c == b'['
    then read_section fuel f
    else if not (c == b'=')
    then read_line fuel (inifile_ungetc f c)
    else inifile_read_finish f (some c) rec_syntax

-- The fuel is that of each loop.
unfoldable pub inifile_read : ℕ → Inifile → Read
inifile_read fuel f = elim (skip_comments fuel f) [
  | none ↦ stopped
  | some (c, f1) ↦ read_at fuel c f1
]

unfoldable pub skip_spaces : Text → Text
skip_spaces [] = []
skip_spaces (c ∷ s) = let rest = skip_spaces s in if is_space c then rest else c ∷ s

-- The loop that compares, on fuel, with what is left of the two names.
unfoldable pub match_loop : ℕ → Text → Text → Text × Text
match_loop zero n1 n2 = (n1, n2)
match_loop (suc fuel) [] n2 = ([], n2)
match_loop (suc fuel) (a ∷ n1) [] = (a ∷ n1, [])
match_loop (suc fuel) (a ∷ n1) (b ∷ n2) =
    let spaces = match_loop fuel (skip_spaces n1) (skip_spaces n2) in
    let chars = match_loop fuel n1 n2 in
    if is_space a
    then if not (is_space b) then (a ∷ n1, b ∷ n2) else spaces
    else if to_upper a == to_upper b
    then chars
    else (a ∷ n1, b ∷ n2)

abbrev pub is_end : Text → Bool
is_end [] = true
is_end (_ ∷ _) = false

-- Each round takes a character off the first name.
unfoldable pub inifile_match_name : Text → Text → Bool
inifile_match_name n1 n2 =
    let (r1, r2) = match_loop (length n1) (skip_spaces n1) (skip_spaces n2) in
    is_end (skip_spaces r1) && is_end (skip_spaces r2)
