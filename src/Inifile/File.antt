-- ===== src/Inifile/File.antt =====
-- inifile: the file, its characters and its tokens, airscan-inifile.c.
use sane_airscan.Base.{
  ℕ, ◌+◌, ◌-◌, ◌%◌, ◌^◌, Bool, true, false, not, ◌&&◌, ◌||◌, Option, none, some, List, [], ◌∷◌,
  ◌++◌, leb, ◌==◌, if◌then◌else◌, length, drop, map,
}
use sane_airscan.Uuid.{Text, is_digit}

abbrev pub newline : ℕ
newline = 10

abbrev pub backslash : ℕ
backslash = b'\\'

abbrev pub quote : ℕ
quote = b'"'

-- isspace of the C locale.
abbrev pub is_space : ℕ → Bool
is_space c = c == 32 || (leb 9 c && leb c 13)

-- inifile. `tk_count` is the length of `tk_offsets`.
pub record Inifile : Type 0 where
  pub line : ℕ
  pub input : Text
  pub tk_open : Bool
  pub tk_buffer : Text
  pub tk_offsets : List ℕ
  pub buffer : Text
  pub section : Text
  pub variable : Text
  pub value : Text

-- The counter of lines is an unsigned int.
abbrev pub line_after : ℕ → ℕ → ℕ
line_after line c = if c == newline then (line + 1) % 2 ^ 32 else line

abbrev pub line_before : ℕ → ℕ → ℕ
line_before line c = if c == newline then (line + 2 ^ 32 - 1) % 2 ^ 32 else line

-- `none` for EOF.
unfoldable pub getc_from : Inifile → Text → Option ℕ × Inifile
getc_from f [] = (none, f)
getc_from f (c ∷ rest) = (some c, record f { input = rest; line = line_after f.line c })

unfoldable pub inifile_getc : Inifile → Option ℕ × Inifile
unfolding getc_from
inifile_getc f = getc_from f f.input

unfoldable pub inifile_ungetc : Inifile → ℕ → Inifile
inifile_ungetc f c = record f { input = c ∷ f.input; line = line_before f.line c }

-- The character, the line and the rest, behind the spaces.
unfoldable pub nonspace_from : ℕ → Text → Option ℕ × ℕ × Text
nonspace_from line [] = (none, line, [])
nonspace_from line (c ∷ rest) =
    let later = nonspace_from (line_after line c) rest in
    if is_space c then later else (some c, line_after line c, rest)

unfoldable pub inifile_getc_nonspace : Inifile → Option ℕ × Inifile
inifile_getc_nonspace f =
    let (c, line, rest) = nonspace_from f.line f.input in
    (c, record f { line = line; input = rest })

unfoldable pub nl_from : ℕ → Text → ℕ × Text
nl_from line [] = (line, [])
nl_from line (c ∷ rest) =
    let later = nl_from (line_after line c) rest in
    if c == newline then (line_after line c, rest) else later

-- The character is not used by the callers.
unfoldable pub inifile_getc_nl : Inifile → Inifile
inifile_getc_nl f =
    let (line, rest) = nl_from f.line f.input in record f { line = line; input = rest }

abbrev pub inifile_iscomment : ℕ → Bool
inifile_iscomment c = c == b';' || c == b'#'

abbrev pub inifile_isoctal : ℕ → Bool
inifile_isoctal c = leb b'0' c && leb c b'7'

abbrev pub inifile_istkbreaker : ℕ → Bool
inifile_istkbreaker c = c == b','

unfoldable pub to_upper : ℕ → ℕ
to_upper c = if leb b'a' c && leb c b'z' then c - 32 else c

unfoldable pub inifile_hex2int : ℕ → ℕ
inifile_hex2int c = if is_digit c then c - b'0' else to_upper c + 10 - b'A'

unfoldable pub inifile_tk_reset : Inifile → Inifile
inifile_tk_reset f = record f { tk_open = false; tk_buffer = []; tk_offsets = [] }

unfoldable pub inifile_tk_array_push : Inifile → Inifile
inifile_tk_array_push f = record f { tk_offsets = f.tk_offsets ++ length f.tk_buffer ∷ [] }

unfoldable pub inifile_tk_open : Inifile → Inifile
unfolding inifile_tk_array_push
inifile_tk_open f = if not f.tk_open then record (inifile_tk_array_push f) { tk_open = true } else f

unfoldable pub inifile_tk_close : Inifile → Inifile
inifile_tk_close f =
    if f.tk_open then record f { tk_buffer = f.tk_buffer ++ 0 ∷ []; tk_open = false } else f

unfoldable pub inifile_tk_append : Inifile → ℕ → Inifile
unfolding inifile_tk_open
inifile_tk_append f c =
    let f1 = inifile_tk_open f in record f1 { tk_buffer = f1.tk_buffer ++ c ∷ [] }

-- What a pointer into a buffer shows: the bytes up to a zero, or to the end, behind which mem_resize
-- keeps one.
unfoldable pub c_string : Text → Text
c_string [] = []
c_string (c ∷ s) = if c == 0 then [] else c ∷ c_string s

unfoldable pub inifile_tk_array_export : Inifile → List Text
unfolding c_string
inifile_tk_array_export f = map (λ (o : ℕ). c_string (drop o f.tk_buffer)) f.tk_offsets
