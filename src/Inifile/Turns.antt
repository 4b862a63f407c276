-- ===== src/Inifile/Turns.antt =====
-- The rounds of inifile_gets: what each of them leaves to be read.
use sane_airscan.Base.{
  ℕ, suc, ◌+◌, ◌*◌, ◌%◌, ◌≤◌, ◌≡◌, refl, ap, ◌∙◌, inl, inr, Bool, true, false, not, ◌&&◌, ◌||◌,
  Option, none, some, [], ◌∷◌, ◌==◌, if◌then◌else◌, length, arith, Bool-cases,
}
use sane_airscan.Uuid.{Text, is_xdigit}
use sane_airscan.Inifile.File.{
  newline, backslash, quote, is_space, Inifile, line_after, line_before, getc_from, inifile_getc,
  inifile_ungetc, inifile_iscomment, inifile_isoctal, inifile_istkbreaker, inifile_tk_open,
  inifile_tk_close, inifile_tk_append, inifile_tk_reset,
}
use sane_airscan.Inifile.Scan.{
  Prs, skip_space, body, string, string_bslash, string_hex, string_octal, comment, Scan,
  inifile_strip_trailing_space, put, put_both, after_body, body_turn, escaped, bslash_turn,
  end_number, hex_turn, octal_turn, turn_at, turn, is_delimiter, takes_delimiter, gets_loop,
}

-- A number is still to be read, and its last character may go back to the file.
abbrev pub pending : Prs → ℕ
pending string_hex = 1
pending string_octal = 1
pending _ = 0

abbrev pub measure : Scan → ℕ
measure s = 2 * length s.file.input + pending s.state

unfoldable pub lacks : ℕ → Text → Bool
lacks d [] = true
lacks d (c ∷ s) = not (c == d) && lacks d s

pub tk_append_input : (f : Inifile) (c : ℕ) → (inifile_tk_append f c).input ≡ f.input
unfolding inifile_tk_append inifile_tk_open sane_airscan.Inifile.File.inifile_tk_array_push
tk_append_input f c = ground arith

tk_open_input : (f : Inifile) → (inifile_tk_open f).input ≡ f.input
unfolding inifile_tk_open sane_airscan.Inifile.File.inifile_tk_array_push
tk_open_input f = ground arith

tk_close_input : (f : Inifile) → (inifile_tk_close f).input ≡ f.input
unfolding inifile_tk_close
tk_close_input f = ground arith

put_both_input :
    (s : Scan) (c : ℕ)
    → ((put_both s c).file.input ≡ s.file.input) × ((put_both s c).state ≡ s.state)
unfolding put_both put
put_both_input s c = (tk_append_input (put s.file c) c, refl)

-- A scan that has read nothing since `input`, and waits for no number.
abbrev Steady : Text → Scan → Type 0
Steady input s = (s.file.input ≡ input) × (pending s.state ≡ 0)

after_body_input :
    (input : Text) (c : ℕ) (s : Scan) → Steady input s → Steady input (after_body c s)
unfolding after_body inifile_strip_trailing_space
after_body_input input c s h = ground (arith, tk_close_input s.file, tk_append_input s.file c)

body_turn_input :
    (linecont : Bool) (c : ℕ) (s : Scan)
    → s.state ≡ body
    → (c == backslash && linecont) ≡ false
    → Steady s.file.input (body_turn linecont c s)
unfolding body_turn put
body_turn_input l c s b h = after_body_input s.file.input c _ (ground (arith, tk_open_input s.file))

-- What a round leaves to be read: the same, or a character more than at its beginning.
pub data Left (c : ℕ) (s t : Scan) : Type 0 where
  steady : Steady s.file.input t → Left c s t
  waits : t.file.input ≡ s.file.input → pending t.state ≡ 1 → Left c s t
  back : t.file.input ≡ c ∷ s.file.input → pending t.state ≡ 0 → pending s.state ≡ 1 → Left c s t

string_turn_input :
    (l : Bool) (c : ℕ) (s : Scan) → s.state ≡ string → Steady s.file.input (turn_at string l c s)
unfolding turn_at
string_turn_input l c s e = ground (arith, put_both_input s c)

bslash_turn_input : (c : ℕ) (s : Scan) → s.state ≡ string_bslash → Left c s (bslash_turn c s)
unfolding bslash_turn
bslash_turn_input c s e = elim (Bool-cases (c == b'x' || c == b'X')) [
  | inl y ↦ rw y (waits refl refl)
  | inr n ↦ elim (Bool-cases (inifile_isoctal c)) [
    | inl y ↦ rw (n, y) (waits refl refl)
    | inr m ↦ rw (n, m) (steady (ground (arith, put_both_input s (escaped c))))
  ]
]

end_number_input : (s : Scan) → Steady s.file.input (end_number s)
end_number_input s =
    let (a, b) = put_both_input (record s { state = string }) (s.accumulator % 256) in
    (a, ap pending b)

-- A number that ends at a character gives the character back.
end_number_back :
    (c : ℕ) (s : Scan)
    → pending s.state ≡ 1
    → Left c s (end_number (record s { file = inifile_ungetc s.file c }))
unfolding inifile_ungetc
end_number_back c s e =
    let (a, b) = end_number_input (record s { file = inifile_ungetc s.file c }) in back a b e

hex_turn_input : (c : ℕ) (s : Scan) → s.state ≡ string_hex → Left c s (hex_turn c s)
unfolding hex_turn inifile_ungetc
hex_turn_input c s e = elim (Bool-cases (is_xdigit c)) [
  | inl y ↦ rw y (waits (ground arith) (ground arith))
  | inr n ↦ rw n (end_number_back c s (ground arith))
]

octal_turn_input : (c : ℕ) (s : Scan) → s.state ≡ string_octal → Left c s (octal_turn c s)
unfolding octal_turn
octal_turn_input c s e = elim (Bool-cases (inifile_isoctal c)) [
  | inr n ↦ rw n (end_number_back c s (ground arith))
  | inl y ↦ elim (Bool-cases (s.count + 1 == 3)) [
    | inl last ↦
        rw (y, last)
          (steady (
            end_number_input (record s {
              accumulator = s.accumulator * 8 + sane_airscan.Inifile.File.inifile_hex2int c;
              count = s.count + 1;
            })))
    | inr more ↦ rw (y, more) (waits refl (ground arith))
  ]
]

pub turn_at_input :
    (st : Prs) (l : Bool) (c : ℕ) (s : Scan)
    → s.state ≡ st
    → (c == backslash && l) ≡ false
    → Left c s (turn_at st l c s)
unfolding turn_at
turn_at_input skip_space l c s e h = elim (Bool-cases (is_space c)) [
  | inl y ↦ rw y (steady (refl, ap pending e))
  | inr n ↦ rw n (steady (body_turn_input l c (record s { state = body }) refl h))
]
turn_at_input body l c s e h = steady (body_turn_input l c s e h)
turn_at_input string l c s e h = steady (string_turn_input l c s e)
turn_at_input string_bslash l c s e h = bslash_turn_input c s e
turn_at_input string_hex l c s e h = hex_turn_input c s e
turn_at_input string_octal l c s e h = octal_turn_input c s e
turn_at_input comment l c s e h = steady (refl, ap pending e)

-- No line is continued: the call does not allow it, or no backslash is to come.
abbrev pub IsCalm : Bool → Text → Type 0
IsCalm linecont input = (not linecont || lacks backslash input) ≡ true

pub IsCalm-cases :
    (l : Bool) (c : ℕ) (rest : Text)
    → IsCalm l (c ∷ rest)
    → ((c == backslash && l) ≡ false) × IsCalm l rest
unfolding lacks
IsCalm-cases l c rest h = ground arith

-- A round makes what is to be done less.
pub turn_less :
    (l : Bool) (c : ℕ) (s : Scan) (n : ℕ)
    → IsCalm l (c ∷ s.file.input)
    → Left c s (turn l c s)
    → 2 * suc (length s.file.input) + pending s.state ≤ suc n
    → (measure (turn l c s) ≤ n) × IsCalm l (turn l c s).file.input
turn_less l c s n h (steady (a, b)) m = rw (a, b) (omega arith, (IsCalm-cases l c s.file.input h).1)
turn_less l c s n h (waits a b) m = rw (a, b) (omega arith, (IsCalm-cases l c s.file.input h).1)
turn_less l c s n h (back a b w) m = rw (a, b) (omega (arith, w), h)

-- The scan behind a character.
abbrev pub taken : Scan → ℕ → Text → Scan
taken s c rest = record s {
  file = record (s.file) { input = rest; line = line_after s.file.line c };
}

pub loop_eof :
    (n : ℕ) (d : Option ℕ) (l : Bool) (s : Scan)
    → s.file.input ≡ []
    → gets_loop (suc n) d l s ≡ some (none, s)
unfolding gets_loop inifile_getc getc_from
loop_eof n d l s e = rw (e, getc_from)

pub loop_char :
    (n : ℕ) (d : Option ℕ) (l : Bool) (s : Scan) (c : ℕ) (rest : Text)
    → s.file.input ≡ c ∷ rest
    → gets_loop (suc n) d l s ≡ (
        if c == newline
        then some (some c, taken s c rest)
        else if takes_delimiter s.state && is_delimiter d c
        then some (some c, record s { file = inifile_tk_close (taken s c rest).file })
        else gets_loop n d l (turn l c (taken s c rest)))
unfolding gets_loop inifile_getc getc_from
loop_char n d l s c rest e = rw (e, getc_from)

-- A character that is neither a newline nor the delimiter is a round.
pub loop_step :
    (n : ℕ) (d : Option ℕ) (l : Bool) (s : Scan) (c : ℕ) (rest : Text)
    → s.file.input ≡ c ∷ rest
    → (c == newline) ≡ false
    → (takes_delimiter s.state && is_delimiter d c) ≡ false
    → gets_loop (suc n) d l s ≡ gets_loop n d l (turn l c (taken s c rest))
loop_step n d l s c rest e h k =
    loop_char n d l s c rest e
    ∙ skip_both (c == newline) (takes_delimiter s.state && is_delimiter d c) _ _ _ h k
  where
    skip_both :
        (a b : Bool) (x y z : Option (Option ℕ × Scan))
        → a ≡ false
        → b ≡ false
        → (if a then x else if b then y else z) ≡ z
    skip_both a b x y z h k = rw (h, k) refl
