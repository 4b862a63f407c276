-- ===== src/Inifile/Ends.antt =====
-- Where the loop of inifile_gets ends, and where it does not.
use sane_airscan.Base.{
  ℕ, zero, suc, ◌+◌, ◌*◌, ◌≤◌, ◌≡◌, refl, ap, ◌∙◌, Bool, true, false, ◌&&◌, Option, none, some, [],
  ◌∷◌, ◌==◌, if◌then◌else◌, length, arith,
}
use native.Mathlib.Numerals.{add-one}
use sane_airscan.Uuid.{Text}
use sane_airscan.Inifile.File.{
  newline, backslash, Inifile, getc_from, inifile_getc, inifile_ungetc, inifile_tk_reset,
}
use sane_airscan.Inifile.Scan.{
  body, Scan, inifile_strip_trailing_space, line_continuation, after_body, body_turn, turn_at, turn,
  is_delimiter, takes_delimiter, gets_loop, gets_begin, is_open, inifile_gets,
}
use sane_airscan.Inifile.Turns.{
  pending, lacks, tk_append_input, turn_at_input, IsCalm, IsCalm-cases, turn_less, taken, loop_eof,
  loop_char,
}

-- The loop returns.
abbrev pub Returns : Option (Option ℕ × Scan) → Type 0
Returns out = (c : Option ℕ) × (t : Scan) × (out ≡ some (c, t))

if-Returns :
    (b : Bool) (x y : Option (Option ℕ × Scan))
    → Returns x
    → Returns y
    → Returns (if b then x else y)
if-Returns true x y p q = p
if-Returns false x y p q = q

loop_ends :
    (n : ℕ) (d : Option ℕ) (l : Bool) (s : Scan) (input : Text)
    → s.file.input ≡ input
    → IsCalm l input
    → 2 * length input + pending s.state ≤ n
    → Returns (gets_loop (suc n) d l s)
loop_ends n d l s [] e h m = (none, s, loop_eof n d l s e)
loop_ends zero d l s (c ∷ rest) e h m = absurd (omega arith)
loop_ends (suc n) d l s (c ∷ rest) e h m =
    let s1 = taken s c rest in
    let (calm, _) = IsCalm-cases l c rest h in
    let (less, h') =
      turn_less l c s1 n h (unfold turn in turn_at_input s.state l c s1 refl calm) m in
    rw (loop_char (suc n) d l s c rest e) (
      if-Returns (c == newline) _ _ (_, _, refl)
        (if-Returns (takes_delimiter s.state && is_delimiter d c) _ _ (_, _, refl)
          (loop_ends n d l (turn l c s1) (turn l c s1).file.input refl h' less)))

-- Where lines cannot be continued, or the file has no backslash, inifile_gets ends: twice as many rounds
-- as the file has bytes are enough, and one more.
pub gets_ends :
    (f : Inifile) (d : Option ℕ) (linecont : Bool)
    → IsCalm linecont f.input
    → (c : Option ℕ) × (syntax : Bool) × (f' : Inifile) × (inifile_gets
          (2 * length f.input + 1)
          f
          d
          linecont
        ≡ some (c, syntax, f'))
unfolding inifile_gets gets_begin inifile_tk_reset
gets_ends f d l h =
    let (c, t, e) =
      loop_ends (2 * length f.input) d l (gets_begin f) f.input refl h (omega arith) in
    (c, is_open t.state, (inifile_strip_trailing_space t).file, rw (add-one, e, inifile_gets) refl)

-- A scan in the body that has a backslash, and no newline, before it.
abbrev pub IsStuck : Scan → Type 0
IsStuck s =
    (s.state ≡ body)
    × (rest : Text) × (s.file.input ≡ backslash ∷ rest)
    × (lacks newline rest ≡ true)

-- A backslash takes the character behind it off the file, and goes back itself.
continued :
    (s : Scan) (rest : Text)
    → s.state ≡ body
    → s.file.input ≡ rest
    → lacks newline rest ≡ true
    → IsStuck (line_continuation s)
unfolding line_continuation inifile_getc getc_from inifile_ungetc lacks
continued s [] b e h = (ground arith, [], ground arith, refl)
continued s (c ∷ rest) b e h = (ground arith, rest, ground arith, ground arith)

hang_turn :
    (s : Scan) (rest : Text)
    → s.state ≡ body
    → s.file.input ≡ rest
    → lacks newline rest ≡ true
    → IsStuck (body_turn true backslash s)
unfolding body_turn after_body
hang_turn s rest b e h =
    let (ub, later, ue, uh) = continued s rest b e h in
    (ground arith, later, ground (arith, tk_append_input (line_continuation s).file backslash), uh)

turn_body : (l : Bool) (c : ℕ) (s : Scan) → s.state ≡ body → turn l c s ≡ body_turn l c s
unfolding turn turn_at
turn_body l c s e = ap (λ st. turn_at st l c s) e

loop_hangs : (n : ℕ) (s : Scan) → IsStuck s → gets_loop n none true s ≡ none
loop_hangs zero s h = unfold gets_loop in refl
loop_hangs (suc n) s (b, rest, e, h) =
    let s1 = taken s backslash rest in
    let again : gets_loop n none true (turn true backslash s1) ≡ none =
      ap (gets_loop n none true) (turn_body true backslash s1 b)
      ∙ loop_hangs n (body_turn true backslash s1) (hang_turn s1 rest b refl h) in
    loop_char n none true s backslash rest e ∙ if_same (takes_delimiter s.state) _ again
  where
    if_same :
        (d : Bool) (x : Option (Option ℕ × Scan)) {y : Option (Option ℕ × Scan)}
        → y ≡ none
        → (if d && false then x else y) ≡ none
    if_same true x e = e
    if_same false x e = e

begin_hangs :
    (n : ℕ) (f : Inifile) (rest : Text)
    → f.input ≡ backslash ∷ rest
    → lacks newline rest ≡ true
    → gets_loop n none true (gets_begin f) ≡ none
unfolding gets_begin inifile_tk_reset turn turn_at
begin_hangs zero f rest e h = unfold gets_loop in refl
begin_hangs (suc n) f rest e h =
    let s1 = record (taken (gets_begin f) backslash rest) { state = body } in
    loop_char n none true (gets_begin f) backslash rest e
    ∙ loop_hangs n (body_turn true backslash s1) (hang_turn s1 rest refl refl h)

-- A value that begins with a backslash, in a file without a newline from there on, is never read to its
-- end: the loop runs out of any fuel.
pub value_hangs :
    (fuel : ℕ) (f : Inifile) (rest : Text)
    → f.input ≡ backslash ∷ rest
    → lacks newline rest ≡ true
    → inifile_gets fuel f none true ≡ none
unfolding inifile_gets
value_hangs fuel f rest e h = rw (begin_hangs fuel f rest e h, inifile_gets) refl
