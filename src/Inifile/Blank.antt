-- ===== src/Inifile/Blank.antt =====
-- inifile_read at a line that has no token.
use sane_airscan.Base.{
  ℕ, zero, suc, ◌≤◌, ◌≡◌, refl, ap, ◌∙◌, Bool, true, false, ◌&&◌, ◌||◌, Option, some, [], ◌∷◌, ◌++◌,
  ◌==◌, length, arith,
}
use sane_airscan.Uuid.{Text}
use sane_airscan.Inifile.File.{
  newline, Inifile, inifile_getc_nonspace, nonspace_from, inifile_ungetc, inifile_tk_close,
  inifile_tk_append, inifile_tk_reset, inifile_tk_array_export,
}
use sane_airscan.Inifile.Scan.{
  body, Scan, put, inifile_strip_trailing_space, after_body, body_turn, turn_at, turn, gets_loop,
  gets_begin, inifile_gets,
}
use sane_airscan.Inifile.Record.{
  aborted, inifile_read_finish, finish_command, skip_comments, read_line, read_at, inifile_read,
}
use sane_airscan.Inifile.Turns.{taken, loop_char, loop_step}

-- A comma, a space or a tab.
abbrev pub is_blank : ℕ → Bool
is_blank c = c == b',' || c == 32 || c == 9

unfoldable pub all_blank : Text → Bool
all_blank [] = true
all_blank (c ∷ s) = is_blank c && all_blank s

-- The scan of a line in which no token has begun.
record IsIdle (s : Scan) : Type 0 where
  in_body : s.state ≡ body
  closed : s.file.tk_open ≡ false
  empty : s.file.tk_offsets ≡ []

blank_turn :
    (c : ℕ) (s : Scan)
    → is_blank c ≡ true
    → s.file.tk_open ≡ false
    → s.file.tk_offsets ≡ []
    → s.state ≡ body
    → IsIdle (body_turn false c s)
unfolding body_turn after_body put inifile_tk_close inifile_tk_append
blank_turn c s h o e b = ground arith

turn_body : (c : ℕ) (s : Scan) → s.state ≡ body → turn false c s ≡ body_turn false c s
unfolding turn turn_at
turn_body c s e = ap (λ st. turn_at st false c s) e

taken-IsIdle : (s : Scan) (c : ℕ) (rest : Text) → IsIdle s → IsIdle (taken s c rest)
taken-IsIdle s c rest v = record { in_body = v.in_body; closed = v.closed; empty = v.empty }

blank_input :
    (c : ℕ) (s : Scan)
    → is_blank c ≡ true
    → s.state ≡ body
    → s.file.tk_open ≡ false
    → (body_turn false c s).file.input ≡ s.file.input
unfolding body_turn after_body put inifile_tk_close inifile_tk_append
blank_input c s h b o = ground arith

-- The loop runs to the end of the line and records no token.
Ends : Option (Option ℕ × Scan) → Type 0
Ends out = (t : Scan) × (out ≡ some (some newline, t)) × IsIdle t

blank_loop :
    (n : ℕ) (s : Scan) (line rest : Text)
    → IsIdle s
    → s.file.input ≡ line ++ (newline ∷ rest)
    → all_blank line ≡ true
    → length line ≤ n
    → Ends (gets_loop (suc n) (some b'=') false s)
unfolding Ends all_blank
blank_loop n s [] rest v e h l = (
  taken s newline rest,
  loop_char n (some b'=') false s newline rest e,
  taken-IsIdle s newline rest v,
)
blank_loop zero s (c ∷ line) rest v e h l = absurd (omega arith)
blank_loop (suc n) s (c ∷ line) rest v e h l =
    let s1 = taken s c (line ++ (newline ∷ rest)) in
    let w = taken-IsIdle s c (line ++ (newline ∷ rest)) v in
    let b : is_blank c ≡ true = ground arith in
    let same : turn false c s1 ≡ body_turn false c s1 = turn_body c s1 w.in_body in
    let next : IsIdle (body_turn false c s1) = blank_turn c s1 b w.closed w.empty w.in_body in
    let (t, e', v') =
      blank_loop n (body_turn false c s1) line rest next (blank_input c s1 b w.in_body w.closed)
        (ground arith) (omega arith) in
    (
      t,
      loop_step (suc n) (some b'=') false s c (line ++ (newline ∷ rest)) e (ground arith)
            (ground arith)
          ∙ ap (gets_loop (suc n) (some b'=') false) same
          ∙ e',
      v',
    )

-- The first character of the line is a comma.
blank_gets :
    (n : ℕ) (f : Inifile) (line rest : Text)
    → f.input ≡ b',' ∷ (line ++ (newline ∷ rest))
    → all_blank line ≡ true
    → length line ≤ n
    → Ends (gets_loop (suc (suc n)) (some b'=') false (gets_begin f))
unfolding gets_begin inifile_tk_reset body_turn after_body put inifile_tk_close turn turn_at Ends
blank_gets n f line rest e h l =
    let s1 = taken (gets_begin f) b',' (line ++ (newline ∷ rest)) in
    let v : IsIdle (body_turn false b',' (record s1 { state = body })) = record {
      in_body = refl;
      closed = refl;
      empty = refl;
    } in
    let (t, e', v') =
      blank_loop n (body_turn false b',' (record s1 { state = body })) line rest v refl h l in
    (
      t,
      loop_step (suc n) (some b'=') false (gets_begin f) b',' (line ++ (newline ∷ rest)) e refl refl
          ∙ e',
      v',
    )

-- The line is a command without tokens.
blank_read :
    (fuel : ℕ) (f : Inifile)
    → Ends (gets_loop fuel (some b'=') false (gets_begin f))
    → read_line fuel f ≡ aborted
unfolding Ends read_line inifile_gets inifile_read_finish finish_command inifile_tk_array_export
    inifile_strip_trailing_space
blank_read fuel f (t, e, v) = rw (e, inifile_gets, read_line) (rw (v.in_body, v.empty) refl)

-- A line of commas, spaces and tabs that begins with a comma fails the assertion that a command has a
-- token, however much fuel there is beyond the line's length.
pub comma_aborts :
    (n : ℕ) (f : Inifile) (line rest : Text)
    → f.input ≡ b',' ∷ (line ++ (newline ∷ rest))
    → all_blank line ≡ true
    → length line ≤ n
    → inifile_read (suc (suc n)) f ≡ aborted
unfolding inifile_read skip_comments inifile_getc_nonspace nonspace_from read_at inifile_ungetc
comma_aborts n f line rest e h l =
    rw (e, nonspace_from) (blank_read (suc (suc n)) _ (blank_gets n _ line rest refl h l))
