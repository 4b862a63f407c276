-- ===== src/Inifile/Writing.antt =====
-- The quoting of a text, and the rounds of inifile_gets on a byte of it.
use sane_airscan.Base.{
  ℕ, suc, ◌≡◌, refl, ap, ◌∙◌, sym, subst, Bool, true, false, ◌||◌, Option, some, [], ◌∷◌, ◌++◌,
  ◌==◌, if◌then◌else◌, arith,
}
use sane_airscan.Uuid.{Text}
use sane_airscan.Inifile.File.{
  newline, backslash, quote, is_space, Inifile, inifile_iscomment, inifile_tk_open,
  inifile_tk_append, inifile_tk_reset, c_string, inifile_tk_array_export, inifile_isoctal,
}
use sane_airscan.Inifile.Scan.{
  body, string, string_bslash, Scan, put, put_both, escaped, bslash_turn, turn_at, turn, gets_loop,
}
use sane_airscan.Inifile.Turns.{taken, loop_char, loop_step}

-- How a byte is written between quotes.
unfoldable pub escape : ℕ → Text
escape c =
    if c == quote
    then backslash ∷ quote ∷ []
    else if c == backslash
    then backslash ∷ backslash ∷ []
    else if c == newline
    then backslash ∷ b'n' ∷ []
    else c ∷ []

-- The rest of a quoted text and of its line.
unfoldable pub quoted_rest : Text → Text → Text
quoted_rest [] rest = quote ∷ newline ∷ rest
quoted_rest (c ∷ w) rest = escape c ++ quoted_rest w rest

-- In a string that has the text `done` so far.
pub record InString (done : Text) (s : Scan) : Type 0 where
  pub at : s.state ≡ string
  pub opened : s.file.tk_open ≡ true
  pub first : s.file.tk_offsets ≡ 0 ∷ []
  pub token : s.file.tk_buffer ≡ done
  pub line : s.file.buffer ≡ done
  pub spaces : s.trailing_space ≡ 0

pub put_lem :
    (done : Text) (s : Scan) (c : ℕ) → InString done s → InString (done ++ c ∷ []) (put_both s c)
unfolding put_both put inifile_tk_append inifile_tk_open
    sane_airscan.Inifile.File.inifile_tk_array_push
put_lem done s c v = ground arith

pub put_input :
    (s : Scan) (c : ℕ) → s.file.tk_open ≡ true → (put_both s c).file.input ≡ s.file.input
unfolding put_both put inifile_tk_append inifile_tk_open
    sane_airscan.Inifile.File.inifile_tk_array_push
put_input s c h = ground arith

pub taken-InString :
    (done : Text) (s : Scan) (c : ℕ) (rest : Text)
    → InString done s
    → InString done (taken s c rest)
taken-InString done s c rest v = record {
  at = v.at;
  opened = v.opened;
  first = v.first;
  token = v.token;
  line = v.line;
  spaces = v.spaces;
}

turn_string : (l : Bool) (c : ℕ) (s : Scan) → s.state ≡ string → turn l c s ≡ turn_at string l c s
unfolding turn
turn_string l c s e = ap (λ st. turn_at st l c s) e

-- A byte that stands for itself.
pub plain_round :
    (n : ℕ) (d : Option ℕ) (l : Bool) (done : Text) (s : Scan) (c : ℕ) (rest : Text)
    → InString done s
    → s.file.input ≡ c ∷ rest
    → (c == quote) ≡ false
    → (c == backslash) ≡ false
    → (c == newline) ≡ false
    → gets_loop (suc n) d l s ≡ gets_loop n d l (put_both (taken s c rest) c)
plain_round n d l done s c rest v e q b h =
    loop_step n d l s c rest e h (rw v.at refl)
    ∙ ap (gets_loop n d l)
        (turn_string l c (taken s c rest) v.at ∙ unfold turn_at in rw (b, q) refl)

-- A byte behind a backslash.
pub escaped_rounds :
    (n : ℕ) (d : Option ℕ) (l : Bool) (done : Text) (s : Scan) (c : ℕ) (rest : Text)
    → InString done s
    → s.file.input ≡ backslash ∷ (c ∷ rest)
    → (c == newline) ≡ false
    → (c == b'x' || c == b'X') ≡ false
    → inifile_isoctal c ≡ false
    → gets_loop (suc (suc n)) d l s
      ≡ gets_loop n d l
          (record (put_both
            (record (taken (taken s backslash (c ∷ rest)) c rest) { state = string_bslash })
            (escaped c)) { state = string })
unfolding turn_at bslash_turn
escaped_rounds n d l done s c rest v e h x o =
    let s1 = taken s backslash (c ∷ rest) in
    let s2 = record s1 { state = string_bslash } in
    loop_step (suc n) d l s backslash (c ∷ rest) e refl (rw v.at refl)
    ∙ ap (gets_loop (suc n) d l) (turn_string l backslash s1 v.at)
    ∙ loop_step n d l s2 c rest refl h refl
    ∙ ap (gets_loop n d l) (unfold turn in rw (x, o) refl)

pub escaped-InString :
    (done : Text) (s : Scan) (c : ℕ)
    → InString done s
    → InString
        (done ++ c ∷ [])
        (record (put_both (record s { state = string_bslash }) c) { state = string })
unfolding put_both put inifile_tk_append inifile_tk_open
    sane_airscan.Inifile.File.inifile_tk_array_push
escaped-InString done s c v = ground arith

-- Where the loop comes to the end of the line behind a quoted text.
pub record Closed (w rest : Text) (out : Option (Option ℕ × Scan)) : Type 0 where
  pub scan : Scan
  pub ends : out ≡ some (some newline, scan)
  pub at : scan.state ≡ body
  pub first : scan.file.tk_offsets ≡ 0 ∷ []
  pub token : scan.file.tk_buffer ≡ w
  pub line : scan.file.buffer ≡ w
  pub spaces : scan.trailing_space ≡ 0
  pub left : scan.file.input ≡ rest

pub same_Closed :
    (w rest : Text) (x y : Option (Option ℕ × Scan)) → x ≡ y → Closed w rest y → Closed w rest x
same_Closed w rest x y e k = subst (Closed w rest) (sym e) k

pub closing :
    (n : ℕ) (d : Option ℕ) (l : Bool) (done : Text) (s : Scan) (rest : Text)
    → InString done s
    → s.file.input ≡ quote ∷ (newline ∷ rest)
    → Closed done rest (gets_loop (suc (suc n)) d l s)
closing n d l done s rest v e =
    let s1 = taken s quote (newline ∷ rest) in
    let s2 = record s1 { state = body } in
    let step : turn_at string l quote s1 ≡ s2 = unfold turn_at in refl in
    same_Closed done rest _ _
      (loop_step (suc n) d l s quote (newline ∷ rest) e refl (rw v.at refl)
        ∙ ap (gets_loop (suc n) d l) (turn_string l quote s1 v.at ∙ step))
      (record {
        scan = taken s2 newline rest;
        ends = loop_char n d l s2 newline rest refl;
        at = refl;
        first = v.first;
        token = v.token;
        line = v.line;
        spaces = v.spaces;
        left = refl;
      })
