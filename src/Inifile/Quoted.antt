-- ===== src/Inifile/Quoted.antt =====
-- inifile_gets against the quoting of a text.
use sane_airscan.Base.{
  ℕ, zero, suc, ◌-◌, ◌*◌, ◌≤◌, ◌≡◌, refl, ap, ◌∙◌, sym, subst, Bool, true, false, ◌||◌, Option,
  some, [], ◌∷◌, ◌++◌, ◌==◌, length, take, arith, Bool-cases, ==_iff, inl, inr,
}
use mathlib.Core.List.{append_assoc, append-nil}
use sane_airscan.Uuid.{Text}
use sane_airscan.Inifile.File.{
  newline, backslash, quote, is_space, Inifile, inifile_iscomment, inifile_tk_open,
  inifile_tk_append, inifile_tk_reset, c_string, inifile_tk_array_export, inifile_isoctal,
}
use sane_airscan.Inifile.Scan.{
  string, string_bslash, Scan, put_both, inifile_strip_trailing_space, after_body, body_turn,
  escaped, turn_at, turn, is_delimiter, gets_loop, gets_begin, inifile_gets,
}
use sane_airscan.Inifile.Turns.{taken, loop_step, lacks}
use sane_airscan.Inifile.Writing.{
  escape, quoted_rest, InString, put_lem, put_input, taken-InString, plain_round, escaped_rounds,
  escaped-InString, same_Closed, closing, Closed,
}

-- A byte that is written behind a backslash, and the loop from there on.
escaped_byte :
    (n : ℕ) (d : Option ℕ) (l : Bool) (done w : Text) (s : Scan) (c k : ℕ) (rest input : Text)
    → InString done s
    → s.file.input ≡ backslash ∷ (k ∷ input)
    → (k == newline) ≡ false
    → (k == b'x' || k == b'X') ≡ false
    → inifile_isoctal k ≡ false
    → escaped k ≡ c
    → ((t : Scan)
        → InString (done ++ c ∷ []) t
        → t.file.input ≡ input
        → Closed ((done ++ c ∷ []) ++ w) rest (gets_loop n d l t))
    → Closed (done ++ (c ∷ w)) rest (gets_loop (suc (suc n)) d l s)
escaped_byte n d l done w s c k rest input v e h x o is go =
    let s2 = taken (taken s backslash (k ∷ input)) k input in
    let t = record (put_both (record s2 { state = string_bslash }) c) { state = string } in
    let v2 =
      taken-InString done (taken s backslash (k ∷ input)) k input
        (taken-InString done s backslash (k ∷ input) v) in
    same_Closed (done ++ (c ∷ w)) rest _ _
      (escaped_rounds n d l done s k input v e h x o
        ∙ ap
            (λ b.
              gets_loop n d l
                (record (put_both (record s2 { state = string_bslash }) b) { state = string }))
            is)
      (subst (λ z. Closed z rest (gets_loop n d l t)) (append_assoc done (c ∷ []) w)
        (go t (escaped-InString done s2 c v2)
          (put_input (record s2 { state = string_bslash }) c v.opened)))

plain_byte :
    (n : ℕ) (d : Option ℕ) (l : Bool) (done w : Text) (s : Scan) (c : ℕ) (rest input : Text)
    → InString done s
    → s.file.input ≡ c ∷ input
    → (c == quote) ≡ false
    → (c == backslash) ≡ false
    → (c == newline) ≡ false
    → ((t : Scan)
        → InString (done ++ c ∷ []) t
        → t.file.input ≡ input
        → Closed ((done ++ c ∷ []) ++ w) rest (gets_loop n d l t))
    → Closed (done ++ (c ∷ w)) rest (gets_loop (suc n) d l s)
plain_byte n d l done w s c rest input v e q b h go =
    let s1 = taken s c input in
    same_Closed (done ++ (c ∷ w)) rest _ _ (plain_round n d l done s c input v e q b h) (
      subst (λ z. Closed z rest (gets_loop n d l (put_both s1 c))) (append_assoc done (c ∷ []) w)
        (go (put_both s1 c) (put_lem done s1 c (taken-InString done s c input v))
          (put_input s1 c v.opened)))

quoted_loop :
    (n : ℕ) (d : Option ℕ) (l : Bool) (done w : Text) (s : Scan) (rest : Text)
    → InString done s
    → s.file.input ≡ quoted_rest w rest
    → 2 * length w ≤ n
    → Closed (done ++ w) rest (gets_loop (suc (suc n)) d l s)
unfolding quoted_rest escape
quoted_loop n d l done [] s rest v e h = rw (append-nil done) (closing n d l done s rest v e)
quoted_loop zero d l done (c ∷ w) s rest v e h = absurd (omega arith)
quoted_loop (suc zero) d l done (c ∷ w) s rest v e h = absurd (omega arith)
quoted_loop (suc (suc n)) d l done (c ∷ w) s rest v e h = elim (Bool-cases (c == quote)) [
  | inl q ↦
      escaped_byte (suc (suc n)) d l done w s c quote rest (quoted_rest w rest) v (e ∙ rw q refl)
        refl refl refl (unfold escaped in sym ((==_iff c quote).0 q))
        (λ t v' e'. quoted_loop n d l (done ++ c ∷ []) w t rest v' e' (omega arith))
  | inr q ↦ elim (Bool-cases (c == backslash)) [
    | inl b ↦
        escaped_byte (suc (suc n)) d l done w s c backslash rest (quoted_rest w rest) v
          (e ∙ rw (q, b) refl) refl refl refl (unfold escaped in sym ((==_iff c backslash).0 b))
          (λ t v' e'. quoted_loop n d l (done ++ c ∷ []) w t rest v' e' (omega arith))
    | inr b ↦ elim (Bool-cases (c == newline)) [
      | inl k ↦
          escaped_byte (suc (suc n)) d l done w s c b'n' rest (quoted_rest w rest) v
            (e ∙ rw (q, b, k) refl) refl refl refl (unfold escaped in sym ((==_iff c newline).0 k))
            (λ t v' e'. quoted_loop n d l (done ++ c ∷ []) w t rest v' e' (omega arith))
      | inr k ↦
          plain_byte (suc (suc (suc n))) d l done w s c rest (quoted_rest w rest) v
            (e ∙ rw (q, b, k) refl) q b k
            (λ t v' e'. quoted_loop (suc n) d l (done ++ c ∷ []) w t rest v' e' (omega arith))
    ]
  ]
]

-- The opening quote.
opening :
    (n : ℕ) (f : Inifile) (d : Option ℕ) (l : Bool) (w rest : Text)
    → f.input ≡ quote ∷ quoted_rest w rest
    → is_delimiter d quote ≡ false
    → 2 * length w ≤ n
    → Closed w rest (gets_loop (suc (suc (suc n))) d l (gets_begin f))
unfolding gets_begin inifile_tk_reset
opening n f d l w rest e h m =
    let s1 = taken (gets_begin f) quote (quoted_rest w rest) in
    let s2 : Scan = record s1 {
      file = record (s1.file) { tk_open = true; tk_offsets = 0 ∷ []; buffer = [] };
      state = string;
      trailing_space = 0;
    } in
    let step : turn l quote s1 ≡ s2 =
      unfold turn turn_at body_turn after_body inifile_strip_trailing_space inifile_tk_open
        sane_airscan.Inifile.File.inifile_tk_array_push in
      refl in
    same_Closed w rest _ _
      (loop_step (suc (suc n)) d l (gets_begin f) quote (quoted_rest w rest) e refl h
        ∙ ap (gets_loop (suc (suc n)) d l) step)
      (quoted_loop n d l [] w s2 rest
        (record {
          at = refl;
          opened = refl;
          first = refl;
          token = refl;
          line = refl;
          spaces = refl;
        })
        refl m)

c_string_whole : (w : Text) → lacks 0 w ≡ true → c_string w ≡ w
unfolding c_string lacks
c_string_whole [] h = refl
c_string_whole (c ∷ w) h = ground (arith, c_string_whole w)

take_all : (n : ℕ) (w : Text) → n ≡ length w → take n w ≡ w
take_all zero [] h = refl
take_all (suc n) [] h = refl
take_all zero (c ∷ w) h = absurd (omega arith)
take_all (suc n) (c ∷ w) h = ap (λ t. c ∷ t) (take_all n w (omega arith))

-- The line that inifile_gets leaves is `w`, which is its only token.
pub record IsQuoted (w rest : Text) (f : Inifile) : Type 0 where
  pub line : f.buffer ≡ w
  pub tokens : inifile_tk_array_export f ≡ w ∷ []
  pub left : f.input ≡ rest

Closed-IsQuoted :
    (w rest : Text) (out : Option (Option ℕ × Scan)) (k : Closed w rest out)
    → lacks 0 w ≡ true
    → IsQuoted w rest (inifile_strip_trailing_space k.scan).file
unfolding inifile_strip_trailing_space inifile_tk_array_export
Closed-IsQuoted w rest out k h = record {
  line = rw (k.line, k.spaces) (take_all (length w - 0) w (omega arith));
  tokens = rw (k.first, k.token) (ap (λ t. t ∷ []) (c_string_whole w h));
  left = k.left;
}

-- A text without a zero byte that stands in quotes on a line of its own is read back: it is the line
-- that inifile_gets returns and its only token, there is no syntax error, and the rest of the file is
-- left. Two rounds for each byte and three more are enough.
pub gets-IsQuoted :
    (f : Inifile) (d : Option ℕ) (linecont : Bool) (w rest : Text)
    → f.input ≡ quote ∷ quoted_rest w rest
    → is_delimiter d quote ≡ false
    → lacks 0 w ≡ true
    → (f' : Inifile) × (inifile_gets (suc (suc (suc (2 * length w)))) f d linecont
        ≡ some (some newline, false, f'))
      × IsQuoted w rest f'
unfolding inifile_gets
gets-IsQuoted f d l w rest e h z =
    let k = opening (2 * length w) f d l w rest e h (omega arith) in
    (
      (inifile_strip_trailing_space k.scan).file,
      rw (k.ends, inifile_gets) (rw k.at refl),
      Closed-IsQuoted w rest _ k z,
    )
