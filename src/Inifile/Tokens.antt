-- ===== src/Inifile/Tokens.antt =====
-- The offsets of tokens and the count of trailing spaces, against the buffers that they go into.
use sane_airscan.Base.{
  ℕ, zero, suc, ◌+◌, ◌*◌, ◌%◌, ◌≡◌, refl, subst, ap, Bool, true, false, not, ◌&&◌, ◌||◌, Option,
  none, some, [], ◌∷◌, ◌==◌, if◌then◌else◌, length, arith,
}
use sane_airscan.Uuid.{Text, is_xdigit}
use sane_airscan.Inifile.File.{
  newline, backslash, quote, is_space, Inifile, inifile_ungetc, inifile_hex2int, inifile_isoctal,
  inifile_tk_reset,
}
use sane_airscan.Inifile.Scan.{
  Prs, skip_space, body, string, string_bslash, string_hex, string_octal, comment, Scan,
  inifile_strip_trailing_space, escaped, bslash_turn, end_number, hex_turn, octal_turn, turn_at,
  turn, is_delimiter, takes_delimiter, gets_loop, gets_begin, is_open, inifile_gets,
}
use sane_airscan.Inifile.Turns.{IsCalm, taken, loop_eof, loop_char}
use sane_airscan.Inifile.Ends.{gets_ends}
use sane_airscan.Inifile.Offsets.{
  all_within, all_below, ascending, IsTokenized, IsValid, tk_close-IsTokenized, tk_buffers,
  same_tokens, strip-IsValid, put_both-IsValid, if-IsValid, body_turn-IsValid,
}

bslash_turn-IsValid : (c : ℕ) (s : Scan) → IsValid s → IsValid (bslash_turn c s)
unfolding bslash_turn
bslash_turn-IsValid c s v =
    let w = put_both-IsValid s (escaped c) v in
    if-IsValid (c == b'x' || c == b'X') _ _ (record { tokens = v.tokens; spaces = v.spaces })
      (if-IsValid (inifile_isoctal c) _ _ (record { tokens = v.tokens; spaces = v.spaces })
        (record { tokens = w.tokens; spaces = w.spaces }))

end_number-IsValid : (s : Scan) → IsValid s → IsValid (end_number s)
end_number-IsValid s v =
    put_both-IsValid (record s { state = string }) (s.accumulator % 256)
      (record { tokens = v.tokens; spaces = v.spaces })

returned-IsValid :
    (s : Scan) (c : ℕ)
    → IsValid s
    → IsValid (end_number (record s { file = inifile_ungetc s.file c }))
unfolding inifile_ungetc
returned-IsValid s c v =
    end_number-IsValid (record s { file = inifile_ungetc s.file c })
      (record { tokens = same_tokens s.file _ refl refl refl v.tokens; spaces = v.spaces })

hex_turn-IsValid : (c : ℕ) (s : Scan) → IsValid s → IsValid (hex_turn c s)
unfolding hex_turn
hex_turn-IsValid c s v =
    if-IsValid (is_xdigit c) _ _
      (if-IsValid (not (s.count == 2)) _ _ (record { tokens = v.tokens; spaces = v.spaces }) v)
      (returned-IsValid s c v)

octal_turn-IsValid : (c : ℕ) (s : Scan) → IsValid s → IsValid (octal_turn c s)
unfolding octal_turn
octal_turn-IsValid c s v =
    if-IsValid (inifile_isoctal c) _ _
      (if-IsValid (s.count + 1 == 3) _ _
        (end_number-IsValid
          (record s { accumulator = s.accumulator * 8 + inifile_hex2int c; count = s.count + 1 })
          (record { tokens = v.tokens; spaces = v.spaces }))
        (record { tokens = v.tokens; spaces = v.spaces }))
      (returned-IsValid s c v)

turn_at-IsValid : (st : Prs) (l : Bool) (c : ℕ) (s : Scan) → IsValid s → IsValid (turn_at st l c s)
unfolding turn_at
turn_at-IsValid skip_space l c s v = if-IsValid (is_space c) _ _ v (
    body_turn-IsValid l c (record s { state = body })
      (record { tokens = v.tokens; spaces = v.spaces }))
turn_at-IsValid body l c s v = body_turn-IsValid l c s v
turn_at-IsValid string l c s v =
    if-IsValid (c == backslash) _ _ (record { tokens = v.tokens; spaces = v.spaces })
      (if-IsValid (c == quote) _ _ (record { tokens = v.tokens; spaces = v.spaces })
        (put_both-IsValid s c v))
turn_at-IsValid string_bslash l c s v = bslash_turn-IsValid c s v
turn_at-IsValid string_hex l c s v = hex_turn-IsValid c s v
turn_at-IsValid string_octal l c s v = octal_turn-IsValid c s v
turn_at-IsValid comment l c s v = v

-- The scan that a loop leaves, if it ends.
abbrev LoopIsValid : Option (Option ℕ × Scan) → Type 0
LoopIsValid none = Unit {0}
LoopIsValid (some (c, s)) = IsValid s

if-LoopIsValid :
    (b : Bool) (x y : Option (Option ℕ × Scan))
    → LoopIsValid x
    → LoopIsValid y
    → LoopIsValid (if b then x else y)
if-LoopIsValid true x y v w = v
if-LoopIsValid false x y v w = w

taken-IsValid : (s : Scan) (c : ℕ) (rest : Text) → IsValid s → IsValid (taken s c rest)
taken-IsValid s c rest v = record {
  tokens = same_tokens s.file _ refl refl refl v.tokens;
  spaces = v.spaces;
}

loop-IsValid :
    (n : ℕ) (d : Option ℕ) (l : Bool) (s : Scan) (input : Text)
    → s.file.input ≡ input
    → IsValid s
    → LoopIsValid (gets_loop n d l s)
loop-IsValid zero d l s input e v = unfold gets_loop in tt
loop-IsValid (suc n) d l s [] e v = rw (loop_eof n d l s e) v
loop-IsValid (suc n) d l s (c ∷ rest) e v =
    let w = taken-IsValid s c rest v in
    rw (loop_char n d l s c rest e) (
      if-LoopIsValid (c == newline) _ _ w (
        if-LoopIsValid (takes_delimiter s.state && is_delimiter d c) _ _
          (record {
            tokens = tk_close-IsTokenized (taken s c rest).file w.tokens;
            spaces = omega (arith, ap length (tk_buffers (taken s c rest).file c).1, w.spaces);
          })
          (loop-IsValid n d l (turn l c (taken s c rest)) (turn l c (taken s c rest)).file.input
            refl (unfold turn in turn_at-IsValid s.state l c (taken s c rest) w))))

abbrev GetsIsTokenized : Option (Option ℕ × Bool × Inifile) → Type 0
GetsIsTokenized none = Unit {0}
GetsIsTokenized (some (_, _, f)) = IsTokenized f

gets_at :
    (d : Option ℕ) (out : Option (Option ℕ × Scan))
    → LoopIsValid out
    → GetsIsTokenized (elim out [
      | none ↦ none
      | some (c, s) ↦ some (c, is_open s.state, (inifile_strip_trailing_space s).file)
    ])
gets_at d none v = tt
gets_at d (some (c, s)) v = (strip-IsValid s v).tokens

-- Where lines cannot be continued, or the file has no backslash: inifile_gets ends, within twice as many
-- rounds as the file has bytes and one more. The tokens that it has recorded then begin one behind the
-- other, inside of the token buffer or at its end, and before its end when no token is open; an open
-- token is recorded; whatever the file held before.
pub gets_tokens :
    (f : Inifile) (d : Option ℕ) (linecont : Bool)
    → IsCalm linecont f.input
    → (c : Option ℕ) × (syntax : Bool) × (f' : Inifile) × (inifile_gets
          (2 * length f.input + 1)
          f
          d
          linecont
        ≡ some (c, syntax, f'))
      × IsTokenized f'
unfolding inifile_gets gets_begin inifile_tk_reset all_within all_below ascending
gets_tokens f d l h =
    let start : IsValid (gets_begin f) = record {
      tokens = record { offsets = refl; opened = λ h. cc; closed = λ _. refl; order = refl };
      spaces = omega arith;
    } in
    let (c, y, f', e) = gets_ends f d l h in
    (
      c,
      y,
      f',
      e,
      subst GetsIsTokenized e (
          gets_at d _
            (loop-IsValid (2 * length f.input + 1) d l (gets_begin f) f.input refl start)),
    )
