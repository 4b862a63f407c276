-- ===== src/Inifile/Offsets.antt =====
-- The tokens of a scan in the body of a line, against the buffers that they go into.
use sane_airscan.Base.{
  ℕ, ◌+◌, ◌≤◌, ◌<◌, ◌≡◌, refl, ap, inl, inr, Bool, true, false, not, ◌&&◌, none, some, List, [],
  ◌∷◌, ◌++◌, leb, ltb, ◌==◌, if◌then◌else◌, length, length-append, arith, Bool-cases,
}
use sane_airscan.Uuid.{Text}
use sane_airscan.Inifile.File.{
  newline, backslash, quote, is_space, Inifile, line_after, getc_from, inifile_getc, inifile_ungetc,
  inifile_iscomment, inifile_hex2int, inifile_isoctal, inifile_istkbreaker, inifile_tk_open,
  inifile_tk_close, inifile_tk_append, inifile_tk_reset,
}
use sane_airscan.Inifile.Scan.{
  skip_space, string, comment, Scan, inifile_strip_trailing_space, put, put_both, line_continuation,
  is_body, after_body, body_turn,
}

-- Every offset is inside of a buffer of `n` bytes, or at its end.
unfoldable pub all_within : ℕ → List ℕ → Bool
all_within n [] = true
all_within n (o ∷ os) = leb o n && all_within n os

-- Every offset is inside of a buffer of `n` bytes.
unfoldable pub all_below : ℕ → List ℕ → Bool
all_below n [] = true
all_below n (o ∷ os) = ltb o n && all_below n os

unfoldable pub all_above : ℕ → List ℕ → Bool
all_above n [] = true
all_above n (o ∷ os) = ltb n o && all_above n os

-- Every offset is less than those behind it.
unfoldable pub ascending : List ℕ → Bool
ascending [] = true
ascending (o ∷ os) = all_above o os && ascending os

-- The places where tokens begin; a token that is closed has its zero behind it.
pub record IsTokenized (f : Inifile) : Type 0 where
  pub offsets : all_within (length f.tk_buffer) f.tk_offsets ≡ true
  pub opened : f.tk_open ≡ true → 1 ≤ length f.tk_offsets
  pub closed : f.tk_open ≡ false → all_below (length f.tk_buffer) f.tk_offsets ≡ true
  pub order : ascending f.tk_offsets ≡ true

pub record IsValid (s : Scan) : Type 0 where
  pub tokens : IsTokenized s.file
  pub spaces : s.trailing_space ≤ length s.file.buffer

within_more : (n m : ℕ) (os : List ℕ) → n ≤ m → all_within n os ≡ true → all_within m os ≡ true
unfolding all_within
within_more n m [] h e = refl
within_more n m (o ∷ os) h e = ground (arith, within_more n m os h)

within_append : (n : ℕ) (os : List ℕ) → all_within n os ≡ true → all_within n (os ++ n ∷ []) ≡ true
unfolding all_within
within_append n [] e = ground arith
within_append n (o ∷ os) e = ground (arith, within_append n os)

below_more : (n m : ℕ) (os : List ℕ) → n < m → all_within n os ≡ true → all_below m os ≡ true
unfolding all_within all_below
below_more n m [] h e = refl
below_more n m (o ∷ os) h e = ground (arith, below_more n m os h)

above_append :
    (o n : ℕ) (os : List ℕ) → all_above o os ≡ true → o < n → all_above o (os ++ n ∷ []) ≡ true
unfolding all_above
above_append o n [] e h = ground arith
above_append o n (x ∷ os) e h = ground (arith, above_append o n os)

ascending_append :
    (n : ℕ) (os : List ℕ)
    → all_below n os ≡ true
    → ascending os ≡ true
    → ascending (os ++ n ∷ []) ≡ true
unfolding ascending all_below
ascending_append n [] h e = unfold all_above in refl
ascending_append n (o ∷ os) h e = ground (arith, above_append o n os, ascending_append n os)

if-IsTokenized :
    (b : Bool) (f g : Inifile) → IsTokenized f → IsTokenized g → IsTokenized (if b then f else g)
if-IsTokenized true f g v w = v
if-IsTokenized false f g v w = w

tk_open-IsTokenized : (f : Inifile) → IsTokenized f → IsTokenized (inifile_tk_open f)
unfolding inifile_tk_open sane_airscan.Inifile.File.inifile_tk_array_push
tk_open-IsTokenized f v = by_flag (not f.tk_open) refl
  where
    opened_now : Inifile
    opened_now = record f { tk_offsets = f.tk_offsets ++ length f.tk_buffer ∷ []; tk_open = true }

    by_flag : (b : Bool) → not f.tk_open ≡ b → IsTokenized (if b then opened_now else f)
    by_flag false e = v
    by_flag true e = record {
      offsets = within_append (length f.tk_buffer) f.tk_offsets v.offsets;
      opened = λ _. omega (arith, length-append f.tk_offsets (length f.tk_buffer ∷ []));
      closed = λ h. cc;
      order = ascending_append (length f.tk_buffer) f.tk_offsets (v.closed (ground arith)) v.order;
    }

grown :
    (f : Inifile) (c : ℕ) (b : Bool)
    → IsTokenized f
    → (b ≡ true → 1 ≤ length f.tk_offsets)
    → IsTokenized (record f { tk_buffer = f.tk_buffer ++ c ∷ []; tk_open = b })
grown f c b v h = record {
  offsets =
      within_more (length f.tk_buffer) _ f.tk_offsets
        (omega (arith, length-append f.tk_buffer (c ∷ []))) v.offsets;
  opened = h;
  closed = λ _.
      below_more (length f.tk_buffer) _ f.tk_offsets
        (omega (arith, length-append f.tk_buffer (c ∷ []))) v.offsets;
  order = v.order;
}

pub tk_close-IsTokenized : (f : Inifile) → IsTokenized f → IsTokenized (inifile_tk_close f)
unfolding inifile_tk_close
tk_close-IsTokenized f v = if-IsTokenized f.tk_open _ _ (grown f 0 false v (λ h. cc)) v

tk_append-IsTokenized : (f : Inifile) (c : ℕ) → IsTokenized f → IsTokenized (inifile_tk_append f c)
unfolding inifile_tk_append
tk_append-IsTokenized f c v =
    let w = tk_open-IsTokenized f v in
    grown (inifile_tk_open f) c (inifile_tk_open f).tk_open w w.opened

-- What the token functions leave alone.
pub tk_buffers :
    (f : Inifile) (c : ℕ)
    → ((inifile_tk_open f).buffer ≡ f.buffer)
      × ((inifile_tk_close f).buffer ≡ f.buffer)
      × ((inifile_tk_append f c).buffer ≡ f.buffer)
unfolding inifile_tk_open inifile_tk_close inifile_tk_append
    sane_airscan.Inifile.File.inifile_tk_array_push
tk_buffers f c = (ground arith, ground arith, ground arith)

-- IsTokenized looks at the tokens only.
pub same_tokens :
    (f g : Inifile)
    → g.tk_buffer ≡ f.tk_buffer
    → g.tk_offsets ≡ f.tk_offsets
    → g.tk_open ≡ f.tk_open
    → IsTokenized f
    → IsTokenized g
same_tokens f g a b c v = record {
  offsets = rw (a, b) v.offsets;
  opened = λ h. rw b (v.opened (cc));
  closed = λ h. rw (a, b) (v.closed (cc));
  order = rw b v.order;
}

pub strip-IsValid : (s : Scan) → IsValid s → IsValid (inifile_strip_trailing_space s)
unfolding inifile_strip_trailing_space
strip-IsValid s v = record {
  tokens = same_tokens s.file _ refl refl refl v.tokens;
  spaces = omega arith;
}

pub put_both-IsValid : (s : Scan) (c : ℕ) → IsValid s → IsValid (put_both s c)
unfolding put_both put
put_both-IsValid s c v = record {
  tokens =
      tk_append-IsTokenized (put s.file c) c
        (same_tokens s.file (put s.file c) refl refl refl v.tokens);
  spaces =
      rw ((tk_buffers (put s.file c) c).2)
        (omega (arith, length-append s.file.buffer (c ∷ []), v.spaces));
}

pub if-IsValid : (b : Bool) (s t : Scan) → IsValid s → IsValid t → IsValid (if b then s else t)
if-IsValid true s t v w = v
if-IsValid false s t v w = w

-- A character that goes into the line may count as a trailing space.
put-IsValid :
    (s : Scan) (c : ℕ)
    → IsValid s
    → IsValid (record s { file = put s.file c })
      × (s.trailing_space + 1 ≤ length (put s.file c).buffer)
unfolding put
put-IsValid s c v = (
  record {
    tokens = same_tokens s.file _ refl refl refl v.tokens;
    spaces = omega (arith, length-append s.file.buffer (c ∷ []), v.spaces);
  },
  omega (arith, length-append s.file.buffer (c ∷ []), v.spaces),
)

-- A space behind the put counts; any other character does not.
after_body-IsValid :
    (c : ℕ) (s : Scan)
    → IsValid s
    → (is_body s.state ≡ true → is_space c ≡ true → s.trailing_space + 1 ≤ length s.file.buffer)
    → IsValid (after_body c s)
unfolding after_body
after_body-IsValid c s v h = elim (Bool-cases (is_body s.state)) [
  | inr n ↦ rw n (strip-IsValid s v)
  | inl y ↦ elim (Bool-cases (is_space c)) [
    | inl z ↦
        rw (y, z)
          (record {
            tokens = tk_close-IsTokenized s.file v.tokens;
            spaces = omega (arith, ap length (tk_buffers s.file c).1, h y z);
          })
    | inr z ↦
        rw (y, z)
          (record {
            tokens =
                if-IsTokenized (inifile_istkbreaker c) _ _ (tk_close-IsTokenized s.file v.tokens)
                  (tk_append-IsTokenized s.file c v.tokens);
            spaces = omega arith;
          })
  ]
]

line_continuation-IsValid : (s : Scan) → IsValid s → IsValid (line_continuation s)
unfolding line_continuation inifile_getc
line_continuation-IsValid s v = at s.file.input
  where
    at :
        (input : Text)
        → IsValid (
            let (c2, f) = getc_from s.file input in
            elim c2 [
              | none ↦ record s { file = inifile_ungetc f backslash }
              | some c ↦
                  if c == newline
                  then record (inifile_strip_trailing_space (record s { file = f })) {
                    state = skip_space;
                  }
                  else record s { file = inifile_ungetc f backslash }
            ])
    at [] =
        unfold getc_from inifile_ungetc in
        record { tokens = same_tokens s.file _ refl refl refl v.tokens; spaces = v.spaces }
    at (c ∷ rest) =
        unfold getc_from inifile_ungetc inifile_strip_trailing_space in
        if-IsValid (c == newline) _ _
          (record { tokens = same_tokens s.file _ refl refl refl v.tokens; spaces = omega arith })
          (record { tokens = same_tokens s.file _ refl refl refl v.tokens; spaces = v.spaces })

-- What the case of the body does before its end.
body_start : Bool → ℕ → Scan → Scan
body_start linecont c s =
    if c == quote
    then record s { state = string; file = inifile_tk_open s.file }
    else if inifile_iscomment c
    then record s { state = comment }
    else if c == backslash && linecont
    then line_continuation s
    else record s { file = put s.file c }

body_start-IsValid : (l : Bool) (c : ℕ) (s : Scan) → IsValid s → IsValid (body_start l c s)
unfolding body_start
body_start-IsValid l c s v =
    if-IsValid (c == quote) _ _
      (record {
        tokens = tk_open-IsTokenized s.file v.tokens;
        spaces = omega (arith, ap length (tk_buffers s.file c).0, v.spaces);
      })
      (if-IsValid (inifile_iscomment c) _ _ (record { tokens = v.tokens; spaces = v.spaces })
        (if-IsValid (c == backslash && l) _ _ (line_continuation-IsValid s v)
          (put-IsValid s c v).0))

-- A space that is in the body still has been put.
space_put :
    (l : Bool) (c : ℕ) (s : Scan)
    → IsValid s
    → is_space c ≡ true
    → (body_start l c s).trailing_space + 1 ≤ length (body_start l c s).file.buffer
unfolding body_start
space_put l c s v h =
    let q : (c == quote) ≡ false = ground arith in
    let k : inifile_iscomment c ≡ false = ground arith in
    let b : (c == backslash && l) ≡ false = ground arith in rw (q, k, b) (put-IsValid s c v).1

pub body_turn-IsValid : (l : Bool) (c : ℕ) (s : Scan) → IsValid s → IsValid (body_turn l c s)
unfolding body_turn body_start
body_turn-IsValid l c s v =
    after_body-IsValid c (body_start l c s) (body_start-IsValid l c s v)
      (λ _ h. space_put l c s v h)
