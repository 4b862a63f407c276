-- ===== src/Http/Shrinks.antt =====
-- http_uri_remove_dot_segments on each path: it ends within the buffer.
use sane_airscan.Base.{
  ℕ, zero, suc, ◌+◌, ◌≤◌, ◌<◌, ◌≡◌, refl, Bool, true, false, ◌||◌, Option, none, some, [], ◌∷◌,
  if◌then◌else◌, length, drop, length-append, arith,
}
use sane_airscan.Uuid.{Text}
use sane_airscan.Http.Path.{
  slash, dot, http_uri_str_prefix, http_uri_str_equal, http_uri_str_rchr,
  http_uri_remove_last_segment, before_rchr, or_whole, before_slash, from_slash, move_segment,
  path_round, path_loop, http_uri_remove_dot_segments,
}

equal_length : (a b : Text) → http_uri_str_equal a b ≡ true → length a ≡ length b
unfolding http_uri_str_equal
equal_length [] [] h = refl
equal_length [] (y ∷ b) h = cc
equal_length (x ∷ a) [] h = cc
equal_length (x ∷ a) (y ∷ b) h = ground (arith, equal_length a b)

whole_length :
    (c : ℕ) (path : Text) (cut : Option Text)
    → length (or_whole path cut) ≤ length path
    → length (or_whole (c ∷ path) (before_rchr c cut)) ≤ suc (length path)
whole_length c path none h = ground arith
whole_length c path (some cut) h = omega arith

rchr_length : (path : Text) → length (or_whole path (http_uri_str_rchr path)) ≤ length path
unfolding http_uri_str_rchr
rchr_length [] = omega arith
rchr_length (c ∷ path) = whole_length c path (http_uri_str_rchr path) (rchr_length path)

last_length : (path : Text) → length (http_uri_remove_last_segment path) ≤ length path
unfolding http_uri_remove_last_segment
last_length path = rchr_length path

slash_length : (path : Text) → length (before_slash path) + length (from_slash path) ≡ length path
unfolding before_slash from_slash
slash_length [] = refl
slash_length (c ∷ path) = ground (arith, slash_length path)

length-drop : (n : ℕ) (path : Text) → length (drop n path) ≤ length path
length-drop zero path = omega arith
length-drop (suc n) [] = omega arith
length-drop (suc n) (c ∷ path) = omega (arith, length-drop n path)

drop_exact : (n : ℕ) (path : Text) → n ≤ length path → n + length (drop n path) ≡ length path
drop_exact zero path h = omega arith
drop_exact (suc n) [] h = absurd (omega arith)
drop_exact (suc n) (c ∷ path) h = omega (arith, drop_exact n path)

-- A round reads a byte or more, and writes no more than it reads.
record Shrinks (out input : Text) (next : Text × Text) : Type 0 where
  reads : length next.1 < length input
  fits : length next.0 + length next.1 ≤ length out + length input

if_Shrinks :
    {out input : Text} (b : Bool) {x y : Text × Text}
    → (b ≡ true → Shrinks out input x)
    → Shrinks out input y
    → Shrinks out input (if b then x else y)
if_Shrinks true u v = u refl
if_Shrinks false u v = v

move_Shrinks :
    (out : Text) (c : ℕ) (input : Text) → Shrinks out (c ∷ input) (move_segment out (c ∷ input))
unfolding move_segment
move_Shrinks out c input = record {
  reads = omega (arith, slash_length input);
  fits = omega (arith, slash_length input, length-append out (c ∷ before_slash input));
}

-- Bytes are read, and one of them or none is put back.
read_Shrinks :
    (n : ℕ) (out out' : Text) (c : ℕ) (input : Text)
    → length out' ≤ length out
    → Shrinks out (c ∷ input) (out', drop (suc n) (c ∷ input))
read_Shrinks n out out' c input h = record {
  reads = omega (arith, length-drop n input);
  fits = omega (arith, length-drop n input);
}

put_Shrinks :
    (n : ℕ) (out out' : Text) (c : ℕ) (input pattern : Text)
    → length out' ≤ length out
    → length pattern ≡ suc (suc n)
    → http_uri_str_equal (c ∷ input) pattern ≡ true
    → Shrinks out (c ∷ input) (out', slash ∷ drop (suc (suc n)) (c ∷ input))
put_Shrinks n out out' c input pattern h l e =
    let all = equal_length (c ∷ input) pattern e in
    let left = drop_exact (suc n) input (omega arith) in
    record { reads = omega arith; fits = omega arith }

round_Shrinks :
    (out : Text) (c : ℕ) (input : Text) → Shrinks out (c ∷ input) (path_round out (c ∷ input))
unfolding path_round
round_Shrinks out c input =
    if_Shrinks (http_uri_str_prefix (c ∷ input) (dot ∷ dot ∷ slash ∷ []))
      (λ e. read_Shrinks 2 out out c input (omega arith))
      (if_Shrinks (http_uri_str_prefix (c ∷ input) (dot ∷ slash ∷ []))
        (λ e. read_Shrinks 1 out out c input (omega arith))
        (if_Shrinks (http_uri_str_prefix (c ∷ input) (slash ∷ dot ∷ slash ∷ []))
          (λ e. read_Shrinks 1 out out c input (omega arith))
          (if_Shrinks (http_uri_str_equal (c ∷ input) (slash ∷ dot ∷ []))
            (λ e. put_Shrinks 0 out out c input _ (omega arith) refl e)
            (if_Shrinks (http_uri_str_prefix (c ∷ input) (slash ∷ dot ∷ dot ∷ slash ∷ []))
              (λ e. read_Shrinks 2 out _ c input (last_length out))
              (if_Shrinks (http_uri_str_equal (c ∷ input) (slash ∷ dot ∷ dot ∷ []))
                (λ e. put_Shrinks 1 out _ c input _ (last_length out) refl e)
                (if_Shrinks
                  (http_uri_str_equal (c ∷ input) (dot ∷ [])
                    || http_uri_str_equal (c ∷ input) (dot ∷ dot ∷ []))
                  (λ e. record { reads = omega arith; fits = omega arith })
                  (move_Shrinks out c input)))))))

loop_lem :
    (fuel : ℕ) (out input : Text)
    → length input ≤ fuel
    → (path : Text) × (path_loop fuel out input ≡ some path)
      × (length path ≤ length out + length input)
unfolding path_loop
loop_lem fuel out [] h = (out, refl, omega arith)
loop_lem zero out (c ∷ input) h = absurd (omega arith)
loop_lem (suc fuel) out (c ∷ input) h =
    let v = round_Shrinks out c input in
    let less = v.reads in
    let fits = v.fits in
    let next = path_round out (c ∷ input) in
    let (path, e, l) = loop_lem fuel next.0 next.1 (omega arith) in (path, e, omega arith)

-- For each path, removing its dot segments comes to an end, with a path that is no longer: as many rounds
-- of the loop as the path has bytes are enough.
pub dot_segments_fit :
    (path : Text)
    → (cut : Text) × (http_uri_remove_dot_segments path ≡ some cut) × (length cut ≤ length path)
unfolding http_uri_remove_dot_segments
dot_segments_fit path =
    let (cut, e, l) = loop_lem (length path) [] path (omega arith) in (cut, e, omega arith)
