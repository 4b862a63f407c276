-- ===== src/Http/Segments.antt =====
-- http_uri_remove_dot_segments on the segments of a path.
use sane_airscan.Base.{
  ℕ, ◌≡◌, refl, Bool, true, false, not, ◌&&◌, List, [], ◌∷◌, ◌++◌, ◌==◌, if◌then◌else◌, arith,
  and_left, and_right,
}
use sane_airscan.Uuid.{Text}
use sane_airscan.Http.Path.{
  slash, dot, http_uri_str_prefix, http_uri_str_equal, http_uri_remove_last_segment, before_slash,
  from_slash, move_segment, path_round,
}

-- The path of a list of segments, with a slash before each.
abbrev pub path_of : List Text → Text
path_of [] = []
path_of (s ∷ list) = slash ∷ (s ++ path_of list)

abbrev pub is_dot : Text → Bool
is_dot (c ∷ []) = c == dot
is_dot _ = false

abbrev pub is_dotdot : Text → Bool
is_dotdot (c ∷ d ∷ []) = c == dot && d == dot
is_dotdot _ = false

abbrev pub but_last : List Text → List Text
but_last [] = []
but_last (s ∷ []) = []
but_last (s ∷ t ∷ list) = s ∷ but_last (t ∷ list)

-- A dot segment at the end of a path leaves an empty segment.
abbrev pub after_dots : List Text → List Text → List Text → List Text
after_dots kept [] rest = kept ++ [] ∷ []
after_dots kept (t ∷ list) rest = rest

-- The segments of a path, one after the other, onto those that are kept: `.` stays where it is, and `..`
-- drops the last one that is kept.
abbrev pub resolve : List Text → List Text → List Text
resolve kept [] = kept
resolve kept (s ∷ list) =
    let here = resolve kept list in
    let above = resolve (but_last kept) list in
    let below = resolve (kept ++ s ∷ []) list in
    if is_dot s
    then after_dots kept list here
    else if is_dotdot s
    then after_dots (but_last kept) list above
    else below

abbrev pub has_no_slash : Text → Bool
has_no_slash [] = true
has_no_slash (c ∷ s) = not (c == slash) && has_no_slash s

abbrev pub are_segments : List Text → Bool
are_segments [] = true
are_segments (s ∷ list) = has_no_slash s && are_segments list

before_lem :
    (s : Text) (list : List Text) → has_no_slash s ≡ true → before_slash (s ++ path_of list) ≡ s
unfolding before_slash
before_lem [] [] h = refl
before_lem [] (t ∷ list) h = refl
before_lem (c ∷ s) list h = ground (arith, before_lem s list)

from_lem :
    (s : Text) (list : List Text)
    → has_no_slash s ≡ true
    → from_slash (s ++ path_of list) ≡ path_of list
unfolding from_slash
from_lem [] [] h = refl
from_lem [] (t ∷ list) h = refl
from_lem (c ∷ s) list h = ground (arith, from_lem s list)

-- The tests of a round, on a segment that is no dot segment.
no_dot_prefix :
    (s : Text) (list : List Text)
    → has_no_slash s ≡ true
    → is_dot s ≡ false
    → http_uri_str_prefix (s ++ path_of list) (dot ∷ slash ∷ []) ≡ false
unfolding http_uri_str_prefix
no_dot_prefix [] [] h k = refl
no_dot_prefix [] (t ∷ list) h k = refl
no_dot_prefix (c ∷ []) list h k = rw k refl
no_dot_prefix (c ∷ d ∷ s) list h k = ground arith

no_dot_equal :
    (s : Text) (list : List Text)
    → is_dot s ≡ false
    → http_uri_str_equal (s ++ path_of list) (dot ∷ []) ≡ false
unfolding http_uri_str_equal
no_dot_equal [] [] k = refl
no_dot_equal [] (t ∷ list) k = refl
no_dot_equal (c ∷ []) list k = rw k refl
no_dot_equal (c ∷ d ∷ s) list k = ground arith

no_dots_prefix :
    (s : Text) (list : List Text)
    → has_no_slash s ≡ true
    → is_dotdot s ≡ false
    → http_uri_str_prefix (s ++ path_of list) (dot ∷ dot ∷ slash ∷ []) ≡ false
unfolding http_uri_str_prefix
no_dots_prefix [] [] h k = refl
no_dots_prefix [] (t ∷ list) h k = refl
no_dots_prefix (c ∷ []) [] h k = ground arith
no_dots_prefix (c ∷ []) (t ∷ list) h k = ground arith
no_dots_prefix (c ∷ d ∷ []) list h k = ground arith
no_dots_prefix (c ∷ d ∷ e ∷ s) list h k = ground arith

no_dots_equal :
    (s : Text) (list : List Text)
    → is_dotdot s ≡ false
    → http_uri_str_equal (s ++ path_of list) (dot ∷ dot ∷ []) ≡ false
unfolding http_uri_str_equal
no_dots_equal [] [] k = refl
no_dots_equal [] (t ∷ list) k = refl
no_dots_equal (c ∷ []) [] k = ground arith
no_dots_equal (c ∷ []) (t ∷ list) k = ground arith
no_dots_equal (c ∷ d ∷ []) [] k = ground arith
no_dots_equal (c ∷ d ∷ []) (t ∷ list) k = ground arith
no_dots_equal (c ∷ d ∷ e ∷ s) list k = ground arith

pub plain_round :
    (out s : Text) (list : List Text)
    → has_no_slash s ≡ true
    → is_dot s ≡ false
    → is_dotdot s ≡ false
    → path_round out (path_of (s ∷ list)) ≡ (out ++ slash ∷ s, path_of list)
unfolding path_round http_uri_str_prefix http_uri_str_equal move_segment
plain_round out s list h d e =
    rw
      (
        no_dot_prefix s list h d,
        no_dot_equal s list d,
        no_dots_prefix s list h e,
        no_dots_equal s list e,
        before_lem s list h,
        from_lem s list h,
      )
      refl

pub dot_round :
    (out s t : Text) (list : List Text)
    → is_dot s ≡ true
    → path_round out (path_of (s ∷ t ∷ list)) ≡ (out, path_of (t ∷ list))
unfolding path_round http_uri_str_prefix http_uri_str_equal
dot_round out [] t list h = cc
dot_round out (c ∷ []) t list h = rw h refl
dot_round out (c ∷ d ∷ s) t list h = cc

pub dot_last :
    (out s : Text) → is_dot s ≡ true → path_round out (path_of (s ∷ [])) ≡ (out, path_of ([] ∷ []))
unfolding path_round http_uri_str_prefix http_uri_str_equal
dot_last out [] h = cc
dot_last out (c ∷ []) h = rw h refl
dot_last out (c ∷ d ∷ s) h = cc

dot_no_slash : (c : ℕ) → (c == dot) ≡ true → (c == slash) ≡ false
dot_no_slash c h = ground arith

pub dots_round :
    (out s t : Text) (list : List Text)
    → is_dotdot s ≡ true
    → path_round out (path_of (s ∷ t ∷ list))
      ≡ (http_uri_remove_last_segment out, path_of (t ∷ list))
unfolding path_round http_uri_str_prefix http_uri_str_equal
dots_round out [] t list h = cc
dots_round out (c ∷ []) t list h = cc
dots_round out (c ∷ d ∷ []) t list h =
    let k = and_right (c == dot) (d == dot) h in
    rw (and_left (c == dot) (d == dot) h, k, dot_no_slash d k) refl
dots_round out (c ∷ d ∷ e ∷ s) t list h = cc

pub dots_last :
    (out s : Text)
    → is_dotdot s ≡ true
    → path_round out (path_of (s ∷ [])) ≡ (http_uri_remove_last_segment out, path_of ([] ∷ []))
unfolding path_round http_uri_str_prefix http_uri_str_equal
dots_last out [] h = cc
dots_last out (c ∷ []) h = cc
dots_last out (c ∷ d ∷ []) h =
    let k = and_right (c == dot) (d == dot) h in
    rw (and_left (c == dot) (d == dot) h, k, dot_no_slash d k) refl
dots_last out (c ∷ d ∷ e ∷ s) h = cc
