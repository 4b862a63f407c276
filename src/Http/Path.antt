-- ===== src/Http/Path.antt =====
-- http_uri_remove_dot_segments of airscan-http.c. The buffer is the part that is written, up to
-- `path_end`, and the part that is still to be read, from `input`.
use sane_airscan.Base.{
  ℕ, zero, suc, Bool, true, false, ◌&&◌, ◌||◌, Option, none, some, [], ◌∷◌, ◌++◌, ◌==◌,
  if◌then◌else◌, length, drop,
}
use sane_airscan.Uuid.{Text}

abbrev pub slash : ℕ
slash = 47

abbrev pub dot : ℕ
dot = 46

unfoldable pub http_uri_str_prefix : Text → Text → Bool
http_uri_str_prefix input [] = true
http_uri_str_prefix [] (p ∷ ps) = false
http_uri_str_prefix (c ∷ input) (p ∷ ps) = c == p && http_uri_str_prefix input ps

unfoldable pub http_uri_str_equal : Text → Text → Bool
http_uri_str_equal [] [] = true
http_uri_str_equal [] (p ∷ ps) = false
http_uri_str_equal (c ∷ input) [] = false
http_uri_str_equal (c ∷ input) (p ∷ ps) = c == p && http_uri_str_equal input ps

abbrev pub before_rchr : ℕ → Option Text → Option Text
before_rchr c (some path) = some (c ∷ path)
before_rchr c none = if c == slash then some [] else none

abbrev pub or_whole : Text → Option Text → Text
or_whole path none = path
or_whole path (some cut) = cut

-- A text up to its last slash.
unfoldable pub http_uri_str_rchr : Text → Option Text
http_uri_str_rchr [] = none
http_uri_str_rchr (c ∷ path) = before_rchr c (http_uri_str_rchr path)

unfoldable pub http_uri_remove_last_segment : Text → Text
http_uri_remove_last_segment path = or_whole path (http_uri_str_rchr path)

-- A text up to its first slash, and from it on.
unfoldable pub before_slash : Text → Text
before_slash [] = []
before_slash (c ∷ path) = let rest = before_slash path in if c == slash then [] else c ∷ rest

unfoldable pub from_slash : Text → Text
from_slash [] = []
from_slash (c ∷ path) = let rest = from_slash path in if c == slash then c ∷ path else rest

-- The round of the loop that moves a segment.
unfoldable pub move_segment : Text → Text → Text × Text
move_segment out [] = (out, [])
move_segment out (c ∷ rest) = (out ++ c ∷ before_slash rest, from_slash rest)

-- One round of the loop, on what is written and what is to be read.
unfoldable pub path_round : Text → Text → Text × Text
path_round out input =
    if http_uri_str_prefix input (dot ∷ dot ∷ slash ∷ [])
    then (out, drop 3 input)
    else if http_uri_str_prefix input (dot ∷ slash ∷ [])
    then (out, drop 2 input)
    else if http_uri_str_prefix input (slash ∷ dot ∷ slash ∷ [])
    then (out, drop 2 input)
    else if http_uri_str_equal input (slash ∷ dot ∷ [])
    then (out, slash ∷ drop 2 input)
    else if http_uri_str_prefix input (slash ∷ dot ∷ dot ∷ slash ∷ [])
    then (http_uri_remove_last_segment out, drop 3 input)
    else if http_uri_str_equal input (slash ∷ dot ∷ dot ∷ [])
    then (http_uri_remove_last_segment out, slash ∷ drop 3 input)
    else if http_uri_str_equal input (dot ∷ []) || http_uri_str_equal input (dot ∷ dot ∷ [])
    then (out, [])
    else move_segment out input

-- The loop, on fuel.
unfoldable pub path_loop : ℕ → Text → Text → Option Text
path_loop fuel out [] = some out
path_loop zero out (c ∷ input) = none
path_loop (suc fuel) out (c ∷ input) =
    let next = path_round out (c ∷ input) in path_loop fuel next.0 next.1

-- Each round reads a byte or more.
unfoldable pub http_uri_remove_dot_segments : Text → Option Text
http_uri_remove_dot_segments path = path_loop (length path) [] path
