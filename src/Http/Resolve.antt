-- ===== src/Http/Resolve.antt =====
-- http_uri_remove_dot_segments against the resolving of a path's segments one by one.
use sane_airscan.Base.{
  ℕ, zero, suc, ◌≤◌, ◌≡◌, refl, ap, ◌∙◌, true, not, none, some, List, [], ◌∷◌, ◌++◌, ◌==◌, length,
  length-append, arith, Bool-cases, inl, inr, and_left, and_right,
}
use mathlib.Core.List.{append_assoc, append-nil}
use sane_airscan.Uuid.{Text}
use sane_airscan.Http.Path.{
  slash, http_uri_str_rchr, http_uri_remove_last_segment, or_whole, path_round, path_loop,
  http_uri_remove_dot_segments,
}
use sane_airscan.Http.Segments.{
  path_of, is_dot, is_dotdot, but_last, after_dots, resolve, has_no_slash, are_segments,
  plain_round, dot_round, dot_last, dots_round, dots_last,
}

path_of-append : (a b : List Text) → path_of (a ++ b) ≡ path_of a ++ path_of b
path_of-append [] b = refl
path_of-append (s ∷ a) b = rw (path_of-append a b, append_assoc s (path_of a) (path_of b)) refl

path_of-last : (kept : List Text) (s : Text) → path_of kept ++ slash ∷ s ≡ path_of (kept ++ s ∷ [])
path_of-last kept s = rw (path_of-append kept (s ∷ []), append-nil s) refl

rchr_none :
    (s t : Text)
    → has_no_slash s ≡ true
    → http_uri_str_rchr t ≡ none
    → http_uri_str_rchr (s ++ t) ≡ none
unfolding http_uri_str_rchr
rchr_none [] t h e = e
rchr_none (c ∷ s) t h e =
    rw (rchr_none s t (and_right (not (c == slash)) (has_no_slash s) h) e) (ground arith)

rchr_some :
    (s t u : Text) → http_uri_str_rchr t ≡ some u → http_uri_str_rchr (s ++ t) ≡ some (s ++ u)
unfolding http_uri_str_rchr
rchr_some [] t u e = e
rchr_some (c ∷ s) t u e = rw (rchr_some s t u e) refl

rchr-path_of :
    (s : Text) (kept : List Text)
    → are_segments (s ∷ kept) ≡ true
    → http_uri_str_rchr (path_of (s ∷ kept)) ≡ some (path_of (but_last (s ∷ kept)))
unfolding http_uri_str_rchr
rchr-path_of s [] h = rw (rchr_none s [] (and_left (has_no_slash s) true h) refl) refl
rchr-path_of s (t ∷ kept) h =
    rw
      (rchr_some s (path_of (t ∷ kept)) _
        (rchr-path_of t kept (and_right (has_no_slash s) (are_segments (t ∷ kept)) h)))
      refl

last-path_of :
    (kept : List Text)
    → are_segments kept ≡ true
    → http_uri_remove_last_segment (path_of kept) ≡ path_of (but_last kept)
unfolding http_uri_remove_last_segment http_uri_str_rchr
last-path_of [] h = refl
last-path_of (s ∷ kept) h = ap (or_whole (path_of (s ∷ kept))) (rchr-path_of s kept h)

but_last_lem : (kept : List Text) → are_segments kept ≡ true → are_segments (but_last kept) ≡ true
but_last_lem [] h = refl
but_last_lem (s ∷ []) h = refl
but_last_lem (s ∷ t ∷ kept) h = ground (arith, but_last_lem (t ∷ kept))

append_lem :
    (kept : List Text) (s : Text)
    → are_segments kept ≡ true
    → has_no_slash s ≡ true
    → are_segments (kept ++ s ∷ []) ≡ true
append_lem [] s h k = rw k refl
append_lem (t ∷ kept) s h k = ground (arith, append_lem kept s)

step_lem :
    (fuel : ℕ) (out out' : Text) (s : Text) (list rest : List Text)
    → path_round out (path_of (s ∷ list)) ≡ (out', path_of rest)
    → path_loop (suc fuel) out (path_of (s ∷ list)) ≡ path_loop fuel out' (path_of rest)
unfolding path_loop
step_lem fuel out out' s list rest e = ap (λ next. path_loop fuel next.0 next.1) e

-- A path that is a slash is moved as it is.
slash_last :
    (fuel : ℕ) (kept : List Text)
    → 1 ≤ fuel
    → path_loop fuel (path_of kept) (path_of ([] ∷ [])) ≡ some (path_of (kept ++ [] ∷ []))
unfolding path_loop
slash_last zero kept h = absurd (omega arith)
slash_last (suc fuel) kept h =
    step_lem fuel (path_of kept) (path_of kept ++ slash ∷ []) [] [] []
      (plain_round (path_of kept) [] [] refl refl refl)
    ∙ ap some (path_of-last kept [])

-- The list with a dot segment at its front, of which the rest is resolved.
dots_lem :
    (fuel : ℕ) (out s : Text) (kept list : List Text) (rest : List Text)
    → ((t : Text) (list' : List Text)
        → path_round out (path_of (s ∷ t ∷ list')) ≡ (path_of kept, path_of (t ∷ list')))
    → path_round out (path_of (s ∷ [])) ≡ (path_of kept, path_of ([] ∷ []))
    → 1 ≤ fuel
    → path_loop fuel (path_of kept) (path_of list) ≡ some (path_of rest)
    → path_loop (suc fuel) out (path_of (s ∷ list)) ≡ some (path_of (after_dots kept list rest))
unfolding path_loop
dots_lem fuel out s kept [] rest more end h e =
    step_lem fuel out (path_of kept) s [] ([] ∷ []) end ∙ slash_last fuel kept h
dots_lem fuel out s kept (t ∷ list) rest more end h e =
    step_lem fuel out (path_of kept) s (t ∷ list) (t ∷ list) (more t list) ∙ e

dot_length : (s : Text) → is_dot s ≡ true → 1 ≤ length s
dot_length [] h = cc
dot_length (c ∷ s) h = omega arith

dotdot_length : (s : Text) → is_dotdot s ≡ true → 1 ≤ length s
dotdot_length [] h = cc
dotdot_length (c ∷ s) h = omega arith

segments_lem :
    (list : List Text) (fuel : ℕ) (kept : List Text)
    → length (path_of list) ≤ fuel
    → are_segments kept ≡ true
    → are_segments list ≡ true
    → path_loop fuel (path_of kept) (path_of list) ≡ some (path_of (resolve kept list))
unfolding path_loop
segments_lem [] fuel kept l h k = refl
segments_lem (s ∷ list) zero kept l h k = absurd (omega arith)
segments_lem (s ∷ list) (suc fuel) kept l h k =
    let long = length-append s (path_of list) in
    let plain = and_left (has_no_slash s) (are_segments list) k in
    let others = and_right (has_no_slash s) (are_segments list) k in
    elim (Bool-cases (is_dot s)) [
      | inl e ↦
          let some_length = dot_length s e in
          rw e (
            dots_lem fuel (path_of kept) s kept list _
              (λ t list'. dot_round (path_of kept) s t list' e) (dot_last (path_of kept) s e)
              (omega arith) (segments_lem list fuel kept (omega arith) h others))
      | inr e ↦ elim (Bool-cases (is_dotdot s)) [
        | inl d ↦
            let some_length = dotdot_length s d in
            let up = last-path_of kept h in
            rw e (
              rw d (
                dots_lem fuel (path_of kept) s (but_last kept) list _
                  (λ t list'. dots_round (path_of kept) s t list' d ∙ rw up refl)
                  (dots_last (path_of kept) s d ∙ rw up refl) (omega arith)
                  (segments_lem list fuel (but_last kept) (omega arith) (but_last_lem kept h)
                    others)))
        | inr d ↦ rw e (
            rw d (
              step_lem fuel (path_of kept) (path_of kept ++ slash ∷ s) s list list
                (plain_round (path_of kept) s list plain e d)
              ∙ rw (path_of-last kept s) (
                  segments_lem list fuel (kept ++ s ∷ []) (omega arith) (append_lem kept s h plain)
                    others)))
      ]
    ]

-- For each list of segments with no slash in them, removing the dot segments of their path ends with the
-- path of the list in which `.` has been left out, `..` has dropped the segment kept before it, if any,
-- and either of them at the end has left an empty segment.
pub dot_segments-resolve :
    (list : List Text)
    → are_segments list ≡ true
    → http_uri_remove_dot_segments (path_of list) ≡ some (path_of (resolve [] list))
unfolding http_uri_remove_dot_segments
dot_segments-resolve list h = segments_lem list (length (path_of list)) [] (omega arith) refl h
