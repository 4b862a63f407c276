-- ===== src/Filter/Chain.antt =====
-- What a chain of filters does to a line, and what becomes of a filter that is pushed.
use sane_airscan.Base.{
  ℕ, zero, suc, ◌+◌, ◌≤◌, ◌<◌, ◌≡◌, refl, ap, ◌∙◌, ◌⊎◌, inl, inr, true, false, Option, none, some,
  List, [], ◌∷◌, get_or, set, length, length-set, ltb, if◌then◌else◌, arith,
}
use native.Mathlib.Decide.{ℕ_discrete, dec_lt}
use sane_airscan.Base.{get_or-set_self, get_or-set_ne}
use sane_airscan.Filter.{
  Filter, xlat_from, filter_xlat_apply, filter_chain_push, filter_chain_apply,
}

xlat_length : (f : Filter) (n i : ℕ) (line : List ℕ) → length (xlat_from f n i line) ≡ length line
unfolding xlat_from
xlat_length f zero i line = refl
xlat_length f (suc n) i line = xlat_length f n (i + 1) _ ∙ length-set line i _

xlat_outside :
    (f : Filter) (n i j : ℕ) (line : List ℕ)
    → (j < i) ⊎ (i + n ≤ j)
    → get_or (xlat_from f n i line) j 0 ≡ get_or line j 0
unfolding xlat_from
xlat_outside f zero i j line h = refl
xlat_outside f (suc n) i j line (inl h) =
    xlat_outside f n (i + 1) j _ (inl (omega arith)) ∙ get_or-set_ne line i j _ 0 (λ e. omega arith)
xlat_outside f (suc n) i j line (inr h) =
    xlat_outside f n (i + 1) j _ (inr (omega arith)) ∙ get_or-set_ne line i j _ 0 (λ e. omega arith)

xlat_inside :
    (f : Filter) (n i j : ℕ) (line : List ℕ)
    → i ≤ j
    → j < i + n
    → i + n ≤ length line
    → get_or (xlat_from f n i line) j 0 ≡ get_or f.table (get_or line j 0) 0
unfolding xlat_from
xlat_inside f zero i j line h k l = absurd (omega arith)
xlat_inside f (suc n) i j line h k l = elim (ℕ_discrete i j) [
  | yes e ↦
      xlat_outside f n (i + 1) j _ (inl (omega arith))
      ∙ rw (← e) (get_or-set_self line i (get_or f.table (get_or line i 0) 0) 0 (omega arith))
  | no e ↦
      xlat_inside f n (i + 1) j (set line i (get_or f.table (get_or line i 0) 0)) (omega arith)
        (omega arith) (omega (arith, length-set line i (get_or f.table (get_or line i 0) 0)))
      ∙ ap (λ b. get_or f.table b 0) (get_or-set_ne line i j _ 0 e)
]

-- A byte through all tables, the first filter's first.
pub translate : List Filter → ℕ → ℕ
translate [] b = b
translate (f ∷ rest) b = translate rest (get_or f.table b 0)

-- In a line of at least `size` bytes, each of the first `size` goes through the tables of the chain in
-- their order, and all others stay.
pub chain_apply_lem :
    (chain : List Filter) (line : List ℕ) (size j : ℕ)
    → size ≤ length line
    → get_or (filter_chain_apply chain line size) j 0
      ≡ (if ltb j size then translate chain (get_or line j 0) else get_or line j 0)
unfolding filter_chain_apply filter_xlat_apply translate
chain_apply_lem [] line size j h = ground arith
chain_apply_lem (f ∷ rest) line size j h =
    chain_apply_lem rest (xlat_from f size 0 line) size j (omega (arith, xlat_length f size 0 line))
    ∙ first
  where
    first :
        (if ltb j size
          then translate rest (get_or (xlat_from f size 0 line) j 0)
          else get_or (xlat_from f size 0 line) j 0)
        ≡ (if ltb j size
            then translate rest (get_or f.table (get_or line j 0) 0)
            else get_or line j 0)
    first = elim (dec_lt j size) [
      | yes inside ↦
          let t : ltb j size ≡ true = ground arith in
          rw (t, xlat_inside f size 0 j line (omega arith) (omega arith) (omega arith)) refl
      | no behind ↦
          let t : ltb j size ≡ false = ground arith in
          rw (t, xlat_outside f size 0 j line (inr (omega arith))) refl
    ]

-- Whatever is pushed on a chain that is not empty is lost: the chain stays as it is.
pub push_keeps :
    (o : Filter) (rest : List Filter) (new : Option Filter)
    → filter_chain_push (o ∷ rest) new ≡ o ∷ rest
unfolding filter_chain_push
push_keeps o rest (some f) = refl
push_keeps o [] none = refl
push_keeps o (n ∷ rest) none = ap (λ t. o ∷ t) (push_keeps n rest none)
