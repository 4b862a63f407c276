-- ===== src/Filter.antt =====
-- airscan-filter.c: the chain of filters. A filter is its translation table, a chain is the list of its
-- filters from the first on, NULL the empty one. A line is changed in place.
pub mod Chain
use sane_airscan.Base.{ℕ, zero, suc, ◌+◌, Option, none, some, List, [], ◌∷◌, get_or, set}

-- filter_xlat.
pub record Filter : Type 0 where
  pub table : List ℕ

-- `size` rounds from byte `i` on.
unfoldable pub xlat_from : Filter → ℕ → ℕ → List ℕ → List ℕ
xlat_from f zero i line = line
xlat_from f (suc size) i line =
    xlat_from f size (i + 1) (set line i (get_or f.table (get_or line i 0) 0))

unfoldable pub filter_xlat_apply : Filter → List ℕ → ℕ → List ℕ
filter_xlat_apply f line size = xlat_from f size 0 line

-- A new filter has no next one, and is NULL where the options change nothing.
unfoldable pub filter_chain_push : List Filter → Option Filter → List Filter
filter_chain_push [] none = []
filter_chain_push [] (some f) = f ∷ []
filter_chain_push (o ∷ rest) (some f) = o ∷ rest
filter_chain_push (o ∷ []) none = o ∷ []
filter_chain_push (o ∷ n ∷ rest) none = o ∷ filter_chain_push (n ∷ rest) none

unfoldable pub filter_chain_apply : List Filter → List ℕ → ℕ → List ℕ
filter_chain_apply [] line size = line
filter_chain_apply (f ∷ rest) line size =
    filter_chain_apply rest (filter_xlat_apply f line size) size
