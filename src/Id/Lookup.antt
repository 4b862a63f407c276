-- ===== src/Id/Lookup.antt =====
-- What the lookups in a table give.
use sane_airscan.Base.{
  ℕ, ◌≡◌, ◌≢◌, refl, ◌⊎◌, inl, inr, Bool, true, false, not, ◌&&◌, none, some, List, [], ◌∷◌, arith,
  Bool-cases,
}
use sane_airscan.Base.Int.{ℤ, negsuc, eqb_ℤ, eqb_ℤ-eq}
use sane_airscan.Uuid.{Text}
use sane_airscan.Id.{
  Entry, entry, last_entry, id_name, same_name, id_by_name, id_proto_name_table,
  id_source_sane_name_table, id_format_mime_name_table, id_justification_sane_name,
}

-- The table has an entry without a name.
unfoldable pub is_terminated : List Entry → Bool
is_terminated [] = false
is_terminated (last_entry _ ∷ table) = true
is_terminated (entry _ _ ∷ table) = is_terminated table

-- The name stands in no entry before the terminator.
pub is_new : Text → List Entry → Bool
is_new name [] = true
is_new name (last_entry _ ∷ table) = true
is_new name (entry _ n ∷ table) = not (same_name name n) && is_new name table

-- No name stands twice, whatever the case of its letters.
unfoldable pub is_distinct_names : List Entry → Bool
is_distinct_names [] = true
is_distinct_names (last_entry _ ∷ table) = true
is_distinct_names (entry _ n ∷ table) = is_new n table && is_distinct_names table

same_name_self : (s : Text) → same_name s s ≡ true
unfolding same_name
same_name_self [] = refl
same_name_self (c ∷ s) = ground (arith, same_name_self s)

same_name_sym : (a b : Text) → same_name a b ≡ same_name b a
unfolding same_name
same_name_sym [] [] = refl
same_name_sym [] (_ ∷ _) = refl
same_name_sym (_ ∷ _) [] = refl
same_name_sym (a ∷ ar) (b ∷ br) = ground (arith, same_name_sym ar br)

-- A name that is found in a table is not new there.
found-is_new :
    (id : ℤ) (s n : Text) (t : List Entry)
    → id_name id t ≡ some (some s)
    → is_new n t ≡ true
    → same_name s n ≡ false
unfolding id_name is_new
found-is_new id s n [] e h = cc
found-is_new id s n (last_entry i ∷ t) e h = cc
found-is_new id s n (entry i m ∷ t) e h = elim (Bool-cases (eqb_ℤ i id)) [
  | inl y ↦ ground (arith, same_name_sym s n)
  | inr y ↦ found-is_new id s n t (ground arith) (ground arith)
]

-- In a table with a terminator both lookups end before the end of the array.
pub lookup_ends :
    (t : List Entry) (id : ℤ) (name : Text)
    → is_terminated t ≡ true
    → (id_name id t ≢ none) × (id_by_name name t ≢ none)
unfolding is_terminated id_name id_by_name
lookup_ends [] id name h = cc
lookup_ends (last_entry i ∷ t) id name h = (λ e. cc, λ e. cc)
lookup_ends (entry i n ∷ t) id name h =
    let (a, b) = lookup_ends t id name h in
    (
      λ e. elim (Bool-cases (eqb_ℤ i id)) [ inl y ↦ ground arith | inr y ↦ a (ground arith) ],
      λ e. elim (Bool-cases (same_name name n)) [ inl y ↦ ground arith | inr y ↦ b (ground arith) ],
    )

-- In a table in which no name stands twice, whatever the case of its letters, the name that is found
-- for an identifier leads back to this identifier.
pub by_name-name :
    (t : List Entry) (id : ℤ) (s : Text)
    → is_distinct_names t ≡ true
    → id_name id t ≡ some (some s)
    → id_by_name s t ≡ some id
unfolding is_distinct_names id_name id_by_name
by_name-name [] id s d e = cc
by_name-name (last_entry i ∷ t) id s d e = cc
by_name-name (entry i n ∷ t) id s d e = elim (Bool-cases (eqb_ℤ i id)) [
  | inl y ↦ ground (arith, same_name_self s, eqb_ℤ-eq i id)
  | inr y ↦ ground (arith, by_name-name t id s, found-is_new id s n t)
]

-- Every negative identifier, that of UNKNOWN included, takes the search for the name of a justification
-- off the end of its table.
pub justification_overrun : (n : ℕ) → id_justification_sane_name (negsuc n) ≡ none
unfolding id_name
justification_overrun n = refl

-- The tables of protocols, sources and formats have a terminator and no name twice.
pub tables_lem :
    (t : List Entry)
    → (t ≡ id_proto_name_table)
      ⊎ ((t ≡ id_source_sane_name_table) ⊎ (t ≡ id_format_mime_name_table))
    → (is_terminated t ≡ true) × (is_distinct_names t ≡ true)
unfolding is_terminated is_distinct_names is_new same_name
tables_lem t (inl e) = rw e (refl, refl)
tables_lem t (inr (inl e)) = rw e (refl, refl)
tables_lem t (inr (inr e)) = rw e (refl, refl)
