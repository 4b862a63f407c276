-- ===== src/Netif/Sort.antt =====
-- Sorting and merging in airscan-netif.c: what comes out is sorted and has every node that went in.
use sane_airscan.Base.{
  ℕ, zero, suc, ◌+◌, ◌≤◌, ◌<◌, ◌≡◌, refl, ap, ◌∙◌, Bool, true, false, List, [], ◌∷◌, Option, none,
  some, if◌then◌else◌, length, arith, Bool-cases, inl, inr,
}
use sane_airscan.Ip.Order.{flip}
use sane_airscan.Netif.{
  NetifAddr, netif_addr_cmp, is_less, revert_onto, netif_addr_list_revert, split_halves, merge_onto,
  netif_addr_list_merge, merge_halves, netif_addr_list_sort,
}
use sane_airscan.Netif.Order.{cmp-flip, is_more}

-- An address comes no later than the first of a list.
abbrev pub Leads : NetifAddr → List NetifAddr → Type 0
Leads x [] = Unit
Leads x (y ∷ _) = is_more (netif_addr_cmp x y) ≡ false

abbrev pub IsSorted : List NetifAddr → Type 0
IsSorted [] = Unit
IsSorted (x ∷ list) = Leads x list × IsSorted list

-- How many nodes of a list pass a test.
abbrev pub count : (NetifAddr → Bool) → List NetifAddr → ℕ
count p [] = 0
count p (x ∷ list) = let rest = count p list in if p x then suc rest else rest

-- A list backwards, which goes on with a sorted list.
abbrev Joins : List NetifAddr → List NetifAddr → Type 0
Joins [] list = Unit
Joins (x ∷ _) list = Leads x list

abbrev IsBackwards : List NetifAddr → Type 0
IsBackwards [] = Unit
IsBackwards (x ∷ back) = Joins back (x ∷ []) × IsBackwards back

Joins-alone :
    (back : List NetifAddr) (x : NetifAddr) (list : List NetifAddr)
    → Joins back (x ∷ list)
    → Joins back (x ∷ [])
Joins-alone [] x list j = tt
Joins-alone (a ∷ back) x list j = j

Joins-first :
    (back : List NetifAddr) (x : NetifAddr) (list : List NetifAddr)
    → Joins back (x ∷ [])
    → Joins back (x ∷ list)
Joins-first [] x list j = tt
Joins-first (a ∷ back) x list j = j

revert_IsSorted :
    (prev back : List NetifAddr)
    → IsSorted prev
    → IsBackwards back
    → Joins back prev
    → IsSorted (revert_onto prev back)
unfolding revert_onto
revert_IsSorted prev [] s b j = s
revert_IsSorted prev (x ∷ back) s (l, b) j =
    revert_IsSorted (x ∷ prev) back (j, s) b (Joins-first back x prev l)

revert_count :
    (p : NetifAddr → Bool) (prev back : List NetifAddr)
    → count p (revert_onto prev back) ≡ count p prev + count p back
unfolding revert_onto
revert_count p prev [] = omega arith
revert_count p prev (x ∷ back) = ground (arith, revert_count p (x ∷ prev) back)

-- The first of two lists is less, or is not: what that says the other way round.
less_leads :
    (a b : NetifAddr) → is_less (netif_addr_cmp a b) ≡ true → is_more (netif_addr_cmp a b) ≡ false
less_leads a b h = ground arith

leads_back :
    (a b : NetifAddr) → is_less (netif_addr_cmp a b) ≡ false → is_more (netif_addr_cmp b a) ≡ false
unfolding flip
leads_back a b h = ground (arith, cmp-flip a b)

-- What the merging leaves: all the nodes, backwards.
record Merged (found : Option (List NetifAddr)) (total : (NetifAddr → Bool) → ℕ) : Type 0 where
  list : List NetifAddr
  is_found : found ≡ some list
  backwards : IsBackwards list
  counts : (p : NetifAddr → Bool) → count p list ≡ total p

with_count :
    {found : Option (List NetifAddr)} {total total' : (NetifAddr → Bool) → ℕ}
    → Merged found total
    → ((p : NetifAddr → Bool) → total p ≡ total' p)
    → Merged found total'
with_count m k = record {
  list = m.list;
  is_found = m.is_found;
  backwards = m.backwards;
  counts = λ p. m.counts p ∙ k p;
}

merge_lem :
    (fuel : ℕ) (back h0 h1 : List NetifAddr)
    → length h0 + length h1 < fuel
    → IsBackwards back
    → IsSorted h0
    → IsSorted h1
    → Joins back h0
    → Joins back h1
    → Merged (merge_onto fuel back h0 h1) (λ p. count p back + (count p h0 + count p h1))
unfolding merge_onto
merge_lem zero back h0 h1 l b s t j k = absurd (omega arith)
merge_lem (suc fuel) back [] [] l b s t j k = record {
  list = back;
  is_found = refl;
  backwards = b;
  counts = λ p. omega arith;
}
merge_lem (suc fuel) back [] (y ∷ h1) l b s (ty, t) j k =
    with_count
      (merge_lem fuel (y ∷ back) [] h1 (omega arith) (Joins-alone back y h1 k, b) s t tt ty)
      (λ p. ground arith)
merge_lem (suc fuel) back (x ∷ h0) [] l b (sx, s) t j k =
    with_count
      (merge_lem fuel (x ∷ back) h0 [] (omega arith) (Joins-alone back x h0 j, b) s t sx tt)
      (λ p. ground arith)
merge_lem (suc fuel) back (x ∷ h0) (y ∷ h1) l b (sx, s) (ty, t) j k =
    elim (Bool-cases (is_less (netif_addr_cmp x y))) [
      | inl e ↦ rw e (
          with_count
            (merge_lem fuel (x ∷ back) h0 (y ∷ h1) (omega arith) (Joins-alone back x h0 j, b) s
              (ty, t) sx (less_leads x y e))
            (λ p. ground arith))
      | inr e ↦ rw e (
          with_count
            (merge_lem fuel (y ∷ back) (x ∷ h0) h1 (omega arith) (Joins-alone back y h1 k, b)
              (sx, s) t (leads_back x y e) ty)
            (λ p. ground arith))
    ]

-- A list that is sorted and has the nodes of two others.
abbrev pub Sorts : Option (List NetifAddr) → ((NetifAddr → Bool) → ℕ) → Type 0
Sorts found total =
    (list : List NetifAddr) × (found ≡ some list)
    × IsSorted list
    × ((p : NetifAddr → Bool) → count p list ≡ total p)

nothing-Joins : (back : List NetifAddr) → Joins back []
nothing-Joins [] = tt
nothing-Joins (x ∷ back) = tt

abbrev reverted : Option (List NetifAddr) → Option (List NetifAddr)
reverted none = none
reverted (some list) = some (revert_onto [] list)

-- Merging two sorted lists ends with a sorted list that has, for each test, as many nodes that pass it as
-- the two lists together.
merge_Sorts :
    (list1 list2 : List NetifAddr)
    → IsSorted list1
    → IsSorted list2
    → Sorts (netif_addr_list_merge list1 list2) (λ p. count p list1 + count p list2)
unfolding netif_addr_list_merge netif_addr_list_revert
merge_Sorts list1 list2 s t =
    let m =
      merge_lem (suc (length list1 + length list2)) [] list1 list2 (omega arith) tt s t tt tt in
    (
      revert_onto [] m.list,
      ap reverted m.is_found,
      revert_IsSorted [] m.list tt m.backwards (nothing-Joins m.list),
      λ p. omega (arith, revert_count p [] m.list, m.counts p),
    )

split_length :
    (h0 h1 list : List NetifAddr) (half : Bool)
    → length (split_halves h0 h1 half list).0 + length (split_halves h0 h1 half list).1
      ≡ length h0 + length h1 + length list
unfolding split_halves
split_length h0 h1 [] half = omega arith
split_length h0 h1 (x ∷ list) false = split_length (x ∷ h0) h1 list true ∙ omega arith
split_length h0 h1 (x ∷ list) true = split_length h0 (x ∷ h1) list false ∙ omega arith

split_count :
    (p : NetifAddr → Bool) (h0 h1 list : List NetifAddr) (half : Bool)
    → count p (split_halves h0 h1 half list).0 + count p (split_halves h0 h1 half list).1
      ≡ count p h0 + count p h1 + count p list
unfolding split_halves
split_count p h0 h1 [] half = omega arith
split_count p h0 h1 (x ∷ list) false = split_count p (x ∷ h0) h1 list true ∙ ground arith
split_count p h0 h1 (x ∷ list) true = split_count p h0 (x ∷ h1) list false ∙ ground arith

-- Each half keeps what it has.
split_grows :
    (h0 h1 list : List NetifAddr) (half : Bool)
    → (length h0 ≤ length (split_halves h0 h1 half list).0)
      × (length h1 ≤ length (split_halves h0 h1 half list).1)
unfolding split_halves
split_grows h0 h1 [] half = (omega arith, omega arith)
split_grows h0 h1 (x ∷ list) false =
    let (a, b) = split_grows (x ∷ h0) h1 list true in (omega arith, omega arith)
split_grows h0 h1 (x ∷ list) true =
    let (a, b) = split_grows h0 (x ∷ h1) list false in (omega arith, omega arith)

-- The halves of a list of two nodes or more are shorter than the list.
halves_shrink :
    (x y : NetifAddr) (list : List NetifAddr)
    → (length (split_halves [] [] false (x ∷ y ∷ list)).0 < length (x ∷ y ∷ list))
      × (length (split_halves [] [] false (x ∷ y ∷ list)).1 < length (x ∷ y ∷ list))
unfolding split_halves
halves_shrink x y list =
    let (a, b) = split_grows (x ∷ []) (y ∷ []) list false in
    let c = split_length (x ∷ []) (y ∷ []) list false in (omega arith, omega arith)

halves_Sorts :
    (found0 found1 : Option (List NetifAddr)) (total0 total1 : (NetifAddr → Bool) → ℕ)
    → Sorts found0 total0
    → Sorts found1 total1
    → Sorts (merge_halves found0 found1) (λ p. total0 p + total1 p)
unfolding merge_halves
halves_Sorts found0 found1 total0 total1 (l0, e0, s0, c0) (l1, e1, s1, c1) =
    let (r, e, s, c) = merge_Sorts l0 l1 s0 s1 in
    (r, rw (e0, e1) e, s, λ p. c p ∙ rw (c0 p, c1 p) refl)

split_Sorts :
    (x y : NetifAddr) (list : List NetifAddr) (found : Option (List NetifAddr))
    → Sorts found (λ p.
      count p (split_halves [] [] false (x ∷ y ∷ list)).0
      + count p (split_halves [] [] false (x ∷ y ∷ list)).1)
    → Sorts found (λ p. count p (x ∷ y ∷ list))
split_Sorts x y list found (r, e, s, c) =
    (r, e, s, λ p. omega (arith, c p, split_count p [] [] (x ∷ y ∷ list) false))

-- Sorting a list, with fuel for as many rounds as it has nodes, ends with a sorted list that has, for each
-- test, as many nodes that pass it as the list.
pub sort_Sorts :
    (fuel : ℕ) (list : List NetifAddr)
    → length list ≤ fuel
    → Sorts (netif_addr_list_sort fuel list) (λ p. count p list)
unfolding netif_addr_list_sort
sort_Sorts fuel [] l = ([], refl, tt, λ p. refl)
sort_Sorts fuel (x ∷ []) l = (x ∷ [], refl, (tt, tt), λ p. refl)
sort_Sorts zero (x ∷ y ∷ list) l = absurd (omega arith)
sort_Sorts (suc fuel) (x ∷ y ∷ list) l =
    let (a, b) = halves_shrink x y list in
    let h0 = (split_halves [] [] false (x ∷ y ∷ list)).0 in
    let h1 = (split_halves [] [] false (x ∷ y ∷ list)).1 in
    split_Sorts x y list _ (
      halves_Sorts (netif_addr_list_sort fuel h0) (netif_addr_list_sort fuel h1) _ _
        (sort_Sorts fuel h0 (omega arith)) (sort_Sorts fuel h1 (omega arith)))
