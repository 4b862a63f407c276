-- ===== src/Netif/Diff.antt =====
-- netif_diff_compute as the difference of two sets of addresses.
use sane_airscan.Base.{
  ℕ, zero, suc, ◌+◌, ◌<◌, ◌≡◌, refl, ap, ◌∙◌, Bool, true, false, not, List, [], ◌∷◌, some,
  if◌then◌else◌, length, arith, ◌⊎◌, inl, inr, ◌++◌,
}
use sane_airscan.Ip.{Sign, less, same, more}
use sane_airscan.Ip.Order.{flip}
use sane_airscan.Netif.{
  NetifAddr, netif_addr_cmp, revert_onto, netif_addr_list_revert, NetifDiff, diff_loop, revert_diff,
  netif_diff_compute,
}
use sane_airscan.Netif.Order.{cmp-flip, cmp_trans, is_same}

-- Each address comes strictly before all that follow.
abbrev Before : NetifAddr → List NetifAddr → Type 0
Before x [] = Unit
Before x (y ∷ list) = (netif_addr_cmp x y ≡ less) × Before x list

abbrev pub IsStrict : List NetifAddr → Type 0
IsStrict [] = Unit
IsStrict (x ∷ list) = Before x list × IsStrict list

-- Whether a list has an address that compares as the same.
abbrev pub has : List NetifAddr → NetifAddr → Bool
has [] x = false
has (y ∷ list) x = let rest = has list x in if is_same (netif_addr_cmp x y) then true else rest

-- The addresses of a list that pass a test.
abbrev pub keep : (NetifAddr → Bool) → List NetifAddr → List NetifAddr
keep p [] = []
keep p (x ∷ list) = let rest = keep p list in if p x then x ∷ rest else rest

-- What both lists have, and what one has and the other has not.
abbrev pub common : List NetifAddr → List NetifAddr → List NetifAddr
common list other = keep (λ x. has other x) list

abbrev pub without : List NetifAddr → List NetifAddr → List NetifAddr
without list other = keep (λ x. not (has other x)) list

after_less :
    (x y z : NetifAddr)
    → netif_addr_cmp x y ≡ less
    → netif_addr_cmp y z ≡ less
    → netif_addr_cmp x z ≡ less
after_less x y z h k = cmp_trans x y z (rw h refl) (rw k refl) ∙ rw h refl

after_same :
    (x y z : NetifAddr)
    → netif_addr_cmp x y ≡ same
    → netif_addr_cmp x z ≡ less
    → netif_addr_cmp y z ≡ less
unfolding flip
after_same x y z h k =
    let back = cmp-flip y x ∙ ap flip h in
    cmp_trans y x z (rw back refl) (rw k refl) ∙ rw (back, k) refl

less_Before :
    (x y : NetifAddr) (list : List NetifAddr)
    → netif_addr_cmp x y ≡ less
    → Before y list
    → Before x list
less_Before x y [] h b = tt
less_Before x y (z ∷ list) h (k, b) = (after_less x y z h k, less_Before x y list h b)

same_Before :
    (x y : NetifAddr) (list : List NetifAddr)
    → netif_addr_cmp x y ≡ same
    → Before x list
    → Before y list
same_Before x y [] h b = tt
same_Before x y (z ∷ list) h (k, b) = (after_same x y z h k, same_Before x y list h b)

has_none : (x : NetifAddr) (list : List NetifAddr) → Before x list → has list x ≡ false
has_none x [] b = refl
has_none x (y ∷ list) (k, b) = rw k (has_none x list b)

keep_drops :
    (flag : Bool → Bool) (x : NetifAddr) (list other : List NetifAddr)
    → Before x list
    → keep (λ z. flag (has (x ∷ other) z)) list ≡ keep (λ z. flag (has other z)) list
unfolding flip
keep_drops flag x [] other b = refl
keep_drops flag x (z ∷ list) other (k, b) =
    rw (cmp-flip z x, k, keep_drops flag x list other b) refl

-- How the first address of a list counts, when it comes before all of another list or is the same as its
-- first.
module _ (x : NetifAddr) (list other : List NetifAddr) where
  without-first : Before x other → without (x ∷ list) other ≡ x ∷ without list other
  without-first b = rw (has_none x other b) refl

  common-first : Before x other → common (x ∷ list) other ≡ common list other
  common-first b = rw (has_none x other b) refl

  without-drop : Before x other → without other (x ∷ list) ≡ without other list
  without-drop b = keep_drops not x other list b

  common-drop : Before x other → common other (x ∷ list) ≡ common other list
  common-drop b = keep_drops (λ t. t) x other list b

  common-same :
      (y : NetifAddr)
      → netif_addr_cmp x y ≡ same
      → common (x ∷ list) (y ∷ other) ≡ x ∷ common list (y ∷ other)
  common-same y e = rw e refl

  without-same :
      (y : NetifAddr)
      → netif_addr_cmp x y ≡ same
      → without (x ∷ list) (y ∷ other) ≡ without list (y ∷ other)
  without-same y e = rw e refl

abbrev onto : NetifDiff → List NetifAddr → List NetifAddr → List NetifAddr → NetifDiff
onto d a r p = record {
  added = revert_onto d.added a;
  removed = revert_onto d.removed r;
  preserved = revert_onto d.preserved p;
}

Sign-cases : (s : Sign) → (s ≡ less) ⊎ (s ≡ same) ⊎ (s ≡ more)
Sign-cases less = inl refl
Sign-cases same = inr (inl refl)
Sign-cases more = inr (inr refl)

onto_eq :
    (d : NetifDiff) {a a' r r' p p' : List NetifAddr}
    → a' ≡ a
    → r' ≡ r
    → p' ≡ p
    → some (onto d a r p) ≡ some (onto d a' r' p')
onto_eq d ea er ep = rw (ea, er, ep) refl

loop_lem :
    (fuel : ℕ) (d : NetifDiff) (l1 l2 : List NetifAddr)
    → length l1 + length l2 < fuel
    → IsStrict l1
    → IsStrict l2
    → diff_loop fuel d l1 l2 ≡ some (onto d (without l2 l1) (without l1 l2) (common l1 l2))
unfolding diff_loop revert_onto flip
loop_lem zero d l1 l2 l s t = absurd (omega arith)
loop_lem (suc fuel) d [] [] l s t = refl
loop_lem (suc fuel) d [] (y ∷ l2) l s (ty, t) =
    loop_lem fuel (record d { added = y ∷ d.added }) [] l2 (omega arith) tt t
loop_lem (suc fuel) d (x ∷ l1) [] l (sx, s) t =
    loop_lem fuel (record d { removed = x ∷ d.removed }) l1 [] (omega arith) s tt
loop_lem (suc fuel) d (x ∷ l1) (y ∷ l2) l (sx, s) (ty, t) = elim (Sign-cases (netif_addr_cmp x y)) [
  | inl e ↦
      let b : Before x (y ∷ l2) = (e, less_Before x y l2 e ty) in
      rw e
        (loop_lem fuel (record d { removed = x ∷ d.removed }) l1 (y ∷ l2) (omega arith) s (ty, t))
      ∙ onto_eq d (without-drop x l1 (y ∷ l2) b) (without-first x l1 (y ∷ l2) b)
          (common-first x l1 (y ∷ l2) b)
  | inr (inl e) ↦
      let back = cmp-flip y x ∙ ap flip e in
      let bx = same_Before y x l2 back ty in
      let by = same_Before x y l1 e sx in
      rw e (loop_lem fuel (record d { preserved = x ∷ d.preserved }) l1 l2 (omega arith) s t)
      ∙ onto_eq d (without-same y l2 l1 x back ∙ without-drop x l1 l2 bx)
          (without-same x l1 l2 y e ∙ without-drop y l2 l1 by)
          (common-same x l1 l2 y e ∙ ap (λ r. x ∷ r) (common-drop y l2 l1 by))
  | inr (inr e) ↦
      let back = cmp-flip y x ∙ ap flip e in
      let b : Before y (x ∷ l1) = (back, less_Before y x l1 back sx) in
      rw e (loop_lem fuel (record d { added = y ∷ d.added }) (x ∷ l1) l2 (omega arith) (sx, s) t)
      ∙ onto_eq d (without-first y l2 (x ∷ l1) b) (without-drop y l2 (x ∷ l1) b)
          (common-drop y l2 (x ∷ l1) b)
]

append-nil : (list : List NetifAddr) → list ++ [] ≡ list
append-nil [] = refl
append-nil (x ∷ list) = ap (λ l. x ∷ l) (append-nil list)

revert_twice :
    (prev back list : List NetifAddr)
    → revert_onto prev (revert_onto back list) ≡ revert_onto (list ++ prev) back
unfolding revert_onto
revert_twice prev back [] = refl
revert_twice prev back (x ∷ list) = revert_twice prev (x ∷ back) list

revert_revert : (list : List NetifAddr) → netif_addr_list_revert (revert_onto [] list) ≡ list
unfolding netif_addr_list_revert revert_onto
revert_revert list = revert_twice [] [] list ∙ append-nil list

-- For two lists in which each address comes strictly before those that follow it, the difference has as
-- added what only the second list has, as removed what only the first has, and as preserved the first
-- list's nodes for what both have, each in order.
pub diff_lem :
    (list1 list2 : List NetifAddr)
    → IsStrict list1
    → IsStrict list2
    → netif_diff_compute list1 list2
      ≡ some (record {
        added = without list2 list1;
        removed = without list1 list2;
        preserved = common list1 list2;
      })
unfolding netif_diff_compute revert_diff
diff_lem list1 list2 s t =
    ap revert_diff (
      loop_lem (suc (length list1 + length list2))
        (record { added = []; removed = []; preserved = [] }) list1 list2 (omega arith) s t)
    ∙ rw
        (
          revert_revert (without list2 list1),
          revert_revert (without list1 list2),
          revert_revert (common list1 list2),
        )
        refl
