-- ===== src/Netif.antt =====
-- airscan-netif.c: the sorted lists of the addresses of network interfaces. A list is the list of its
-- nodes; a node that is freed is left out. What the kernel reports is the input of the functions.
pub mod Order
pub mod Sort
pub mod Diff
use sane_airscan.Base.{
  ℕ, zero, suc, ◌+◌, Bool, true, false, not, ◌&&◌, ◌||◌, Option, none, some, List, [], ◌∷◌, ltb,
  ◌==◌, if◌then◌else◌, length,
}
use sane_airscan.Uuid.{Text}
use sane_airscan.Ip.{Bits, af_inet, af_inet6, eq_bit, ip_is_linklocal, Sign, less, same, more}

-- netif_addr. The name of the interface and the user's pointer are left out.
pub record NetifAddr : Type 0 where
  pub ifindex : ℕ
  pub ipv6 : Bool
  pub straddr : Text
  pub ip : Bits

-- strcmp.
unfoldable pub strcmp : Text → Text → Sign
strcmp [] [] = same
strcmp [] (_ ∷ _) = less
strcmp (_ ∷ _) [] = more
strcmp (a ∷ s) (b ∷ t) =
    let rest = strcmp s t in if a == b then rest else if ltb a b then less else more

abbrev pub is_ll : NetifAddr → Bool
is_ll a = ip_is_linklocal (if a.ipv6 then af_inet6 else af_inet) a.ip

unfoldable pub netif_addr_cmp : NetifAddr → NetifAddr → Sign
netif_addr_cmp a1 a2 =
    if not (a1.ifindex == a2.ifindex)
    then if ltb a1.ifindex a2.ifindex then less else more
    else if not (eq_bit (is_ll a1) (is_ll a2))
    then if is_ll a1 then more else less
    else if not (eq_bit a1.ipv6 a2.ipv6)
    then if a1.ipv6 then less else more
    else strcmp a1.straddr a2.straddr

-- The loop of netif_addr_list_revert, with the list `prev`.
unfoldable pub revert_onto : List NetifAddr → List NetifAddr → List NetifAddr
revert_onto prev [] = prev
revert_onto prev (x ∷ list) = revert_onto (x ∷ prev) list

unfoldable pub netif_addr_list_revert : List NetifAddr → List NetifAddr
netif_addr_list_revert list = revert_onto [] list

-- The halves of a list; `half` is the next one to take a node.
unfoldable pub split_halves :
    List NetifAddr → List NetifAddr → Bool → List NetifAddr → List NetifAddr × List NetifAddr
split_halves h0 h1 half [] = (h0, h1)
split_halves h0 h1 false (x ∷ list) = split_halves (x ∷ h0) h1 true list
split_halves h0 h1 true (x ∷ list) = split_halves h0 (x ∷ h1) false list

abbrev pub is_less : Sign → Bool
is_less less = true
is_less _ = false

-- The merging of two lists onto a list that it reverts, on fuel.
unfoldable pub merge_onto :
    ℕ → List NetifAddr → List NetifAddr → List NetifAddr → Option (List NetifAddr)
merge_onto zero list h0 h1 = none
merge_onto (suc fuel) list [] [] = some list
merge_onto (suc fuel) list [] (y ∷ h1) = merge_onto fuel (y ∷ list) [] h1
merge_onto (suc fuel) list (x ∷ h0) [] = merge_onto fuel (x ∷ list) h0 []
merge_onto (suc fuel) list (x ∷ h0) (y ∷ h1) =
    let first = merge_onto fuel (x ∷ list) h0 (y ∷ h1) in
    let second = merge_onto fuel (y ∷ list) (x ∷ h0) h1 in
    if is_less (netif_addr_cmp x y) then first else second

-- Each round takes a node.
unfoldable pub netif_addr_list_merge : List NetifAddr → List NetifAddr → Option (List NetifAddr)
netif_addr_list_merge list1 list2 =
    elim (merge_onto (suc (length list1 + length list2)) [] list1 list2) [
      | none ↦ none
      | some list ↦ some (netif_addr_list_revert list)
    ]

unfoldable pub merge_halves :
    Option (List NetifAddr) → Option (List NetifAddr) → Option (List NetifAddr)
merge_halves none _ = none
merge_halves (some h0) none = none
merge_halves (some h0) (some h1) = netif_addr_list_merge h0 h1

-- The fuel is for the depth of the recursion; the merging at its end is that of netif_addr_list_merge.
unfoldable pub netif_addr_list_sort : ℕ → List NetifAddr → Option (List NetifAddr)
netif_addr_list_sort fuel [] = some []
netif_addr_list_sort fuel (x ∷ []) = some (x ∷ [])
netif_addr_list_sort zero (x ∷ y ∷ list) = none
netif_addr_list_sort (suc fuel) (x ∷ y ∷ list) =
    let halves = split_halves [] [] false (x ∷ y ∷ list) in
    let s0 = netif_addr_list_sort fuel halves.0 in
    let s1 = netif_addr_list_sort fuel halves.1 in merge_halves s0 s1

-- netif_diff.
pub record NetifDiff : Type 0 where
  pub added : List NetifAddr
  pub removed : List NetifAddr
  pub preserved : List NetifAddr

-- One of three, by the sign of a comparison.
abbrev by_sign : Sign → Option NetifDiff → Option NetifDiff → Option NetifDiff → Option NetifDiff
by_sign less a b c = a
by_sign same a b c = b
by_sign more a b c = c

-- The loop of netif_diff_compute, on fuel.
unfoldable pub diff_loop : ℕ → NetifDiff → List NetifAddr → List NetifAddr → Option NetifDiff
diff_loop zero diff l1 l2 = none
diff_loop (suc fuel) diff [] [] = some diff
diff_loop (suc fuel) diff [] (y ∷ l2) =
    diff_loop fuel (record diff { added = y ∷ diff.added }) [] l2
diff_loop (suc fuel) diff (x ∷ l1) [] =
    diff_loop fuel (record diff { removed = x ∷ diff.removed }) l1 []
diff_loop (suc fuel) diff (x ∷ l1) (y ∷ l2) =
    let gone = diff_loop fuel (record diff { removed = x ∷ diff.removed }) l1 (y ∷ l2) in
    let new = diff_loop fuel (record diff { added = y ∷ diff.added }) (x ∷ l1) l2 in
    let both = diff_loop fuel (record diff { preserved = x ∷ diff.preserved }) l1 l2 in
    by_sign (netif_addr_cmp x y) gone both new

-- What follows the loop.
unfoldable pub revert_diff : Option NetifDiff → Option NetifDiff
revert_diff none = none
revert_diff (some diff) = some (record {
  added = netif_addr_list_revert diff.added;
  removed = netif_addr_list_revert diff.removed;
  preserved = netif_addr_list_revert diff.preserved;
})

unfoldable pub netif_diff_compute : List NetifAddr → List NetifAddr → Option NetifDiff
netif_diff_compute list1 list2 =
    let diff : NetifDiff = record { added = []; removed = []; preserved = [] } in
    revert_diff (diff_loop (suc (length list1 + length list2)) diff list1 list2)
