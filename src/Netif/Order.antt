-- ===== src/Netif/Order.antt =====
-- netif_addr_cmp as an order.
use sane_airscan.Base.{ℕ, ◌≡◌, refl, subst, Bool, true, false, not, [], ◌∷◌, arith}
use sane_airscan.Uuid.{Text}
use sane_airscan.Ip.{Sign, less, same, more}
use sane_airscan.Ip.Order.{flip}
use sane_airscan.Netif.{NetifAddr, strcmp, is_ll, netif_addr_cmp}

abbrev bit : Bool → ℕ
bit true = 1
bit false = 0

-- What the comparison goes by, in this order.
abbrev key : NetifAddr → Text
key a = a.ifindex ∷ bit (is_ll a) ∷ bit (not a.ipv6) ∷ a.straddr

cmp_key : (a b : NetifAddr) → netif_addr_cmp a b ≡ strcmp (key a) (key b)
unfolding netif_addr_cmp strcmp
cmp_key a b = ground arith

strcmp-flip : (s t : Text) → strcmp s t ≡ flip (strcmp t s)
unfolding strcmp flip
strcmp-flip [] [] = refl
strcmp-flip [] (_ ∷ _) = refl
strcmp-flip (_ ∷ _) [] = refl
strcmp-flip (a ∷ s) (b ∷ t) = ground (arith, strcmp-flip s t)

abbrev pub is_more : Sign → Bool
is_more more = true
is_more _ = false

abbrev pub is_same : Sign → Bool
is_same same = true
is_same _ = false

-- Two steps down, of which one may be none, are a step down.
abbrev pub add : Sign → Sign → Sign
add less _ = less
add same s = s
add more _ = more

strcmp_trans :
    (s t u : Text)
    → is_more (strcmp s t) ≡ false
    → is_more (strcmp t u) ≡ false
    → strcmp s u ≡ add (strcmp s t) (strcmp t u)
unfolding strcmp
strcmp_trans [] [] u h k = ground arith
strcmp_trans [] (b ∷ t) [] h k = ground arith
strcmp_trans [] (b ∷ t) (c ∷ u) h k = ground arith
strcmp_trans (a ∷ s) [] u h k = ground arith
strcmp_trans (a ∷ s) (b ∷ t) [] h k = ground arith
strcmp_trans (a ∷ s) (b ∷ t) (c ∷ u) h k = ground (arith, strcmp_trans s t u)

pub cmp-flip : (a b : NetifAddr) → netif_addr_cmp a b ≡ flip (netif_addr_cmp b a)
cmp-flip a b = rw (cmp_key a b, cmp_key b a) (strcmp-flip (key a) (key b))

-- Of three addresses in order, the first and the third compare as the two steps between them say.
pub cmp_trans :
    (a b c : NetifAddr)
    → is_more (netif_addr_cmp a b) ≡ false
    → is_more (netif_addr_cmp b c) ≡ false
    → netif_addr_cmp a c ≡ add (netif_addr_cmp a b) (netif_addr_cmp b c)
cmp_trans a b c h k =
    rw (cmp_key a c, cmp_key a b, cmp_key b c)
      (strcmp_trans (key a) (key b) (key c) (subst (λ s. is_more s ≡ false) (cmp_key a b) h)
        (subst (λ s. is_more s ≡ false) (cmp_key b c) k))
