-- ===== src/Options/Nearest.antt =====
-- The resolution that devopt_choose_resolution takes out of a list.
use sane_airscan.Base.{
  ℕ, ◌≤◌, ◌≡◌, refl, ◌≢◌, ◌⊎◌, inl, inr, true, false, some, List, [], ◌∷◌, arith, leb, Bool-cases,
}
use sane_airscan.Base.Int.{ℤ, eqb_ℤ, eqb_ℤ-eq, eqb_ℤ_self}
use sane_airscan.Array.Intersect.{has}
use sane_airscan.Caps.{DevcapsSource, res_discrete}
use sane_airscan.Options.Choose.{distance, nearest, choose_discrete, devopt_choose_resolution}

-- `res` is as near to `wanted` as every resolution of the list.
pub record IsNearest (wanted res : ℤ) (list : List ℤ) : Type 0 where
  pub listed : has res list ≡ true
  pub near : (other : ℤ) → has other list ≡ true → distance wanted res ≤ distance wanted other

has_head : (x : ℤ) (a : List ℤ) → has x (x ∷ a) ≡ true
unfolding has
has_head x a = rw (eqb_ℤ_self x) refl

has_tail : (w x : ℤ) (a : List ℤ) → has w a ≡ true → has w (x ∷ a) ≡ true
unfolding has
has_tail w x a h = ground arith

has-cases : (w x : ℤ) (a : List ℤ) → has w (x ∷ a) ≡ true → (x ≡ w) ⊎ (has w a ≡ true)
unfolding has
has-cases w x a h = elim (Bool-cases (eqb_ℤ x w)) [
  | inl e ↦ inl (eqb_ℤ-eq x w e)
  | inr n ↦ inr (rw n at h)
]

leb-le : (a b : ℕ) → leb a b ≡ true → a ≤ b
leb-le a b h = ground arith

leb-ge : (a b : ℕ) → leb a b ≡ false → b ≤ a
leb-ge a b h = ground arith

-- A round that drops `worse` for `better`.
keep_better :
    (wanted res better worse : ℤ) (list : List ℤ)
    → distance wanted better ≤ distance wanted worse
    → IsNearest wanted res (better ∷ list)
    → (other : ℤ) → (worse ≡ other) ⊎ (has other (better ∷ list) ≡ true)
    → distance wanted res ≤ distance wanted other
keep_better wanted res better worse list d n other (inr h) = n.near other h
keep_better wanted res better worse list d n other (inl e) =
    let closer : distance wanted res ≤ distance wanted better =
      n.near better (has_head better list) in
    rw (← e) (omega (arith, closer, d))

-- The words of `b ∷ a ∷ list`, with `a` apart.
has_apart :
    (w a b : ℤ) (list : List ℤ) → has w (b ∷ a ∷ list) ≡ true → (a ≡ w) ⊎ (has w (b ∷ list) ≡ true)
unfolding has
has_apart w a b list h = elim (Bool-cases (eqb_ℤ a w)) [
  | inl e ↦ inl (eqb_ℤ-eq a w e)
  | inr n ↦ inr (rw n at h)
]

has_insert : (w a b : ℤ) (list : List ℤ) → has w (b ∷ list) ≡ true → has w (b ∷ a ∷ list) ≡ true
unfolding has
has_insert w a b list h = ground arith

none_in : (w : ℤ) → has w [] ≢ true
unfolding has
none_in w h = cc

nearest-IsNearest :
    (wanted res : ℤ) (list : List ℤ)
    → IsNearest wanted (nearest wanted res (distance wanted res) list) (res ∷ list)
unfolding nearest
nearest-IsNearest wanted res [] = record {
  listed = has_head res [];
  near = λ other h. elim (has-cases other res [] h) [
    | inl e ↦ rw e (omega arith)
    | inr k ↦ absurd (none_in other k)
  ];
}
nearest-IsNearest wanted res (res2 ∷ list) =
    elim (Bool-cases (leb (distance wanted res2) (distance wanted res))) [
      | inl le ↦
          let n = nearest-IsNearest wanted res2 list in
          rw le (record {
            listed = has_tail _ res (res2 ∷ list) n.listed;
            near = λ other h.
                keep_better wanted _ res2 res list (leb-le _ _ le) n other
                  (has-cases other res (res2 ∷ list) h);
          })
      | inr gt ↦
          let n = nearest-IsNearest wanted res list in
          rw gt (record {
            listed = has_insert _ res2 res list n.listed;
            near = λ other h.
                keep_better wanted _ res res2 list (leb-ge _ _ gt) n other
                  (has_apart other res2 res list h);
          })
    ]

discrete_lem :
    (wanted : ℤ) (list : List ℤ)
    → list ≢ []
    → (res : ℤ) × ((choose_discrete wanted list ≡ some res) × IsNearest wanted res list)
discrete_lem wanted [] h = absurd (h refl)
discrete_lem wanted (res ∷ list) h =
    (nearest wanted res (distance wanted res) list, (refl, nearest-IsNearest wanted res list))

-- On a source with discrete resolutions, at least one, devopt_choose_resolution takes one of them, and
-- none of them is nearer to the wanted one than this.
pub choose_resolution_lem :
    (src : DevcapsSource) (wanted : ℤ)
    → src.flags res_discrete ≡ true
    → src.resolutions ≢ []
    → (res : ℤ) × ((devopt_choose_resolution src wanted ≡ some res)
        × IsNearest wanted res src.resolutions)
unfolding devopt_choose_resolution
choose_resolution_lem src wanted d h = rw d (discrete_lem wanted src.resolutions h)
