-- ===== src/Devid/Alloc.antt =====
-- devid_alloc and devid_free against the bits of all IDs.
use sane_airscan.Base.{
  ℕ, zero, suc, ◌+◌, ◌-◌, ◌/◌, ◌%◌, ◌<◌, ◌≡◌, ◌≢◌, refl, ap, ◌∙◌, inl, inr, Bool, true, false, none,
  some, List, [], ◌∷◌, ◌==◌, if◌then◌else◌, get_or, set, get_or-set_self, get_or-set_ne, length,
  replicate, length-set, length-replicate, arith, Bool-cases, ==_iff,
}
use native.Mathlib.Decide.{ℕ_discrete}
use sane_airscan.Devid.{
  Devid, devid_bits_get, devid_bits_set, find_free, devid_alloc, devid_free, devid_range,
  devid_init,
}

-- The bitmap has a bit for each ID.
pub record IsValid (s : Devid) : Type 0 where
  pub words : length s.bits ≡ 2048
  pub word : (k : ℕ) → length (get_or s.bits k (replicate 32 false)) ≡ 32
  pub next_in : s.next < devid_range

-- The position of the loop's start before a free ID, going round.
abbrev ahead : ℕ → ℕ → ℕ
ahead n id = (id + 65536 - n) % 65536

find_free_lem :
    (fuel : ℕ) (s : Devid) (n id : ℕ)
    → n < 65536
    → id < 65536
    → devid_bits_get s id ≡ false
    → ahead n id < fuel
    → (r : ℕ) × (find_free fuel s n ≡ some r) × (r < 65536) × (devid_bits_get s r ≡ false)
unfolding find_free
find_free_lem zero s n id a b e h = absurd (omega arith)
find_free_lem (suc fuel) s n id a b e h = elim (Bool-cases (devid_bits_get s n)) [
  | inl used ↦
      let other : n ≢ id = λ same. cc (ap (devid_bits_get s) same) in
      let (r, f, l, free) =
        find_free_lem fuel s ((n + 1) % 65536) id (omega arith) b e (omega arith) in
      (r, rw used f, l, free)
  | inr free ↦ (n, rw free refl, a, free)
]

abbrev blank : List Bool
blank = replicate 32 false

same_word :
    (s : Devid) (i j : ℕ) (v : Bool)
    → IsValid s
    → i < 65536
    → i / 32 ≡ j / 32
    → devid_bits_get (devid_bits_set s i v) j
      ≡ get_or (set (get_or s.bits (j / 32) blank) (i % 32) v) (j % 32) false
unfolding devid_bits_get devid_bits_set
same_word s i j v w h e = rw e (
    ap (λ r. get_or r (j % 32) false)
      (get_or-set_self s.bits (j / 32) (set (get_or s.bits (j / 32) blank) (i % 32) v) blank
        (omega (arith, w.words))))

other_word :
    (s : Devid) (i j : ℕ) (v : Bool)
    → i / 32 ≢ j / 32
    → devid_bits_get (devid_bits_set s i v) j ≡ devid_bits_get s j
unfolding devid_bits_get devid_bits_set
other_word s i j v e =
    ap (λ r. get_or r (j % 32) false) (get_or-set_ne s.bits (i / 32) (j / 32) _ blank e)

bits_get-set_self :
    (s : Devid) (i : ℕ) (v : Bool)
    → IsValid s
    → i < 65536
    → devid_bits_get (devid_bits_set s i v) i ≡ v
bits_get-set_self s i v w h =
    same_word s i i v w h refl
    ∙ get_or-set_self (get_or s.bits (i / 32) blank) (i % 32) v false
        (omega (arith, w.word (i / 32)))

bits_get-set_ne :
    (s : Devid) (i j : ℕ) (v : Bool)
    → IsValid s
    → i < 65536
    → i ≢ j
    → devid_bits_get (devid_bits_set s i v) j ≡ devid_bits_get s j
bits_get-set_ne s i j v w h ne = elim (ℕ_discrete (i / 32) (j / 32)) [
  | yes e ↦
      same_word s i j v w h e
      ∙ get_or-set_ne (get_or s.bits (j / 32) blank) (i % 32) (j % 32) v false
          (λ m. ne (omega arith))
      ∙ unfold devid_bits_get in refl
  | no e ↦ other_word s i j v e
]

bits_get-set :
    (s : Devid) (i j : ℕ) (v : Bool)
    → IsValid s
    → i < 65536
    → devid_bits_get (devid_bits_set s i v) j ≡ (if i == j then v else devid_bits_get s j)
bits_get-set s i j v w h = elim (ℕ_discrete i j) [
  | yes e ↦ let t : (i == j) ≡ true = (==_iff i j).1 e in rw (t, ← e) (bits_get-set_self s i v w h)
  | no e ↦ let t : (i == j) ≡ false = ground arith in rw t (bits_get-set_ne s i j v w h e)
]

word-set :
    (ws : List (List Bool)) (i k : ℕ) (w : List Bool)
    → length (get_or ws k blank) ≡ 32
    → length w ≡ 32
    → length (get_or (set ws i w) k blank) ≡ 32
word-set [] i k w h l = h
word-set (x ∷ xs) zero zero w h l = l
word-set (x ∷ xs) zero (suc k) w h l = h
word-set (x ∷ xs) (suc i) zero w h l = h
word-set (x ∷ xs) (suc i) (suc k) w h l = word-set xs i k w h l

bits_set-IsValid : (s : Devid) (i : ℕ) (v : Bool) → IsValid s → IsValid (devid_bits_set s i v)
unfolding devid_bits_set
bits_set-IsValid s i v w = record {
  words = length-set s.bits (i / 32) _ ∙ w.words;
  word = λ k.
      word-set s.bits (i / 32) k _ (w.word k)
        (length-set (get_or s.bits (i / 32) blank) (i % 32) v ∙ w.word (i / 32));
  next_in = w.next_in;
}

-- What a call of devid_alloc leaves.
pub record Allocated (s : Devid) (id : ℕ) (s' : Devid) : Type 0 where
  pub in_range : id < devid_range
  pub was_free : devid_bits_get s id ≡ false
  pub marked : (j : ℕ) → devid_bits_get s' j ≡ (if id == j then true else devid_bits_get s j)
  pub goes_on : s'.next ≡ (id + 1) % devid_range
  pub valid : IsValid s'

alloc_eq :
    (s : Devid) (r : ℕ)
    → find_free 65536 s s.next ≡ some r
    → devid_alloc devid_range s
      ≡ some (r, devid_bits_set (record s { next = (r + 1) % devid_range }) r true)
unfolding devid_alloc
alloc_eq s r f = rw (f, devid_alloc) refl

-- The position of the search does not matter to the bits.
moved :
    (s : Devid) (r j : ℕ)
    → devid_bits_get (devid_bits_set (record s { next = (r + 1) % devid_range }) r true) j
      ≡ devid_bits_get (devid_bits_set s r true) j
unfolding devid_bits_get devid_bits_set
moved s r j = refl

-- While an ID is free, devid_alloc ends within a round of all IDs and returns an ID that was free;
-- it marks that ID and no other.
pub devid_alloc_lem :
    (s : Devid) (id : ℕ)
    → IsValid s
    → id < devid_range
    → devid_bits_get s id ≡ false
    → (r : ℕ) × (s' : Devid) × (devid_alloc devid_range s ≡ some (r, s')) × Allocated s r s'
devid_alloc_lem s id w h e =
    let (r, f, l, free) = find_free_lem 65536 s s.next id w.next_in h e (omega arith) in
    (
      r,
      devid_bits_set (record s { next = (r + 1) % devid_range }) r true,
      alloc_eq s r f,
      record {
        in_range = l;
        was_free = free;
        marked = λ j. moved s r j ∙ bits_get-set s r j true w l;
        goes_on = unfold devid_bits_set in refl;
        valid =
            bits_set-IsValid _ r true
              (record { words = w.words; word = w.word; next_in = omega arith });
      },
    )

-- Freeing an ID makes it free, and leaves all others as they are.
pub devid_free_lem :
    (s : Devid) (id : ℕ)
    → IsValid s
    → id < devid_range
    → IsValid (devid_free s id)
      × ((j : ℕ)
          → devid_bits_get (devid_free s id) j ≡ (if id == j then false else devid_bits_get s j))
unfolding devid_free
devid_free_lem s id w h = (bits_set-IsValid s id false w, λ j. bits_get-set s id j false w h)

all_used :
    (fuel : ℕ) (s : Devid) (n : ℕ)
    → ((id : ℕ) → id < 65536 → devid_bits_get s id ≡ true)
    → n < 65536
    → find_free fuel s n ≡ none
unfolding find_free
all_used zero s n h l = refl
all_used (suc fuel) s n h l = rw (h n l) (all_used fuel s ((n + 1) % 65536) h (omega arith))

-- Where all IDs are in use, devid_alloc does not end.
pub devid_alloc_hangs :
    (fuel : ℕ) (s : Devid)
    → IsValid s
    → ((id : ℕ) → id < devid_range → devid_bits_get s id ≡ true)
    → devid_alloc fuel s ≡ none
unfolding devid_alloc
devid_alloc_hangs fuel s w h = rw (all_used fuel s s.next h w.next_in, devid_alloc) refl

word_of : (b : Bool) (n k : ℕ) → length (get_or (replicate n (replicate 32 b)) k blank) ≡ 32
word_of b zero k = refl
word_of b (suc n) zero = length-replicate 32 b
word_of b (suc n) (suc k) = word_of b n k

-- The allocator is valid from the start.
pub devid_init-IsValid : IsValid devid_init
unfolding devid_init
devid_init-IsValid = record {
  words = length-replicate 2048 blank;
  word = word_of false 2048;
  next_in = omega arith;
}

-- All IDs in use.
abbrev pub full : Devid
full = record { next = 5; bits = replicate 2048 (replicate 32 true) }

pub full-IsValid : IsValid full
full-IsValid = record {
  words = length-replicate 2048 (replicate 32 true);
  word = word_of true 2048;
  next_in = omega arith;
}

get_or-replicate {ℓ} : {A : Type ℓ} (n k : ℕ) (a d : A) → k < n → get_or (replicate n a) k d ≡ a
get_or-replicate zero k a d h = absurd (omega arith)
get_or-replicate (suc n) zero a d h = refl
get_or-replicate (suc n) (suc k) a d h = get_or-replicate n k a d (omega arith)

pub all_taken : (id : ℕ) → id < devid_range → devid_bits_get full id ≡ true
unfolding devid_bits_get
all_taken id h =
    rw (get_or-replicate 2048 (id / 32) (replicate 32 true) blank (omega arith))
      (get_or-replicate 32 (id % 32) true false (omega arith))
