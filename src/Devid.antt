-- ===== src/Devid.antt =====
-- airscan-devid.c: the allocator of device IDs. The bitmap is an array of 2048 words, a word is the
-- list of its 32 bits from the lowest, and the mask `1 << (id & 31)` picks the bit `id % 32`.
pub mod Alloc
use sane_airscan.Base.{
  ℕ, zero, suc, ◌+◌, ◌/◌, ◌%◌, ◌^◌, Bool, true, false, Option, none, some, List, if◌then◌else◌,
  get_or, set, replicate,
}

-- DEVID_RANGE.
abbrev pub devid_range : ℕ
devid_range = 65536

-- The static variables.
pub record Devid : Type 0 where
  pub next : ℕ
  pub bits : List (List Bool)

unfoldable pub devid_bits_get : Devid → ℕ → Bool
devid_bits_get s id = get_or (get_or s.bits (id / 32) (replicate 32 false)) (id % 32) false

unfoldable pub devid_bits_set : Devid → ℕ → Bool → Devid
devid_bits_set s id v = record s {
  bits = set s.bits (id / 32) (set (get_or s.bits (id / 32) (replicate 32 false)) (id % 32) v);
}

-- `while (devid_bits_get(devid_next)) devid_next ++`, on fuel. The variable is a uint16_t.
unfoldable pub find_free : ℕ → Devid → ℕ → Option ℕ
find_free zero s n = none
find_free (suc fuel) s n =
    let rest = find_free fuel s ((n + 1) % devid_range) in
    if devid_bits_get s n then rest else some n

-- The fuel is one round for each ID.
unfoldable pub devid_alloc : ℕ → Devid → Option (ℕ × Devid)
devid_alloc fuel s = elim (find_free fuel s s.next) [
  | none ↦ none
  | some n ↦ some (n, devid_bits_set (record s { next = (n + 1) % devid_range }) n true)
]

unfoldable pub devid_free : Devid → ℕ → Devid
devid_free s id = devid_bits_set s id false

unfoldable pub devid_init : Devid
devid_init = record { next = 0; bits = replicate (devid_range / 32) (replicate 32 false) }
