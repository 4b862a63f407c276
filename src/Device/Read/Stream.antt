-- ===== src/Device/Read/Stream.antt =====
-- The loop of device_read as the reading of a stream of bytes.
use sane_airscan.Base.{
  ℕ, zero, suc, ◌+◌, ◌-◌, ◌*◌, ◌≤◌, ◌≡◌, refl, subst, sym, ap, ◌∙◌, true, false, Option, some, List,
  [], ◌++◌, ◌==◌, if◌then◌else◌, min, length, length-append, take, drop, arith, Bool-cases, inl,
  inr, ◌⊎◌,
}
use sane_airscan.Device.Types.{Status, good, eof, io_error}
use sane_airscan.Device.Job.{is_good}
use sane_airscan.Device.Read.Lines.{
  Reader, line_ready, device_read_decode_line, Copied, with_bytes, when_good, read_loop,
}
use sane_airscan.Device.Read.Pieces.{
  stream, length-bytes_at, moved, piece_of, left_none, take-pieces, drop-pieces, take_none,
  drop_none, IsReader, line-cases, stream-moved,
}

-- What the loop comes to: the bytes at the front of the stream, and a reader with the others.
pub record Reads (read_line : ℕ → List ℕ → Option (List ℕ)) (found : Option Copied) (left : ℕ)
    (bytes : List ℕ) : Type 0 where
  pub copied : Copied
  pub is_found : found ≡ some copied
  pub front : copied.bytes ≡ take left bytes
  pub to_come : ℕ
  pub is_reader : IsReader to_come copied.reader
  pub others : stream read_line to_come copied.reader ≡ drop left bytes
  pub all : (is_good copied.status ≡ false) ⊎ (length copied.bytes ≡ left)

-- How many rounds are enough.
abbrev pub rounds : ℕ → ℕ → Reader → ℕ
rounds k left r =
    if left == 0 then 1 else if r.read_line_off == r.bytes_per_line then 2 * k + 2 else 2 * k + 3

module _ (read_line : ℕ → List ℕ → Option (List ℕ)) where
  -- A piece in front of what is read.
  piece-Reads :
      (found : Option Copied) (piece bytes : List ℕ) (left n : ℕ)
      → length piece ≡ n
      → Reads read_line found left bytes
      → Reads read_line (with_bytes piece found) (n + left) (piece ++ bytes)
  piece-Reads found piece bytes left n e v = record {
    copied = record v.copied { bytes = piece ++ v.copied.bytes };
    is_found = ap (with_bytes piece) v.is_found;
    front = rw (sym e, take-pieces piece bytes left, v.front) refl;
    to_come = v.to_come;
    is_reader = v.is_reader;
    others = rw (sym e, drop-pieces piece bytes left) v.others;
    all = elim v.all [
      | inl g ↦ inl g
      | inr l ↦ inr (omega (arith, length-append piece v.copied.bytes))
    ];
  }

  -- Where nothing is left, the loop ends with its status.
  end-Reads :
      (status : Status) (k left : ℕ) (r : Reader)
      → is_good status ≡ false
      → IsReader k r
      → stream read_line k r ≡ []
      → Reads read_line (some (record { status = status; bytes = []; reader = r })) left []
  end-Reads status k left r g v e = record {
    copied = record { status = status; bytes = []; reader = r };
    is_found = refl;
    front = sym (take_none left);
    to_come = k;
    is_reader = v;
    others = e ∙ sym (drop_none left);
    all = inl g;
  }

  rounds_most : (k left : ℕ) (r : Reader) → rounds k left r ≤ 2 * k + 3
  rounds_most k left r = ground arith

  ready-IsReader :
      (k : ℕ) (r : Reader) (buf : List ℕ) → IsReader (suc k) r → IsReader k (line_ready r buf).1
  unfolding line_ready
  ready-IsReader k r buf v = let e = v.lines in record { lines = omega arith; off = omega arith }

  -- A reader at the end of its line, where the loop goes on as it should with the next one.
  line-Reads :
      (fuel k left : ℕ) (r : Reader)
      → IsReader k r
      → r.read_line_off ≡ r.bytes_per_line
      → ((k' : ℕ) (r' : Reader)
          → k ≡ suc k'
          → IsReader k' r'
          → Reads read_line (read_loop read_line fuel left r') left (stream read_line k' r'))
      → Reads read_line
          (when_good (device_read_decode_line read_line r) (λ r'. read_loop read_line fuel left r'))
          left
          (stream read_line k r)
  unfolding device_read_decode_line stream line_ready
  line-Reads fuel zero left r v e next =
      let done = v.lines in
      let last : (r.read_line_num == r.lines) ≡ true = ground arith in
      rw (last, left_none r e) (end-Reads eof zero left r refl v (left_none r e))
  line-Reads fuel (suc k) left r v e next =
      let more = v.lines in
      let last : (r.read_line_num == r.lines) ≡ false = ground arith in
      elim (line-cases read_line r last) [
        | inl (buf, d) ↦
            rw (d, left_none r e) (next k (line_ready r buf).1 refl (ready-IsReader k r buf v))
        | inr d ↦
            rw (d, left_none r e)
              (end-Reads io_error (suc k) left r refl v (rw (d, left_none r e) refl))
      ]

  -- A reader inside of its line, where the loop goes on as it should behind the piece that it copies.
  copy-Reads :
      (fuel k left n : ℕ) (r : Reader)
      → IsReader k r
      → n ≤ left
      → r.read_line_off + n ≤ r.bytes_per_line
      → (IsReader k (moved r n)
          → Reads read_line
              (read_loop read_line fuel (left - n) (moved r n))
              (left - n)
              (stream read_line k (moved r n)))
      → Reads read_line
          (with_bytes (piece_of r n) (read_loop read_line fuel (left - n) (moved r n)))
          left
          (stream read_line k r)
  copy-Reads fuel k left n r v l h next =
      let inside : IsReader k (moved r n) = record { lines = v.lines; off = h } in
      let all : n + (left - n) ≡ left = omega arith in
      subst
        (λ m.
          Reads read_line
            (with_bytes (piece_of r n) (read_loop read_line fuel (left - n) (moved r n))) m
            (stream read_line k r))
        all
        (rw (stream-moved read_line k r n h) (
          piece-Reads _ (piece_of r n) _ (left - n) n
            (length-bytes_at r.read_line_buf (r.read_skip_bytes + r.read_line_off) n)
            (next inside)))

  copy_rounds :
      (k left fuel : ℕ) (r : Reader)
      → (r.read_line_off == r.bytes_per_line) ≡ false
      → r.read_line_off ≤ r.bytes_per_line
      → 2 * k + 2 ≤ fuel
      → rounds k
          (suc left - min (suc left) (r.bytes_per_line - r.read_line_off))
          (moved r (min (suc left) (r.bytes_per_line - r.read_line_off)))
        ≤ fuel
  copy_rounds k left fuel r e o h = ground arith

  loop-Reads :
      (fuel k left : ℕ) (r : Reader)
      → IsReader k r
      → rounds k left r ≤ fuel
      → Reads read_line (read_loop read_line fuel left r) left (stream read_line k r)
  unfolding read_loop
  loop-Reads zero k left r v h = absurd (ground arith)
  loop-Reads (suc fuel) k zero r v h = record {
    copied = record { status = good; bytes = []; reader = r };
    is_found = refl;
    front = refl;
    to_come = k;
    is_reader = v;
    others = refl;
    all = inr refl;
  }
  loop-Reads (suc fuel) k (suc left) r v h =
      let some_left : (suc left == 0) ≡ false = ground arith in
      let off = v.off in
      elim (Bool-cases (r.read_line_off == r.bytes_per_line)) [
        | inl e ↦
            rw (some_left, e)
              (line-Reads fuel k (suc left) r v (ground arith)
                (λ k' r' d w. loop-Reads fuel k' (suc left) r' w (ground arith)))
        | inr e ↦
            rw (some_left, e)
              (copy-Reads fuel k (suc left) (min (suc left) (r.bytes_per_line - r.read_line_off)) r
                v (omega arith) (omega arith)
                (λ w. loop-Reads fuel k _ _ w (copy_rounds k left fuel r e off (ground arith))))
      ]

-- For each decoder, each reader with `k` lines to come that is no further than the end of its line, and
-- each number of bytes: the loop of device_read ends within 2 * k + 3 rounds; it copies that many bytes
-- of the front of the stream, or the whole stream where it is shorter, what is left is the rest of the
-- stream, and where fewer bytes are copied the status is not GOOD.
pub read_loop-Reads :
    (read_line : ℕ → List ℕ → Option (List ℕ)) (k left : ℕ) (r : Reader)
    → IsReader k r
    → Reads read_line (read_loop read_line (2 * k + 3) left r) left (stream read_line k r)
read_loop-Reads read_line k left r v =
    loop-Reads read_line (2 * k + 3) k left r v (rounds_most read_line k left r)
