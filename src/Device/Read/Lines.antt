-- ===== src/Device/Read/Lines.antt =====
-- device_read_decode_line and the loop of device_read of airscan-device.c. What is read through a
-- pointer is read by get_or: the capacity of the buffer is the business of Buffer.
use sane_airscan.Base.{
  ℕ, zero, suc, ◌+◌, ◌-◌, Bool, Option, none, some, List, [], ◌∷◌, ◌++◌, get_or, leb, ◌==◌,
  if◌then◌else◌, min, replicate,
}
use sane_airscan.Device.Types.{Status, good, eof, io_error}
use sane_airscan.Device.Job.{is_good}
use sane_airscan.Device.Read.{Request, Clip, fill_white, device_read_24_to_8_resample}
use sane_airscan.Filter.{Filter, filter_chain_apply}

-- What struct device keeps for the reader; `lines` and `bytes_per_line` are of opt.params.
pub record Reader : Type 0 where
  pub lines : ℕ
  pub bytes_per_line : ℕ
  pub read_24_to_8 : Bool
  pub read_skip_bytes : ℕ
  pub read_line_real_wid : ℕ
  pub read_line_end : ℕ
  pub read_line_num : ℕ
  pub read_line_off : ℕ
  pub read_line_buf : List ℕ
  pub read_filters : List Filter

-- The reader that device_read_next sets up with its buffer, for the lines of the client; `filters` are
-- those of the device.
unfoldable pub begin_reader : Request → ℕ → List Filter → Clip → Reader
begin_reader r lines filters clip = record {
  lines = lines;
  bytes_per_line = r.bytes_per_line;
  read_24_to_8 = clip.read_24_to_8;
  read_skip_bytes = clip.read_skip_bytes;
  read_line_real_wid = clip.read_line_real_wid;
  read_line_end = clip.read_line_end;
  read_line_num = 0;
  read_line_off = r.bytes_per_line;
  read_line_buf = replicate clip.line_capacity 0xff;
  read_filters = filters;
}

-- A line in the buffer, through the filters, from its start.
unfoldable pub line_ready : Reader → List ℕ → Status × Reader
line_ready r buf = (
  good,
  record r {
    read_line_buf = filter_chain_apply r.read_filters buf r.bytes_per_line;
    read_line_off = 0;
    read_line_num = r.read_line_num + 1;
  },
)

-- The line that the decoder gave, or its error.
unfoldable pub line_decoded : Reader → Option (List ℕ) → Status × Reader
line_decoded r none = (io_error, r)
line_decoded r (some buf) = line_ready r (
    if r.read_24_to_8
    then device_read_24_to_8_resample r.read_line_real_wid r.bytes_per_line buf
    else buf)

-- The decoder is a parameter: what it makes of the buffer for a line, or none for an error.
unfoldable pub device_read_decode_line : (ℕ → List ℕ → Option (List ℕ)) → Reader → Status × Reader
device_read_decode_line read_line r =
    if r.read_line_num == r.lines
    then (eof, r)
    else if leb r.read_line_end r.read_line_num
    then line_ready r (fill_white r.bytes_per_line r.read_skip_bytes r.read_line_buf)
    else line_decoded r (read_line r.read_line_num r.read_line_buf)

-- `n` bytes from `i` on.
unfoldable pub bytes_at : List ℕ → ℕ → ℕ → List ℕ
bytes_at buf i zero = []
bytes_at buf i (suc n) = get_or buf i 0 ∷ bytes_at buf (i + 1) n

-- What a loop leaves: its status, the bytes that it copied, and the reader.
pub record Copied : Type 0 where
  pub status : Status
  pub bytes : List ℕ
  pub reader : Reader

abbrev pub with_bytes : List ℕ → Option Copied → Option Copied
with_bytes piece none = none
with_bytes piece (some c) = some (record c { bytes = piece ++ c.bytes })

abbrev pub when_good : Status × Reader → (Reader → Option Copied) → Option Copied
when_good (status, r) rest =
    if is_good status then rest r else some (record { status = status; bytes = []; reader = r })

-- The loop of device_read while the status is good, on fuel; `left` is `max_len - len`.
unfoldable pub read_loop : (ℕ → List ℕ → Option (List ℕ)) → ℕ → ℕ → Reader → Option Copied
read_loop read_line zero left r = none
read_loop read_line (suc fuel) left r =
    let line =
      when_good (device_read_decode_line read_line r) (λ r'. read_loop read_line fuel left r') in
    let sz = min left (r.bytes_per_line - r.read_line_off) in
    let piece = bytes_at r.read_line_buf (r.read_skip_bytes + r.read_line_off) sz in
    let rest =
      read_loop read_line fuel (left - sz) (record r { read_line_off = r.read_line_off + sz }) in
    if left == 0
    then some (record { status = good; bytes = []; reader = r })
    else if r.read_line_off == r.bytes_per_line
    then line
    else with_bytes piece rest
