-- ===== src/Device/Read/Overrun.antt =====
-- The buffer of device_read_next where everything is to be skipped, against the first line that
-- device_read_decode_line then asks the decoder for.
use sane_airscan.Base.{
  ℕ, ◌*◌, ◌<◌, ◌≤◌, ◌≡◌, ◌⊎◌, refl, Bool, true, false, ◌||◌, Option, some, List, leb, ◌==◌, length,
  length-replicate, arith,
}
use sane_airscan.Filter.{Filter}
use sane_airscan.Device.Read.{
  Window, Clip, Request, bytes_of, choose_resampling, clip_all, device_read_next,
}
use sane_airscan.Device.Read.Lines.{begin_reader, line_decoded, device_read_decode_line}

-- Where the skipped columns or rows are all of an image of at least a line, whose lines are longer than
-- those of the client, and the client wants a line: device_read_next succeeds, and the first line that
-- device_read_decode_line gives is a line of the image, which it asks of the decoder with a buffer that
-- is shorter than the line.
pub read_next_overrun :
    (set_window : Window → Option Window) (read_line : ℕ → List ℕ → Option (List ℕ)) (r : Request)
    (lines : ℕ) (filters : List Filter) (b : Bool)
    → choose_resampling r.image_frame r.frame ≡ some b
    → (r.image_wid ≤ r.skip_x) ⊎ (r.image_hei ≤ r.skip_y)
    → 0 < r.image_hei
    → 0 < lines
    → r.bytes_per_line < r.image_wid * bytes_of r.image_frame
    → (c : Clip) × (device_read_next set_window r ≡ some c)
      × (device_read_decode_line read_line (begin_reader r lines filters c)
          ≡ line_decoded
              (begin_reader r lines filters c)
              (read_line 0 (begin_reader r lines filters c).read_line_buf))
      × (length (begin_reader r lines filters c).read_line_buf
          < r.image_wid * bytes_of r.image_frame)
unfolding device_read_next clip_all begin_reader device_read_decode_line
read_next_overrun set_window read_line r lines filters b f h hei l short =
    let all : (leb r.image_wid r.skip_x || leb r.image_hei r.skip_y) ≡ true = ground (arith, h) in
    let first : (0 == lines) ≡ false = ground arith in
    let inside : leb r.image_hei 0 ≡ false = ground arith in
    (
      clip_all r b,
      rw (f, device_read_next) (rw all refl),
      rw (first, inside) refl,
      omega (arith, length-replicate {A = ℕ} r.bytes_per_line 0xff),
    )
