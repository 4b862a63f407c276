-- ===== src/Tests/Lines.antt =====
-- Image lines, filters, tables of names, and the order of addresses at concrete inputs.
use sane_airscan.Base.{
  false, none, ◌+◌, ◌*◌, suc, zero, ℕ, ◌≡◌, refl, inl, inr, true, length, ◌<◌, Option, some, List,
  [], ◌∷◌, get_or, ltb, if◌then◌else◌, arith,
}
use sane_airscan.Base.Int.{ℤ, pos}
use sane_airscan.Device.Read.{
  gray, rgb, Window, Clip, Request, luma, bytes_of, device_read_24_to_8_resample, choose_resampling,
  device_read_next,
}
use sane_airscan.Device.Read.Lines.{
  Reader, begin_reader, line_decoded, device_read_decode_line, read_loop,
}
use sane_airscan.Device.Read.Stream.{Reads, read_loop-Reads}
use sane_airscan.Device.Read.Pieces.{stream}
use sane_airscan.Device.Read.Gray.{gray_line, resample_lem}
use sane_airscan.Device.Read.Overrun.{read_next_overrun}
use sane_airscan.Filter.{Filter, filter_chain_apply}
use sane_airscan.Filter.Chain.{translate, chain_apply_lem}
use sane_airscan.Uuid.{Text}
use sane_airscan.Id.{id_proto_name_table}
use sane_airscan.Id.Lookup.{is_distinct_names, tables_lem}

-- A red and a green pixel.
abbrev line : List ℕ
line = 255 ∷ 0 ∷ 0 ∷ 0 ∷ 255 ∷ 0 ∷ []

resample_lem_example : get_or (device_read_24_to_8_resample 2 3 line) 1 0 ≡ gray_line 2 line 1
resample_lem_example = resample_lem 2 3 line 1 (omega arith) (omega arith) (omega arith)

abbrev request : Request
request = record {
  frame = gray;
  bytes_per_line = 6;
  skip_x = 3;
  skip_y = 1;
  image_frame = rgb;
  image_wid = 9;
  image_hei = 4;
}

abbrev whole : Window
whole = record { x_off = 0; y_off = 0; wid = 9; hei = 4 }

abbrev grant_whole : Window → Option Window
grant_whole _ = some whole

-- A client that starts behind the last row of an image with wide lines.
abbrev below : Request
below = record request { skip_y = 4 }

abbrev no_line : ℕ → List ℕ → Option (List ℕ)
no_line n buf = none

read_next_overrun_example :
    (c : Clip) × (device_read_next grant_whole below ≡ some c)
    × (device_read_decode_line no_line (begin_reader below 5 [] c)
        ≡ line_decoded
            (begin_reader below 5 [] c)
            (no_line 0 (begin_reader below 5 [] c).read_line_buf))
    × (length (begin_reader below 5 [] c).read_line_buf
        < below.image_wid * bytes_of below.image_frame)
unfolding choose_resampling
read_next_overrun_example =
    read_next_overrun grant_whole no_line below 5 [] true refl (inr (omega arith)) (omega arith)
      (omega arith) (omega arith)

abbrev negative : Filter
negative = record { table = 3 ∷ 2 ∷ 1 ∷ 0 ∷ [] }

chain_apply_lem_example :
    get_or (filter_chain_apply (negative ∷ negative ∷ []) (1 ∷ 2 ∷ 3 ∷ []) 2) 1 0
    ≡ (if ltb 1 2 then translate (negative ∷ negative ∷ []) 2 else 2)
chain_apply_lem_example =
    chain_apply_lem (negative ∷ negative ∷ []) (1 ∷ 2 ∷ 3 ∷ []) 2 1 (omega arith)

abbrev wsd : Text
wsd = b'W' ∷ b'S' ∷ b'D' ∷ []

protocols-distinct : is_distinct_names id_proto_name_table ≡ true
protocols-distinct = (tables_lem id_proto_name_table (inl refl)).1

abbrev resolutions : List ℤ
resolutions = pos 75 ∷ pos 100 ∷ pos 300 ∷ pos 600 ∷ []

-- Two lines of three bytes, of which the decoder fails at the second one.
abbrev decoder : ℕ → List ℕ → Option (List ℕ)
decoder zero buf = some (1 ∷ 2 ∷ 3 ∷ 4 ∷ [])
decoder (suc n) buf = none

abbrev reader : Reader
reader = record {
  lines = 2;
  bytes_per_line = 3;
  read_24_to_8 = false;
  read_skip_bytes = 1;
  read_line_real_wid = 3;
  read_line_end = 2;
  read_line_num = 0;
  read_line_off = 3;
  read_line_buf = 0 ∷ 0 ∷ 0 ∷ 0 ∷ [];
  read_filters = [];
}

read_loop-Reads_example :
    Reads decoder (read_loop decoder (2 * 2 + 3) 5 reader) 5 (stream decoder 2 reader)
read_loop-Reads_example =
    read_loop-Reads decoder 2 5 reader (record { lines = refl; off = omega arith })
