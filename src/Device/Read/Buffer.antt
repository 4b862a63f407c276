-- ===== src/Device/Read/Buffer.antt =====
-- The buffer that device_read_next allocates, and what is written into it.
use sane_airscan.Base.{◌+◌, ◌*◌, ◌≤◌, ◌≡◌}
use sane_airscan.Device.Read.{Window, Clip, Request, bytes_of}

-- What a decoder documents of the window that it grants: it starts no later than asked.
abbrev pub IsGranted : Window → Window → Type 0
IsGranted asked win = (win.x_off ≤ asked.x_off) × (win.y_off ≤ asked.y_off)

-- The buffer holds a line of the decoder, and a line of the client behind the skipped bytes.
pub record IsRoomy (r : Request) (win : Window) (c : Clip) : Type 0 where
  pub decoder_fits : win.wid * bytes_of r.image_frame ≤ c.line_capacity
  pub client_fits : c.read_skip_bytes + r.bytes_per_line ≤ c.line_capacity
  pub columns : win.x_off * bytes_of r.frame + c.read_skip_bytes ≡ r.skip_x * bytes_of r.frame
  pub rows : win.y_off + c.skip_lines ≡ r.skip_y
