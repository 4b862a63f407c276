-- ===== src/Device/Events/Reading.antt =====
-- The invariant of the reader of a device: what device_read relies on, and what keeps it.
use sane_airscan.Base.{◌≡◌, Bool, true, false, not, ◌&&◌, ◌||◌, if◌then◌else◌, arith}
use sane_airscan.Device.Types.{idle, Device}
use sane_airscan.Device.Job.{same_state, device_stm_state_set}
use sane_airscan.Device.Image.{has_decoder}
use sane_airscan.Device.Events.{Thread, outside}
use sane_airscan.Device.Events.Drift.{Drift, all_images, is_fed, state_set-Drift}
use sane_airscan.Device.Events.Whole.{is_starting, is_syncing, is_reading}

-- The reader is to take an image next, or will be.
abbrev pub is_armed : Device → Thread → Bool
is_armed dev t = (dev.flag_reading && not dev.read_image) || is_starting t

pub record ReadInv (dev : Device) (t : Thread) : Type 0 where
  pub decoder : has_decoder dev.format_detected ≡ true
  pub images : all_images dev.read_queue ≡ true
  pub fed : is_armed dev t ≡ true → is_fed dev ≡ true
  pub busy : dev.flag_reading ≡ true → same_state dev.state idle ≡ false
  pub scans : dev.flag_reading ≡ true → dev.flag_scanning ≡ true
  pub calls : (is_starting t || is_syncing t) ≡ true → dev.flag_scanning ≡ true
  pub starts : (is_starting t || is_syncing t) ≡ true → dev.flag_reading ≡ false
  pub waits : is_reading t ≡ true → (dev.flag_reading ≡ true) × (dev.read_image ≡ false)

pub drift-ReadInv :
    (dev next : Device) (t : Thread)
    → Drift dev next
    → same_state next.state idle ≡ false
    → ReadInv dev t
    → ReadInv next t
drift-ReadInv dev next t d i v = record {
  decoder = rw d.format v.decoder;
  images = d.images v.images;
  fed = λ h. d.fed (v.fed (ground (arith, d.reads, d.has_image, h)));
  busy = λ _. i;
  scans = λ h. ground (arith, d.reads, d.scans, v.scans);
  calls = λ h. ground (arith, d.scans, v.calls h);
  starts = λ h. ground (arith, d.reads, v.starts h);
  waits = λ h. let (a, b) = v.waits h in (rw d.reads a, rw d.has_image b);
}

-- Outside of the calls, where the state stays as it is.
pub drift_outside :
    (dev next : Device)
    → Drift dev next
    → next.state ≡ dev.state
    → ReadInv dev outside
    → ReadInv next outside
drift_outside dev next d i v = record {
  decoder = rw d.format v.decoder;
  images = d.images v.images;
  fed = λ h. d.fed (v.fed (ground (arith, d.reads, d.has_image, h)));
  busy = λ h. rw i (v.busy (ground (arith, d.reads)));
  scans = λ h. ground (arith, d.reads, d.scans, v.scans);
  calls = λ h. cc;
  starts = λ h. cc;
  waits = λ h. cc;
}

-- A device that is not read.
pub record IsQuiet (dev : Device) : Type 0 where
  pub decoder : has_decoder dev.format_detected ≡ true
  pub images : all_images dev.read_queue ≡ true
  pub still : dev.flag_reading ≡ false

pub quiet-ReadInv : (dev : Device) → IsQuiet dev → ReadInv dev outside
quiet-ReadInv dev q = record {
  decoder = q.decoder;
  images = q.images;
  fed = λ h. ground (arith, q.still);
  busy = λ h. ground (arith, q.still);
  scans = λ h. ground (arith, q.still);
  calls = λ h. cc;
  starts = λ h. cc;
  waits = λ h. cc;
}

pub Drift-IsQuiet : (dev next : Device) → Drift dev next → IsQuiet dev → IsQuiet next
Drift-IsQuiet dev next d q = record {
  decoder = rw d.format q.decoder;
  images = d.images q.images;
  still = rw d.reads q.still;
}

pub if-ReadInv :
    (b : Bool) (x y : Device) (t : Thread)
    → ReadInv x t
    → ReadInv y t
    → ReadInv (if b then x else y) t
if-ReadInv true x y t v w = v
if-ReadInv false x y t v w = w

pub rest-ReadInv : (dev : Device) → IsQuiet dev → ReadInv (device_stm_state_set dev idle) outside
rest-ReadInv dev q = quiet-ReadInv _ (Drift-IsQuiet dev _ (state_set-Drift dev idle) q)
