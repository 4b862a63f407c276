-- ===== src/Device/Events/Pulls.antt =====
-- device_read against the invariants, with its assertions: an image that is pulled off the queue, and the
-- wait for one.
use sane_airscan.Base.{
  ◌≡◌, refl, inl, inr, Bool, true, false, not, ◌&&◌, ◌==◌, List, [], ◌∷◌, arith, Bool-cases,
}
use sane_airscan.Device.Types.{done, Status, io_error, cancelled, Bytes, Proto, Device}
use sane_airscan.Device.Job.{same_state, is_good, is_working, device_stm_state_working}
use sane_airscan.Device.Image.{image_format_detect, has_decoder}
use sane_airscan.Device.Stm.Effects.{same_state-eq}
use sane_airscan.Device.Client.{
  Decoding, is_empty, is_cancelled, read_end, read_image_next, read_pull, read_resume, device_read,
}
use sane_airscan.Device.Events.{outside, reading}
use sane_airscan.Device.Events.Inv.{Inv}
use sane_airscan.Device.Events.Drift.{all_images, is_fed}
use sane_airscan.Device.Events.Whole.{outside-SysInv, reading-SysInv, outside_again-SysInv}
use sane_airscan.Device.Events.Calls.{rests_done}
use sane_airscan.Device.Events.Reads.{
  BothInv, CallKept, call_kept, if-CallKept, Back, if-Back, read_end-BothInv, read_lines-Back,
}

-- An image that a decoder is there for has been pulled off the queue.
pulled-BothInv :
    (p : Proto) (dev : Device) (image : Bytes) (queue : List Bytes) (b r : Bool)
    → dev.read_queue ≡ image ∷ queue
    → dev.flag_reading ≡ true
    → b ≡ true
    → BothInv p dev outside
    → BothInv p
        (record dev {
          read_queue = queue;
          format_detected = image_format_detect image;
          read_image = b;
          read_ready = r;
        })
        outside
pulled-BothInv p dev image queue b r e f t v =
    let images : all_images (image ∷ queue) ≡ true = rw e at v.reader.images in
    let i = v.reader.busy f in
    let s = v.reader.scans f in
    record {
      sys = outside-SysInv p _ (ground (arith, v.sys.inv)) (ground (arith, v.sys.posted_by));
      reader = record {
        decoder = ground arith;
        images = ground arith;
        fed = λ h. ground arith;
        busy = λ _. i;
        scans = λ _. s;
        calls = λ h. cc;
        starts = λ h. cc;
        waits = λ h. cc;
      };
    }

-- What the end of a read leaves does not depend on its image.
read_end-image :
    (dev : Device) (st : Status) → read_end dev st ≡ read_end (record dev { read_image = true }) st
unfolding read_end
read_end-image dev st = refl

image_next-Back :
    (p : Proto) (d : Decoding) (dev : Device) (image : Bytes) (queue : List Bytes)
    → dev.read_queue ≡ image ∷ queue
    → dev.flag_reading ≡ true
    → BothInv p dev outside
    → Back p (read_image_next d dev image queue)
unfolding read_image_next
image_next-Back p d dev image queue e f v =
    let dev1 = record dev { read_queue = queue; format_detected = image_format_detect image } in
    if-Back p (has_decoder (image_format_detect image) && d.begins) _ _
      (λ _.
        read_lines-Back p d (record dev1 { read_image = true; read_ready = true }) (v.reader.busy f)
          (pulled-BothInv p dev image queue true true e f refl v))
      (λ _. rw (read_end-image dev1 io_error) (
        read_end-BothInv p (record dev1 { read_image = true }) io_error
          (pulled-BothInv p dev image queue true dev.read_ready e f refl v)))

-- A reader that is fed, of a job that is done: without an image the job has an error or a cancel.
fed-NotGood :
    (p : Proto) (dev : Device)
    → Inv p dev
    → same_state dev.state done ≡ true
    → dev.read_queue ≡ []
    → is_fed dev ≡ true
    → is_good dev.job_status ≡ false
fed-NotGood p dev v d e h = elim (Bool-cases (dev.images_received == 0)) [
  | inl z ↦ v.empty (same_state-eq dev.state done d) (ground arith)
  | inr n ↦ ground arith
]

pull-CallKept :
    (p : Proto) (d : Decoding) (dev : Device) (queue : List Bytes)
    → dev.read_queue ≡ queue
    → dev.flag_reading ≡ true
    → (queue ≡ [] → is_good dev.job_status ≡ false)
    → BothInv p dev outside
    → CallKept p (read_pull d dev queue)
unfolding read_pull
pull-CallKept p d dev [] e f g v =
    if-CallKept p (is_good dev.job_status) _ _ (λ y. cc (g refl))
      (λ _. call_kept (read_end-BothInv p dev dev.job_status v))
pull-CallKept p d dev (image ∷ queue) e f g v =
    call_kept (image_next-Back p d dev image queue e f v)

-- A device_read that waits, or has not yet waited, for an image.
pub read_resume-CallKept :
    (p : Proto) (d : Decoding) (dev : Device)
    → dev.flag_reading ≡ true
    → dev.read_image ≡ false
    → BothInv p dev outside
    → CallKept p (read_resume d dev)
unfolding read_resume device_stm_state_working
read_resume-CallKept p d dev f n v =
    if-CallKept p (is_working dev.state && is_empty dev.read_queue) _ _
      (λ _.
        if-CallKept p dev.read_non_blocking _ _ (λ _. call_kept v)
          (λ _. call_kept (waiting-BothInv p dev f n v)))
      (λ w.
        if-CallKept p (is_cancelled dev.job_status) _ _
          (λ _. call_kept (read_end-BothInv p dev cancelled v))
          (λ _.
            pull-CallKept p d dev dev.read_queue refl f
              (λ e.
                fed-NotGood p dev v.sys.inv
                  (rests_done dev.state (resting dev e w) (v.reader.busy f) v.sys.inv.live) e
                  (v.reader.fed (ground arith)))
              v))
  where
    resting :
        (dev : Device)
        → dev.read_queue ≡ []
        → (is_working dev.state && is_empty dev.read_queue) ≡ false
        → is_working dev.state ≡ false
    resting dev e w = ground arith

    waiting-BothInv :
        (p : Proto) (dev : Device)
        → dev.flag_reading ≡ true
        → dev.read_image ≡ false
        → BothInv p dev outside
        → BothInv p dev reading
    waiting-BothInv p dev f n v = record {
      sys = reading-SysInv p dev v.sys;
      reader = record {
        decoder = v.reader.decoder;
        images = v.reader.images;
        fed = v.reader.fed;
        busy = v.reader.busy;
        scans = v.reader.scans;
        calls = λ h. cc;
        starts = λ h. cc;
        waits = λ _. (f, n);
      };
    }

pub read_again-CallKept :
    (p : Proto) (d : Decoding) (dev : Device)
    → BothInv p dev reading
    → CallKept p (read_resume d dev)
read_again-CallKept p d dev v =
    let (f, n) = v.reader.waits refl in
    read_resume-CallKept p d dev f n (record {
      sys = outside_again-SysInv p dev v.sys;
      reader = record {
        decoder = v.reader.decoder;
        images = v.reader.images;
        fed = v.reader.fed;
        busy = v.reader.busy;
        scans = v.reader.scans;
        calls = λ h. cc;
        starts = λ h. cc;
        waits = λ h. cc;
      };
    })

pub read-CallKept :
    (p : Proto) (d : Decoding) (dev : Device)
    → BothInv p dev outside
    → CallKept p (device_read d dev)
unfolding device_read
read-CallKept p d dev v = rw (v.reader.decoder) (
    if-CallKept p (not dev.flag_reading) _ _ (λ _. call_kept v)
      (λ f.
        if-CallKept p dev.read_image _ _
          (λ _. call_kept (read_lines-Back p d dev (v.reader.busy (ground arith)) v))
          (λ n. read_resume-CallKept p d dev (ground arith) n v)))
