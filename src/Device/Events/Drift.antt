-- ===== src/Device/Events/Drift.antt =====
-- What the cancel, an error, the end of a job and the submission of an operation leave to the reader of
-- a device.
use sane_airscan.Base.{
  ℕ, ◌≡◌, ◌∙◌, refl, inl, inr, Bool, true, false, not, ◌&&◌, ◌||◌, Option, none, some, List, [],
  ◌∷◌, ◌==◌, if◌then◌else◌, arith, Bool-cases,
}
use sane_airscan.Device.Types.{
  State, Status, cancelled, io_error, Op, Bytes, Proto, Device, cancel_sent, cancel_delayed,
  cancel_job_done, cancel_req_done, done, no_mem,
}
use sane_airscan.Device.Job.{is_good, same_state, device_stm_state_set, device_job_set_status}
use sane_airscan.Device.Image.{image_format_detect, has_decoder}
use sane_airscan.Device.Client.{is_empty}
use sane_airscan.Device.Stm.Effects.{state_set_eq}
use sane_airscan.Device.Stm.{
  ◌>>=◌, has_query, device_proto_op_submit, device_stm_cancel_perform, device_stm_cancel_callback,
  device_stm_cancel_event_callback, finish_job, go_on, delayed_cancel, device_http_onerror,
}

-- Every image has a format that a decoder is there for.
abbrev pub all_images : List Bytes → Bool
all_images [] = true
all_images (image ∷ queue) = has_decoder (image_format_detect image) && all_images queue

-- There is an image to read, or a reason why there is none.
abbrev pub is_fed : Device → Bool
is_fed dev =
    not (is_empty dev.read_queue) || dev.images_received == 0 || not (is_good dev.job_status)

-- What is left as it was for the reader, and what is kept.
pub record Drift (dev dev' : Device) : Type 0 where
  pub scans : dev'.flag_scanning ≡ dev.flag_scanning
  pub reads : dev'.flag_reading ≡ dev.flag_reading
  pub has_image : dev'.read_image ≡ dev.read_image
  pub format : dev'.format_detected ≡ dev.format_detected
  pub images : all_images dev.read_queue ≡ true → all_images dev'.read_queue ≡ true
  pub fed : is_fed dev ≡ true → is_fed dev' ≡ true

pub data Drifts (dev : Device) : Option Device → Type 0 where
  stopped : Drifts dev none
  drifted : {next : Device} → Drift dev next → Drifts dev (some next)

pub Drift-refl : (dev : Device) → Drift dev dev
Drift-refl dev = record {
  scans = refl;
  reads = refl;
  has_image = refl;
  format = refl;
  images = λ h. h;
  fed = λ h. h;
}

pub Drift-trans : (a b c : Device) → Drift a b → Drift b c → Drift a c
Drift-trans a b c v w = record {
  scans = w.scans ∙ v.scans;
  reads = w.reads ∙ v.reads;
  has_image = w.has_image ∙ v.has_image;
  format = w.format ∙ v.format;
  images = λ h. w.images (v.images h);
  fed = λ h. w.fed (v.fed h);
}

pub Drifts-trans : (a b : Device) (o : Option Device) → Drift a b → Drifts b o → Drifts a o
Drifts-trans a b none v stopped = stopped
Drifts-trans a b (some c) v (drifted w) = drifted (Drift-trans a b c v w)

pub state_set-Drift : (dev : Device) (s : State) → Drift dev (device_stm_state_set dev s)
state_set-Drift dev s = let (r, e) = state_set_eq dev s in rw e (ground arith)

pub set_status-Drift : (dev : Device) (st : Status) → Drift dev (device_job_set_status dev st)
unfolding device_job_set_status
set_status-Drift dev st = record {
  scans = ground arith;
  reads = ground arith;
  has_image = ground arith;
  format = ground arith;
  images = λ h. ground arith;
  fed = λ h. ground arith;
}

set_both-Drift :
    (dev : Device) (st : Status) (s : State)
    → Drift dev (device_stm_state_set (device_job_set_status dev st) s)
set_both-Drift dev st s =
    Drift-trans _ _ _ (set_status-Drift dev st) (state_set-Drift (device_job_set_status dev st) s)

pub submit-Drift :
    (p : Proto) (dev : Device) (op : Op) → Drifts dev (device_proto_op_submit p dev op)
unfolding device_proto_op_submit
submit-Drift p dev op = elim (Bool-cases (has_query p op)) [
  | inl y ↦ rw y (drifted (ground arith))
  | inr n ↦ rw n stopped
]

pub if-Drifts :
    (dev : Device) (b : Bool) (x y : Option Device)
    → Drifts dev x
    → Drifts dev y
    → Drifts dev (if b then x else y)
if-Drifts dev true x y v w = v
if-Drifts dev false x y v w = w

data PerformDrifts (dev : Device) : Option (Bool × Device) → Type 0 where
  failed : PerformDrifts dev none
  performed : {b : Bool} {next : Device} → Drift dev next → PerformDrifts dev (some (b, next))

if-PerformDrifts :
    (dev : Device) (b : Bool) (x y : Option (Bool × Device))
    → PerformDrifts dev x
    → PerformDrifts dev y
    → PerformDrifts dev (if b then x else y)
if-PerformDrifts dev true x y v w = v
if-PerformDrifts dev false x y v w = w

marked-Drift :
    (dev : Device) → Drift dev (record dev { cancel_query = true; stm_cancel_sent = true })
marked-Drift dev = ground arith

delayed-Drift : (dev : Device) (next : Op) → Drift dev (record dev { timer = true; op = next })
delayed-Drift dev next = ground arith

perform-Drift : (dev : Device) (st : Status) → PerformDrifts dev (device_stm_cancel_perform dev st)
unfolding device_stm_cancel_perform
perform-Drift dev st =
    let v = set_status-Drift dev st in
    let w = set_both-Drift dev st cancel_sent in
    if-PerformDrifts dev _ _ _
      (if-PerformDrifts dev _ _ _ (performed v)
        (if-PerformDrifts dev _ _ _ failed (performed (Drift-trans _ _ _ w (marked-Drift _)))))
      (performed v)

-- What follows a cancel, where each of the two ways leaves the reader its things.
performed-Drift :
    (dev : Device) (out : Option (Bool × Device)) (f g : Device → Option Device)
    → PerformDrifts dev out
    → ((next : Device) → Drifts next (f next))
    → ((next : Device) → Drifts next (g next))
    → Drifts dev (do (ok, dev1) ← out; if ok then f dev1 else g dev1)
performed-Drift dev none f g failed k l = stopped
performed-Drift dev (some (true, next)) f g (performed v) k l = Drifts-trans dev next _ v (k next)
performed-Drift dev (some (false, next)) f g (performed v) k l = Drifts-trans dev next _ v (l next)

pub cancel_event-Drift : (dev : Device) → Drifts dev (device_stm_cancel_event_callback dev)
unfolding device_stm_cancel_event_callback
cancel_event-Drift dev =
    performed-Drift dev _ (λ d. some d) (λ d. some (device_stm_state_set d cancel_delayed))
      (perform-Drift dev cancelled) (λ d. drifted (Drift-refl d))
      (λ d. drifted (state_set-Drift d cancel_delayed))

pub http_onerror-Drift : (dev : Device) (b : Bool) → Drifts dev (device_http_onerror dev b)
unfolding device_http_onerror
http_onerror-Drift dev b =
    performed-Drift dev _ (λ d. some (device_stm_state_set d cancel_job_done))
      (λ d. some (device_stm_state_set d done)) (perform-Drift dev (if b then no_mem else io_error))
      (λ d. drifted (state_set-Drift d cancel_job_done)) (λ d. drifted (state_set-Drift d done))

pub cancel_callback-Drift : (dev : Device) → Drift dev (device_stm_cancel_callback dev)
unfolding device_stm_cancel_callback
cancel_callback-Drift dev = elim (Bool-cases (same_state dev.state cancel_job_done)) [
  | inl y ↦ rw y (
      Drift-trans _ (record dev { cancel_query = false }) _ (ground arith) (state_set-Drift _ done))
  | inr n ↦ rw n (
      Drift-trans _ (record dev { cancel_query = false }) _ (ground arith)
        (state_set-Drift _ cancel_req_done))
]

go_on-Drift :
    (p : Proto) (dev : Device) (next : Op) (delay : ℕ) → Drifts dev (go_on p dev next delay)
unfolding go_on
go_on-Drift p dev next delay =
    if-Drifts dev _ _ _ (if-Drifts dev _ _ _ stopped (drifted (delayed-Drift dev next)))
      (submit-Drift p dev next)

pub delayed_cancel-Drift :
    (p : Proto) (dev : Device) (next : Op) (delay : ℕ)
    → Drifts dev (delayed_cancel p dev next delay)
unfolding delayed_cancel
delayed_cancel-Drift p dev next delay =
    if-Drifts dev _ _ _
      (performed-Drift dev _ (λ d. go_on p d next delay) (λ d. some (device_stm_state_set d done))
        (perform-Drift dev cancelled) (λ d. go_on-Drift p d next delay)
        (λ d. drifted (state_set-Drift d done)))
      (go_on-Drift p dev next delay)

pub if-Drift :
    (dev : Device) (b : Bool) (x y : Device)
    → Drift dev x
    → Drift dev y
    → Drift dev (if b then x else y)
if-Drift dev true x y v w = v
if-Drift dev false x y v w = w

pub finish_job-Drift : (dev : Device) → Drift dev (finish_job dev)
unfolding finish_job
finish_job-Drift dev =
    let ended = if dev.images_received == 0 then device_job_set_status dev io_error else dev in
    let v : Drift dev ended =
      if-Drift dev (dev.images_received == 0) _ _ (set_status-Drift dev io_error)
        (Drift-refl dev) in
    if-Drift dev (same_state ended.state cancel_sent) _ _
      (Drift-trans _ _ _ v (state_set-Drift ended cancel_job_done))
      (Drift-trans _ _ _ v (state_set-Drift ended done))
