-- ===== src/Device/Events/Images.antt =====
-- The callbacks behind a reply, the start of a job and the dispatch of the event loop: what they leave
-- to the reader of a device.
use sane_airscan.Base.{
  ℕ, ◌-◌, ◌≡◌, refl, inl, inr, true, false, Option, none, some, List, [], ◌∷◌, ◌++◌, if◌then◌else◌,
  arith, Bool-cases,
}
use sane_airscan.Base.Int.{ℤ}
use sane_airscan.Device.Types.{
  Op, op_scan, op_load, op_cleanup, op_finish, Reply, Bytes, Proto, Device, cleanup, scanning,
}
use sane_airscan.Device.Job.{device_stm_state_set, device_job_set_status}
use sane_airscan.Device.Image.{image_format_detect, has_decoder}
use sane_airscan.Device.Client.{is_empty}
use sane_airscan.Device.Stm.{
  same_op, device_stm_timer_callback, save_result, next_op, after_reply, device_proto_op_decode,
  device_stm_op_callback, fill_params, device_stm_start_scan, has_decode, device_proto_dummy_decode,
}
use sane_airscan.Device.Events.Drift.{
  all_images, Drift, Drifts, stopped, drifted, Drift-refl, Drift-trans, Drifts-trans,
  state_set-Drift, set_status-Drift, submit-Drift, if-Drifts, cancel_event-Drift,
  http_onerror-Drift, cancel_callback-Drift, delayed_cancel-Drift, if-Drift, finish_job-Drift,
}
use sane_airscan.Device.Events.{
  Event, start_do, op_reply, op_error, cancel_reply, timer_fired, cancel_fired, dispatch,
}

-- An image of a reply is one that a decoder is there for.
abbrev pub IsImage : Op → Option Bytes → Type 0
IsImage op_load (some image) = has_decoder (image_format_detect image) ≡ true
IsImage _ _ = Unit {0}

all_images-append :
    (queue : List Bytes) (image : Bytes)
    → has_decoder (image_format_detect image) ≡ true
    → all_images queue ≡ true
    → all_images (queue ++ image ∷ []) ≡ true
all_images-append [] image h a = ground arith
all_images-append (x ∷ queue) image h a = ground (arith, all_images-append queue image h)

append_fed : (queue : List Bytes) (image : Bytes) → is_empty (queue ++ image ∷ []) ≡ false
append_fed [] image = refl
append_fed (x ∷ queue) image = refl

save_result-Drift :
    (dev : Device) (op : Op) (content : Option Bytes)
    → IsImage op content
    → Drift dev (save_result dev op content)
unfolding save_result
save_result-Drift dev op_scan none h = Drift-refl dev
save_result-Drift dev op_scan (some l) h = ground arith
save_result-Drift dev op_load none h = Drift-refl dev
save_result-Drift dev op_load (some image) h = record {
  scans = refl;
  reads = refl;
  has_image = refl;
  format = refl;
  images = λ a. all_images-append dev.read_queue image h a;
  fed = λ _. rw (append_fed dev.read_queue image) refl;
}
save_result-Drift dev _ content h = Drift-refl dev

after_reply-Drift :
    (p : Proto) (dev : Device) (result : Reply)
    → IsImage dev.op result.content
    → Drifts dev (after_reply p dev result)
unfolding after_reply
after_reply-Drift p dev result h =
    let saved = save_result dev dev.op result.content in
    let dev2 = device_job_set_status saved result.status in
    let next = next_op dev2 result in
    let v : Drift dev dev2 =
      Drift-trans _ _ _ (save_result-Drift dev dev.op result.content h)
        (set_status-Drift saved result.status) in
    let at_cleanup = if same_op next op_cleanup then device_stm_state_set dev2 cleanup else dev2 in
    let w : Drift dev2 at_cleanup =
      if-Drift dev2 (same_op next op_cleanup) _ _ (state_set-Drift dev2 cleanup)
        (Drift-refl dev2) in
    if-Drifts dev (same_op next op_finish) _ _
      (drifted (Drift-trans _ _ _ v (finish_job-Drift dev2)))
      (Drifts-trans dev dev2 _ v
        (Drifts-trans dev2 at_cleanup _ w (delayed_cancel-Drift p at_cleanup next result.delay)))

op_callback-Drift :
    (p : Proto) (dev : Device) (reply : Reply)
    → IsImage dev.op reply.content
    → Drifts dev (device_stm_op_callback p dev reply)
unfolding device_stm_op_callback device_proto_op_decode
op_callback-Drift p dev reply h = elim (Bool-cases (has_decode p dev.op)) [
  | inr n ↦ rw n stopped
  | inl y ↦ elim (Bool-cases (same_op dev.op op_cleanup)) [
    | inl c ↦
        rw (y, c)
          (Drifts-trans dev _ _ (decoded dev _ _)
            (after_reply-Drift p _ device_proto_dummy_decode (nothing dev.op)))
    | inr c ↦ rw (y, c) (Drifts-trans dev _ _ (decoded dev _ _) (after_reply-Drift p _ reply h))
  ]
]
  where
    decoded :
        (dev : Device) (o : Op) (n : ℕ)
        → Drift dev (record dev { failed_op = o; failed_attempt = n })
    decoded dev o n = ground arith

    nothing : (op : Op) → IsImage op none
    nothing op_load = tt
    nothing _ = tt

start_scan-Drift :
    (mm2px : ℤ → ℤ → ℤ) (p : Proto) (dev : Device) → Drifts dev (device_stm_start_scan mm2px p dev)
unfolding device_stm_start_scan fill_params
start_scan-Drift mm2px p dev =
    let filled = fill_params mm2px dev in
    let v : Drift dev filled = ground arith in
    Drifts-trans dev _ _ (Drift-trans _ _ _ v (state_set-Drift filled scanning))
      (submit-Drift p _ _)

-- The images of an event.
abbrev pub BringsImage : Device → Event → Type 0
BringsImage dev (op_reply r) = IsImage dev.op r.content
BringsImage dev _ = Unit {0}

-- Every callback leaves the reader its things.
pub dispatch-Drift :
    (mm2px : ℤ → ℤ → ℤ) (p : Proto) (dev : Device) (ev : Event)
    → BringsImage dev ev
    → Drifts dev (dispatch mm2px p dev ev)
unfolding dispatch device_stm_timer_callback
dispatch-Drift mm2px p dev start_do h =
    let called = record dev { start_call = false } in
    Drifts-trans dev called _ (ground arith) (start_scan-Drift mm2px p called)
dispatch-Drift mm2px p dev (op_reply r) h =
    let ended = record dev { op_queries = dev.op_queries - 1 } in
    Drifts-trans dev ended _ (ground arith) (op_callback-Drift p ended r h)
dispatch-Drift mm2px p dev (op_error b) h =
    let ended = record dev { op_queries = dev.op_queries - 1 } in
    Drifts-trans dev ended _ (ground arith) (http_onerror-Drift ended b)
dispatch-Drift mm2px p dev cancel_reply h = drifted (cancel_callback-Drift dev)
dispatch-Drift mm2px p dev timer_fired h =
    let fired = record dev { timer = false } in
    Drifts-trans dev fired _ (ground arith) (submit-Drift p fired dev.op)
dispatch-Drift mm2px p dev cancel_fired h =
    let fired = record dev { cancel_event = false } in
    Drifts-trans dev fired _ (ground arith) (cancel_event-Drift fired)
