-- ===== src/Device/Events/Safety.antt =====
-- The callbacks that the event loop runs, against the invariant and the assertions.
use sane_airscan.Base.{◌-◌, ◌<◌, subst, ◌≡◌, refl, true, false, if◌then◌else◌, arith, ltb→lt}
use sane_airscan.Base.Int.{ℤ}
use sane_airscan.Device.Types.{
  State, idle, scanning, cancel_req, cancel_sent, op_precheck, op_scan, Proto, Device,
}
use sane_airscan.Device.Job.{device_stm_state_set}
use sane_airscan.Device.Stm.Effects.{state_set_eq}
use sane_airscan.Device.Stm.{
  has_decode, device_stm_cancel_callback, device_stm_timer_callback, device_stm_start_scan,
  device_proto_op_submit, fill_params,
}
use sane_airscan.Device.Events.Inv.{
  Inv, Moved, InvAt, Kept, OneJob, cancel_event_Kept, http_onerror_Kept,
}
use sane_airscan.Device.Events.Replies.{IsValidReply, op_callback-Kept}
use sane_airscan.Device.Events.Images.{IsImage, BringsImage}
use sane_airscan.Device.Events.Ending.{Between, IsSupported}
use sane_airscan.Device.Events.{
  Event, start_do, op_reply, op_error, cancel_reply, timer_fired, cancel_fired, is_ready, dispatch,
}

-- The protocol has the operation that device_stm_start_scan asks for first.
abbrev pub CanStart : Proto → Type 0
CanStart p = IsSupported p (if p.precheck_query then op_precheck else op_scan)

-- What the environment grants to an event: replies ask for operations of the protocol and bring images
-- that a decoder is there for, no operation ends between the request of a cancel and its callback, and
-- none fails in transport while the CANCEL query is in flight.
abbrev pub Timely : Proto → Device → Event → Type 0
Timely p dev (op_reply r) = (dev.cancel_event ≡ false) × IsValidReply p r × IsImage dev.op r.content
Timely p dev (op_error _) = (dev.cancel_event ≡ false) × (dev.cancel_query ≡ false)
Timely p dev _ = Unit

cancel_callback-Moved :
    (p : Proto) (dev : Device) (s : State)
    → dev.state ≡ s
    → dev.cancel_query ≡ true
    → InvAt p dev s
    → Moved p (device_stm_cancel_callback dev)
unfolding device_stm_cancel_callback device_stm_state_set
cancel_callback-Moved p dev cancel_sent e c v = ground arith
cancel_callback-Moved p dev _ e c v = ground arith

-- The operation of a live job has come to its end.
job_Between :
    (p : Proto) (dev : Device) (s : State)
    → 0 < dev.op_queries
    → dev.cancel_event ≡ false
    → InvAt p dev s
    → Between p (record dev { op_queries = dev.op_queries - 1 }) s × (has_decode p dev.op ≡ true)
job_Between p dev scanning h e v = ground arith
job_Between p dev _ h e v = ground arith

start_scan-Kept :
    (mm2px : ℤ → ℤ → ℤ) (p : Proto) (dev : Device)
    → CanStart p
    → dev.op_queries ≡ 0
    → dev.timer ≡ false
    → dev.cancel_query ≡ false
    → dev.cancel_event ≡ false
    → dev.stm_cancel_sent ≡ false
    → dev.start_call ≡ false
    → Kept p (device_stm_start_scan mm2px p dev)
unfolding device_stm_start_scan device_proto_op_submit fill_params
start_scan-Kept mm2px p dev c o t q e s h =
    let (r, eq) = state_set_eq (fill_params mm2px dev) scanning in rw eq (rw c.0 (ground arith))

timer-Kept :
    (p : Proto) (dev : Device) (s : State)
    → dev.state ≡ s
    → dev.timer ≡ true
    → InvAt p dev s
    → Kept p (device_stm_timer_callback p dev)
unfolding device_stm_timer_callback device_proto_op_submit
timer-Kept p dev scanning e t v = ground arith
timer-Kept p dev _ e t v = ground arith

cancel_OneJob :
    (p : Proto) (dev : Device) (s : State)
    → dev.cancel_event ≡ true
    → InvAt p dev s
    → OneJob p (record dev { cancel_event = false })
cancel_OneJob p dev cancel_req e v = ground arith
cancel_OneJob p dev _ e v = cc (v.event)

idle_facts :
    (p : Proto) (dev : Device)
    → InvAt p dev idle
    → (dev.op_queries ≡ 0)
      × (dev.timer ≡ false)
      × (dev.cancel_query ≡ false)
      × (dev.cancel_event ≡ false)
idle_facts p dev v = ground arith

-- Every callback that is ready, at a time that the environment grants, runs without a failed
-- assertion and keeps the invariant.
pub dispatch-Kept :
    (mm2px : ℤ → ℤ → ℤ) (p : Proto) (dev : Device) (ev : Event)
    → CanStart p
    → Inv p dev
    → is_ready dev ev ≡ true
    → Timely p dev ev
    → Kept p (dispatch mm2px p dev ev)
unfolding dispatch
dispatch-Kept mm2px p dev start_do c v r t =
    let (at_idle, s) = v.posted r in
    let (o, ti, q, e) = idle_facts p dev (subst (InvAt p dev) at_idle v) in
    start_scan-Kept mm2px p _ c o ti q e s refl
dispatch-Kept mm2px p dev (op_reply reply) c v r (e, valid, _) =
    let (b, d) = job_Between p dev dev.state (ltb→lt _ _ r) e v in
    op_callback-Kept p _ dev.state reply refl b d valid
dispatch-Kept mm2px p dev (op_error enomem) c v r (e, q) =
    let (b, d) = job_Between p dev dev.state (ltb→lt _ _ r) e v in
    http_onerror_Kept p _ enomem (record {
      no_query = b.no_query;
      no_timer = b.no_timer;
      no_cancel = q;
      no_event = e;
      not_posted = b.not_posted;
    })
dispatch-Kept mm2px p dev cancel_reply c v r t = cancel_callback-Moved p dev dev.state refl r v
dispatch-Kept mm2px p dev timer_fired c v r t = timer-Kept p dev dev.state refl r v
dispatch-Kept mm2px p dev cancel_fired c v r t =
    cancel_event_Kept p _ (cancel_OneJob p dev dev.state r v)

pub Timely-BringsImage :
    (p : Proto) (dev : Device) (ev : Event) → Timely p dev ev → BringsImage dev ev
Timely-BringsImage p dev (op_reply r) (e, v, i) = i
Timely-BringsImage p dev start_do t = tt
Timely-BringsImage p dev (op_error b) t = tt
Timely-BringsImage p dev cancel_reply t = tt
Timely-BringsImage p dev timer_fired t = tt
Timely-BringsImage p dev cancel_fired t = tt
