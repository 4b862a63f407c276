-- ===== src/Device/Events/Progress.antt =====
-- What the event loop has to run for a working device and for a waiting client, and the status of a
-- job at its end.
use sane_airscan.Base.{
  ◌≡◌, ◌≢◌, refl, ◌⊎◌, inl, inr, Bool, true, false, not, ◌&&◌, ◌||◌, Option, none, some, List, [],
  ◌∷◌, if◌then◌else◌, arith, Bool-cases, ltb,
}
use sane_airscan.Base.Int.{ℤ}
use sane_airscan.Device.Types.{State, idle, cancel_job_done, done, Status, Bytes, Proto, Device}
use sane_airscan.Device.Job.{
  same_state, is_good, is_working, device_stm_state_set, device_stm_state_working,
}
use sane_airscan.Device.Image.{image_format_detect, has_decoder}
use sane_airscan.Device.Client.{
  Started, start_wait_test, start_wait_resume, sync_resume, Decoding, is_empty, is_eof,
  is_cancelled, read_done, read_lines, read_image_next, read_pull, read_resume,
}
use sane_airscan.Device.Events.Inv.{InvAt, is_live}
use sane_airscan.Device.Events.Safety.{CanStart}
use sane_airscan.Device.Events.Whole.{is_starting}
use sane_airscan.Device.Events.Reach.{IsFresh, Run, SystemKept, Run-BothInv, Run-act}
use sane_airscan.Device.Events.{
  Event, start_do, op_error, cancel_reply, timer_fired, Thread, outside, starting, syncing, reading,
  System, settle, settled, is_ready, is_outside, resume, act,
}

-- Something that the event loop will run for the device.
abbrev pub Pending : Device → Type 0
Pending dev = (ev : Event) × (is_ready dev ev ≡ true)

timer_or_query :
    (dev : Device) (b : Bool) → dev.timer ≡ true ⊎ ltb 0 dev.op_queries ≡ true → Pending dev
timer_or_query dev b (inl t) = (timer_fired, t)
timer_or_query dev b (inr q) = (op_error b, q)

working-Pending :
    (p : Proto) (dev : Device) (s : State) → is_working s ≡ true → InvAt p dev s → Pending dev
working-Pending p dev cancel_job_done w v = (cancel_reply, v.cancel)
working-Pending p dev _ w v = timer_or_query dev true (ground arith)

wait_returns :
    (dev : Device) (s : State)
    → is_live s ≡ true
    → is_working s ≡ false
    → same_state s idle ≡ false
    → (st : Status) × (start_wait_test dev s ≡ some st)
unfolding start_wait_test
wait_returns dev done l w i = (dev.job_status, refl)
wait_returns dev _ l w i = cc

-- The thread of the client leaves its wait when it looks at the device.
abbrev pub Leaves : (ℤ → ℤ → ℤ) → Proto → System → Type 0
Leaves mm2px p s =
    (d : Decoding) → (u : System) × (act mm2px p s (resume d) ≡ some u) × (u.thread ≢ s.thread)

-- A call that does not wait at the same place, if no assertion fails.
data MovesOn (t : Thread) : Option Started → Type 0 where
  halts : MovesOn t none
  moves : {r : Started} → (settle r).thread ≢ t → MovesOn t (some r)

if-MovesOn :
    (t : Thread) (b : Bool) (x y : Option Started)
    → (b ≡ true → MovesOn t x)
    → (b ≡ false → MovesOn t y)
    → MovesOn t (if b then x else y)
if-MovesOn t true x y v w = v refl
if-MovesOn t false x y v w = w refl

-- A finished job lets device_start go on, to an image, to the job's status or to a new job.
sync-MovesOn : (dev : Device) → is_working dev.state ≡ false → MovesOn syncing (sync_resume dev)
unfolding sync_resume device_stm_state_working
sync-MovesOn dev w =
    let rest = device_stm_state_set dev idle in
    if-MovesOn syncing (is_working dev.state && is_empty dev.read_queue) _ _ (λ y. ground arith)
      λ _.
        if-MovesOn syncing (not (is_empty dev.read_queue)) _ _ (λ _. moves (λ e. cc))
          λ _.
            if-MovesOn syncing (not (same_state dev.state done)) _ _ (λ _. halts)
              λ _.
                if-MovesOn syncing
                  (not (is_good rest.job_status) && not (is_cancelled rest.job_status)) _ _
                  (λ _. moves (λ e. cc)) (λ _. moves (λ e. cc))

if-thread :
    (b : Bool) (x y : Started)
    → (settle x).thread ≡ outside
    → (settle y).thread ≡ outside
    → (settle (if b then x else y)).thread ≡ outside
if-thread true x y e f = e
if-thread false x y e f = f

image_next-outside :
    (d : Decoding) (dev : Device) (image : Bytes) (queue : List Bytes)
    → (settle (read_image_next d dev image queue)).thread ≡ outside
unfolding read_image_next read_lines read_done
image_next-outside d dev image queue =
    if-thread (has_decoder (image_format_detect image) && d.begins) _ _
      (if-thread (is_good d.loop.status || (is_eof d.loop.status && not (is_empty d.loop.bytes))) _
        _ refl refl)
      refl

-- A finished job lets device_read go on, and return.
pull-MovesOn :
    (d : Decoding) (dev : Device) (queue : List Bytes) → MovesOn reading (read_pull d dev queue)
unfolding read_pull
pull-MovesOn d dev [] =
    if-MovesOn reading (is_good dev.job_status) _ _ (λ _. halts) (λ _. moves (λ e. cc))
pull-MovesOn d dev (image ∷ queue) = moves (λ e. cc (image_next-outside d dev image queue))

read-MovesOn :
    (d : Decoding) (dev : Device)
    → is_working dev.state ≡ false
    → MovesOn reading (read_resume d dev)
unfolding read_resume device_stm_state_working
read-MovesOn d dev w =
    if-MovesOn reading (is_working dev.state && is_empty dev.read_queue) _ _ (λ y. ground arith)
      λ _.
        if-MovesOn reading (is_cancelled dev.job_status) _ _ (λ _. moves (λ e. cc))
          λ _. pull-MovesOn d dev dev.read_queue

settled_moves :
    (p : Proto) (t : Thread) (o : Option Started)
    → SystemKept p (settled o)
    → MovesOn t o
    → (u : System) × (settled o ≡ some u) × (u.thread ≢ t)
settled_moves p t none k halts = elim k [ ]
settled_moves p t (some r) k (moves n) = (settle r, refl, n)

-- device_start_wait returns.
start-moves :
    (dev : Device)
    → (st : Status) × (start_wait_test dev dev.state ≡ some st)
    → (settle (start_wait_resume dev)).thread ≡ outside
unfolding start_wait_resume
start-moves dev (st, e) = rw (e, start_wait_resume) refl

-- A waiting client, of a device that does not work.
resting-Leaves :
    (mm2px : ℤ → ℤ → ℤ) (p : Proto) (dev : Device) (t : Thread)
    → is_outside t ≡ false
    → is_working dev.state ≡ false
    → (is_starting t && same_state dev.state idle) ≡ false
    → is_live dev.state ≡ true
    → ((d : Decoding) → SystemKept p (act mm2px p (record { dev = dev; thread = t }) (resume d)))
    → Leaves mm2px p (record { dev = dev; thread = t })
unfolding act
resting-Leaves mm2px p dev starting o w i l k d = (
  settle (start_wait_resume dev),
  refl,
  λ e. cc (start-moves dev (wait_returns dev dev.state l w (ground arith))),
)
resting-Leaves mm2px p dev syncing o w i l k d =
    settled_moves p syncing _ (k d) (sync-MovesOn dev w)
resting-Leaves mm2px p dev reading o w i l k d =
    settled_moves p reading _ (k d) (read-MovesOn d dev w)
resting-Leaves mm2px p dev outside o w i l k d = cc

-- In every timely run: whenever the device works, the event loop has a callback to run for it; and
-- whenever a call of the client waits, in device_start for a new job or for the previous one, or in
-- device_read for an image, the event loop has a callback to run for the device, or the call leaves its
-- wait as soon as it looks at the device.
pub Run-progress :
    {mm2px : ℤ → ℤ → ℤ} {p : Proto} {s t : System}
    → CanStart p
    → IsFresh s
    → Run mm2px p s t
    → (is_working t.dev.state ≡ true → Pending t.dev)
      × (is_outside t.thread ≡ false → Pending t.dev ⊎ Leaves mm2px p t)
Run-progress {mm2px} {p} {s} {t} c f r =
    let v = (Run-BothInv c f r).sys in
    (
      λ w. working-Pending p t.dev t.dev.state w v.inv,
      λ o. elim (Bool-cases (is_working t.dev.state)) [
        | inl w ↦ inl (working-Pending p t.dev t.dev.state w v.inv)
        | inr n ↦ elim (Bool-cases (is_starting t.thread && same_state t.dev.state idle)) [
          | inl i ↦ inl (start_do, v.starts (ground arith) (ground arith))
          | inr i ↦ inr (
              resting-Leaves mm2px p t.dev t.thread o n i v.inv.live
                (λ d. Run-act c f r (resume d) (ground arith) tt))
        ]
      ],
    )

-- In every timely run, a job that is done and has received no image has an error or a cancel for
-- its status: the assertion that device_read makes of a job without images.
pub Run-status :
    {mm2px : ℤ → ℤ → ℤ} {p : Proto} {s t : System}
    → CanStart p
    → IsFresh s
    → Run mm2px p s t
    → t.dev.state ≡ done
    → t.dev.images_received ≡ 0
    → is_good t.dev.job_status ≡ false
Run-status c f r d z = (Run-BothInv c f r).sys.inv.empty d z
