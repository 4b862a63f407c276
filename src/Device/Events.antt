-- ===== src/Device/Events.antt =====
-- The interleavings of the event loop's callbacks with the calls of one client thread.
pub mod Inv
pub mod Ending
pub mod Replies
pub mod Safety
pub mod Whole
pub mod Calls
pub mod Reading
pub mod Starts
pub mod Reads
pub mod Pulls
pub mod Drift
pub mod Images
pub mod Reach
pub mod Progress
pub mod Races
use sane_airscan.Base.{
  ℕ, ◌+◌, ◌-◌, Bool, true, false, not, ◌&&◌, ◌||◌, Option, none, some, List, [], ◌∷◌, ltb, ◌==◌,
  ◌≡◌, if◌then◌else◌,
}
use sane_airscan.Base.Int.{ℤ}
use sane_airscan.Device.Types.{
  State, idle, done, Status, good, Op, op_finish, Reply, Options, Proto, Device,
}
use sane_airscan.Device.Job.{same_state, is_good}
use sane_airscan.Device.Stm.{
  ◌>>=◌, same_op, has_query, has_decode, device_stm_op_callback, device_http_onerror,
  device_stm_cancel_callback, device_stm_timer_callback, device_stm_cancel_event_callback,
  device_stm_start_scan,
}
use sane_airscan.Device.Client.{
  Started, returned, in_start_wait, in_sync, device_start, start_wait_resume, sync_resume,
  device_cancel, device_set_io_mode, device_set_option, Decoding, in_read, read_resume, device_read,
}

-- What the event loop can find ready for the device.
pub data Event : Type 0 where
  start_do : Event
  op_reply : Reply → Event
  op_error : Bool → Event
  cancel_reply : Event
  timer_fired : Event
  cancel_fired : Event

abbrev pub is_ready : Device → Event → Bool
is_ready dev start_do = dev.start_call
is_ready dev (op_reply _) = ltb 0 dev.op_queries
is_ready dev (op_error _) = ltb 0 dev.op_queries
is_ready dev cancel_reply = dev.cancel_query
is_ready dev timer_fired = dev.timer
is_ready dev cancel_fired = dev.cancel_event

-- The loop takes what is ready off its lists and runs the callback.
unfoldable pub dispatch : (ℤ → ℤ → ℤ) → Proto → Device → Event → Option Device
dispatch mm2px p dev start_do = device_stm_start_scan mm2px p (record dev { start_call = false })
dispatch mm2px p dev (op_reply r) =
    device_stm_op_callback p (record dev { op_queries = dev.op_queries - 1 }) r
dispatch mm2px p dev (op_error enomem) =
    device_http_onerror (record dev { op_queries = dev.op_queries - 1 }) enomem
dispatch mm2px p dev cancel_reply = some (device_stm_cancel_callback dev)
dispatch mm2px p dev timer_fired = device_stm_timer_callback p dev
dispatch mm2px p dev cancel_fired =
    device_stm_cancel_event_callback (record dev { cancel_event = false })

-- Where the client's thread stands.
pub data Thread : Type 0 where
  outside : Thread
  starting : Thread
  syncing : Thread
  reading : Thread

pub record System : Type 0 where
  pub dev : Device
  pub thread : Thread

abbrev pub settle : Started → System
settle (returned _ dev) = record { dev = dev; thread = outside }
settle (in_start_wait dev) = record { dev = dev; thread = starting }
settle (in_sync dev) = record { dev = dev; thread = syncing }
settle (in_read dev) = record { dev = dev; thread = reading }

-- The argument of `resume` is used where device_read waits.
pub data Action : Type 0 where
  loop : Event → Action
  call_start : Action
  call_read : Decoding → Action
  resume : Decoding → Action
  call_cancel : Action
  call_set_io_mode : Bool → Action
  call_set_option : Options → Action

abbrev pub is_outside : Thread → Bool
is_outside outside = true
is_outside _ = false

-- The client starts a call only from outside of the others; a cancel may come from a signal handler.
abbrev pub is_enabled : System → Action → Bool
is_enabled s (loop ev) = is_ready s.dev ev
is_enabled s call_start = is_outside s.thread
is_enabled s (call_read _) = is_outside s.thread
is_enabled s (resume _) = not (is_outside s.thread)
is_enabled s call_cancel = true
is_enabled s (call_set_io_mode _) = is_outside s.thread
is_enabled s (call_set_option _) = is_outside s.thread

abbrev pub on_device : System → Option Device → Option System
on_device s none = none
on_device s (some dev) = some (record s { dev = dev })

abbrev pub settled : Option Started → Option System
settled none = none
settled (some r) = some (settle r)

resume_at : Decoding → Thread → Device → Option System
resume_at d outside dev = none
resume_at d starting dev = some (settle (start_wait_resume dev))
resume_at d syncing dev = settled (sync_resume dev)
resume_at d reading dev = settled (read_resume d dev)

unfoldable pub act : (ℤ → ℤ → ℤ) → Proto → System → Action → Option System
unfolding resume_at
act mm2px p s (loop ev) = on_device s (dispatch mm2px p s.dev ev)
act mm2px p s call_start = settled (device_start s.dev)
act mm2px p s (call_read d) = settled (device_read d s.dev)
act mm2px p s (resume d) = resume_at d s.thread s.dev
act mm2px p s call_cancel = some (record s { dev = device_cancel s.dev })
act mm2px p s (call_set_io_mode b) = some (record s { dev = (device_set_io_mode s.dev b).1 })
act mm2px p s (call_set_option o) = some (record s { dev = device_set_option s.dev o })
