-- ===== src/Device/Events/Replies.antt =====
-- device_stm_op_callback against the invariant: what it does between a reply and the next operation,
-- step by step.
use sane_airscan.Base.{
  ℕ, ◌+◌, ◌≡◌, refl, ◌⊎◌, inl, inr, Bool, true, false, ◌&&◌, ◌||◌, some, if◌then◌else◌, arith,
  Bool-cases,
}
use sane_airscan.Device.Types.{
  State, cancel_sent, cleanup, Status, Op, op_scan, op_check, op_cleanup, op_finish, Reply, Proto,
  Device,
}
use sane_airscan.Device.Job.{device_stm_state_set, device_job_set_status}
use sane_airscan.Device.Stm.Effects.{state_set_eq, set_status_fields}
use sane_airscan.Device.Stm.{
  same_op, has_decode, device_stm_op_callback, finish_job, delayed_cancel, next_op,
  device_proto_op_decode, after_reply, device_proto_dummy_decode,
}
use sane_airscan.Device.Events.Inv.{Kept}
use sane_airscan.Device.Events.Ending.{
  Between, IsSupported, finish_job-Moved, delayed_cancel-Kept, save_result-Between,
}

-- A reply whose next operation, if there is one, is an operation of the protocol.
abbrev pub IsValidReply : Proto → Reply → Type 0
IsValidReply p r = (same_op r.next op_finish ≡ false) → IsSupported p r.next

-- The operation that follows is the end, if the reply says so or a CANCEL was sent, or else the
-- reply's.
next_op_cases :
    (dev : Device) (r : Reply)
    → (next_op dev r ≡ op_finish)
      ⊎ ((next_op dev r ≡ r.next)
          × (dev.stm_cancel_sent ≡ true → same_op r.next op_cleanup ≡ false))
unfolding next_op
next_op_cases dev r =
    elim (Bool-cases
      (dev.stm_cancel_sent && (same_op r.next op_cleanup || same_op dev.op op_check))) [
        | inl y ↦ inl (rw y)
        | inr n ↦ inr (rw n refl, λ h. ground arith)
      ]

set_status-Between :
    (p : Proto) (dev : Device) (s : State) (st : Status)
    → dev.state ≡ s
    → Between p dev s
    → Between p (device_job_set_status dev st) s × ((device_job_set_status dev st).state ≡ s)
set_status-Between p dev s st is b =
    let (x, q, e, n) = set_status_fields dev st in rw e (ground arith)

-- CLEANUP follows only where no CANCEL was sent.
cleanup-Between :
    (p : Proto) (dev : Device) (s : State) (r : Bool)
    → Between p dev s
    → dev.stm_cancel_sent ≡ false
    → Between p (record dev { state = cleanup; read_ready = r }) cleanup
cleanup-Between p dev cancel_sent r b h = cc (b.was_sent)
cleanup-Between p dev _ r b h = ground arith

continue-Kept :
    (p : Proto) (dev : Device) (s : State) (next : Op) (delay : ℕ)
    → dev.state ≡ s
    → Between p dev s
    → IsSupported p next
    → (dev.stm_cancel_sent ≡ true → same_op next op_cleanup ≡ false)
    → Kept p (
        delayed_cancel p
          (if same_op next op_cleanup then device_stm_state_set dev cleanup else dev)
          next
          delay)
continue-Kept p dev s next delay is b n h = elim (Bool-cases (same_op next op_cleanup)) [
  | inl y ↦
      let (r, e) = state_set_eq dev cleanup in
      rw (y, e)
        (delayed_cancel-Kept p _ cleanup next delay refl
          (cleanup-Between p dev s r b (ground arith)) n)
  | inr y ↦ rw y (delayed_cancel-Kept p dev s next delay is b n)
]

same_op-eq : (a b : Op) → same_op a b ≡ true → a ≡ b
same_op-eq op_scan _ h = ground arith
same_op-eq _ _ h = ground arith

-- What follows the decoder, on the device with the result saved and the status set.
module _ (p : Proto) (dev : Device) (s : State) (is : dev.state ≡ s) (b : Between p dev s)
    (r : Reply) (v : IsValidReply p r) where
  follow-Kept : Kept p (
      if same_op (next_op dev r) op_finish
      then some (finish_job dev)
      else delayed_cancel p
          (if same_op (next_op dev r) op_cleanup then device_stm_state_set dev cleanup else dev)
          (next_op dev r)
          r.delay)
  follow-Kept = elim (next_op_cases dev r) [
    | inl e ↦ rw e (finish_job-Moved p dev s is b)
    | inr (e, h) ↦ rw e (elim (Bool-cases (same_op r.next op_finish)) [
      | inl f ↦ rw f (finish_job-Moved p dev s is b)
      | inr f ↦ rw f (continue-Kept p dev s r.next r.delay is b (v f) h)
    ])
  ]

after_reply-Kept :
    (p : Proto) (dev : Device) (s : State) (result : Reply)
    → dev.state ≡ s
    → Between p dev s
    → IsValidReply p result
    → Kept p (after_reply p dev result)
unfolding after_reply
after_reply-Kept p dev s result is b v =
    let (b1, is1) = save_result-Between p dev s dev.op result.content is b in
    let (b2, is2) = set_status-Between p _ s result.status is1 b1 in
    follow-Kept p _ s is2 b2 result v

-- The count of failed attempts behind the decoder.
abbrev attempts : Device → ℕ
attempts dev = if same_op dev.op op_check then dev.failed_attempt + 1 else dev.failed_attempt

decode_eq :
    (p : Proto) (dev : Device) (reply : Reply)
    → has_decode p dev.op ≡ true
    → IsValidReply p reply
    → (result : Reply) × (o : Op) × (n : ℕ) × (device_proto_op_decode p dev reply
        ≡ some (result, record dev { failed_op = o; failed_attempt = n }))
      × IsValidReply p result
unfolding device_proto_op_decode
decode_eq p dev reply d v = elim (Bool-cases (same_op dev.op op_cleanup)) [
  | inl y ↦ (device_proto_dummy_decode, dev.failed_op, attempts dev, rw (d, y) refl, λ h. cc)
  | inr n ↦ (
    reply,
    if same_op reply.next op_check then dev.op else dev.failed_op,
    attempts dev,
    rw (d, n) refl,
    v,
  )
]

-- The callback of an operation of a live job runs without a failed assertion and keeps the
-- invariant.
pub op_callback-Kept :
    (p : Proto) (dev : Device) (s : State) (reply : Reply)
    → dev.state ≡ s
    → Between p dev s
    → has_decode p dev.op ≡ true
    → IsValidReply p reply
    → Kept p (device_stm_op_callback p dev reply)
unfolding device_stm_op_callback
op_callback-Kept p dev s reply is b d v =
    let (result, o, n, e, v') = decode_eq p dev reply d v in
    rw e (after_reply-Kept p _ s result is (ground arith) v')
