-- ===== src/Device/Events/Reach.antt =====
-- The runs of the whole system, and what holds in all of them.
use sane_airscan.Base.{
  ◌≡◌, refl, sym, subst, Bool, true, false, not, Option, none, some, [], if◌then◌else◌, arith,
}
use sane_airscan.Base.Int.{ℤ}
use sane_airscan.Device.Types.{idle, Status, Options, Proto, Device}
use sane_airscan.Device.Image.{has_decoder}
use sane_airscan.Device.Client.{Started, device_cancel, device_set_io_mode, device_set_option}
use sane_airscan.Device.Events.Inv.{InvAt, Kept}
use sane_airscan.Device.Events.Safety.{CanStart, Timely, dispatch-Kept, Timely-BringsImage}
use sane_airscan.Device.Events.{
  Thread, outside, starting, syncing, reading, System, settled, on_device, Action, loop, call_start,
  call_read, resume, call_cancel, call_set_io_mode, call_set_option, is_enabled, act,
}
use sane_airscan.Device.Events.Drift.{Drifts, drifted}
use sane_airscan.Device.Events.Images.{dispatch-Drift}
use sane_airscan.Device.Events.Calls.{start-Kept, sync_resume-Kept, wait_resume-SysInv}
use sane_airscan.Device.Events.Whole.{
  SysInv, SettleKept, outside-SysInv, Moved-SysInv, cancel-SysInv,
}
use sane_airscan.Device.Events.Reading.{drift-ReadInv, drift_outside, if-ReadInv, quiet-ReadInv}
use sane_airscan.Device.Events.Starts.{
  ReadKept, read_kept, start-ReadKept, sync_resume-ReadKept, wait_resume-ReadInv,
}
use sane_airscan.Device.Events.Reads.{BothInv, if-BothInv, CallKept, call_kept, cancel_req-ReadInv}
use sane_airscan.Device.Events.Pulls.{read-CallKept, read_again-CallKept}

-- What the environment grants to an action.
abbrev pub TimelyAction : Proto → System → Action → Type 0
TimelyAction p s (loop ev) = Timely p s.dev ev
TimelyAction p s _ = Unit

-- Both invariants after an action that has not failed an assertion.
pub data SystemKept (p : Proto) : Option System → Type 0 where
  kept : {s : System} → BothInv p s.dev s.thread → SystemKept p (some s)

loop-Kept :
    (p : Proto) (dev : Device) (t : Thread) (out : Option Device)
    → Kept p out
    → Drifts dev out
    → BothInv p dev t
    → SystemKept p (on_device (record { dev = dev; thread = t }) out)
loop-Kept p dev t none k d v = elim k [ ]
loop-Kept p dev t (some next) (k, i) (drifted d) v =
    kept (record {
      sys = Moved-SysInv p next t (k, i);
      reader = drift-ReadInv dev next t d i v.reader;
    })

call-Kept : (p : Proto) (o : Option Started) → CallKept p o → SystemKept p (settled o)
call-Kept p none k = elim k [ ]
call-Kept p (some r) (call_kept v) = kept v

-- Both invariants of a call, one after the other.
joined-Kept :
    (p : Proto) (o : Option Started) → SettleKept p o → ReadKept o → SystemKept p (settled o)
joined-Kept p none k r = elim k [ ]
joined-Kept p (some started) k (read_kept r) = kept (record { sys = k; reader = r })

cancel-Kept :
    (p : Proto) (dev : Device) (t : Thread) → BothInv p dev t → BothInv p (device_cancel dev) t
unfolding device_cancel
cancel-Kept p dev t v = record {
  sys = cancel-SysInv p dev t v.sys;
  reader = if-ReadInv (not dev.flag_scanning) _ _ t v.reader (cancel_req-ReadInv dev t v.reader);
}

-- A change of what neither invariant reads.
aside-Kept :
    (p : Proto) (dev : Device) (b : Bool) (o : Options)
    → BothInv p dev outside
    → BothInv p (record dev { read_non_blocking = b; opt = o }) outside
aside-Kept p dev b o v = record {
  sys = outside-SysInv p _ (ground (arith, v.sys.inv)) (ground (arith, v.sys.posted_by));
  reader = drift_outside dev _ (ground arith) refl v.reader;
}

if-Result :
    (p : Proto) (b : Bool) (x y : Status × Device)
    → BothInv p x.1 outside
    → BothInv p y.1 outside
    → BothInv p (if b then x else y).1 outside
if-Result p true x y v w = v
if-Result p false x y v w = w

io_mode-Kept :
    (p : Proto) (dev : Device) (b : Bool)
    → BothInv p dev outside
    → BothInv p (device_set_io_mode dev b).1 outside
unfolding device_set_io_mode
io_mode-Kept p dev b v = if-Result p (not dev.flag_scanning) _ _ v (aside-Kept p dev b dev.opt v)

set_option-Kept :
    (p : Proto) (dev : Device) (o : Options)
    → BothInv p dev outside
    → BothInv p (device_set_option dev o) outside
unfolding device_set_option
set_option-Kept p dev o v =
    if-BothInv p dev.flag_scanning _ _ v (aside-Kept p dev dev.read_non_blocking o v)

act_at :
    (mm2px : ℤ → ℤ → ℤ) (p : Proto) (dev : Device) (t : Thread) (a : Action)
    → CanStart p
    → BothInv p dev t
    → is_enabled (record { dev = dev; thread = t }) a ≡ true
    → TimelyAction p (record { dev = dev; thread = t }) a
    → SystemKept p (act mm2px p (record { dev = dev; thread = t }) a)
unfolding act
act_at mm2px p dev t (loop ev) c v e g =
    loop-Kept p dev t _ (dispatch-Kept mm2px p dev ev c v.sys.inv e g)
      (dispatch-Drift mm2px p dev ev (Timely-BringsImage p dev ev g)) v
act_at mm2px p dev outside call_start c v e g =
    joined-Kept p _ (start-Kept p dev v.sys) (start-ReadKept dev v.reader)
act_at mm2px p dev outside (call_read d) c v e g = call-Kept p _ (read-CallKept p d dev v)
act_at mm2px p dev starting (resume d) c v e g =
    kept
      (record { sys = wait_resume-SysInv p dev v.sys; reader = wait_resume-ReadInv dev v.reader })
act_at mm2px p dev syncing (resume d) c v e g =
    joined-Kept p _ (sync_resume-Kept p dev v.sys.inv (v.sys.syncs refl))
      (sync_resume-ReadKept dev (v.sys.syncs refl) v.reader)
act_at mm2px p dev reading (resume d) c v e g = call-Kept p _ (read_again-CallKept p d dev v)
act_at mm2px p dev t call_cancel c v e g = kept (cancel-Kept p dev t v)
act_at mm2px p dev outside (call_set_io_mode b) c v e g = kept (io_mode-Kept p dev b v)
act_at mm2px p dev outside (call_set_option o) c v e g = kept (set_option-Kept p dev o v)
act_at mm2px p dev _ _ c v e g = cc

-- The systems that a run reaches.
pub data Run (mm2px : ℤ → ℤ → ℤ) (p : Proto) (s : System) : System → Type 0 where
  here : Run mm2px p s s
  next :
      {t u : System} (a : Action)
      → Run mm2px p s t
      → is_enabled t a ≡ true
      → TimelyAction p t a
      → act mm2px p t a ≡ some u
      → Run mm2px p s u

-- A device that has been probed and is at rest. Its format_detected is the first of the table, or that
-- of an image of before.
pub record IsFresh (s : System) : Type 0 where
  pub is_idle : s.dev.state ≡ idle
  pub is_out : s.thread ≡ outside
  pub no_job : s.dev.op_queries ≡ 0
  pub no_timer : s.dev.timer ≡ false
  pub no_cancel : s.dev.cancel_query ≡ false
  pub no_event : s.dev.cancel_event ≡ false
  pub no_start : s.dev.start_call ≡ false
  pub not_read : s.dev.flag_reading ≡ false
  pub no_images : s.dev.read_queue ≡ []
  pub decoder : has_decoder s.dev.format_detected ≡ true

IsFresh-SysInv : (p : Proto) (s : System) → IsFresh s → SysInv p s.dev s.thread
IsFresh-SysInv p s f = record {
  inv = subst (InvAt p s.dev) (sym f.is_idle) (ground arith);
  posted_by = λ c. ground arith;
  starts = λ c. ground arith;
  syncs = λ c. ground arith;
}

IsFresh-BothInv : (p : Proto) (s : System) → IsFresh s → BothInv p s.dev s.thread
IsFresh-BothInv p s f =
    subst (λ t. SysInv p s.dev t → BothInv p s.dev t) (sym f.is_out)
      (λ v. record {
        sys = v;
        reader =
            quiet-ReadInv s.dev
              (record { decoder = f.decoder; images = rw f.no_images refl; still = f.not_read });
      })
      (IsFresh-SysInv p s f)

pub Run-BothInv :
    {mm2px : ℤ → ℤ → ℤ} {p : Proto} {s t : System}
    → CanStart p
    → IsFresh s
    → Run mm2px p s t
    → BothInv p t.dev t.thread
Run-BothInv {p = p} c f here = IsFresh-BothInv p _ f
Run-BothInv {mm2px = mm2px} {p = p} c f (next {t} {u} a r e g is) =
    kept_lem (subst (SystemKept p) is (act_at mm2px p t.dev t.thread a c (Run-BothInv c f r) e g))
  where
    kept_lem : {p : Proto} {u : System} → SystemKept p (some u) → BothInv p u.dev u.thread
    kept_lem (kept v) = v

-- An action that is enabled after a run, and timely, goes through, and keeps the invariants.
pub Run-act :
    {mm2px : ℤ → ℤ → ℤ} {p : Proto} {s t : System}
    → CanStart p
    → IsFresh s
    → Run mm2px p s t
    → (a : Action) → is_enabled t a ≡ true
    → TimelyAction p t a
    → SystemKept p (act mm2px p t a)
Run-act {mm2px} {p} {s} {t} c f r a e g = act_at mm2px p t.dev t.thread a c (Run-BothInv c f r) e g
