-- ===== src/Sdk/Dispatch.antt =====
-- sdk/src/dsp_accel_sdk.cpp: sending a block to the worker and reading one back. `none` is undefined
-- behaviour: a copy past the end of a buffer, or through a pointer that is not there.
pub mod Outcome
pub mod Watchdog
pub mod Send
pub mod Receive
pub mod Queued
pub mod Taken
mod Tests
use Prim.Native.Nat.{min}
use linux_opensource_univers.Prelude.{
  ltb, ◌==◌, if◌then◌else◌, Region, ℤ, to_u32, clamp_above, add_u32, ◌>>=◌, ℕ, ◌-◌, Bool, true,
  false, not, Option, none, some, List,
}
use linux_opensource_univers.Floats.{Floats}
use linux_opensource_univers.Shm.{AudioFrame, is_none, sample_region, queue_depth}
use linux_opensource_univers.Ring.{reserve_write, commit_write, write_slot, peek_read, commit_read}
use linux_opensource_univers.Sdk.{Ctx, Session, keep, worker_of, Answer, signal}
use linux_opensource_univers.Sdk.Copy.{copy_in, copy_out}

-- `int` arguments clamped to a frame's maximums, and converted: a negative one becomes huge.
abbrev pub clamp_frames : ℤ → ℕ
clamp_frames frames = to_u32 (clamp_above 256 frames)

abbrev pub clamp_channels : ℤ → ℕ
clamp_channels channels = to_u32 (clamp_above 8 channels)

-- What is written to the reserved slot; `instance_id` is left as it was.
abbrev pub fill_frame : {F : Type 0} → AudioFrame F → ℕ → ℕ → ℕ → Region F → AudioFrame F
fill_frame slot fc chans now out = record slot {
  frame_count = fc;
  channel_count = chans;
  timestamp_ns = now;
  samples = out.cell;
}

-- What `read_output` gives back: the session, the plugin's buffers and the result.
abbrev pub Output : Floats → Type 0
Output fl = Session fl × List (Region (fl.Float)) × Bool

module _ {fl : Floats} where
  open fl use {Float}

  -- The watchdog: how many blocks in a row saw the same heartbeat.
  unfoldable pub watch : ℕ → Ctx fl → Ctx fl
  watch current_hb c =
      if current_hb == c.last_worker_heartbeat
      then record c { heartbeat_stalled_count = add_u32 c.heartbeat_stalled_count 1 }
      else record c { last_worker_heartbeat = current_hb; heartbeat_stalled_count = 0 }

  unfoldable pub count_xrun : Ctx fl → Ctx fl
  count_xrun c = record c { xrun_count = add_u32 c.xrun_count 1 }

  unfoldable pub count_block : Ctx fl → Ctx fl
  count_block c = record c { dispatched_blocks = add_u32 c.dispatched_blocks 1 }

  -- From the reservation of a slot on.
  pub send :
      Ctx fl → Session fl → List (Region Float) → ℕ → ℕ → ℕ → Answer → Option (Session fl × Bool)
  send c s bufs fc chans now answer = elim (reserve_write queue_depth s.shm.in_queue) [
    | none ↦ some (keep s (count_xrun c), false)
    | some i ↦ do
      let slot = s.shm.in_queue.slot i
      out ← copy_in chans 0 fc bufs (sample_region slot)
      let queue =
          commit_write queue_depth (write_slot i (fill_frame slot fc chans now out) s.shm.in_queue)
      let s' : Session fl = record s { shm = record (s.shm) { in_queue = queue } }
      some (
          if signal answer
          then (keep s' (count_block c), true)
          else (keep s' (count_xrun c), false))
  ]

  pub dispatch_at :
      Ctx fl → Session fl → List (Region Float) → ℤ → ℤ → ℕ → Answer → Option (Session fl × Bool)
  dispatch_at c s bufs frames channels now answer =
      if not c.mapped
      then some (s, false)
      else if not (is_none (worker_of c s).last_error)
      then some (s, false)
      else let c' = watch (worker_of c s).heartbeat c in
        if ltb 10 c'.heartbeat_stalled_count
        then some (keep s c', false)
        else send c' s bufs (clamp_frames frames) (clamp_channels channels) now answer

  -- `dsp_accel_sdk_dispatch`: `now` is the clock, `answer` the kernel's to the write of the event.
  pub dispatch_ptr :
      Option (Ctx fl)
      → Session fl
      → List (Region Float)
      → ℤ
      → ℤ
      → ℕ
      → Answer
      → Option (Session fl × Bool)
  dispatch_ptr none s bufs frames channels now answer = some (s, false)
  dispatch_ptr (some c) s bufs frames channels now answer =
      dispatch_at c s bufs frames channels now answer

  pub dispatch : Session fl → List (Region Float) → ℤ → ℤ → ℕ → Answer → Option (Session fl × Bool)
  unfolding dispatch_ptr
  dispatch s bufs frames channels now answer = dispatch_ptr s.ctx s bufs frames channels now answer

  -- The telemetry of a block that left at `sent` and is back at `now`.
  pub measure : ℕ → ℕ → Ctx fl → Ctx fl
  measure now sent c =
      if ltb sent now
      then record c {
        last_measured_rtt_us = fl.div (fl.float_of (now - sent)) (fl.literal 1000 1);
        total_roundtrip_ns = fl.add_double c.total_roundtrip_ns (fl.double_of (now - sent));
      }
      else c

  -- From the look at the queue on.
  pub receive : Ctx fl → Session fl → List (Region Float) → ℕ → ℕ → Option (Output fl)
  receive c s bufs channels now = elim (peek_read queue_depth s.shm.out_queue) [
    | none ↦ some (s, bufs, false)
    | some i ↦ do
      let slot = s.shm.out_queue.slot i
      outs ← copy_out (min slot.channel_count channels) 0 slot.frame_count (sample_region slot) bufs
      let shm' = record (s.shm) { out_queue = commit_read queue_depth s.shm.out_queue }
      some (record s { shm = shm'; ctx = some (measure now slot.timestamp_ns c) }, outs, true)
  ]

  pub read_output_at : Ctx fl → Session fl → List (Region Float) → ℤ → Bool → ℕ → Option (Output fl)
  read_output_at c s bufs channels ready now =
      if not c.mapped
      then some (s, bufs, false)
      else if not ready
      then some (s, bufs, false)
      else receive c s bufs (to_u32 channels) now

  pub read_output_ptr :
      Option (Ctx fl) → Session fl → List (Region Float) → ℤ → Bool → ℕ → Option (Output fl)
  read_output_ptr none s bufs channels ready now = some (s, bufs, false)
  read_output_ptr (some c) s bufs channels ready now = read_output_at c s bufs channels ready now

  -- `dsp_accel_sdk_read_output`: `ready` says that `poll` saw the worker's event within 5 ms. The
  -- code does not read its argument `frames`.
  pub read_output : Session fl → List (Region Float) → ℤ → ℤ → Bool → ℕ → Option (Output fl)
  unfolding read_output_ptr
  read_output s bufs frames channels ready now = read_output_ptr s.ctx s bufs channels ready now
