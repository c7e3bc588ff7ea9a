-- ===== src/Sdk/Dispatch/Send.antt =====
-- sdk/src/dsp_accel_sdk.cpp: what a `dispatch` that the health checks let through does.
use Prim.Native.Nat.{min}
use linux_opensource_univers.Prelude.{
  ltb, if_false, ltb→lt, le→ltb_false, ltb_false→le, Bool-cases, length, Region, pos, negsuc, ℤ,
  u32_mod, to_u32, clamp_above, ℕ, suc, ◌+◌, ◌*◌, ◌^◌, ◌≤◌, ◌<◌, ◌≡◌, refl, ap, ◌∙◌, inl, inr, true,
  false, not, none, some, List, [], ◌∷◌, ◌++◌, arith,
}
use linux_opensource_univers.Floats.{Floats}
use linux_opensource_univers.Ring.Window.{IsValid, contents}
use linux_opensource_univers.Ring.ZeroCopy.{reserve_room, reserve_full}
use linux_opensource_univers.Shm.{
  AudioFrame, WorkerError, SharedMemory, is_none, sample_region, sample_count, channel_stride,
  queue_depth,
}
use linux_opensource_univers.Sdk.{Ctx, Session, keep, worker_of, Answer, signal}
use linux_opensource_univers.Sdk.Copy.{Fits, Holds, copy_in_lem, copy_in_overrun}
use linux_opensource_univers.Sdk.Dispatch.{
  dispatch, dispatch_ptr, dispatch_at, send, watch, count_xrun, clamp_frames, clamp_channels,
  fill_frame,
}
use linux_opensource_univers.Sdk.Dispatch.Outcome.{
  counted, committed, send-full, send-sent, send-fault,
}

pub clamp_pos : (limit n : ℕ) → limit < u32_mod → to_u32 (clamp_above limit (pos n)) ≡ min n limit
clamp_pos limit n h = elim (Bool-cases (ltb limit n)) [
  | inl over ↦ rw over (omega (arith, ltb→lt limit n over))
  | inr under ↦ rw under (omega (arith, ltb_false→le limit n under))
]

-- The frame that a block becomes: the plugin's samples, at most 256 on each of at most 8 channels.
pub record IsBlock {F : Type 0} (bufs : List (Region F)) (frames channels now : ℕ)
    (f : AudioFrame F) : Type 0 where
  pub frame_count : f.frame_count ≡ min frames 256
  pub channel_count : f.channel_count ≡ min channels 8
  pub timestamp : f.timestamp_ns ≡ now
  pub samples : Holds (min frames 256) 0 (min channels 8) bufs f.samples

module _ {fl : Floats} where
  open fl use {Float}

  -- The health checks pass: connected, no error reported, and at most ten blocks with no heartbeat.
  pub record Live (s : Session fl) (c : Ctx fl) : Type 0 where
    pub here : s.ctx ≡ some c
    pub mapped : c.mapped ≡ true
    pub quiet : (worker_of c s).last_error ≡ WorkerError.no_error
    pub awake : (watch (worker_of c s).heartbeat c).heartbeat_stalled_count ≤ 10

  abbrev pub watched : Session fl → Ctx fl → Ctx fl
  watched s c = watch (worker_of c s).heartbeat c

  pub dispatch-Live :
      (bufs : List (Region Float)) (frames channels : ℤ) (now : ℕ) (answer : Answer)
      {s : Session fl} {c : Ctx fl}
      → Live s c
      → dispatch s bufs frames channels now answer
        ≡ send (watched s c) s bufs (clamp_frames frames) (clamp_channels channels) now answer
  unfolding dispatch dispatch_at
  dispatch-Live bufs frames channels now answer {s} {c} v =
      ap (λ p. dispatch_ptr p s bufs frames channels now answer) v.here
      ∙ if_false _ _ (ap not v.mapped)
      ∙ if_false _ _ (ap (λ e. not (is_none e)) v.quiet)
      ∙ if_false _ _ (le→ltb_false 10 (watched s c).heartbeat_stalled_count v.awake)

  pub record Enqueued (bufs : List (Region Float)) (frames channels now : ℕ) (answer : Answer)
      (s : Session fl) (c : Ctx fl) : Type 0 where
    pub shm : SharedMemory Float
    pub frame : AudioFrame Float
    pub runs :
        dispatch s bufs (pos frames) (pos channels) now answer
        ≡ some (record { ctx = some (counted answer (watched s c)); shm = shm }, signal answer)
    pub block : IsBlock bufs frames channels now frame
    pub appended :
        contents queue_depth shm.in_queue ≡ contents queue_depth s.shm.in_queue ++ frame ∷ []
    pub valid : IsValid queue_depth shm.in_queue
    pub rest : shm ≡ record (s.shm) { in_queue = shm.in_queue }

  -- A block of at least 0 frames and channels, from buffers with room for what is copied: a live
  -- session with room in `in_queue` appends it to the queue and touches nothing else of the shared
  -- memory; no copy faults. The answer to the event's write is the result: if it is
  -- false, the block is counted as an XRUN, though the worker will find it in the queue.
  pub dispatch_enqueues :
      (bufs : List (Region Float)) (frames channels now : ℕ) (answer : Answer) {s : Session fl}
      {c : Ctx fl}
      → Live s c
      → IsValid queue_depth s.shm.in_queue
      → length (contents queue_depth s.shm.in_queue) + 1 < queue_depth
      → Fits (min frames 256) (min channels 8) bufs
      → Enqueued bufs frames channels now answer s c
  dispatch_enqueues bufs frames channels now answer {s} {c} live valid room fits =
      let q = s.shm.in_queue in
      let fc : ℕ = min frames 256 in
      let chans : ℕ = min channels 8 in
      let slot = q.slot q.tail in
      let copied =
        copy_in_lem chans 0 fc bufs (sample_region slot) (omega arith) (omega arith) fits in
      let frame = fill_frame slot fc chans now copied.out in
      let reserved = reserve_room valid frame room in
      record {
        shm = committed s.shm q.tail fc chans now copied.out;
        frame = frame;
        runs =
            dispatch-Live bufs (pos frames) (pos channels) now answer live
            ∙ rw (clamp_pos 256 frames (omega arith), clamp_pos 8 channels (omega arith))
                (send-sent (watched s c) s bufs fc chans now answer q.tail copied.out
                  reserved.slot_at copied.runs);
        block = record {
          frame_count = refl;
          channel_count = refl;
          timestamp = refl;
          samples = copied.holds;
        };
        appended = reserved.appended;
        valid = reserved.still;
        rest = refl;
      }

  -- With the queue full, `dispatch` counts an XRUN, says false, and leaves the shared memory alone.
  pub dispatch_xrun :
      (bufs : List (Region Float)) (frames channels : ℤ) (now : ℕ) (answer : Answer)
      {s : Session fl} {c : Ctx fl}
      → Live s c
      → IsValid queue_depth s.shm.in_queue
      → length (contents queue_depth s.shm.in_queue) + 1 ≡ queue_depth
      → dispatch s bufs frames channels now answer ≡ some (keep s (count_xrun (watched s c)), false)
  dispatch_xrun bufs frames channels now answer {s} {c} live valid full =
      dispatch-Live bufs frames channels now answer live
      ∙ send-full (watched s c) s bufs (clamp_frames frames) (clamp_channels channels) now answer
          (reserve_full valid full)

  -- A negative `frames` is not clamped: converted to `uint32_t` it makes the first `memcpy` run past
  -- the frame.
  pub dispatch_negative_faults :
      (b : Region Float) (bufs : List (Region Float)) (n channels now : ℕ) (answer : Answer)
      {s : Session fl} {c : Ctx fl}
      → Live s c
      → IsValid queue_depth s.shm.in_queue
      → length (contents queue_depth s.shm.in_queue) + 1 < queue_depth
      → n < 2 ^ 31
      → dispatch s (b ∷ bufs) (negsuc n) (pos (suc channels)) now answer ≡ none
  dispatch_negative_faults b bufs n channels now answer {s} {c} live valid room h =
      let q = s.shm.in_queue in
      let slot = q.slot q.tail in
      let fc : ℕ = clamp_frames (negsuc n) in
      let huge : sample_count < 0 * channel_stride + fc = omega arith in
      let one_more : clamp_channels (pos (suc channels)) ≡ suc (min channels 7) =
        clamp_pos 8 (suc channels) (omega arith) ∙ omega arith in
      dispatch-Live (b ∷ bufs) (negsuc n) (pos (suc channels)) now answer live
      ∙ ap (λ k. send (watched s c) s (b ∷ bufs) fc k now answer) one_more
      ∙ send-fault (watched s c) s (b ∷ bufs) fc (suc (min channels 7)) now answer q.tail
          (reserve_room valid slot room).slot_at
          (copy_in_overrun (min channels 7) 0 fc b bufs (sample_region slot) huge)
