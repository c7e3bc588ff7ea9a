-- ===== src/Sdk/Dispatch/Queued.antt =====
-- sdk/src/dsp_accel_sdk.cpp: what a call of `dispatch` that returns has done to the queues, however it went.
use mathlib.Core.Path.{subst}
use linux_opensource_univers.Prelude.{
  ltb, if_true, if_false, Bool-cases, length, Region, pos, ℕ, ◌+◌, ◌≤◌, ◌<◌, ◌≡◌, refl, sym, ap,
  ◌∙◌, ◌⊎◌, inl, inr, Bool, not, Option, none, some, List, [], ◌∷◌, ◌++◌, arith,
}
use linux_opensource_univers.Floats.{Floats}
use linux_opensource_univers.Ring.{Ring, reserve_write, commit_write, write_slot}
use linux_opensource_univers.Ring.Window.{IsValid, contents, span, span_not_full, length-window}
use linux_opensource_univers.Ring.ZeroCopy.{reserve_room}
use linux_opensource_univers.Shm.{AudioFrame, SharedMemory, is_none, queue_depth}
use linux_opensource_univers.Sdk.{Ctx, Session, worker_of, Answer}
use linux_opensource_univers.Sdk.Dispatch.{
  dispatch, dispatch_ptr, dispatch_at, send, watch, fill_frame, clamp_frames, clamp_channels,
}
use linux_opensource_univers.Sdk.Dispatch.Outcome.{committed, full, sent, send-Outcome}
use linux_opensource_univers.Sdk.Dispatch.Send.{clamp_pos}

-- A slot is handed out at `tail`, and only with room.
reserve_some :
    {A : Type 0} {cap : ℕ} {r : Ring A} (v : IsValid cap r) {i : ℕ}
    → reserve_write cap r ≡ some i
    → (i ≡ r.tail) × (length (contents cap r) + 1 < cap)
unfolding reserve_write
reserve_some {cap} {r} v e = ground (
  arith,
  length-window r.slot cap r.head (span cap r.head r.tail),
  span_not_full cap r.head r.tail v.small v.head_in v.tail_in,
)

-- The shared memory with one more frame in `in_queue`
pub record Queued {F : Type 0} (now : ℕ) (shm shm' : SharedMemory F) : Type 0 where
  pub frame : AudioFrame F
  pub timestamp : frame.timestamp_ns ≡ now
  pub frames_in : frame.frame_count ≤ 256
  pub channels_in : frame.channel_count ≤ 8
  pub appended :
      contents queue_depth shm'.in_queue ≡ contents queue_depth shm.in_queue ++ frame ∷ []
  pub valid : IsValid queue_depth shm'.in_queue
  pub others : shm'.out_queue ≡ shm.out_queue

committed-Queued :
    {F : Type 0} (shm : SharedMemory F) (i fc chans now : ℕ) (out : Region F)
    → IsValid queue_depth shm.in_queue
    → reserve_write queue_depth shm.in_queue ≡ some i
    → fc ≤ 256
    → chans ≤ 8
    → Queued now shm (committed shm i fc chans now out)
committed-Queued shm i fc chans now out v e short narrow =
    let q = shm.in_queue in
    let at = reserve_some v e in
    let frame = fill_frame (q.slot i) fc chans now out in
    let reserved = reserve_room v frame (at.1) in
    record {
      frame = frame;
      timestamp = refl;
      frames_in = short;
      channels_in = narrow;
      appended =
          ap (λ (k : ℕ). contents queue_depth (commit_write queue_depth (write_slot k frame q)))
            (at.0)
          ∙ reserved.appended;
      valid =
          subst (λ (k : ℕ). IsValid queue_depth (commit_write queue_depth (write_slot k frame q)))
            (sym (at.0)) reserved.still;
      others = refl;
    }

module _ {fl : Floats} where
  open fl use {Float}

  send-Queued :
      (c : Ctx fl) (s : Session fl) (bufs : List (Region Float)) (fc chans now : ℕ)
      (answer : Answer) {u : Session fl} {r : Bool}
      → IsValid queue_depth s.shm.in_queue
      → fc ≤ 256
      → chans ≤ 8
      → send c s bufs fc chans now answer ≡ some (u, r)
      → (u.shm ≡ s.shm) ⊎ Queued now s.shm u.shm
  send-Queued c s bufs fc chans now answer v short narrow h =
      elim (send-Outcome c s bufs fc chans now answer h) [
        | full e eu er ↦ inl (ap (λ (t : Session fl). t.shm) eu)
        | sent i out e f eu er ↦ inr (
            subst (λ (t : Session fl). Queued now s.shm t.shm) (sym eu)
              (committed-Queued s.shm i fc chans now out v e short narrow))
      ]

  dispatch_at-Queued :
      (c : Ctx fl) (s : Session fl) (bufs : List (Region Float)) (frames channels now : ℕ)
      (answer : Answer) {u : Session fl} {r : Bool}
      → IsValid queue_depth s.shm.in_queue
      → dispatch_at c s bufs (pos frames) (pos channels) now answer ≡ some (u, r)
      → (u.shm ≡ s.shm) ⊎ Queued now s.shm u.shm
  unfolding dispatch_at
  dispatch_at-Queued c s bufs frames channels now answer v h = elim (Bool-cases (not c.mapped)) [
    | inl off ↦ inl (cc (sym (if_true _ _ off) ∙ h))
    | inr on ↦
        let h1 = sym (if_false _ _ on) ∙ h in
        elim (Bool-cases (not (is_none (worker_of c s).last_error))) [
          | inl bad ↦ inl (cc (sym (if_true _ _ bad) ∙ h1))
          | inr quiet ↦
              let h2 = sym (if_false _ _ quiet) ∙ h1 in
              let c' = watch (worker_of c s).heartbeat c in
              elim (Bool-cases (ltb 10 c'.heartbeat_stalled_count)) [
                | inl dead ↦ inl (cc (sym (if_true _ _ dead) ∙ h2))
                | inr alive ↦
                    send-Queued c' s bufs (clamp_frames (pos frames))
                      (clamp_channels (pos channels)) now answer v
                      (omega (arith, clamp_pos 256 frames (omega arith)))
                      (omega (arith, clamp_pos 8 channels (omega arith)))
                      (sym (if_false _ _ alive) ∙ h2)
              ]
        ]
  ]

  -- A `dispatch` that returns has left the shared memory alone, or it has put one frame last into
  -- `in_queue`, with its own clock reading.
  pub dispatch-Queued :
      (s : Session fl) (bufs : List (Region Float)) (frames channels now : ℕ) (answer : Answer)
      {u : Session fl} {r : Bool}
      → IsValid queue_depth s.shm.in_queue
      → dispatch s bufs (pos frames) (pos channels) now answer ≡ some (u, r)
      → (u.shm ≡ s.shm) ⊎ Queued now s.shm u.shm
  unfolding dispatch dispatch_ptr
  dispatch-Queued s bufs frames channels now answer v h = go s.ctx h
    where
      go :
          (o : Option (Ctx fl)) {u : Session fl} {r : Bool}
          → dispatch_ptr o s bufs (pos frames) (pos channels) now answer ≡ some (u, r)
          → (u.shm ≡ s.shm) ⊎ Queued now s.shm u.shm
      go none h = inl (cc h)
      go (some c) h = dispatch_at-Queued c s bufs frames channels now answer v h
