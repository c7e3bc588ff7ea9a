-- ===== src/Worker/Loop/Moved.antt =====
-- daemon/worker.cpp: what the audio part of a round does to the two queues, however it goes.
use linux_opensource_univers.Prelude.{
  nil, cons, length, All, ℕ, ◌+◌, ◌<◌, ◌≡◌, refl, ap, ◌∙◌, ◌⊎◌, inl, inr, Bool, false, some, List,
  [], ◌∷◌, ◌++◌, arith, dec_lt,
}
use linux_opensource_univers.Floats.{Floats}
use linux_opensource_univers.Ring.{Ring}
use linux_opensource_univers.Ring.Window.{IsValid, contents, span, span_lt, length-window}
use linux_opensource_univers.Ring.ZeroCopy.{peek_none}
use linux_opensource_univers.Shm.{AudioFrame, SharedMemory, queue_depth}
use linux_opensource_univers.Sdk.{signal}
use linux_opensource_univers.Worker.{Nodes}
use linux_opensource_univers.Worker.Loop.Transparent.{Transparent, process-SameHeader}
use linux_opensource_univers.Worker.Loop.Output.{Sized}
use linux_opensource_univers.Worker.Loop.Audio.{frame_forwarded, frame_dropped}
use linux_opensource_univers.Worker.Loop.{Worker, Tick, audio, process}

-- A frame with the timestamp of `f` has come last into the queue, unless that was full.
abbrev pub Onward : {F : Type 0} → AudioFrame F → Ring (AudioFrame F) → Ring (AudioFrame F) → Type 0
Onward {F} f q q' =
    ((g : AudioFrame F) × (contents queue_depth q' ≡ contents queue_depth q ++ g ∷ [])
      × (g.timestamp_ns ≡ f.timestamp_ns))
    ⊎ ((contents queue_depth q' ≡ contents queue_depth q)
        × (length (contents queue_depth q) + 1 ≡ queue_depth))

-- The oldest frame has left `in_queue`, and has gone on to `out_queue`.
pub record Moved {F : Type 0} (shm shm' : SharedMemory F) : Type 0 where
  pub frame : AudioFrame F
  pub rest : List (AudioFrame F)
  pub oldest : contents queue_depth shm.in_queue ≡ frame ∷ rest
  pub removed : contents queue_depth shm'.in_queue ≡ rest
  pub in_valid : IsValid queue_depth shm'.in_queue
  pub out_valid : IsValid queue_depth shm'.out_queue
  pub out : Onward frame shm.out_queue shm'.out_queue

length-contents_lt :
    {A : Type 0} {cap : ℕ} (r : Ring A) → IsValid cap r → length (contents cap r) < cap
length-contents_lt {cap = cap} r v = omega (
  arith,
  length-window r.slot cap r.head (span cap r.head r.tail),
  span_lt cap r.head r.tail v.small v.head_in v.tail_in,
)

module _ (fl : Floats) {S : Type 0} (nodes : Nodes (fl.Float) S) where
  open fl use {Float}

  abbrev pub Goes : Tick → Worker Float S → Type 0
  Goes tick w =
      (w' : Worker Float S) × (told : Bool) × (audio fl nodes tick w ≡ some (w', told))
      × ((w'.shm ≡ w.shm) ⊎ Moved w.shm w'.shm)

  module _ (tick : Tick) (w : Worker Float S) (keeps : Transparent nodes)
      (v : IsValid queue_depth w.shm.in_queue) (u : IsValid queue_depth w.shm.out_queue) where
    nothing-Goes : contents queue_depth w.shm.in_queue ≡ [] → Goes tick w
    unfolding audio
    nothing-Goes e = (w, false, rw (peek_none v e, audio) refl, inl refl)

    frame-Goes :
        (f : AudioFrame Float) (rest : List (AudioFrame Float))
        → contents queue_depth w.shm.in_queue ≡ f ∷ rest
        → Sized f
        → Goes tick w
    frame-Goes f rest e z =
        let r = process nodes w f in
        let k = process-SameHeader nodes keeps w f in
        let sized : Sized (r.2) = record {
          frames_in = omega (arith, k.frame_count, z.frames_in);
          channels_in = omega (arith, k.channel_count, z.channels_in);
        } in
        elim (dec_lt (length (contents queue_depth w.shm.out_queue) + 1) queue_depth) [
          | yes room ↦
              let (w', g, runs, appended, fc, chans, ts, same, consumed) =
                frame_forwarded fl nodes tick w f (r.2) (r.0) (r.1) (r.3) rest v u e refl sized
                  room in
              (
                w',
                signal tick.answer,
                runs,
                inr record {
                  frame = f;
                  rest = rest;
                  oldest = e;
                  removed = consumed.removed;
                  in_valid = consumed.in_valid;
                  out_valid = consumed.out_valid;
                  out = inl (g, appended, ts ∙ k.timestamp_ns);
                },
              )
          | no none_left ↦
              let is_full : length (contents queue_depth w.shm.out_queue) + 1 ≡ queue_depth =
                omega (arith, none_left, length-contents_lt w.shm.out_queue u) in
              let (w', runs, same, consumed) =
                frame_dropped fl nodes tick w f (r.2) (r.0) (r.1) (r.3) rest v u e refl is_full in
              (
                w',
                signal tick.answer,
                runs,
                inr record {
                  frame = f;
                  rest = rest;
                  oldest = e;
                  removed = consumed.removed;
                  in_valid = consumed.in_valid;
                  out_valid = consumed.out_valid;
                  out = inr (ap (contents queue_depth) same, is_full);
                },
              )
        ]

    -- Where the frames in `in_queue` are sized as frames are and the nodes change samples alone, the
    -- round does not fault, whether there is a frame or room for one; and it has moved the oldest frame
    -- on, or left the shared memory alone.
    pub audio-Goes : All Sized (contents queue_depth w.shm.in_queue) → Goes tick w
    audio-Goes sizes = go (contents queue_depth w.shm.in_queue) refl sizes
      where
        go :
            (l : List (AudioFrame Float))
            → contents queue_depth w.shm.in_queue ≡ l
            → All Sized l
            → Goes tick w
        go [] e nil = nothing-Goes e
        go (f ∷ rest) e (cons z zs) = frame-Goes f rest e z
