-- ===== src/Worker/Loop/Audio.antt =====
-- daemon/worker.cpp: what becomes of a frame that the plugin has queued.
use linux_opensource_univers.Prelude.{
  if◌then◌else◌, length, update_here, ℕ, ◌+◌, ◌≤◌, ◌<◌, ◌≡◌, refl, ap, ◌∙◌, Bool, true, false, some,
  List, [], ◌∷◌, ◌++◌, arith,
}
use linux_opensource_univers.Floats.{Floats}
use linux_opensource_univers.Ring.{Ring, commit_read, write_slot}
use linux_opensource_univers.Ring.Window.{IsValid, contents}
use linux_opensource_univers.Ring.ZeroCopy.{peek_some, peek-write}
use linux_opensource_univers.Shm.{
  AudioFrame, set_worker, WorkerControlBlock, WorkerError, queue_depth,
}
use linux_opensource_univers.Sdk.{signal}
use linux_opensource_univers.Worker.{Nodes}
use linux_opensource_univers.Worker.Graph.{Graph}
use linux_opensource_univers.Worker.Loop.Output.{Sized, SameSamples, output-Sent, output_full}
use linux_opensource_univers.Worker.Loop.{
  Worker, Tick, audio, audio_at, output, process, load_of, set_error,
}

set_error_load : (ok : Bool) (b : WorkerControlBlock) → (set_error ok b).load_pct ≡ b.load_pct
set_error_load true b = refl
set_error_load false b = refl

set_error_last :
    (ok : Bool) (b : WorkerControlBlock)
    → (set_error ok b).last_error ≡ (if ok then b.last_error else WorkerError.device_lost)
set_error_last true b = refl
set_error_last false b = refl

load_of-bounds : (fl : Floats) (elapsed frames : ℕ) → load_of fl elapsed frames ≤ 100
unfolding load_of
load_of-bounds fl elapsed frames = ground arith

module _ (fl : Floats) {S : Type 0} (nodes : Nodes (fl.Float) S) where
  open fl use {Float}

  -- What the round does with the oldest frame, once the graph has made `(g, s, f', ok)` of it, and
  -- the output queue is `out`.
  abbrev after :
      Tick
      → Worker Float S
      → Graph
      → S
      → AudioFrame Float
      → Bool
      → Ring (AudioFrame Float)
      → Worker Float S
  after tick w g s f' ok out =
      let block = w.shm.workers w.worker_id in
      let block' = record block { load_pct = load_of fl tick.elapsed_us f'.frame_count } in
      record w {
        shm = record (set_worker w.shm w.worker_id (set_error ok block')) {
          in_queue = commit_read queue_depth (write_slot w.shm.in_queue.head f' w.shm.in_queue);
          out_queue = out;
        };
        store = s;
        graph = g;
      }

  module _ (tick : Tick) (w : Worker Float S) (f f' : AudioFrame Float) (g : Graph) (s : S)
      (ok : Bool) (rest : List (AudioFrame Float)) (v : IsValid queue_depth w.shm.in_queue)
      (u : IsValid queue_depth w.shm.out_queue)
      (oldest : contents queue_depth w.shm.in_queue ≡ f ∷ rest)
      (made : process nodes w f ≡ (g, s, f', ok)) where
    audio-after :
        (out : Ring (AudioFrame Float))
        → output f' w.shm.out_queue ≡ some out
        → audio fl nodes tick w ≡ some (after tick w g s f' ok out, signal tick.answer)
    unfolding audio audio_at
    audio-after out e =
        let p = peek_some v f rest oldest in
        rw (p.slot_at, audio) (rw (ap (process nodes w) p.item ∙ made) (rw e refl))

    -- The frame has left `in_queue`, and the worker's block tells how it went.
    pub record Consumed (w' : Worker Float S) : Type 0 where
      pub removed : contents queue_depth w'.shm.in_queue ≡ rest
      pub in_valid : IsValid queue_depth w'.shm.in_queue
      pub out_valid : IsValid queue_depth w'.shm.out_queue
      pub load : (w'.shm.workers w.worker_id).load_pct ≤ 100
      pub error :
          (w'.shm.workers w.worker_id).last_error
          ≡ (if ok then (w.shm.workers w.worker_id).last_error else WorkerError.device_lost)

    after-Consumed :
        (out : Ring (AudioFrame Float))
        → IsValid queue_depth out
        → Consumed (after tick w g s f' ok out)
    after-Consumed out valid =
        let p = peek-write v f f' rest oldest in
        let block : WorkerControlBlock = record (w.shm.workers w.worker_id) {
          load_pct = load_of fl tick.elapsed_us f'.frame_count;
        } in
        let at =
          update_here w.shm.workers {i = w.worker_id} {j = w.worker_id} (set_error ok block) refl in
        record {
          removed = p.0;
          in_valid = p.1;
          out_valid = valid;
          load = omega (
            arith,
            ap (λ (b : WorkerControlBlock). b.load_pct) at,
            set_error_load ok block,
            load_of-bounds fl tick.elapsed_us f'.frame_count,
          );
          error = ap (λ (b : WorkerControlBlock). b.last_error) at ∙ set_error_last ok block;
        }

    -- The oldest frame of `in_queue` is processed and forwarded: when what the nodes leave is sized
    -- as a frame is and `out_queue` has room, a frame with its counts, its timestamp and the valid
    -- samples of each channel goes last there. The frame has left `in_queue`, the load that is
    -- reported is at most 100 percent, and the error is DEVICE_LOST when a node has failed.
    pub frame_forwarded :
        Sized f'
        → length (contents queue_depth w.shm.out_queue) + 1 < queue_depth
        → (w' : Worker Float S) × (sent : AudioFrame Float) × (audio fl nodes tick w
            ≡ some (w', signal tick.answer))
          × (contents queue_depth w'.shm.out_queue
              ≡ contents queue_depth w.shm.out_queue ++ sent ∷ [])
          × (sent.frame_count ≡ f'.frame_count)
          × (sent.channel_count ≡ f'.channel_count)
          × (sent.timestamp_ns ≡ f'.timestamp_ns)
          × SameSamples f'.channel_count 0 f'.frame_count f'.samples sent.samples
          × Consumed w'
    frame_forwarded z room =
        let o = output-Sent f' w.shm.out_queue z u room in
        (
          after tick w g s f' ok o.queue',
          o.frame,
          audio-after o.queue' o.runs,
          o.appended,
          o.frames,
          o.channels,
          o.timestamp,
          o.samples,
          after-Consumed o.queue' o.still,
        )

    -- When `out_queue` is full the frame is dropped: it has left `in_queue` just the same, and the
    -- plugin is told that there is output.
    pub frame_dropped :
        length (contents queue_depth w.shm.out_queue) + 1 ≡ queue_depth
        → (w' : Worker Float S) × (audio fl nodes tick w ≡ some (w', signal tick.answer))
          × (w'.shm.out_queue ≡ w.shm.out_queue)
          × Consumed w'
    frame_dropped full = (
      after tick w g s f' ok w.shm.out_queue,
      audio-after w.shm.out_queue (output_full f' w.shm.out_queue u full),
      refl,
      after-Consumed w.shm.out_queue u,
    )
