-- ===== src/System/Roundtrip.antt =====
-- sdk/src/dsp_accel_sdk.cpp with daemon/worker.cpp: a block on its way through both queues.
use Prim.Native.Nat.{min}
use mathlib.Core.Path.{subst}
use linux_opensource_univers.Prelude.{
  length, Region, pos, u32_mod, ℕ, zero, suc, ◌+◌, ◌<◌, ◌≡◌, refl, sym, ap, ◌∙◌, true, some, List,
  [], ◌∷◌, ◌++◌, arith,
}
use linux_opensource_univers.Floats.{Floats}
use linux_opensource_univers.Ring.Window.{IsValid, contents}
use linux_opensource_univers.Shm.{AudioFrame, SharedMemory, queue_depth}
use linux_opensource_univers.Sdk.{Ctx, Session, Answer, signal}
use linux_opensource_univers.Sdk.Copy.{Fits, Returned}
use linux_opensource_univers.Sdk.Dispatch.{read_output, watch, count_block, count_xrun}
use linux_opensource_univers.Sdk.Dispatch.Outcome.{counted}
use linux_opensource_univers.Sdk.Dispatch.Send.{Live, Enqueued, watched, dispatch_enqueues}
use linux_opensource_univers.Sdk.Dispatch.Receive.{read_output_receives}
use linux_opensource_univers.Worker.{Nodes}
use linux_opensource_univers.Worker.Loop.{Worker, Tick, audio, process}
use linux_opensource_univers.Worker.Loop.Audio.{frame_forwarded}
use linux_opensource_univers.Worker.Loop.Output.{SameSamples}

-- Buffers that hold the samples of one frame hold those of another that agrees with it on them.
Returned-same :
    {F : Type 0} (n ch fc : ℕ) (bufs outs : List (Region F)) (from to : ℕ → F)
    → SameSamples n ch fc to from
    → Returned fc ch n bufs outs from
    → Returned fc ch n bufs outs to
Returned-same zero ch fc bufs outs from to same r = r
Returned-same (suc n) ch fc [] outs from to same r = absurd r
Returned-same (suc n) ch fc (b ∷ bufs) [] from to same r = absurd r
Returned-same (suc n) ch fc (b ∷ bufs) (o ∷ outs) from to same r = (
  r.0,
  λ k h. r.1 k h ∙ same ch k (omega arith) (omega arith) h,
  r.2,
  Returned-same n (ch + 1) fc bufs outs from to
      (λ c k p q h. same c k (omega arith) (omega arith) h) r.3,
)

module _ (fl : Floats) {S : Type 0} (nodes : Nodes (fl.Float) S) where
  open fl use {Float}

  counted-mapped :
      (answer : Answer) (hb : ℕ) (c : Ctx fl) → (counted answer (watch hb c)).mapped ≡ c.mapped
  unfolding watch count_block count_xrun
  counted-mapped answer hb c = ground arith

  -- The nodes change samples alone.
  unfoldable pub Keeps : Worker Float S → Type 0
  Keeps w =
      (shm : SharedMemory Float) (f : AudioFrame Float)
      → (let r = process nodes (record w { shm = shm }) f in
          (r.2.frame_count ≡ f.frame_count) × (r.2.channel_count ≡ f.channel_count))

  pub record Returns (bufs : List (Region Float)) (frames channels now later : ℕ) (answer : Answer)
      (tick : Tick) (w : Worker Float S) (s : Session fl) (c : Ctx fl) : Type 0 where
    pub sent : Enqueued bufs frames channels now answer s c
    pub worker : Worker Float S
    pub session : Session fl
    pub outs : List (Region Float)
    pub works :
        audio fl nodes tick (record w { shm = sent.shm }) ≡ some (worker, signal tick.answer)
    pub reads :
        read_output
          (record { ctx = some (counted answer (watched s c)); shm = worker.shm })
          bufs
          (pos frames)
          (pos channels)
          true
          later
        ≡ some (session, outs, true)
    pub processed :
        Returned
          (min frames 256)
          0
          (min channels 8)
          bufs
          outs
          (process nodes (record w { shm = sent.shm }) sent.frame).2.samples
    pub drained : contents queue_depth session.shm.out_queue ≡ []

  -- What comes of a block that is in `in_queue`
  returns :
      (bufs : List (Region Float)) (frames channels now later : ℕ) (answer : Answer) (tick : Tick)
      (w : Worker Float S) {s : Session fl} {c : Ctx fl}
      (e : Enqueued bufs frames channels now answer s c)
      → c.mapped ≡ true
      → IsValid queue_depth s.shm.out_queue
      → contents queue_depth s.shm.in_queue ≡ []
      → contents queue_depth s.shm.out_queue ≡ []
      → Fits (min frames 256) (min channels 8) bufs
      → channels < u32_mod
      → Keeps w
      → Returns bufs frames channels now later answer tick w s c
  unfolding Keeps
  returns bufs frames channels now later answer tick w {s = s} {c = c} e mapped u empty_in empty_out
        fits small keeps =
      let w1 : Worker Float S = record w { shm = e.shm } in
      let r = process nodes w1 e.frame in
      let k = keeps e.shm e.frame in
      let out_same : e.shm.out_queue ≡ s.shm.out_queue =
        ap (λ (m : SharedMemory Float). m.out_queue) e.rest in
      let nothing : contents queue_depth e.shm.out_queue ≡ [] =
        ap (contents queue_depth) out_same ∙ empty_out in
      let (w', sent, works, appended, fc, chans, ts, same, consumed) =
        frame_forwarded fl nodes tick w1 e.frame r.2 r.0 r.1 r.3 [] e.valid (rw out_same u)
          (e.appended ∙ ap (λ (l : List (AudioFrame Float)). l ++ e.frame ∷ []) empty_in) refl
          record {
            frames_in = omega (arith, k.0, e.block.frame_count);
            channels_in = omega (arith, k.1, e.block.channel_count);
          }
          (omega (arith, ap length nothing)) in
      let fc_is : sent.frame_count ≡ min frames 256 = fc ∙ k.0 ∙ e.block.frame_count in
      let chans_is : min sent.channel_count channels ≡ min channels 8 =
        omega (arith, chans, k.1, e.block.channel_count) in
      let back =
        read_output_receives bufs (pos frames) channels later
          record { ctx = some (counted answer (watched s c)); shm = w'.shm }
          (counted answer (watched s c)) refl (counted-mapped answer _ c ∙ mapped) sent []
          consumed.out_valid
          (appended ∙ ap (λ (l : List (AudioFrame Float)). l ++ sent ∷ []) nothing) small
          (omega (arith, fc_is)) (omega (arith, chans, k.1, e.block.channel_count))
          (subst (λ (n : ℕ). Fits n (min sent.channel_count channels) bufs) (sym fc_is)
            (subst (λ (n : ℕ). Fits (min frames 256) n bufs) (sym chans_is) fits)) in
      record {
        sent = e;
        worker = w';
        session = _;
        outs = back.outs;
        works = works;
        reads = back.runs;
        processed =
            Returned-same (min channels 8) 0 (min frames 256) bufs back.outs sent.samples
              r.2.samples
              (λ d i p q h.
                same d i p (omega (arith, k.1, e.block.channel_count))
                  (omega (arith, k.0, e.block.frame_count)))
              (subst (λ (n : ℕ). Returned n 0 (min channels 8) bufs back.outs sent.samples) fc_is
                (subst (λ (n : ℕ). Returned sent.frame_count 0 n bufs back.outs sent.samples)
                  chans_is back.returned));
        drained = back.left;
      }

  -- Through empty queues a block comes back. The plugin dispatches it, the worker takes it in one
  -- round, and the plugin reads it: given that the session is live, that the buffers have room for
  -- the block and that the nodes keep the counts of a frame, no call faults, and the buffers then
  -- hold what the nodes have made of the samples that were dispatched. `out_queue` is empty again.
  pub block_comes_back :
      (bufs : List (Region Float)) (frames channels now later : ℕ) (answer : Answer) (tick : Tick)
      (w : Worker Float S) {s : Session fl} {c : Ctx fl}
      → Live s c
      → IsValid queue_depth s.shm.in_queue
      → IsValid queue_depth s.shm.out_queue
      → contents queue_depth s.shm.in_queue ≡ []
      → contents queue_depth s.shm.out_queue ≡ []
      → Fits (min frames 256) (min channels 8) bufs
      → channels < u32_mod
      → Keeps w
      → Returns bufs frames channels now later answer tick w s c
  block_comes_back bufs frames channels now later answer tick w live v u empty_in empty_out fits
        small keeps =
      returns bufs frames channels now later answer tick w
        (dispatch_enqueues bufs frames channels now answer live v
          (omega (arith, ap length empty_in)) fits)
        live.mapped u empty_in empty_out fits small keeps
