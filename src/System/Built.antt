-- ===== src/System/Built.antt =====
-- sdk/src/dsp_accel_sdk.cpp with daemon/worker_main.cpp and daemon/vulkan/vulkan_compute.cpp: the worker as
-- CMakeLists.txt builds it, with the stand-in for the driver, and what a plugin hears of its blocks.
use Prim.Native.Nat.{min}
use linux_opensource_univers.Prelude.{
  Region, u32_mod, ◌>>=◌, ℕ, ◌*◌, ◌≤◌, ◌<◌, ◌≡◌, refl, sym, ap, ap₂, ◌∙◌, Bool, Option, some, List,
  [], ◌∷◌, arith,
}
use linux_opensource_univers.Floats.{Floats}
use linux_opensource_univers.Ring.Window.{IsValid, contents}
use linux_opensource_univers.Shm.{AudioFrame, queue_depth}
use linux_opensource_univers.Sdk.{Ctx, Session, Answer}
use linux_opensource_univers.Sdk.Copy.{Fits, Returned}
use linux_opensource_univers.Sdk.Dispatch.Send.{Live}
use linux_opensource_univers.Worker.Loop.{Worker, Tick}
use linux_opensource_univers.Backends.Mock
use linux_opensource_univers.Backends.Vulkan.{Backend}
use linux_opensource_univers.Backends.Devices.{Device, Store, devices, process_device, stored}
use linux_opensource_univers.Backends.Gain.{Amplified}
use linux_opensource_univers.Backends.Played.{Outcome, stage_outcome}
use mathlib.Core.Path.{subst}
use linux_opensource_univers.System.Roundtrip.{Returns, block_comes_back}
use linux_opensource_univers.System.Single.{process_one, built-Keeps}
use linux_opensource_univers.System.Heard.{Heard, Heard_lem}

module _ (fl : Floats) where
  open fl use {Float}

  abbrev staged :
      Option (Backend Float × AudioFrame Float × Bool)
      → Option (Device Float × AudioFrame Float × Bool)
  staged o = o >>= λ r. some (Device.vulkan r.0, r.1, r.2)

  -- A node that runs the stand-in with no bypass amplifies a frame of the SDK's sizes.
  node_plays :
      (n : ℕ) (s : Store Float) (f : AudioFrame Float) (b : Backend Float) (ctx : Mock.Context)
      → s n ≡ Device.vulkan b
      → b.vk_ctx ≡ some ctx
      → b.shm_buffer_handle ≡ 0
      → f.frame_count ≤ 256
      → f.channel_count ≤ 8
      → Amplified fl b.gain f (stored fl n s f (process_device fl (s n) f)).1
  unfolding process_device
  node_plays n s f b ctx at context direct p q = elim (stage_outcome fl b f p q) [
    | Outcome.no_context none_is e ↦ absurd (cc (sym context ∙ none_is))
    | Outcome.untouched ctx' b' c bypass e same ↦ absurd (bypass direct)
    | Outcome.played ctx' b' f' c zero_is e same amplified on_cpu ↦
        subst (λ g. Amplified fl b.gain f g)
          (sym (
            ap (λ (d : Device Float). (stored fl n s f (process_device fl d f)).1) at
            ∙ ap
                (λ (r : Option (Backend Float × AudioFrame Float × Bool)).
                  (stored fl n s f (staged r)).1)
                e))
          amplified
  ]

  -- The worker's graph is its Vulkan node alone, over the stand-in for the driver; the node has its
  -- context and no bypass. A block that a live session dispatches through empty queues, from buffers
  -- with room for it, comes back with no fault. Of the samples that were dispatched, those whose
  -- place in the frame (256 to a channel) lies below the number of frames by the number of channels
  -- are multiplied by the node's gain. The others come back as they were sent: of two channels with
  -- at most 128 frames, the whole second one.
  pub block_amplified :
      (fd : Option ℕ) (bufs : List (Region Float)) (frames channels now later : ℕ) (answer : Answer)
      (tick : Tick) (w : Worker Float (Store Float)) (b : Backend Float) (ctx : Mock.Context)
      {s : Session fl} {c : Ctx fl}
      → w.graph.execution_order ≡ w.primary_node ∷ []
      → w.store w.primary_node ≡ Device.vulkan b
      → b.vk_ctx ≡ some ctx
      → b.shm_buffer_handle ≡ 0
      → Live s c
      → IsValid queue_depth s.shm.in_queue
      → IsValid queue_depth s.shm.out_queue
      → contents queue_depth s.shm.in_queue ≡ []
      → contents queue_depth s.shm.out_queue ≡ []
      → Fits (min frames 256) (min channels 8) bufs
      → channels < u32_mod
      → (r : Returns fl (devices fl fd) bufs frames channels now later answer tick w s c) × Heard fl
          (min frames 256)
          0
          (min channels 8)
          (min frames 256 * min channels 8)
          b.gain
          bufs
          r.outs
  block_amplified fd bufs frames channels now later answer tick w b ctx order at context direct live
        v u empty_in empty_out fits small =
      let r =
        block_comes_back fl (devices fl fd) bufs frames channels now later answer tick w live v u
          empty_in empty_out fits small (built-Keeps fl fd w order) in
      let block = r.sent.block in
      let w' : Worker Float (Store Float) = record w { shm = r.sent.shm } in
      let one = process_one (devices fl fd) w' r.sent.frame w.primary_node refl order in
      let amplified =
        node_plays w.primary_node w.store r.sent.frame b ctx at context direct
          (omega (arith, block.frame_count)) (omega (arith, block.channel_count)) in
      let heard =
        Heard_lem fl (min frames 256) 0 (min channels 8) b.gain bufs r.outs r.sent.frame _
          block.samples
          (subst (λ g. Returned (min frames 256) 0 (min channels 8) bufs r.outs g.samples) one
            r.processed)
          amplified in
      (
        r,
        subst (λ (t : ℕ). Heard fl (min frames 256) 0 (min channels 8) t b.gain bufs r.outs)
            (ap₂ ◌*◌ block.frame_count block.channel_count) heard,
      )
