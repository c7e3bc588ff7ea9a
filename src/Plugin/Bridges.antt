-- ===== src/Plugin/Bridges.antt =====
-- clap/wrappers/lv2/lv2_bridge.h and clap/wrappers/vst3/vst3_bridge.h: the calls that other plugin formats
-- make of the SDK.
use Prim.Native.Nat.{min}
use linux_opensource_univers.Prelude.{
  if_true, lt→ltb, length, Region, pos, ℤ, to_int, ℕ, ◌+◌, ◌^◌, ◌≤◌, ◌<◌, ◌≡◌, refl, ap, ◌∙◌, Bool,
  true, false, Option, none, some, List, [], ◌∷◌, ◌++◌, arith,
}
use linux_opensource_univers.Floats.{Floats}
use linux_opensource_univers.Ring.Window.{IsValid, contents}
use linux_opensource_univers.Shm.{AudioFrame, SharedMemory, queue_depth, channel_stride}
use linux_opensource_univers.Sdk.{Ctx, Session, Answer, signal}
use linux_opensource_univers.Sdk.Dispatch.{dispatch}
use linux_opensource_univers.Sdk.Dispatch.Outcome.{counted}
use linux_opensource_univers.Sdk.Dispatch.Send.{Live, watched, dispatch_enqueues}
use linux_opensource_univers.Sdk.Requests.{get_latency_samples}

-- `DspAccel::Vst3Bridge`, with the contexts that it has got and those that it has given back
pub record Vst3Bridge : Type 0 where
  pub sdk_ctx : Option ℕ
  pub connected : List ℕ
  pub disconnected : List ℕ

unfoldable pub vst3_connect : Option ℕ → Vst3Bridge → Vst3Bridge × Bool
vst3_connect none b = (record b { sdk_ctx = none }, false)
vst3_connect (some c) b = (record b { sdk_ctx = some c; connected = b.connected ++ c ∷ [] }, true)

-- `~Vst3Bridge()`
unfoldable pub vst3_release : Option ℕ → Vst3Bridge → Vst3Bridge
vst3_release none b = b
vst3_release (some c) b = record b { disconnected = b.disconnected ++ c ∷ [] }

unfoldable pub vst3_destroy : Vst3Bridge → Vst3Bridge
vst3_destroy b = vst3_release b.sdk_ctx b

-- A second `connect` loses the context of the first.
vst3_loses :
    (c d : ℕ) (b : Vst3Bridge)
    → b.disconnected ≡ b.connected
    → (let b' = vst3_destroy (vst3_connect (some d) (vst3_connect (some c) b).0).0 in
        (b'.connected ≡ (b.connected ++ c ∷ []) ++ d ∷ [])
        × (b'.disconnected ≡ b.connected ++ d ∷ []))
unfolding vst3_destroy vst3_connect vst3_release
vst3_loses c d b e = (refl, ap (λ (l : List ℕ). l ++ d ∷ []) e)

module _ (fl : Floats) where
  open fl use {Float}

  -- `Vst3Bridge::dispatch`; the session holds what `sdk_ctx_` points to.
  unfoldable pub vst3_dispatch :
      Session fl → List (Region Float) → ℤ → ℤ → ℕ → Answer → Option (Session fl × Bool)
  vst3_dispatch s bufs samples channels now answer = elim (s.ctx) [
    | none ↦ some (s, false)
    | some c ↦ dispatch s bufs samples channels now answer
  ]

  unfoldable pub vst3_latency : Session fl → ℕ
  vst3_latency s = elim (s.ctx) [ none ↦ 0 | some c ↦ get_latency_samples s ]

  -- `dsp_accel_lv2_dispatch`: `float* bufs[2] = {in, out}`
  unfoldable pub lv2_dispatch :
      Session fl → Region Float → Region Float → ℕ → ℕ → Answer → Option (Session fl × Bool)
  lv2_dispatch s input output samples now answer =
      dispatch s (input ∷ output ∷ []) (to_int samples) (pos 2) now answer

  unfoldable pub lv2_latency : Session fl → ℕ
  lv2_latency s = get_latency_samples s

  -- On a live session with room, a call of the LV2 bridge sends a frame of two channels: the input, and
  -- what the output buffer held before. It takes nothing out of `out_queue`, and so the plugin's
  -- output is never what the worker made of the input.
  pub lv2_sends_output :
      (input output : Region Float) (samples now : ℕ) (answer : Answer) {s : Session fl}
      {c : Ctx fl}
      → Live s c
      → IsValid queue_depth s.shm.in_queue
      → length (contents queue_depth s.shm.in_queue) + 1 < queue_depth
      → samples < 2 ^ 31
      → min samples 256 ≤ input.size
      → min samples 256 ≤ output.size
      → (shm : SharedMemory Float) × (f : AudioFrame Float) × (lv2_dispatch s input output samples
            now answer
          ≡ some (record { ctx = some (counted answer (watched s c)); shm = shm }, signal answer))
        × (contents queue_depth shm.in_queue ≡ contents queue_depth s.shm.in_queue ++ f ∷ [])
        × (f.channel_count ≡ 2)
        × ((k : ℕ)
            → k < min samples 256
            → (f.samples k ≡ input.cell k) × (f.samples (channel_stride + k) ≡ output.cell k))
        × (shm.out_queue ≡ s.shm.out_queue)
  unfolding lv2_dispatch
  lv2_sends_output input output samples now answer {s} live valid room small fits_in fits_out =
      let e =
        dispatch_enqueues (input ∷ output ∷ []) samples 2 now answer live valid room
          (fits_in, (fits_out, tt)) in
      let holds = (e.block).samples in
      (
        e.shm,
        e.frame,
        ap (λ (z : ℤ). dispatch s (input ∷ output ∷ []) z (pos 2) now answer)
              (if_true _ _ (lt→ltb samples (2 ^ 31) small))
            ∙ e.runs,
        e.appended,
        (e.block).channel_count,
        λ k h. (
          ap e.frame.samples (omega arith) ∙ holds.0 k h,
          ap e.frame.samples (omega arith) ∙ holds.1.0 k h,
        ),
        ap (λ (m : SharedMemory Float). m.out_queue) e.rest,
      )
