-- ===== src/Plugin/Hardware.antt =====
-- clap/plugin_example/src/plugin.cpp: the outputs of a block that the hardware has processed.
use Prim.Native.Nat.{min}
use linux_opensource_univers.Prelude.{
  if_true, lt→ltb, length, take, drop, length-take_le, Region, pos, ℤ, to_int, ◌>>=◌, ℕ, ◌^◌, ◌≤◌,
  ◌<◌, ◌≡◌, refl, ap, ◌∙◌, Bool, true, Option, some, List, ◌∷◌, ◌++◌, arith,
}
use linux_opensource_univers.Floats.{Floats}
use linux_opensource_univers.Ring.Window.{IsValid, contents}
use linux_opensource_univers.Shm.{AudioFrame, queue_depth}
use linux_opensource_univers.Sdk.{Ctx, Session, signal}
use linux_opensource_univers.Sdk.Copy.{Fits, Returned}
use linux_opensource_univers.Sdk.Dispatch.{dispatch, read_output, watch, count_block, count_xrun}
use linux_opensource_univers.Sdk.Dispatch.Outcome.{counted}
use linux_opensource_univers.Sdk.Dispatch.Send.{Enqueued, watched}
use linux_opensource_univers.Sdk.Dispatch.Receive.{read_output_receives}
use linux_opensource_univers.Plugin.{
  Process, World, Outputs, read_back, sent, hardware, settle, process, first_port,
}

module _ (fl : Floats) where
  open fl use {Float}

  -- The pointers that the plugin hands to the SDK
  abbrev pub inputs_of : Process Float → List (Region Float)
  inputs_of p = take 8 (first_port p.inputs)

  to_int_small : (n : ℕ) → n < 2 ^ 31 → to_int n ≡ pos n
  to_int_small n h = if_true _ _ (lt→ltb n (2 ^ 31) h)

  mapped_still :
      (p : Process Float) (world : World Float) (s : Session fl) (c : Ctx fl)
      → c.mapped ≡ true
      → (counted world.answer (watched s c)).mapped ≡ true
  unfolding watch count_block count_xrun
  mapped_still p world s c h = ground arith

  read_back_lem :
      (frames : ℕ) (port : List (Region Float)) (ports : List (List (Region Float)))
      (world : World Float) (s : Session fl) (r : Session fl × List (Region Float) × Bool)
      → read_output s
          (take 8 port)
          (to_int frames)
          (pos (length (take 8 port)))
          world.ready
          world.later
        ≡ some r
      → read_back fl frames (port ∷ ports) world s ≡ some (r.0, (r.1 ++ drop 8 port) ∷ ports, r.2)
  unfolding read_back
  read_back_lem frames port ports world s r e = rw e

  abbrev after : Process Float → World Float → Option (Session fl × Bool) → Option (Outputs fl)
  after p world o = o >>= λ r. sent fl r.1 p world r.0

  process_done :
      (p : Process Float) (world : World Float) (s s' : Session fl)
      (outs : List (List (Region Float)))
      → hardware fl s.ctx p world s ≡ some (s', outs, true)
      → process fl p world s ≡ some (s', outs)
  unfolding process settle
  process_done p world s s' outs e = rw e

  -- The block has gone to the worker, which has answered by the frame `f`, the oldest in
  -- `out_queue`, before the plugin looks, and the output buffers have room for it: the plugin gets the samples of `f`, in as many channels of the
  -- first output port as `f` and the port have, at most eight. All else in the outputs is as the
  -- host left it, however many frames the block has: the samples after those of `f`, the channels
  -- after those of `f`, and the other ports, for which there is no fallback.
  pub hardware_outputs :
      (p : Process Float) (world : World Float) (s : Session fl) (c : Ctx fl)
      (e : Enqueued (inputs_of p) p.frames_count (length (inputs_of p)) world.now world.answer s c)
      (f : AudioFrame Float) (rest : List (AudioFrame Float)) (port : List (Region Float))
      (ports : List (List (Region Float)))
      → s.ctx ≡ some c
      → c.mapped ≡ true
      → p.frames_count < 2 ^ 31
      → p.outputs ≡ port ∷ ports
      → signal world.answer ≡ true
      → world.ready ≡ true
      → IsValid queue_depth (world.meanwhile e.shm).out_queue
      → contents queue_depth (world.meanwhile e.shm).out_queue ≡ f ∷ rest
      → f.frame_count ≤ 256
      → f.channel_count ≤ 8
      → Fits f.frame_count (min f.channel_count (length (take 8 port))) (take 8 port)
      → (s' : Session fl) × (outs : List (Region Float)) × (process fl p world s
          ≡ some (s', (outs ++ drop 8 port) ∷ ports))
        × Returned f.frame_count 0
            (min f.channel_count (length (take 8 port)))
            (take 8 port)
            outs
            f.samples
        × (contents queue_depth s'.shm.out_queue ≡ rest)
  unfolding hardware sent
  hardware_outputs p world s c e f rest port ports here mapped small outputs told ready valid oldest
        short narrow fits =
      let ptrs = take 8 port in
      let ins = inputs_of p in
      let c1 = counted world.answer (watched s c) in
      let s0 : Session fl = record { ctx = some c1; shm = e.shm } in
      let s1 : Session fl = record { ctx = some c1; shm = world.meanwhile e.shm } in
      let back =
        read_output_receives ptrs (to_int p.frames_count) (length ptrs) world.later s1 c1 refl
          (mapped_still p world s c mapped) f rest valid oldest
          (omega (arith, length-take_le {0} 8 port)) short narrow fits in
      let dispatched : dispatch s ins (to_int p.frames_count) (pos (length ins)) world.now
            world.answer
          ≡ some (s0, true) =
        ap (λ (z : ℤ). dispatch s ins z (pos (length ins)) world.now world.answer)
          (to_int_small p.frames_count small)
        ∙ e.runs
        ∙ ap (λ (b : Bool). some (s0, b)) told in
      let read = read_back_lem p.frames_count port ports world s1 _ (
        ap
          (λ (b : Bool).
            read_output s1 ptrs (to_int p.frames_count) (pos (length ptrs)) b world.later)
          ready
        ∙ back.runs) in
      (
        _,
        back.outs,
        process_done p world s _ _ (
            ap (λ (o : Option (Ctx fl)). hardware fl o p world s) here
            ∙ ap (after p world) dispatched
            ∙ ap (λ (o : List (List (Region Float))). read_back fl p.frames_count o world s1)
                outputs
            ∙ read),
        back.returned,
        back.left,
      )
