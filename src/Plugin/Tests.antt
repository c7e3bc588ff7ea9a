-- ===== src/Plugin/Tests.antt =====
-- The CLAP plugin and the bridges on concrete blocks.
use linux_opensource_univers.Prelude.{
  get_elem?, Region, ℕ, ◌+◌, ◌*◌, ◌/◌, ◌<◌, ◌≡◌, refl, ◌≢◌, true, false, Option, none, some, List,
  [], ◌∷◌, ◌++◌, arith,
}
use linux_opensource_univers.Floats.{naturals}
use linux_opensource_univers.Shm.{AudioFrame, SharedMemory, channel_stride, queue_depth}
use linux_opensource_univers.Ring.Window.{contents}
use linux_opensource_univers.Sdk.{Answer, signal, Session}
use linux_opensource_univers.Sdk.Sample.{ctx, session, calm, frame}
use linux_opensource_univers.Sdk.Copy.{Returned}
use linux_opensource_univers.Sdk.Dispatch.{watch}
use linux_opensource_univers.Sdk.Dispatch.Outcome.{counted}
use linux_opensource_univers.Sdk.Dispatch.Send.{Live, Enqueued, watched, dispatch_enqueues}
use linux_opensource_univers.Plugin.{
  Process, World, first_port, hardware, process, fall_back, fill_channels, fill, sample, put,
}
use linux_opensource_univers.Plugin.Fallback.{Processed, block_outcome}
use linux_opensource_univers.Plugin.Hardware.{hardware_outputs}
use linux_opensource_univers.Plugin.Bridges.{lv2_dispatch, lv2_sends_output}
use linux_opensource_univers.Plugin.Lifecycle.{
  Instance, Phase, Step, Reach, create_plugin, plugin_init, plugin_activate, plugin_deactivate,
  plugin_destroy, release, contexts_released, held,
}

abbrev buffer : ℕ → Region ℕ
buffer v = record { size = 512; cell = λ i. v + i }

-- A block of 300 frames, with two channels in and three out
abbrev block : Process ℕ
block = record {
  frames_count = 300;
  inputs = (buffer 10 ∷ buffer 20 ∷ []) ∷ [];
  outputs = (buffer 1 ∷ buffer 2 ∷ buffer 3 ∷ []) ∷ [];
}

-- The worker answers with one frame of two samples on one channel.
abbrev world : World ℕ
world = record {
  now = 7;
  answer = Answer.written;
  meanwhile = λ shm. calm 0 1;
  ready = true;
  later = 20;
}

abbrev alone : Session naturals
alone = record { ctx = none; shm = calm 0 0 }

no_hardware : hardware naturals none block world alone ≡ some (alone, block.outputs, false)
unfolding hardware
no_hardware = refl

block_outcome_example :
    (outs' : List (List (Region ℕ))) × (process naturals block world alone ≡ some (alone, outs'))
    × Processed naturals block (block.outputs) false outs'
block_outcome_example =
    block_outcome naturals block world alone false block.outputs alone no_hardware (omega arith)
      (omega arith)

-- Two samples of the input, halved, and silence on the second channel
abbrev heard : Option (List (List (Region ℕ))) → ℕ → ℕ → Option ℕ
heard none c k = none
heard (some ports) c k = elim (get_elem? (first_port ports) c) [
  | none ↦ none
  | some r ↦ some (r.cell k)
]

halves :
    (heard (fall_back naturals 2 ((buffer 10 ∷ []) ∷ []) ((buffer 1 ∷ buffer 2 ∷ []) ∷ [])) 0 1
      ≡ some (11 * (1 / 2)))
    × (heard (fall_back naturals 2 ((buffer 10 ∷ []) ∷ []) ((buffer 1 ∷ buffer 2 ∷ []) ∷ [])) 1 1
        ≡ some 0)
    × (heard (fall_back naturals 2 ((buffer 10 ∷ []) ∷ []) ((buffer 1 ∷ buffer 2 ∷ []) ∷ [])) 1 2
        ≡ some 4)
unfolding fall_back fill_channels fill sample put
halves = (refl, refl, refl)

live : Live (session 2 (calm 0 0)) (ctx 2 0)
unfolding watch
live = record { here = refl; mapped = refl; quiet = refl; awake = omega arith }

gone_out :
    Enqueued (buffer 10 ∷ buffer 20 ∷ []) 300 2 7 Answer.written (session 2 (calm 0 0)) (ctx 2 0)
gone_out =
    dispatch_enqueues (buffer 10 ∷ buffer 20 ∷ []) 300 2 7 Answer.written live (omega arith)
      (omega arith) (omega arith)

told : signal Answer.written ≡ true
unfolding signal
told = refl

hardware_outputs_example :
    (s' : Session naturals) × (outs : List (Region ℕ)) × (process naturals block world
        (session 2 (calm 0 0))
      ≡ some (s', (outs ++ []) ∷ []))
    × Returned 2 0 1 (buffer 1 ∷ buffer 2 ∷ buffer 3 ∷ []) outs frame.samples
    × (contents queue_depth s'.shm.out_queue ≡ [])
hardware_outputs_example =
    hardware_outputs naturals block world (session 2 (calm 0 0)) (ctx 2 0) gone_out frame []
      (buffer 1 ∷ buffer 2 ∷ buffer 3 ∷ []) [] refl refl (omega arith) refl told refl (omega arith)
      refl (omega arith) (omega arith) (omega arith, tt)

lv2_sends_output_test :
    (shm : SharedMemory ℕ) × (f : AudioFrame ℕ) × (lv2_dispatch naturals
        (session 2 (calm 0 0))
        (buffer 10)
        (buffer 20)
        64
        7
        Answer.written
      ≡ some (
        record {
          ctx = some (counted Answer.written (watched (session 2 (calm 0 0)) (ctx 2 0)));
          shm = shm;
        },
        signal Answer.written,
      ))
    × (contents queue_depth shm.in_queue ≡ f ∷ [])
    × (f.channel_count ≡ 2)
    × ((k : ℕ) → k < 64 → (f.samples k ≡ 10 + k) × (f.samples (channel_stride + k) ≡ 20 + k))
    × (shm.out_queue ≡ (calm 0 0).out_queue)
lv2_sends_output_test =
    lv2_sends_output naturals (buffer 10) (buffer 20) 64 7 Answer.written live (omega arith)
      (omega arith) (omega arith) (omega arith) (omega arith)

abbrev fresh : Instance
fresh = record {
  sdk_ctx = none;
  host_dsp_accel = none;
  connected = [];
  disconnected = [];
  latency_changes = 0;
}

made : create_plugin true ≡ some fresh
unfolding create_plugin
made = refl

-- Activated twice, and destroyed while it is active
abbrev last : Instance
last = plugin_destroy (
    plugin_activate (some 9) true
      (plugin_deactivate (plugin_activate (some 8) true (plugin_init none fresh))))

run : Reach fresh Phase.destroyed last
run =
    Reach.next
      (Reach.next
        (Reach.next
          (Reach.next (Reach.next Reach.here (Step.init none)) (Step.activate (some 8) true))
          Step.deactivate)
        (Step.activate (some 9) true))
      (Step.destroy (λ e. cc))

contexts_released_example :
    (last.connected ≡ last.disconnected ++ held last.sdk_ctx)
    × (Phase.destroyed ≢ Phase.active → last.connected ≡ last.disconnected)
contexts_released_example = contexts_released made run

last_contexts : last.disconnected ≡ 8 ∷ 9 ∷ []
unfolding plugin_init plugin_activate plugin_deactivate plugin_destroy release
last_contexts = refl
