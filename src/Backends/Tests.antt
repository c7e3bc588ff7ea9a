-- ===== src/Backends/Tests.antt =====
-- The backends on concrete frames, with natural numbers for samples.
use linux_opensource_univers.Prelude.{pos, ℕ, ◌+◌, ◌≡◌, refl, true, Option, none, some, arith}
use linux_opensource_univers.Floats.{naturals}
use linux_opensource_univers.Shm.{AudioFrame}
use linux_opensource_univers.Backends.Vulkan
use linux_opensource_univers.Backends.Vulkan.{Backend}
use linux_opensource_univers.Backends.Npu
use linux_opensource_univers.Backends.Played.{Outcome, stage_outcome}
use linux_opensource_univers.Backends.Parallel.{apply_gain_parallel, gain_from}
use linux_opensource_univers.Backends.Devices.{Device, process_device}

abbrev stereo : AudioFrame ℕ
stereo = record {
  instance_id = 4;
  frame_count = 3;
  channel_count = 2;
  timestamp_ns = 9;
  samples = λ i. i + 10;
}

-- Started, with the gain that an event has set
abbrev started : Backend ℕ
started =
    (Vulkan.init naturals (pos 0) (
      Vulkan.apply_control_event naturals (record { parameter_id = 1; value = 7 })
        (Vulkan.constructed naturals))).0

abbrev sample_of : Option (AudioFrame ℕ) → ℕ → Option ℕ
sample_of none i = none
sample_of (some f) i = some (f.samples i)

-- Six samples from the start of the array are multiplied, none of which is on the second channel.
cpu_gain :
    (sample_of (apply_gain_parallel naturals stereo 7) 2 ≡ some 84)
    × (sample_of (apply_gain_parallel naturals stereo 7) 5 ≡ some 105)
    × (sample_of (apply_gain_parallel naturals stereo 7) 6 ≡ some 16)
    × (sample_of (apply_gain_parallel naturals stereo 7) 256 ≡ some 266)
unfolding apply_gain_parallel gain_from
cpu_gain = (refl, refl, refl, refl)

npu_hands_on :
    process_device naturals (Device.npu (record { device_id = some (pos 0) })) stereo
    ≡ some (Device.npu (record { device_id = some (pos 0) }), stereo, true)
unfolding process_device Npu.process_stage
npu_hands_on = refl

stage_outcome_example :
    Outcome naturals started stereo (Vulkan.process_stage naturals started stereo)
stage_outcome_example = stage_outcome naturals started stereo (omega arith) (omega arith)
