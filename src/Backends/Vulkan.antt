-- ===== src/Backends/Vulkan.antt =====
-- daemon/worker_main.cpp: `VulkanBackend`, linked to the stand-in for the driver.
use linux_opensource_univers.Prelude.{
  ◌==◌, if◌then◌else◌, update, ℤ, ◌>>=◌, ℕ, zero, suc, Bool, true, false, Option, none, some,
}
use linux_opensource_univers.Floats.{Floats}
use linux_opensource_univers.Shm.{AudioFrame, ControlEvent, sample_region}
use linux_opensource_univers.Backends.Mock

-- The members; `vk_ctx` is NULL before `init`, and `instance_states` is the map from an instance to the
-- handle of its state.
pub record Backend (F : Type 0) : Type 0 where
  pub gain : F
  pub threshold : F
  pub param1 : F
  pub param2 : F
  pub algo_id : ℕ
  pub instance_states : ℕ → Option ℕ
  pub vk_ctx : Option Mock.Context
  pub shm_buffer_handle : ℕ

-- The buffers of an instance, allocated when it is first seen
abbrev pub state_entry : Option ℕ → Option ℕ
state_entry none = some (Mock.allocate_buffer 1024)
state_entry (some h) = some h

module _ (fl : Floats) where
  open fl use {Float}

  -- `VulkanBackend()`
  abbrev pub constructed : Backend Float
  constructed = record {
    gain = fl.literal 1 1;
    threshold = fl.literal 95 100;
    param1 = fl.literal 1 2;
    param2 = fl.literal 1 2;
    algo_id = 0;
    instance_states = λ i. none;
    vk_ctx = none;
    shm_buffer_handle = 0;
  }

  unfoldable pub init : ℤ → Backend Float → Backend Float × Bool
  init device_index b = (record b { vk_ctx = some (Mock.init device_index) }, true)

  -- What a dispatch leaves in the frame: the imported memory is not touched.
  unfoldable pub dispatched : ℕ → Float → AudioFrame Float → Option (AudioFrame Float)
  dispatched zero gain frame = do
    out ← Mock.dispatch fl frame.frame_count frame.channel_count gain (sample_region frame)
    some (record frame { samples = out.cell })
  dispatched (suc handle) gain frame = some frame

  -- By the context; the result is true whenever there is one.
  unfoldable pub process_on :
      Option Mock.Context
      → Backend Float
      → AudioFrame Float
      → Option (Backend Float × AudioFrame Float × Bool)
  process_on none b frame = some (b, frame, false)
  process_on (some ctx) b frame = do
    let i = frame.instance_id
    let states = update b.instance_states i (state_entry (b.instance_states i))
    f ← dispatched b.shm_buffer_handle b.gain frame
    some (record b { instance_states = states }, f, true)

  unfoldable pub process_stage :
      Backend Float → AudioFrame Float → Option (Backend Float × AudioFrame Float × Bool)
  process_stage b frame = process_on b.vk_ctx b frame

  unfoldable pub apply_control_event : ControlEvent Float → Backend Float → Backend Float
  apply_control_event e b =
      if e.parameter_id == 1
      then record b { gain = e.value }
      else if e.parameter_id == 2
      then record b { threshold = e.value }
      else if e.parameter_id == 3
      then record b { param1 = e.value }
      else if e.parameter_id == 4
      then record b { param2 = e.value }
      else if e.parameter_id == 5
      then record b { algo_id = fl.u32_of e.value }
      else b

  -- `none` is a descriptor below 0.
  unfoldable pub set_zero_copy_bypass : Bool → Option ℕ → Backend Float → Backend Float
  set_zero_copy_bypass true (some fd) b = record b { shm_buffer_handle = Mock.import_shm (some fd) }
  set_zero_copy_bypass true none b = record b { shm_buffer_handle = 0 }
  set_zero_copy_bypass false fd b = record b { shm_buffer_handle = 0 }
