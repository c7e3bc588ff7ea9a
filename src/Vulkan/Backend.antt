-- ===== src/Vulkan/Backend.antt =====
-- daemon/worker.cpp: `VulkanBackend`, the node that runs the frames of a worker on the GPU, over the
-- conversion `to_algo` of a value to `uint32_t`.
use linux_opensource_univers.Prelude.{
  ◌==◌, if◌then◌else◌, update, u32_mod, ℕ, ◌%◌, Bool, true, false, ◌&&◌, Option, none, some,
}
use linux_opensource_univers.Shm.{AudioFrame}
use linux_opensource_univers.Vulkan.{Context, Answers, allocate_buffer, import_shm}

-- `VulkanBackend`; `none` for the context is NULL, and `instance_states` is the map from an
-- instance to the handle of its state.
pub record Backend (F : Type 0) : Type 0 where
  pub gain : F
  pub threshold : F
  pub param1 : F
  pub param2 : F
  pub algo_id : ℕ
  pub instance_states : ℕ → Option ℕ
  pub vk_ctx : Option Context
  pub shm_buffer_handle : ℕ

-- What a dispatch is given: where the samples are (in the shared memory, as the buffer of a handle and
-- an offset, or in the frame itself), how many, and the parameters.
pub data Source : Type 0 where
  in_shm : ℕ → ℕ → Source
  in_frame : Source

pub record Dispatch (F : Type 0) : Type 0 where
  pub source : Source
  pub frames : ℕ
  pub channels : ℕ
  pub gain : F
  pub threshold : F
  pub param1 : F
  pub param2 : F
  pub algo : ℕ
  pub state_handle : ℕ

abbrev pub set_state : (ℕ → Option ℕ) → ℕ → ℕ → ℕ → Option ℕ
set_state states i h = update states i (some h)

-- A buffer of a handle must be one; `submitted` is what `vkQueueSubmit` answers.
abbrev pub accepted : Context → Bool → Source → Bool
accepted ctx submitted Source.in_frame = submitted
accepted ctx submitted (Source.in_shm h offset) = (ctx.user_buffers h).active && submitted

module _ {F : Type 0} where
  -- The instance's state: of 1024 bytes, allocated when the instance is first seen.
  unfoldable pub state_on : Option ℕ → Answers → ℕ → Context → Backend F → Backend F × Context × ℕ
  state_on (some h) answers i ctx b = (b, ctx, h)
  state_on none answers i ctx b =
      let (ctx', h) = allocate_buffer answers 1024 ctx in
      (record b { vk_ctx = some ctx'; instance_states = set_state b.instance_states i h }, ctx', h)

  unfoldable pub state_of : Answers → ℕ → Context → Backend F → Backend F × Context × ℕ
  state_of answers i ctx b = state_on (b.instance_states i) answers i ctx b

  -- `offset` is how far the frame is from the start of the shared memory.
  abbrev pub source_of : ℕ → Backend F → Source
  source_of offset b =
      if b.shm_buffer_handle == 0
      then Source.in_frame
      else Source.in_shm b.shm_buffer_handle (offset % u32_mod)

  abbrev pub dispatch_of : ℕ → AudioFrame F → ℕ → Backend F → Dispatch F
  dispatch_of offset frame state b = record {
    source = source_of offset b;
    frames = frame.frame_count;
    channels = frame.channel_count;
    gain = b.gain;
    threshold = b.threshold;
    param1 = b.param1;
    param2 = b.param2;
    algo = b.algo_id;
    state_handle = state;
  }

  -- `process_stage`: what it dispatches, if anything, and what it returns.
  unfoldable pub process_on :
      Option Context
      → Answers
      → Bool
      → ℕ
      → AudioFrame F
      → Backend F
      → Backend F × Option (Dispatch F) × Bool
  process_on none answers submitted offset frame b = (b, none, false)
  process_on (some ctx) answers submitted offset frame b =
      let (b', ctx', h) = state_of answers frame.instance_id ctx b in
      (b', some (dispatch_of offset frame h b'), accepted ctx' submitted (source_of offset b'))

  unfoldable pub process_stage :
      Answers → Bool → ℕ → AudioFrame F → Backend F → Backend F × Option (Dispatch F) × Bool
  process_stage answers submitted offset frame b =
      process_on b.vk_ctx answers submitted offset frame b

  unfoldable pub apply_control_event : (F → ℕ) → ℕ → F → Backend F → Backend F
  apply_control_event to_algo param_id value b =
      if param_id == 1
      then record b { gain = value }
      else if param_id == 2
      then record b { threshold = value }
      else if param_id == 3
      then record b { param1 = value }
      else if param_id == 4
      then record b { param2 = value }
      else if param_id == 5
      then record b { algo_id = to_algo value }
      else b

  -- The context's calls, each of which does nothing without one
  unfoldable pub allocate_on : Option Context → Answers → ℕ → Backend F → Backend F × ℕ
  allocate_on none answers size b = (b, 0)
  allocate_on (some ctx) answers size b =
      let (ctx', h) = allocate_buffer answers size ctx in (record b { vk_ctx = some ctx' }, h)

  unfoldable pub allocate : Answers → ℕ → Backend F → Backend F × ℕ
  allocate answers size b = allocate_on b.vk_ctx answers size b

  unfoldable pub import_on : Option Context → Answers → ℕ → ℕ → Backend F → Backend F
  import_on none answers fd size b = record b { shm_buffer_handle = 0 }
  import_on (some ctx) answers fd size b =
      let (ctx', h) = import_shm answers (some fd) size ctx in
      record b { vk_ctx = some ctx'; shm_buffer_handle = h }

  -- `set_zero_copy_bypass`; `none` is a negative descriptor.
  unfoldable pub set_zero_copy_bypass : Answers → Bool → Option ℕ → ℕ → Backend F → Backend F
  set_zero_copy_bypass answers true (some fd) size b = import_on b.vk_ctx answers fd size b
  set_zero_copy_bypass answers _ _ size b = record b { shm_buffer_handle = 0 }
