-- ===== src/Vulkan/Commands.antt =====
-- daemon/vulkan/vulkan_compute.c: the commands of a dispatch. `none` is undefined behaviour: a handle outside
-- the pool, an object that the driver has not given, or one that is destroyed while the GPU uses it.
use linux_opensource_univers.Prelude.{
  leb, if◌then◌else◌, u32_mod, ◌>>=◌, ℕ, ◌+◌, ◌*◌, ◌/◌, ◌%◌, Bool, true, false, not, ◌&&◌, Option,
  none, some,
}
use linux_opensource_univers.Vulkan.{Context, pool_size}

-- What the driver answers: whether there is a command buffer and a fence, whether the queue takes the
-- commands, and whether it is done with them within the 2 ms of the wait
pub record Queue : Type 0 where
  pub gives_commands : Bool
  pub gives_fence : Bool
  pub submits : Bool
  pub done_in_time : Bool

-- The commands: how many groups of 64 run, and the push constants as floats
pub record Commands (F : Type 0) : Type 0 where
  pub groups : ℕ
  pub frames : ℕ
  pub gain : F
  pub threshold : F
  pub p1 : F
  pub p2 : F
  pub algo : ℕ

-- `VkDescriptorBufferInfo` for the audio and for the state
pub record Descriptors : Type 0 where
  pub audio_buffer : ℕ
  pub audio_offset : ℕ
  pub audio_range : ℕ
  pub state_buffer : ℕ
  pub state_range : ℕ

-- `frames * channels` in `uint32_t`
abbrev pub total_samples : ℕ → ℕ → ℕ
total_samples frames channels = (frames * channels) % u32_mod

-- `(total_samples + 63) / 64`
abbrev pub groups_of : ℕ → ℕ
groups_of total = (total + 63) % u32_mod / 64

-- The members of the two descriptors, and how they are told to the driver
unfoldable pub descriptors_of : Context → ℕ → ℕ → ℕ → ℕ → ℕ → Descriptors
descriptors_of ctx handle offset frames channels state = record {
  audio_buffer = (ctx.user_buffers handle).buffer;
  audio_offset = offset;
  audio_range = total_samples frames channels * 4;
  state_buffer = (ctx.user_buffers state).buffer;
  state_range = (ctx.user_buffers state).size;
}

module _ {F : Type 0} where
  unfoldable pub commands_of : ℕ → ℕ → F → F → F → F → ℕ → Commands F
  commands_of frames channels gain threshold p1 p2 algo = record {
    groups = groups_of (total_samples frames channels);
    frames = frames;
    gain = gain;
    threshold = threshold;
    p1 = p1;
    p2 = p2;
    algo = algo;
  }

  -- From the submission on: what runs, and the result
  unfoldable pub submit : Queue → Commands F → Option (Option (Commands F) × Bool)
  submit q commands =
      if not q.submits
      then some (none, false)
      else if not q.done_in_time
      then none
      else some (some commands, true)

  -- `dsp_vulkan_dispatch`, by the context
  unfoldable pub dispatch :
      Option Context → Queue → Commands F → Option (Option (Commands F) × Bool)
  dispatch none q commands = some (none, false)
  dispatch (some ctx) q commands =
      if not (q.gives_commands && q.gives_fence) then none else submit q commands

  -- `dsp_vulkan_dispatch_zero_copy`: the descriptors that it writes, what runs, and the result
  unfoldable pub dispatch_at :
      Context
      → Queue
      → Descriptors
      → Commands F
      → Option (Option Descriptors × Option (Commands F) × Bool)
  dispatch_at ctx q d commands = do r ← dispatch (some ctx) q commands; some (some d, r.0, r.1)

  unfoldable pub dispatch_zero_copy :
      Option Context
      → Queue
      → ℕ
      → ℕ
      → ℕ
      → ℕ
      → ℕ
      → Commands F
      → Option (Option Descriptors × Option (Commands F) × Bool)
  dispatch_zero_copy none q handle offset frames channels state commands = some (none, none, false)
  dispatch_zero_copy (some ctx) q handle offset frames channels state commands =
      if leb pool_size handle
      then none
      else if not (ctx.user_buffers handle).active
      then some (none, none, false)
      else if leb pool_size state
      then none
      else dispatch_at ctx q (descriptors_of ctx handle offset frames channels state) commands
