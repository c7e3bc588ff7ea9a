-- ===== src/Backends/Mock.antt =====
-- daemon/vulkan/vulkan_compute.cpp: the stand-in for the driver. `none` is undefined behaviour: a sample
-- past the end of the frame.
use linux_opensource_univers.Prelude.{
  ltb, if◌then◌else◌, update, Region, ℤ, u32_mod, ℕ, zero, suc, ◌+◌, ◌*◌, ◌%◌, Bool, true, Option,
  none, some,
}
use linux_opensource_univers.Floats.{Floats}

-- `struct dsp_vulkan_context`
pub record Context : Type 0 where
  pub device_id : ℤ

-- `dsp_vulkan_init`; `new` gives an object or throws.
unfoldable pub init : ℤ → Context
init device_index = record { device_id = device_index }

-- The handles that the calls below give, whatever they are asked
abbrev pub allocate_buffer : ℕ → ℕ
allocate_buffer size = 1

abbrev pub upload_buffer : ℕ → Bool
upload_buffer handle = true

abbrev pub import_shm : Option ℕ → ℕ
import_shm fd = 2

abbrev pub dispatch_zero_copy : ℕ → Bool
dispatch_zero_copy handle = true

module _ (fl : Floats) where
  open fl use {Float}

  -- `samples[i] *= gain`, `n` times from `i` on
  unfoldable pub scale : ℕ → ℕ → Float → Region Float → Option (Region Float)
  scale zero i gain r = some r
  scale (suc n) i gain r =
      if ltb i r.size
      then scale n (i + 1) gain (record r { cell = update r.cell i (fl.mul (r.cell i) gain) })
      else none

  -- `dsp_vulkan_dispatch`: the frames by the channels, in `uint32_t`, and true
  unfoldable pub dispatch : ℕ → ℕ → Float → Region Float → Option (Region Float)
  dispatch frame_count channel_count gain samples =
      scale ((frame_count * channel_count) % u32_mod) 0 gain samples
