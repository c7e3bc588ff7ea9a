-- ===== src/Backends/Npu.antt =====
-- daemon/npu_array_backend.hpp: `NpuArrayBackend`, which hands each frame on as it is.
use linux_opensource_univers.Prelude.{ℤ, ℕ, Bool, true, false, Option, some}
use linux_opensource_univers.Shm.{AudioFrame}

-- `device_id_`, which has no value before `init`
pub record Backend : Type 0 where
  pub device_id : Option ℤ

unfoldable pub init : ℤ → Backend → Backend × Bool
init device_index b = (record b { device_id = some device_index }, true)

unfoldable pub process_stage : {F : Type 0} → Backend → AudioFrame F → Backend × AudioFrame F × Bool
process_stage b frame = (b, frame, true)

-- A handle of 0 is a failure.
abbrev pub allocate_buffer : ℕ → ℕ
allocate_buffer size = 0

abbrev pub upload_buffer : ℕ → Bool
upload_buffer handle = false
