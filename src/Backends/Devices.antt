-- ===== src/Backends/Devices.antt =====
-- daemon/worker_main.cpp: the node that `main` makes by `--type`, behind the interface `IDspNode` of
-- daemon/compute_backend.hpp.
use linux_opensource_univers.Prelude.{update, ◌>>=◌, ℕ, Bool, true, false, Option, none, some}
use linux_opensource_univers.Floats.{Floats}
use linux_opensource_univers.Shm.{AudioFrame, ControlEvent}
use linux_opensource_univers.Worker.{Nodes}
use linux_opensource_univers.Backends.Mock
use linux_opensource_univers.Backends.Vulkan
use linux_opensource_univers.Backends.Npu

-- A node, or what is left of one that has run past the end of an array, of which nothing is known
pub data Device (F : Type 0) : Type 0 where
  vulkan : Vulkan.Backend F → Device F
  npu : Npu.Backend → Device F
  faulted : Device F

abbrev pub Store : Type 0 → Type 0
Store F = ℕ → Device F

module _ (fl : Floats) where
  open fl use {Float}

  -- The virtual calls, by the class of the object
  unfoldable pub process_device :
      Device Float → AudioFrame Float → Option (Device Float × AudioFrame Float × Bool)
  process_device (Device.vulkan b) f = do
    r ← Vulkan.process_stage fl b f
    some (Device.vulkan r.0, r.1, r.2)
  process_device (Device.npu b) f = let r = Npu.process_stage b f in some (Device.npu r.0, r.1, r.2)
  process_device Device.faulted f = none

  unfoldable pub control_device : Device Float → ControlEvent Float → Device Float
  control_device (Device.vulkan b) e = Device.vulkan (Vulkan.apply_control_event fl e b)
  control_device (Device.npu b) e = Device.npu b
  control_device Device.faulted e = Device.faulted

  unfoldable pub allocate_device : Device Float → ℕ → ℕ
  allocate_device (Device.vulkan b) size = Mock.allocate_buffer size
  allocate_device (Device.npu b) size = Npu.allocate_buffer size
  allocate_device Device.faulted size = 0

  unfoldable pub upload_device : Device Float → ℕ → Bool
  upload_device (Device.vulkan b) handle = Mock.upload_buffer handle
  upload_device (Device.npu b) handle = Npu.upload_buffer handle
  upload_device Device.faulted handle = false

  unfoldable pub bypass_device : Option ℕ → Bool → Device Float → Device Float
  bypass_device fd enabled (Device.vulkan b) =
      Device.vulkan (Vulkan.set_zero_copy_bypass fl enabled fd b)
  bypass_device fd enabled (Device.npu b) = Device.npu b
  bypass_device fd enabled Device.faulted = Device.faulted

  -- A dispatch past the end of the frame is undefined. `Nodes` has no answer that says so: the node is
  -- then marked in the store as one of which nothing is known any more, and never succeeds again.
  abbrev pub stored :
      ℕ
      → Store Float
      → AudioFrame Float
      → Option (Device Float × AudioFrame Float × Bool)
      → Store Float × AudioFrame Float × Bool
  stored n s f none = (update s n Device.faulted, f, false)
  stored n s f (some (d, f', ok)) = (update s n d, f', ok)

  -- The interface, with the descriptor of the shared memory that `main` hands to the bypass
  abbrev pub devices : Option ℕ → Nodes Float (Store Float)
  devices fd = record {
    process_stage = λ n s f. stored n s f (process_device (s n) f);
    supports_staging = λ n. true;
    apply_control_event = λ n s e. update s n (control_device (s n) e);
    allocate_buffer = λ n s size. (s, allocate_device (s n) size);
    upload_buffer = λ n s handle offset size. (s, upload_device (s n) handle);
    free_buffer = λ n s handle. s;
    set_zero_copy_bypass = λ n s on. update s n (bypass_device fd on (s n));
  }
