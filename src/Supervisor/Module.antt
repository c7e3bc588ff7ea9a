-- ===== src/Supervisor/Module.antt =====
-- daemon/pipewire/module-dsp-accel.cpp: loading the module, by `pipewire__module_init`, and `module_destroy`.
use linux_opensource_univers.Prelude.{
  if◌then◌else◌, ℕ, zero, suc, ◌+◌, Bool, true, false, not, Option, none, some, List, [], ◌∷◌, ◌++◌,
}
use linux_opensource_univers.Sdk.{Fd}
use linux_opensource_univers.Sdk.Connect.{safe_close}
use linux_opensource_univers.Supervisor.{ComputeNode, Spawn, fresh, spawn_worker, destroyed}

-- What the host gives: memory for the module and for its nodes, the socket, whether the address can
-- be bound and else the error, and what it gives to the start of each worker
pub record Host (F : Type 0) : Type 0 where
  pub allocates : Bool
  pub allocates_nodes : Bool
  pub socket : Fd
  pub binds : Bool
  pub error : ℕ
  pub spawns : ℕ → Spawn F

-- `struct module_dsp_accel_data`: `listening` says that plugins can connect.
pub record Module (F : Type 0) : Type 0 where
  pub server_fd : Fd
  pub listening : Bool
  pub compute_nodes : List (ComputeNode F)

-- The module is not loaded, with an error and what was closed; or it is.
pub data Loaded (F : Type 0) : Type 0 where
  failed : ℕ → List ℕ → Loaded F
  loaded : Module F → Loaded F

-- `-ENOMEM`
abbrev pub enomem : ℕ
enomem = 12

-- Vulkan, NPU and DSP
abbrev pub num_compute_nodes : ℕ
num_compute_nodes = 3

module _ {F : Type 0} where
  -- The loop that starts the workers, `n` of them from `i` on
  unfoldable pub spawn_all : (ℕ → Spawn F) → ℕ → ℕ → List (ComputeNode F)
  spawn_all spawns i zero = []
  spawn_all spawns i (suc n) = spawn_worker (spawns i) (fresh i) ∷ spawn_all spawns (i + 1) n

  -- From the listener on; without memory for the nodes the first is written through NULL.
  unfoldable pub start_workers : Host F → Fd → Bool → Option (Loaded F)
  start_workers h server_fd listening =
      if not h.allocates_nodes
      then none
      else some (
          Loaded.loaded record {
            server_fd = server_fd;
            listening = listening;
            compute_nodes = spawn_all h.spawns 0 num_compute_nodes;
          })

  -- By the socket: without one the module goes on.
  unfoldable pub set_up : Fd → Host F → Option (Loaded F)
  set_up none h = start_workers h none false
  set_up (some fd) h =
      if h.binds then start_workers h (some fd) true else some (Loaded.failed h.error (fd ∷ []))

  -- `pipewire__module_init`; `none` is undefined behaviour.
  unfoldable pub init : Host F → Option (Loaded F)
  init h = if not h.allocates then some (Loaded.failed enomem []) else set_up h.socket h

  -- `module_destroy`: the descriptors that it closes
  unfoldable pub destroy : Module F → List ℕ
  destroy m = safe_close m.server_fd ++ destroyed m.compute_nodes
