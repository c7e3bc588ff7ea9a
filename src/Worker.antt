-- ===== src/Worker.antt =====
-- daemon/worker.cpp: the worker's process, and the nodes that do its work, by their interface
-- `IDspNode` of daemon/compute_backend.hpp. `store` holds the nodes' own state, and a node's pointer
-- is a number.
pub mod Graph
pub mod Loop
pub mod Start
mod Tests
use linux_opensource_univers.Prelude.{ℕ, Bool}
use linux_opensource_univers.Shm.{AudioFrame, ControlEvent}

-- The virtual members that the worker calls: of the node `n`, on the store.
pub record Nodes (F S : Type 0) : Type 0 where
  pub process_stage : ℕ → S → AudioFrame F → S × AudioFrame F × Bool
  pub supports_staging : ℕ → Bool
  pub apply_control_event : ℕ → S → ControlEvent F → S
  pub allocate_buffer : ℕ → S → ℕ → S × ℕ
  -- The data is named by its offset in the shared memory.
  pub upload_buffer : ℕ → S → ℕ → ℕ → ℕ → S × Bool
  pub free_buffer : ℕ → S → ℕ → S
  pub set_zero_copy_bypass : ℕ → S → Bool → S
