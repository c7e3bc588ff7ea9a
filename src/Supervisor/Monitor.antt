-- ===== src/Supervisor/Monitor.antt =====
-- daemon/pipewire/module-dsp-accel.cpp: the state of the workers that `dump_state` writes for monitors, as
-- the pieces of its text.
use linux_opensource_univers.Prelude.{
  ◌==◌, if◌then◌else◌, length, ℕ, ◌+◌, ◌-◌, Bool, Option, none, some, List, [], ◌∷◌, ◌++◌,
}
use linux_opensource_univers.Shm.{SharedMemory}
use linux_opensource_univers.Supervisor.{ComputeNode}

pub data TypeName : Type 0 where
  vulkan npu dsp : TypeName

-- The object of a worker; `healthy` stands for "Healthy", and else for "Dead".
pub record Entry : Type 0 where
  pub id : ℕ
  pub type : TypeName
  pub healthy : Bool
  pub load : ℕ
  pub heartbeat : ℕ

-- `{ "timestamp": t, "workers": [`, an object, a comma, and `] }`
pub data Piece : Type 0 where
  begin : ℕ → Piece
  item : Entry → Piece
  comma close : Piece

-- `(i == 0 ? "vulkan" : i == 1 ? "npu" : "dsp")`
abbrev pub type_name : ℕ → TypeName
type_name i = if i == 0 then TypeName.vulkan else if i == 1 then TypeName.npu else TypeName.dsp

-- `(i == d->num_compute_nodes - 1 ? "" : ",")`
abbrev pub separator : ℕ → ℕ → List Piece
separator i count = if i == count - 1 then [] else comma ∷ []

module _ {F : Type 0} where
  abbrev pub entry_of : ℕ → ComputeNode F → SharedMemory F → Entry
  entry_of i n shm = record {
    id = n.worker_id;
    type = type_name i;
    healthy = n.is_active;
    load = (shm.workers n.worker_id).load_pct;
    heartbeat = (shm.workers n.worker_id).heartbeat;
  }

  -- One round of the loop: nothing for a node without shared memory
  abbrev pub entry_text : ℕ → ℕ → ComputeNode F → Option (SharedMemory F) → List Piece
  entry_text i count n none = []
  entry_text i count n (some shm) = item (entry_of i n shm) ∷ separator i count

  unfoldable pub entries : ℕ → ℕ → List (ComputeNode F) → List Piece
  entries i count [] = []
  entries i count (n ∷ ns) = entry_text i count n n.shm ++ entries (i + 1) count ns

  -- `dump_state`, when the file can be opened, at the time `t`
  unfoldable pub dump_state : ℕ → List (ComputeNode F) → List Piece
  dump_state t nodes = begin t ∷ entries 0 (length nodes) nodes ++ close ∷ []
