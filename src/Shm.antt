-- ===== src/Shm.antt =====
-- daemon/ipc/include/ipc_shm.hpp: what the shared memory holds, over the samples' type.
use linux_opensource_univers.Prelude.{update, Region, ℕ, ◌*◌, Bool, true, false}
use linux_opensource_univers.Ring.{Ring}

-- `IPC_QUEUE_DEPTH`, and the capacities of the buses
abbrev pub queue_depth : ℕ
queue_depth = 16

abbrev pub control_depth : ℕ
control_depth = 64

abbrev pub bus_depth : ℕ
bus_depth = 32

-- `samples[256 * 8]`, of which each channel has 256
abbrev pub channel_stride : ℕ
channel_stride = 256

abbrev pub sample_count : ℕ
sample_count = 256 * 8

abbrev pub staging_size : ℕ
staging_size = 1024 * 1024 * 4

pub record AudioFrame (F : Type 0) : Type 0 where
  pub instance_id : ℕ
  pub frame_count : ℕ
  pub channel_count : ℕ
  pub timestamp_ns : ℕ
  pub samples : ℕ → F

abbrev pub sample_region : {F : Type 0} → AudioFrame F → Region F
sample_region f = record { size = sample_count; cell = f.samples }

pub data WorkerError : Type 0 where
  no_error device_lost out_of_memory permission_denied internal_error : WorkerError

pub record WorkerControlBlock : Type 0 where
  pub heartbeat : ℕ
  pub last_error : WorkerError
  pub is_ready : Bool
  pub should_restart : Bool
  pub bypass_zero_copy : Bool
  pub load_pct : ℕ

pub record ControlEvent (F : Type 0) : Type 0 where
  pub parameter_id : ℕ
  pub value : F

pub data MemoryRequestType : Type 0 where
  allocate free upload : MemoryRequestType

pub record MemoryRequest : Type 0 where
  pub request_id : ℕ
  pub type : MemoryRequestType
  pub size : ℕ
  pub handle : ℕ
  pub shm_offset : ℕ

pub record MemoryResponse : Type 0 where
  pub request_id : ℕ
  pub handle : ℕ
  pub success : Bool

-- The fixed arrays `tag[16]` and `msg[128]`
pub record LogEntry : Type 0 where
  pub level : ℕ
  pub tag : ℕ → ℕ
  pub msg : ℕ → ℕ

-- `workers[8]` is indexed by a worker's number. The code does not test that it is below 8; here
-- there is a block for every number.
pub record SharedMemory (F : Type 0) : Type 0 where
  pub workers : ℕ → WorkerControlBlock
  pub in_queue : Ring (AudioFrame F)
  pub out_queue : Ring (AudioFrame F)
  pub control_bus : Ring (ControlEvent F)
  pub memory_request_bus : Ring MemoryRequest
  pub memory_response_bus : Ring MemoryResponse
  pub log_bus : Ring LogEntry
  pub data_staging : ℕ → ℕ
  pub prefer_block_parallel : Bool

-- `last_err == WorkerError::NONE`
abbrev pub is_none : WorkerError → Bool
is_none WorkerError.no_error = true
is_none _ = false

abbrev pub set_worker : {F : Type 0} → SharedMemory F → ℕ → WorkerControlBlock → SharedMemory F
set_worker shm i w = record shm { workers = update shm.workers i w }
