-- ===== src/Sdk.antt =====
-- sdk/src/dsp_accel_sdk.cpp: the plugin's side of a session.
pub mod Copy
pub mod Dispatch
pub mod Connect
pub mod Requests
pub mod Sample
use linux_opensource_univers.Prelude.{ℕ, Bool, true, false, Option, some}
use linux_opensource_univers.Floats.{Floats}
use linux_opensource_univers.Shm.{SharedMemory, WorkerControlBlock}

pub data WorkloadType : Type 0 where
  massively_parallel array_processor remote : WorkloadType

-- A file descriptor; `none` is -1.
abbrev pub Fd : Type 0
Fd = Option ℕ

module _ (fl : Floats) where
  open fl use {Float, Double}

  -- `struct dsp_accel_sdk_ctx`; `mapped` says that `shm` is not NULL.
  pub record Ctx : Type 0 where
    pub socket_fd : Fd
    pub shm_fd : Fd
    pub eventfd_send : Fd
    pub eventfd_recv : Fd
    pub mapped : Bool
    pub worker_id : ℕ
    pub last_worker_heartbeat : ℕ
    pub heartbeat_stalled_count : ℕ
    pub workload_type : WorkloadType
    pub cost_mflops : Float
    pub dispatched_blocks : ℕ
    pub xrun_count : ℕ
    pub total_roundtrip_ns : Double
    pub last_measured_rtt_us : Float

  -- The caller's context pointer (`none` is NULL) with the shared memory that it maps.
  pub record Session : Type 0 where
    pub ctx : Option Ctx
    pub shm : SharedMemory Float

module _ {fl : Floats} where
  abbrev pub keep : Session fl → Ctx fl → Session fl
  keep s c = record s { ctx = some c }

  abbrev pub worker_of : Ctx fl → Session fl → WorkerControlBlock
  worker_of c s = s.shm.workers c.worker_id

-- What the kernel answers a write that is repeated while it is interrupted (EINTR).
pub data Answer : Type 0 where
  interrupted : Answer → Answer
  written failed : Answer

unfoldable pub signal : Answer → Bool
signal (interrupted later) = signal later
signal written = true
signal failed = false
