-- ===== src/Sdk/Sample.antt =====
-- Concrete sessions, which the tests of the SDK share.
use linux_opensource_univers.Prelude.{ℕ, ◌+◌, true, false, some}
use linux_opensource_univers.Floats.{naturals}
use linux_opensource_univers.Ring.{Ring}
use linux_opensource_univers.Shm.{
  AudioFrame, SharedMemory, WorkerControlBlock, WorkerError, MemoryRequestType,
}
use linux_opensource_univers.Sdk.{Ctx, Session, WorkloadType}

abbrev pub frame : AudioFrame ℕ
frame = record {
  instance_id = 0;
  frame_count = 2;
  channel_count = 1;
  timestamp_ns = 5;
  samples = λ i. i + 1;
}

abbrev pub ring_of : {A : Type 0} → A → ℕ → Ring A
ring_of a n = record { head = 0; tail = n; slot = λ i. a }

-- A worker at the heartbeat 3 that has reported `error`
abbrev pub block : WorkerError → WorkerControlBlock
block error = record {
  heartbeat = 3;
  last_error = error;
  is_ready = true;
  should_restart = false;
  bypass_zero_copy = false;
  load_pct = 20;
}

-- `n` frames wait for the worker and `m` for the plugin.
abbrev pub shared : WorkerError → ℕ → ℕ → SharedMemory ℕ
shared error n m = record {
  workers = λ i. block error;
  in_queue = ring_of frame n;
  out_queue = ring_of frame m;
  control_bus = ring_of (record { parameter_id = 1; value = 0 }) 0;
  memory_request_bus =
      ring_of
        (record {
          request_id = 0;
          type = MemoryRequestType.allocate;
          size = 64;
          handle = 0;
          shm_offset = 0;
        })
        0;
  memory_response_bus = ring_of (record { request_id = 0; handle = 0; success = false }) 0;
  log_bus = ring_of (record { level = 0; tag = λ i. 0; msg = λ i. 0 }) 0;
  data_staging = λ i. 0;
  prefer_block_parallel = false;
}

-- A context that has seen the heartbeat `hb` for `n` blocks, each an XRUN
abbrev pub ctx : ℕ → ℕ → Ctx naturals
ctx hb n = record {
  socket_fd = some 3;
  shm_fd = some 4;
  eventfd_send = some 5;
  eventfd_recv = some 6;
  mapped = true;
  worker_id = 0;
  last_worker_heartbeat = hb;
  heartbeat_stalled_count = n;
  workload_type = WorkloadType.massively_parallel;
  cost_mflops = 1;
  dispatched_blocks = 0;
  xrun_count = n;
  total_roundtrip_ns = 0;
  last_measured_rtt_us = 0;
}

abbrev pub session : ℕ → SharedMemory ℕ → Session naturals
session hb shm = record { ctx = some (ctx hb 0); shm = shm }

abbrev pub calm : ℕ → ℕ → SharedMemory ℕ
calm n m = shared WorkerError.no_error n m
