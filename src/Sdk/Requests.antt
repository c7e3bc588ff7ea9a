-- ===== src/Sdk/Requests.antt =====
-- sdk/src/dsp_accel_sdk.cpp: the calls beside the audio: statistics, parameters, the log, and buffers
-- on the device, which the worker gives and fills on request.
pub mod Answered
mod Tests
use linux_opensource_univers.Prelude.{
  ltb, ◌==◌, if◌then◌else◌, blit, ℕ, zero, suc, ◌+◌, Bool, false, not, ◌&&◌, Option, none, some,
}
use linux_opensource_univers.Floats.{Floats}
use linux_opensource_univers.Ring.{push, pop}
use linux_opensource_univers.Shm.{
  SharedMemory, MemoryRequest, MemoryRequestType, MemoryResponse, LogEntry, set_worker,
  control_depth, bus_depth, staging_size,
}
use linux_opensource_univers.Sdk.{Ctx, Session, worker_of}

-- `DspAccelStats`
pub record Stats (F : Type 0) : Type 0 where
  pub xrun_count : ℕ
  pub dispatched_blocks : ℕ
  pub hw_load_percent : F
  pub avg_roundtrip_us : F

-- What another process does to the shared memory while the call sleeps before its `n`-th look
abbrev pub Meanwhile : Type 0 → Type 0
Meanwhile F = ℕ → SharedMemory F → SharedMemory F

abbrev pub accepts_handle : ℕ → MemoryResponse → Option ℕ
accepts_handle req_id r = if r.request_id == req_id && r.success then some r.handle else none

abbrev pub accepts_result : ℕ → MemoryResponse → Option Bool
accepts_result req_id r = if r.request_id == req_id then some r.success else none

abbrev pub allocation : ℕ → ℕ → MemoryRequest
allocation req_id size = record {
  request_id = req_id;
  type = MemoryRequestType.allocate;
  size = size;
  handle = 0;
  shm_offset = 0;
}

module _ {F : Type 0} where
  abbrev pub request : SharedMemory F → MemoryRequest → SharedMemory F × Bool
  request shm req =
      let (bus, done) = push bus_depth shm.memory_request_bus req in
      (record shm { memory_request_bus = bus }, done)

  abbrev pub take_response : SharedMemory F → SharedMemory F × Option MemoryResponse
  take_response shm =
      let (bus, out) = pop bus_depth shm.memory_response_bus in
      (record shm { memory_response_bus = bus }, out)

  -- The loop that looks for a response, `n` times from the `i`-th on, until `accepts` takes one;
  -- the responses before it are lost.
  unfoldable pub poll :
      {B : Type 0}
      → (MemoryResponse → Option B)
      → Meanwhile F
      → ℕ
      → ℕ
      → SharedMemory F
      → SharedMemory F × Option B
  poll accepts meanwhile zero i shm = (shm, none)
  poll accepts meanwhile (suc n) i shm =
      let (shm', out) = take_response (meanwhile i shm) in
      elim out [
        | none ↦ poll accepts meanwhile n (i + 1) shm'
        | some r ↦ elim (accepts r) [
          | none ↦ poll accepts meanwhile n (i + 1) shm'
          | some b ↦ (shm', some b)
        ]
      ]

module _ {fl : Floats} where
  open fl use {Float}

  -- The context that is there and mapped; `none` is where the calls refuse.
  abbrev pub mapped_of : Session fl → Option (Ctx fl)
  mapped_of s = elim s.ctx [ none ↦ none | some c ↦ if c.mapped then some c else none ]

  pub get_latency_samples : Session fl → ℕ
  get_latency_samples s = elim (mapped_of s) [ none ↦ 0 | some c ↦ 64 ]

  abbrev pub stats_of : Ctx fl → Session fl → Stats Float
  stats_of c s = record {
    xrun_count = c.xrun_count;
    dispatched_blocks = c.dispatched_blocks;
    hw_load_percent = fl.float_of (worker_of c s).load_pct;
    avg_roundtrip_us =
        if ltb 0 c.dispatched_blocks
        then fl.narrow (
            fl.div_double (fl.div_double c.total_roundtrip_ns (fl.double_of c.dispatched_blocks))
              (fl.double_of 1000))
        else fl.literal 0 1;
  }

  -- `get_stats`, `out` saying that its argument is not NULL. The outer `none` is the fault of a
  -- read through `shm` when it is NULL; the inner one stands for false.
  pub get_stats : Bool → Session fl → Option (Option (Stats Float))
  get_stats out s = elim s.ctx [
    | none ↦ some none
    | some c ↦ if not out then some none else if c.mapped then some (some (stats_of c s)) else none
  ]

  pub set_param : ℕ → Float → Session fl → Session fl × Bool
  set_param param_id value s = elim (mapped_of s) [
    | none ↦ (s, false)
    | some c ↦
        let (bus, done) =
          push control_depth s.shm.control_bus
            (record { parameter_id = param_id; value = value }) in
        (record s { shm = record (s.shm) { control_bus = bus } }, done)
  ]

  pub fetch_log : Session fl → Session fl × Option LogEntry
  fetch_log s = elim (mapped_of s) [
    | none ↦ (s, none)
    | some c ↦
        let (bus, entry) = pop bus_depth s.shm.log_bus in
        (record s { shm = record (s.shm) { log_bus = bus } }, entry)
  ]

  -- `allocate_vram` with the number that `rand` gives
  pub allocate_vram : ℕ → ℕ → Meanwhile Float → Session fl → Session fl × ℕ
  allocate_vram req_id size meanwhile s = elim (mapped_of s) [
    | none ↦ (s, 0)
    | some c ↦
        let (shm, done) = request s.shm (allocation req_id size) in
        if not done
        then (record s { shm = shm }, 0)
        else (let (shm', out) = poll (accepts_handle req_id) meanwhile 500 0 shm in
            (record s { shm = shm' }, elim out [ none ↦ 0 | some h ↦ h ]))
  ]

  -- `upload_buffer`, with its data as `bytes`, and `offset` where `data_staging` stands
  pub upload_buffer : ℕ → ℕ → ℕ → (ℕ → ℕ) → ℕ → Meanwhile Float → Session fl → Session fl × Bool
  upload_buffer req_id offset handle bytes size meanwhile s = elim (mapped_of s) [
    | none ↦ (s, false)
    | some c ↦
        if ltb staging_size size
        then (s, false)
        else (let staged = record (s.shm) {
          data_staging = blit s.shm.data_staging 0 bytes 0 size;
        } in
            let (shm, done) = request staged (record {
              request_id = req_id;
              type = MemoryRequestType.upload;
              size = size;
              handle = handle;
              shm_offset = offset;
            }) in
            if not done
            then (record s { shm = shm }, false)
            else (let (shm', out) = poll (accepts_result req_id) meanwhile 500 0 shm in
                (record s { shm = shm' }, elim out [ none ↦ false | some ok ↦ ok ])))
  ]

  pub free_vram : ℕ → Session fl → Session fl
  free_vram handle s = elim (mapped_of s) [
    | none ↦ s
    | some c ↦ if handle == 0 then s else record s {
      shm =
          (request s.shm (record {
            request_id = 0;
            type = MemoryRequestType.free;
            size = 0;
            handle = handle;
            shm_offset = 0;
          })).0;
    }
  ]

  pub set_zero_copy_bypass : Bool → Session fl → Session fl
  set_zero_copy_bypass enabled s = elim (mapped_of s) [
    | none ↦ s
    | some c ↦ record s {
      shm = set_worker s.shm c.worker_id (record (worker_of c s) { bypass_zero_copy = enabled });
    }
  ]
