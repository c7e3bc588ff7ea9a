-- ===== src/Worker/Loop.antt =====
-- daemon/worker.cpp: one round of the loop in `main`. `none` is undefined behaviour: a copy past the
-- end of a frame.
pub mod Buses
pub mod Output
pub mod Audio
pub mod Transparent
pub mod Moved
pub mod Rounds
use linux_opensource_univers.Prelude.{
  ltb, leb, ◌==◌, if◌then◌else◌, Region, memcpy, ◌>>=◌, ℕ, zero, suc, ◌+◌, ◌*◌, ◌%◌, ◌^◌, Bool,
  true, false, not, ◌&&◌, Option, none, some,
}
use linux_opensource_univers.Floats.{Floats}
use linux_opensource_univers.Ring.{
  Ring, push, pop, peek_read, commit_read, reserve_write, commit_write, write_slot,
}
use linux_opensource_univers.Shm.{
  AudioFrame, SharedMemory, WorkerControlBlock, WorkerError, MemoryRequest, MemoryRequestType,
  MemoryResponse, set_worker, sample_region, queue_depth, control_depth, bus_depth, channel_stride,
}
use linux_opensource_univers.Sdk.{Answer, signal}
use linux_opensource_univers.Worker.{Nodes}
use linux_opensource_univers.Worker.Graph.{Graph, process_graph, process_graph_parallel}

-- What `main` keeps: the shared memory, the nodes' state, the graph, and the `primary_node`.
pub record Worker (F S : Type 0) : Type 0 where
  pub shm : SharedMemory F
  pub store : S
  pub graph : Graph
  pub primary_node : ℕ
  pub worker_id : ℕ

-- What a round sees of the machine: whether the poll finds the plugin's event, and the event can be
-- read; how long the graph takes; the answer to the write of the worker's event.
pub record Tick : Type 0 where
  pub signalled : Bool
  pub readable : Bool
  pub elapsed_us : ℕ
  pub answer : Answer

-- `while (bus.pop(item)) step(item)` on fuel
unfoldable pub pop_all : {A T : Type 0} → ℕ → (T → A → T) → ℕ → Ring A → T → Ring A × T
pop_all cap step zero bus t = (bus, t)
pop_all cap step (suc fuel) bus t =
    let (bus', item) = pop cap bus in
    elim item [ none ↦ (bus', t) | some a ↦ pop_all cap step fuel bus' (step t a) ]

-- The loop that copies `n` channels of `fc` samples from `ch` on, each to its own place
pub copy_channels : {F : Type 0} → ℕ → ℕ → ℕ → Region F → Region F → Option (Region F)
copy_channels zero ch fc src dest = some dest
copy_channels (suc n) ch fc src dest = do
  dest' ← memcpy dest (ch * channel_stride) src (ch * channel_stride) fc
  copy_channels n (ch + 1) fc src dest'

-- A block is split when the plugin prefers it, the load leaves room, and it is long enough.
abbrev pub should_split : Bool → ℕ → ℕ → Bool
should_split plugin_prefers current_load frame_count =
    plugin_prefers && ltb current_load 60 && leb 128 frame_count

abbrev pub set_error : Bool → WorkerControlBlock → WorkerControlBlock
set_error success w = if success then w else record w { last_error = WorkerError.device_lost }

-- The load in percent of a block's duration at 48 kHz, at most 100
pub load_of : Floats → ℕ → ℕ → ℕ
load_of fl elapsed_us frame_count =
    let duration =
      fl.div (fl.mul (fl.float_of frame_count) (fl.literal 1000000 1)) (fl.literal 48000 1) in
    let actual_load =
      fl.u32_of (fl.div (fl.mul (fl.float_of elapsed_us) (fl.literal 100 1)) duration) in
    if ltb 100 actual_load then 100 else actual_load

module _ {F : Type 0} where
  -- The output: the metadata, without the instance, and the valid samples of each channel.
  pub output : AudioFrame F → Ring (AudioFrame F) → Option (Ring (AudioFrame F))
  output f queue = elim (reserve_write queue_depth queue) [
    | none ↦ some queue
    | some j ↦ do
      out ←
          copy_channels f.channel_count 0 f.frame_count (sample_region f)
            (sample_region (queue.slot j))
      some (
          commit_write queue_depth (
            write_slot j
              (record (queue.slot j) {
                frame_count = f.frame_count;
                channel_count = f.channel_count;
                timestamp_ns = f.timestamp_ns;
                samples = out.cell;
              })
              queue))
  ]

module _ {F S : Type 0} where
  abbrev pub beat : Worker F S → Worker F S
  beat w =
      let block = w.shm.workers w.worker_id in
      record w {
        shm =
            set_worker w.shm w.worker_id
              (record block { heartbeat = (block.heartbeat + 1) % 2 ^ 64 });
      }

module _ {F S : Type 0} (nodes : Nodes F S) where
  -- The control bus: its events go to the primary node.
  unfoldable pub control : Worker F S → Worker F S
  control w =
      let (bus, store) =
        pop_all control_depth (nodes.apply_control_event w.primary_node) control_depth
          w.shm.control_bus w.store in
      record w { shm = record (w.shm) { control_bus = bus }; store = store }

  pub respond : ℕ → S → MemoryRequest → S × MemoryResponse
  respond node s req = elim (req.type) [
    | MemoryRequestType.allocate ↦
        let (s', h) = nodes.allocate_buffer node s req.size in
        (s', record { request_id = req.request_id; handle = h; success = not (h == 0) })
    | MemoryRequestType.upload ↦
        let (s', ok) = nodes.upload_buffer node s req.handle req.shm_offset req.size in
        (s', record { request_id = req.request_id; handle = 0; success = ok })
    | MemoryRequestType.free ↦ (
      nodes.free_buffer node s req.handle,
      record { request_id = req.request_id; handle = 0; success = true },
    )
  ]

  -- The memory bus: a response that finds its bus full is dropped.
  abbrev pub serve : ℕ → S × Ring MemoryResponse → MemoryRequest → S × Ring MemoryResponse
  serve node (s, responses) req =
      let (s', response) = respond node s req in (s', (push bus_depth responses response).0)

  pub memory : Worker F S → Worker F S
  memory w =
      let (bus, (s, responses)) =
        pop_all bus_depth (serve w.primary_node) bus_depth w.shm.memory_request_bus
          (w.store, w.shm.memory_response_bus) in
      record w {
        shm = record (w.shm) { memory_request_bus = bus; memory_response_bus = responses };
        store = s;
      }

  unfoldable pub process : Worker F S → AudioFrame F → Graph × S × AudioFrame F × Bool
  process w f =
      if should_split w.shm.prefer_block_parallel (w.shm.workers w.worker_id).load_pct f.frame_count
      then process_graph_parallel nodes w.graph 4 w.store f
      else process_graph nodes w.graph w.store f

  abbrev pub bypass : Worker F S → Worker F S
  bypass w = record w {
    store =
        nodes.set_zero_copy_bypass w.primary_node w.store
          (w.shm.workers w.worker_id).bypass_zero_copy;
  }

module _ (fl : Floats) {S : Type 0} (nodes : Nodes (fl.Float) S) where
  open fl use {Float}

  -- The frame at `i` of `in_queue`, processed where it is; and whether the plugin has been told.
  pub audio_at : Tick → ℕ → Worker Float S → Option (Worker Float S × Bool)
  audio_at tick i w = do
    let r = process nodes w (w.shm.in_queue.slot i)
    let f = r.2
    let block = w.shm.workers w.worker_id
    let block' = record block { load_pct = load_of fl tick.elapsed_us f.frame_count }
    out ← output f w.shm.out_queue
    let shm' = record (set_worker w.shm w.worker_id (set_error (r.3) block')) {
      in_queue = commit_read queue_depth (write_slot i f w.shm.in_queue);
      out_queue = out;
    }
    some (record w { shm = shm'; store = r.1; graph = r.0 }, signal tick.answer)

  pub audio : Tick → Worker Float S → Option (Worker Float S × Bool)
  audio tick w = elim (peek_read queue_depth w.shm.in_queue) [
    | none ↦ some (w, false)
    | some i ↦ audio_at tick i w
  ]

  -- One round: an event that cannot be read ends it before the memory bus.
  pub round : Tick → Worker Float S → Option (Worker Float S × Bool)
  round tick w =
      let w' = control nodes (bypass nodes (beat w)) in
      if not tick.signalled
      then some (memory nodes w', false)
      else if not tick.readable
      then some (w', false)
      else do (w'', told) ← audio tick w'; some (memory nodes w'', told)
