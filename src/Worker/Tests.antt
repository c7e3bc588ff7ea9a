-- ===== src/Worker/Tests.antt =====
-- A concrete worker: tests, and the theorems at inputs that meet their hypotheses.
use linux_opensource_univers.Prelude.{
  ◌==◌, if◌then◌else◌, ℕ, ◌+◌, ◌*◌, ◌≡◌, refl, ◌≢◌, ◌⊎◌, Bool, true, false, not, none, some, [],
  ◌∷◌, map, arith,
}
use linux_opensource_univers.Floats.{naturals}
use linux_opensource_univers.Ring.{Ring, pop}
use linux_opensource_univers.Ring.Window.{contents}
use linux_opensource_univers.Shm.{
  LogEntry, AudioFrame, SharedMemory, WorkerControlBlock, WorkerError, MemoryRequest,
  MemoryRequestType, MemoryResponse, queue_depth, control_depth, bus_depth,
}
use linux_opensource_univers.Sdk.{Answer, signal}
use linux_opensource_univers.Worker.{Nodes}
use linux_opensource_univers.Worker.Graph.{
  Graph, process_graph, process_graph_parallel, Passed, Stopped, staging, graph_outcome, run,
  run_staging,
}
use linux_opensource_univers.Worker.Start.{
  Setup, Kind, Started, start, runs, memory_of, start_reported,
}
use linux_opensource_univers.Worker.Loop.{Worker, Tick, control, memory, audio, process, pop_all}
use linux_opensource_univers.Worker.Loop.Buses.{steps, responses, control_applied, memory_served}
use linux_opensource_univers.Worker.Loop.Output.{SameSamples}
use linux_opensource_univers.Worker.Loop.Audio.{Consumed, frame_forwarded, frame_dropped}

abbrev is_first : ℕ → Bool
is_first n = n == 1

-- A node doubles all samples and counts the frames; the node 2 fails. The store counts the calls.
abbrev nodes : Nodes ℕ ℕ
nodes = record {
  process_stage = λ n s f. (s + 1, record f { samples = λ i. f.samples i * 2 }, not (n == 2));
  supports_staging = is_first;
  apply_control_event = λ n s e. s * 10 + e.parameter_id;
  allocate_buffer = λ n s size. (s + 1, s);
  upload_buffer = λ n s h offset size. (s, h == 4);
  free_buffer = λ n s h. s;
  set_zero_copy_bypass = λ n s on. s;
}

abbrev frame : AudioFrame ℕ
frame = record {
  instance_id = 0;
  frame_count = 2;
  channel_count = 1;
  timestamp_ns = 5;
  samples = λ i. i + 1;
}

abbrev graph : Graph
graph = record { execution_order = 1 ∷ 2 ∷ 3 ∷ []; last_failed_node = none }

process_graph-graph :
    ((process_graph nodes graph 0 frame).3 ≡ false)
    × ((process_graph nodes graph 0 frame).1 ≡ 2)
    × ((process_graph nodes graph 0 frame).0.last_failed_node ≡ some 2)
    × ((process_graph_parallel nodes graph 4 0 frame).3 ≡ true)
unfolding process_graph process_graph_parallel run run_staging
process_graph-graph = (refl, refl, refl, refl)

graph_outcome_example :
    (let (g', s', f', ok) = process_graph nodes graph 0 frame in
      ((ok ≡ true) × (g' ≡ graph) × Passed nodes (1 ∷ 2 ∷ 3 ∷ []) 0 frame s' f')
      ⊎ ((ok ≡ false)
          × ((n : ℕ) × (g' ≡ record graph { last_failed_node = some n })
              × Stopped nodes (1 ∷ 2 ∷ 3 ∷ []) 0 frame s' f' n)))
    × (let (g', s', f', ok) = process_graph_parallel nodes graph 4 0 frame in
        let only =
          process_graph nodes
            (record graph { execution_order = staging nodes (1 ∷ 2 ∷ 3 ∷ []) })
            0
            frame in
        (g'.last_failed_node ≡ only.0.last_failed_node)
        × (s' ≡ only.1)
        × (f' ≡ only.2)
        × (ok ≡ only.3))
graph_outcome_example = graph_outcome nodes graph 4 0 frame

abbrev ring_of : {A : Type 0} → A → ℕ → Ring A
ring_of a n = record { head = 0; tail = n; slot = λ i. a }

abbrev block : WorkerControlBlock
block = record {
  heartbeat = 3;
  last_error = WorkerError.no_error;
  is_ready = true;
  should_restart = false;
  bypass_zero_copy = false;
  load_pct = 20;
}

abbrev allocation : MemoryRequest
allocation = record {
  request_id = 77;
  type = MemoryRequestType.allocate;
  size = 64;
  handle = 0;
  shm_offset = 0;
}

abbrev shared : ℕ → SharedMemory ℕ
shared waiting = record {
  workers = λ i. block;
  in_queue = ring_of frame 1;
  out_queue = ring_of frame waiting;
  control_bus = record {
    head = 0;
    tail = 2;
    slot = λ i. record { parameter_id = i + 1; value = 0 };
  };
  memory_request_bus = ring_of allocation 1;
  memory_response_bus = ring_of (record { request_id = 0; handle = 0; success = false }) 0;
  log_bus = ring_of (record { level = 0; tag = λ i. 0; msg = λ i. 0 }) 0;
  data_staging = λ i. 0;
  prefer_block_parallel = false;
}

abbrev worker : ℕ → Worker ℕ ℕ
worker waiting = record {
  shm = shared waiting;
  store = 0;
  graph = record { execution_order = 1 ∷ []; last_failed_node = none };
  primary_node = 1;
  worker_id = 0;
}

-- The events 1 and 2 have reached the node in order.
control-worker : (control nodes (worker 0)).store ≡ 12
unfolding control pop_all pop
control-worker = refl

control_applied_test :
    (contents control_depth (control nodes (worker 0)).shm.control_bus ≡ [])
    × ((control nodes (worker 0)).store
        ≡ steps (nodes.apply_control_event 1) 0 (contents control_depth (worker 0).shm.control_bus))
control_applied_test = control_applied nodes (worker 0) (omega arith)

memory_served_example :
    (contents bus_depth (memory nodes (worker 0)).shm.memory_request_bus ≡ [])
    × ((memory nodes (worker 0)).store ≡ (responses nodes 1 0 (allocation ∷ [])).0)
    × (contents bus_depth (memory nodes (worker 0)).shm.memory_response_bus
        ≡ (responses nodes 1 0 (allocation ∷ [])).1)
    × (map (λ (r : MemoryResponse). r.request_id) (responses nodes 1 0 (allocation ∷ [])).1
        ≡ 77 ∷ [])
memory_served_example = memory_served nodes (worker 0) (omega arith) (omega arith)

abbrev tick : Tick
tick = record { signalled = true; readable = true; elapsed_us = 10; answer = Answer.written }

abbrev doubled : AudioFrame ℕ
doubled = record frame { samples = λ i. (i + 1) * 2 }

process-worker :
    (waiting : ℕ)
    → process nodes (worker waiting) frame ≡ ((worker waiting).graph, 1, doubled, true)
unfolding process process_graph run
process-worker waiting = refl

frame_forwarded_example :
    (w' : Worker ℕ ℕ) × (sent : AudioFrame ℕ) × (audio naturals nodes tick (worker 0)
      ≡ some (w', signal Answer.written))
    × (contents queue_depth w'.shm.out_queue ≡ sent ∷ [])
    × (sent.frame_count ≡ 2)
    × (sent.channel_count ≡ 1)
    × (sent.timestamp_ns ≡ 5)
    × SameSamples 1 0 2 (λ i. (i + 1) * 2) sent.samples
    × Consumed naturals nodes tick
        (worker 0)
        frame
        doubled
        (worker 0).graph
        1
        true
        []
        (omega arith)
        (omega arith)
        refl
        (process-worker 0)
        w'
frame_forwarded_example =
    frame_forwarded naturals nodes tick (worker 0) frame doubled (worker 0).graph 1 true []
      (omega arith) (omega arith) refl (process-worker 0) (omega arith) (omega arith)

frame_dropped_example :
    (w' : Worker ℕ ℕ) × (audio naturals nodes tick (worker 15) ≡ some (w', signal Answer.written))
    × (w'.shm.out_queue ≡ (worker 15).shm.out_queue)
    × Consumed naturals nodes tick
        (worker 15)
        frame
        doubled
        (worker 15).graph
        1
        true
        []
        (omega arith)
        (omega arith)
        refl
        (process-worker 15)
        w'
frame_dropped_example =
    frame_dropped naturals nodes tick (worker 15) frame doubled (worker 15).graph 1 true []
      (omega arith) (omega arith) refl (process-worker 15) (omega arith)

abbrev setup : Setup
setup = record { shm_fd = some 3; e_send = some 4; e_recv = some 5; maps = true; inits = true }

abbrev entry : LogEntry
entry = record { level = 0; tag = λ i. 0; msg = λ i. 0 }

-- The supervisor's third kind of worker, for which there is no node
abbrev unknown : Started ℕ ℕ
unknown = start setup Kind.other 2 entry entry 1 0 (shared 0)

start_reported_example :
    (runs unknown ≡ false)
    × (((memory_of unknown).workers 2).is_ready ≡ runs unknown)
    × (((memory_of unknown).workers 2).last_error
        ≡ (if runs unknown then WorkerError.no_error else WorkerError.internal_error))
    × ((k : ℕ) → k ≢ 2 → (memory_of unknown).workers k ≡ block)
start_reported_example = start_reported setup Kind.other 2 entry entry 1 0 (shared 0) refl
