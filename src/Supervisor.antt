-- ===== src/Supervisor.antt =====
-- daemon/pipewire/module-dsp-accel.cpp: the module of PipeWire that starts the workers, assigns plugins
-- to them, and closes everything at its end.
pub mod Routing
pub mod Target
pub mod Boot
pub mod Module
pub mod Loading
pub mod Monitor
pub mod Json
mod Tests
use linux_opensource_univers.Prelude.{
  leb, ◌==◌, if◌then◌else◌, ℕ, ◌+◌, Bool, true, false, not, ◌&&◌, Option, none, some, List, [], ◌∷◌,
  ◌++◌,
}
use linux_opensource_univers.Shm.{SharedMemory, is_none}
use linux_opensource_univers.Sdk.{Fd}
use linux_opensource_univers.Sdk.Connect.{safe_close}

-- `struct dsp_accel_node`; `none` for the shared memory is NULL.
pub record ComputeNode (F : Type 0) : Type 0 where
  pub shm : Option (SharedMemory F)
  pub worker_id : ℕ
  pub last_heartbeat : ℕ
  pub is_active : Bool
  pub worker_pid : Option ℕ
  pub shm_fd : Fd
  pub e_send : Fd
  pub e_recv : Fd

-- What the kernel gives to `spawn_worker`: the file, whether it gets its size, the events, the mapping,
-- the pair of sockets, and the process.
pub record Spawn (F : Type 0) : Type 0 where
  pub memfd : Fd
  pub truncates : Bool
  pub event_send : Fd
  pub event_recv : Fd
  pub mapping : Option (SharedMemory F)
  pub paired : Bool
  pub process : Option ℕ

-- What a plugin gets: the number of its worker and three descriptors. Each may be -1.
pub record Granted : Type 0 where
  pub worker_id : ℕ
  pub shm_fd : Fd
  pub e_send : Fd
  pub e_recv : Fd

module _ {F : Type 0} where
  -- A node as `calloc` leaves it, with its number: each descriptor is 0.
  abbrev pub fresh : ℕ → ComputeNode F
  fresh i = record {
    shm = none;
    worker_id = i;
    last_heartbeat = 0;
    is_active = false;
    worker_pid = some 0;
    shm_fd = some 0;
    e_send = some 0;
    e_recv = some 0;
  }

  -- From the fork on, seen by the supervisor: `none` is -1.
  abbrev pub forked : Option ℕ → ComputeNode F → ComputeNode F
  forked none n = record n { worker_pid = none }
  forked (some pid) n = record n { worker_pid = some pid; is_active = true }

  abbrev pub mapped_as : Option (SharedMemory F) → Spawn F → ComputeNode F → ComputeNode F
  mapped_as none r n = record n { shm = none }
  mapped_as (some shm) r n =
      let n' = record n { shm = some shm } in if r.paired then forked r.process n' else n'

  abbrev pub with_file : Fd → Spawn F → ComputeNode F → ComputeNode F
  with_file none r n = record n { shm_fd = none }
  with_file (some fd) r n =
      let n' = record n { shm_fd = some fd } in
      if not r.truncates
      then n'
      else mapped_as r.mapping r (record n' { e_send = r.event_send; e_recv = r.event_recv })

  pub spawn_worker : Spawn F → ComputeNode F → ComputeNode F
  spawn_worker r n = with_file r.memfd r n

  -- One round of the loop in `handle_plugin_request` on a node: what becomes of it, and whether it is
  -- chosen.
  abbrev pub visit : Spawn F → Option (SharedMemory F) → ComputeNode F → ComputeNode F × Bool
  visit r none n = (n, false)
  visit r (some shm) n =
      let ctrl = shm.workers n.worker_id in
      if not (is_none ctrl.last_error)
      then (spawn_worker r (record n { is_active = false }), false)
      else if leb 80 ctrl.load_pct
      then (n, false)
      else (record n { last_heartbeat = ctrl.heartbeat }, n.is_active)

  -- The loop from the node `i` on; `spawn` is what the kernel gives to a restart of each.
  pub route : (ℕ → Spawn F) → ℕ → List (ComputeNode F) → List (ComputeNode F) × Option ℕ
  route spawn i [] = ([], none)
  route spawn i (n ∷ ns) =
      let (n', chosen) = visit (spawn i) n.shm n in
      let (ns', best) = route spawn (i + 1) ns in
      if chosen then (n' ∷ ns, some i) else (n' ∷ ns', best)

  -- `handle_plugin_request`, with true for 0 and false for -1
  pub handle_plugin_request : (ℕ → Spawn F) → List (ComputeNode F) → List (ComputeNode F) × Bool
  handle_plugin_request spawn ns =
      let (ns', best) = route spawn 0 ns in (ns', elim best [ none ↦ false | some i ↦ true ])

  -- The loop of `on_plugin_connection` from the node `i` on
  pub find_target : ℕ → ℕ → List (ComputeNode F) → Option (ComputeNode F)
  find_target wl_type i [] = none
  find_target wl_type i (n ∷ ns) =
      let rest = find_target wl_type (i + 1) ns in
      if i == wl_type && n.is_active then some n else rest

  abbrev pub granted : ComputeNode F → Granted
  granted n = record {
    worker_id = n.worker_id;
    shm_fd = n.shm_fd;
    e_send = n.e_send;
    e_recv = n.e_recv;
  }

  -- `on_plugin_connection` once a plugin is accepted: `wl_type` is what it sends, if it does, and
  -- `answered` says that the response could be sent.
  pub on_plugin_connection : Option ℕ → Bool → List (ComputeNode F) → Option Granted
  on_plugin_connection none answered ns = none
  on_plugin_connection (some wl_type) answered ns = elim (find_target wl_type 0 ns) [
    | none ↦ none
    | some n ↦ if answered then some (granted n) else none
  ]

  -- The descriptors of the nodes that `module_destroy` closes
  pub destroyed : List (ComputeNode F) → List ℕ
  destroyed [] = []
  destroyed (n ∷ ns) =
      safe_close n.shm_fd ++ safe_close n.e_send ++ safe_close n.e_recv ++ destroyed ns
