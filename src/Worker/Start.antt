-- ===== src/Worker/Start.antt =====
-- daemon/worker.cpp: the start of `main`, from the descriptors that the supervisor passes to the loop.
use linux_opensource_univers.Prelude.{
  if◌then◌else◌, if_true, update, update_here, update_else, ℕ, ◌≡◌, refl, ap, ◌∙◌, ◌≢◌, Bool, true,
  false, ◌&&◌, none, [],
}
use linux_opensource_univers.Ring.{push}
use linux_opensource_univers.Shm.{
  SharedMemory, WorkerControlBlock, WorkerError, LogEntry, set_worker, bus_depth,
}
use linux_opensource_univers.Sdk.{Fd}
use linux_opensource_univers.Sdk.Connect.{is_open}
use linux_opensource_univers.Worker.Graph.{add_node_to_sequence}
use linux_opensource_univers.Worker.Loop.{Worker}

-- The argument `--type`
pub data Kind : Type 0 where
  vulkan npu : Kind
  other : Kind

-- What the start is given: the descriptors that are passed, whether the memory is mapped, and whether
-- `init` of the node succeeds.
pub record Setup : Type 0 where
  pub shm_fd : Fd
  pub e_send : Fd
  pub e_recv : Fd
  pub maps : Bool
  pub inits : Bool

-- The process ends with 1, or comes to its loop.
pub data Started (F S : Type 0) : Type 0 where
  ended : SharedMemory F → Started F S
  looping : Worker F S → Started F S

-- Only two kinds of node are made.
abbrev pub makes_node : Kind → Bool
makes_node Kind.vulkan = true
makes_node Kind.npu = true
makes_node Kind.other = false

module _ {F : Type 0} where
  -- `send_worker_log`; with the bus full the entry is dropped.
  pub send_worker_log : LogEntry → SharedMemory F → SharedMemory F
  send_worker_log entry shm = record shm { log_bus = (push bus_depth shm.log_bus entry).0 }

  abbrev pub set_ready : Bool → ℕ → SharedMemory F → SharedMemory F
  set_ready ready id shm = set_worker shm id (record (shm.workers id) { is_ready = ready })

  abbrev pub set_failed : ℕ → SharedMemory F → SharedMemory F
  set_failed id shm =
      set_worker shm id (record (shm.workers id) { last_error = WorkerError.internal_error })

  -- From `init` on, by whether there is a node that starts; `fatal` and `ready` are the entries for
  -- the log.
  pub begin : Bool → ℕ → LogEntry → LogEntry → ℕ → {S : Type 0} → S → SharedMemory F → Started F S
  begin true id fatal ready node store shm = Started.looping record {
    shm = send_worker_log ready (set_ready true id (set_ready false id shm));
    store = store;
    graph = add_node_to_sequence node (record { execution_order = []; last_failed_node = none });
    primary_node = node;
    worker_id = id;
  }
  begin false id fatal ready node store shm =
      Started.ended (send_worker_log fatal (set_failed id (set_ready false id shm)))

  pub start_node :
      Kind → Bool → ℕ → LogEntry → LogEntry → ℕ → {S : Type 0} → S → SharedMemory F → Started F S
  start_node kind inits id fatal ready node store shm =
      begin (makes_node kind && inits) id fatal ready node store shm

  pub start :
      Setup → Kind → ℕ → LogEntry → LogEntry → ℕ → {S : Type 0} → S → SharedMemory F → Started F S
  start setup kind id fatal ready node store shm =
      if is_open setup.shm_fd && is_open setup.e_send && is_open setup.e_recv && setup.maps
      then start_node kind setup.inits id fatal ready node store shm
      else Started.ended shm

  -- What the process that has ended or is in its loop has left in the shared memory
  abbrev pub memory_of : {S : Type 0} → Started F S → SharedMemory F
  memory_of (Started.ended shm) = shm
  memory_of (Started.looping w) = w.shm

  abbrev pub runs : {S : Type 0} → Started F S → Bool
  runs (Started.ended shm) = false
  runs (Started.looping w) = true

  abbrev Reported : {S : Type 0} → Bool → ℕ → SharedMemory F → Started F S → Type 0
  Reported b id shm up =
      (runs up ≡ b)
      × (((memory_of up).workers id).is_ready ≡ runs up)
      × (((memory_of up).workers id).last_error
          ≡ (if runs up then (shm.workers id).last_error else WorkerError.internal_error))
      × ((k : ℕ) → k ≢ id → (memory_of up).workers k ≡ shm.workers k)

  begin-Reported :
      (b : Bool) (id : ℕ) (fatal ready : LogEntry) (node : ℕ) {S : Type 0} (store : S)
      (shm : SharedMemory F)
      → Reported b id shm (begin b id fatal ready node store shm)
  unfolding begin send_worker_log
  begin-Reported true id fatal ready node store shm =
      let first : WorkerControlBlock = record (shm.workers id) { is_ready = false } in
      let ws = update shm.workers id first in
      let second : WorkerControlBlock = record (ws id) { is_ready = true } in
      let at = update_here ws {i = id} {j = id} second refl in
      (
        refl,
        ap (λ (x : WorkerControlBlock). x.is_ready) at,
        ap (λ (x : WorkerControlBlock). x.last_error) at
            ∙ ap (λ (x : WorkerControlBlock). x.last_error)
                (update_here shm.workers {i = id} {j = id} first refl),
        λ k n. update_else ws second n ∙ update_else shm.workers first n,
      )
  begin-Reported false id fatal ready node store shm =
      let first : WorkerControlBlock = record (shm.workers id) { is_ready = false } in
      let ws = update shm.workers id first in
      let second : WorkerControlBlock = record (ws id) {
        last_error = WorkerError.internal_error;
      } in
      let at = update_here ws {i = id} {j = id} second refl in
      (
        refl,
        ap (λ (x : WorkerControlBlock). x.is_ready) at
            ∙ ap (λ (x : WorkerControlBlock). x.is_ready)
                (update_here shm.workers {i = id} {j = id} first refl),
        ap (λ (x : WorkerControlBlock). x.last_error) at,
        λ k n. update_else ws second n ∙ update_else shm.workers first n,
      )

  begin-runs :
      (b : Bool) (id : ℕ) (fatal ready : LogEntry) (node : ℕ) {S : Type 0} (store : S)
      (shm : SharedMemory F)
      → runs (begin b id fatal ready node store shm) ≡ b
  unfolding begin
  begin-runs true id fatal ready node store shm = refl
  begin-runs false id fatal ready node store shm = refl

  -- A worker comes to its loop exactly when all that it needs is there.
  pub start-runs :
      (setup : Setup) (kind : Kind) (id : ℕ) (fatal ready : LogEntry) (node : ℕ) {S : Type 0}
      (store : S) (shm : SharedMemory F)
      → runs (start setup kind id fatal ready node store shm) ≡ (
          is_open setup.shm_fd
          && is_open setup.e_send
          && is_open setup.e_recv
          && setup.maps
          && (makes_node kind && setup.inits))
  unfolding start start_node
  start-runs setup kind id fatal ready node store shm =
      go (is_open setup.shm_fd && is_open setup.e_send && is_open setup.e_recv && setup.maps)
    where
      go :
          (b : Bool)
          → runs (
              if b
              then start_node kind setup.inits id fatal ready node store shm
              else Started.ended shm)
            ≡ (b && (makes_node kind && setup.inits))
      go true = begin-runs (makes_node kind && setup.inits) id fatal ready node store shm
      go false = refl

  -- Once its descriptors are there and the memory is mapped, a worker comes to its loop exactly when its kind is known and its
  -- node starts. Its block then says that it is ready and keeps its error; else that it is not ready
  -- and that there is an internal error. The blocks of other workers are not touched.
  pub start_reported :
      (setup : Setup) (kind : Kind) (id : ℕ) (fatal ready : LogEntry) (node : ℕ) {S : Type 0}
      (store : S) (shm : SharedMemory F)
      → is_open setup.shm_fd && is_open setup.e_send && is_open setup.e_recv && setup.maps ≡ true
      → (let up = start setup kind id fatal ready node store shm in
          let block = (memory_of up).workers id in
          (runs up ≡ (makes_node kind && setup.inits))
          × (block.is_ready ≡ runs up)
          × (block.last_error
              ≡ (if runs up then (shm.workers id).last_error else WorkerError.internal_error))
          × ((k : ℕ) → k ≢ id → (memory_of up).workers k ≡ shm.workers k))
  unfolding start start_node
  start_reported setup kind id fatal ready node store shm whole =
      rw
        (if_true (start_node kind setup.inits id fatal ready node store shm) (Started.ended shm)
          whole)
        (begin-Reported (makes_node kind && setup.inits) id fatal ready node store shm)
