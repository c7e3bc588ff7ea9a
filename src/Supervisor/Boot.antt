-- ===== src/Supervisor/Boot.antt =====
-- daemon/pipewire/module-dsp-accel.cpp with daemon/worker.cpp: a worker from the supervisor's `spawn_worker` to its
-- loop.
use linux_opensource_univers.Prelude.{
  ltb, ◌==◌, if◌then◌else◌, ℕ, ◌≡◌, refl, ap, ◌∙◌, Bool, true, false, ◌&&◌, Option, none, some,
  arith,
}
use linux_opensource_univers.Shm.{SharedMemory, LogEntry}
use linux_opensource_univers.Sdk.{Fd}
use linux_opensource_univers.Sdk.Connect.{is_open}
use linux_opensource_univers.Supervisor.{ComputeNode, Spawn, fresh, with_file, spawn_worker}
use linux_opensource_univers.Worker.Start.{
  Kind, Setup, Started, makes_node, start, start-runs, runs,
}

-- `type_str`, as the worker reads it: it does not know "dsp".
abbrev pub kind_of : ℕ → Kind
kind_of id = if id == 0 then Kind.vulkan else if id == 1 then Kind.npu else Kind.other

known : (id : ℕ) → makes_node (kind_of id) ≡ ltb id 2
known id = ground arith

module _ {F : Type 0} where
  -- What the worker receives on its standard input, where it can map the memory and start its node
  abbrev pub setup_of : ComputeNode F → Bool → Bool → Setup
  setup_of n maps inits = record {
    shm_fd = n.shm_fd;
    e_send = n.e_send;
    e_recv = n.e_recv;
    maps = maps;
    inits = inits;
  }

  -- The child of `fork`: where `execl` fails it writes to the log and ends with 1, else it is the
  -- worker.
  pub child :
      Bool
      → Setup
      → Kind
      → ℕ
      → LogEntry
      → LogEntry
      → ℕ
      → {S : Type 0} → S
      → SharedMemory F
      → Started F S
  child false setup kind id fatal ready node store shm = Started.ended shm
  child true setup kind id fatal ready node store shm =
      start setup kind id fatal ready node store shm

  child-runs :
      (executes : Bool) (setup : Setup) (kind : Kind) (id : ℕ) (fatal ready : LogEntry) (node : ℕ)
      {S : Type 0} (store : S) (shm : SharedMemory F)
      → runs (child executes setup kind id fatal ready node store shm)
        ≡ (executes && runs (start setup kind id fatal ready node store shm))
  unfolding child
  child-runs false setup kind id fatal ready node store shm = refl
  child-runs true setup kind id fatal ready node store shm = refl

  started_runs :
      (r : Spawn F) (id : ℕ) (maps inits : Bool) (fatal ready : LogEntry) (node : ℕ) {S : Type 0}
      (store : S) (shm : SharedMemory F)
      → (spawn_worker r (fresh id)).is_active ≡ true
      → runs (
          start
            (setup_of (spawn_worker r (fresh id)) maps inits)
            (kind_of id)
            id
            fatal
            ready
            node
            store
            shm)
        ≡ (is_open r.event_send && is_open r.event_recv && maps && (ltb id 2 && inits))
  unfolding spawn_worker
  started_runs r id maps inits fatal ready node store shm active =
      go r.memfd r.truncates r.mapping r.paired r.process active
    where
      go :
          (m : Fd) (t : Bool) (s : Option (SharedMemory F)) (p : Bool) (k : Option ℕ)
          → (with_file m
              (record r { memfd = m; truncates = t; mapping = s; paired = p; process = k })
              (fresh id)).is_active
            ≡ true
          → runs (
              start
                (setup_of
                  (with_file m
                    (record r { memfd = m; truncates = t; mapping = s; paired = p; process = k })
                    (fresh id))
                  maps
                  inits)
                (kind_of id)
                id
                fatal
                ready
                node
                store
                shm)
            ≡ (is_open r.event_send && is_open r.event_recv && maps && (ltb id 2 && inits))
      go none t s p k e = cc
      go (some m) false s p k e = cc
      go (some m) true none p k e = cc
      go (some m) true (some s) false k e = cc
      go (some m) true (some s) true none e = cc
      go (some m) true (some s) true (some k) e =
          start-runs
            (setup_of
              (with_file (some m)
                (record r {
                  memfd = some m;
                  truncates = true;
                  mapping = some s;
                  paired = true;
                  process = some k;
                })
                (fresh id))
              maps inits)
            (kind_of id) id fatal ready node store shm
          ∙ ap (λ (b : Bool). is_open r.event_send && is_open r.event_recv && maps && (b && inits))
              (known id)

  -- The process of a worker that the supervisor has started and counts as active comes to the
  -- worker's loop exactly when `execl` succeeds, its two events could be made, it maps the memory, its
  -- number is 0 or 1, and its node starts.
  pub worker_boots :
      (r : Spawn F) (id : ℕ) (executes maps inits : Bool) (fatal ready : LogEntry) (node : ℕ)
      {S : Type 0} (store : S) (shm : SharedMemory F)
      → (spawn_worker r (fresh id)).is_active ≡ true
      → runs (
          child executes
            (setup_of (spawn_worker r (fresh id)) maps inits)
            (kind_of id)
            id
            fatal
            ready
            node
            store
            shm)
        ≡ (executes
            && (is_open r.event_send && is_open r.event_recv && maps && (ltb id 2 && inits)))
  worker_boots r id executes maps inits fatal ready node store shm active =
      child-runs executes (setup_of (spawn_worker r (fresh id)) maps inits) (kind_of id) id fatal
        ready node store shm
      ∙ ap (λ (b : Bool). executes && b)
          (started_runs r id maps inits fatal ready node store shm active)
