-- ===== src/Supervisor/Tests.antt =====
-- A concrete supervisor: tests, and the theorems at inputs that meet their hypotheses.
use linux_opensource_univers.Prelude.{
  ◌==◌, if◌then◌else◌, get_elem?, ℕ, ◌≡◌, refl, true, false, none, some, List, [], ◌∷◌, map,
}
use linux_opensource_univers.Shm.{SharedMemory, WorkerError, LogEntry}
use linux_opensource_univers.Sdk.Sample.{shared, calm}
use linux_opensource_univers.Supervisor.{
  ComputeNode, Spawn, fresh, spawn_worker, route, granted, on_plugin_connection, find_target,
  destroyed,
}
use linux_opensource_univers.Supervisor.Module.{Host, Loaded, init, set_up}
use linux_opensource_univers.Supervisor.Loading.{Outcome, load_outcome}
use linux_opensource_univers.Supervisor.Monitor.{
  begin, item, comma, close, entry_of, entries, dump_state,
}
use linux_opensource_univers.Supervisor.Json.{read_json, last_mapped, all_listed, dump_reads_back}
use linux_opensource_univers.Worker.Start.{runs}
use linux_opensource_univers.Supervisor.Boot.{child, setup_of, kind_of, worker_boots}
use linux_opensource_univers.Supervisor.Routing.{
  first_healthy, routes_first_healthy, granted_active, destroy_closes_stdin,
}

abbrev good : Spawn ℕ
good = record {
  memfd = some 10;
  truncates = true;
  event_send = some 11;
  event_recv = some 12;
  mapping = some (calm 0 0);
  paired = true;
  process = some 400;
}

abbrev no_file : Spawn ℕ
no_file = record good { memfd = none }

abbrev started : ℕ → SharedMemory ℕ → ComputeNode ℕ
started i shm = record {
  shm = some shm;
  worker_id = i;
  last_heartbeat = 0;
  is_active = true;
  worker_pid = some 300;
  shm_fd = some 6;
  e_send = some 7;
  e_recv = some 8;
}

-- The first worker has lost its device, and the second is well.
abbrev pool : List (ComputeNode ℕ)
pool = started 0 (shared WorkerError.device_lost 0 0) ∷ started 1 (calm 0 0) ∷ []

abbrev spawns : ℕ → Spawn ℕ
spawns i = good

-- The first is restarted and the second is chosen.
route-pool :
    ((route spawns 0 pool).1 ≡ some 1)
    × (map (λ (n : ComputeNode ℕ). n.worker_pid) (route spawns 0 pool).0 ≡ some 400 ∷ some 300 ∷ [])
unfolding route spawn_worker
route-pool = (refl, refl)

routes_first_healthy_test : (route spawns 0 pool).1 ≡ first_healthy 0 pool
routes_first_healthy_test = routes_first_healthy spawns 0 pool

second_granted : on_plugin_connection (some 1) true pool ≡ some (granted (started 1 (calm 0 0)))
unfolding on_plugin_connection find_target
second_granted = refl

granted_active_test :
    (n : ComputeNode ℕ) × (get_elem? pool 1 ≡ some n)
    × (n.is_active ≡ true)
    × (granted (started 1 (calm 0 0)) ≡ granted n)
granted_active_test = granted_active 1 true pool (granted (started 1 (calm 0 0))) second_granted

destroy_closes_stdin_test : destroyed (spawn_worker no_file (fresh 0) ∷ []) ≡ 0 ∷ 0 ∷ []
unfolding destroyed
destroy_closes_stdin_test = destroy_closes_stdin no_file 0 [] refl

-- The file of the third worker cannot be made.
abbrev host : Host ℕ
host = record {
  allocates = true;
  allocates_nodes = true;
  socket = some 9;
  binds = true;
  error = 98;
  spawns = λ i. if i == 2 then no_file else good;
}

load_outcome_example : Outcome host 1 (init host)
load_outcome_example = load_outcome host 1 refl

taken : init (record host { binds = false }) ≡ some (Loaded.failed 98 (9 ∷ []))
unfolding init set_up
taken = refl

-- The worker at the end has no shared memory: its neighbour's comma stays.
abbrev two : List (ComputeNode ℕ)
two = started 0 (calm 0 0) ∷ fresh 1 ∷ []

comma_left :
    dump_state 5 two
    ≡ begin 5 ∷ item (entry_of 0 (started 0 (calm 0 0)) (calm 0 0)) ∷ comma ∷ close ∷ []
unfolding dump_state entries
comma_left = refl

dump_reads_back_example : read_json (dump_state 5 two) ≡ none
unfolding last_mapped all_listed
dump_reads_back_example = dump_reads_back 5 two

both_read :
    read_json (dump_state 5 (started 0 (calm 0 0) ∷ started 1 (calm 0 0) ∷ []))
    ≡ some (
      5,
      entry_of 0 (started 0 (calm 0 0)) (calm 0 0)
          ∷ entry_of 1 (started 1 (calm 0 0)) (calm 0 0)
          ∷ [],
    )
unfolding read_json dump_state entries
both_read = refl

-- The third worker counts as active, and has ended.
third_active : (spawn_worker good (fresh 2)).is_active ≡ true
unfolding spawn_worker
third_active = refl

abbrev entry : LogEntry
entry = record { level = 0; tag = λ i. 0; msg = λ i. 0 }

worker_boots_example :
    runs {S = ℕ} (
      child true
        (setup_of (spawn_worker good (fresh 2)) true true)
        (kind_of 2)
        2
        entry
        entry
        1
        0
        (calm 0 0))
    ≡ false
worker_boots_example = worker_boots good 2 true true true entry entry 1 0 (calm 0 0) third_active
