-- ===== src/System/Tests.antt =====
-- A plugin and a worker, with the theorems at inputs that meet their hypotheses.
use linux_opensource_univers.Prelude.{
  if_both, get_elem?, Region, pos, Subsequence, ℕ, ◌+◌, ◌*◌, ◌≡◌, refl, Bool, true, false, ◌&&◌,
  none, some, List, [], ◌∷◌, arith,
}
use linux_opensource_univers.Floats.{naturals}
use linux_opensource_univers.Shm.{AudioFrame}
use linux_opensource_univers.Sdk.{Answer}
use linux_opensource_univers.Sdk.Sample.{ctx, session, calm}
use linux_opensource_univers.Sdk.Dispatch.{watch}
use linux_opensource_univers.Sdk.Dispatch.Send.{Live, Enqueued, dispatch_enqueues, watched}
use linux_opensource_univers.Worker.{Nodes}
use linux_opensource_univers.Worker.Graph.{
  Graph, process_graph, process_graph_parallel, run, run_staging,
}
use linux_opensource_univers.Worker.Loop.{Worker, Tick, process}
use linux_opensource_univers.Backends.Vulkan
use linux_opensource_univers.Backends.Devices.{Device, Store, devices}
use linux_opensource_univers.Worker.Loop.Rounds.{Rounds}
use linux_opensource_univers.Sdk.Dispatch.Outcome.{counted}
use linux_opensource_univers.System.Traffic.{
  Traffic, Fresh, Run, here, next, dispatches, works, under_way,
}
use linux_opensource_univers.Sdk.{Ctx, WorkloadType}
use linux_opensource_univers.Supervisor.{ComputeNode, on_plugin_connection}
use linux_opensource_univers.System.Joining.{available, connected, Joined, plugin_joins}
use linux_opensource_univers.System.InOrder.{blocks_in_order}
use linux_opensource_univers.Backends.Transparent.{devices-Transparent}
use linux_opensource_univers.System.Heard.{Heard}
use linux_opensource_univers.System.Built.{block_amplified}
use linux_opensource_univers.System.Roundtrip.{Keeps, Returns, block_comes_back}

-- A node that doubles the samples
abbrev doubling : Nodes ℕ ℕ
doubling = record {
  process_stage = λ n s f. (s + 1, record f { samples = λ i. f.samples i * 2 }, true);
  supports_staging = λ n. true;
  apply_control_event = λ n s e. s;
  allocate_buffer = λ n s size. (s, 0);
  upload_buffer = λ n s h offset size. (s, false);
  free_buffer = λ n s h. s;
  set_zero_copy_bypass = λ n s on. s;
}

abbrev worker : Worker ℕ ℕ
worker = record {
  shm = calm 0 0;
  store = 0;
  graph = record { execution_order = 1 ∷ []; last_failed_node = none };
  primary_node = 1;
  worker_id = 0;
}

worker-Keeps : Keeps naturals doubling worker
unfolding Keeps process process_graph process_graph_parallel run run_staging
worker-Keeps shm f =
    if_both
      (λ (r : Graph × ℕ × AudioFrame ℕ × Bool).
        (r.2.frame_count ≡ f.frame_count) × (r.2.channel_count ≡ f.channel_count))
      _ (λ _. (refl, refl)) (λ _. (refl, refl))

live : Live (session 2 (calm 0 0)) (ctx 2 0)
unfolding watch
live = record { here = refl; mapped = refl; quiet = refl; awake = omega arith }

abbrev channel : Region ℕ
channel = record { size = 4; cell = λ i. i + 10 }

abbrev tick : Tick
tick = record { signalled = true; readable = true; elapsed_us = 10; answer = Answer.written }

block_comes_back_example :
    Returns naturals doubling
      (channel ∷ channel ∷ [])
      3
      2
      7
      20
      Answer.written
      tick
      worker
      (session 2 (calm 0 0))
      (ctx 2 0)
block_comes_back_example =
    block_comes_back naturals doubling (channel ∷ channel ∷ []) 3 2 7 20 Answer.written tick worker
      live (omega arith) (omega arith) refl refl (omega arith, (omega arith, tt)) (omega arith)
      worker-Keeps

-- The worker as it is built, with a gain of 3, and a plugin with a block of 3 frames on 2 channels
abbrev amplifier : Vulkan.Backend ℕ
amplifier = record (Vulkan.constructed naturals) {
  gain = 3;
  vk_ctx = some (record { device_id = pos 0 });
}

abbrev built : Worker ℕ (Store ℕ)
built = record {
  shm = calm 0 0;
  store = λ n. Device.vulkan amplifier;
  graph = record { execution_order = 1 ∷ []; last_failed_node = none };
  primary_node = 1;
  worker_id = 0;
}

abbrev idle : Traffic naturals (devices naturals (some 4))
idle = record { ctx = some (ctx 2 0); worker = built; dispatched = []; delivered = [] }

idle-Fresh : Fresh naturals (devices naturals (some 4)) idle
idle-Fresh = record {
  in_valid = omega arith;
  out_valid = omega arith;
  in_empty = refl;
  out_empty = refl;
  none_dispatched = refl;
  none_delivered = refl;
}

-- A block of 3 frames on 2 channels, dispatched at 7
abbrev first :
    Enqueued {fl = naturals}
      (channel ∷ channel ∷ [])
      3
      2
      7
      Answer.written
      (session 2 (calm 0 0))
      (ctx 2 0)
first =
    dispatch_enqueues (channel ∷ channel ∷ []) 3 2 7 Answer.written live (omega arith) (omega arith)
      (omega arith, (omega arith, tt))

abbrev one_sent : Traffic naturals (devices naturals (some 4))
one_sent = record {
  ctx = some (counted Answer.written (watched (session 2 (calm 0 0)) (ctx 2 0)));
  worker = record built { shm = first.shm };
  dispatched = 7 ∷ [];
  delivered = [];
}

one_sent-Run : Run naturals (devices naturals (some 4)) idle one_sent
one_sent-Run = next here (dispatches (channel ∷ channel ∷ []) 3 2 7 Answer.written _ _ first.runs)

-- The worker's round after it, of which the theorem says that it does not fault
abbrev first_round : Rounds naturals (devices naturals (some 4)) tick one_sent.worker
first_round =
    (blocks_in_order naturals (devices naturals (some 4)) (devices-Transparent naturals (some 4))
        idle-Fresh one_sent-Run).1
      tick

abbrev one_back : Traffic naturals (devices naturals (some 4))
one_back = record one_sent { worker = first_round.0 }

blocks_in_order_example :
    Subsequence (under_way naturals (devices naturals (some 4)) one_back) (7 ∷ [])
    × ((t : Tick) → Rounds naturals (devices naturals (some 4)) t one_back.worker)
blocks_in_order_example =
    blocks_in_order naturals (devices naturals (some 4)) (devices-Transparent naturals (some 4))
      idle-Fresh (next one_sent-Run (works tick _ _ (first_round.2)))

block_amplified_example :
    (r : Returns naturals
      (devices naturals (some 4))
      (channel ∷ channel ∷ [])
      3
      2
      7
      20
      Answer.written
      tick
      built
      (session 2 (calm 0 0))
      (ctx 2 0))
    × Heard naturals 3 0 2 6 3 (channel ∷ channel ∷ []) r.outs
block_amplified_example =
    block_amplified naturals (some 4) (channel ∷ channel ∷ []) 3 2 7 20 Answer.written tick built
      amplifier (record { device_id = pos 0 }) refl refl refl refl live (omega arith) (omega arith)
      refl refl (omega arith, (omega arith, tt)) (omega arith)

-- Two workers, and a plugin that asks for the second
abbrev started : ℕ → ComputeNode ℕ
started i = record {
  shm = some (calm 0 0);
  worker_id = i;
  last_heartbeat = 0;
  is_active = true;
  worker_pid = some 300;
  shm_fd = some 6;
  e_send = some 7;
  e_recv = some 8;
}

abbrev pool : List (ComputeNode ℕ)
pool = started 0 ∷ started 1 ∷ []

abbrev joined : Ctx naturals
joined =
    connected naturals WorkloadType.array_processor 1 3 0 0 (calm 0 0) true
      (on_plugin_connection (some 1) true pool)

plugin_joins_example :
    (joined.mapped ≡ (available (get_elem? pool 1) && true))
    × Joined naturals pool 1 (calm 0 0) joined
plugin_joins_example =
    plugin_joins naturals WorkloadType.array_processor 1 3 0 0 (calm 0 0) true pool
