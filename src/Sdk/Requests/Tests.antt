-- ===== src/Sdk/Requests/Tests.antt =====
-- The theorems on connecting and on requests at inputs that meet their hypotheses.
use linux_opensource_univers.Prelude.{
  All, ℕ, zero, suc, ◌+◌, ◌≡◌, refl, sym, true, false, none, some, List, [], ◌∷◌, ◌++◌, append-nil,
  arith,
}
use linux_opensource_univers.Floats.{naturals}
use linux_opensource_univers.Ring.{push}
use linux_opensource_univers.Shm.{MemoryResponse, bus_depth}
use linux_opensource_univers.Ring.Window.{contents}
use linux_opensource_univers.Sdk.{Ctx, Session, WorkloadType}
use linux_opensource_univers.Sdk.Sample.{ctx, session, calm}
use linux_opensource_univers.Sdk.Connect.{
  Replies, connect, disconnect, given, consistent, connect_closes,
}
use linux_opensource_univers.Sdk.Requests.{
  Meanwhile, request, allocation, allocate_vram, get_stats, accepts_handle, get_latency_samples,
  set_param, fetch_log, upload_buffer, free_vram, set_zero_copy_bypass,
}
use linux_opensource_univers.Sdk.Requests.Answered.{Appends, vram_answered, unconnected_calls}

-- The daemon does not pass the second event.
abbrev cut_short : Replies
cut_short = record {
  socket = some 3;
  connects = true;
  sends = true;
  worker = some 0;
  shm_fd = some 4;
  eventfd_send = some 5;
  eventfd_recv = none;
  maps = true;
}

abbrev outcome : Ctx naturals × List ℕ
outcome = connect WorkloadType.remote 1 cut_short 0 0 (calm 0 0)

connect_closes_example :
    (outcome.1 ++ disconnect outcome.0 ≡ given cut_short) × (consistent outcome.0 ≡ true)
connect_closes_example = connect_closes naturals WorkloadType.remote 1 cut_short 0 0 (calm 0 0)

abbrev response : ℕ → MemoryResponse
response id = record { request_id = id; handle = 9; success = true }

-- Before the first look, a response to another request comes and then the one that is waited for;
-- later the memory changes elsewhere.
abbrev worker : Meanwhile ℕ
worker zero shm = record shm {
  memory_response_bus = record { head = 0; tail = 2; slot = λ i. response (i + 76) };
}
worker (suc n) shm = record shm { prefer_block_parallel = true }

appends : Appends (accepts_handle 77) worker 1
appends zero l shm v = absurd (omega arith)
appends (suc k) l shm v = (v, [], sym (append-nil (contents bus_depth shm.memory_response_bus)))

request-sent : (request (calm 0 0) (allocation 77 64)).1 ≡ true
unfolding push
request-sent = refl

vram_answered_example : (allocate_vram 77 64 worker (session 2 (calm 0 0))).1 ≡ 9
vram_answered_example =
    vram_answered 77 64 worker (session 2 (calm 0 0)) (ctx 2 0) (response 76 ∷ []) [] (response 77)
      refl refl request-sent record { valid = omega arith; waits = refl } (All.cons refl All.nil)
      refl refl appends (omega arith)

abbrev apart : Session naturals
apart = record { ctx = some (record (ctx 2 0) { mapped = false }); shm = calm 0 0 }

unconnected_calls_test :
    (get_stats true apart ≡ none)
    × (get_stats false apart ≡ some none)
    × (get_latency_samples apart ≡ 0)
    × (set_param 1 5 apart ≡ (apart, false))
    × (fetch_log apart ≡ (apart, none))
    × (allocate_vram 1 64 worker apart ≡ (apart, 0))
    × (upload_buffer 1 0 9 (λ i. i) 64 worker apart ≡ (apart, false))
    × (free_vram 9 apart ≡ apart)
    × (set_zero_copy_bypass true apart ≡ apart)
unconnected_calls_test =
    unconnected_calls apart (record (ctx 2 0) { mapped = false }) 1 64 9 0 5 (λ i. i) worker true
      refl refl
