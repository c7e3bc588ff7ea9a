-- ===== src/Sdk/Requests/Answered.antt =====
-- sdk/src/dsp_accel_sdk.cpp: when a request for a buffer gets its answer, and what the statistics do
-- without a connection.
use linux_opensource_univers.Prelude.{
  if_true, eq→==, length, All, ℕ, zero, suc, ◌+◌, ◌≤◌, ◌<◌, ◌≡◌, refl, ap, ap₂, ◌∙◌, Bool, true,
  false, ◌&&◌, Option, none, some, List, [], ◌∷◌, ◌++◌, append_assoc, arith,
}
use linux_opensource_univers.Floats.{Floats}
use linux_opensource_univers.Ring.Fifo
use linux_opensource_univers.Ring.Window.{IsValid, contents}
use linux_opensource_univers.Ring.Refine.{pop_refines, pop-IsValid}
use linux_opensource_univers.Shm.{SharedMemory, MemoryResponse, bus_depth}
use linux_opensource_univers.Sdk.{Ctx, Session}
use linux_opensource_univers.Sdk.Requests.{
  Meanwhile, poll, take_response, accepts_handle, request, allocation, allocate_vram, get_stats,
  mapped_of, get_latency_samples, set_param, fetch_log, upload_buffer, free_vram,
  set_zero_copy_bypass,
}

module _ {F B : Type 0} (accepts : MemoryResponse → Option B) (meanwhile : Meanwhile F) where
  -- From the `i`-th look on the others take nothing from the response bus and add to its end at most;
  -- the rest of the shared memory is theirs.
  abbrev pub Appends : ℕ → Type 0
  Appends i =
      (k : ℕ)
      → i ≤ k
      → (shm : SharedMemory F) → IsValid bus_depth shm.memory_response_bus
      → IsValid bus_depth (meanwhile k shm).memory_response_bus
        × (more : List MemoryResponse) × (contents bus_depth (meanwhile k shm).memory_response_bus
            ≡ contents bus_depth shm.memory_response_bus ++ more)

  -- At the `i`-th look the responses `stale` wait, which are not accepted, and then `r`.
  pub record Waiting (i : ℕ) (stale rest : List MemoryResponse) (r : MemoryResponse)
      (shm : SharedMemory F) : Type 0 where
    pub valid : IsValid bus_depth (meanwhile i shm).memory_response_bus
    pub waits : contents bus_depth (meanwhile i shm).memory_response_bus ≡ stale ++ r ∷ rest

  pub poll_finds :
      (n i : ℕ) (stale rest : List MemoryResponse) (r : MemoryResponse) (b : B)
      (shm : SharedMemory F)
      → Waiting i stale rest r shm
      → All (λ (x : MemoryResponse). accepts x ≡ none) stale
      → accepts r ≡ some b
      → Appends (i + 1)
      → length stale < n
      → (poll accepts meanwhile n i shm).1 ≡ some b
  unfolding poll Fifo.pop
  poll_finds zero i stale rest r b shm w all e q h = absurd (omega arith)
  poll_finds (suc n) i [] rest r b shm w All.nil e q h =
      let p = pop_refines w.valid ∙ ap Fifo.pop w.waits in
      rw (ap (λ (x : List MemoryResponse × Option MemoryResponse). x.1) p, poll) (rw e refl)
  poll_finds (suc n) i (x ∷ stale) rest r b shm w (All.cons miss all) e q h =
      let p = pop_refines w.valid ∙ ap Fifo.pop w.waits in
      let shm' = (take_response (meanwhile i shm)).0 in
      let (still, more, added) = q (i + 1) (omega arith) shm' (pop-IsValid w.valid) in
      rw (ap (λ (x : List MemoryResponse × Option MemoryResponse). x.1) p, poll)
        (rw miss (
          poll_finds n (i + 1) stale (rest ++ more) r b shm'
            record {
              valid = still;
              waits =
                  added
                  ∙ ap (λ (x : List MemoryResponse × Option MemoryResponse). x.0 ++ more) p
                  ∙ append_assoc stale (r ∷ rest) more;
            }
            all e (λ k l t. q k (omega arith) t) (omega arith)))

accepted :
    {req_id : ℕ} {r : MemoryResponse}
    → r.request_id ≡ req_id
    → r.success ≡ true
    → accepts_handle req_id r ≡ some r.handle
accepted {req_id = req_id} {r = r} same ok =
    if_true (some r.handle) none (ap₂ (λ (a b : Bool). a && b) (eq→== r.request_id req_id same) ok)

module _ {fl : Floats} where
  open fl use {Float}

  mapped_here :
      (s : Session fl) (c : Ctx fl) → s.ctx ≡ some c → c.mapped ≡ true → mapped_of s ≡ some c
  mapped_here s c e m = rw e (rw m refl)

  -- An allocation that can send its request returns the handle of the first response that bears
  -- its number and tells of success, however many others, fewer than 500, are before it in the bus,
  -- given that the bus has it when the call first looks and that from then on the others only add to
  -- the end of this bus. To the rest of the shared memory, the heartbeats among it, they may do
  -- anything.
  pub vram_answered :
      (req_id size : ℕ) (meanwhile : Meanwhile Float) (s : Session fl) (c : Ctx fl)
      (stale rest : List MemoryResponse) (r : MemoryResponse)
      → s.ctx ≡ some c
      → c.mapped ≡ true
      → (request s.shm (allocation req_id size)).1 ≡ true
      → Waiting
          (accepts_handle req_id)
          meanwhile
          0
          stale
          rest
          r
          (request s.shm (allocation req_id size)).0
      → All (λ (x : MemoryResponse). accepts_handle req_id x ≡ none) stale
      → r.request_id ≡ req_id
      → r.success ≡ true
      → Appends (accepts_handle req_id) meanwhile 1
      → length stale < 500
      → (allocate_vram req_id size meanwhile s).1 ≡ r.handle
  unfolding allocate_vram
  vram_answered req_id size meanwhile s c stale rest r here mapped sent w all same ok q h =
      let found =
        poll_finds (accepts_handle req_id) meanwhile 500 0 stale rest r r.handle
          (request s.shm (allocation req_id size)).0 w all (accepted same ok) q h in
      rw (mapped_here s c here mapped, allocate_vram) (rw sent (rw found refl))

  mapped_not :
      (s : Session fl) (c : Ctx fl) → s.ctx ≡ some c → c.mapped ≡ false → mapped_of s ≡ none
  mapped_not s c e m = rw e (rw m refl)

  -- Without a connection each call for a parameter, the log or a buffer refuses and leaves the
  -- session alone, and the latency is 0. Only `get_stats`, with room for its result, faults: it reads
  -- the load through the shared memory that is not there.
  pub unconnected_calls :
      (s : Session fl) (c : Ctx fl) (id size handle offset : ℕ) (value : Float) (bytes : ℕ → ℕ)
      (meanwhile : Meanwhile Float) (enabled : Bool)
      → s.ctx ≡ some c
      → c.mapped ≡ false
      → (get_stats true s ≡ none)
        × (get_stats false s ≡ some none)
        × (get_latency_samples s ≡ 0)
        × (set_param id value s ≡ (s, false))
        × (fetch_log s ≡ (s, none))
        × (allocate_vram id size meanwhile s ≡ (s, 0))
        × (upload_buffer id offset handle bytes size meanwhile s ≡ (s, false))
        × (free_vram handle s ≡ s)
        × (set_zero_copy_bypass enabled s ≡ s)
  unfolding get_stats get_latency_samples set_param fetch_log allocate_vram upload_buffer free_vram
      set_zero_copy_bypass
  unconnected_calls s c id size handle offset value bytes meanwhile enabled here off =
      let no = mapped_not s c here off in
      (
        rw (here, get_stats) (rw off refl),
        rw (here, get_stats) refl,
        rw (no, get_latency_samples) refl,
        rw (no, set_param) refl,
        rw (no, fetch_log) refl,
        rw (no, allocate_vram) refl,
        rw (no, upload_buffer) refl,
        rw (no, free_vram) refl,
        rw (no, set_zero_copy_bypass) refl,
      )
