-- ===== src/Sdk/Dispatch/Watchdog.antt =====
-- sdk/src/dsp_accel_sdk.cpp: what the health checks of `dispatch` let through.
use native.Mathlib.Nat.{mod-eq_of_lt}
use native.Mathlib.Numerals.{add-one}
use linux_opensource_univers.Prelude.{
  ltb, if◌then◌else◌, if_true, if_false, lt→ltb, ne→==_false, Bool-cases, Region, ℤ, u32_mod, ℕ,
  suc, ◌+◌, ◌≤◌, ◌<◌, ◌≡◌, refl, sym, ap, ◌∙◌, ◌≢◌, ◌⊎◌, inl, inr, Bool, true, false, not, some,
  List, arith,
}
use linux_opensource_univers.Floats.{Floats}
use linux_opensource_univers.Shm.{WorkerError, is_none, SharedMemory}
use linux_opensource_univers.Sdk.{Ctx, Session, keep, worker_of, Answer}
use linux_opensource_univers.Sdk.Dispatch.{
  dispatch, dispatch_ptr, dispatch_at, send, watch, clamp_frames, clamp_channels, count_block,
  count_xrun,
}
use linux_opensource_univers.Sdk.Dispatch.Outcome.{counted, send-Outcome, full, sent}

not-is_none : (e : WorkerError) → e ≢ WorkerError.no_error → not (is_none e) ≡ true
not-is_none e bad = ground arith

module _ {fl : Floats} where
  -- Of `send` the watchdog needs to know that it leaves its fields alone.
  pub record SameWatch (c c' : Ctx fl) : Type 0 where
    pub mapped : c'.mapped ≡ c.mapped
    pub worker_id : c'.worker_id ≡ c.worker_id
    pub last : c'.last_worker_heartbeat ≡ c.last_worker_heartbeat
    pub stalled : c'.heartbeat_stalled_count ≡ c.heartbeat_stalled_count

  -- A context whose watchdog has seen `hb` without progress for `n` blocks, and its worker now.
  pub record Stalled (hb n : ℕ) (s : Session fl) : Type 0 where
    pub c : Ctx fl
    pub here : s.ctx ≡ some c
    pub mapped : c.mapped ≡ true
    pub last : c.last_worker_heartbeat ≡ hb
    pub count : c.heartbeat_stalled_count ≡ n
    pub beat : (worker_of c s).heartbeat ≡ hb
    pub quiet : (worker_of c s).last_error ≡ WorkerError.no_error

  -- `n` calls of `dispatch` from `s` on. In between anything may happen to the shared memory, but
  -- the heartbeat of worker `id` stays at `hb`, and it reports no error.
  pub data Calls (hb id : ℕ) (s : Session fl) : ℕ → Session fl → Type 0 where
    start : Calls hb id s 0 s
    call :
        {n : ℕ} {t u : Session fl} (bufs : List (Region (fl.Float))) (frames channels : ℤ) (now : ℕ)
        (answer : Answer) (r : Bool) (shm : SharedMemory (fl.Float))
        → Calls hb id s n t
        → dispatch t bufs frames channels now answer ≡ some (u, r)
        → (shm.workers id).heartbeat ≡ hb
        → (shm.workers id).last_error ≡ WorkerError.no_error
        → Calls hb id s (suc n) (record u { shm = shm })

  -- With no connection, or with an error reported by the worker, `dispatch` says false and touches
  -- neither the shared memory nor the context.
  pub dispatch_refused :
      (bufs : List (Region (fl.Float))) (frames channels : ℤ) (now : ℕ) (answer : Answer)
      (s : Session fl) (c : Ctx fl)
      → s.ctx ≡ some c
      → (c.mapped ≡ false) ⊎ ((worker_of c s).last_error ≢ WorkerError.no_error)
      → dispatch s bufs frames channels now answer ≡ some (s, false)
  unfolding dispatch dispatch_at
  dispatch_refused bufs frames channels now answer s c e why =
      ap (λ p. dispatch_ptr p s bufs frames channels now answer) e ∙ elim why [
        | inl off ↦ if_true _ _ (ap not off)
        | inr bad ↦ elim (Bool-cases c.mapped) [
          | inl on ↦
              if_false _ _ (ap not on) ∙ if_true _ _ (not-is_none (worker_of c s).last_error bad)
          | inr off ↦ if_true _ _ (ap not off)
        ]
      ]

  xrun-SameWatch : (c : Ctx fl) → SameWatch c (count_xrun c)
  unfolding count_xrun
  xrun-SameWatch c = record { mapped = refl; worker_id = refl; last = refl; stalled = refl }

  counted-SameWatch : (answer : Answer) (c : Ctx fl) → SameWatch c (counted answer c)
  unfolding count_block count_xrun
  counted-SameWatch answer c = ground arith

  send-SameWatch :
      (c : Ctx fl) (s u : Session fl) (bufs : List (Region (fl.Float))) (fc chans now : ℕ)
      (answer : Answer) (r : Bool)
      → send c s bufs fc chans now answer ≡ some (u, r)
      → (c' : Ctx fl) × (u.ctx ≡ some c') × SameWatch c c'
  send-SameWatch c s u bufs fc chans now answer r e =
      elim (send-Outcome c s bufs fc chans now answer e) [
        | full _ eu _ ↦ (count_xrun c, ap (λ t. t.ctx) eu, xrun-SameWatch c)
        | sent i out _ _ eu _ ↦ (counted answer c, ap (λ t. t.ctx) eu, counted-SameWatch answer c)
      ]

  module _ (bufs : List (Region (fl.Float))) (frames channels : ℤ) (now : ℕ) (answer : Answer)
      {hb n : ℕ} {s : Session fl} (v : Stalled hb n s) where
    open v use {c, here}

    -- Past the health checks `dispatch` is the watchdog's count and then `send`.
    dispatch-watched : dispatch s bufs frames channels now answer ≡ (
        if ltb 10 (watch hb c).heartbeat_stalled_count
        then some (keep s (watch hb c), false)
        else send (watch hb c) s bufs (clamp_frames frames) (clamp_channels channels) now answer)
    unfolding dispatch dispatch_at
    dispatch-watched =
        ap (λ p. dispatch_ptr p s bufs frames channels now answer) here
        ∙ if_false _ _ (ap not v.mapped)
        ∙ if_false _ _ (ap (λ e. not (is_none e)) v.quiet)
        ∙ ap
            (λ k.
              if ltb 10 (watch k c).heartbeat_stalled_count
              then some (keep s (watch k c), false)
              else send (watch k c) s bufs (clamp_frames frames) (clamp_channels channels) now
                  answer)
            v.beat

    watch-count : n + 1 < u32_mod → (watch hb c).heartbeat_stalled_count ≡ n + 1
    unfolding watch
    watch-count room = ground (arith, v.last, v.count, mod-eq_of_lt {n = n + 1} {m = u32_mod})

    watch-rest :
        ((watch hb c).mapped ≡ true)
        × ((watch hb c).worker_id ≡ c.worker_id)
        × ((watch hb c).last_worker_heartbeat ≡ hb)
    unfolding watch
    watch-rest = ground (arith, v.last, v.mapped)

    zombie :
        10 ≤ n
        → n + 1 < u32_mod
        → dispatch s bufs frames channels now answer ≡ some (keep s (watch hb c), false)
    zombie h room =
        let over : ltb 10 (watch hb c).heartbeat_stalled_count ≡ true =
          lt→ltb 10 (watch hb c).heartbeat_stalled_count (omega (arith, watch-count room)) in
        dispatch-watched ∙ rw over refl

    after_call :
        {u : Session fl} {r : Bool}
        → n + 1 < u32_mod
        → dispatch s bufs frames channels now answer ≡ some (u, r)
        → (c' : Ctx fl) × (u.ctx ≡ some c') × SameWatch (watch hb c) c'
    after_call {u} {r} room e = elim (Bool-cases (ltb 10 (watch hb c).heartbeat_stalled_count)) [
      | inl over ↦
          let f : some (u, r) ≡ some (keep s (watch hb c), false) =
            sym e ∙ dispatch-watched ∙ rw over refl in
          (
            watch hb c,
            cc f,
            record { mapped = refl; worker_id = refl; last = refl; stalled = refl },
          )
      | inr under ↦
          let f : send (watch hb c) s bufs (clamp_frames frames) (clamp_channels channels) now
                answer
              ≡ some (u, r) =
            sym (dispatch-watched ∙ rw under refl) ∙ e in
          send-SameWatch (watch hb c) s u bufs (clamp_frames frames) (clamp_channels channels) now
            answer r f
    ]

    next-Stalled :
        {u : Session fl} {r : Bool} (shm : SharedMemory (fl.Float)) {m : ℕ}
        → m ≡ n + 1
        → m < u32_mod
        → dispatch s bufs frames channels now answer ≡ some (u, r)
        → (shm.workers (c.worker_id)).heartbeat ≡ hb
        → (shm.workers (c.worker_id)).last_error ≡ WorkerError.no_error
        → (t : Stalled hb m (record u { shm = shm })) × (t.c.worker_id ≡ c.worker_id)
    next-Stalled shm {m} is room e beat quiet =
        let room' : n + 1 < u32_mod = omega arith in
        let (c', at, same) = after_call room' e in
        let (mapped, id, last) = watch-rest in
        let same_id : c'.worker_id ≡ c.worker_id = same.worker_id ∙ id in
        (
          record {
            c = c';
            here = at;
            mapped = same.mapped ∙ mapped;
            last = same.last ∙ last;
            count = same.stalled ∙ watch-count room' ∙ sym is;
            beat = ap (λ k. (shm.workers k).heartbeat) same_id ∙ beat;
            quiet = ap (λ k. (shm.workers k).last_error) same_id ∙ quiet;
          },
          same_id,
        )

  Calls-Stalled :
      {hb : ℕ} {s : Session fl} (v : Stalled hb 0 s) {n : ℕ} {t : Session fl}
      → Calls hb (v.c.worker_id) s n t
      → n < u32_mod
      → (w : Stalled hb n t) × (w.c.worker_id ≡ v.c.worker_id)
  Calls-Stalled v start room = (v, refl)
  Calls-Stalled {hb} v (call {n} bufs frames channels now answer r shm calls e beat quiet) room =
      let (w, same) = Calls-Stalled v calls (omega arith) in
      let (x, same') =
        next-Stalled bufs frames channels now answer w shm (sym (add-one n)) room e
          (ap (λ k. (shm.workers k).heartbeat) same ∙ beat)
          (ap (λ k. (shm.workers k).last_error) same ∙ quiet) in
      (x, same' ∙ same)

  -- A worker whose heartbeat has stood still over ten blocks, and that reports no error, is a zombie:
  -- the eleventh `dispatch`, and each one after it until the 32-bit count of such blocks comes round
  -- to 0, says false and leaves the shared memory alone, whatever happened to the queues in between.
  pub zombie_detected :
      (bufs : List (Region (fl.Float))) (frames channels : ℤ) (now : ℕ) (answer : Answer) {hb n : ℕ}
      {s t : Session fl} (v : Stalled hb 0 s)
      → Calls hb (v.c.worker_id) s n t
      → 10 ≤ n
      → n + 1 < u32_mod
      → (c : Ctx fl) × (dispatch t bufs frames channels now answer ≡ some (keep t c, false))
  zombie_detected bufs frames channels now answer {hb} v calls long room =
      let (w, _) = Calls-Stalled v calls (omega arith) in
      (watch hb w.c, zombie bufs frames channels now answer w long room)

  -- Any progress of the heartbeat starts the count again: the watchdog then lets `dispatch` go on to
  -- send, and remembers the new heartbeat.
  pub progress_resets :
      (bufs : List (Region (fl.Float))) (frames channels : ℤ) (now : ℕ) (answer : Answer)
      (s : Session fl) (c : Ctx fl)
      → s.ctx ≡ some c
      → c.mapped ≡ true
      → (worker_of c s).last_error ≡ WorkerError.no_error
      → (worker_of c s).heartbeat ≢ c.last_worker_heartbeat
      → dispatch s bufs frames channels now answer
        ≡ send
            (record c {
              last_worker_heartbeat = (worker_of c s).heartbeat;
              heartbeat_stalled_count = 0;
            })
            s
            bufs
            (clamp_frames frames)
            (clamp_channels channels)
            now
            answer
  unfolding dispatch dispatch_at watch
  progress_resets bufs frames channels now answer s c here mapped quiet moved =
      ap (λ p. dispatch_ptr p s bufs frames channels now answer) here
      ∙ if_false _ _ (ap not mapped)
      ∙ if_false _ _ (ap (λ e. not (is_none e)) quiet)
      ∙ ap
          (λ d.
            if ltb 10 (Ctx.heartbeat_stalled_count d)
            then some (keep s d, false)
            else send d s bufs (clamp_frames frames) (clamp_channels channels) now answer)
          (if_false _ _ (ne→==_false _ _ moved))
