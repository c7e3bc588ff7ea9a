-- ===== src/System/Traffic.antt =====
-- sdk/src/dsp_accel_sdk.cpp with daemon/worker.cpp: a plugin and a worker whose calls and rounds come in any
-- order, any number of times. A call is one step here, and so is a round; Ring.Spsc takes a push and a pop
-- apart.
use linux_opensource_univers.Prelude.{
  Region, pos, ℤ, ℕ, ◌≡◌, Bool, true, false, Option, some, List, [], ◌∷◌, ◌++◌, map,
}
use linux_opensource_univers.Floats.{Floats}
use linux_opensource_univers.Shm.{AudioFrame, SharedMemory, queue_depth}
use linux_opensource_univers.Ring.Window.{IsValid, contents}
use linux_opensource_univers.Sdk.{Ctx, Session, Answer}
use linux_opensource_univers.Sdk.Dispatch.{dispatch, read_output}
use linux_opensource_univers.Worker.{Nodes}
use linux_opensource_univers.Worker.Loop.{Worker, Tick, round}

-- What a reading adds to the timestamps, by its result
abbrev pub heard : Bool → ℕ → List ℕ
heard true stamp = stamp ∷ []
heard false stamp = []

module _ (fl : Floats) {S : Type 0} (nodes : Nodes (fl.Float) S) where
  open fl use {Float}

  -- The plugin's context and the worker, which holds the memory that both share; the clock readings of
  -- the blocks that the plugin has dispatched, and the timestamps of those that it has got back
  pub record Traffic : Type 0 where
    pub ctx : Option (Ctx fl)
    pub worker : Worker Float S
    pub dispatched : List ℕ
    pub delivered : List ℕ

  abbrev pub session : Traffic → Session fl
  session t = record { ctx = t.ctx; shm = t.worker.shm }

  abbrev pub with_session : Session fl → Traffic → Traffic
  with_session u t = record t { ctx = u.ctx; worker = record (t.worker) { shm = u.shm } }

  -- The timestamp that `read_output` looks at
  abbrev pub oldest_stamp : SharedMemory Float → ℕ
  oldest_stamp shm = (shm.out_queue.slot shm.out_queue.head).timestamp_ns

  -- A call of the plugin, or a round of the worker
  pub data Step (t : Traffic) : Traffic → Type 0 where
    dispatches :
        (bufs : List (Region Float)) (frames channels now : ℕ) (answer : Answer) (u : Session fl)
        (r : Bool)
        → dispatch (session t) bufs (pos frames) (pos channels) now answer ≡ some (u, r)
        → Step t (record (with_session u t) { dispatched = t.dispatched ++ now ∷ [] })
    works :
        (tick : Tick) (w : Worker Float S) (told : Bool)
        → round fl nodes tick t.worker ≡ some (w, told)
        → Step t (record t { worker = w })
    reads :
        (bufs : List (Region Float)) (frames channels : ℤ) (ready : Bool) (now : ℕ) (u : Session fl)
        (outs : List (Region Float)) (r : Bool)
        → read_output (session t) bufs frames channels ready now ≡ some (u, outs, r)
        → Step t (record (with_session u t) {
          delivered = t.delivered ++ heard r (oldest_stamp t.worker.shm);
        })

  pub data Run (start : Traffic) : Traffic → Type 0 where
    here : Run start start
    next : {t u : Traffic} → Run start t → Step t u → Run start u

  -- Both sides before their first block
  pub record Fresh (t : Traffic) : Type 0 where
    pub in_valid : IsValid queue_depth t.worker.shm.in_queue
    pub out_valid : IsValid queue_depth t.worker.shm.out_queue
    pub in_empty : contents queue_depth t.worker.shm.in_queue ≡ []
    pub out_empty : contents queue_depth t.worker.shm.out_queue ≡ []
    pub none_dispatched : t.dispatched ≡ []
    pub none_delivered : t.delivered ≡ []

  abbrev pub stamps : List (AudioFrame Float) → List ℕ
  stamps l = map (λ (f : AudioFrame Float). f.timestamp_ns) l

  -- The blocks in the plugin's hands, in `out_queue` and in `in_queue`, oldest first
  abbrev pub under_way : Traffic → List ℕ
  under_way t =
      t.delivered
      ++ stamps (contents queue_depth t.worker.shm.out_queue)
      ++ stamps (contents queue_depth t.worker.shm.in_queue)
