-- ===== src/Network/Stall.antt =====
-- daemon/network_node.hpp: the numbers that a host's packets bear, and the stall that follows when
-- each audio packet comes back under its own.
use linux_opensource_univers.Prelude.{
  Bool-cases, if_both, All, update_else, u32_mod, ℕ, zero, suc, ◌%◌, ◌≤◌, ◌<◌, ◌≡◌, refl, sym, ap,
  ap₂, ◌∙◌, ◌≢◌, inl, inr, Bool, true, false, List, [], ◌∷◌, ◌++◌, arith,
}
use linux_opensource_univers.Shm.{AudioFrame}
use linux_opensource_univers.Network.{
  RemoteNode, Datagram, drain, drain_fuel, store, receive, jitter_window, ready_slot, advance,
  in_window, distance, new, init, set_shm_ptr, process_stage, apply_control_event, send_packet,
  receive_all, is_audio,
}
use mathlib.Core.List.{Memᴰ}
use linux_opensource_univers.Network.Order.{in_window→lt}
use linux_opensource_univers.Network.Drain.{Stopped, drain_stop, drain_more}
use linux_opensource_univers.Network.Arrive.{Outcome, receive-Outcome}

-- Another id of the window has another slot.
other_slot :
    (i e : ℕ)
    → i < u32_mod
    → e < u32_mod
    → i ≢ e
    → in_window (distance i e) ≡ true
    → e % jitter_window ≢ i % jitter_window
other_slot i e p q n w = let near : distance i e < 32 = in_window→lt w in omega arith

later :
    {i : ℕ} {ids : List ℕ}
    → i ≢ 0
    → ((j : ℕ) → Memᴰ j ids → j ≢ 0)
    → (j : ℕ) → Memᴰ j (i ∷ ids)
    → j ≢ 0
later n h j (Memᴰ.head e) = λ z. n (sym e ∙ z)
later n h j (Memᴰ.tail m) = h j m

module _ {F : Type 0} where
  -- The frame that comes next has not come.
  pub record Waits (e : ℕ) (node : RemoteNode F) : Type 0 where
    pub expects : node.expected_seq_id ≡ e
    pub stopped : node.jitter_mask (e % jitter_window) ≡ false

  -- An audio datagram does not bear the id `e`.
  pub record Lacks (e : ℕ) (d : Datagram F) : Type 0 where
    pub id_in : d.header.sequence_id < u32_mod
    pub other : is_audio d.header.type ≡ true → d.header.sequence_id ≢ e

  here : {e : ℕ} {node : RemoteNode F} → Waits e node → Stopped node
  here {node = node} w = ap (λ (x : ℕ). node.jitter_mask (x % jitter_window)) w.expects ∙ w.stopped

  store-Waits :
      (e i : ℕ) (f : AudioFrame F) (node : RemoteNode F)
      → i < u32_mod
      → e < u32_mod
      → i ≢ e
      → Waits e node
      → Waits e (store i f node)
  unfolding store
  store-Waits e i f node p q n w =
      if_both (Waits e) (in_window (distance i node.expected_seq_id))
        (λ h. record {
          expects = w.expects;
          stopped =
              update_else node.jitter_mask true (
                other_slot i e p q n (ap (λ (x : ℕ). in_window (distance i x)) (sym w.expects) ∙ h))
              ∙ w.stopped;
        })
        (λ _. w)

  receive-stalls :
      (e now : ℕ) (d : Datagram F) (node : RemoteNode F)
      → e < u32_mod
      → Lacks e d
      → Waits e node
      → Waits e (receive now d node).0 × ((receive now d node).1 ≡ [])
  receive-stalls e now d node q l w = stalls (receive-Outcome now d node)
    where
      stalls :
          {r : RemoteNode F × List (AudioFrame F)} → Outcome d node r → Waits e r.0 × (r.1 ≡ [])
      stalls (Outcome.aside o) = (record { expects = w.expects; stopped = w.stopped }, refl)
      stalls (Outcome.queued a) =
          let w' = store-Waits e d.header.sequence_id d.payload node l.id_in q (l.other a) w in
          rw (drain_stop 32 (store d.header.sequence_id d.payload node) (here w')) (w', refl)

  -- While no audio datagram bears the id that comes next, nothing is handed on, whatever comes:
  -- a frame that the network loses holds back all that follow it.
  pub lost_frame_stalls :
      (e : ℕ) (ds : List (ℕ × Datagram F)) (node : RemoteNode F)
      → e < u32_mod
      → Waits e node
      → All (λ (x : ℕ × Datagram F). Lacks e x.1) ds
      → Waits e (receive_all ds node).0 × ((receive_all ds node).1 ≡ [])
  unfolding receive_all
  lost_frame_stalls e [] node q w All.nil = (w, refl)
  lost_frame_stalls e ((now, d) ∷ ds) node q w (All.cons l ls) =
      let r = receive-stalls e now d node q l w in
      let s = lost_frame_stalls e ds (receive now d node).0 q r.0 ls in (s.0, rw r.1 s.1)

  -- A session of a node: its packets go out, and audio datagrams come back under the ids of audio
  -- packets that went out. `count` packets are out, `ids` are those of the audio packets, and
  -- `out` is what has been handed on.
  pub data Session (frames : ℕ → AudioFrame F) (rate : ℕ)
      : ℕ → List ℕ → RemoteNode F → List (AudioFrame F) → Type 0 where
    started :
        (now : ℕ) (sent : Bool)
        → Session frames rate 1 [] (init now sent (new true rate frames)).0 []
    attached :
        {count : ℕ} {ids : List ℕ} {node : RemoteNode F} {out : List (AudioFrame F)}
        → Session frames rate count ids node out
        → Session frames rate count ids (set_shm_ptr node) out
    processed :
        {count : ℕ} {ids : List ℕ} {node : RemoteNode F} {out : List (AudioFrame F)} (now : ℕ)
        (sent : Bool)
        → Session frames rate count ids node out
        → Session frames rate
            (suc count)
            ((process_stage now sent node).1.sequence_id ∷ ids)
            (process_stage now sent node).0
            out
    controlled :
        {count : ℕ} {ids : List ℕ} {node : RemoteNode F} {out : List (AudioFrame F)} (now : ℕ)
        (sent : Bool)
        → Session frames rate count ids node out
        → Session frames rate (suc count) ids (apply_control_event now sent node) out
    arrived :
        {count : ℕ} {ids : List ℕ} {node : RemoteNode F} {out : List (AudioFrame F)} (now : ℕ)
        (d : Datagram F)
        → d.header.sequence_id < u32_mod
        → (is_audio d.header.type ≡ true → Memᴰ d.header.sequence_id ids)
        → Session frames rate count ids node out
        → Session frames rate count ids (receive now d node).0 (out ++ (receive now d node).1)

  drain-seq_id : (fuel : ℕ) (node : RemoteNode F) → (drain fuel node).0.seq_id ≡ node.seq_id
  unfolding drain
  drain-seq_id zero node = refl
  drain-seq_id (suc fuel) node = elim (Bool-cases (node.jitter_mask (ready_slot node))) [
    | inl y ↦ rw (drain_more fuel node y) (drain-seq_id fuel (advance node))
    | inr n ↦ rw (drain_stop fuel node n) refl
  ]

  store-seq_id :
      (i : ℕ) (f : AudioFrame F) (node : RemoteNode F) → (store i f node).seq_id ≡ node.seq_id
  unfolding store
  store-seq_id i f node = ground arith

  receive-seq_id :
      (now : ℕ) (d : Datagram F) (node : RemoteNode F) → (receive now d node).0.seq_id ≡ node.seq_id
  receive-seq_id now d node = same (receive-Outcome now d node)
    where
      same : {r : RemoteNode F × List (AudioFrame F)} → Outcome d node r → r.0.seq_id ≡ node.seq_id
      same (Outcome.aside o) = refl
      same (Outcome.queued a) =
          drain-seq_id drain_fuel (store d.header.sequence_id d.payload node)
          ∙ store-seq_id d.header.sequence_id d.payload node

  record Early (count : ℕ) (ids : List ℕ) (node : RemoteNode F) (out : List (AudioFrame F))
      : Type 0 where
    pub waits : Waits 0 node
    pub counts : node.seq_id ≡ count % u32_mod
    pub handshaken : 0 < count
    pub late : (i : ℕ) → Memᴰ i ids → i ≢ 0
    pub nothing : out ≡ []

  Session-Early :
      {frames : ℕ → AudioFrame F} {rate count : ℕ} {ids : List ℕ} {node : RemoteNode F}
      {out : List (AudioFrame F)}
      → Session frames rate count ids node out
      → count ≤ u32_mod
      → Early count ids node out
  unfolding init new send_packet process_stage apply_control_event set_shm_ptr
  Session-Early (Session.started now sent) b = record {
    waits = record { expects = refl; stopped = refl };
    counts = refl;
    handshaken = omega arith;
    late = λ i m. elim m [ ];
    nothing = refl;
  }
  Session-Early (Session.attached s) b =
      let r = Session-Early s b in
      record {
        waits = record { expects = r.waits.expects; stopped = r.waits.stopped };
        counts = r.counts;
        handshaken = r.handshaken;
        late = r.late;
        nothing = r.nothing;
      }
  Session-Early (Session.processed {count = count} {ids = ids} {node = node} now sent s) b =
      let r = Session-Early s (omega arith) in
      record {
        waits = record { expects = r.waits.expects; stopped = r.waits.stopped };
        counts = omega (arith, r.counts);
        handshaken = omega arith;
        late = later (omega (arith, r.counts, r.handshaken)) r.late;
        nothing = r.nothing;
      }
  Session-Early (Session.controlled now sent s) b =
      let r = Session-Early s (omega arith) in
      record {
        waits = record { expects = r.waits.expects; stopped = r.waits.stopped };
        counts = omega (arith, r.counts);
        handshaken = omega arith;
        late = r.late;
        nothing = r.nothing;
      }
  Session-Early (Session.arrived {node = node} now d id_in echo s) b =
      let r = Session-Early s b in
      let w =
        receive-stalls 0 now d node (omega arith)
          record { id_in = id_in; other = λ a. r.late d.header.sequence_id (echo a) } r.waits in
      record {
        waits = w.0;
        counts = receive-seq_id now d node ∙ r.counts;
        handshaken = r.handshaken;
        late = r.late;
        nothing = ap₂ (λ (a : List (AudioFrame F)) (b : List (AudioFrame F)). a ++ b) r.nothing w.1;
      }

  -- The handshake takes the id 0, which the node itself expects of the first frame: as long as
  -- the counter of packets has not gone round, a session whose audio comes back under the ids of
  -- the audio packets hands no frame on at all.
  pub session_never_delivers :
      (frames : ℕ → AudioFrame F) (rate count : ℕ) (ids : List ℕ) (node : RemoteNode F)
      (out : List (AudioFrame F))
      → Session frames rate count ids node out
      → count ≤ u32_mod
      → out ≡ []
  session_never_delivers frames rate count ids node out s b = (Session-Early s b).nothing
