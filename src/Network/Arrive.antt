-- ===== src/Network/Arrive.antt =====
-- daemon/network_node.hpp: what `receive_loop` does with the datagrams that come.
use linux_opensource_univers.Prelude.{
  ltb, ◌==◌, if_both, and_left, length, length-append, All, ℤ, u32_mod, ℕ, ◌<◌, ◌≡◌, refl, sym, ap,
  ap₂, ◌∙◌, true, not, ◌&&◌, List, [], ◌∷◌, ◌++◌, arith,
}
use linux_opensource_univers.Shm.{AudioFrame}
use linux_opensource_univers.Network.{
  RemoteNode, Datagram, drain, drain_fuel, store, receive, receive_all, header_size, net_magic,
  is_audio, is_clock_sync,
}
use linux_opensource_univers.Network.Order.{
  Tracks, consecutive, consecutive-add, ahead, drain_order, drain-Tracks, store-Tracks, stay,
}

module _ {F : Type 0} where
  -- A datagram goes through the jitter buffer, or changes the clock at most.
  pub data Outcome (d : Datagram F) (node : RemoteNode F)
      : RemoteNode F × List (AudioFrame F) → Type 0 where
    queued :
        is_audio d.header.type ≡ true
        → Outcome d node (drain drain_fuel (store d.header.sequence_id d.payload node))
    aside : (offset : ℤ) → Outcome d node (record node { clock_offset_ns = offset }, [])

  pub receive-Outcome :
      (now : ℕ) (d : Datagram F) (node : RemoteNode F) → Outcome d node (receive now d node)
  unfolding receive
  receive-Outcome now d node =
      let is = Outcome d node in
      if_both is (ltb d.length header_size) (λ _. aside node.clock_offset_ns)
        (λ _.
          if_both is (not (d.header.magic == net_magic)) (λ _. aside node.clock_offset_ns)
            (λ _.
              if_both is (is_audio d.header.type && node.attached)
                (λ h. queued (and_left node.attached h))
                (λ _.
                  if_both is (is_clock_sync d.header.type) (λ _. aside _)
                    (λ _. aside node.clock_offset_ns))))

  -- An audio datagram brings the frame that bears its id.
  pub record Honest (stream : ℕ → AudioFrame F) (d : Datagram F) : Type 0 where
    pub id_in : d.header.sequence_id < u32_mod
    pub bears : is_audio d.header.type ≡ true → d.payload ≡ stream d.header.sequence_id

  -- Frames have come in order up to a new expected id.
  record InOrder (stream : ℕ → AudioFrame F) (node : RemoteNode F)
      (r : RemoteNode F × List (AudioFrame F)) : Type 0 where
    pub tracks : Tracks stream r.0
    pub frames : r.1 ≡ consecutive stream node.expected_seq_id (length r.1)
    pub expected : r.0.expected_seq_id ≡ ahead node.expected_seq_id (length r.1)

  store_expected :
      (i : ℕ) (f : AudioFrame F) (node : RemoteNode F)
      → (store i f node).expected_seq_id ≡ node.expected_seq_id
  unfolding store
  store_expected i f node = ground arith

  receive-InOrder :
      (stream : ℕ → AudioFrame F) (now : ℕ) (d : Datagram F) (node : RemoteNode F)
      → Honest stream d
      → Tracks stream node
      → InOrder stream node (receive now d node)
  receive-InOrder stream now d node h t = ordered (receive-Outcome now d node)
    where
      ordered : {r : RemoteNode F × List (AudioFrame F)} → Outcome d node r → InOrder stream node r
      ordered (queued a) =
          let i : ℕ = d.header.sequence_id in
          let t' = store-Tracks stream i node h.id_in t in
          let o = drain_order stream drain_fuel (store i (stream i) node) t' in
          rw (h.bears a) record {
            tracks = drain-Tracks stream drain_fuel (store i (stream i) node) t';
            frames =
                o.0
                ∙ ap
                    (λ (e : ℕ).
                      consecutive stream e (length (drain drain_fuel (store i (stream i) node)).1))
                    (store_expected i (stream i) node);
            expected =
                o.1
                ∙ ap (λ (e : ℕ). ahead e (length (drain drain_fuel (store i (stream i) node)).1))
                    (store_expected i (stream i) node);
          }
      ordered (aside o) = record {
        tracks = record { expected_in = t.expected_in; holds = t.holds };
        frames = refl;
        expected = stay t.expected_in;
      }

  InOrder-append :
      (stream : ℕ → AudioFrame F) (node : RemoteNode F) (r s : RemoteNode F × List (AudioFrame F))
      → node.expected_seq_id < u32_mod
      → InOrder stream node r
      → InOrder stream r.0 s
      → InOrder stream node (s.0, r.1 ++ s.1)
  InOrder-append stream node r s h p q = record {
    tracks = q.tracks;
    frames =
        ap₂ (λ (a : List (AudioFrame F)) (b : List (AudioFrame F)). a ++ b) p.frames
          (q.frames ∙ ap (λ (e : ℕ). consecutive stream e (length s.1)) p.expected)
        ∙ sym (consecutive-add stream node.expected_seq_id (length r.1) (length s.1) h)
        ∙ ap (consecutive stream node.expected_seq_id) (sym (length-append r.1 s.1));
    expected = omega (arith, q.expected, p.expected, length-append r.1 s.1);
  }

  receive_all-InOrder :
      (stream : ℕ → AudioFrame F) (ds : List (ℕ × Datagram F)) (node : RemoteNode F)
      → Tracks stream node
      → All (λ (x : ℕ × Datagram F). Honest stream x.1) ds
      → InOrder stream node (receive_all ds node)
  unfolding receive_all
  receive_all-InOrder stream [] node t All.nil = record {
    tracks = t;
    frames = refl;
    expected = stay t.expected_in;
  }
  receive_all-InOrder stream ((now, d) ∷ ds) node t (All.cons h hs) =
      let p = receive-InOrder stream now d node h t in
      InOrder-append stream node (receive now d node) (receive_all ds (receive now d node).0)
        t.expected_in p (receive_all-InOrder stream ds (receive now d node).0 p.tracks hs)

  -- Whatever datagrams come, with the frames of one stream numbered from 0 to 2^32 - 1 and round
  -- again, lost, repeated or late ones among them: what is handed on are the frames that follow on
  -- the expected id, in order and with none left out, and the expected id is the one after them.
  pub delivered_in_order :
      (stream : ℕ → AudioFrame F) (ds : List (ℕ × Datagram F)) (node : RemoteNode F)
      → Tracks stream node
      → All (λ (x : ℕ × Datagram F). Honest stream x.1) ds
      → (let (node', frames) = receive_all ds node in
          (frames ≡ consecutive stream node.expected_seq_id (length frames))
          × (node'.expected_seq_id ≡ ahead node.expected_seq_id (length frames)))
  delivered_in_order stream ds node t h =
      let p = receive_all-InOrder stream ds node t h in (p.frames, p.expected)
