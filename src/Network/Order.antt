-- ===== src/Network/Order.antt =====
-- daemon/network_node.hpp: in which order `receive_loop` hands frames on.
use linux_opensource_univers.Prelude.{
  Bool-cases, length, update, update_here, update_else, u32_mod, add_u32, ℕ, zero, suc, ◌+◌, ◌%◌,
  ◌<◌, ◌≡◌, refl, sym, ap, ap₂, ◌∙◌, ◌≢◌, inl, inr, Bool, true, false, List, [], ◌∷◌, ◌++◌, arith,
  ℕ_discrete,
}
use native.Mathlib.Nat.{zero-add, suc-add}
use linux_opensource_univers.Shm.{AudioFrame}
use linux_opensource_univers.Network.{
  RemoteNode, drain, advance, ready_slot, jitter_window, store, distance, in_window,
}
use linux_opensource_univers.Network.Drain.{drain_stop, drain_more, next_slot}

-- The slot of the id that is `k` ahead of `e`, and the id
abbrev pub ahead : ℕ → ℕ → ℕ
ahead e k = (e + k) % u32_mod

-- An id in the window is the one that is `distance` ahead.
ahead-distance : (e i : ℕ) → e < u32_mod → i < u32_mod → ahead e (distance i e) ≡ i
ahead-distance e i p q = omega arith

ahead_slot : (e k : ℕ) → (ahead e k) % jitter_window ≡ (e + k) % jitter_window
ahead_slot e k = omega arith

slot_distance :
    (e i k : ℕ)
    → e < u32_mod
    → i < u32_mod
    → distance i e < 32
    → k < 32
    → i % jitter_window ≡ (e + k) % jitter_window
    → k ≡ distance i e
slot_distance e i k p q r s h = omega arith

ahead-suc : (e k : ℕ) → ahead (add_u32 e 1) k ≡ ahead e (suc k)
ahead-suc e k = omega arith

update-false : (f : ℕ → Bool) {i j : ℕ} → update f i false j ≡ true → (j ≢ i) × (f j ≡ true)
update-false f h = (ground arith, ground arith)

below_32 : (e k : ℕ) → k < 32 → (e + suc k) % jitter_window ≢ e % jitter_window → suc k < 32
below_32 e k h n = omega arith

pub in_window→lt : {d : ℕ} → in_window d ≡ true → d < 32
in_window→lt h = ground arith

pub stay : {e : ℕ} → e < u32_mod → e ≡ ahead e 0
stay h = omega arith

in_slot : {e : ℕ} → e < u32_mod → (e + 0) % jitter_window ≡ e % jitter_window
in_slot h = omega arith

module _ {F : Type 0} (stream : ℕ → AudioFrame F) where
  -- The frames with the next `n` ids from `e` on, going round at 2^32
  abbrev pub consecutive : ℕ → ℕ → List (AudioFrame F)
  consecutive e zero = []
  consecutive e (suc n) = stream e ∷ consecutive (add_u32 e 1) n

  pub consecutive-add :
      (e m n : ℕ)
      → e < u32_mod
      → consecutive e (m + n) ≡ consecutive e m ++ consecutive (ahead e m) n
  consecutive-add e zero n h = rw (zero-add, sym (stay h)) refl
  consecutive-add e (suc m) n h =
      rw (suc-add, sym (ahead-suc e m))
        (ap (λ (l : List (AudioFrame F)). stream e ∷ l)
          (consecutive-add (add_u32 e 1) m n (omega arith)))

  -- The slots that are full hold the frames of the window that opens at the expected id.
  pub record Tracks (node : RemoteNode F) : Type 0 where
    pub expected_in : node.expected_seq_id < u32_mod
    pub holds :
        (k : ℕ)
        → k < 32
        → node.jitter_mask ((node.expected_seq_id + k) % jitter_window) ≡ true
        → node.jitter_buffer ((node.expected_seq_id + k) % jitter_window)
          ≡ stream (ahead node.expected_seq_id k)

  held :
      (node : RemoteNode F)
      → Tracks node
      → (k : ℕ) → k < 32
      → (advance node).jitter_mask ((add_u32 node.expected_seq_id 1 + k) % jitter_window) ≡ true
      → node.jitter_buffer ((add_u32 node.expected_seq_id 1 + k) % jitter_window)
        ≡ stream (ahead (add_u32 node.expected_seq_id 1) k)
  held node t k h =
      rw (next_slot node.expected_seq_id k, ahead-suc node.expected_seq_id k)
        (λ m.
          let still = update-false node.jitter_mask m in
          t.holds (suc k) (below_32 node.expected_seq_id k h still.0) still.1)

  advance-Tracks : (node : RemoteNode F) → Tracks node → Tracks (advance node)
  advance-Tracks node t = record { expected_in = omega arith; holds = held node t }

  stored :
      (node : RemoteNode F) (i : ℕ)
      → distance i node.expected_seq_id < 32
      → i < u32_mod
      → Tracks node
      → Tracks (record node {
        jitter_buffer = update node.jitter_buffer (i % jitter_window) (stream i);
        jitter_mask = update node.jitter_mask (i % jitter_window) true;
      })
  stored node i near p t =
      let e : ℕ = node.expected_seq_id in
      record {
        expected_in = t.expected_in;
        holds = λ k h m. elim (ℕ_discrete ((e + k) % jitter_window) (i % jitter_window)) [
          | yes q ↦
              update_here node.jitter_buffer (stream i) q
              ∙ ap stream (
                  sym (
                    ap (ahead e) (slot_distance e i k t.expected_in p near h (sym q))
                    ∙ ahead-distance e i t.expected_in p))
          | no q ↦
              update_else node.jitter_buffer (stream i) q
              ∙ t.holds k h (sym (update_else node.jitter_mask true q) ∙ m)
        ];
      }

  pub store-Tracks :
      (i : ℕ) (node : RemoteNode F) → i < u32_mod → Tracks node → Tracks (store i (stream i) node)
  unfolding store
  store-Tracks i node p t = elim (Bool-cases (in_window (distance i node.expected_seq_id))) [
    | inl y ↦ rw y (stored node i (in_window→lt y) p t)
    | inr n ↦ rw n t
  ]

  pub drain-Tracks : (fuel : ℕ) (node : RemoteNode F) → Tracks node → Tracks (drain fuel node).0
  unfolding drain
  drain-Tracks zero node t = t
  drain-Tracks (suc fuel) node t = elim (Bool-cases (node.jitter_mask (ready_slot node))) [
    | inl y ↦ rw (drain_more fuel node y) (drain-Tracks fuel (advance node) (advance-Tracks node t))
    | inr n ↦ rw (drain_stop fuel node n) t
  ]

  front :
      (node : RemoteNode F)
      → Tracks node
      → node.jitter_mask (ready_slot node) ≡ true
      → node.jitter_buffer (ready_slot node) ≡ stream node.expected_seq_id
  front node t y =
      let here = in_slot t.expected_in in
      sym (ap node.jitter_buffer here)
      ∙ t.holds 0 (omega arith) (ap node.jitter_mask here ∙ y)
      ∙ ap stream (sym (stay t.expected_in))

  -- The loop hands on the frames from the expected id on.
  pub drain_order :
      (fuel : ℕ) (node : RemoteNode F)
      → Tracks node
      → (let (node', frames) = drain fuel node in
          (frames ≡ consecutive node.expected_seq_id (length frames))
          × (node'.expected_seq_id ≡ ahead node.expected_seq_id (length frames)))
  unfolding drain
  drain_order zero node t = (refl, stay t.expected_in)
  drain_order (suc fuel) node t =
      let rest = drain_order fuel (advance node) (advance-Tracks node t) in
      elim (Bool-cases (node.jitter_mask (ready_slot node))) [
        | inl y ↦ rw (drain_more fuel node y) (
          ap₂ (λ (f : AudioFrame F) (l : List (AudioFrame F)). f ∷ l) (front node t y) rest.0,
          rest.1 ∙ ahead-suc node.expected_seq_id (length (drain fuel (advance node)).1),
        )
        | inr n ↦ rw (drain_stop fuel node n) (refl, stay t.expected_in)
      ]
