-- ===== src/Network/Drain.antt =====
-- daemon/network_node.hpp: the loop of `receive_loop` that empties the jitter buffer.
use linux_opensource_univers.Prelude.{
  Bool-cases, add_u32, ℕ, zero, suc, ◌+◌, ◌%◌, ◌≤◌, ◌<◌, ◌≡◌, refl, sym, ap, ◌∙◌, ◌≢◌, inl, inr,
  true, false, List, [], ◌∷◌, arith,
}
use native.Mathlib.Nat.{add-zero}
use linux_opensource_univers.Shm.{AudioFrame}
use linux_opensource_univers.Network.{
  RemoteNode, drain, advance, ready_slot, jitter_window, drain_fuel,
}

pub next_slot : (e m : ℕ) → (add_u32 e 1 + m) % jitter_window ≡ (e + suc m) % jitter_window
next_slot e m = omega arith

slots_differ : (e m : ℕ) → m < 31 → (e + suc m) % jitter_window ≢ e % jitter_window
slots_differ e m h = omega arith

module _ {F : Type 0} where
  pub drain_stop :
      (fuel : ℕ) (node : RemoteNode F)
      → node.jitter_mask (ready_slot node) ≡ false
      → drain (suc fuel) node ≡ (node, [])
  unfolding drain
  drain_stop fuel node e = rw (e, drain) refl

  pub drain_more :
      (fuel : ℕ) (node : RemoteNode F)
      → node.jitter_mask (ready_slot node) ≡ true
      → drain (suc fuel) node ≡ (
        (drain fuel (advance node)).0,
        node.jitter_buffer (ready_slot node) ∷ (drain fuel (advance node)).1,
      )
  unfolding drain
  drain_more fuel node e = rw (e, drain) refl

  -- The slot that comes next is empty.
  abbrev pub Stopped : RemoteNode F → Type 0
  Stopped node = node.jitter_mask (ready_slot node) ≡ false

  advance_mask :
      (node : RemoteNode F) (m : ℕ)
      → node.jitter_mask ((node.expected_seq_id + suc m) % jitter_window) ≡ false
      → (let n = advance node in n.jitter_mask ((n.expected_seq_id + m) % jitter_window) ≡ false)
  advance_mask node m e = rw (next_slot node.expected_seq_id m) (ground (arith, e))

  Stopped-here :
      (node : RemoteNode F)
      → node.jitter_mask ((node.expected_seq_id + 0) % jitter_window) ≡ false
      → Stopped node
  Stopped-here node e = rw (sym (add-zero node.expected_seq_id)) e

  -- `fuel` rounds come to an empty slot, and `limit` rounds do no more.
  Ends : ℕ → ℕ → RemoteNode F → Type 0
  Ends fuel limit node = Stopped (drain fuel node).0 × (drain limit node ≡ drain fuel node)

  Ends-now :
      (fuel limit : ℕ) (node : RemoteNode F) → Stopped node → Ends (suc fuel) (suc limit) node
  unfolding Ends
  Ends-now fuel limit node n =
      (rw (drain_stop fuel node n) n, drain_stop limit node n ∙ sym (drain_stop fuel node n))

  Ends-later :
      (fuel limit : ℕ) (node : RemoteNode F)
      → Ends fuel limit (advance node)
      → Ends (suc fuel) (suc limit) node
  unfolding Ends
  Ends-later fuel limit node rest = elim (Bool-cases (node.jitter_mask (ready_slot node))) [
    | inr n ↦ Ends-now fuel limit node n
    | inl y ↦ (
      rw (drain_more fuel node y) rest.0,
      drain_more limit node y
          ∙ ap
              (λ (r : RemoteNode F × List (AudioFrame F)).
                (r.0, node.jitter_buffer (ready_slot node) ∷ r.1))
              rest.1
          ∙ sym (drain_more fuel node y),
    )
  ]

  -- A slot that is empty `m` places on is the furthest that the loop goes.
  Ends-at :
      (fuel m limit : ℕ) (node : RemoteNode F)
      → m < fuel
      → fuel ≤ limit
      → node.jitter_mask ((node.expected_seq_id + m) % jitter_window) ≡ false
      → Ends fuel limit node
  Ends-at zero m limit node h l e = absurd (omega arith)
  Ends-at (suc fuel) m zero node h l e = absurd (omega arith)
  Ends-at (suc fuel) zero (suc limit) node h l e = Ends-now fuel limit node (Stopped-here node e)
  Ends-at (suc fuel) (suc m) (suc limit) node h l e =
      Ends-later fuel limit node
        (Ends-at fuel m limit (advance node) (omega arith) (omega arith) (advance_mask node m e))

  advance_clears :
      (node : RemoteNode F)
      → (let n = advance node in n.jitter_mask ((n.expected_seq_id + 31) % jitter_window) ≡ false)
  advance_clears node = ground arith

  -- However many frames are waiting, the loop comes to an empty slot within `drain_fuel` rounds,
  -- and with more fuel the outcome is the same.
  pub drain_enough :
      (limit : ℕ) (node : RemoteNode F)
      → drain_fuel ≤ limit
      → Stopped (drain drain_fuel node).0 × (drain limit node ≡ drain drain_fuel node)
  unfolding Ends
  drain_enough zero node l = absurd (omega arith)
  drain_enough (suc limit) node l =
      Ends-later 32 limit node
        (Ends-at 32 31 limit (advance node) (omega arith) (omega arith) (advance_clears node))
