-- ===== src/Ring/Spsc/Safety.antt =====
-- What every interleaving of one producer and one consumer keeps.
use linux_opensource_univers.Prelude.{
  length, ℕ, ◌+◌, ◌^◌, ◌<◌, ◌≡◌, sym, ap, ◌∙◌, ◌≢◌, ◌⊎◌, inl, inr, ◌++◌, append-nil, arith,
}
use linux_opensource_univers.Ring.{next}
use linux_opensource_univers.Ring.Window.{
  contents, window, span, span_lt, length-window, span_zero_iff, ne_of_span_pos, span_full,
}
use linux_opensource_univers.Ring.Spsc.{State, Reach, start, later, Producer, Consumer}
use linux_opensource_univers.Ring.Spsc.Invariant.{Inv, Inv-init, Step-Inv, at_producer, at_consumer}

module _ {A : Type 0} {cap : ℕ} {slot : ℕ → A} (above : 0 < cap) (small : cap < 2 ^ 64) where
  pub Reach-Inv : {s : State A} → Reach cap slot s → Inv cap s
  Reach-Inv start = Inv-init cap slot above small
  Reach-Inv (later r st) = Step-Inv (Reach-Inv r) st

  -- In every reachable state the items sent are those received, followed by those in the ring, in
  -- that order: none is lost, doubled, reordered or torn. The ring holds less than `Capacity`.
  pub fifo :
      {s : State A}
      → Reach cap slot s
      → (s.sent ≡ s.received ++ contents cap s.ring) × (length (contents cap s.ring) < cap)
  fifo {s} r =
      let inv = Reach-Inv r in
      (
        inv.order,
        omega (
          arith,
          length-window s.ring.slot cap s.ring.head (span cap s.ring.head s.ring.tail),
          span_lt cap s.ring.head s.ring.tail small inv.valid.head_in inv.valid.tail_in,
        ),
      )

  -- The slot that the producer is about to write is in the array, and is never the one that the
  -- consumer is about to copy out of or has not yet released.
  pub no_race :
      {s : State A} {item : A} {t h : ℕ}
      → Reach cap slot s
      → s.producer ≡ Producer.cleared item t
      → (s.consumer ≡ Consumer.ready h) ⊎ ((v : A) × (s.consumer ≡ Consumer.copied h v))
      → (t ≢ h) × (t < cap) × (h < cap)
  no_race {s} {item} {t} {h} r e busy =
      let inv = Reach-Inv r in
      let p = at_producer inv e in
      let c : (s.ring.head ≡ h) × (0 < span cap s.ring.head s.ring.tail) = elim busy [
        | inl f ↦ at_consumer inv f
        | inr (v, f) ↦ ((at_consumer inv f).0, (at_consumer inv f).1)
      ] in
      omega (
        arith,
        p.0,
        c,
        ne_of_span_pos cap s.ring.head s.ring.tail small inv.valid.head_in inv.valid.tail_in,
      )

  -- `push` gives up only at a moment when the ring holds `Capacity - 1` items.
  pub push_full_full :
      {s : State A} {item : A} {t : ℕ}
      → Reach cap slot s
      → s.producer ≡ Producer.loaded item t
      → next cap t ≡ s.ring.head
      → length (contents cap s.ring) + 1 ≡ cap
  push_full_full {s} {t = t} r e f =
      let inv = Reach-Inv r in
      let k : s.ring.tail ≡ t = at_producer inv e in
      omega (
        arith,
        length-window s.ring.slot cap s.ring.head (span cap s.ring.head s.ring.tail),
        span_full cap s.ring.head s.ring.tail small inv.valid.head_in inv.valid.tail_in (rw k f),
      )

  -- `pop` gives up only at a moment when all that was sent has been received.
  pub pop_empty_drained :
      {s : State A} {h : ℕ}
      → Reach cap slot s
      → s.consumer ≡ Consumer.loaded h
      → h ≡ s.ring.tail
      → s.received ≡ s.sent
  pop_empty_drained {s} {h} r e f =
      let inv = Reach-Inv r in
      let k : s.ring.head ≡ h = at_consumer inv e in
      let none_held =
        (span_zero_iff cap s.ring.head s.ring.tail small inv.valid.head_in inv.valid.tail_in).1
          (k ∙ f) in
      sym (
        inv.order
        ∙ ap (λ n. s.received ++ window s.ring.slot cap s.ring.head n) none_held
        ∙ append-nil s.received)
