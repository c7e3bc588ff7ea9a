-- ===== src/Ring/Spsc/Liveness.antt =====
-- What the consumer can always do by itself, wherever the producer stands.
use linux_opensource_univers.Prelude.{
  length, ℕ, zero, suc, ◌+◌, ◌*◌, ◌^◌, ◌≤◌, ◌<◌, ◌≡◌, refl, sym, ap, ◌∙◌, ◌≢◌, ◌++◌, append-nil,
  arith,
}
use linux_opensource_univers.Ring.{next}
use linux_opensource_univers.Ring.Window.{
  contents, window, span, length-window, span-next_head, ne_of_span_pos,
}
use linux_opensource_univers.Ring.Spsc.{
  State, Step, Reach, Consumer, pop_begin, pop_ready, pop_copy, pop_release,
}
use linux_opensource_univers.Ring.Spsc.Invariant.{Inv, Step-Inv, at_consumer}
use linux_opensource_univers.Ring.Spsc.Safety.{Reach-Inv}

-- `n` steps of the consumer: every step of the producer would change where the producer stands.
pub data Alone {A : Type 0} (cap : ℕ) : ℕ → State A → State A → Type 0 where
  rest : {s : State A} → Alone cap 0 s s
  also :
      {n : ℕ} {s u v : State A}
      → Step cap s u
      → u.producer ≡ s.producer
      → Alone cap n u v
      → Alone cap (suc n) s v

-- At most `n` steps of the consumer after which all that had been sent has been received
pub record Drains {A : Type 0} (cap n : ℕ) (s : State A) : Type 0 where
  pub steps : ℕ
  pub last : State A
  pub few : steps ≤ n
  pub alone : Alone cap steps s last
  pub received : last.received ≡ s.sent

abbrev held : {A : Type 0} → ℕ → State A → ℕ
held cap s = span cap s.ring.head s.ring.tail

module _ {A : Type 0} {cap : ℕ} where
  before :
      {n m : ℕ} {s u : State A}
      → Step cap s u
      → u.producer ≡ s.producer
      → u.sent ≡ s.sent
      → suc n ≤ m
      → Drains cap n u
      → Drains cap m s
  before step same sent fits d = record {
    steps = suc d.steps;
    last = d.last;
    few = omega (arith, d.few);
    alone = also step same d.alone;
    received = d.received ∙ sent;
  }

  none_held : {s : State A} (n : ℕ) → Inv cap s → held cap s ≡ 0 → Drains cap n s
  none_held {s} n inv e = record {
    steps = 0;
    last = s;
    few = omega arith;
    alone = rest;
    received = sym (
        inv.order
        ∙ ap (λ k. s.received ++ window s.ring.slot cap s.ring.head k) e
        ∙ append-nil s.received);
  }

  not_empty : {s : State A} {k : ℕ} → Inv cap s → held cap s ≡ suc k → s.ring.head ≢ s.ring.tail
  not_empty {s} inv many =
      ne_of_span_pos cap s.ring.head s.ring.tail inv.valid.small inv.valid.head_in inv.valid.tail_in
        (omega (arith, many))

  -- The rest of a `pop`, when what the ring holds after it can be received
  module _ (k : ℕ)
      (later : (u : State A)
        → Inv cap u
        → u.consumer ≡ Consumer.resting
        → held cap u ≡ k
        → Drains cap (4 * k) u) where
    from_copied :
        {s : State A} {h : ℕ} {item : A}
        → Inv cap s
        → s.consumer ≡ Consumer.copied h item
        → held cap s ≡ suc k
        → Drains cap (4 * k + 1) s
    from_copied {s} {h} {item} inv e many =
        let at : s.ring.head ≡ h = (at_consumer inv e).0 in
        let one =
          span-next_head cap s.ring.head s.ring.tail inv.valid.small inv.valid.head_in
            inv.valid.tail_in (not_empty inv many) in
        let fewer : span cap (next cap h) s.ring.tail ≡ k =
          omega (arith, one, many, ap (λ (i : ℕ). span cap (next cap i) s.ring.tail) at) in
        let step = pop_release h item e refl in
        before step refl refl (omega arith) (later _ (Step-Inv inv step) refl fewer)

    from_ready :
        {s : State A} {h : ℕ}
        → Inv cap s
        → s.consumer ≡ Consumer.ready h
        → held cap s ≡ suc k
        → Drains cap (4 * k + 2) s
    from_ready {s} {h} inv e many =
        let step = pop_copy h e refl in
        before step refl refl (omega arith) (from_copied (Step-Inv inv step) refl many)

    from_loaded :
        {s : State A} {h : ℕ}
        → Inv cap s
        → s.consumer ≡ Consumer.loaded h
        → held cap s ≡ suc k
        → Drains cap (4 * k + 3) s
    from_loaded {s} {h} inv e many =
        let at : s.ring.head ≡ h = at_consumer inv e in
        let step = pop_ready h e (λ f. not_empty inv many (at ∙ f)) refl in
        before step refl refl (omega arith) (from_ready (Step-Inv inv step) refl many)

  from_resting :
      (k : ℕ) (s : State A)
      → Inv cap s
      → s.consumer ≡ Consumer.resting
      → held cap s ≡ k
      → Drains cap (4 * k) s
  from_resting zero s inv e many = none_held _ inv many
  from_resting (suc k) s inv e many =
      let step = pop_begin e refl in
      before step refl refl (omega arith)
        (from_loaded k (from_resting k) (Step-Inv inv step) refl many)

  weaker : {n m : ℕ} {s : State A} → n ≤ m → Drains cap n s → Drains cap m s
  weaker fits d = record {
    steps = d.steps;
    last = d.last;
    few = omega (arith, d.few);
    alone = d.alone;
    received = d.received;
  }

  from_any :
      (c : Consumer A) (k : ℕ) {s : State A}
      → Inv cap s
      → s.consumer ≡ c
      → held cap s ≡ k
      → Drains cap (4 * k) s
  from_any c zero inv e many = none_held _ inv many
  from_any Consumer.resting (suc k) {s} inv e many = from_resting (suc k) s inv e many
  from_any (Consumer.loaded h) (suc k) inv e many =
      weaker (omega arith) (from_loaded k (from_resting k) inv e many)
  from_any (Consumer.ready h) (suc k) inv e many =
      weaker (omega arith) (from_ready k (from_resting k) inv e many)
  from_any (Consumer.copied h item) (suc k) inv e many =
      weaker (omega arith) (from_copied k (from_resting k) inv e many)

module _ {A : Type 0} {cap : ℕ} {slot : ℕ → A} (above : 0 < cap) (small : cap < 2 ^ 64) where
  -- In every reachable state, wherever both threads stand, the consumer can receive all that has
  -- been sent, by steps of its own alone, of which it needs at most four for each item in the ring.
  -- A producer that has stopped in the middle of a `push` does not hinder it.
  pub consumer_drains :
      {s : State A} → Reach cap slot s → Drains cap (4 * length (contents cap s.ring)) s
  consumer_drains {s} r =
      let many = length-window s.ring.slot cap s.ring.head (held cap s) in
      from_any s.consumer (length (contents cap s.ring)) (Reach-Inv above small r) refl (sym many)
