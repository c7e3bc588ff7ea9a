-- ===== src/Ring/Spsc.antt =====
-- daemon/ipc/include/ipc_shm.hpp: one producer in `push` and one consumer in `pop` at the same time,
-- each load, copy and store of theirs a step, in any order. The acquire loads and release stores of
-- `head_` and `tail_` make what a thread sees of the other one such order. `reserve_write` with
-- `commit_write`, and `peek_read` with `commit_read`, take the same steps.
pub mod Invariant
pub mod Safety
pub mod Liveness
use linux_opensource_univers.Prelude.{update, ℕ, ◌≡◌, ◌≢◌, List, [], ◌∷◌, ◌++◌}
use linux_opensource_univers.Ring.{Ring, next}

-- Where the producer stands in `push(item)`, with its local `current_tail`.
pub data Producer (A : Type 0) : Type 0 where
  resting : Producer A
  loaded cleared stored : A → ℕ → Producer A

-- Where the consumer stands in `pop`, with its local `current_head`.
pub data Consumer (A : Type 0) : Type 0 where
  resting : Consumer A
  loaded ready : ℕ → Consumer A
  copied : ℕ → A → Consumer A

-- `sent` is what the pushes that returned true were given, `received` what the pops returned.
pub record State (A : Type 0) : Type 0 where
  pub ring : Ring A
  pub producer : Producer A
  pub consumer : Consumer A
  pub sent : List A
  pub received : List A

pub data Step {A : Type 0} (cap : ℕ) (s u : State A) : Type 0 where
  push_begin :
      (item : A)
      → s.producer ≡ Producer.resting
      → u ≡ record s { producer = Producer.loaded item s.ring.tail }
      → Step cap s u
  push_full :
      (item : A) (tail : ℕ)
      → s.producer ≡ Producer.loaded item tail
      → next cap tail ≡ s.ring.head
      → u ≡ record s { producer = Producer.resting }
      → Step cap s u
  push_clear :
      (item : A) (tail : ℕ)
      → s.producer ≡ Producer.loaded item tail
      → next cap tail ≢ s.ring.head
      → u ≡ record s { producer = Producer.cleared item tail }
      → Step cap s u
  push_store :
      (item : A) (tail : ℕ)
      → s.producer ≡ Producer.cleared item tail
      → u ≡ record s {
        ring = record (s.ring) { slot = update s.ring.slot tail item };
        producer = Producer.stored item tail;
      }
      → Step cap s u
  push_publish :
      (item : A) (tail : ℕ)
      → s.producer ≡ Producer.stored item tail
      → u ≡ record s {
        ring = record (s.ring) { tail = next cap tail };
        producer = Producer.resting;
        sent = s.sent ++ item ∷ [];
      }
      → Step cap s u
  pop_begin :
      s.consumer ≡ Consumer.resting
      → u ≡ record s { consumer = Consumer.loaded s.ring.head }
      → Step cap s u
  pop_empty :
      (head : ℕ)
      → s.consumer ≡ Consumer.loaded head
      → head ≡ s.ring.tail
      → u ≡ record s { consumer = Consumer.resting }
      → Step cap s u
  pop_ready :
      (head : ℕ)
      → s.consumer ≡ Consumer.loaded head
      → head ≢ s.ring.tail
      → u ≡ record s { consumer = Consumer.ready head }
      → Step cap s u
  pop_copy :
      (head : ℕ)
      → s.consumer ≡ Consumer.ready head
      → u ≡ record s { consumer = Consumer.copied head (s.ring.slot head) }
      → Step cap s u
  pop_release :
      (head : ℕ) (item : A)
      → s.consumer ≡ Consumer.copied head item
      → u ≡ record s {
        ring = record (s.ring) { head = next cap head };
        consumer = Consumer.resting;
        received = s.received ++ item ∷ [];
      }
      → Step cap s u

-- `head_{0}` and `tail_{0}`, both threads outside their calls.
abbrev pub init : {A : Type 0} → (ℕ → A) → State A
init slot = record {
  ring = record { head = 0; tail = 0; slot = slot };
  producer = Producer.resting;
  consumer = Consumer.resting;
  sent = [];
  received = [];
}

pub data Reach {A : Type 0} (cap : ℕ) (slot : ℕ → A) : State A → Type 0 where
  start : Reach cap slot (init slot)
  later : {s u : State A} → Reach cap slot s → Step cap s u → Reach cap slot u
