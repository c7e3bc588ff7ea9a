-- ===== src/Ring/Tests.antt =====
-- Concrete rings: tests of the calls, and the theorems at inputs that meet their hypotheses.
use linux_opensource_univers.Prelude.{
  ◌==◌, if◌then◌else◌, length, update, ℕ, ◌+◌, ◌*◌, ◌<◌, ◌≡◌, refl, ◌≢◌, inl, true, false, none,
  some, List, [], ◌∷◌, ◌++◌, arith,
}
use linux_opensource_univers.Ring.{
  Ring, push, pop, empty, capacity, peek_read, commit_read, reserve_write, commit_write, write_slot,
}
use linux_opensource_univers.Ring.Fifo
use linux_opensource_univers.Ring.Fifo.{Call, pushes, pops, pushed, popped}
use linux_opensource_univers.Ring.Window.{IsValid, contents}
use linux_opensource_univers.Ring.Refine.{run, run_refines, two_step_refines}
use linux_opensource_univers.Ring.Mask.{push_masked, pop_masked, masked_same}
use linux_opensource_univers.Ring.Spsc.{
  State, Reach, start, later, Producer, Consumer, init, push_begin, push_clear, push_store,
  push_publish, pop_begin, pop_ready,
}
use linux_opensource_univers.Ring.Spsc.Liveness.{Drains, consumer_drains}
use linux_opensource_univers.Ring.Spsc.Safety.{fifo, no_race, push_full_full, pop_empty_drained}

-- Capacity 4, holding 8 and 9 round the end of the array.
abbrev wrapped : Ring ℕ
wrapped = record { head = 3; tail = 1; slot = λ i. if i == 3 then 8 else 9 }

abbrev script : List (Call ℕ)
script = pushes 1 ∷ pushes 2 ∷ pops ∷ pops ∷ pops ∷ pops ∷ []

wrapped-IsValid : IsValid 4 wrapped
wrapped-IsValid = omega arith

contents-wrapped : contents 4 wrapped ≡ 8 ∷ 9 ∷ []
contents-wrapped = refl

run-wrapped :
    run 4 wrapped script
    ≡ pushed true
      ∷ pushed false
      ∷ popped (some 8)
      ∷ popped (some 9)
      ∷ popped (some 1)
      ∷ popped none
      ∷ []
unfolding run push pop
run-wrapped = refl

capacity-wrapped : (capacity 4 wrapped ≡ 4) × (empty 4 wrapped ≡ false)
unfolding capacity empty
capacity-wrapped = (refl, refl)

run_refines_example : run 4 wrapped script ≡ Fifo.run 4 (8 ∷ 9 ∷ []) script
run_refines_example = run_refines script wrapped-IsValid

two_step_refines_example :
    (push 4 wrapped 7 ≡ (elim (reserve_write 4 wrapped) [
      | none ↦ (wrapped, false)
      | some i ↦ (commit_write 4 (write_slot i 7 wrapped), true)
    ]))
    × (pop 4 wrapped ≡ (elim (peek_read 4 wrapped) [
      | none ↦ (wrapped, none)
      | some i ↦ (commit_read 4 wrapped, some (wrapped.slot i))
    ]))
two_step_refines_example = two_step_refines 4 wrapped 7

masked_same_example :
    (push_masked 4 wrapped 7 ≡ push 4 wrapped 7) × (pop_masked 4 wrapped ≡ pop 4 wrapped)
masked_same_example = masked_same 2 wrapped 7

-- One push is through, and a second is about to write while the consumer is about to copy.
abbrev zeros : ℕ → ℕ
zeros i = 0

abbrev pushing : State ℕ
pushing = record {
  ring = record { head = 0; tail = 1; slot = update zeros 0 5 };
  producer = Producer.resting;
  consumer = Consumer.resting;
  sent = 5 ∷ [];
  received = [];
}

pushing-Reach : Reach 4 zeros pushing
pushing-Reach =
    later
      (later
        (later (later start (push_begin 5 refl refl)) (push_clear 5 0 refl (λ e. omega arith) refl))
        (push_store 5 0 refl refl))
      (push_publish 5 0 refl refl)

abbrev busy : State ℕ
busy = record pushing { producer = Producer.cleared 6 1; consumer = Consumer.ready 0 }

busy-Reach : Reach 4 zeros busy
busy-Reach =
    later
      (later
        (later (later pushing-Reach (push_begin 6 refl refl))
          (push_clear 6 1 refl (λ e. omega arith) refl))
        (pop_begin refl refl))
      (pop_ready 0 refl (λ e. omega arith) refl)

fifo_example : (5 ∷ [] ≡ [] ++ contents 4 busy.ring) × (length (contents 4 busy.ring) < 4)
fifo_example = fifo (omega arith) (omega arith) busy-Reach

no_race_example : (◌≢◌ {A = ℕ} 1 0) × (1 < 4) × (0 < 4)
no_race_example = no_race (omega arith) (omega arith) busy-Reach refl (inl refl)

-- The producer has stopped before its store, the consumer before its copy.
consumer_drains_example : Drains 4 (4 * length (contents 4 busy.ring)) busy
consumer_drains_example = consumer_drains (omega arith) (omega arith) busy-Reach

-- With a capacity of one nothing can be pushed.
abbrev refused : State ℕ
refused = record (init zeros) { producer = Producer.loaded 6 0 }

push_full_full_test : length (contents 1 refused.ring) + 1 ≡ 1
push_full_full_test =
    push_full_full {A = ℕ} {slot = zeros} (omega arith) (omega arith)
      (later start (push_begin 6 refl refl)) refl refl

abbrev drained : State ℕ
drained = record (init zeros) { consumer = Consumer.loaded 0 }

pop_empty_drained_test : ◌≡◌ {A = List ℕ} [] []
pop_empty_drained_test =
    pop_empty_drained {A = ℕ} {cap = 4} {slot = zeros} (omega arith) (omega arith) {s = drained}
      (later start (pop_begin refl refl)) refl refl
