-- ===== src/Worker/Loop/Rounds.antt =====
-- daemon/worker.cpp: a whole round, from what it does to the two queues.
use mathlib.Core.Path.{subst}
use linux_opensource_univers.Prelude.{
  if_true, if_false, Bool-cases, All, ◌≡◌, refl, sym, ap, ◌∙◌, ◌⊎◌, inl, inr, Bool, true, false,
  not, some,
}
use linux_opensource_univers.Floats.{Floats}
use linux_opensource_univers.Ring.{Ring}
use linux_opensource_univers.Ring.Window.{IsValid, contents}
use linux_opensource_univers.Shm.{AudioFrame, SharedMemory, queue_depth}
use linux_opensource_univers.Worker.{Nodes}
use linux_opensource_univers.Worker.Loop.Transparent.{Transparent}
use linux_opensource_univers.Worker.Loop.Output.{Sized}
use linux_opensource_univers.Worker.Loop.Moved.{Moved, Onward, audio-Goes}
use linux_opensource_univers.Worker.Loop.{Worker, Tick, beat, bypass, control, memory, round}

-- The two queues as they were
pub record SameQueues {F : Type 0} (shm shm' : SharedMemory F) : Type 0 where
  pub same_in : shm'.in_queue ≡ shm.in_queue
  pub same_out : shm'.out_queue ≡ shm.out_queue

module _ {F : Type 0} {a b c : SharedMemory F} where
  same_twice : SameQueues a b → SameQueues b c → SameQueues a c
  same_twice p q = record { same_in = q.same_in ∙ p.same_in; same_out = q.same_out ∙ p.same_out }

  Moved-after : SameQueues a b → Moved b c → Moved a c
  Moved-after p m = record {
    frame = m.frame;
    rest = m.rest;
    oldest = ap (contents queue_depth) (sym p.same_in) ∙ m.oldest;
    removed = m.removed;
    in_valid = m.in_valid;
    out_valid = m.out_valid;
    out = subst (λ (q : Ring (AudioFrame F)). Onward m.frame q c.out_queue) p.same_out m.out;
  }

  Moved-before : Moved a b → SameQueues b c → Moved a c
  Moved-before m p = record {
    frame = m.frame;
    rest = m.rest;
    oldest = m.oldest;
    removed = ap (contents queue_depth) p.same_in ∙ m.removed;
    in_valid = subst (IsValid queue_depth) (sym p.same_in) m.in_valid;
    out_valid = subst (IsValid queue_depth) (sym p.same_out) m.out_valid;
    out = subst (Onward m.frame a.out_queue) (sym p.same_out) m.out;
  }

module _ (fl : Floats) {S : Type 0} (nodes : Nodes (fl.Float) S) where
  open fl use {Float}

  memory-SameQueues : (w : Worker Float S) → SameQueues w.shm (memory nodes w).shm
  unfolding memory
  memory-SameQueues w = record { same_in = refl; same_out = refl }

  abbrev before : Worker Float S → Worker Float S
  before w = control nodes (bypass nodes (beat w))

  before-SameQueues : (w : Worker Float S) → SameQueues w.shm (before w).shm
  unfolding control
  before-SameQueues w = record { same_in = refl; same_out = refl }

  abbrev pub Rounds : Tick → Worker Float S → Type 0
  Rounds tick w =
      (w' : Worker Float S) × (told : Bool) × (round fl nodes tick w ≡ some (w', told))
      × (SameQueues w.shm w'.shm ⊎ Moved w.shm w'.shm)

  module _ (tick : Tick) (w : Worker Float S) (keeps : Transparent nodes)
      (v : IsValid queue_depth w.shm.in_queue) (u : IsValid queue_depth w.shm.out_queue)
      (sizes : All Sized (contents queue_depth w.shm.in_queue)) where
    heard : tick.signalled ≡ true → tick.readable ≡ true → Rounds tick w
    unfolding round control
    heard on there =
        let p = before-SameQueues w in
        let (w1, told, runs, how) = audio-Goes fl nodes tick (before w) keeps v u sizes in
        (
          memory nodes w1,
          told,
          if_false _ _ (ap not on) ∙ (if_false _ _ (ap not there) ∙ rw runs refl),
          elim how [
            | inl same ↦ inl (
                same_twice p (
                  same_twice
                    (record {
                      same_in = ap (λ (m : SharedMemory Float). m.in_queue) same;
                      same_out = ap (λ (m : SharedMemory Float). m.out_queue) same;
                    })
                    (memory-SameQueues w1)))
            | inr m ↦ inr (Moved-before (Moved-after p m) (memory-SameQueues w1))
          ],
        )

    -- A round does not fault, with the plugin's event or without it, on the same terms; and it has moved
    -- the oldest frame on, or left both queues alone.
    pub round-Rounds : Rounds tick w
    unfolding round
    round-Rounds = elim (Bool-cases tick.signalled) [
      | inr off ↦ (
        memory nodes (before w),
        false,
        if_true _ _ (ap not off),
        inl (same_twice (before-SameQueues w) (memory-SameQueues (before w))),
      )
      | inl on ↦ elim (Bool-cases tick.readable) [
        | inr off ↦ (
          before w,
          false,
          if_false _ _ (ap not on) ∙ if_true _ _ (ap not off),
          inl (before-SameQueues w),
        )
        | inl there ↦ heard on there
      ]
    ]
