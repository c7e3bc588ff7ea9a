-- ===== src/Sdk/Dispatch/Outcome.antt =====
-- sdk/src/dsp_accel_sdk.cpp: the ways in which the end of `dispatch` can go.
use linux_opensource_univers.Prelude.{
  if◌then◌else◌, Bool-cases, Option-cases, Region, ℕ, ◌≡◌, refl, sym, ◌∙◌, inl, inr, Bool, false,
  none, some, List,
}
use linux_opensource_univers.Floats.{Floats}
use linux_opensource_univers.Ring.{reserve_write, commit_write, write_slot}
use linux_opensource_univers.Shm.{SharedMemory, queue_depth, sample_region}
use linux_opensource_univers.Sdk.{Ctx, Session, keep, Answer, signal}
use linux_opensource_univers.Sdk.Copy.{copy_in}
use linux_opensource_univers.Sdk.Dispatch.{send, fill_frame, count_block, count_xrun}

-- The shared memory after a frame has gone into slot `i` of `in_queue`.
abbrev pub committed : {F : Type 0} → SharedMemory F → ℕ → ℕ → ℕ → ℕ → Region F → SharedMemory F
committed shm i fc chans now out = record shm {
  in_queue =
      commit_write queue_depth
        (write_slot i (fill_frame (shm.in_queue.slot i) fc chans now out) shm.in_queue);
}

module _ {fl : Floats} where
  abbrev pub counted : Answer → Ctx fl → Ctx fl
  counted answer c = if signal answer then count_block c else count_xrun c

  pub data Outcome (c : Ctx fl) (s : Session fl) (bufs : List (Region (fl.Float)))
      (fc chans now : ℕ) (answer : Answer) (u : Session fl) (r : Bool) : Type 0 where
    full :
        reserve_write queue_depth s.shm.in_queue ≡ none
        → u ≡ keep s (count_xrun c)
        → r ≡ false
        → Outcome c s bufs fc chans now answer u r
    sent :
        (i : ℕ) (out : Region (fl.Float))
        → reserve_write queue_depth s.shm.in_queue ≡ some i
        → copy_in chans 0 fc bufs (sample_region (s.shm.in_queue.slot i)) ≡ some out
        → u ≡ record { ctx = some (counted answer c); shm = committed s.shm i fc chans now out }
        → r ≡ signal answer
        → Outcome c s bufs fc chans now answer u r

  module _ (c : Ctx fl) (s : Session fl) (bufs : List (Region (fl.Float))) (fc chans now : ℕ)
      (answer : Answer) where
    pub send-full :
        reserve_write queue_depth s.shm.in_queue ≡ none
        → send c s bufs fc chans now answer ≡ some (keep s (count_xrun c), false)
    unfolding send
    send-full e = rw (e, send) refl

    pub send-sent :
        (i : ℕ) (out : Region (fl.Float))
        → reserve_write queue_depth s.shm.in_queue ≡ some i
        → copy_in chans 0 fc bufs (sample_region (s.shm.in_queue.slot i)) ≡ some out
        → send c s bufs fc chans now answer
          ≡ some (
            record { ctx = some (counted answer c); shm = committed s.shm i fc chans now out },
            signal answer,
          )
    unfolding send
    send-sent i out e f =
        rw (e, send) (rw f (elim (Bool-cases (signal answer)) [ inl y ↦ rw y | inr n ↦ rw n ]))

    pub send-fault :
        (i : ℕ)
        → reserve_write queue_depth s.shm.in_queue ≡ some i
        → copy_in chans 0 fc bufs (sample_region (s.shm.in_queue.slot i)) ≡ none
        → send c s bufs fc chans now answer ≡ none
    unfolding send
    send-fault i e f = rw (e, send) (rw f refl)

    -- Whatever `send` returns, it went in one of the two ways.
    pub send-Outcome :
        {u : Session fl} {r : Bool}
        → send c s bufs fc chans now answer ≡ some (u, r)
        → Outcome c s bufs fc chans now answer u r
    send-Outcome {u} {r} h = elim (Option-cases (reserve_write queue_depth s.shm.in_queue)) [
      | inl e ↦ let p = sym h ∙ send-full e in full e (cc p) (cc p)
      | inr (i, e) ↦
          elim (Option-cases (copy_in chans 0 fc bufs (sample_region (s.shm.in_queue.slot i)))) [
            | inl f ↦ absurd (cc (sym h ∙ send-fault i e f))
            | inr (out, f) ↦ let p = sym h ∙ send-sent i out e f in sent i out e f (cc p) (cc p)
          ]
    ]
