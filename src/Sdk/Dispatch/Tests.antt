-- ===== src/Sdk/Dispatch/Tests.antt =====
-- Concrete sessions: tests, and the theorems at inputs that meet their hypotheses.
use linux_opensource_univers.Prelude.{
  Region, pos, negsuc, ℕ, suc, ◌+◌, ◌≡◌, refl, inr, true, false, none, some, List, [], ◌∷◌, arith,
}
use linux_opensource_univers.Floats.{naturals}
use linux_opensource_univers.Ring.{reserve_write}
use linux_opensource_univers.Shm.{WorkerError}
use linux_opensource_univers.Sdk.{Ctx, Session, keep, Answer}
use linux_opensource_univers.Sdk.Sample.{frame, shared, ctx, session, calm}
use linux_opensource_univers.Sdk.Dispatch.{
  dispatch, dispatch_at, send, watch, count_xrun, read_output,
}
use linux_opensource_univers.Sdk.Dispatch.Watchdog.{
  Stalled, Calls, start, call, dispatch_refused, zombie_detected, progress_resets,
}
use linux_opensource_univers.Sdk.Dispatch.Send.{
  Live, watched, Enqueued, dispatch_enqueues, dispatch_xrun, dispatch_negative_faults,
}
use linux_opensource_univers.Sdk.Dispatch.Receive.{
  Received, read_output_receives, read_output_overruns,
}

abbrev channel : Region ℕ
channel = record { size = 4; cell = λ i. i + 10 }

abbrev left_right : List (Region ℕ)
left_right = channel ∷ channel ∷ []

dispatch_refused_test :
    dispatch (session 2 (shared WorkerError.device_lost 0 0)) [] (pos 2) (pos 2) 7 Answer.written
    ≡ some (session 2 (shared WorkerError.device_lost 0 0), false)
dispatch_refused_test =
    dispatch_refused [] (pos 2) (pos 2) 7 Answer.written
      (session 2 (shared WorkerError.device_lost 0 0)) (ctx 2 0) refl (inr (λ e. cc))

-- The queue to the worker is full, and the heartbeat has stood still for `n` blocks.
abbrev stuck : ℕ → Session naturals
stuck n = record { ctx = some (ctx 3 n); shm = calm 15 0 }

abbrev stuck-Stalled : Stalled 3 0 (stuck 0)
stuck-Stalled = record {
  c = ctx 3 0;
  here = refl;
  mapped = refl;
  last = refl;
  count = refl;
  beat = refl;
  quiet = refl;
}

once_more :
    {n : ℕ}
    → dispatch (stuck n) [] (pos 2) (pos 2) 7 Answer.written ≡ some (stuck (suc n), false)
    → Calls 3 0 (stuck 0) n (stuck n)
    → Calls 3 0 (stuck 0) (suc n) (stuck (suc n))
once_more e calls = call [] (pos 2) (pos 2) 7 Answer.written false (calm 15 0) calls e refl refl

ten-Calls : Calls 3 0 (stuck 0) 10 (stuck 10)
unfolding dispatch dispatch_at send watch count_xrun reserve_write
ten-Calls = once_more {n = 9} refl (
    once_more {n = 8} refl (
      once_more {n = 7} refl (
        once_more {n = 6} refl (
          once_more {n = 5} refl (
            once_more {n = 4} refl (
              once_more {n = 3} refl (
                once_more {n = 2} refl
                  (once_more {n = 1} refl (once_more {n = 0} refl start)))))))))

zombie_detected_example :
    (c : Ctx naturals) × (dispatch (stuck 10) [] (pos 2) (pos 2) 7 Answer.written
      ≡ some (keep (stuck 10) c, false))
zombie_detected_example =
    zombie_detected [] (pos 2) (pos 2) 7 Answer.written stuck-Stalled ten-Calls (omega arith)
      (omega arith)

progress_resets_test :
    dispatch (session 2 (calm 0 0)) left_right (pos 2) (pos 2) 7 Answer.written
    ≡ send (ctx 3 0) (session 2 (calm 0 0)) left_right 2 2 7 Answer.written
progress_resets_test =
    progress_resets left_right (pos 2) (pos 2) 7 Answer.written (session 2 (calm 0 0)) (ctx 2 0)
      refl refl refl (omega arith)

live : (n : ℕ) → Live (session 2 (calm n 0)) (ctx 2 0)
unfolding watch
live n = record { here = refl; mapped = refl; quiet = refl; awake = omega arith }

dispatch_enqueues_example :
    Enqueued left_right 2 2 7 Answer.written (session 2 (calm 0 0)) (ctx 2 0)
dispatch_enqueues_example =
    dispatch_enqueues left_right 2 2 7 Answer.written (live 0) (omega arith) (omega arith)
      (omega arith, (omega arith, tt))

dispatch_xrun_test :
    dispatch (session 2 (calm 15 0)) left_right (pos 2) (pos 2) 7 Answer.written
    ≡ some (
      keep (session 2 (calm 15 0)) (count_xrun (watched (session 2 (calm 15 0)) (ctx 2 0))),
      false,
    )
dispatch_xrun_test =
    dispatch_xrun left_right (pos 2) (pos 2) 7 Answer.written (live 15) (omega arith) (omega arith)

dispatch_negative_faults_test :
    dispatch (session 2 (calm 0 0)) left_right (negsuc 0) (pos 2) 7 Answer.written ≡ none
dispatch_negative_faults_test =
    dispatch_negative_faults channel (channel ∷ []) 0 1 7 Answer.written (live 0) (omega arith)
      (omega arith) (omega arith)

read_output_receives_example :
    Received left_right
      (pos 2)
      2
      9
      (session 2 (calm 0 1))
      (ctx 2 0)
      refl
      refl
      frame
      []
      (omega arith)
      refl
      (omega arith)
read_output_receives_example =
    read_output_receives left_right (pos 2) 2 9 (session 2 (calm 0 1)) (ctx 2 0) refl refl frame []
      (omega arith) refl (omega arith) (omega arith) (omega arith) (omega arith, tt)

abbrev short : Region ℕ
short = record channel { size = 1 }

read_output_overruns_test :
    read_output (session 2 (calm 0 1)) (short ∷ []) (pos 1) (pos 1) true 9 ≡ none
read_output_overruns_test =
    read_output_overruns (short ∷ []) (pos 1) 1 9 (session 2 (calm 0 1)) (ctx 2 0) refl refl frame
      [] (omega arith) refl (omega arith) short [] refl (omega arith) (omega arith)
