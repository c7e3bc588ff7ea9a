-- ===== src/CSdk/Tests.antt =====
-- The C variant of the SDK on concrete blocks.
use linux_opensource_univers.Prelude.{
  Region, pos, ℕ, ◌+◌, ◌≡◌, refl, true, false, Option, none, some, List, [], ◌∷◌, ◌++◌, arith,
}
use linux_opensource_univers.Floats.{naturals}
use linux_opensource_univers.Shm.{AudioFrame, SharedMemory, queue_depth}
use linux_opensource_univers.Ring.{pop}
use linux_opensource_univers.Ring.Window.{contents}
use linux_opensource_univers.Sdk.{WorkloadType, Answer}
use linux_opensource_univers.Sdk.Sample.{ctx, session, calm, frame}
use linux_opensource_univers.Sdk.Dispatch.{watch}
use linux_opensource_univers.Sdk.Dispatch.Send.{Live, Enqueued, dispatch_enqueues}
use linux_opensource_univers.CSdk.{Ctx, dispatch, read_output, copy_frame}
use linux_opensource_univers.CSdk.Connect.{
  Replies, connect, connect_socket, disconnect, leaked, received, c_connect_leaks,
}
use linux_opensource_univers.CSdk.Agree.{SameBlock, variants_agree}
use linux_opensource_univers.CSdk.Overrun.{c_channels_overrun}

abbrev mapped_ctx : Ctx
mapped_ctx = record {
  type = WorkloadType.remote;
  socket_fd = some 3;
  shm_fd = some 4;
  e_send = some 5;
  e_recv = some 6;
  mapped = true;
}

abbrev buffer : ℕ → Region ℕ
buffer v = record { size = 64; cell = λ i. v + i }

live : Live (session 2 (calm 0 0)) (ctx 2 0)
unfolding watch
live = record { here = refl; mapped = refl; quiet = refl; awake = omega arith }

sent : Enqueued (buffer 1 ∷ buffer 2 ∷ []) 8 2 7 Answer.written (session 2 (calm 0 0)) (ctx 2 0)
sent =
    dispatch_enqueues (buffer 1 ∷ buffer 2 ∷ []) 8 2 7 Answer.written live (omega arith)
      (omega arith) (omega arith)

variants_agree_example :
    (shm : SharedMemory ℕ) × (f : AudioFrame ℕ) × (dispatch
        (some mapped_ctx)
        true
        frame
        (calm 0 0)
        (buffer 1 ∷ buffer 2 ∷ [])
        (pos 8)
        (pos 2)
      ≡ some (shm, true))
    × (contents queue_depth shm.in_queue ≡ f ∷ [])
    × SameBlock f sent.frame
    × (shm ≡ record (calm 0 0) { in_queue = shm.in_queue })
variants_agree_example =
    variants_agree naturals (buffer 1 ∷ buffer 2 ∷ []) 8 2 7 Answer.written (session 2 (calm 0 0))
      (ctx 2 0) mapped_ctx true frame sent refl (omega arith) (omega arith) (omega arith)
      (omega arith) (omega arith)

c_channels_overrun_test :
    dispatch (some mapped_ctx) true frame (calm 0 0) (buffer 1 ∷ []) (pos 8) (pos 9) ≡ none
c_channels_overrun_test =
    c_channels_overrun mapped_ctx true frame (calm 0 0) (buffer 1 ∷ []) 8 9 refl (omega arith)
      (omega arith) (omega arith)

-- The third descriptor does not come.
abbrev two_of_three : Replies
two_of_three = record {
  socket = some 3;
  connects = true;
  answers = true;
  shm_fd = some 4;
  e_send = some 5;
  e_recv = none;
  allocates = true;
  maps = true;
}

two_lost :
    (connect WorkloadType.remote (some 3) two_of_three ≡ some (none, 3 ∷ []))
    × (leaked two_of_three ≡ 4 ∷ 5 ∷ [])
unfolding connect connect_socket
two_lost = (refl, refl)

c_connect_leaks_example :
    (c : Option Ctx) × (closed : List ℕ) × (connect WorkloadType.remote (some 3) two_of_three
      ≡ some (c, closed))
    × (leaked two_of_three ++ closed ++ disconnect c ≡ received two_of_three ++ 3 ∷ [])
    × ((x : Ctx) → c ≡ some x → x.mapped ≡ true)
c_connect_leaks_example = c_connect_leaks WorkloadType.remote 3 two_of_three refl

-- With an empty queue there is no output, though the event has come.
nothing_there :
    read_output (some mapped_ctx) true (calm 0 0) (buffer 1 ∷ []) (pos 8) (pos 1)
    ≡ some (calm 0 0, buffer 1 ∷ [], false)
unfolding read_output copy_frame pop
nothing_there = refl
