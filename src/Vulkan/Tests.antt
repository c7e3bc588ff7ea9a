-- ===== src/Vulkan/Tests.antt =====
-- Concrete pools: tests, and the theorems at inputs that meet their hypotheses.
use linux_opensource_univers.Prelude.{
  ◌==◌, length, All, ℕ, zero, suc, ◌≡◌, refl, ap, ◌≢◌, ◌⊎◌, true, false, ◌||◌, none, some, List, [],
  ◌∷◌, arith,
}
use linux_opensource_univers.Vulkan.Commands.{Queue, Commands, commands_of, dispatch_zero_copy}
use linux_opensource_univers.Vulkan.Recorded.{Ended, zero_copy_outcome}
use linux_opensource_univers.Vulkan.{
  Context, Answers, allocate_buffer, free_buffer, upload_buffer, find_memory_type, first_free,
  free_slot, allocate_at, allocate_created, allocate_typed, choose_type, fill,
}
use linux_opensource_univers.Vulkan.Pool.{Given, Denied, allocate_outcome, free_outcome}
use linux_opensource_univers.Vulkan.Backend.{Backend, allocate, set_zero_copy_bypass, state_of}
use linux_opensource_univers.Vulkan.Bypass.{Fills, bypass_exhausts}
use linux_opensource_univers.Vulkan.Rounds.{Round, Request, Keeps, rounds}
use linux_opensource_univers.Vulkan.Instance.{state_kept}

-- The handles 1 and 2 are taken.
abbrev two_taken : Context
two_taken = record {
  user_buffers = λ i. record { buffer = i; memory = i; size = 64; active = i == 1 || i == 2 };
  memory_types = 1 ∷ 3 ∷ [];
  live_buffers = 2;
  live_memories = 2;
}

abbrev ok : Answers
ok = record { created = some 70; type_bits = 2; allocated = some 71 }

abbrev no_type : Answers
no_type = record { created = some 70; type_bits = 1; allocated = some 71 }

allocate_buffer-two_taken : (allocate_buffer ok 1024 two_taken).1 ≡ 3
unfolding allocate_buffer free_slot first_free allocate_at allocate_created allocate_typed
    choose_type find_memory_type fill
allocate_buffer-two_taken = refl

-- The memory type that is visible to the host is not among those that fit.
allocate_buffer-no_type :
    ((allocate_buffer no_type 1024 two_taken).1 ≡ 0)
    × ((allocate_buffer no_type 1024 two_taken).0.live_buffers ≡ 3)
unfolding allocate_buffer free_slot first_free allocate_at allocate_created allocate_typed
    choose_type find_memory_type
allocate_buffer-no_type = (refl, refl)

allocate_outcome_example :
    Given ok two_taken 1024
      (allocate_buffer ok 1024 two_taken).0
      (allocate_buffer ok 1024 two_taken).1
    ⊎ Denied ok two_taken
        (allocate_buffer ok 1024 two_taken).0
        (allocate_buffer ok 1024 two_taken).1
allocate_outcome_example = allocate_outcome ok 1024 two_taken

free_outcome_example :
    (((free_buffer 2 two_taken).user_buffers 2).active ≡ false)
    × ((k : ℕ) → k ≢ 2 → (free_buffer 2 two_taken).user_buffers k ≡ two_taken.user_buffers k)
    × (free_buffer 2 (free_buffer 2 two_taken) ≡ free_buffer 2 two_taken)
    × (upload_buffer true 2 (free_buffer 2 two_taken) ≡ none)
free_outcome_example = free_outcome true 2 two_taken (omega arith) (omega arith)

abbrev backend : Backend ℕ
backend = record {
  gain = 1;
  threshold = 1;
  param1 = 0;
  param2 = 0;
  algo_id = 0;
  instance_states = λ i. none;
  vk_ctx = some two_taken;
  shm_buffer_handle = 0;
}

-- A round that plays no frame and serves two requests
abbrev one_round : Round ℕ
one_round = record {
  import = ok;
  events = (1, 2) ∷ [];
  stages = [];
  requests = Request.reserve no_type 64 ∷ Request.upload 1 ∷ [];
}

abbrev many : ℕ → List (Round ℕ)
many zero = []
many (suc n) = one_round ∷ many n

many-Fills : (n : ℕ) → All Fills (many n)
many-Fills zero = All.nil
many-Fills (suc n) =
    All.cons
      record {
        succeeds = record { b = 70; m = 71; creates = refl; allocates = refl };
        keeps = All.cons Keeps.reserve (All.cons Keeps.upload All.nil);
      }
      (many-Fills n)

length-many : (n : ℕ) → length (many n) ≡ n
length-many zero = refl
length-many (suc n) = ap suc (length-many n)

bypass_exhausts_example :
    ((set_zero_copy_bypass ok true
        (some 5)
        4096
        (rounds (λ x. x) 5 4096 (many 255) backend)).shm_buffer_handle
      ≡ 0)
    × ((allocate ok 1024 (rounds (λ x. x) 5 4096 (many 255) backend)).1 ≡ 0)
bypass_exhausts_example =
    bypass_exhausts (λ x. x) 5 4096 (many 255) backend two_taken (many-Fills 255)
      (omega (arith, length-many 255)) refl ok 1024

state_kept_test :
    (let (b', ctx', h) = state_of ok 9 two_taken backend in
      (state_of no_type 9 ctx' b' ≡ (b', ctx', h))
      × ((j : ℕ) → j ≢ 9 → b'.instance_states j ≡ none))
state_kept_test = state_kept ok no_type 9 two_taken backend

-- A slot that is taken and one that is free, and a GPU that is in time
abbrev in_time : Queue
in_time = record { gives_commands = true; gives_fence = true; submits = true; done_in_time = true }

abbrev block_commands : Commands ℕ
block_commands = commands_of 100 2 1 1 1 1 0

-- Four groups of 64 for 200 samples
groups_run : block_commands.groups ≡ 4
unfolding commands_of
groups_run = refl

zero_copy_outcome_example :
    Ended two_taken in_time 1 4096 100 2 2
      (dispatch_zero_copy (some two_taken) in_time 1 4096 100 2 2 block_commands)
zero_copy_outcome_example =
    zero_copy_outcome 1 1 1 1 0 two_taken in_time 1 4096 100 2 2 (omega arith) (omega arith)
      (omega arith) (omega arith) refl refl
