-- ===== src/CSdk.antt =====
-- sdk/src/dsp_accel_sdk.c: the variant of the SDK in one file of its own. `none` is undefined behaviour.
pub mod Connect
pub mod Agree
pub mod Overrun
mod Tests
use linux_opensource_univers.Prelude.{
  ltb, if◌then◌else◌, Region, pos, negsuc, ℤ, to_u32, ◌>>=◌, ℕ, ◌-◌, ◌^◌, Bool, true, false, not,
  Option, none, some, List,
}
use linux_opensource_univers.Shm.{AudioFrame, SharedMemory, queue_depth, sample_region}
use linux_opensource_univers.Ring.{push, pop}
use linux_opensource_univers.Sdk.{WorkloadType, Fd}
use linux_opensource_univers.Sdk.Copy.{copy_in, copy_out}

-- `struct dsp_accel_sdk_ctx`; `mapped` says that `shm` is not NULL.
pub record Ctx : Type 0 where
  pub type : WorkloadType
  pub socket_fd : Fd
  pub shm_fd : Fd
  pub e_send : Fd
  pub e_recv : Fd
  pub mapped : Bool

-- The rounds of `for (int c = 0; c < channels; c++)`
abbrev pub rounds : ℤ → ℕ
rounds (pos n) = n
rounds (negsuc n) = 0

-- The samples that `frames * sizeof(float)` bytes hold: in `size_t` a negative number is huge.
abbrev pub samples_of : ℤ → ℕ
samples_of (pos n) = n
samples_of (negsuc n) = 2 ^ 62 - 1 - n

-- `frames > 256`
abbrev pub too_long : ℤ → Bool
too_long (pos n) = ltb 256 n
too_long (negsuc n) = false

module _ {F : Type 0} where
  -- The frame on the stack, whose other members have no values
  abbrev pub frame_of : AudioFrame F → ℤ → ℤ → Region F → AudioFrame F
  frame_of junk frames channels out = record junk {
    frame_count = to_u32 frames;
    channel_count = to_u32 channels;
    samples = out.cell;
  }

  -- After the copies: `told` says that the write to the event takes its eight bytes.
  unfoldable pub enqueue : Bool → AudioFrame F → SharedMemory F → SharedMemory F × Bool
  enqueue told frame shm =
      let r = push queue_depth shm.in_queue frame in
      if not r.1 then (shm, false) else (record shm { in_queue = r.0 }, told)

  unfoldable pub dispatch_mapped :
      Bool
      → AudioFrame F
      → SharedMemory F
      → List (Region F)
      → ℤ
      → ℤ
      → Option (SharedMemory F × Bool)
  dispatch_mapped told junk shm bufs frames channels =
      if too_long frames then some (shm, false) else do
        out ← copy_in (rounds channels) 0 (samples_of frames) bufs (sample_region junk)
        some (enqueue told (frame_of junk frames channels out) shm)

  -- `dsp_accel_sdk_dispatch`; a context pointer is an option.
  unfoldable pub dispatch :
      Option Ctx
      → Bool
      → AudioFrame F
      → SharedMemory F
      → List (Region F)
      → ℤ
      → ℤ
      → Option (SharedMemory F × Bool)
  dispatch none told junk shm bufs frames channels = some (shm, false)
  dispatch (some c) told junk shm bufs frames channels =
      if not c.mapped then some (shm, false) else dispatch_mapped told junk shm bufs frames channels

  -- After the pop: the copies, of the plugin's `frames` and `channels`
  unfoldable pub copy_frame :
      SharedMemory F
      → Option (AudioFrame F)
      → List (Region F)
      → ℤ
      → ℤ
      → Option (SharedMemory F × List (Region F) × Bool)
  copy_frame shm none bufs frames channels = some (shm, bufs, false)
  copy_frame shm (some f) bufs frames channels = do
    outs ← copy_out (rounds channels) 0 (samples_of frames) (sample_region f) bufs
    some (shm, outs, true)

  -- `dsp_accel_sdk_read_output`; `ready` is the poll's.
  unfoldable pub read_output :
      Option Ctx
      → Bool
      → SharedMemory F
      → List (Region F)
      → ℤ
      → ℤ
      → Option (SharedMemory F × List (Region F) × Bool)
  read_output none ready shm bufs frames channels = some (shm, bufs, false)
  read_output (some c) ready shm bufs frames channels =
      let r = pop queue_depth shm.out_queue in
      if not c.mapped
      then some (shm, bufs, false)
      else if not ready
      then some (shm, bufs, false)
      else copy_frame (record shm { out_queue = r.0 }) r.1 bufs frames channels
