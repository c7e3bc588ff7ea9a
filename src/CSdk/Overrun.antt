-- ===== src/CSdk/Overrun.antt =====
-- sdk/src/dsp_accel_sdk.c: the bound that `dispatch` does not look at.
use linux_opensource_univers.Prelude.{
  if_false, le→ltb_false, Region, pos, ◌>>=◌, ℕ, ◌≤◌, ◌<◌, ◌≡◌, refl, ap, ◌∙◌, Bool, true, not,
  Option, none, some, List, arith,
}
use linux_opensource_univers.Shm.{AudioFrame, SharedMemory, sample_region}
use linux_opensource_univers.Sdk.Copy.{copy_in_too_many}
use linux_opensource_univers.CSdk.{Ctx, dispatch, dispatch_mapped, frame_of, enqueue}

module _ {F : Type 0} where
  -- A block of more than eight channels is not refused and not cut: the copy of the ninth runs past
  -- the frame, or one of those before it past an array. No such call comes back.
  pub c_channels_overrun :
      (c : Ctx) (told : Bool) (junk : AudioFrame F) (shm : SharedMemory F) (bufs : List (Region F))
      (frames channels : ℕ)
      → c.mapped ≡ true
      → 0 < frames
      → frames ≤ 256
      → 8 < channels
      → dispatch (some c) told junk shm bufs (pos frames) (pos channels) ≡ none
  unfolding dispatch dispatch_mapped
  c_channels_overrun c told junk shm bufs frames channels mapped some_frames short wide =
      if_false _ _ (ap not mapped)
      ∙ if_false _ _ (le→ltb_false 256 frames short)
      ∙ ap
          (λ (o : Option (Region F)).
            o >>= λ out. some (enqueue told (frame_of junk (pos frames) (pos channels) out) shm))
          (copy_in_too_many channels 0 frames bufs (sample_region junk) refl (omega arith)
            (omega arith) some_frames)
