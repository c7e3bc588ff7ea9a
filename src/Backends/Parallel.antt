-- ===== src/Backends/Parallel.antt =====
-- daemon/parallel_processor.hpp: the gain on the CPU.
use linux_opensource_univers.Prelude.{
  ltb, if◌then◌else◌, update, Region, u32_mod, ◌>>=◌, ℕ, zero, suc, ◌+◌, ◌*◌, ◌%◌, Option, none,
  some,
}
use linux_opensource_univers.Floats.{Floats}
use linux_opensource_univers.Shm.{AudioFrame, sample_region}

module _ (fl : Floats) where
  open fl use {Float}

  -- The loop `for (i = 0; i < total_samples; i++)`, by the rounds that are left
  unfoldable pub gain_from : ℕ → ℕ → Float → Region Float → Option (Region Float)
  gain_from zero i gain r = some r
  gain_from (suc n) i gain r =
      if ltb i r.size
      then gain_from n (i + 1) gain (record r { cell = update r.cell i (fl.mul (r.cell i) gain) })
      else none

  unfoldable pub apply_gain_parallel : AudioFrame Float → Float → Option (AudioFrame Float)
  apply_gain_parallel frame gain = do
    out ←
        gain_from ((frame.frame_count * frame.channel_count) % u32_mod) 0 gain (sample_region frame)
    some (record frame { samples = out.cell })
