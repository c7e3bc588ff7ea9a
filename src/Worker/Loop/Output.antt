-- ===== src/Worker/Loop/Output.antt =====
-- daemon/worker.cpp: how a processed frame gets into `out_queue`.
use linux_opensource_univers.Prelude.{
  length, blit, Region, memcpy_fits, blit_inside, blit_below, ℕ, zero, suc, ◌+◌, ◌*◌, ◌≤◌, ◌<◌, ◌≡◌,
  refl, sym, ap, ◌∙◌, some, [], ◌∷◌, ◌++◌, arith, ℕ_discrete,
}
use linux_opensource_univers.Ring.{Ring, commit_write, write_slot}
use linux_opensource_univers.Ring.Window.{IsValid, contents}
use linux_opensource_univers.Ring.ZeroCopy.{reserve_room, reserve_full}
use linux_opensource_univers.Shm.{AudioFrame, sample_region, channel_stride, queue_depth}
use linux_opensource_univers.Worker.Loop.{output, copy_channels}

-- A frame's lengths are within its arrays.
pub record Sized {F : Type 0} (f : AudioFrame F) : Type 0 where
  pub frames_in : f.frame_count ≤ channel_stride
  pub channels_in : f.channel_count ≤ 8

-- The valid samples of the `n` channels from `ch` on are those of `src`.
abbrev pub SameSamples : {F : Type 0} → ℕ → ℕ → ℕ → (ℕ → F) → (ℕ → F) → Type 0
SameSamples n ch fc src dest =
    (c k : ℕ)
    → ch ≤ c
    → c < ch + n
    → k < fc
    → dest (c * channel_stride + k) ≡ src (c * channel_stride + k)

pub record Copied {F : Type 0} (n ch fc : ℕ) (src dest : Region F) : Type 0 where
  pub out : Region F
  pub runs : copy_channels n ch fc src dest ≡ some out
  pub same : SameSamples n ch fc src.cell out.cell
  pub below : (j : ℕ) → j < ch * channel_stride → out.cell j ≡ dest.cell j

copy_channels_lem :
    {F : Type 0} (n ch fc : ℕ) (src dest : Region F)
    → fc ≤ channel_stride
    → (ch + n) * channel_stride ≤ src.size
    → (ch + n) * channel_stride ≤ dest.size
    → Copied n ch fc src dest
unfolding copy_channels
copy_channels_lem zero ch fc src dest p q r = record {
  out = dest;
  runs = refl;
  same = λ c k h i j. absurd (omega arith);
  below = λ j h. refl;
}
copy_channels_lem (suc n) ch fc src dest p q r =
    let at = ch * channel_stride in
    let first = memcpy_fits dest src at at fc (omega arith) (omega arith) in
    let later =
      copy_channels_lem n (ch + 1) fc src (record dest { cell = blit dest.cell at src.cell at fc })
        p (omega arith) (omega arith) in
    record {
      out = later.out;
      runs = rw first later.runs;
      same = λ c k h i j. elim (ℕ_discrete c ch) [
        | yes e ↦
            later.below (c * channel_stride + k) (omega (arith, e))
            ∙ (let here : c * channel_stride + k ≡ at + k = omega (arith, e) in
                ap (blit dest.cell at src.cell at fc) here
                ∙ blit_inside dest.cell src.cell at at fc k j
                ∙ ap src.cell (sym here))
        | no ne ↦ later.same c k (omega arith) (omega arith) j
      ];
      below = λ j h. later.below j (omega arith) ∙ blit_below dest.cell src.cell at at fc j h;
    }

module _ {Float : Type 0} where
  -- `output` on a queue with room: the frame goes last.
  pub record Sent (f : AudioFrame Float) (queue : Ring (AudioFrame Float)) : Type 0 where
    pub queue' : Ring (AudioFrame Float)
    pub frame : AudioFrame Float
    pub runs : output f queue ≡ some queue'
    pub appended : contents queue_depth queue' ≡ contents queue_depth queue ++ frame ∷ []
    pub still : IsValid queue_depth queue'
    pub frames : frame.frame_count ≡ f.frame_count
    pub channels : frame.channel_count ≡ f.channel_count
    pub timestamp : frame.timestamp_ns ≡ f.timestamp_ns
    pub samples : SameSamples f.channel_count 0 f.frame_count f.samples frame.samples

  pub output-Sent :
      (f : AudioFrame Float) (queue : Ring (AudioFrame Float))
      → Sized f
      → IsValid queue_depth queue
      → length (contents queue_depth queue) + 1 < queue_depth
      → Sent f queue
  unfolding output
  output-Sent f queue z v room =
      let slot : AudioFrame Float = queue.slot queue.tail in
      let copied =
        copy_channels_lem f.channel_count 0 f.frame_count (sample_region f) (sample_region slot)
          z.frames_in (omega (arith, z.channels_in)) (omega (arith, z.channels_in)) in
      let frame : AudioFrame Float = record slot {
        frame_count = f.frame_count;
        channel_count = f.channel_count;
        timestamp_ns = f.timestamp_ns;
        samples = copied.out.cell;
      } in
      let reserved = reserve_room v frame room in
      record {
        queue' = commit_write queue_depth (write_slot queue.tail frame queue);
        frame = frame;
        runs = rw (reserved.slot_at, output) (rw copied.runs refl);
        appended = reserved.appended;
        still = reserved.still;
        frames = refl;
        channels = refl;
        timestamp = refl;
        samples = copied.same;
      }

  pub output_full :
      (f : AudioFrame Float) (queue : Ring (AudioFrame Float))
      → IsValid queue_depth queue
      → length (contents queue_depth queue) + 1 ≡ queue_depth
      → output f queue ≡ some queue
  unfolding output
  output_full f queue v full = rw (reserve_full v full, output) refl
