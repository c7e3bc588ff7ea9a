-- ===== src/CSdk/Agree.antt =====
-- sdk/src/dsp_accel_sdk.c against sdk/src/dsp_accel_sdk.cpp: the frame that a block becomes.
use Prim.Native.Nat.{min}
use mathlib.Core.Path.{subst}
use linux_opensource_univers.Prelude.{
  if_false, le→ltb_false, ne→==_false, length, Region, pos, ◌>>=◌, ℕ, zero, suc, ◌+◌, ◌*◌, ◌≤◌, ◌<◌,
  ◌≡◌, refl, sym, ap, ◌∙◌, Bool, true, not, Option, some, List, [], ◌∷◌, ◌++◌, arith, ℕ_discrete,
}
use linux_opensource_univers.Floats.{Floats}
use linux_opensource_univers.Ring.{push}
use linux_opensource_univers.Ring.Fifo
use linux_opensource_univers.Ring.Refine.{push_refines}
use linux_opensource_univers.Ring.Window.{IsValid, contents}
use linux_opensource_univers.Shm.{
  AudioFrame, SharedMemory, queue_depth, sample_region, channel_stride,
}
use linux_opensource_univers.Sdk.{Session, Answer}
use linux_opensource_univers.Sdk
use linux_opensource_univers.Sdk.Copy.{copy_in_lem, Fits, Holds}
use linux_opensource_univers.Sdk.Dispatch.Send.{Enqueued}
use linux_opensource_univers.CSdk.{Ctx, enqueue, dispatch, dispatch_mapped, frame_of}

-- Two frames of one block: the same counts, and the same samples on the channels that it has
pub record SameBlock {F : Type 0} (f g : AudioFrame F) : Type 0 where
  pub frame_count : f.frame_count ≡ g.frame_count
  pub channel_count : f.channel_count ≡ g.channel_count
  pub samples :
      (c k : ℕ)
      → c < g.channel_count
      → k < g.frame_count
      → f.samples (c * channel_stride + k) ≡ g.samples (c * channel_stride + k)

-- What two frames hold of the same buffers is the same.
Holds-same :
    {F : Type 0} (fc ch n : ℕ) (bufs : List (Region F)) (f g : ℕ → F)
    → Holds fc ch n bufs f
    → Holds fc ch n bufs g
    → (c k : ℕ) → ch ≤ c
    → c < ch + n
    → k < fc
    → f (c * channel_stride + k) ≡ g (c * channel_stride + k)
Holds-same fc ch zero bufs f g p q c k lo hi h = absurd (omega arith)
Holds-same fc ch (suc n) [] f g p q c k lo hi h = absurd p
Holds-same fc ch (suc n) (b ∷ bufs) f g p q c k lo hi h = elim (ℕ_discrete c ch) [
  | yes e ↦
      ap (λ (x : ℕ). f (x * channel_stride + k)) e
      ∙ p.0 k h
      ∙ sym (q.0 k h)
      ∙ ap (λ (x : ℕ). g (x * channel_stride + k)) (sym e)
  | no ne ↦ Holds-same fc (ch + 1) n bufs f g p.1 q.1 c k (omega arith) (omega arith) h
]

module _ {F : Type 0} where
  push_room :
      (shm : SharedMemory F) (f : AudioFrame F)
      → IsValid queue_depth shm.in_queue
      → length (contents queue_depth shm.in_queue) + 1 < queue_depth
      → ◌≡◌ {A = List (AudioFrame F) × Bool}
          (
            contents queue_depth (push queue_depth shm.in_queue f).0,
            (push queue_depth shm.in_queue f).1,
          )
          (contents queue_depth shm.in_queue ++ f ∷ [], true)
  unfolding Fifo.push
  push_room shm f v room =
      push_refines v f
      ∙ if_false _ _
          (ne→==_false (length (contents queue_depth shm.in_queue) + 1) queue_depth (omega arith))

  record Appended (told : Bool) (junk : AudioFrame F) (shm : SharedMemory F)
      (bufs : List (Region F)) (frames channels : ℕ) (c : Ctx) : Type 0 where
    pub shm' : SharedMemory F
    pub frame : AudioFrame F
    pub runs : dispatch (some c) told junk shm bufs (pos frames) (pos channels) ≡ some (shm', told)
    pub appended :
        contents queue_depth shm'.in_queue ≡ contents queue_depth shm.in_queue ++ frame ∷ []
    pub frames_are : frame.frame_count ≡ frames
    pub channels_are : frame.channel_count ≡ channels
    pub holds : Holds frames 0 channels bufs frame.samples
    pub rest : shm' ≡ record shm { in_queue = shm'.in_queue }

  c_dispatch_appends :
      (told : Bool) (junk : AudioFrame F) (shm : SharedMemory F) (bufs : List (Region F))
      (frames channels : ℕ) (c : Ctx)
      → c.mapped ≡ true
      → IsValid queue_depth shm.in_queue
      → length (contents queue_depth shm.in_queue) + 1 < queue_depth
      → frames ≤ 256
      → channels ≤ 8
      → Fits frames channels bufs
      → Appended told junk shm bufs frames channels c
  unfolding dispatch dispatch_mapped enqueue
  c_dispatch_appends told junk shm bufs frames channels c mapped v room short narrow fits =
      let copied =
        copy_in_lem channels 0 frames bufs (sample_region junk) short (omega arith) fits in
      let f = frame_of junk (pos frames) (pos channels) copied.out in
      let pushed = push_room shm f v room in
      record {
        shm' = record shm { in_queue = (push queue_depth shm.in_queue f).0 };
        frame = f;
        runs =
            if_false _ _ (ap not mapped)
            ∙ if_false _ _ (le→ltb_false 256 frames short)
            ∙ ap
                (λ (o : Option (Region F)). o >>= λ out.
                  some (enqueue told (frame_of junk (pos frames) (pos channels) out) shm))
                copied.runs
            ∙ ap some (if_false _ _ (ap (λ (r : List (AudioFrame F) × Bool). not (r.1)) pushed));
        appended = ap (λ (r : List (AudioFrame F) × Bool). r.0) pushed;
        frames_are = omega arith;
        channels_are = omega arith;
        holds = copied.holds;
        rest = refl;
      }

module _ (fl : Floats) where
  open fl use {Float}

  -- For a block within the limits, on a queue with room, the two variants send the same: the C one
  -- appends a frame that has the counts of the frame of the other and its samples, and its result
  -- tells whether the event was written. It leaves the rest of the shared memory alone.
  pub variants_agree :
      (bufs : List (Region Float)) (frames channels now : ℕ) (answer : Answer) (s : Session fl)
      (c : Sdk.Ctx fl) (d : Ctx) (told : Bool) (junk : AudioFrame Float)
      (e : Enqueued bufs frames channels now answer s c)
      → d.mapped ≡ true
      → IsValid queue_depth s.shm.in_queue
      → length (contents queue_depth s.shm.in_queue) + 1 < queue_depth
      → frames ≤ 256
      → channels ≤ 8
      → Fits frames channels bufs
      → (shm : SharedMemory Float) × (f : AudioFrame Float) × (dispatch
            (some d)
            told
            junk
            s.shm
            bufs
            (pos frames)
            (pos channels)
          ≡ some (shm, told))
        × (contents queue_depth shm.in_queue ≡ contents queue_depth s.shm.in_queue ++ f ∷ [])
        × SameBlock f e.frame
        × (shm ≡ record (s.shm) { in_queue = shm.in_queue })
  variants_agree bufs frames channels now answer s c d told junk e mapped v room short narrow fits =
      let a =
        c_dispatch_appends told junk s.shm bufs frames channels d mapped v room short narrow fits in
      let b = e.block in
      let fc : min frames 256 ≡ frames = omega arith in
      let chans : min channels 8 ≡ channels = omega arith in
      let held : Holds frames 0 channels bufs e.frame.samples =
        subst (λ (n : ℕ). Holds n 0 channels bufs e.frame.samples) fc
          (subst (λ (n : ℕ). Holds (min frames 256) 0 n bufs e.frame.samples) chans b.samples) in
      (
        a.shm',
        a.frame,
        a.runs,
        a.appended,
        record {
          frame_count = omega (arith, a.frames_are, b.frame_count);
          channel_count = omega (arith, a.channels_are, b.channel_count);
          samples = λ x k p q.
              Holds-same frames 0 channels bufs a.frame.samples e.frame.samples a.holds held x k
                (omega arith) (omega (arith, b.channel_count)) (omega (arith, b.frame_count));
        },
        a.rest,
      )
