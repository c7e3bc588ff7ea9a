-- ===== src/Sdk/Copy.antt =====
-- sdk/src/dsp_accel_sdk.cpp: the loops that move samples between the plugin's channel buffers and a
-- frame of shared memory, 256 samples to a channel.
use native.Mathlib.Nat.{zero-add}
use linux_opensource_univers.Prelude.{
  Option-cases, blit, Region, memcpy, memcpy_fits, memcpy_overrun, blit_inside, blit_below, ◌>>=◌,
  ℕ, zero, suc, ◌+◌, ◌*◌, ◌≤◌, ◌<◌, ◌≡◌, refl, ap, ◌∙◌, inl, inr, Option, none, some, List, [], ◌∷◌,
  arith, ℕ_discrete,
}
use linux_opensource_univers.Shm.{channel_stride, sample_count}

module _ {F : Type 0} where
  -- `n` rounds of `memcpy(&slot->samples[ch * 256], channel_buffers[ch], fc * sizeof(float))`; the
  -- list is `channel_buffers + ch`, and a pointer past its end is a fault.
  pub copy_in : ℕ → ℕ → ℕ → List (Region F) → Region F → Option (Region F)
  unfolding memcpy
  copy_in zero ch fc bufs dest = some dest
  copy_in (suc n) ch fc [] dest = none
  copy_in (suc n) ch fc (b ∷ bufs) dest = do
    dest' ← memcpy dest (ch * channel_stride) b 0 fc
    copy_in n (ch + 1) fc bufs dest'

  -- `n` rounds of `memcpy(channel_buffers[ch], &slot->samples[ch * 256], fc * sizeof(float))`
  pub copy_out : ℕ → ℕ → ℕ → Region F → List (Region F) → Option (List (Region F))
  unfolding memcpy
  copy_out zero ch fc src bufs = some bufs
  copy_out (suc n) ch fc src [] = none
  copy_out (suc n) ch fc src (b ∷ bufs) = do
    b' ← memcpy b 0 src (ch * channel_stride) fc
    rest ← copy_out n (ch + 1) fc src bufs
    some (b' ∷ rest)

  -- The first `n` buffers are there and hold `fc` samples each.
  abbrev pub Fits : ℕ → ℕ → List (Region F) → Type 0
  Fits fc zero bufs = Unit
  Fits fc (suc n) [] = ⊥
  Fits fc (suc n) (b ∷ bufs) = (fc ≤ b.size) × Fits fc n bufs

  -- Channel `ch + i` of the frame is the `i`-th of the first `n` buffers, in its first `fc` samples.
  abbrev pub Holds : ℕ → ℕ → ℕ → List (Region F) → (ℕ → F) → Type 0
  Holds fc ch zero bufs samples = Unit
  Holds fc ch (suc n) [] samples = ⊥
  Holds fc ch (suc n) (b ∷ bufs) samples =
      ((k : ℕ) → k < fc → samples (ch * channel_stride + k) ≡ b.cell k)
      × Holds fc (ch + 1) n bufs samples

  pub record CopiedIn (n ch fc : ℕ) (bufs : List (Region F)) (dest : Region F) : Type 0 where
    pub out : Region F
    pub runs : copy_in n ch fc bufs dest ≡ some out
    pub same_size : out.size ≡ dest.size
    pub holds : Holds fc ch n bufs out.cell
    pub below : (j : ℕ) → j < ch * channel_stride → out.cell j ≡ dest.cell j

  pub copy_in_lem :
      (n ch fc : ℕ) (bufs : List (Region F)) (dest : Region F)
      → fc ≤ channel_stride
      → (ch + n) * channel_stride ≤ dest.size
      → Fits fc n bufs
      → CopiedIn n ch fc bufs dest
  unfolding copy_in
  copy_in_lem zero ch fc bufs dest small room fits = record {
    out = dest;
    runs = refl;
    same_size = refl;
    holds = tt;
    below = λ j h. refl;
  }
  copy_in_lem (suc n) ch fc [] dest small room fits = absurd fits
  copy_in_lem (suc n) ch fc (b ∷ bufs) dest small room fits =
      let at = ch * channel_stride in
      let first = memcpy_fits dest b at 0 fc (omega arith) (omega (arith, fits.0)) in
      let later =
        copy_in_lem n (ch + 1) fc bufs (record dest { cell = blit dest.cell at b.cell 0 fc }) small
          (omega arith) (fits.1) in
      record {
        out = later.out;
        runs = rw first (later.runs);
        same_size = later.same_size;
        holds = (
          λ k h.
              later.below (at + k) (omega arith)
              ∙ blit_inside dest.cell b.cell at 0 fc k h
              ∙ ap b.cell (zero-add k),
          later.holds,
        );
        below = λ j h. later.below j (omega arith) ∙ blit_below dest.cell b.cell at 0 fc j h;
      }

  -- A block longer than a channel buffer's frame runs past the end of it.
  pub copy_in_overrun :
      (n ch fc : ℕ) (b : Region F) (bufs : List (Region F)) (dest : Region F)
      → dest.size < ch * channel_stride + fc
      → copy_in (suc n) ch fc (b ∷ bufs) dest ≡ none
  unfolding copy_in
  copy_in_overrun n ch fc b bufs dest h = rw (memcpy_overrun dest b (ch * channel_stride) 0 fc h)

  memcpy_size :
      (dest src : Region F) (at from n : ℕ) {d : Region F}
      → memcpy dest at src from n ≡ some d
      → d.size ≡ dest.size
  unfolding memcpy
  memcpy_size dest src at from n h = ground arith

  -- With more than eight channels the copies run past the frame, whatever the buffers are.
  pub copy_in_too_many :
      (n ch fc : ℕ) (bufs : List (Region F)) (dest : Region F)
      → dest.size ≡ sample_count
      → ch ≤ 8
      → 8 < ch + n
      → 0 < fc
      → copy_in n ch fc bufs dest ≡ none
  unfolding copy_in
  copy_in_too_many zero ch fc bufs dest size lo hi h = absurd (omega arith)
  copy_in_too_many (suc n) ch fc [] dest size lo hi h = refl
  copy_in_too_many (suc n) ch fc (b ∷ bufs) dest size lo hi h = elim (ℕ_discrete ch 8) [
    | yes e ↦ copy_in_overrun n ch fc b bufs dest (omega arith)
    | no ne ↦ elim (Option-cases (memcpy dest (ch * channel_stride) b 0 fc)) [
      | inl e ↦ rw e
      | inr (d, e) ↦ rw e (
          copy_in_too_many n (ch + 1) fc bufs d
            (memcpy_size dest b (ch * channel_stride) 0 fc e ∙ size) (omega arith) (omega arith) h)
    ]
  ]

  -- The first `n` of `outs` are `bufs` with the first `fc` samples of channel `ch + i` written over.
  abbrev pub Returned : ℕ → ℕ → ℕ → List (Region F) → List (Region F) → (ℕ → F) → Type 0
  Returned fc ch zero bufs outs samples = outs ≡ bufs
  Returned fc ch (suc n) [] outs samples = ⊥
  Returned fc ch (suc n) (b ∷ bufs) [] samples = ⊥
  Returned fc ch (suc n) (b ∷ bufs) (o ∷ outs) samples =
      (o.size ≡ b.size)
      × ((k : ℕ) → k < fc → o.cell k ≡ samples (ch * channel_stride + k))
      × ((k : ℕ) → fc ≤ k → o.cell k ≡ b.cell k)
      × Returned fc (ch + 1) n bufs outs samples

  pub record CopiedOut (n ch fc : ℕ) (src : Region F) (bufs : List (Region F)) : Type 0 where
    pub outs : List (Region F)
    pub runs : copy_out n ch fc src bufs ≡ some outs
    pub returned : Returned fc ch n bufs outs src.cell

  pub copy_out_lem :
      (n ch fc : ℕ) (src : Region F) (bufs : List (Region F))
      → fc ≤ channel_stride
      → (ch + n) * channel_stride ≤ src.size
      → Fits fc n bufs
      → CopiedOut n ch fc src bufs
  unfolding copy_out
  copy_out_lem zero ch fc src bufs small room fits = record {
    outs = bufs;
    runs = refl;
    returned = refl;
  }
  copy_out_lem (suc n) ch fc src [] small room fits = absurd fits
  copy_out_lem (suc n) ch fc src (b ∷ bufs) small room fits =
      let from = ch * channel_stride in
      let first = memcpy_fits b src 0 from fc (omega (arith, fits.0)) (omega arith) in
      let later = copy_out_lem n (ch + 1) fc src bufs small (omega arith) (fits.1) in
      let b' : Region F = record b { cell = blit b.cell 0 src.cell from fc } in
      record {
        outs = b' ∷ later.outs;
        runs = rw (first, later.runs);
        returned = (refl, λ k h. ground arith, λ k h. ground arith, later.returned);
      }

  -- A frame with more samples than the plugin's buffer has room for runs past its end.
  pub copy_out_overrun :
      (n ch fc : ℕ) (src b : Region F) (bufs : List (Region F))
      → b.size < fc
      → copy_out (suc n) ch fc src (b ∷ bufs) ≡ none
  unfolding copy_out
  copy_out_overrun n ch fc src b bufs h =
      rw (memcpy_overrun b src 0 (ch * channel_stride) fc (omega arith))
