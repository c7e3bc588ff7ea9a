-- ===== src/System/Heard.antt =====
-- daemon/vulkan/vulkan_compute.cpp: which of the plugin's samples the gain reaches.
use linux_opensource_univers.Prelude.{
  ltb, if◌then◌else◌, if_true, if_false, ltb→lt, ltb_false→le, Bool-cases, Region, ℕ, zero, suc,
  ◌+◌, ◌*◌, ◌≡◌, sym, ap, ap₂, ◌∙◌, inl, inr, Bool, ◌&&◌, List, [], ◌∷◌,
}
use linux_opensource_univers.Floats.{Floats}
use linux_opensource_univers.Shm.{AudioFrame, channel_stride}
use linux_opensource_univers.Sdk.Copy.{Holds, Returned}
use linux_opensource_univers.Backends.Gain.{Amplified}

module _ (fl : Floats) where
  open fl use {Float}

  -- What the plugin hears: on channel `ch + i` the samples whose place in the frame lies below `total`
  -- are multiplied, and the others are those that it sent.
  abbrev pub Heard : ℕ → ℕ → ℕ → ℕ → Float → List (Region Float) → List (Region Float) → Type 0
  Heard fc ch zero total gain bufs outs = outs ≡ bufs
  Heard fc ch (suc n) total gain [] outs = ⊥
  Heard fc ch (suc n) total gain (b ∷ bufs) [] = ⊥
  Heard fc ch (suc n) total gain (b ∷ bufs) (o ∷ outs) =
      ((k : ℕ)
        → o.cell k ≡ (
            if ltb k fc && ltb (ch * channel_stride + k) total
            then fl.mul (b.cell k) gain
            else b.cell k))
      × Heard fc (ch + 1) n total gain bufs outs

  pub Heard_lem :
      (fc ch n : ℕ) (gain : Float) (bufs outs : List (Region Float)) (f f' : AudioFrame Float)
      → Holds fc ch n bufs f.samples
      → Returned fc ch n bufs outs f'.samples
      → Amplified fl gain f f'
      → Heard fc ch n (f.frame_count * f.channel_count) gain bufs outs
  Heard_lem fc ch zero gain bufs outs f f' h r a = r
  Heard_lem fc ch (suc n) gain [] outs f f' h r a = absurd h
  Heard_lem fc ch (suc n) gain (b ∷ bufs) [] f f' h r a = absurd r
  Heard_lem fc ch (suc n) gain (b ∷ bufs) (o ∷ outs) f f' h r a = (
    λ k. elim (Bool-cases (ltb k fc)) [
      | inr above ↦
          r.2 k (ltb_false→le k fc above)
          ∙ sym (
              if_false (fl.mul (b.cell k) gain) (b.cell k) (
                ap
                  (λ (x : Bool).
                    x && ltb (ch * channel_stride + k) (f.frame_count * f.channel_count))
                  above))
      | inl inside ↦
          let at : ℕ = ch * channel_stride + k in
          let sent = h.0 k (ltb→lt k fc inside) in
          r.1 k (ltb→lt k fc inside)
          ∙ elim (Bool-cases (ltb at (f.frame_count * f.channel_count))) [
            | inl low ↦
                a.reached at (ltb→lt at _ low)
                ∙ ap (λ (x : Float). fl.mul x gain) sent
                ∙ sym (if_true _ _ (ap₂ ◌&&◌ inside low))
            | inr high ↦
                a.missed at (ltb_false→le at _ high)
                ∙ sent
                ∙ sym (if_false _ _ (ap₂ ◌&&◌ inside high))
          ]
    ],
    Heard_lem fc (ch + 1) n gain bufs outs f f' h.1 r.3 a,
  )
