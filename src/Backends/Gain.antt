-- ===== src/Backends/Gain.antt =====
-- daemon/vulkan/vulkan_compute.cpp and daemon/parallel_processor.hpp: which samples of a frame the gain
-- reaches.
use linux_opensource_univers.Prelude.{
  ltb, lt→ltb, Bool-cases, update, update_here, update_else, Region, u32_mod, ℕ, zero, suc, ◌+◌,
  ◌*◌, ◌%◌, ◌≤◌, ◌<◌, ◌≡◌, refl, sym, ap, ◌∙◌, ◌⊎◌, inl, inr, some, arith, ℕ_discrete,
}
use linux_opensource_univers.Floats.{Floats}
use linux_opensource_univers.Shm.{AudioFrame, sample_region, sample_count}
use linux_opensource_univers.Backends.Mock
use linux_opensource_univers.Backends.Vulkan
use linux_opensource_univers.Backends.Parallel.{gain_from}

module _ (fl : Floats) where
  open fl use {Float}

  -- The `n` samples from `i` on are multiplied, the others are as they were.
  pub record Scaled (n i : ℕ) (gain : Float) (r : Region Float) : Type 0 where
    pub out : Region Float
    pub runs : Mock.scale fl n i gain r ≡ some out
    pub inside : (j : ℕ) → i ≤ j → j < i + n → out.cell j ≡ fl.mul (r.cell j) gain
    pub outside : (j : ℕ) → (j < i) ⊎ (i + n ≤ j) → out.cell j ≡ r.cell j

  pub scale_lem : (n i : ℕ) (gain : Float) (r : Region Float) → i + n ≤ r.size → Scaled n i gain r
  unfolding Mock.scale
  scale_lem zero i gain r h = record {
    out = r;
    runs = refl;
    inside = λ j p q. absurd (omega arith);
    outside = λ j p. refl;
  }
  scale_lem (suc n) i gain r h =
      let r' : Region Float = record r { cell = update r.cell i (fl.mul (r.cell i) gain) } in
      let later = scale_lem n (i + 1) gain r' (omega arith) in
      record {
        out = later.out;
        runs = rw (lt→ltb i r.size (omega arith)) later.runs;
        inside = λ j p q. elim (ℕ_discrete j i) [
          | yes e ↦
              later.outside j (inl (omega arith))
              ∙ update_here r.cell (fl.mul (r.cell i) gain) e
              ∙ ap (λ (k : ℕ). fl.mul (r.cell k) gain) (sym e)
          | no ne ↦
              later.inside j (omega arith) (omega arith)
              ∙ ap (λ (x : Float). fl.mul x gain) (update_else r.cell (fl.mul (r.cell i) gain) ne)
        ];
        outside = λ j p.
            later.outside j (elim p [ inl q ↦ inl (omega arith) | inr q ↦ inr (omega arith) ])
            ∙ update_else r.cell (fl.mul (r.cell i) gain)
                (elim p [ inl q ↦ omega arith | inr q ↦ omega arith ]);
      }

  abbrev scaled_once : ℕ → Float → Region Float → Region Float
  scaled_once i gain r = record r { cell = update r.cell i (fl.mul (r.cell i) gain) }

  -- The two loops are the same.
  pub gain_from-scale :
      (n i : ℕ) (gain : Float) (r : Region Float)
      → gain_from fl n i gain r ≡ Mock.scale fl n i gain r
  unfolding gain_from Mock.scale
  gain_from-scale zero i gain r = refl
  gain_from-scale (suc n) i gain r = elim (Bool-cases (ltb i r.size)) [
    | inl y ↦ rw y (gain_from-scale n (i + 1) gain (scaled_once i gain r))
    | inr out ↦ rw out
  ]

  -- A frame whose first `fc * chans` samples have been multiplied
  pub record Amplified (gain : Float) (f f' : AudioFrame Float) : Type 0 where
    pub same_frames : f'.frame_count ≡ f.frame_count
    pub same_channels : f'.channel_count ≡ f.channel_count
    pub same_time : f'.timestamp_ns ≡ f.timestamp_ns
    pub reached :
        (j : ℕ) → j < f.frame_count * f.channel_count → f'.samples j ≡ fl.mul (f.samples j) gain
    pub missed : (j : ℕ) → f.frame_count * f.channel_count ≤ j → f'.samples j ≡ f.samples j

  area : (n m : ℕ) → n ≤ 256 → m ≤ 8 → n * m ≤ sample_count
  area n m p q = grind arith

  -- A dispatch on a frame of the SDK's sizes does not run past it.
  pub record Dispatched (gain : Float) (f : AudioFrame Float) : Type 0 where
    pub frame : AudioFrame Float
    pub runs : Vulkan.dispatched fl 0 gain f ≡ some frame
    pub amplified : Amplified gain f frame

  pub dispatched_lem :
      (gain : Float) (f : AudioFrame Float)
      → f.frame_count ≤ 256
      → f.channel_count ≤ 8
      → Dispatched gain f
  unfolding Vulkan.dispatched Mock.dispatch
  dispatched_lem gain f p q =
      let total : ℕ = (f.frame_count * f.channel_count) % u32_mod in
      let bound = area f.frame_count f.channel_count p q in
      let same : total ≡ f.frame_count * f.channel_count = omega arith in
      let s = scale_lem total 0 gain (sample_region f) (omega arith) in
      record {
        frame = record f { samples = (s.out).cell };
        runs = rw (s.runs);
        amplified = record {
          same_frames = refl;
          same_channels = refl;
          same_time = refl;
          reached = λ j h. s.inside j (omega arith) (omega arith);
          missed = λ j h. s.outside j (inr (omega arith));
        };
      }
