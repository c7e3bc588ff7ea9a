-- ===== src/Backends/Played.antt =====
-- daemon/worker_main.cpp with daemon/vulkan/vulkan_compute.cpp: the ways in which `process_stage` goes.
use linux_opensource_univers.Prelude.{
  update, update_here, update_else, u32_mod, ◌>>=◌, ℕ, zero, suc, ◌*◌, ◌%◌, ◌≤◌, ◌≡◌, refl, ap, ◌∙◌,
  ◌≢◌, Bool, true, false, Option, none, some, arith,
}
use linux_opensource_univers.Floats.{Floats}
use linux_opensource_univers.Shm.{AudioFrame, sample_region}
use linux_opensource_univers.Backends.Mock
use linux_opensource_univers.Backends.Vulkan
use linux_opensource_univers.Backends.Vulkan.{Backend}
use linux_opensource_univers.Backends.Parallel.{apply_gain_parallel}
use linux_opensource_univers.Backends.Gain.{Amplified, dispatched_lem, gain_from-scale}

module _ (fl : Floats) where
  open fl use {Float}

  -- The gain on the CPU does to a frame what the stand-in does.
  cpu_same :
      (gain : Float) (f : AudioFrame Float)
      → apply_gain_parallel fl f gain ≡ Vulkan.dispatched fl 0 gain f
  unfolding apply_gain_parallel Vulkan.dispatched Mock.dispatch
  cpu_same gain f =
      rw (gain_from-scale fl ((f.frame_count * f.channel_count) % u32_mod) 0 gain (sample_region f))

  -- Of the backend, only the map of states has changed, and only at one instance.
  pub record SameBackend (i : ℕ) (b b' : Backend Float) : Type 0 where
    pub rest : b' ≡ record b { instance_states = b'.instance_states }
    pub others : (j : ℕ) → j ≢ i → b'.instance_states j ≡ b.instance_states j
    pub seen : (h : ℕ) × (b'.instance_states i ≡ some h)

  pub data Outcome (b : Backend Float) (f : AudioFrame Float)
      (r : Option (Backend Float × AudioFrame Float × Bool)) : Type 0 where
    no_context : b.vk_ctx ≡ none → r ≡ some (b, f, false) → Outcome b f r
    untouched :
        (ctx : Mock.Context) (b' : Backend Float)
        → b.vk_ctx ≡ some ctx
        → b.shm_buffer_handle ≢ 0
        → r ≡ some (b', f, true)
        → SameBackend f.instance_id b b'
        → Outcome b f r
    played :
        (ctx : Mock.Context) (b' : Backend Float) (f' : AudioFrame Float)
        → b.vk_ctx ≡ some ctx
        → b.shm_buffer_handle ≡ 0
        → r ≡ some (b', f', true)
        → SameBackend f.instance_id b b'
        → Amplified fl b.gain f f'
        → apply_gain_parallel fl f b.gain ≡ some f'
        → Outcome b f r

  abbrev remembered : ℕ → Backend Float → Backend Float
  remembered i b = record b {
    instance_states = update b.instance_states i (Vulkan.state_entry (b.instance_states i));
  }

  entry_seen : (o : Option ℕ) → (h : ℕ) × (Vulkan.state_entry o ≡ some h)
  entry_seen none = (1, refl)
  entry_seen (some h) = (h, refl)

  remembered_same : (i : ℕ) (b : Backend Float) → SameBackend i b (remembered i b)
  remembered_same i b =
      let e = entry_seen (b.instance_states i) in
      record {
        rest = refl;
        others = λ j n. update_else b.instance_states (Vulkan.state_entry (b.instance_states i)) n;
        seen = (
          e.0,
          update_here b.instance_states {i = i} {j = i} (Vulkan.state_entry (b.instance_states i))
                refl
              ∙ e.1,
        );
      }

  abbrev finished :
      ℕ
      → Backend Float
      → Option (AudioFrame Float)
      → Option (Backend Float × AudioFrame Float × Bool)
  finished i b o = o >>= λ g. some (remembered i b, g, true)

  bypassed :
      (h : ℕ) (b : Backend Float) (f : AudioFrame Float)
      → finished f.instance_id b (Vulkan.dispatched fl (suc h) b.gain f)
        ≡ some (remembered f.instance_id b, f, true)
  unfolding Vulkan.dispatched
  bypassed h b f = refl

  by_handle :
      (handle : ℕ) (ctx : Mock.Context) (b : Backend Float) (f : AudioFrame Float)
      → f.frame_count ≤ 256
      → f.channel_count ≤ 8
      → b.vk_ctx ≡ some ctx
      → b.shm_buffer_handle ≡ handle
      → Outcome b f (Vulkan.process_on fl (some ctx) b f)
  unfolding Vulkan.process_on
  by_handle zero ctx b f p q c e =
      let d = dispatched_lem fl b.gain f p q in
      Outcome.played ctx (remembered f.instance_id b) d.frame c e
        (ap (λ (h : ℕ). finished f.instance_id b (Vulkan.dispatched fl h b.gain f)) e
          ∙ ap (finished f.instance_id b) d.runs)
        (remembered_same f.instance_id b) d.amplified (cpu_same b.gain f ∙ d.runs)
  by_handle (suc h) ctx b f p q c e =
      Outcome.untouched ctx (remembered f.instance_id b) c (omega arith)
        (ap (λ (n : ℕ). finished f.instance_id b (Vulkan.dispatched fl n b.gain f)) e
          ∙ bypassed h b f)
        (remembered_same f.instance_id b)

  by_context :
      (o : Option Mock.Context) (b : Backend Float) (f : AudioFrame Float)
      → f.frame_count ≤ 256
      → f.channel_count ≤ 8
      → b.vk_ctx ≡ o
      → Outcome b f (Vulkan.process_on fl o b f)
  unfolding Vulkan.process_on
  by_context none b f p q e = Outcome.no_context e refl
  by_context (some ctx) b f p q e = by_handle b.shm_buffer_handle ctx b f p q e refl

  -- On a frame of at most 256 samples on 8 channels, `process_stage` runs past no array. Without a
  -- context it fails and changes nothing. With the bypass it succeeds and the frame is as before.
  -- Else it succeeds, the first `frame_count * channel_count` samples of the frame's array are
  -- multiplied by the gain and the others are as before, which is what `apply_gain_parallel` makes of
  -- the frame. With a context the instance has a state afterwards and nothing else of the backend
  -- has changed.
  pub stage_outcome :
      (b : Backend Float) (f : AudioFrame Float)
      → f.frame_count ≤ 256
      → f.channel_count ≤ 8
      → Outcome b f (Vulkan.process_stage fl b f)
  unfolding Vulkan.process_stage
  stage_outcome b f p q = by_context b.vk_ctx b f p q refl
