-- ===== src/Vulkan/Instance.antt =====
-- daemon/worker.cpp: the state that `VulkanBackend` keeps on the GPU for each instance of a plugin.
use linux_opensource_univers.Prelude.{
  update_here, update_else, ℕ, ◌≡◌, refl, ap, ◌≢◌, Option, none, some,
}
use linux_opensource_univers.Vulkan.{Context, Answers}
use linux_opensource_univers.Vulkan.Backend.{Backend, state_on, state_of}

module _ {F : Type 0} where
  state_known :
      (answers : Answers) (i : ℕ) (ctx : Context) (b : Backend F) {h : ℕ}
      → b.instance_states i ≡ some h
      → state_of answers i ctx b ≡ (b, ctx, h)
  unfolding state_of state_on
  state_known answers i ctx b e = ap (λ (o : Option ℕ). state_on o answers i ctx b) e

  kept :
      (answers later : Answers) (i : ℕ) (ctx : Context) (b : Backend F) (o : Option ℕ)
      → b.instance_states i ≡ o
      → (let (b', ctx', h) = state_on o answers i ctx b in
          (state_of later i ctx' b' ≡ (b', ctx', h))
          × ((j : ℕ) → j ≢ i → b'.instance_states j ≡ b.instance_states j))
  unfolding state_on
  kept answers later i ctx b (some h) e = (state_known later i ctx b e, λ j n. refl)
  kept answers later i ctx b none e =
      let (b', ctx', h) = state_on none answers i ctx b in
      (
        state_known later i ctx' b' (update_here b.instance_states {i = i} {j = i} (some h) refl),
        λ j n. update_else b.instance_states (some h) n,
      )

  -- The state of an instance stays its own: whatever the driver answers later, the same handle
  -- serves it again and nothing is allocated, and the states of other instances are not touched.
  pub state_kept :
      (answers later : Answers) (i : ℕ) (ctx : Context) (b : Backend F)
      → (let (b', ctx', h) = state_of answers i ctx b in
          (state_of later i ctx' b' ≡ (b', ctx', h))
          × ((j : ℕ) → j ≢ i → b'.instance_states j ≡ b.instance_states j))
  unfolding state_of
  state_kept answers later i ctx b = kept answers later i ctx b (b.instance_states i) refl
