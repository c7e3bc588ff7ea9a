-- ===== src/System/Single.antt =====
-- daemon/worker_main.cpp: a worker whose graph has one node, as `main` makes it.
use linux_opensource_univers.Prelude.{
  if_true, if_both, Region, ◌>>=◌, ℕ, zero, suc, ◌≡◌, refl, ap, ◌∙◌, Bool, true, Option, none, some,
  List, [], ◌∷◌,
}
use linux_opensource_univers.Floats.{Floats}
use linux_opensource_univers.Shm.{AudioFrame, sample_region}
use linux_opensource_univers.Worker.{Nodes}
use linux_opensource_univers.Worker.Graph.{
  Graph, process_graph, process_graph_parallel, run, run_staging,
}
use linux_opensource_univers.Worker.Loop.{Worker, process}
use linux_opensource_univers.Backends.Mock
use linux_opensource_univers.Backends.Vulkan
use linux_opensource_univers.Backends.Vulkan.{Backend}
use linux_opensource_univers.Backends.Npu
use linux_opensource_univers.Backends.Devices.{Device, Store, devices, process_device, stored}
use linux_opensource_univers.System.Roundtrip.{Keeps}

-- With one node in the graph, the frame is what that node makes of it.
module _ {F S : Type 0} (nodes : Nodes F S) (n : ℕ) (s : S) (f : AudioFrame F) where
  abbrev left : AudioFrame F
  left = (nodes.process_stage n s f).1

  run_one : (run nodes (n ∷ []) s f).1 ≡ left
  unfolding run
  run_one =
      if_both (λ (r : S × AudioFrame F × Option ℕ). r.1 ≡ left) (nodes.process_stage n s f).2
        (λ e. refl) (λ e. refl)

  run_staging_one : nodes.supports_staging n ≡ true → (run_staging nodes (n ∷ []) s f).1 ≡ left
  unfolding run_staging
  run_staging_one staging =
      ap (λ (r : S × AudioFrame F × Option ℕ). r.1) (if_true _ _ staging)
      ∙ if_both (λ (r : S × AudioFrame F × Option ℕ). r.1 ≡ left) (nodes.process_stage n s f).2
          (λ e. refl) (λ e. refl)

pub process_one :
    {F S : Type 0} (nodes : Nodes F S) (w : Worker F S) (f : AudioFrame F) (n : ℕ)
    → nodes.supports_staging n ≡ true
    → w.graph.execution_order ≡ n ∷ []
    → (process nodes w f).2 ≡ (nodes.process_stage n w.store f).1
unfolding process process_graph process_graph_parallel
process_one {F} {S} nodes w f n staging one =
    if_both (λ (r : Graph × S × AudioFrame F × Bool). r.2 ≡ (nodes.process_stage n w.store f).1) _
      (λ e.
        ap (λ (l : List ℕ). (run_staging nodes l w.store f).1) one
        ∙ run_staging_one nodes n w.store f staging)
      (λ e. ap (λ (l : List ℕ). (run nodes l w.store f).1) one ∙ run_one nodes n w.store f)

module _ (fl : Floats) where
  open fl use {Float}

  SameCounts : AudioFrame Float → AudioFrame Float → Type 0
  SameCounts f f' = (f'.frame_count ≡ f.frame_count) × (f'.channel_count ≡ f.channel_count)

  module _ (n : ℕ) (s : Store Float) (f : AudioFrame Float) (b b' : Backend Float) where
    abbrev put_back : Option (AudioFrame Float) → Option (Device Float × AudioFrame Float × Bool)
    put_back o = do
      let staged : Option (Backend Float × AudioFrame Float × Bool) = o >>= λ g. some (b', g, true)
      r ← staged
      some (Device.vulkan r.0, r.1, r.2)

    abbrev replaced : Option (Region Float) → Option (AudioFrame Float)
    replaced o = o >>= λ out. some (record f { samples = out.cell })

    replaced_keeps :
        (o : Option (Region Float)) → SameCounts f (stored fl n s f (put_back (replaced o))).1
    unfolding SameCounts
    replaced_keeps none = (refl, refl)
    replaced_keeps (some out) = (refl, refl)

    handle_keeps :
        (handle : ℕ)
        → SameCounts f (stored fl n s f (put_back (Vulkan.dispatched fl handle b.gain f))).1
    unfolding Vulkan.dispatched SameCounts
    handle_keeps zero =
        replaced_keeps (Mock.dispatch fl f.frame_count f.channel_count b.gain (sample_region f))
    handle_keeps (suc h) = (refl, refl)

  context_keeps :
      (o : Option Mock.Context) (n : ℕ) (b : Backend Float) (s : Store Float) (f : AudioFrame Float)
      → SameCounts f
          (stored fl n s f
            (Vulkan.process_on fl o b f >>= λ r. some (Device.vulkan r.0, r.1, r.2))).1
  unfolding Vulkan.process_on SameCounts
  context_keeps none n b s f = (refl, refl)
  context_keeps (some ctx) n b s f = handle_keeps n s f b _ b.shm_buffer_handle

  device_keeps :
      (n : ℕ) (d : Device Float) (s : Store Float) (f : AudioFrame Float)
      → SameCounts f (stored fl n s f (process_device fl d f)).1
  unfolding process_device Vulkan.process_stage Npu.process_stage SameCounts
  device_keeps n (Device.npu b) s f = (refl, refl)
  device_keeps n Device.faulted s f = (refl, refl)
  device_keeps n (Device.vulkan b) s f = context_keeps b.vk_ctx n b s f

  pub built-Keeps :
      (fd : Option ℕ) (w : Worker Float (Store Float))
      → w.graph.execution_order ≡ w.primary_node ∷ []
      → Keeps fl (devices fl fd) w
  unfolding Keeps SameCounts
  built-Keeps fd w order shm f =
      let w' : Worker Float (Store Float) = record w { shm = shm } in
      let one = process_one (devices fl fd) w' f w.primary_node refl order in
      let k = device_keeps w.primary_node (w.store w.primary_node) w.store f in
      (
        ap (λ (g : AudioFrame Float). g.frame_count) one ∙ k.0,
        ap (λ (g : AudioFrame Float). g.channel_count) one ∙ k.1,
      )
