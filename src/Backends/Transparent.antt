-- ===== src/Backends/Transparent.antt =====
-- daemon/worker_main.cpp: the nodes that it makes change samples alone.
use mathlib.Core.Path.{subst}
use linux_opensource_univers.Prelude.{
  Region, >>=-eq-some, ℕ, zero, suc, ◌≡◌, refl, Bool, Option, none, some,
}
use linux_opensource_univers.Floats.{Floats}
use linux_opensource_univers.Shm.{AudioFrame, sample_region}
use linux_opensource_univers.Worker.Loop.Transparent.{SameHeader, Transparent}
use linux_opensource_univers.Backends.Mock
use linux_opensource_univers.Backends.Vulkan
use linux_opensource_univers.Backends.Npu
use linux_opensource_univers.Backends.Devices.{Device, Store, devices, stored, process_device}

module _ (fl : Floats) where
  open fl use {Float}

  same : (f : AudioFrame Float) → SameHeader f f
  same f = record { frame_count = refl; channel_count = refl; timestamp_ns = refl }

  abbrev with_samples : AudioFrame Float → Region Float → AudioFrame Float
  with_samples f r = record f { samples = r.cell }

  dispatched-SameHeader :
      (h : ℕ) (gain : Float) (f : AudioFrame Float) {f' : AudioFrame Float}
      → Vulkan.dispatched fl h gain f ≡ some f'
      → SameHeader f f'
  unfolding Vulkan.dispatched
  dispatched-SameHeader zero gain f {f'} e =
      let o = Mock.dispatch fl f.frame_count f.channel_count gain (sample_region f) in
      let (out, runs, is) = >>=-eq-some o (λ (r : Region Float). some (with_samples f r)) e in
      let at : with_samples f out ≡ f' = cc is in
      subst (SameHeader f) at
        record { frame_count = refl; channel_count = refl; timestamp_ns = refl }
  dispatched-SameHeader (suc h) gain f e = subst (SameHeader f) (cc e) (same f)

  process_on-SameHeader :
      (o : Option Mock.Context) (b : Vulkan.Backend Float) (f : AudioFrame Float)
      {r : Vulkan.Backend Float × AudioFrame Float × Bool}
      → Vulkan.process_on fl o b f ≡ some r
      → SameHeader f r.1
  unfolding Vulkan.process_on
  process_on-SameHeader none b f {r} e = subst (SameHeader f) (cc e) (same f)
  process_on-SameHeader (some ctx) b f {r} e =
      let (f', runs, is) = >>=-eq-some (Vulkan.dispatched fl b.shm_buffer_handle b.gain f) _ e in
      let at : f' ≡ r.1 = cc is in
      subst (SameHeader f) at (dispatched-SameHeader b.shm_buffer_handle b.gain f runs)

  device-SameHeader :
      (d : Device Float) (f : AudioFrame Float) {r : Device Float × AudioFrame Float × Bool}
      → process_device fl d f ≡ some r
      → SameHeader f r.1
  unfolding process_device Vulkan.process_stage Npu.process_stage
  device-SameHeader (Device.vulkan b) f {r} e =
      let (q, runs, is) = >>=-eq-some (Vulkan.process_on fl b.vk_ctx b f) _ e in
      let at : q.1 ≡ r.1 = cc is in
      subst (SameHeader f) at (process_on-SameHeader b.vk_ctx b f runs)
  device-SameHeader (Device.npu b) f e = subst (SameHeader f) (cc e) (same f)
  device-SameHeader Device.faulted f e = absurd (cc e)

  stored-SameHeader :
      (n : ℕ) (s : Store Float) (f : AudioFrame Float)
      (o : Option (Device Float × AudioFrame Float × Bool))
      → process_device fl (s n) f ≡ o
      → SameHeader f (stored fl n s f o).1
  stored-SameHeader n s f none e = same f
  stored-SameHeader n s f (some r) e = device-SameHeader (s n) f e

  -- With the nodes of the worker that is built, the hypothesis on the nodes holds.
  pub devices-Transparent : (fd : Option ℕ) → Transparent (devices fl fd)
  unfolding Transparent
  devices-Transparent fd n s f = stored-SameHeader n s f (process_device fl (s n) f) refl
