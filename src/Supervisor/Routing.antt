-- ===== src/Supervisor/Routing.antt =====
-- daemon/pipewire/module-dsp-accel.cpp: which worker a plugin is assigned to.
use linux_opensource_univers.Prelude.{
  ltb, ◌==◌, if◌then◌else◌, if_true, if_false, ==→eq, Bool-cases, and_left, and_right, get_elem?, ℕ,
  suc, ◌+◌, ◌≡◌, refl, sym, ap, ap₂, ◌∙◌, inl, inr, Bool, true, false, ◌&&◌, ◌||◌, Option, none,
  some, List, [], ◌∷◌, arith,
}
use native.Mathlib.Nat.{zero-add}
use linux_opensource_univers.Shm.{SharedMemory, is_none}
use linux_opensource_univers.Sdk.{Fd}
use linux_opensource_univers.Sdk.Connect.{is_open}
use linux_opensource_univers.Supervisor.{
  ComputeNode, Spawn, Granted, fresh, spawn_worker, with_file, visit, route, find_target, granted,
  on_plugin_connection, destroyed,
}

or_false : (b : Bool) → b ≡ (b || false)
or_false true = refl
or_false false = refl

or_true : (b : Bool) → true ≡ (b || true)
or_true true = refl
or_true false = refl

picked :
    {A B : Type 0} (b : Bool) (x y : A) (u v : B)
    → (let r : A × B = if b then (x, u) else (y, v) in r.1 ≡ (if b then u else v))
picked true x y u v = refl
picked false x y u v = refl

module _ {F : Type 0} where
  abbrev pub is_mapped : Option (SharedMemory F) → Bool
  is_mapped none = false
  is_mapped (some shm) = true

  -- A worker that can take a plugin: mapped, without an error, below 80 percent, and active.
  abbrev pub healthy_at : Option (SharedMemory F) → ComputeNode F → Bool
  healthy_at none n = false
  healthy_at (some shm) n =
      is_none (shm.workers n.worker_id).last_error
      && ltb (shm.workers n.worker_id).load_pct 80
      && n.is_active

  -- The first healthy worker, from the number `i` on
  abbrev pub first_healthy : ℕ → List (ComputeNode F) → Option ℕ
  first_healthy i [] = none
  first_healthy i (n ∷ ns) =
      let rest = first_healthy (i + 1) ns in if healthy_at n.shm n then some i else rest

  visit-healthy :
      (r : Spawn F) (shm : Option (SharedMemory F)) (n : ComputeNode F)
      → (visit r shm n).1 ≡ healthy_at shm n
  visit-healthy r none n = refl
  visit-healthy r (some shm) n = ground arith

  -- A request is routed to the first worker that is healthy, and refused when none is, whatever
  -- becomes of the workers that are restarted on the way.
  pub routes_first_healthy :
      (spawn : ℕ → Spawn F) (i : ℕ) (ns : List (ComputeNode F))
      → (route spawn i ns).1 ≡ first_healthy i ns
  unfolding route
  routes_first_healthy spawn i [] = refl
  routes_first_healthy spawn i (n ∷ ns) =
      let v = visit-healthy (spawn i) n.shm n in
      let rest = routes_first_healthy spawn (i + 1) ns in
      picked (visit (spawn i) n.shm n).1 _ _ (some i) (route spawn (i + 1) ns).1
      ∙ ap₂ (λ (b : Bool) (o : Option ℕ). if b then some i else o) v rest

  -- A worker is active after its start exactly when it has been active before or all has gone well:
  -- its file, its size, its mapping, its sockets and its process.
  pub spawn_active :
      (r : Spawn F) (n : ComputeNode F)
      → (let n' = spawn_worker r n in
          (n'.is_active ≡ (
            n.is_active
            || is_open r.memfd
              && r.truncates
              && is_mapped r.mapping
              && r.paired
              && is_open r.process))
          × (n'.worker_id ≡ n.worker_id))
  unfolding spawn_worker
  spawn_active r n = go r.memfd r.truncates r.mapping r.paired r.process
    where
      go :
          (m : Fd) (t : Bool) (s : Option (SharedMemory F)) (p : Bool) (k : Option ℕ)
          → (let n' =
                with_file m
                  (record r { memfd = m; truncates = t; mapping = s; paired = p; process = k })
                  n in
              (n'.is_active ≡ (n.is_active || is_open m && t && is_mapped s && p && is_open k))
              × (n'.worker_id ≡ n.worker_id))
      go none t s p k = (or_false n.is_active, refl)
      go (some m) false s p k = (or_false n.is_active, refl)
      go (some m) true none p k = (or_false n.is_active, refl)
      go (some m) true (some s) false k = (or_false n.is_active, refl)
      go (some m) true (some s) true none = (or_false n.is_active, refl)
      go (some m) true (some s) true (some k) = (or_true n.is_active, refl)

  -- What a search from the number `i` on finds
  record Target (wl_type i : ℕ) (ns : List (ComputeNode F)) (n : ComputeNode F) : Type 0 where
    pub place : ℕ
    pub at_type : i + place ≡ wl_type
    pub here : get_elem? ns place ≡ some n
    pub active : n.is_active ≡ true

  find_target-Target :
      (wl_type i : ℕ) (ns : List (ComputeNode F)) (n : ComputeNode F)
      → find_target wl_type i ns ≡ some n
      → Target wl_type i ns n
  unfolding find_target
  find_target-Target wl_type i [] n e = cc
  find_target-Target wl_type i (m ∷ ns) n e = elim (Bool-cases (i == wl_type && m.is_active)) [
    | inl y ↦
        let same : m ≡ n = cc (sym (if_true (some m) (find_target wl_type (i + 1) ns) y) ∙ e) in
        record {
          place = 0;
          at_type = omega (arith, ==→eq i wl_type (and_left m.is_active y));
          here = ap (λ (x : ComputeNode F). some x) same;
          active = ap (λ (x : ComputeNode F). x.is_active) (sym same) ∙ and_right (i == wl_type) y;
        }
    | inr no_match ↦
        let rest =
          find_target-Target wl_type (i + 1) ns n
            (sym (if_false (some m) (find_target wl_type (i + 1) ns) no_match) ∙ e) in
        record {
          place = suc rest.place;
          at_type = omega (arith, rest.at_type);
          here = rest.here;
          active = rest.active;
        }
  ]

  granted_by :
      (answered : Bool) (wl_type : ℕ) (ns : List (ComputeNode F)) (g : Granted)
      (o : Option (ComputeNode F))
      → find_target wl_type 0 ns ≡ o
      → (elim o [ none ↦ none | some n ↦ if answered then some (granted n) else none ]) ≡ some g
      → (n : ComputeNode F) × (get_elem? ns wl_type ≡ some n)
        × (n.is_active ≡ true)
        × (g ≡ granted n)
  granted_by answered wl_type ns g none e h = cc
  granted_by false wl_type ns g (some n) e h = cc
  granted_by true wl_type ns g (some n) e h =
      let t = find_target-Target wl_type 0 ns n e in
      (n, ap (get_elem? ns) (sym t.at_type ∙ zero-add t.place) ∙ t.here, t.active, cc h)

  -- A plugin is granted a session only with the active worker whose place is the type of workload
  -- that it has sent, and gets the number and the descriptors of that worker.
  pub granted_active :
      (wl_type : ℕ) (answered : Bool) (ns : List (ComputeNode F)) (g : Granted)
      → on_plugin_connection (some wl_type) answered ns ≡ some g
      → (n : ComputeNode F) × (get_elem? ns wl_type ≡ some n)
        × (n.is_active ≡ true)
        × (g ≡ granted n)
  unfolding on_plugin_connection
  granted_active wl_type answered ns g e =
      granted_by answered wl_type ns g (find_target wl_type 0 ns) refl e

  -- When the file of a worker cannot be made at the start, its other descriptors are 0 and not -1,
  -- and `module_destroy` closes the descriptor 0 twice, which is none of its own.
  pub destroy_closes_stdin :
      (r : Spawn F) (i : ℕ) (ns : List (ComputeNode F))
      → r.memfd ≡ none
      → destroyed (spawn_worker r (fresh i) ∷ ns) ≡ 0 ∷ 0 ∷ destroyed ns
  unfolding spawn_worker destroyed
  destroy_closes_stdin r i ns e = ap (λ (m : Fd). destroyed (with_file m r (fresh i) ∷ ns)) e
