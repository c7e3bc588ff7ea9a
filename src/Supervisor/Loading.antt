-- ===== src/Supervisor/Loading.antt =====
-- daemon/pipewire/module-dsp-accel.cpp: which plugins a module that has just been loaded serves.
use mathlib.Core.Path.{subst}
use linux_opensource_univers.Prelude.{
  ltb, if◌then◌else◌, if_false, ltb→lt, ltb_false→le, eq→==, ne→==_false, Bool-cases, if_both,
  of_not→false, of_not→true, ℕ, zero, suc, ◌+◌, ◌≤◌, ◌<◌, ◌≡◌, refl, sym, ap, ap₂, ◌∙◌, ◌⊎◌, inl,
  inr, Bool, true, false, not, ◌&&◌, Option, none, some, [], ◌∷◌, arith, ℕ_discrete,
}
use linux_opensource_univers.Sdk.{Fd}
use linux_opensource_univers.Sdk.Connect.{is_open}
use linux_opensource_univers.Supervisor.{
  ComputeNode, Spawn, Granted, granted, fresh, spawn_worker, find_target, on_plugin_connection,
}
use linux_opensource_univers.Supervisor.Routing.{is_mapped, spawn_active}
use linux_opensource_univers.Supervisor.Module.{
  Host, Module, Loaded, spawn_all, start_workers, set_up, init, num_compute_nodes, enomem,
}

module _ {F : Type 0} where
  -- All that the start of a worker asks for is there.
  abbrev pub well : Spawn F → Bool
  well r = is_open r.memfd && r.truncates && is_mapped r.mapping && r.paired && is_open r.process

  abbrev pub worker_at : (ℕ → Spawn F) → ℕ → ComputeNode F
  worker_at spawns i = spawn_worker (spawns i) (fresh i)

  active_well : (spawns : ℕ → Spawn F) (i : ℕ) → (worker_at spawns i).is_active ≡ well (spawns i)
  active_well spawns i = (spawn_active (spawns i) (fresh i)).0

  past : (spawns : ℕ → Spawn F) (t i n : ℕ) → t < i → find_target t i (spawn_all spawns i n) ≡ none
  unfolding find_target spawn_all
  past spawns t i zero h = refl
  past spawns t i (suc n) h =
      if_false _ _
        (ap (λ (b : Bool). b && (worker_at spawns i).is_active) (ne→==_false i t (omega arith)))
      ∙ past spawns t (i + 1) n (omega arith)

  hit :
      (spawns : ℕ → Spawn F) (t n : ℕ)
      → find_target t t (spawn_all spawns t (suc n))
        ≡ (if well (spawns t) then some (worker_at spawns t) else none)
  unfolding find_target spawn_all
  hit spawns t n =
      ap₂ (λ (b : Bool) (o : Option (ComputeNode F)). if b then some (worker_at spawns t) else o)
        (ap₂ ◌&&◌ (eq→== t t refl) (active_well spawns t)) (past spawns t (t + 1) n (omega arith))

  within :
      (spawns : ℕ → Spawn F) (t i n : ℕ)
      → i ≤ t
      → t < i + n
      → find_target t i (spawn_all spawns i n)
        ≡ (if well (spawns t) then some (worker_at spawns t) else none)
  unfolding find_target spawn_all
  within spawns t i zero lo hi = absurd (omega arith)
  within spawns t i (suc n) lo hi = elim (ℕ_discrete i t) [
    | yes e ↦
        subst
          (λ (j : ℕ).
            find_target t j (spawn_all spawns j (suc n))
            ≡ (if well (spawns t) then some (worker_at spawns t) else none))
          (sym e) (hit spawns t n)
    | no ne ↦
        if_false _ _ (ap (λ (b : Bool). b && (worker_at spawns i).is_active) (ne→==_false i t ne))
        ∙ within spawns t (i + 1) n (omega arith) (omega arith)
  ]

  beyond :
      (spawns : ℕ → Spawn F) (t i n : ℕ) → i + n ≤ t → find_target t i (spawn_all spawns i n) ≡ none
  unfolding find_target spawn_all
  beyond spawns t i zero h = refl
  beyond spawns t i (suc n) h =
      if_false _ _
        (ap (λ (b : Bool). b && (worker_at spawns i).is_active) (ne→==_false i t (omega arith)))
      ∙ beyond spawns t (i + 1) n (omega arith)

  first_three :
      (spawns : ℕ → Spawn F) (t : ℕ)
      → find_target t 0 (spawn_all spawns 0 num_compute_nodes)
        ≡ (if ltb t num_compute_nodes && well (spawns t) then some (worker_at spawns t) else none)
  first_three spawns t = elim (Bool-cases (ltb t num_compute_nodes)) [
    | inl y ↦
        within spawns t 0 num_compute_nodes (omega arith) (ltb→lt t num_compute_nodes y)
        ∙ ap (λ (b : Bool). if b && well (spawns t) then some (worker_at spawns t) else none)
            (sym y)
    | inr n ↦
        beyond spawns t 0 num_compute_nodes (ltb_false→le t num_compute_nodes n)
        ∙ ap (λ (b : Bool). if b && well (spawns t) then some (worker_at spawns t) else none)
            (sym n)
  ]

  abbrev response : Option (ComputeNode F) → Option Granted
  response o = elim o [ none ↦ none | some n ↦ if true then some (granted n) else none ]

  response-if :
      (b : Bool) (n : ComputeNode F)
      → response (if b then some n else none) ≡ (if b then some (granted n) else none)
  response-if true n = refl
  response-if false n = refl

  -- What a module has that has been loaded
  pub record Serves (h : Host F) (m : Module F) (t : ℕ) : Type 0 where
    pub same_fd : m.server_fd ≡ h.socket
    pub hears : m.listening ≡ is_open h.socket
    pub grants : on_plugin_connection (some t) true m.compute_nodes ≡ (
        if ltb t num_compute_nodes && well (h.spawns t)
        then some (granted (worker_at h.spawns t))
        else none)

  served :
      (h : Host F) (t : ℕ) (b : Bool)
      → b ≡ is_open h.socket
      → Serves h
          (record {
            server_fd = h.socket;
            listening = b;
            compute_nodes = spawn_all h.spawns 0 num_compute_nodes;
          })
          t
  unfolding on_plugin_connection
  served h t b e = record {
    same_fd = refl;
    hears = e;
    grants =
        ap response (first_three h.spawns t)
        ∙ response-if (ltb t num_compute_nodes && well (h.spawns t)) (worker_at h.spawns t);
  }

  -- What loading comes to, where there is memory for the nodes
  pub data Outcome (h : Host F) (t : ℕ) : Option (Loaded F) → Type 0 where
    no_memory : h.allocates ≡ false → Outcome h t (some (Loaded.failed enomem []))
    not_bound :
        (fd : ℕ)
        → h.allocates ≡ true
        → h.socket ≡ some fd
        → h.binds ≡ false
        → Outcome h t (some (Loaded.failed h.error (fd ∷ [])))
    serves :
        (m : Module F)
        → h.allocates ≡ true
        → (h.socket ≡ none) ⊎ (h.binds ≡ true)
        → Serves h m t
        → Outcome h t (some (Loaded.loaded m))

  started :
      (h : Host F) (t : ℕ) (fd : Fd) (b : Bool)
      → h.allocates ≡ true
      → h.allocates_nodes ≡ true
      → h.socket ≡ fd
      → (h.socket ≡ none) ⊎ (h.binds ≡ true)
      → b ≡ is_open fd
      → Outcome h t (start_workers h fd b)
  unfolding start_workers
  started h t fd b own nodes e free f =
      if_both (Outcome h t) (not h.allocates_nodes) (λ y. cc (of_not→false h.allocates_nodes y))
        (λ n. Outcome.serves _ own free (
          subst
            (λ (x : Fd).
              Serves h
                (record {
                  server_fd = x;
                  listening = b;
                  compute_nodes = spawn_all h.spawns 0 num_compute_nodes;
                })
                t)
            e (served h t b (f ∙ ap is_open (sym e)))))

  by_socket :
      (h : Host F) (t : ℕ) (fd : Fd)
      → h.allocates ≡ true
      → h.allocates_nodes ≡ true
      → h.socket ≡ fd
      → Outcome h t (set_up fd h)
  unfolding set_up
  by_socket h t none own nodes e = started h t none false own nodes e (inl e) refl
  by_socket h t (some fd) own nodes e =
      if_both (Outcome h t) h.binds (λ y. started h t (some fd) true own nodes e (inr y) refl)
        (λ n. Outcome.not_bound fd own e n)

  -- Where there is memory for its nodes, the module is loaded unless the memory for itself is
  -- missing or its address is taken; then the socket is closed. A loaded module listens exactly
  -- when it has a socket. A plugin that connects with the workload type `t` is granted
  -- a session exactly when `t` is below 3 and all that the start of the worker `t` needs was there,
  -- and it gets that worker's number and descriptors.
  pub load_outcome : (h : Host F) (t : ℕ) → h.allocates_nodes ≡ true → Outcome h t (init h)
  unfolding init
  load_outcome h t nodes =
      if_both (Outcome h t) (not h.allocates) (λ y. Outcome.no_memory (of_not→false h.allocates y))
        (λ n. by_socket h t h.socket (of_not→true h.allocates n) nodes refl)
