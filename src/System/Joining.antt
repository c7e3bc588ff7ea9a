-- ===== src/System/Joining.antt =====
-- sdk/src/dsp_accel_sdk.cpp with daemon/pipewire/module-dsp-accel.cpp: a plugin that connects to the supervisor.
use mathlib.Core.Path.{subst}
use linux_opensource_univers.Prelude.{
  if_true, if_false, Bool-cases, get_elem?, Region, ℤ, ℕ, ◌≡◌, refl, sym, ap, ◌∙◌, inl, inr, Bool,
  true, false, ◌&&◌, Option, none, some, List,
}
use linux_opensource_univers.Floats.{Floats}
use linux_opensource_univers.Shm.{SharedMemory}
use linux_opensource_univers.Sdk.{Ctx, Session, WorkloadType, Answer, Fd}
use linux_opensource_univers.Sdk.Connect.{Replies, connect, is_open}
use linux_opensource_univers.Sdk.Dispatch.{dispatch}
use linux_opensource_univers.Sdk.Dispatch.Watchdog.{dispatch_refused}
use linux_opensource_univers.Supervisor.{ComputeNode, Granted, granted, on_plugin_connection}
use linux_opensource_univers.Supervisor.Target.{if_active, granted_of, on_plugin_connection_lem}

-- `(uint32_t)type`, which the plugin sends
abbrev pub type_number : WorkloadType → ℕ
type_number WorkloadType.massively_parallel = 0
type_number WorkloadType.array_processor = 1
type_number WorkloadType.remote = 2

-- What the supervisor's answer is for `connect`. A descriptor that is passed keeps its number here.
abbrev pub replies_of : ℕ → Bool → Option Granted → Replies
replies_of sock maps none = record {
  socket = some sock;
  connects = true;
  sends = true;
  worker = none;
  shm_fd = none;
  eventfd_send = none;
  eventfd_recv = none;
  maps = maps;
}
replies_of sock maps (some g) = record {
  socket = some sock;
  connects = true;
  sends = true;
  worker = some g.worker_id;
  shm_fd = g.shm_fd;
  eventfd_send = g.e_send;
  eventfd_recv = g.e_recv;
  maps = maps;
}

module _ {F : Type 0} where
  -- Whether there is an active worker with its three descriptors open
  abbrev pub available : Option (ComputeNode F) → Bool
  available none = false
  available (some n) = n.is_active && (is_open n.shm_fd && is_open n.e_send && is_open n.e_recv)

module _ (fl : Floats) where
  open fl use {Float, Double}

  abbrev pub session_of : Ctx fl → SharedMemory Float → Session fl
  session_of c shm = record { ctx = some c; shm = shm }

  -- How a plugin that has connected stands
  pub data Joined (ns : List (ComputeNode Float)) (place : ℕ) (shm : SharedMemory Float)
      (c : Ctx fl) : Type 0 where
    on_cpu :
        c.mapped ≡ false
        → ((bufs : List (Region Float)) (frames channels : ℤ) (now : ℕ) (answer : Answer)
            → dispatch (session_of c shm) bufs frames channels now answer
              ≡ some (session_of c shm, false))
        → Joined ns place shm c
    served :
        (n : ComputeNode Float)
        → get_elem? ns place ≡ some n
        → c.mapped ≡ true
        → c.worker_id ≡ n.worker_id
        → c.shm_fd ≡ n.shm_fd
        → c.eventfd_send ≡ n.e_send
        → c.eventfd_recv ≡ n.e_recv
        → c.last_worker_heartbeat ≡ (shm.workers n.worker_id).heartbeat
        → Joined ns place shm c

  refused :
      (shm : SharedMemory Float) (c : Ctx fl)
      → c.mapped ≡ false
      → (bufs : List (Region Float)) (frames channels : ℤ) (now : ℕ) (answer : Answer)
      → dispatch (session_of c shm) bufs frames channels now answer ≡ some (session_of c shm, false)
  refused shm c off bufs frames channels now answer =
      dispatch_refused bufs frames channels now answer (session_of c shm) c refl (inl off)

  active_and :
      (maps : Bool) (n : ComputeNode Float)
      → n.is_active ≡ true
      → (available (some n) && maps)
        ≡ (is_open n.shm_fd && is_open n.e_send && is_open n.e_recv && maps)
  active_and maps n y =
      ap (λ (b : Bool). b && (is_open n.shm_fd && is_open n.e_send && is_open n.e_recv) && maps) y

  -- What `connect` makes of an answer with a worker, by whether all that it needs is there
  data Connected (shm : SharedMemory Float) (g : Granted) (c : Ctx fl) : Bool → Type 0 where
    off : c.mapped ≡ false → Connected shm g c false
    on :
        c.mapped ≡ true
        → c.worker_id ≡ g.worker_id
        → c.shm_fd ≡ g.shm_fd
        → c.eventfd_send ≡ g.e_send
        → c.eventfd_recv ≡ g.e_recv
        → c.last_worker_heartbeat ≡ (shm.workers g.worker_id).heartbeat
        → Connected shm g c true

  module _ (type : WorkloadType) (cost : Float) (sock : ℕ) (zero_float : Float)
      (zero_double : Double) (shm : SharedMemory Float) where
    abbrev pub connected : Bool → Option Granted → Ctx fl
    connected maps g =
        (connect {fl = fl} type cost (replies_of sock maps g) zero_float zero_double shm).0

    none-off : (maps : Bool) → (connected maps none).mapped ≡ false
    unfolding connect
    none-off maps = refl

    some-Connected :
        (id : ℕ) (a b d : Fd) (maps : Bool)
        → (let g : Granted = record { worker_id = id; shm_fd = a; e_send = b; e_recv = d } in
            Connected shm g (connected maps (some g)) (is_open a && is_open b && is_open d && maps))
    unfolding connect
    some-Connected id none b d maps = off refl
    some-Connected id (some a) none d maps = off refl
    some-Connected id (some a) (some b) none maps = off refl
    some-Connected id (some a) (some b) (some d) false = off refl
    some-Connected id (some a) (some b) (some d) true = on refl refl refl refl refl refl

    module _ (maps : Bool) (ns : List (ComputeNode Float)) (place : ℕ) where
      abbrev Ends : Option (ComputeNode Float) → Ctx fl → Type 0
      Ends o c = (c.mapped ≡ (available o && maps)) × Joined ns place shm c

      with_worker :
          (n : ComputeNode Float) (b : Bool)
          → get_elem? ns place ≡ some n
          → n.is_active ≡ true
          → Connected shm (granted n) (connected maps (some (granted n))) b
          → b ≡ (is_open n.shm_fd && is_open n.e_send && is_open n.e_recv && maps)
          → Ends (some n) (connected maps (some (granted n)))
      with_worker n b here active (off no_map) e = (
        no_map ∙ (e ∙ sym (active_and maps n active)),
        Joined.on_cpu no_map (refused shm (connected maps (some (granted n))) no_map),
      )
      with_worker n b here active (on is_map id f s r hb) e =
          (is_map ∙ (e ∙ sym (active_and maps n active)), Joined.served n here is_map id f s r hb)

      alone : (o : Option (ComputeNode Float)) → available o ≡ false → Ends o (connected maps none)
      alone o e = (
        none-off maps ∙ sym (ap (λ (b : Bool). b && maps) e),
        Joined.on_cpu (none-off maps) (refused shm (connected maps none) (none-off maps)),
      )

      by_place :
          (o : Option (ComputeNode Float))
          → get_elem? ns place ≡ o
          → Ends o (connected maps (granted_of (if_active o)))
      by_place none e = alone none refl
      by_place (some n) e = elim (Bool-cases n.is_active) [
        | inl y ↦
            subst
              (λ (g : Option (ComputeNode Float)). Ends (some n) (connected maps (granted_of g)))
              (sym (if_true _ _ y))
              (with_worker n _ e y (some-Connected n.worker_id n.shm_fd n.e_send n.e_recv maps)
                refl)
        | inr idle ↦
            subst
              (λ (g : Option (ComputeNode Float)). Ends (some n) (connected maps (granted_of g)))
              (sym (if_false _ _ idle))
              (alone (some n) (
                ap (λ (b : Bool). b && (is_open n.shm_fd && is_open n.e_send && is_open n.e_recv))
                  idle))
      ]

    -- A plugin that connects to the supervisor, and is answered, has a session exactly when the worker
    -- at the place of its type of workload is active with its three descriptors open, and the plugin
    -- can map the memory. The session is then with that worker: its number, its descriptors, and the
    -- heartbeat that it has at the time. Without a session every `dispatch` says false and changes
    -- nothing.
    pub plugin_joins :
        (maps : Bool) (ns : List (ComputeNode Float))
        → (let place = type_number type in
            let c = connected maps (on_plugin_connection (some place) true ns) in
            (c.mapped ≡ (available (get_elem? ns place) && maps)) × Joined ns place shm c)
    plugin_joins maps ns =
        let place = type_number type in
        subst (λ (g : Option Granted). Ends maps ns place (get_elem? ns place) (connected maps g))
          (sym (on_plugin_connection_lem place ns))
          (by_place maps ns place (get_elem? ns place) refl)
