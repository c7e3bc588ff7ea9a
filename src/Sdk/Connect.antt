-- ===== src/Sdk/Connect.antt =====
-- sdk/src/dsp_accel_sdk.cpp: connecting to the daemon and disconnecting, with what the kernel and the
-- daemon answer as an argument.
use linux_opensource_univers.Prelude.{
  if◌then◌else◌, ℕ, ◌≡◌, refl, Bool, true, false, not, ◌&&◌, ◌||◌, Option, none, some, List, [],
  ◌∷◌, ◌++◌,
}
use linux_opensource_univers.Floats.{Floats}
use linux_opensource_univers.Shm.{SharedMemory}
use linux_opensource_univers.Sdk.{Ctx, WorkloadType, Fd}

-- What the calls of `connect` give, each if it is made: the socket, whether the daemon is there,
-- takes the workload and answers, the descriptors that it passes, and whether the memory is mapped.
pub record Replies : Type 0 where
  pub socket : Fd
  pub connects : Bool
  pub sends : Bool
  pub worker : Option ℕ
  pub shm_fd : Fd
  pub eventfd_send : Fd
  pub eventfd_recv : Fd
  pub maps : Bool

-- `safe_close`: the descriptors that it closes; the member is -1 afterwards.
abbrev pub safe_close : Fd → List ℕ
safe_close none = []
safe_close (some fd) = fd ∷ []

abbrev pub is_open : Fd → Bool
is_open none = false
is_open (some fd) = true

-- The descriptors that `connect` has been given, up to the call at which it stops
pub given : Replies → List ℕ
given r =
    if is_open r.socket && r.connects && r.sends && is_open r.worker
    then safe_close r.shm_fd
      ++ safe_close r.eventfd_send
      ++ safe_close r.eventfd_recv
      ++ safe_close r.socket
    else safe_close r.socket

module _ {fl : Floats} where
  abbrev pub close_all : Ctx fl → List ℕ
  close_all c =
      safe_close c.shm_fd
      ++ safe_close c.eventfd_send
      ++ safe_close c.eventfd_recv
      ++ safe_close c.socket_fd

  -- The label `cleanup`, and the context that goes back, with what has been closed
  abbrev pub cleanup : Ctx fl → Ctx fl × List ℕ
  cleanup c = (
    record c { shm_fd = none; eventfd_send = none; eventfd_recv = none; socket_fd = none },
    close_all c,
  )

  abbrev pub map_memory : Bool → SharedMemory (fl.Float) → Ctx fl → Ctx fl × List ℕ
  map_memory maps shm c =
      if maps
      then (
        record c {
          mapped = true;
          last_worker_heartbeat = (shm.workers c.worker_id).heartbeat;
          heartbeat_stalled_count = 0;
        },
        [],
      )
      else cleanup c

  abbrev pub receive_fds : Replies → SharedMemory (fl.Float) → Ctx fl → Ctx fl × List ℕ
  receive_fds r shm c =
      let c' : Ctx fl = record c {
        shm_fd = r.shm_fd;
        eventfd_send = r.eventfd_send;
        eventfd_recv = r.eventfd_recv;
      } in
      if is_open r.shm_fd && is_open r.eventfd_send && is_open r.eventfd_recv
      then map_memory r.maps shm c'
      else cleanup c'

  abbrev pub handshake : Option ℕ → Replies → SharedMemory (fl.Float) → Ctx fl → Ctx fl × List ℕ
  handshake none r shm c = cleanup c
  handshake (some id) r shm c = receive_fds r shm (record c { worker_id = id })

  -- `dsp_accel_sdk_connect`, when there is memory for a context: without a socket or a daemon it
  -- goes to `fallback` and closes nothing.
  unfoldable pub connect :
      WorkloadType
      → fl.Float
      → Replies
      → fl.Float
      → fl.Double
      → SharedMemory (fl.Float)
      → Ctx fl × List ℕ
  connect type cost r zero_float zero_double shm =
      let c : Ctx fl = record {
        socket_fd = r.socket;
        shm_fd = none;
        eventfd_send = none;
        eventfd_recv = none;
        mapped = false;
        worker_id = 0;
        last_worker_heartbeat = 0;
        heartbeat_stalled_count = 0;
        workload_type = type;
        cost_mflops = cost;
        dispatched_blocks = 0;
        xrun_count = 0;
        total_roundtrip_ns = zero_double;
        last_measured_rtt_us = zero_float;
      } in
      if not (is_open r.socket)
      then (c, [])
      else if not r.connects
      then (c, [])
      else if not r.sends
      then cleanup c
      else handshake r.worker r shm c

  -- `dsp_accel_sdk_disconnect` closes what is open and frees the context.
  pub disconnect : Ctx fl → List ℕ
  disconnect c = close_all c

  -- A connected context has all its descriptors open, one that is not has none but the socket.
  abbrev pub consistent : Ctx fl → Bool
  consistent c =
      if c.mapped
      then is_open c.socket_fd
        && is_open c.shm_fd
        && is_open c.eventfd_send
        && is_open c.eventfd_recv
      else not (is_open c.shm_fd || is_open c.eventfd_send || is_open c.eventfd_recv)

  -- The descriptors are each closed once, and the context is consistent.
  abbrev Closes : Replies → Ctx fl × List ℕ → Type 0
  Closes r (c, closed) = (closed ++ close_all c ≡ given r) × (consistent c ≡ true)

module _ (fl : Floats) where
  -- Connecting and disconnecting close each descriptor that was given out exactly once, whichever
  -- call fails. The context that comes back is mapped with all four descriptors open, or it is not
  -- mapped and none but the socket is open.
  pub connect_closes :
      (type : WorkloadType) (cost : fl.Float) (r : Replies) (zero_float : fl.Float)
      (zero_double : fl.Double) (shm : SharedMemory (fl.Float))
      → (let (c, closed) = connect {fl = fl} type cost r zero_float zero_double shm in
          (closed ++ disconnect c ≡ given r) × (consistent c ≡ true))
  unfolding connect disconnect given
  connect_closes type cost r zero_float zero_double shm =
      go r.socket r.connects r.sends r.worker r.shm_fd r.eventfd_send r.eventfd_recv r.maps
    where
      go :
          (a : Fd) (p q : Bool) (w : Option ℕ) (b d e : Fd) (m : Bool)
          → (let r : Replies = record {
            socket = a;
            connects = p;
            sends = q;
            worker = w;
            shm_fd = b;
            eventfd_send = d;
            eventfd_recv = e;
            maps = m;
          } in
              Closes {fl = fl} r (connect type cost r zero_float zero_double shm))
      go none p q w b d e m = (refl, refl)
      go (some a) false q w b d e m = (refl, refl)
      go (some a) true false w b d e m = (refl, refl)
      go (some a) true true none b d e m = (refl, refl)
      go (some a) true true (some w) none none none m = (refl, refl)
      go (some a) true true (some w) none none (some e) m = (refl, refl)
      go (some a) true true (some w) none (some d) none m = (refl, refl)
      go (some a) true true (some w) none (some d) (some e) m = (refl, refl)
      go (some a) true true (some w) (some b) none none m = (refl, refl)
      go (some a) true true (some w) (some b) none (some e) m = (refl, refl)
      go (some a) true true (some w) (some b) (some d) none m = (refl, refl)
      go (some a) true true (some w) (some b) (some d) (some e) true = (refl, refl)
      go (some a) true true (some w) (some b) (some d) (some e) false = (refl, refl)
