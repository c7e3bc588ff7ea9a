-- ===== src/Daemon.antt =====
-- daemon/main.cpp: the stand-alone daemon, which answers each plugin that connects with a worker's
-- number and three descriptors.
pub mod Service
pub mod Handshake
mod Tests
use linux_opensource_univers.Prelude.{ℕ, Bool, true, false, Option, none, some, List, [], ◌∷◌, ◌++◌}

-- What the kernel gives for one turn of the loop in `main`: the plugin's socket, whether its metadata
-- came, the file of the shared memory, the two events, and whether the file can be mapped. A
-- descriptor that is negative is `none`.
pub record Turn : Type 0 where
  pub client : Option ℕ
  pub received : Bool
  pub memfd : Option ℕ
  pub event_send : Option ℕ
  pub event_recv : Option ℕ
  pub mapped : Bool

-- What goes through a plugin's socket
pub data Message : Type 0 where
  worker : ℕ → Message
  descriptor : ℕ → Message

-- What the process does to its descriptors, its sockets and the memory of the plugins
pub data Event : Type 0 where
  opened : ℕ → Event
  closed : ℕ → Event
  sent : ℕ → Message → Event
  cleared : ℕ → Event

-- A process is what it has done so far, the first first.
abbrev pub Daemon : Type 0
Daemon = List Event

abbrev pub note : Event → Daemon → Daemon
note e d = d ++ e ∷ []

-- A call that gives a descriptor
unfoldable pub opens : Option ℕ → Daemon → Daemon
opens none d = d
opens (some fd) d = note (opened fd) d

-- `sendmsg` refuses a control message with the descriptor -1, and nobody looks at what it returns.
pub send_fd : ℕ → Option ℕ → Daemon → Daemon
send_fd client none d = d
send_fd client (some fd) d = note (sent client (descriptor fd)) d

-- `memset` over the mapping
pub clear : Bool → ℕ → Daemon → Daemon
clear false shm d = d
clear true shm d = note (cleared shm) d

-- From the three descriptors on
pub pass : ℕ → ℕ → Turn → Daemon → Daemon
pass client shm t d = note (closed client) (
    send_fd client t.event_recv
      (send_fd client t.event_send (send_fd client (some shm) (note (sent client (worker 0)) d))))

-- By the file of the shared memory
pub share : Option ℕ → ℕ → Turn → Daemon → Daemon
share none client t d = note (closed client) d
share (some shm) client t d =
    pass client shm t
      (clear t.mapped shm (opens t.event_recv (opens t.event_send (opens (some shm) d))))

-- By whether metadata came
pub greet : Bool → ℕ → Turn → Daemon → Daemon
greet false client t d = note (closed client) d
greet true client t d = share t.memfd client t d

-- A turn, by the socket that `accept` gives
pub turn_of : Option ℕ → Turn → Daemon → Daemon
turn_of none t d = d
turn_of (some client) t d = greet t.received client t (opens (some client) d)

-- The loop, turn by turn until a signal ends it
pub loop : List Turn → Daemon → Daemon
loop [] d = d
loop (t ∷ ts) d = loop ts (turn_of t.client t d)

-- `main`, by what `socket` gives and by whether the address can be bound: its exit status, and what
-- the process has done
pub main : Option ℕ → Bool → List Turn → ℕ × Daemon
main none bound ts = (1, [])
main (some server) false ts = (1, opened server ∷ [])
main (some server) true ts = (0, loop ts (opened server ∷ []))
