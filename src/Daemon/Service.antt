-- ===== src/Daemon/Service.antt =====
-- daemon/main.cpp: what a turn of the daemon does for a plugin, and what stays open after it.
use linux_opensource_univers.Prelude.{
  ◌==◌, if◌then◌else◌, ℕ, ◌+◌, ◌≡◌, refl, Bool, true, false, Option, none, some, List, [], ◌∷◌,
  ◌++◌, map, arith,
}
use linux_opensource_univers.Daemon.{
  Turn, Message, worker, descriptor, Event, opened, closed, sent, cleared,
}

-- A plugin is served when it has a socket, its metadata came and a file could be made: the file.
unfoldable pub served : Bool → Option ℕ → Option ℕ
served false memfd = none
served true memfd = memfd

unfoldable pub one : Option ℕ → List ℕ
one none = []
one (some fd) = fd ∷ []

-- What stays open of a turn: the file and the events
unfoldable pub kept : Option ℕ → Turn → List ℕ
kept none t = []
kept (some shm) t = shm ∷ one t.event_send ++ one t.event_recv

-- What is sent to the plugin: the number 0, then the descriptors
unfoldable pub replies : List ℕ → List Message
replies fds = worker 0 ∷ map descriptor fds

unfoldable pub clearing : Bool → ℕ → List Event
clearing mapped shm = if mapped then cleared shm ∷ [] else []

-- What is done between the plugin's arrival and its end
unfoldable pub service : ℕ → Option ℕ → Turn → List Event
service client none t = []
service client (some shm) t =
    let fds = kept (some shm) t in
    map opened fds ++ clearing t.mapped shm ++ map (sent client) (replies fds)

-- A turn: a plugin whose socket is opened is served, and its socket is closed.
unfoldable pub turn_events : Option ℕ → Turn → List Event
turn_events none t = []
turn_events (some client) t =
    opened client ∷ service client (served t.received t.memfd) t ++ closed client ∷ []

-- Over all the turns
unfoldable pub all_events : List Turn → List Event
all_events [] = []
all_events (t ∷ ts) = turn_events t.client t ++ all_events ts

unfoldable pub turn_kept : Option ℕ → Turn → List ℕ
turn_kept none t = []
turn_kept (some client) t = kept (served t.received t.memfd) t

unfoldable pub all_kept : List Turn → List ℕ
all_kept [] = []
all_kept (t ∷ ts) = turn_kept t.client t ++ all_kept ts

-- How often a descriptor is in a list, how often it is opened, and how often it is closed
unfoldable pub count : ℕ → List ℕ → ℕ
count fd [] = 0
count fd (x ∷ l) = (if x == fd then 1 else 0) + count fd l

unfoldable pub opens_of : ℕ → List Event → ℕ
opens_of fd [] = 0
opens_of fd (opened x ∷ l) = (if x == fd then 1 else 0) + opens_of fd l
opens_of fd (closed x ∷ l) = opens_of fd l
opens_of fd (sent c m ∷ l) = opens_of fd l
opens_of fd (cleared x ∷ l) = opens_of fd l

unfoldable pub closes_of : ℕ → List Event → ℕ
closes_of fd [] = 0
closes_of fd (opened x ∷ l) = closes_of fd l
closes_of fd (closed x ∷ l) = (if x == fd then 1 else 0) + closes_of fd l
closes_of fd (sent c m ∷ l) = closes_of fd l
closes_of fd (cleared x ∷ l) = closes_of fd l

count-append : (fd : ℕ) (k l : List ℕ) → count fd (k ++ l) ≡ count fd k + count fd l
unfolding count
count-append fd [] l = omega arith
count-append fd (x ∷ k) l = omega (arith, count-append fd k l)

opens_of-append : (fd : ℕ) (k l : List Event) → opens_of fd (k ++ l) ≡ opens_of fd k + opens_of fd l
unfolding opens_of
opens_of-append fd [] l = omega arith
opens_of-append fd (opened x ∷ k) l = omega (arith, opens_of-append fd k l)
opens_of-append fd (closed x ∷ k) l = opens_of-append fd k l
opens_of-append fd (sent c m ∷ k) l = opens_of-append fd k l
opens_of-append fd (cleared x ∷ k) l = opens_of-append fd k l

closes_of-append :
    (fd : ℕ) (k l : List Event) → closes_of fd (k ++ l) ≡ closes_of fd k + closes_of fd l
unfolding closes_of
closes_of-append fd [] l = omega arith
closes_of-append fd (opened x ∷ k) l = closes_of-append fd k l
closes_of-append fd (closed x ∷ k) l = omega (arith, closes_of-append fd k l)
closes_of-append fd (sent c m ∷ k) l = closes_of-append fd k l
closes_of-append fd (cleared x ∷ k) l = closes_of-append fd k l

-- A descriptor is opened as often as it is closed and as it is in `k`.
abbrev pub Balanced : List ℕ → List Event → Type 0
Balanced k l = (fd : ℕ) → opens_of fd l ≡ closes_of fd l + count fd k

pub append-Balanced :
    (j k : List ℕ) (l m : List Event) → Balanced j l → Balanced k m → Balanced (j ++ k) (l ++ m)
append-Balanced j k l m p q fd =
    omega (arith, p fd, q fd, opens_of-append fd l m, closes_of-append fd l m, count-append fd j k)

pub opened-Balanced : (k : List ℕ) → Balanced k (map opened k)
unfolding opens_of closes_of count
opened-Balanced [] fd = refl
opened-Balanced (x ∷ k) fd = omega (arith, opened-Balanced k fd)

sent-Balanced : (client : ℕ) (ms : List Message) → Balanced [] (map (sent client) ms)
unfolding opens_of closes_of count
sent-Balanced client [] fd = refl
sent-Balanced client (m ∷ ms) fd = sent-Balanced client ms fd

clearing-Balanced : (mapped : Bool) (shm : ℕ) → Balanced [] (clearing mapped shm)
unfolding opens_of closes_of count clearing
clearing-Balanced false shm fd = refl
clearing-Balanced true shm fd = refl

service-Balanced :
    (client : ℕ) (memfd : Option ℕ) (t : Turn) → Balanced (kept memfd t) (service client memfd t)
unfolding opens_of closes_of count service kept
service-Balanced client none t fd = refl
service-Balanced client (some shm) t fd =
    let fds : List ℕ = shm ∷ one t.event_send ++ one t.event_recv in
    let clears = clearing t.mapped shm in
    let ms = map (sent client) (replies fds) in
    omega (
      arith,
      opens_of-append fd (map opened fds ++ clears) ms,
      opens_of-append fd (map opened fds) clears,
      closes_of-append fd (map opened fds ++ clears) ms,
      closes_of-append fd (map opened fds) clears,
      opened-Balanced fds fd,
      sent-Balanced client (replies fds) fd,
      clearing-Balanced t.mapped shm fd,
    )

turn-Balanced :
    (client : Option ℕ) (t : Turn) → Balanced (turn_kept client t) (turn_events client t)
unfolding opens_of closes_of count turn_kept turn_events
turn-Balanced none t fd = refl
turn-Balanced (some client) t fd =
    let memfd = served t.received t.memfd in
    let s = service client memfd t in
    omega (
      arith,
      opens_of-append fd s (closed client ∷ []),
      closes_of-append fd s (closed client ∷ []),
      service-Balanced client memfd t fd,
    )

pub all-Balanced : (ts : List Turn) → Balanced (all_kept ts) (all_events ts)
unfolding all_kept all_events
all-Balanced [] = opened-Balanced []
all-Balanced (t ∷ ts) =
    append-Balanced (turn_kept t.client t) (all_kept ts) (turn_events t.client t) (all_events ts)
      (turn-Balanced t.client t) (all-Balanced ts)
