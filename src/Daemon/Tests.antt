-- ===== src/Daemon/Tests.antt =====
-- daemon/main.cpp: the handshake on concrete answers of the kernel.
use linux_opensource_univers.Prelude.{◌≡◌, refl, true, false, none, some, [], ◌∷◌}
use linux_opensource_univers.Daemon.{
  Turn, worker, descriptor, Daemon, opened, closed, sent, cleared, main, loop, turn_of, greet,
  share, pass, send_fd, clear, opens,
}

-- A plugin that is served, one that says nothing, one without a file, and one without an event
abbrev good : Turn
good = record {
  client = some 4;
  received = true;
  memfd = some 5;
  event_send = some 6;
  event_recv = some 7;
  mapped = true;
}

abbrev silent : Turn
silent = record good { received = false }

abbrev no_file : Turn
no_file = record good { memfd = none }

abbrev no_event : Turn
no_event = record good { client = some 8; memfd = some 9; event_send = none }

-- The address is taken, and the daemon answers nobody.
address_taken : (main (some 3) false (good ∷ [])).0 ≡ 1
unfolding main
address_taken = refl

-- Two plugins, of which the second says nothing
abbrev log : Daemon
log =
    opened 3
    ∷ opened 4
    ∷ opened 5
    ∷ opened 6
    ∷ opened 7
    ∷ cleared 5
    ∷ sent 4 (worker 0)
    ∷ sent 4 (descriptor 5)
    ∷ sent 4 (descriptor 6)
    ∷ sent 4 (descriptor 7)
    ∷ closed 4
    ∷ opened 4
    ∷ closed 4
    ∷ []

two_plugins : (main (some 3) true (good ∷ silent ∷ [])).1 ≡ log
unfolding main loop turn_of greet share pass send_fd clear opens
two_plugins = refl
