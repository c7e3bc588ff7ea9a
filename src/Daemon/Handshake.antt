-- ===== src/Daemon/Handshake.antt =====
-- daemon/main.cpp: the calls of the daemon, in order.
use linux_opensource_univers.Daemon.{Daemon}
