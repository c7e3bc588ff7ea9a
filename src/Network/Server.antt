-- ===== src/Network/Server.antt =====
-- daemon/network_server_node.hpp: the machine at the other end, over its worker `step`: the
-- `process_stage` of an `IDspNode`, with what it leaves in the frame.
use linux_opensource_univers.Prelude.{
  ltb, ◌==◌, if◌then◌else◌, ℕ, ◌+◌, Bool, true, false, not, Option, none, some, List, [], ◌∷◌, ◌++◌,
}
use linux_opensource_univers.Shm.{AudioFrame}
use linux_opensource_univers.Network.{
  Datagram, PacketType, header_size, frame_size, net_magic, is_audio,
}

pub record Server (W : Type 0) : Type 0 where
  pub running : Bool
  pub local_worker : W

unfoldable pub is_handshake : PacketType → Bool
is_handshake PacketType.handshake = true
is_handshake _ = false

-- The head of `start`: without the port, it returns.
pub start : {W : Type 0} → Bool → Server W → Server W
start bound server = if bound then record server { running = true } else server

pub stop : {W : Type 0} → Server W → Server W
stop server = record server { running = false }

-- What goes back to the client: the frame that the worker has processed, or the word that the
-- server is there.
abbrev pub echo : {F : Type 0} → ℕ → Datagram F → AudioFrame F → Datagram F
echo now d frame = record {
  length = header_size + frame_size;
  header = record d.header { timestamp_ns = now };
  payload = frame;
}

abbrev pub answer : {F : Type 0} → Datagram F → Datagram F
answer d = record d {
  length = header_size;
  header = record d.header { type = PacketType.keepalive };
}

abbrev pub listed : {A : Type 0} → Option A → List A
listed none = []
listed (some a) = a ∷ []

module _ {W F : Type 0} (step : W → AudioFrame F → W × AudioFrame F) where
  -- One round of the loop in `start`: the server, and what it sends back to the client.
  unfoldable pub serve : ℕ → Datagram F → Server W → Server W × Option (Datagram F)
  serve now d server =
      if ltb d.length header_size
      then (server, none)
      else if not (d.header.magic == net_magic)
      then (server, none)
      else if is_audio d.header.type
      then (let (worker, frame) = step server.local_worker d.payload in
          (record server { local_worker = worker }, some (echo now d frame)))
      else if is_handshake d.header.type
      then (server, some (answer d))
      else (server, none)

  -- The loop over the datagrams that come, each with the time: the server, and all that it sends back
  unfoldable pub serve_all : List (ℕ × Datagram F) → Server W → Server W × List (Datagram F)
  serve_all [] server = (server, [])
  serve_all ((now, d) ∷ ds) server =
      let (server', reply) = serve now d server in
      let (server'', more) = serve_all ds server' in (server'', listed reply ++ more)
