-- ===== src/Network/Tests.antt =====
-- Concrete nodes and datagrams: tests, and the theorems at inputs that meet their hypotheses.
use linux_opensource_univers.Prelude.{
  length, All, pos, negsuc, u32_mod, ℕ, ◌+◌, ◌<◌, ◌≡◌, refl, true, false, List, [], ◌∷◌, arith,
}
use mathlib.Core.List.{Memᴰ}
use linux_opensource_univers.Shm.{AudioFrame}
use linux_opensource_univers.Network.{
  RemoteNode, Datagram, PacketType, net_magic, drain, drain_fuel, receive, receive_all, new, init,
  set_shm_ptr, process_stage, is_audio, store, send_packet, is_clock_sync,
}
use linux_opensource_univers.Network.Drain.{Stopped, drain_enough}
use linux_opensource_univers.Network.Order.{Tracks, consecutive, ahead}
use linux_opensource_univers.Network.Arrive.{Honest, delivered_in_order}
use linux_opensource_univers.Network.Stall.{
  Waits, Session, lost_frame_stalls, session_never_delivers,
}
use linux_opensource_univers.Network.Server.{Server, serve_all, serve, echo, answer, is_handshake}
use linux_opensource_univers.Network.Remote.{ids, asked, processed_in_order}

-- The frame with the number `i`, of samples that are natural numbers
abbrev frame : ℕ → AudioFrame ℕ
frame i = record {
  instance_id = i;
  frame_count = 64;
  channel_count = 2;
  timestamp_ns = 0;
  samples = λ j. j;
}

abbrev datagram : PacketType → ℕ → Datagram ℕ
datagram type i = record {
  length = 8288;
  header = record {
    magic = net_magic;
    type = type;
    sequence_id = i;
    payload_size = 8256;
    timestamp_ns = 70;
    sample_rate = 48000;
  };
  payload = frame i;
}

abbrev audio : ℕ → Datagram ℕ
audio i = datagram PacketType.audio_frame i

-- A node with its shared memory set that has received nothing
abbrev fresh : RemoteNode ℕ
fresh = record {
  connected = true;
  active = true;
  attached = true;
  seq_id = 1;
  expected_seq_id = 0;
  jitter_buffer = frame;
  jitter_mask = λ i. false;
  clock_offset_ns = pos 0;
  current_sample_rate = 48000;
}

-- 1 before 0, 2 twice, 4 without 3, and one that is far too early
abbrev mixed : List (ℕ × Datagram ℕ)
mixed =
    (9, audio 1) ∷ (9, audio 0) ∷ (9, audio 2) ∷ (9, audio 2) ∷ (9, audio 4) ∷ (9, audio 90) ∷ []

receive_all-mixed : (receive_all mixed fresh).1 ≡ frame 0 ∷ frame 1 ∷ frame 2 ∷ []
unfolding receive_all receive drain store is_audio
receive_all-mixed = refl

clock-fresh : (receive 100 (datagram PacketType.clock_sync 0) fresh).0.clock_offset_ns ≡ negsuc 29
unfolding receive is_audio is_clock_sync
clock-fresh = refl

fresh-Tracks : Tracks frame fresh
fresh-Tracks = record { expected_in = omega arith; holds = λ k h m. cc }

audio-Honest : (i : ℕ) → i < u32_mod → Honest frame (audio i)
audio-Honest i h = record { id_in = h; bears = λ _. refl }

delivered_in_order_example :
    ((receive_all mixed fresh).1 ≡ consecutive frame 0 (length (receive_all mixed fresh).1))
    × ((receive_all mixed fresh).0.expected_seq_id ≡ ahead 0 (length (receive_all mixed fresh).1))
delivered_in_order_example = delivered_in_order frame mixed fresh fresh-Tracks (
    All.cons (audio-Honest 1 (omega arith)) (
      All.cons (audio-Honest 0 (omega arith)) (
        All.cons (audio-Honest 2 (omega arith)) (
          All.cons (audio-Honest 2 (omega arith)) (
            All.cons (audio-Honest 4 (omega arith))
              (All.cons (audio-Honest 90 (omega arith)) All.nil))))))

-- Every slot is full.
abbrev brimful : RemoteNode ℕ
brimful = record fresh { expected_seq_id = 5; jitter_mask = λ i. true }

drain_enough_example :
    Stopped (drain drain_fuel brimful).0 × (drain 40 brimful ≡ drain drain_fuel brimful)
drain_enough_example = drain_enough 40 brimful (omega arith)

abbrev without_0 : List (ℕ × Datagram ℕ)
without_0 = (9, audio 1) ∷ (9, audio 2) ∷ []

lost_frame_stalls_example :
    Waits 0 (receive_all without_0 fresh).0 × ((receive_all without_0 fresh).1 ≡ [])
lost_frame_stalls_example =
    lost_frame_stalls 0 without_0 fresh (omega arith) record { expects = refl; stopped = refl }
      (All.cons record { id_in = omega arith; other = λ _. omega arith }
        (All.cons record { id_in = omega arith; other = λ _. omega arith } All.nil))

abbrev opened : RemoteNode ℕ
opened = set_shm_ptr (init 0 true (new true 48000 frame)).0

abbrev played : RemoteNode ℕ
played = (process_stage 0 true opened).0

played-Session :
    Session frame 48000 2 (1 ∷ []) (receive 9 (audio 1) played).0 (receive 9 (audio 1) played).1
unfolding init new send_packet process_stage set_shm_ptr
played-Session =
    Session.arrived 9 (audio 1) (omega arith) (λ _. Memᴰ.head refl)
      (Session.processed 0 true (Session.attached (Session.started 0 true)))

session_never_delivers_example : (receive 9 (audio 1) played).1 ≡ []
session_never_delivers_example =
    session_never_delivers frame 48000 2 (1 ∷ []) (receive 9 (audio 1) played).0
      (receive 9 (audio 1) played).1 played-Session (omega arith)

abbrev server : Server ℕ
server = record { running = true; local_worker = 7 }

-- A worker that marks each frame
abbrev marked : AudioFrame ℕ → AudioFrame ℕ
marked f = record f { timestamp_ns = 1 }

abbrev marking : ℕ → AudioFrame ℕ → ℕ × AudioFrame ℕ
marking n f = (n + 1, marked f)

-- The frames 0 and 1 arrive there in the other order, after a handshake.
abbrev requests : List (ℕ × Datagram ℕ)
requests = (50, datagram PacketType.handshake 7) ∷ (60, audio 1) ∷ (70, audio 0) ∷ []

abbrev reply : ℕ → ℕ → Datagram ℕ
reply now i = echo now (audio i) (marked (frame i))

serve_all-requests : serve_all marking requests server ≡ (
  record server { local_worker = 9 },
  answer (datagram PacketType.handshake 7) ∷ reply 60 1 ∷ reply 70 0 ∷ [],
)
unfolding serve_all serve is_audio is_handshake
serve_all-requests = refl

-- The first reply is lost, and another comes twice.
abbrev arrivals : List (ℕ × Datagram ℕ)
arrivals = (90, reply 60 1) ∷ (91, reply 70 0) ∷ (92, reply 70 0) ∷ []

came : All (λ (x : ℕ × Datagram ℕ). Memᴰ x.1 (serve_all marking requests server).1) arrivals
unfolding serve_all serve is_audio is_handshake
came = All.cons (Memᴰ.tail (Memᴰ.head refl)) (
    All.cons (Memᴰ.tail (Memᴰ.tail (Memᴰ.head refl)))
      (All.cons (Memᴰ.tail (Memᴰ.tail (Memᴰ.head refl))) All.nil))

processed_in_order_example :
    (ids (serve_all marking requests server).1 ≡ 7 ∷ 1 ∷ 0 ∷ [])
    × ((receive_all arrivals fresh).1
        ≡ consecutive (λ i. marked (frame i)) 0 (length (receive_all arrivals fresh).1))
    × ((receive_all arrivals fresh).0.expected_seq_id
        ≡ ahead 0 (length (receive_all arrivals fresh).1))
unfolding asked is_audio is_handshake
processed_in_order_example =
    processed_in_order marking marked (λ w f. refl) frame requests arrivals server fresh
      (All.cons record { id_in = omega arith; bears = λ _. refl }
        (All.cons (audio-Honest 1 (omega arith)) (All.cons (audio-Honest 0 (omega arith)) All.nil)))
      came record { expected_in = omega arith; holds = λ k h m. cc }

-- Both frames are handed on.
receive_all-arrivals : (receive_all arrivals fresh).1 ≡ marked (frame 0) ∷ marked (frame 1) ∷ []
unfolding receive_all receive drain store is_audio
receive_all-arrivals = refl
