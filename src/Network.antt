-- ===== src/Network.antt =====
-- The protocol of Linux_DSP_accelleration.hpp, and daemon/network_node.hpp: a remote machine as a
-- node, reached by UDP, with a jitter buffer for what comes back. `Server` is the other end.
pub mod Drain
pub mod Order
pub mod Arrive
pub mod Stall
pub mod Server
pub mod Remote
mod Tests
use linux_opensource_univers.Prelude.{
  ltb, ◌==◌, if◌then◌else◌, length, update, pos, ℤ, u32_mod, sub_ℕ, add_u32, ℕ, zero, suc, ◌+◌, ◌-◌,
  ◌%◌, ◌^◌, Bool, true, false, not, ◌&&◌, List, [], ◌∷◌, ◌++◌,
}
use linux_opensource_univers.Shm.{AudioFrame, queue_depth}
use linux_opensource_univers.Ring.{Ring, push}

-- `unknown` is a number in the header that no name of the enumeration has.
pub data PacketType : Type 0 where
  handshake audio_frame control_event keepalive clock_sync : PacketType
  unknown : ℕ → PacketType

abbrev pub net_magic : ℕ
net_magic = 0x44535041

pub record NetPacketHeader : Type 0 where
  pub magic : ℕ
  pub type : PacketType
  pub sequence_id : ℕ
  pub payload_size : ℕ
  pub timestamp_ns : ℕ
  pub sample_rate : ℕ

-- `sizeof(NetPacketHeader)`, `sizeof(DspAudioFrame)` and `sizeof(DspControlEvent)`
abbrev pub header_size : ℕ
header_size = 32

abbrev pub frame_size : ℕ
frame_size = 8256

abbrev pub event_size : ℕ
event_size = 8

abbrev pub jitter_window : ℕ
jitter_window = 32

-- `RemoteDspNode`; `attached` says that `shm_ptr_` is set, `connected` that there is a socket.
pub record RemoteNode (F : Type 0) : Type 0 where
  pub connected : Bool
  pub active : Bool
  pub attached : Bool
  pub seq_id : ℕ
  pub expected_seq_id : ℕ
  pub jitter_buffer : ℕ → AudioFrame F
  pub jitter_mask : ℕ → Bool
  pub clock_offset_ns : ℤ
  pub current_sample_rate : ℕ

-- What `recv` leaves: how many bytes came, the header, and what stands behind it in the buffer.
pub record Datagram (F : Type 0) : Type 0 where
  pub length : ℕ
  pub header : NetPacketHeader
  pub payload : AudioFrame F

-- `sequence_id - expected_seq_id` as `uint32_t`; as `int32_t` it is negative from 2^31 on.
abbrev pub distance : ℕ → ℕ → ℕ
distance sequence_id expected = (sequence_id + u32_mod - expected) % u32_mod

abbrev pub in_window : ℕ → Bool
in_window d = ltb d (2 ^ 31) && ltb d jitter_window

-- One more than the window's slots, of which each round empties one
abbrev pub drain_fuel : ℕ
drain_fuel = 33

unfoldable pub is_audio : PacketType → Bool
is_audio PacketType.audio_frame = true
is_audio _ = false

pub is_clock_sync : PacketType → Bool
is_clock_sync PacketType.clock_sync = true
is_clock_sync _ = false

module _ {F : Type 0} where
  -- The constructor, its members at their initial values
  pub new : Bool → ℕ → (ℕ → AudioFrame F) → RemoteNode F
  new connected sample_rate frames = record {
    connected = connected;
    active = false;
    attached = false;
    seq_id = 0;
    expected_seq_id = 0;
    jitter_buffer = frames;
    jitter_mask = λ i. false;
    clock_offset_ns = pos 0;
    current_sample_rate = sample_rate;
  }

  pub set_shm_ptr : RemoteNode F → RemoteNode F
  set_shm_ptr node = record node { attached = true }

  -- `send_packet`: the node with its counter moved on, the header that goes out, and the result;
  -- `sent` is the kernel's answer, `sendmsg(...) > 0`.
  pub send_packet : PacketType → ℕ → ℕ → Bool → RemoteNode F → RemoteNode F × NetPacketHeader × Bool
  send_packet type size now sent node = (
    record node { seq_id = add_u32 node.seq_id 1 },
    record {
      magic = net_magic;
      type = type;
      sequence_id = node.seq_id;
      payload_size = size;
      timestamp_ns = now;
      sample_rate = node.current_sample_rate;
    },
    sent,
  )

  -- `init` starts the reception and sends a handshake; false without a socket.
  pub init : ℕ → Bool → RemoteNode F → RemoteNode F × Bool
  unfolding send_packet
  init now sent node =
      if not node.connected
      then (node, false)
      else ((send_packet PacketType.handshake 0 now sent (record node { active = true })).0, true)

  -- `process_stage` and `apply_control_event` each send a packet.
  pub process_stage : ℕ → Bool → RemoteNode F → RemoteNode F × NetPacketHeader × Bool
  unfolding send_packet
  process_stage now sent node = send_packet PacketType.audio_frame frame_size now sent node

  pub apply_control_event : ℕ → Bool → RemoteNode F → RemoteNode F
  unfolding send_packet
  apply_control_event now sent node =
      (send_packet PacketType.control_event event_size now sent node).0

  -- A frame within the window goes into its slot.
  pub store : ℕ → AudioFrame F → RemoteNode F → RemoteNode F
  store sequence_id frame node =
      if in_window (distance sequence_id node.expected_seq_id)
      then record node {
        jitter_buffer = update node.jitter_buffer (sequence_id % jitter_window) frame;
        jitter_mask = update node.jitter_mask (sequence_id % jitter_window) true;
      }
      else node

  -- One round of the loop that drains what is ready
  abbrev pub ready_slot : RemoteNode F → ℕ
  ready_slot node = node.expected_seq_id % jitter_window

  abbrev pub advance : RemoteNode F → RemoteNode F
  advance node = record node {
    jitter_mask = update node.jitter_mask (ready_slot node) false;
    expected_seq_id = add_u32 node.expected_seq_id 1;
  }

  -- The loop, on fuel, with the frames that it hands to `out_queue.push` in order
  pub drain : ℕ → RemoteNode F → RemoteNode F × List (AudioFrame F)
  drain zero node = (node, [])
  drain (suc fuel) node = elim (node.jitter_mask (ready_slot node)) [
    | false ↦ (node, [])
    | true ↦
        let (node', frames) = drain fuel (advance node) in
        (node', node.jitter_buffer (ready_slot node) ∷ frames)
  ]

  -- One round of `receive_loop` on a datagram, `now` being the clock
  pub receive : ℕ → Datagram F → RemoteNode F → RemoteNode F × List (AudioFrame F)
  receive now d node =
      if ltb d.length header_size
      then (node, [])
      else if not (d.header.magic == net_magic)
      then (node, [])
      else if is_audio d.header.type && node.attached
      then drain drain_fuel (store d.header.sequence_id d.payload node)
      else if is_clock_sync d.header.type
      then (record node { clock_offset_ns = sub_ℕ d.header.timestamp_ns now }, [])
      else (node, [])

  -- The datagrams of a session, one after the other: the node, and all frames handed on.
  pub receive_all : List (ℕ × Datagram F) → RemoteNode F → RemoteNode F × List (AudioFrame F)
  receive_all [] node = (node, [])
  receive_all ((now, d) ∷ ds) node =
      let (node', frames) = receive now d node in
      let (node'', more) = receive_all ds node' in (node'', frames ++ more)

  -- `shm_ptr_->out_queue.push(...)` of each frame; one that finds the queue full is dropped.
  pub push_all : Ring (AudioFrame F) → List (AudioFrame F) → Ring (AudioFrame F)
  push_all q [] = q
  push_all q (f ∷ fs) = push_all (push queue_depth q f).0 fs
