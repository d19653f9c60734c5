-- ===== src/Packet.antt =====
-- src/packet.c: a packet with the frames it was captured in. Its vector of frames has no sorter and
-- is only appended to and walked, so it is the list of its items.
use sngrep.Common.{ℕ, Option, none, some, List, [], ◌∷◌, ◌++◌, length, map}
use sngrep.Address.{Address}
use sngrep.Util.{Timeval}

-- `frame_t`: the time of its header, and the captured bytes, NULL if they were freed.
pub record Frame : Type 0 where
  pub time : Timeval
  pub bytes : Option (List ℕ)

-- `enum packet_type`
pub data PacketType : Type 0 where
  packet_sip_udp packet_sip_tcp packet_sip_tls packet_sip_ws packet_sip_wss packet_rtp packet_rtcp :
      PacketType

-- `packet_t`. No payload is NULL. The length is kept apart, as in the struct.
pub record Packet : Type 0 where
  pub ip_version : ℕ
  pub proto : ℕ
  pub type : PacketType
  pub src : Address
  pub dst : Address
  pub ip_id : ℕ
  pub ip_cap_len : ℕ
  pub ip_exp_len : ℕ
  pub tcp_seq : ℕ
  pub payload : Option (List ℕ)
  pub payload_len : ℕ
  pub frames : List Frame

-- `packet_create`
unfoldable pub packet_create : ℕ → ℕ → Address → Address → ℕ → Packet
packet_create ip_ver proto src dst id = record {
  ip_version = ip_ver;
  proto = proto;
  type = packet_sip_udp;
  src = src;
  dst = dst;
  ip_id = id;
  ip_cap_len = 0;
  ip_exp_len = 0;
  tcp_seq = 0;
  payload = none;
  payload_len = 0;
  frames = [];
}

-- `packet_add_frame`
unfoldable pub packet_add_frame : Packet → Frame → Packet
packet_add_frame pkt frame = record pkt { frames = pkt.frames ++ frame ∷ [] }

-- The loops that add each frame of one packet to another.
unfoldable pub add_frames : Packet → List Frame → Packet
unfolding packet_add_frame
add_frames pkt [] = pkt
add_frames pkt (f ∷ fs) = add_frames (packet_add_frame pkt f) fs

-- `packet_clone`
unfoldable pub packet_clone : Packet → Packet
unfolding packet_create add_frames
packet_clone p =
    let clone = packet_create p.ip_version p.proto p.src p.dst p.ip_id in
    add_frames (record clone { tcp_seq = p.tcp_seq; type = p.type }) p.frames

-- `packet_free_frames`
unfoldable pub packet_free_frames : Packet → Packet
packet_free_frames pkt = record pkt {
  frames = map (λ (f : Frame). record f { bytes = none }) pkt.frames;
}

-- `packet_set_transport_data`
unfoldable pub packet_set_transport_data : Packet → ℕ → ℕ → Packet
packet_set_transport_data pkt sport dport = record pkt {
  src = record pkt.src { port = sport };
  dst = record pkt.dst { port = dport };
}

-- `packet_set_type`
unfoldable pub packet_set_type : Packet → PacketType → Packet
packet_set_type pkt type = record pkt { type = type }

-- `packet_set_payload` of the first bytes of a buffer; NULL only frees the old payload.
unfoldable pub packet_set_payload : Packet → Option (List ℕ) → Packet
packet_set_payload pkt none = record pkt { payload = none; payload_len = 0 }
packet_set_payload pkt (some bytes) = record pkt {
  payload = some bytes;
  payload_len = length bytes;
}

-- `packet_payloadlen`
unfoldable pub packet_payloadlen : Packet → ℕ
packet_payloadlen pkt = pkt.payload_len

-- `packet_payload`
unfoldable pub packet_payload : Packet → Option (List ℕ)
packet_payload pkt = pkt.payload

-- `packet_time`; a packet without a frame has the time zero.
unfoldable pub packet_time : Option Packet → Timeval
packet_time none = record { tv_sec = 0; tv_usec = 0 }
packet_time (some pkt) = elim pkt.frames [
  | [] ↦ record { tv_sec = 0; tv_usec = 0 }
  | ◌∷◌ f fs ↦ f.time
]
