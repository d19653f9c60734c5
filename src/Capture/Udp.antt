-- ===== src/Capture/Udp.antt =====
-- src/capture.c, `parse_packet`: what is found of a UDP packet that was sent over Ethernet.
use mathlib.Core.List.{append_assoc}
use sngrep.Common.{
  ℕ, suc, ◌+◌, ◌^◌, ◌≤◌, ◌≡◌, refl, sym, ◌∙◌, ap, true, false, none, some, List, [], ◌++◌, ltb, leb,
  le→ltb, lt→ltb, length, take, length-append, take-append, arith,
}
use sngrep.Util.{Timeval}
use sngrep.Packet.{
  Packet, Frame, packet_create, packet_add_frame, packet_sip_udp, packet_set_transport_data,
  packet_set_type, packet_set_payload,
}
use sngrep.Capture.Sizes.{max_capture_len}
use sngrep.Capture.Validate.{Regex}
use sngrep.Capture.Ip.{
  en10mb, ip4_at, Found, done, be16, sub_u32, bytes_at, Datagram, skip_vlan, ip_headers,
  take_datagram, capture_packet_reasm_ip,
}
use sngrep.Capture.Ip.Offset.{be16-append, ip4_at-append, bytes_at-append}
use sngrep.Capture.Frame.{
  Config, Info, ignored, payload_size, with_ports, udp_packet, transport, packet_of_frame,
}
use sngrep.Capture.Sent.{
  Sent, ethernet, udp_bytes, frame_bytes, eth_size_bounds, length-ethernet, skip_vlan-ethernet,
  sent_ip4, word, ip4_at_sent,
}

module _ (s : Sent) where
  -- The packet before its UDP header is read.
  ip_packet : (List ℕ → List ℕ) → Frame → Packet
  unfolding packet_create packet_add_frame sent_ip4
  ip_packet inet_ntop frame =
      packet_add_frame
        (packet_create 4 17 (record { ip = inet_ntop (sent_ip4 s).ip_src; port = 0 })
          (record { ip = inet_ntop (sent_ip4 s).ip_dst; port = 0 }) s.id)
        frame

  -- The packet as it was sent.
  unfoldable pub received : (List ℕ → List ℕ) → Frame → Packet
  unfolding packet_set_transport_data packet_set_type packet_set_payload ip_packet
  received inet_ntop frame =
      packet_set_payload
        (packet_set_type (packet_set_transport_data (ip_packet inet_ntop frame) s.sport s.dport)
          packet_sip_udp)
        (some s.payload)

module _ (s : Sent) (l : List ℕ) where
  found : Found
  found = record {
    ip4 = sent_ip4 s;
    link_hl = length l;
    size = 8 + length s.payload;
    caplen = length l + (28 + length s.payload);
  }

  datagram : (List ℕ → List ℕ) → Frame → List ℕ → Datagram
  datagram inet_ntop frame buffer = record {
    pkt = ip_packet s inet_ntop frame;
    buffer = buffer;
    size = 8 + length s.payload;
    caplen = length l + (28 + length s.payload);
  }

module _ (s : Sent) (l : List ℕ) (behind : List ℕ)
    (short : length l + (28 + length s.payload) ≤ max_capture_len) where
  ip_headers_sent :
      (fuel size : ℕ)
      → 20 ≤ size
      → ip_headers (suc fuel) (l ++ udp_bytes s behind) (length l) size none
        ≡ done (some (found s l))
  unfolding ip_headers sent_ip4 found
  ip_headers_sent fuel size h =
      let e : ip4_at (l ++ udp_bytes s behind) (length l) ≡ some (sent_ip4 s) =
        ip4_at-append l (udp_bytes s behind) ∙ ip4_at_sent s behind in
      let size_eq : sub_u32 (28 + length s.payload) 20 ≡ 8 + length s.payload =
        omega (arith, short) in
      rw (le→ltb size 20 h, e, size_eq) refl

  take_datagram_sent :
      (inet_ntop : List ℕ → List ℕ) (reasm : List Packet) (frame : Frame) (buffer : List ℕ)
      (caplen : ℕ)
      → length l + 20 ≤ caplen
      → take_datagram inet_ntop reasm frame caplen buffer (found s l)
        ≡ some (some (datagram s l inet_ntop frame buffer), reasm)
  unfolding take_datagram sent_ip4 found ip_packet datagram
  take_datagram_sent inet_ntop reasm frame buffer caplen h =
      rw
        (
          le→ltb max_capture_len (length l + (28 + length s.payload)) short,
          le→ltb caplen (length l + 20) h,
        )
        refl

  at_sport : be16 (l ++ udp_bytes s behind) (length l + 20) ≡ some s.sport
  unfolding udp_bytes be16
  at_sport = be16-append l (udp_bytes s behind) 20 ∙ ap some (word s.sport)

  at_dport : be16 (l ++ udp_bytes s behind) (length l + 20 + 2) ≡ some s.dport
  unfolding udp_bytes be16
  at_dport =
      let e : length l + 20 + 2 ≡ length l + 22 = omega arith in
      ap (be16 (l ++ udp_bytes s behind)) e
      ∙ be16-append l (udp_bytes s behind) 22
      ∙ ap some (word s.dport)

  at_payload :
      bytes_at (l ++ udp_bytes s behind) (length l + 20 + 8) (length s.payload) ≡ some s.payload
  unfolding udp_bytes bytes_at
  at_payload =
      let e : length l + 20 + 8 ≡ length l + 28 = omega arith in
      let room : leb (28 + length s.payload) (length (udp_bytes s behind)) ≡ true =
        let n = length-append s.payload behind in ground arith in
      ap (λ (at : ℕ). bytes_at (l ++ udp_bytes s behind) at (length s.payload)) e
      ∙ bytes_at-append l (udp_bytes s behind) 28 (length s.payload)
      ∙ rw (room, take-append s.payload behind) refl

  transport_sent :
      (regex : Regex) (capinfo : Info) (inet_ntop : List ℕ → List ℕ) (frame : Frame)
      → transport regex capinfo (datagram s l inet_ntop frame (l ++ udp_bytes s behind))
        ≡ some (some (received s inet_ntop frame), capinfo)
  unfolding transport udp_packet with_ports datagram ip_packet received payload_size
  transport_sent regex capinfo inet_ntop frame =
      let at : sub_u32 (length l + (28 + length s.payload)) (8 + length s.payload) ≡ length l + 20 =
        omega (arith, short) in
      let left : sub_u32 (8 + length s.payload) 8 ≡ length s.payload = omega (arith, short) in
      let small : ltb (length s.payload) (2 ^ 31) ≡ true = lt→ltb _ _ (omega (arith, short)) in
      rw (at, at_sport, at_dport, left, small, at_payload) refl

  capture_packet_reasm_ip_sent :
      (fuel : ℕ) (inet_ntop : List ℕ → List ℕ) (reasm : List Packet) (time : Timeval)
      (caplen size : ℕ)
      → skip_vlan en10mb (l ++ udp_bytes s behind) 14 ≡ some (length l)
      → length l + 20 ≤ caplen
      → 20 ≤ size
      → let buffer = l ++ udp_bytes s behind in
        let frame : Frame = record { time = time; bytes = some (take caplen buffer) } in
        capture_packet_reasm_ip inet_ntop (suc fuel) en10mb 14 reasm time caplen buffer size caplen
        ≡ done (some (datagram s l inet_ntop frame buffer), reasm)
  unfolding capture_packet_reasm_ip
  capture_packet_reasm_ip_sent fuel inet_ntop reasm time caplen size vlan long enough =
      let buffer : List ℕ = l ++ udp_bytes s behind in
      let frame : Frame = record { time = time; bytes = some (take caplen buffer) } in
      rw
        (
          vlan,
          capture_packet_reasm_ip,
          ip_headers_sent fuel size enough,
          take_datagram_sent inet_ntop reasm frame buffer caplen long,
        )
        refl

udp_bytes-append : (s : Sent) (behind : List ℕ) → udp_bytes s [] ++ behind ≡ udp_bytes s behind
unfolding udp_bytes
udp_bytes-append s behind = rw (append_assoc s.payload [] behind) refl

length-frame_bytes :
    (s : Sent) → length (frame_bytes s) ≡ length (ethernet s.macs s.vlan) + (28 + length s.payload)
unfolding frame_bytes udp_bytes
length-frame_bytes s =
    omega
      (arith, length-append (ethernet s.macs s.vlan) (udp_bytes s []), length-append s.payload [])

-- If the packet is not ignored, the Ethernet addresses have 12 bytes and the frame at most
-- MAX_CAPTURE_LEN, then from the frame of a UDP packet over IPv4 and Ethernet, with or without a
-- VLAN tag, `parse_packet` gets the packet that was sent: its addresses, ports, payload and the
-- frame, whatever stands in the buffer behind the frame.
pub packet_of_frame-frame_bytes :
    (regex : Regex) (inet_ntop : List ℕ → List ℕ) (fuel : ℕ) (cfg : Config) (calls_count : ℕ)
    (ip_reasm tcp_reasm : List Packet) (s : Sent) (time : Timeval) (behind : List ℕ)
    → ignored cfg calls_count ≡ false
    → length s.macs ≡ 12
    → length (frame_bytes s) ≤ max_capture_len
    → let capinfo : Info = record {
      link = en10mb;
      link_hl = 14;
      ip_reasm = ip_reasm;
      tcp_reasm = tcp_reasm;
    } in
      let frame : Frame = record { time = time; bytes = some (frame_bytes s) } in
      packet_of_frame regex inet_ntop
        (suc fuel)
        cfg
        calls_count
        capinfo
        (record { time = time; bytes = frame_bytes s; behind = behind })
      ≡ done (some (received s inet_ntop frame), capinfo)
unfolding packet_of_frame frame_bytes
packet_of_frame-frame_bytes regex inet_ntop fuel cfg calls_count ip_reasm tcp_reasm s time behind
      wanted macs small =
    let l : List ℕ = ethernet s.macs s.vlan in
    let caplen : ℕ = length (frame_bytes s) in
    let len : caplen ≡ length l + (28 + length s.payload) = length-frame_bytes s in
    let buffer : frame_bytes s ++ behind ≡ l ++ udp_bytes s behind =
      append_assoc l (udp_bytes s []) behind ∙ ap (λ t. l ++ t) (udp_bytes-append s behind) in
    let hl = length-ethernet s.macs s.vlan macs in
    let bounds = eth_size_bounds s.vlan in
    let short : length l + (28 + length s.payload) ≤ max_capture_len = omega (arith, len, small) in
    let vlan : skip_vlan en10mb (l ++ udp_bytes s behind) 14 ≡ some (length l) =
      skip_vlan-ethernet s.macs s.vlan (udp_bytes s behind) macs ∙ ap some (sym hl) in
    let ip =
      capture_packet_reasm_ip_sent s l behind short fuel inet_ntop ip_reasm time caplen
        (sub_u32 caplen 14) vlan (omega (arith, len)) (omega (arith, len, hl, bounds, small)) in
    let whole : take caplen (l ++ udp_bytes s behind) ≡ frame_bytes s =
      ap (take caplen) (sym buffer) ∙ take-append (frame_bytes s) behind in
    rw
      (
        wanted,
        le→ltb max_capture_len caplen small,
        buffer,
        ip,
        whole,
        transport_sent s l behind short regex
            (record { link = en10mb; link_hl = 14; ip_reasm = ip_reasm; tcp_reasm = tcp_reasm })
            inet_ntop (record { time = time; bytes = some (frame_bytes s) }),
      )
      refl
