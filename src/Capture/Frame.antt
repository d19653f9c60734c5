-- ===== src/Capture/Frame.antt =====
-- src/capture.c, `parse_packet`: from a captured frame to the packet with its payload, before the
-- packet is parsed. Built without USE_EEP, WITH_GNUTLS and WITH_OPENSSL.
use sngrep.Common.{
  ℕ, ◌+◌, ◌*◌, ◌/◌, ◌%◌, ◌^◌, Bool, Option, none, some, List, ◌++◌, ◌==◌, ◌&&◌, ◌||◌, not, ltb, leb,
  if◌then◌else◌, ◌>>=◌, length, get_elem?,
}
use sngrep.Util.{Timeval}
use sngrep.Packet.{
  Packet, packet_sip_udp, packet_sip_tcp, packet_set_transport_data, packet_set_type,
  packet_set_payload,
}
use sngrep.Capture.Sizes.{max_capture_len}
use sngrep.Capture.Validate.{Regex}
use sngrep.Capture.Tcp.{TcpHdr, capture_packet_reasm_tcp}
use sngrep.Capture.Ip.{
  Link, Loop, done, ◌>>=loop◌, returned, be16, sub_u32, bytes_at, Datagram, capture_packet_reasm_ip,
}
use sngrep.Capture.Ws.{capture_ws_check_packet}

-- What `parse_packet` reads of `capture_cfg`.
pub record Config : Type 0 where
  pub paused : Bool
  pub limit : ℕ
  pub rotate : Bool

-- `capture_info_t`: the link, and the packets that wait for fragments and for segments.
pub record Info : Type 0 where
  pub link : Link
  pub link_hl : ℕ
  pub ip_reasm : List Packet
  pub tcp_reasm : List Packet

-- The captured bytes, and those that the rest of the buffer holds.
pub record Captured : Type 0 where
  pub time : Timeval
  pub bytes : List ℕ
  pub behind : List ℕ

abbrev pub ipproto_tcp : ℕ
ipproto_tcp = 6

abbrev pub ipproto_udp : ℕ
ipproto_udp = 17

-- Capture is paused, or the limit of calls is reached and calls are not rotated.
unfoldable pub ignored : Config → ℕ → Bool
ignored cfg calls_count =
    cfg.paused || (not (cfg.limit == 0) && leb cfg.limit calls_count && not cfg.rotate)

-- What is left of the payload behind a header; a negative size is 0.
unfoldable pub payload_size : ℕ → ℕ → ℕ
payload_size size header = let left = sub_u32 size header in if ltb left (2 ^ 31) then left else 0

unfoldable pub be32 : List ℕ → ℕ → Option ℕ
unfolding be16
be32 bytes at = be16 bytes at >>= λ high. be16 bytes (at + 2) >>= λ low. some (high * 65536 + low)

-- The ports of both headers are their first four bytes.
unfoldable pub with_ports : Packet → List ℕ → ℕ → Option Packet
unfolding be16 packet_set_transport_data
with_ports pkt buffer at = be16 buffer at >>= λ sport.
    be16 buffer (at + 2) >>= λ dport. some (packet_set_transport_data pkt sport dport)

-- A UDP packet.
unfoldable pub udp_packet : Datagram → ℕ → Option Packet
unfolding with_ports payload_size bytes_at packet_set_type packet_set_payload
udp_packet d at = with_ports d.pkt d.buffer at >>= λ pkt.
    bytes_at d.buffer (at + 8) (payload_size d.size 8) >>= λ payload.
    some (packet_set_payload (packet_set_type pkt packet_sip_udp) (some payload))

-- What is read of a TCP header, and its size.
unfoldable pub tcp_header : List ℕ → ℕ → Option (TcpHdr × ℕ)
unfolding be32
tcp_header buffer at = be32 buffer (at + 4) >>= λ th_seq. get_elem? buffer (at + 12) >>= λ th_off.
    get_elem? buffer (at + 13) >>= λ th_flags.
    some (record { th_seq = th_seq; push = th_flags / 8 % 2 == 1 }, th_off / 16 * 4)

module _ (regex : Regex) where
  -- A TCP packet, put together, and its WebSocket frame taken off.
  unfoldable pub tcp_packet : List Packet → Datagram → ℕ → Option (Option Packet × List Packet)
  unfolding tcp_header with_ports payload_size bytes_at packet_set_type packet_set_payload
      capture_packet_reasm_tcp capture_ws_check_packet
  tcp_packet reasm d at = tcp_header d.buffer at >>= λ header.
      with_ports d.pkt d.buffer at >>= λ pkt.
      bytes_at d.buffer (at + header.1) (payload_size d.size header.1) >>= λ payload.
      capture_packet_reasm_tcp regex reasm
        (packet_set_payload (packet_set_type pkt packet_sip_tcp) (some payload)) header.0 payload
      >>= λ res. elim res.0 [
        | none ↦ some (none, res.1)
        | some pkt ↦ capture_ws_check_packet pkt >>= λ checked. some (some checked.1, res.1)
      ]

  -- By the protocol; a packet of another one is destroyed.
  unfoldable pub transport : Info → Datagram → Option (Option Packet × Info)
  unfolding udp_packet tcp_packet
  transport capinfo d =
      let at = sub_u32 d.caplen d.size in
      if d.pkt.proto == ipproto_udp
      then (udp_packet d at >>= λ pkt. some (some pkt, capinfo))
      else (if d.pkt.proto == ipproto_tcp
          then (tcp_packet capinfo.tcp_reasm d at >>= λ res.
              some (res.0, record capinfo { tcp_reasm = res.1 }))
          else some (none, capinfo))

  -- `parse_packet`, up to the packet that it parses, if there is one.
  unfoldable pub packet_of_frame :
      (List ℕ → List ℕ) → ℕ → Config → ℕ → Info → Captured → Loop (Option Packet × Info)
  unfolding ignored capture_packet_reasm_ip transport
  packet_of_frame inet_ntop fuel cfg calls_count capinfo c =
      let caplen = length c.bytes in
      if ignored cfg calls_count || ltb max_capture_len caplen
      then done (none, capinfo)
      else (capture_packet_reasm_ip inet_ntop fuel capinfo.link capinfo.link_hl capinfo.ip_reasm
            c.time caplen (c.bytes ++ c.behind) (sub_u32 caplen capinfo.link_hl) caplen
          >>=loop λ res. elim res.0 [
            | none ↦ done (none, record capinfo { ip_reasm = res.1 })
            | some d ↦ returned (transport (record capinfo { ip_reasm = res.1 }) d)
          ])
