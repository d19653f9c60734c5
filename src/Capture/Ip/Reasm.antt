-- ===== src/Capture/Ip/Reasm.antt =====
-- src/capture.c, `capture_packet_reasm_ip`, its second half: a packet that is no fragment is
-- returned, and the fragments of a datagram wait in `ip_reasm` until they are all there.
use sngrep.Common.{
  ℕ, ◌+◌, ◌-◌, ◌*◌, ◌%◌, ◌/◌, Bool, Option, none, some, List, [], ◌∷◌, ◌++◌, ◌==◌, ◌&&◌, ◌||◌, not,
  ltb, leb, if◌then◌else◌, ◌>>=◌, length, take, drop, replicate, fold_steps,
}
use sngrep.Vector.{u32}
use sngrep.Address.{Address, addressport_equals}
use sngrep.Packet.{Packet, Frame, packet_create, packet_add_frame}
use sngrep.Util.{Timeval}
use sngrep.Capture.Sizes.{max_capture_len}
use sngrep.Capture.Ip.Header.{
  Link, nflog, Ip4, ip4_at, sub_u32, Loop, fault, done, ◌>>=loop◌, returned, Found, skip_vlan,
  skip_nflog, ip_headers, ip_header_size,
}

-- `ip_off & IP_OFFMASK`, times 8, and the flag `IP_MF`.
unfoldable pub frag_off : Ip4 → ℕ
frag_off ip4 = ip4.ip_off % 8192 * 8

unfoldable pub more_fragments : Ip4 → Bool
more_fragments ip4 = ip4.ip_off / 8192 % 2 == 1

-- `memcpy` into the buffer.
unfoldable pub memcpy_to : List ℕ → ℕ → List ℕ → Option (List ℕ)
memcpy_to buffer at bytes =
    if leb (at + length bytes) (length buffer)
    then some (take at buffer ++ (bytes ++ drop (at + length bytes) buffer))
    else none

-- The bytes that `memcpy` reads.
unfoldable pub bytes_at : List ℕ → ℕ → ℕ → Option (List ℕ)
bytes_at bytes at n = if leb (at + n) (length bytes) then some (take n (drop at bytes)) else none

module _ (link_hl : ℕ) where
  -- The length of the content of a stored frame, added up.
  unfoldable pub add_len_data : ℕ → Frame → Option ℕ
  unfolding ip4_at
  add_len_data len_data frame = frame.bytes >>= λ bytes.
      ip4_at bytes link_hl >>= λ ip4. some ((len_data + sub_u32 ip4.ip_len ip4.ip_hl) % u32)

  -- The content of a stored frame, copied to its place. A negative length is no length of `memcpy`.
  unfoldable pub copy_frame : ℕ → List ℕ → Frame → Option (List ℕ)
  unfolding ip4_at memcpy_to bytes_at frag_off
  copy_frame base buffer frame = frame.bytes >>= λ bytes. ip4_at bytes link_hl >>= λ ip4.
      if ltb ip4.ip_len ip4.ip_hl
      then none
      else bytes_at bytes (link_hl + ip4.ip_hl) (ip4.ip_len - ip4.ip_hl) >>= λ content.
          memcpy_to buffer (base + frag_off ip4) content

-- The packet, the buffer, and the sizes that are written for the caller.
pub record Datagram : Type 0 where
  pub pkt : Packet
  pub buffer : List ℕ
  pub size : ℕ
  pub caplen : ℕ

-- The content of all frames in the buffer; `base` is where the content begins.
unfoldable pub assemble : List Frame → ℕ → ℕ → List ℕ → Option (Option (ℕ × List ℕ))
unfolding add_len_data copy_frame memcpy_to
assemble frames link_hl base buffer = fold_steps (add_len_data link_hl) 0 frames >>= λ len_data.
    if ltb max_capture_len len_data
    then some none
    else memcpy_to buffer 0 (replicate (base + len_data) 0) >>= λ cleared.
        fold_steps (copy_frame link_hl base) cleared frames >>= λ copied.
        some (some (len_data, copied))

-- The stored packet of the datagram.
unfoldable pub same_datagram : Packet → Address → Address → ℕ → Bool
unfolding addressport_equals
same_datagram pkt src dst ip_id =
    addressport_equals pkt.src src && addressport_equals pkt.dst dst && (pkt.ip_id == ip_id)

unfoldable pub find_datagram : List Packet → Address → Address → ℕ → Option Packet
unfolding same_datagram
find_datagram [] src dst ip_id = none
find_datagram (pkt ∷ rest) src dst ip_id =
    let found = find_datagram rest src dst ip_id in
    if same_datagram pkt src dst ip_id then some pkt else found

unfoldable pub put_datagram : List Packet → Packet → List Packet
unfolding same_datagram
put_datagram [] packet = packet ∷ []
put_datagram (pkt ∷ rest) packet =
    let others = put_datagram rest packet in
    if same_datagram pkt packet.src packet.dst packet.ip_id then packet ∷ rest else pkt ∷ others

unfoldable pub drop_datagram : List Packet → Packet → List Packet
unfolding same_datagram
drop_datagram [] packet = []
drop_datagram (pkt ∷ rest) packet =
    let others = drop_datagram rest packet in
    if same_datagram pkt packet.src packet.dst packet.ip_id then rest else pkt ∷ others

-- A fragment counted: the length that was captured, and with the last one that which is expected.
unfoldable pub count_fragment : Packet → Ip4 → Packet
unfolding frag_off more_fragments
count_fragment pkt ip4 =
    let pkt' : Packet = record pkt {
      ip_cap_len = (pkt.ip_cap_len + sub_u32 ip4.ip_len ip4.ip_hl) % u32;
    } in
    if more_fragments ip4
    then pkt'
    else record pkt' { ip_exp_len = sub_u32 (frag_off ip4 + ip4.ip_len) ip4.ip_hl }

-- `inet_ntop` is of the C library.
module _ (inet_ntop : List ℕ → List ℕ) where
  -- What is done with a header that was found.
  unfoldable pub take_datagram :
      List Packet → Frame → ℕ → List ℕ → Found → Option (Option Datagram × List Packet)
  unfolding packet_create packet_add_frame find_datagram put_datagram drop_datagram count_fragment
      assemble
  take_datagram reasm frame header_caplen buffer found =
      if ltb max_capture_len found.caplen || ltb header_caplen (found.link_hl + ip_header_size)
      then some (none, reasm)
      else (let ip4 = found.ip4 in
          let src : Address = record { ip = inet_ntop ip4.ip_src; port = 0 } in
          let dst : Address = record { ip = inet_ntop ip4.ip_dst; port = 0 } in
          let new : Packet = packet_create 4 ip4.ip_p src dst ip4.ip_id in
          if ip4.ip_off % 16384 == 0
          then some (
            some (record {
              pkt = packet_add_frame new frame;
              buffer = buffer;
              size = found.size;
              caplen = found.caplen;
            }),
            reasm,
          )
          else (let stored : Packet = elim (find_datagram reasm src dst ip4.ip_id) [
            | none ↦ new
            | some pkt ↦ pkt
          ] in
              let pkt : Packet = count_fragment (packet_add_frame stored frame) ip4 in
              let base = found.link_hl + ip4.ip_hl in
              if not (pkt.ip_cap_len == pkt.ip_exp_len)
              then some (none, put_datagram reasm pkt)
              else assemble pkt.frames found.link_hl base buffer >>= λ assembled. elim assembled [
                | none ↦ some (none, put_datagram reasm pkt)
                | some r ↦ some (
                  some (record { pkt = pkt; buffer = r.1; size = r.0; caplen = base + r.0 }),
                  drop_datagram reasm pkt,
                )
              ]))

  -- `capture_packet_reasm_ip`: the buffer holds the captured bytes, and behind them what it held.
  -- `time` and `header_caplen` are of the capture header; `size` and `caplen` are what the caller's
  -- variables hold.
  unfoldable pub capture_packet_reasm_ip :
      ℕ
      → Link
      → ℕ
      → List Packet
      → Timeval
      → ℕ
      → List ℕ
      → ℕ
      → ℕ
      → Loop (Option Datagram × List Packet)
  unfolding skip_vlan skip_nflog ip_headers take_datagram
  capture_packet_reasm_ip fuel link link_hl reasm time header_caplen buffer size caplen =
      let frame : Frame = record { time = time; bytes = some (take header_caplen buffer) } in
      let from : ℕ → Loop (Option Datagram × List Packet) = λ link_hl.
        ip_headers fuel buffer link_hl size none >>=loop λ found. elim found [
          | none ↦ done (none, reasm)
          | some found ↦ returned (take_datagram reasm frame header_caplen buffer found)
        ] in
      elim (skip_vlan link buffer link_hl) [
        | none ↦ fault
        | some link_hl ↦ elim link [
          | nflog ↦ skip_nflog fuel buffer caplen link_hl >>=loop from
          | _ ↦ from link_hl
        ]
      ]
