-- ===== src/Capture/Tcp.antt =====
-- src/capture.c, `capture_packet_reasm_tcp`: the segments of a TCP connection are put together until
-- they make a SIP message. The packets that wait are the vector `tcp_reasm`, here a list.
use sngrep.Common.{
  ℕ, ◌+◌, ◌-◌, Bool, Option, none, some, List, [], ◌∷◌, ◌++◌, ◌==◌, ◌&&◌, ltb, if◌then◌else◌, ◌>>=◌,
  length, drop,
}
use sngrep.Address.{addressport_equals}
use sngrep.Packet.{Packet, add_frames, packet_clone, packet_set_payload}
use sngrep.Capture.Validate.{
  Verdict, not_sip, partial_sip, complete_sip, multiple_sip, Regex, sip_validate_packet,
}
use sngrep.Capture.Sizes.{max_capture_len}

-- What is read of `struct tcphdr`: the sequence number, and whether `TH_PUSH` is set.
pub record TcpHdr : Type 0 where
  pub th_seq : ℕ
  pub push : Bool

unfoldable pub same_conn : Packet → Packet → Bool
unfolding addressport_equals
same_conn pkt packet =
    addressport_equals pkt.src packet.src && addressport_equals pkt.dst packet.dst

-- The search of the stored packet.
unfoldable pub find_conn : List Packet → Packet → Option Packet
unfolding same_conn
find_conn [] packet = none
find_conn (pkt ∷ rest) packet =
    let found = find_conn rest packet in if same_conn pkt packet then some pkt else found

-- The stored packet written through its pointer; one that is not stored is appended.
unfoldable pub put_conn : List Packet → Packet → List Packet
unfolding same_conn
put_conn [] packet = packet ∷ []
put_conn (pkt ∷ rest) packet =
    let others = put_conn rest packet in
    if same_conn pkt packet then packet ∷ rest else pkt ∷ others

-- `vector_remove` of the stored packet.
unfoldable pub drop_conn : List Packet → Packet → List Packet
unfolding same_conn
drop_conn [] packet = []
drop_conn (pkt ∷ rest) packet =
    let others = drop_conn rest packet in if same_conn pkt packet then rest else pkt ∷ others

-- The stored packet with the frames of the new one, or the new one.
unfoldable pub collect : List Packet → Packet → Packet
unfolding find_conn add_frames
collect reasm packet = elim (find_conn reasm packet) [
  | none ↦ packet
  | some pkt ↦ add_frames pkt packet.frames
]

-- The first sequence number is stored.
unfoldable pub first_seq : Packet → ℕ → Packet
first_seq pkt th_seq = if pkt.tcp_seq == 0 then record pkt { tcp_seq = th_seq } else pkt

-- The new payload, set, appended or prepended. `none` is a packet that is destroyed.
unfoldable pub join_segment : Packet → ℕ → List ℕ → Option Packet
unfolding packet_set_payload
join_segment pkt th_seq segment =
    if length pkt.frames == 1
    then some (packet_set_payload pkt (some segment))
    else (if ltb max_capture_len (pkt.payload_len + length segment)
        then none
        else (let old : List ℕ = elim pkt.payload [ none ↦ [] | some bytes ↦ bytes ] in
            if ltb pkt.tcp_seq th_seq
            then some (packet_set_payload (record pkt { tcp_seq = th_seq }) (some (old ++ segment)))
            else some (packet_set_payload pkt (some (segment ++ old)))))

-- The rest of the payload stays, in a clone.
unfoldable pub keep_rest : List Packet → Packet → List ℕ → List Packet
unfolding packet_clone packet_set_payload
keep_rest reasm pkt full_payload =
    let pldiff = length full_payload - pkt.payload_len in
    if ltb 0 pldiff && ltb pldiff max_capture_len
    then reasm
      ++ packet_set_payload (packet_clone pkt) (some (drop pkt.payload_len full_payload)) ∷ []
    else reasm

-- What is returned, and the packets that wait.
unfoldable pub dispatch :
    List Packet → TcpHdr → List ℕ → Verdict × Packet → Option Packet × List Packet
unfolding drop_conn put_conn keep_rest
dispatch reasm tcp full_payload (complete_sip, pkt) = (some pkt, drop_conn reasm pkt)
dispatch reasm tcp full_payload (multiple_sip, pkt) =
    (some pkt, keep_rest (drop_conn reasm pkt) pkt full_payload)
dispatch reasm tcp full_payload (not_sip, pkt) =
    if tcp.push then (some pkt, drop_conn reasm pkt) else (none, put_conn reasm pkt)
dispatch reasm tcp full_payload (partial_sip, pkt) = (none, put_conn reasm pkt)

module _ (regex : Regex) where
  -- After the segment was joined.
  unfoldable pub deliver : List Packet → TcpHdr → Packet → Option (Option Packet × List Packet)
  unfolding sip_validate_packet dispatch
  deliver reasm tcp pkt =
      if ltb max_capture_len pkt.payload_len
      then some (none, drop_conn reasm pkt)
      else pkt.payload >>= λ full_payload. sip_validate_packet regex pkt >>= λ checked.
          some (dispatch reasm tcp full_payload checked)

  -- `capture_packet_reasm_tcp`; a size that is not positive is an empty segment.
  unfoldable pub capture_packet_reasm_tcp :
      List Packet → Packet → TcpHdr → List ℕ → Option (Option Packet × List Packet)
  unfolding collect first_seq join_segment deliver
  capture_packet_reasm_tcp reasm packet tcp [] = some (some packet, reasm)
  capture_packet_reasm_tcp reasm packet tcp (b ∷ bytes) =
      elim (join_segment (first_seq (collect reasm packet) tcp.th_seq) tcp.th_seq (b ∷ bytes)) [
        | none ↦ some (none, drop_conn reasm packet)
        | some pkt ↦ deliver reasm tcp pkt
      ]
