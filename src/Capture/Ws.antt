-- ===== src/Capture/Ws.antt =====
-- src/capture.c, `capture_ws_check_packet`: the text of a WebSocket frame takes the place of the
-- frame.
use Prim.Native.Nat.{bit_xor}
use sngrep.Common.{
  ℕ, suc, ◌+◌, ◌-◌, ◌%◌, Bool, true, false, Option, none, some, List, [], ◌∷◌, ◌++◌, ◌==◌, not, leb,
  if◌then◌else◌, ◌>>=◌, length, get_elem?, take, drop,
}
use sngrep.Packet.{
  Packet, PacketType, packet_sip_tls, packet_sip_ws, packet_sip_wss, packet_set_payload,
  packet_set_type,
}

abbrev pub ws_opcode_text : ℕ
ws_opcode_text = 1

-- The byte of the key for a place of the text.
unfoldable pub key_byte : List ℕ → ℕ → ℕ
key_byte ws_mask_key i = elim (get_elem? ws_mask_key (i % 4)) [ none ↦ 0 | some k ↦ k ]

-- The loop that takes the mask off.
unfoldable pub unmask : List ℕ → ℕ → List ℕ → List ℕ
unfolding key_byte
unmask ws_mask_key i [] = []
unmask ws_mask_key i (b ∷ bytes) =
    bit_xor b (key_byte ws_mask_key i) ∷ unmask ws_mask_key (suc i) bytes

-- The size of the length that follows, if it is an extended one.
unfoldable pub extended_size : ℕ → Option ℕ
extended_size ws_len = if ws_len == 126 then some 2 else (if ws_len == 127 then some 8 else none)

-- `memcpy` of the key, from a payload with the zero byte behind it.
unfoldable pub mask_key : List ℕ → ℕ → Option (List ℕ)
mask_key payload at =
    if leb (at + 4) (suc (length payload))
    then some (take 4 (drop at (payload ++ 0 ∷ [])))
    else none

unfoldable pub ws_type : PacketType → PacketType
ws_type packet_sip_tls = packet_sip_wss
ws_type t = packet_sip_ws

-- From behind the length on, with the key read.
unfoldable pub ws_text : Packet → List ℕ → ℕ → Bool → List ℕ → Option (Bool × Packet)
unfolding unmask ws_type packet_set_payload packet_set_type
ws_text packet payload ws_off ws_mask ws_mask_key =
    if leb packet.payload_len ws_off
    then some (false, packet)
    else (let newpayload = take (packet.payload_len - ws_off) (drop ws_off payload) in
        let text = if ws_mask then unmask ws_mask_key 0 newpayload else newpayload in
        some (true, packet_set_type (packet_set_payload packet (some text)) (ws_type packet.type)))

-- `capture_ws_check_packet`: what it returns, and the packet.
unfoldable pub capture_ws_check_packet : Packet → Option (Bool × Packet)
unfolding extended_size mask_key ws_text
capture_ws_check_packet packet =
    if packet.payload_len == 0
    then some (false, packet)
    else packet.payload >>= λ payload. get_elem? (payload ++ 0 ∷ []) 0 >>= λ flags.
        if not (flags % 16 == ws_opcode_text)
        then some (false, packet)
        else get_elem? (payload ++ 0 ∷ []) 1 >>= λ len. elim (extended_size (len % 128)) [
          | none ↦ some (false, packet)
          | some size ↦
              let ws_mask = leb 128 len in
              let ws_off = 2 + size in
              if ws_mask
              then (mask_key payload ws_off >>= λ ws_mask_key.
                  ws_text packet payload (ws_off + 4) true ws_mask_key)
              else ws_text packet payload ws_off false []
        ]
