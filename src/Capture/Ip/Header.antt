-- ===== src/Capture/Ip/Header.antt =====
-- src/capture.c, `capture_packet_reasm_ip`, its first half: the link header is skipped, with the
-- tag of a VLAN, and IP headers are read until one does not contain another IP packet.
use sngrep.Common.{
  ℕ, zero, suc, ◌+◌, ◌-◌, ◌*◌, ◌/◌, ◌%◌, Option, none, some, List, ◌==◌, not, ltb, leb,
  if◌then◌else◌, ◌>>=◌, length, get_elem?, take, drop,
}
use sngrep.Vector.{u32}

-- `capinfo->link`: the kinds of link that the code names here; the other DLT_ values are one.
pub data Link : Type 0 where
  en10mb linux_sll nflog other_link : Link

-- Two bytes in the order of the network, and in that of a little-endian machine.
unfoldable pub be16 : List ℕ → ℕ → Option ℕ
be16 bytes at =
    get_elem? bytes at >>= λ high. get_elem? bytes (suc at) >>= λ low. some (high * 256 + low)

unfoldable pub le16 : List ℕ → ℕ → Option ℕ
le16 bytes at =
    get_elem? bytes at >>= λ low. get_elem? bytes (suc at) >>= λ high. some (high * 256 + low)

-- Subtraction of 32 bits.
abbrev pub sub_u32 : ℕ → ℕ → ℕ
sub_u32 a b = (a + (u32 - b % u32)) % u32

-- The fields of `struct ip` that are read; `ip_hl` in bytes.
pub record Ip4 : Type 0 where
  pub ip_v : ℕ
  pub ip_hl : ℕ
  pub ip_len : ℕ
  pub ip_id : ℕ
  pub ip_off : ℕ
  pub ip_p : ℕ
  pub ip_src : List ℕ
  pub ip_dst : List ℕ

unfoldable pub ip4_fields : List ℕ → ℕ → ℕ → ℕ → ℕ → ℕ → ℕ → Ip4
ip4_fields packet at first len id off p = record {
  ip_v = first / 16;
  ip_hl = first % 16 * 4;
  ip_len = len;
  ip_id = id;
  ip_off = off;
  ip_p = p;
  ip_src = take 4 (drop (at + 12) packet);
  ip_dst = take 4 (drop (at + 16) packet);
}

unfoldable pub ip4_at : List ℕ → ℕ → Option Ip4
unfolding be16 ip4_fields
ip4_at packet at = get_elem? packet at >>= λ first. be16 packet (at + 2) >>= λ len.
    be16 packet (at + 4) >>= λ id. be16 packet (at + 6) >>= λ off.
    get_elem? packet (at + 9) >>= λ p.
    if leb (at + 20) (length packet) then some (ip4_fields packet at first len id off p) else none

abbrev pub ethertype_8021q : ℕ
ethertype_8021q = 33024

-- The size of the link header with that of a VLAN tag.
unfoldable pub skip_vlan : Link → List ℕ → ℕ → Option ℕ
unfolding be16
skip_vlan en10mb packet link_hl = be16 packet 12 >>= λ ether_type.
    some (if ether_type == ethertype_8021q then (link_hl + 4) % 65536 else link_hl)
skip_vlan linux_sll packet link_hl = be16 packet 14 >>= λ sll_protocol.
    some (if sll_protocol == ethertype_8021q then (link_hl + 4) % 65536 else link_hl)
skip_vlan nflog packet link_hl = some link_hl
skip_vlan other_link packet link_hl = some link_hl

abbrev pub nfula_payload : ℕ
nfula_payload = 9

-- How a loop ends: without fuel, with undefined behaviour, or with a result.
pub data Loop (A : Type 0) : Type 0 where
  starved fault : Loop A
  done : A → Loop A

infixl 5 ◌>>=loop◌
abbrev pub ◌>>=loop◌ : {A B : Type 0} → Loop A → (A → Loop B) → Loop B
starved >>=loop f = starved
fault >>=loop f = fault
done a >>=loop f = f a

-- A step that may fault, in a loop.
abbrev pub returned : {A : Type 0} → Option A → Loop A
returned none = fault
returned (some a) = done a

-- The NFLOG loop over the TLV headers.
unfoldable pub skip_nflog : ℕ → List ℕ → ℕ → ℕ → Loop ℕ
unfolding le16
skip_nflog zero packet caplen link_hl = starved
skip_nflog (suc fuel) packet caplen link_hl =
    if ltb caplen (link_hl + 8) then done link_hl else elim (le16 packet link_hl) [
      | none ↦ fault
      | some tlv_length ↦ elim (le16 packet (link_hl + 2)) [
        | none ↦ fault
        | some tlv_type ↦
            if tlv_type == nfula_payload
            then done ((link_hl + 4) % 65536)
            else skip_nflog fuel packet caplen
                (if leb 4 tlv_length then (link_hl + (tlv_length + 3) / 4 * 4) % 65536 else link_hl)
      ]
    ]

-- What the loop over the IP headers finds: the header, and the values that it has set.
pub record Found : Type 0 where
  pub ip4 : Ip4
  pub link_hl : ℕ
  pub size : ℕ
  pub caplen : ℕ

abbrev pub ipproto_ipip : ℕ
ipproto_ipip = 4

abbrev pub ip_header_size : ℕ
ip_header_size = 20

-- The loop over the IP headers. A version other than 4 ends it with NULL. Before the first header,
-- `ip_ver` and `ip_proto` are not initialised.
unfoldable pub ip_headers : ℕ → List ℕ → ℕ → ℕ → Option Found → Loop (Option Found)
unfolding ip4_at
ip_headers zero packet link_hl size before = starved
ip_headers (suc fuel) packet link_hl size before =
    if ltb size ip_header_size
    then elim before [ none ↦ fault | some found ↦ done (some found) ]
    else elim (ip4_at packet link_hl) [
      | none ↦ fault
      | some ip4 ↦
          if not (ip4.ip_v == 4)
          then done none
          else (let caplen = link_hl + ip4.ip_len in
              let size' = sub_u32 ip4.ip_len ip4.ip_hl in
              let inner = (link_hl + ip4.ip_hl) % 65536 in
              let next =
                ip_headers fuel packet inner size'
                  (some (record { ip4 = ip4; link_hl = inner; size = size'; caplen = caplen })) in
              if ip4.ip_p == ipproto_ipip
              then next
              else done
                  (some (record { ip4 = ip4; link_hl = link_hl; size = size'; caplen = caplen })))
    ]
