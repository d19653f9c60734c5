-- ===== src/Capture/Sent.antt =====
-- A UDP packet over Ethernet, byte for byte, and what src/capture.c reads of its headers.
use mathlib.Core.List.{append_assoc}
use sngrep.Common.{
  ℕ, ◌+◌, ◌*◌, ◌/◌, ◌%◌, ◌≤◌, ◌≡◌, refl, ◌∙◌, ap, true, Option, none, some, List, [], ◌∷◌, ◌++◌,
  leb, length, length-append, arith,
}
use sngrep.Capture.Ip.{en10mb, Ip4, ip4_at, be16, skip_vlan}
use sngrep.Capture.Ip.Offset.{be16-append}

-- An address of four bytes.
pub record Ip4Address : Type 0 where
  pub b0 : ℕ
  pub b1 : ℕ
  pub b2 : ℕ
  pub b3 : ℕ

-- What is sent: the addresses of the Ethernet header, its VLAN tag, and the UDP packet.
pub record Sent : Type 0 where
  pub macs : List ℕ
  pub vlan : Option (ℕ × ℕ)
  pub id : ℕ
  pub src : Ip4Address
  pub sport : ℕ
  pub dst : Ip4Address
  pub dport : ℕ
  pub payload : List ℕ

-- The Ethernet header.
unfoldable pub ethernet : List ℕ → Option (ℕ × ℕ) → List ℕ
ethernet macs none = macs ++ 8 ∷ 0 ∷ []
ethernet macs (some (a, b)) = macs ++ 129 ∷ 0 ∷ a ∷ b ∷ 8 ∷ 0 ∷ []

-- The IP and UDP headers, and the payload.
unfoldable pub udp_bytes : Sent → List ℕ → List ℕ
udp_bytes s rest =
    let len = 28 + length s.payload in
    let udp_len = 8 + length s.payload in
    69
    ∷ 0
    ∷ (len / 256)
    ∷ (len % 256)
    ∷ (s.id / 256)
    ∷ (s.id % 256)
    ∷ 0
    ∷ 0
    ∷ 64
    ∷ 17
    ∷ 0
    ∷ 0
    ∷ s.src.b0
    ∷ s.src.b1
    ∷ s.src.b2
    ∷ s.src.b3
    ∷ s.dst.b0
    ∷ s.dst.b1
    ∷ s.dst.b2
    ∷ s.dst.b3
    ∷ (s.sport / 256)
    ∷ (s.sport % 256)
    ∷ (s.dport / 256)
    ∷ (s.dport % 256)
    ∷ (udp_len / 256)
    ∷ (udp_len % 256)
    ∷ 0
    ∷ 0
    ∷ (s.payload ++ rest)

unfoldable pub frame_bytes : Sent → List ℕ
unfolding ethernet udp_bytes
frame_bytes s = ethernet s.macs s.vlan ++ udp_bytes s []

-- The size of the Ethernet header with its tag.
abbrev pub eth_size : Option (ℕ × ℕ) → ℕ
eth_size none = 14
eth_size (some tag) = 18

pub eth_size_bounds : (vlan : Option (ℕ × ℕ)) → 14 ≤ eth_size vlan
eth_size_bounds none = omega arith
eth_size_bounds (some tag) = omega arith

pub length-ethernet :
    (macs : List ℕ) (vlan : Option (ℕ × ℕ))
    → length macs ≡ 12
    → length (ethernet macs vlan) ≡ eth_size vlan
unfolding ethernet
length-ethernet macs none h = omega (arith, length-append macs (8 ∷ 0 ∷ []))
length-ethernet macs (some (a, b)) h =
    omega (arith, length-append macs (129 ∷ 0 ∷ a ∷ b ∷ 8 ∷ 0 ∷ []))

-- The tag is skipped, and only that.
pub skip_vlan-ethernet :
    (macs : List ℕ) (vlan : Option (ℕ × ℕ)) (rest : List ℕ)
    → length macs ≡ 12
    → skip_vlan en10mb (ethernet macs vlan ++ rest) 14 ≡ some (eth_size vlan)
unfolding skip_vlan ethernet
skip_vlan-ethernet macs none rest h =
    let at : be16 ((macs ++ 8 ∷ 0 ∷ []) ++ rest) 12 ≡ some 2048 =
      ap (λ b. be16 b 12) (append_assoc macs (8 ∷ 0 ∷ []) rest)
      ∙ ap (be16 (macs ++ 8 ∷ 0 ∷ rest)) (omega (arith, h))
      ∙ be16-append macs (8 ∷ 0 ∷ rest) 0 in
    rw at refl
skip_vlan-ethernet macs (some (a, b)) rest h =
    let at : be16 ((macs ++ 129 ∷ 0 ∷ a ∷ b ∷ 8 ∷ 0 ∷ []) ++ rest) 12 ≡ some 33024 =
      ap (λ b. be16 b 12) (append_assoc macs (129 ∷ 0 ∷ a ∷ b ∷ 8 ∷ 0 ∷ []) rest)
      ∙ ap (be16 (macs ++ 129 ∷ 0 ∷ a ∷ b ∷ 8 ∷ 0 ∷ rest)) (omega (arith, h))
      ∙ be16-append macs (129 ∷ 0 ∷ a ∷ b ∷ 8 ∷ 0 ∷ rest) 0 in
    rw at refl

-- The header that is read of the packet.
unfoldable pub sent_ip4 : Sent → Ip4
sent_ip4 s = record {
  ip_v = 4;
  ip_hl = 20;
  ip_len = 28 + length s.payload;
  ip_id = s.id;
  ip_off = 0;
  ip_p = 17;
  ip_src = s.src.b0 ∷ s.src.b1 ∷ s.src.b2 ∷ s.src.b3 ∷ [];
  ip_dst = s.dst.b0 ∷ s.dst.b1 ∷ s.dst.b2 ∷ s.dst.b3 ∷ [];
}

pub word : (n : ℕ) → n / 256 * 256 + n % 256 ≡ n
word n = omega arith

pub ip4_at_sent : (s : Sent) (rest : List ℕ) → ip4_at (udp_bytes s rest) 0 ≡ some (sent_ip4 s)
unfolding ip4_at udp_bytes sent_ip4
ip4_at_sent s rest =
    let len : (28 + length s.payload) / 256 * 256 + (28 + length s.payload) % 256
        ≡ 28 + length s.payload =
      omega arith in
    let id : s.id / 256 * 256 + s.id % 256 ≡ s.id = omega arith in
    let room : leb 20 (length (udp_bytes s rest)) ≡ true = ground arith in rw (len, id, room) refl
