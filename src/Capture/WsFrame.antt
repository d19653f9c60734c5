-- ===== src/Capture/WsFrame.antt =====
-- src/capture.c, `capture_ws_check_packet`: the text of a frame that was built as RFC 6455 says.
use Prim.Native.Nat.{bit_xor}
use sngrep.Common.{
  ℕ, zero, suc, ◌+◌, ◌*◌, ◌-◌, ◌%◌, ◌<◌, ◌≡◌, refl, sym, ◌∙◌, ap, Bool, true, false, none, some,
  List, [], ◌∷◌, ◌==◌, ==_iff, leb, if◌then◌else◌, length, get_elem?, take, drop, arith, All,
}
use sngrep.Packet.{Packet, packet_set_payload, packet_set_type}
use sngrep.Capture.Ws.{
  key_byte, unmask, extended_size, mask_key, ws_type, ws_text, capture_ws_check_packet,
}

-- A test of each number below a bound, by evaluation.
every : (ℕ → Bool) → ℕ → Bool
every test zero = true
every test (suc bound) = if test bound then every test bound else false

every→holds : (test : ℕ → Bool) (bound x : ℕ) → every test bound ≡ true → x < bound → test x ≡ true
unfolding every
every→holds test zero x e h = ground arith
every→holds test (suc bound) x e h = ground (arith, every→holds test bound x)

toggle : ℕ → ℕ → Bool
toggle k b = bit_xor (bit_xor b k) k == b

toggle-every : every (λ k. every (toggle k) 256) 256 ≡ true
unfolding every toggle
toggle-every = refl

bit_xor_twice : (b k : ℕ) → b < 256 → k < 256 → bit_xor (bit_xor b k) k ≡ b
unfolding toggle
bit_xor_twice b k hb hk =
    let row : every (toggle k) 256 ≡ true =
      every→holds (λ k. every (toggle k) 256) 256 k toggle-every hk in
    (==_iff (bit_xor (bit_xor b k) k) b).0 (every→holds (toggle k) 256 b row hb)

-- RFC 6455: the length of more than 125 bytes is 126 and two bytes, or 127 and eight.
pub data Length : Type 0 where
  len16 : ℕ → ℕ → Length
  len64 : ℕ → ℕ → ℕ → ℕ → ℕ → ℕ → ℕ → ℕ → Length

unfoldable pub length_code : Length → ℕ
length_code (len16 a b) = 126
length_code (len64 a b c d e f g h) = 127

unfoldable pub length_bytes : Length → List ℕ → List ℕ
length_bytes (len16 a b) rest = a ∷ b ∷ rest
length_bytes (len64 a b c d e f g h) rest = a ∷ b ∷ c ∷ d ∷ e ∷ f ∷ g ∷ h ∷ rest

-- The key of four bytes; a frame of a server has none.
pub data Mask : Type 0 where
  unmasked : Mask
  masked : ℕ → ℕ → ℕ → ℕ → Mask

abbrev pub IsBytes : Mask → Type 0
IsBytes unmasked = Unit
IsBytes (masked k0 k1 k2 k3) = (k0 < 256) × (k1 < 256) × (k2 < 256) × (k3 < 256)

unfoldable pub key_of : ℕ → ℕ → ℕ → ℕ → List ℕ
key_of k0 k1 k2 k3 = k0 ∷ k1 ∷ k2 ∷ k3 ∷ []

-- RFC 6455: each byte of the text is put under the next byte of the key, round and round.
unfoldable pub cover : ℕ → ℕ → ℕ → ℕ → List ℕ → List ℕ
cover k0 k1 k2 k3 [] = []
cover k0 k1 k2 k3 (b ∷ text) = bit_xor b k0 ∷ cover k1 k2 k3 k0 text

-- RFC 6455: a frame with a text, which is masked by the key. The flags are those bits of the first
-- byte that are not the opcode.
unfoldable pub ws_frame : ℕ → Length → Mask → List ℕ → List ℕ
unfolding length_code length_bytes cover
ws_frame flags len unmasked text = (flags * 16 + 1) ∷ length_code len ∷ length_bytes len text
ws_frame flags len (masked k0 k1 k2 k3) text =
    (flags * 16 + 1)
    ∷ (128 + length_code len)
    ∷ length_bytes len (k0 ∷ k1 ∷ k2 ∷ k3 ∷ cover k0 k1 k2 k3 text)

key_byte-lt :
    (k0 k1 k2 k3 : ℕ)
    → IsBytes (masked k0 k1 k2 k3)
    → (i : ℕ) → key_byte (key_of k0 k1 k2 k3) i < 256
unfolding key_byte key_of
key_byte-lt k0 k1 k2 k3 h i = at (i % 4) (omega arith)
  where
    at :
        (j : ℕ)
        → j < 4
        → elim (get_elem? (k0 ∷ k1 ∷ k2 ∷ k3 ∷ []) j) as (λ _. ℕ) [ none ↦ 0 | some k ↦ k ] < 256
    at zero lt = h.0
    at (suc zero) lt = h.1
    at (suc (suc zero)) lt = h.2
    at (suc (suc (suc zero))) lt = h.3
    at (suc (suc (suc (suc j)))) lt = ground arith

-- The mask is taken off by putting it on.
pub unmask_twice :
    (key : List ℕ)
    → ((i : ℕ) → key_byte key i < 256)
    → (i : ℕ) (text : List ℕ) → All (λ b. b < 256) text
    → unmask key i (unmask key i text) ≡ text
unfolding unmask
unmask_twice key short i [] h = refl
unmask_twice key short i (b ∷ text) h =
    let e = bit_xor_twice b (key_byte key i) h.0 (short i) in
    let rest = unmask_twice key short (suc i) text h.1 in cc

-- The loop of the code reads the key in the order of the RFC.
cover-unmask :
    (key : List ℕ) (i : ℕ) (text : List ℕ)
    → cover
        (key_byte key i)
        (key_byte key (suc i))
        (key_byte key (suc (suc i)))
        (key_byte key (suc (suc (suc i))))
        text
      ≡ unmask key i text
unfolding cover unmask key_byte
cover-unmask key i [] = refl
cover-unmask key i (b ∷ text) =
    let round : (suc (suc (suc (suc i)))) % 4 ≡ i % 4 = omega arith in
    ap (λ t. bit_xor b (key_byte key i) ∷ t)
      (ap
          (λ (n : ℕ).
            cover (key_byte key (suc i)) (key_byte key (suc (suc i)))
              (key_byte key (suc (suc (suc i))))
              (elim (get_elem? key n) as (λ _. ℕ) [ none ↦ 0 | some k ↦ k ]) text)
          (sym round)
        ∙ cover-unmask key (suc i) text)

cover_key :
    (k0 k1 k2 k3 : ℕ) (text : List ℕ) → cover k0 k1 k2 k3 text ≡ unmask (key_of k0 k1 k2 k3) 0 text
unfolding key_of key_byte
cover_key k0 k1 k2 k3 text = cover-unmask (key_of k0 k1 k2 k3) 0 text

length-unmask : (key : List ℕ) (i : ℕ) (text : List ℕ) → length (unmask key i text) ≡ length text
unfolding unmask
length-unmask key i [] = refl
length-unmask key i (b ∷ text) = ap suc (length-unmask key (suc i) text)

take-length : (xs : List ℕ) → take (length xs) xs ≡ xs
take-length [] = refl
take-length (x ∷ xs) = ap (λ r. x ∷ r) (take-length xs)

-- The rest of a payload behind a header.
ws_text_rest :
    (p : Packet) (payload : List ℕ) (off : ℕ) (mask : Bool) (key rest : List ℕ)
    → drop off payload ≡ rest
    → length payload ≡ off + length rest
    → 0 < length rest
    → ws_text (packet_set_payload p (some payload)) payload off mask key
      ≡ some (
        true,
        packet_set_type
            (packet_set_payload p (some (if mask then unmask key 0 rest else rest)))
            (ws_type p.type),
      )
unfolding ws_text packet_set_payload packet_set_type
ws_text_rest p payload off mask key rest d len pos =
    let longer : leb (length payload) off ≡ false = ground arith in
    let size : length payload - off ≡ length rest = omega (arith, len) in
    rw (longer, d, size, take-length rest) refl

module _ (p : Packet) (flags : ℕ) where
  opcode : ((flags * 16 + 1) % 16 == 1) ≡ true
  opcode = ground arith

  ws_unmasked :
      (len : Length) (text : List ℕ)
      → 0 < length text
      → capture_ws_check_packet (packet_set_payload p (some (ws_frame flags len unmasked text)))
        ≡ some (true, packet_set_type (packet_set_payload p (some text)) (ws_type p.type))
  unfolding capture_ws_check_packet packet_set_payload extended_size ws_frame length_code
      length_bytes packet_set_type
  ws_unmasked (len16 a b) text pos =
      let big : (suc (suc (suc (suc (length text)))) == 0) ≡ false = ground arith in
      rw (big, opcode)
        (ws_text_rest p ((flags * 16 + 1) ∷ 126 ∷ a ∷ b ∷ text) 4 false [] text refl (omega arith)
          pos)
  ws_unmasked (len64 a b c d e f g h) text pos =
      let frame : List ℕ = (flags * 16 + 1) ∷ 127 ∷ a ∷ b ∷ c ∷ d ∷ e ∷ f ∷ g ∷ h ∷ text in
      let big : (length frame == 0) ≡ false = ground arith in
      rw (big, opcode) (ws_text_rest p frame 10 false [] text refl (omega arith) pos)

  -- The rest of the payload is a masked text.
  ws_text-masked :
      (payload : List ℕ) (off k0 k1 k2 k3 : ℕ) (text : List ℕ)
      → IsBytes (masked k0 k1 k2 k3)
      → All (λ b. b < 256) text
      → 0 < length text
      → drop off payload ≡ unmask (key_of k0 k1 k2 k3) 0 text
      → length payload ≡ off + length (unmask (key_of k0 k1 k2 k3) 0 text)
      → ws_text (packet_set_payload p (some payload)) payload off true (k0 ∷ k1 ∷ k2 ∷ k3 ∷ [])
        ≡ some (true, packet_set_type (packet_set_payload p (some text)) (ws_type p.type))
  unfolding key_of
  ws_text-masked payload off k0 k1 k2 k3 text bytes small pos d len =
      let key : List ℕ = k0 ∷ k1 ∷ k2 ∷ k3 ∷ [] in
      ws_text_rest p payload off true key (unmask key 0 text) d len
        (omega (arith, length-unmask key 0 text, pos))
      ∙ ap (λ t. some (true, packet_set_type (packet_set_payload p (some t)) (ws_type p.type)))
          (unmask_twice key (key_byte-lt k0 k1 k2 k3 bytes) 0 text small)

  ws_masked :
      (len : Length) (k0 k1 k2 k3 : ℕ) (text : List ℕ)
      → IsBytes (masked k0 k1 k2 k3)
      → All (λ b. b < 256) text
      → 0 < length text
      → capture_ws_check_packet
          (packet_set_payload p (some (ws_frame flags len (masked k0 k1 k2 k3) text)))
        ≡ some (true, packet_set_type (packet_set_payload p (some text)) (ws_type p.type))
  unfolding capture_ws_check_packet packet_set_payload extended_size ws_frame length_code
      length_bytes packet_set_type mask_key
  ws_masked (len16 a b) k0 k1 k2 k3 text bytes small pos =
      let body = cover k0 k1 k2 k3 text in
      let same = cover_key k0 k1 k2 k3 text in
      let frame : List ℕ = (flags * 16 + 1) ∷ 254 ∷ a ∷ b ∷ k0 ∷ k1 ∷ k2 ∷ k3 ∷ body in
      let big : (length frame == 0) ≡ false = ground arith in
      let room : leb 8 (suc (length frame)) ≡ true = ground arith in
      rw (big, opcode, room)
        (ws_text-masked frame 8 k0 k1 k2 k3 text bytes small pos same
          (omega (arith, ap length same)))
  ws_masked (len64 a b c d e f g h) k0 k1 k2 k3 text bytes small pos =
      let body = cover k0 k1 k2 k3 text in
      let same = cover_key k0 k1 k2 k3 text in
      let frame : List ℕ =
        (flags * 16 + 1) ∷ 255 ∷ a ∷ b ∷ c ∷ d ∷ e ∷ f ∷ g ∷ h ∷ k0 ∷ k1 ∷ k2 ∷ k3 ∷ body in
      let big : (length frame == 0) ≡ false = ground arith in
      let room : leb 14 (suc (length frame)) ≡ true = ground arith in
      rw (big, opcode, room)
        (ws_text-masked frame 14 k0 k1 k2 k3 text bytes small pos same
          (omega (arith, ap length same)))

  -- For a packet whose payload is a WebSocket text frame as RFC 6455 builds it, with a length of
  -- 16 or 64 bits, masked by any key of bytes or not, and with a text of at least one byte,
  -- `capture_ws_check_packet` returns 1, puts the text in place of the payload, and sets the type
  -- to WSS for a TLS packet and to WS for another.
  pub capture_ws_check_packet-ws_frame :
      (len : Length) (mask : Mask) (text : List ℕ)
      → IsBytes mask
      → All (λ b. b < 256) text
      → 0 < length text
      → capture_ws_check_packet (packet_set_payload p (some (ws_frame flags len mask text)))
        ≡ some (true, packet_set_type (packet_set_payload p (some text)) (ws_type p.type))
  capture_ws_check_packet-ws_frame len unmasked text bytes small pos = ws_unmasked len text pos
  capture_ws_check_packet-ws_frame len (masked k0 k1 k2 k3) text bytes small pos =
      ws_masked len k0 k1 k2 k3 text bytes small pos
