-- ===== src/Capture/Validate.antt =====
-- src/sip.c, `sip_validate_packet`: whether the payload of a packet is one SIP message, a part of
-- one, or more than one.
use sngrep.Common.{
  ℕ, ◌+◌, ◌-◌, Bool, true, false, Option, none, some, List, [], ◌∷◌, ◌==◌, ◌||◌, not, ltb, leb,
  if◌then◌else◌, ◌>>=◌, length, get_elem?, take,
}
use sngrep.Packet.{Packet, packet_set_payload}

pub data Verdict : Type 0 where
  not_sip partial_sip complete_sip multiple_sip : Verdict

-- The regular expressions of `sip_init` and `atoi`, of the C library. `valid` is a match of
-- `reg_valid`, `content_length` the digits that `reg_cl` found, `body` the bounds of what `reg_body`
-- found.
pub record Regex : Type 0 where
  pub valid : List ℕ → Bool
  pub content_length : List ℕ → Option (List ℕ)
  pub body : List ℕ → Option (ℕ × ℕ)
  pub atoi : List ℕ → ℕ

abbrev pub max_sip_payload : ℕ
max_sip_payload = 10240

-- The size of `cl_header`: with as many digits, `atoi` reads behind it.
abbrev pub cl_header_size : ℕ
cl_header_size = 10

-- A payload that fills the buffer leaves no room for the byte that ends a text of C.
unfoldable pub terminated : List ℕ → Bool
terminated [] = false
terminated (b ∷ bytes) = (b == 0) || terminated bytes

-- The bytes of a payload and what follows in the buffer that it was copied to.
unfoldable pub payload_byte : List ℕ → ℕ → Option ℕ
payload_byte payload i =
    if ltb i (length payload)
    then get_elem? payload i
    else (if ltb i max_sip_payload then some 0 else none)

module _ (regex : Regex) where
  -- The body goes from `so` to `eo`, and should have `content_len` bytes.
  unfoldable pub check_body : Packet → List ℕ → ℕ → ℕ → ℕ → Option (Verdict × Packet)
  unfolding payload_byte packet_set_payload
  check_body packet payload content_len so eo =
      if ltb (eo - so) content_len
      then some (partial_sip, packet)
      else (if ltb content_len (eo - so)
          then (payload_byte payload (so + content_len - 1) >>= λ last.
              payload_byte payload (so + content_len - 2) >>= λ before.
              if not (last == 10)
              then some (not_sip, packet)
              else (if not (before == 13)
                  then some (not_sip, packet)
                  else some (
                    multiple_sip,
                    packet_set_payload packet (some (take (so + content_len) payload)),
                  )))
          else some (complete_sip, packet))

  -- From the first line on.
  unfoldable pub check_texts : Packet → List ℕ → Option (Verdict × Packet)
  unfolding check_body
  check_texts packet payload = elim (regex.valid payload) [
    | false ↦ some (not_sip, packet)
    | true ↦ elim (regex.content_length payload) [
      | none ↦ some (partial_sip, packet)
      | some digits ↦
          if leb cl_header_size (length digits) then none else elim (regex.body payload) [
            | none ↦ some (partial_sip, packet)
            | some b ↦ check_body packet payload (regex.atoi digits) b.0 b.1
          ]
    ]
  ]

  -- `sip_validate_packet`
  unfoldable pub sip_validate_packet : Packet → Option (Verdict × Packet)
  unfolding check_texts terminated
  sip_validate_packet packet =
      if packet.payload_len == 0 || ltb max_sip_payload packet.payload_len
      then some (not_sip, packet)
      else packet.payload >>= λ payload.
          if ltb (length payload) max_sip_payload || terminated payload
          then check_texts packet payload
          else none
