-- ===== src/Capture/Kept.antt =====
-- Lemmas on `sip_validate_packet`: the addresses of the packet.
use sngrep.Common.{
  Returns, if-elim, ℕ, ◌+◌, ◌-◌, refl, true, false, Option, none, some, List, ◌==◌, ◌||◌, not, ltb,
  leb, if◌then◌else◌, ◌>>=◌, length, take,
}
use sngrep.Packet.{Packet, packet_set_payload}
use sngrep.Capture.Validate.{
  Verdict, not_sip, partial_sip, complete_sip, multiple_sip, Regex, max_sip_payload, cl_header_size,
  payload_byte, check_body, check_texts, sip_validate_packet, terminated,
}
use sngrep.Capture.Conn.{Peers}

-- The addresses of the packet are kept.
unfoldable pub Same : Packet → Verdict × Packet → Type 0
unfolding Peers
Same p r = Peers r.1 p

unfoldable pub Whole : Packet → Option (Verdict × Packet) → Type 0
unfolding Same
Whole p run = Returns (Same p) run

whole : (p : Packet) (v : Verdict) → Whole p (some (v, p))
unfolding Whole
whole p v = (refl, refl)

module _ (regex : Regex) where
  check_body-Whole :
      (p : Packet) (bytes : List ℕ) (len so eo : ℕ) → Whole p (check_body regex p bytes len so eo)
  unfolding check_body packet_set_payload Whole
  check_body-Whole p bytes len so eo =
      if-elim (Whole p) (ltb (eo - so) len) _ _ (whole p partial_sip) (
        if-elim (Whole p) (ltb len (eo - so)) _ _
          (elim (payload_byte bytes (so + len - 1))
            as (λ o. Whole p (
              o >>= λ last.
              payload_byte bytes (so + len - 2) >>= λ before. last_bytes last before)) [
                | none ↦ tt
                | some last ↦
                    elim (payload_byte bytes (so + len - 2))
                      as (λ o. Whole p (o >>= λ before. last_bytes last before)) [
                        | none ↦ tt
                        | some before ↦ if-elim (Whole p) (not (last == 10)) _ _ (whole p not_sip) (
                            if-elim (Whole p) (not (before == 13)) _ _ (whole p not_sip)
                              (refl, refl))
                      ]
              ])
          (whole p complete_sip))
    where
      last_bytes : ℕ → ℕ → Option (Verdict × Packet)
      last_bytes last before =
          if not (last == 10)
          then some (not_sip, p)
          else (if not (before == 13)
              then some (not_sip, p)
              else some (multiple_sip, packet_set_payload p (some (take (so + len) bytes))))

  check_texts-Whole : (p : Packet) (bytes : List ℕ) → Whole p (check_texts regex p bytes)
  unfolding check_texts Whole
  check_texts-Whole p bytes =
      elim (regex.valid bytes)
        as (λ valid. Whole p (elim valid [
          | false ↦ some (not_sip, p)
          | true ↦ with_digits (regex.content_length bytes)
        ])) [
          | false ↦ whole p not_sip
          | true ↦ elim (regex.content_length bytes) as (λ o. Whole p (with_digits o)) [
            | none ↦ whole p partial_sip
            | some digits ↦
                if-elim (Whole p) (leb cl_header_size (length digits)) _ _ tt
                  (elim (regex.body bytes) as (λ o. Whole p (with_body digits o)) [
                    | none ↦ whole p partial_sip
                    | some b ↦ check_body-Whole p bytes (regex.atoi digits) b.0 b.1
                  ])
          ]
        ]
    where
      with_body : List ℕ → Option (ℕ × ℕ) → Option (Verdict × Packet)
      with_body digits none = some (partial_sip, p)
      with_body digits (some b) = check_body regex p bytes (regex.atoi digits) b.0 b.1

      with_digits : Option (List ℕ) → Option (Verdict × Packet)
      with_digits none = some (partial_sip, p)
      with_digits (some digits) =
          if leb cl_header_size (length digits) then none else with_body digits (regex.body bytes)

  pub sip_validate_packet-Whole : (p : Packet) → Whole p (sip_validate_packet regex p)
  unfolding sip_validate_packet Whole
  sip_validate_packet-Whole p =
      if-elim (Whole p) (p.payload_len == 0 || ltb max_sip_payload p.payload_len) _ _
        (whole p not_sip)
        (elim p.payload
          as (λ o. Whole p (
            o >>= λ payload.
            if ltb (length payload) max_sip_payload || terminated payload
            then check_texts regex p payload
            else none)) [
              | none ↦ tt
              | some payload ↦
                  if-elim (Whole p) (ltb (length payload) max_sip_payload || terminated payload) _ _
                    (check_texts-Whole p payload) tt
            ])
