-- ===== src/Capture/Verdict.antt =====
-- Lemmas on `sip_validate_packet`: when it does not fault, and what it leaves of the payload.
use sngrep.Common.{
  ℕ, zero, suc, ◌+◌, ◌-◌, ◌≤◌, ◌<◌, ◌≡◌, refl, false, Option, some, List, [], ◌∷◌, ◌==◌, ltb, leb,
  lt→ltb, length, get_elem?, take, arith, Bool-cases, Option-cases, inl, inr,
}
use sngrep.Packet.{Packet, packet_set_payload}
use sngrep.Capture.Validate.{
  Verdict, not_sip, partial_sip, complete_sip, multiple_sip, Regex, max_sip_payload, cl_header_size,
  payload_byte, check_body, check_texts, sip_validate_packet,
}

-- What validation leaves: the packet as it is, or a proper part of its payload.
unfoldable pub Outcome : List ℕ → Packet → Verdict × Packet → Type 0
unfolding packet_set_payload
Outcome bytes p (multiple_sip, q) =
    (n : ℕ) × (0 < n) × (n < length bytes) × (q ≡ packet_set_payload p (some (take n bytes)))
Outcome bytes p (v, q) = q ≡ p

get_elem?-lt : (xs : List ℕ) (i : ℕ) → i < length xs → (x : ℕ) × get_elem? xs i ≡ some x
get_elem?-lt [] i h = elim (absurd i h) [ ]
  where
    absurd : (i : ℕ) → i < 0 → ⊥
    absurd i h = omega arith
get_elem?-lt (x ∷ xs) zero h = (x, refl)
get_elem?-lt (x ∷ xs) (suc i) h = get_elem?-lt xs i (omega arith)

payload_byte-lt :
    (bytes : List ℕ) (i : ℕ) → i < length bytes → (x : ℕ) × payload_byte bytes i ≡ some x
unfolding payload_byte
payload_byte-lt bytes i h =
    let (x, e) = get_elem?-lt bytes i h in (x, rw (lt→ltb i (length bytes) h) e)

module _ (regex : Regex) where
  -- What regexec documents of a match of `\r\n\r\n(.*)`: the body starts behind four bytes, and it
  -- lies in the payload.
  unfoldable pub BodyBounds : List ℕ → Type 0
  BodyBounds bytes =
      (b : ℕ × ℕ) → regex.body bytes ≡ some b → (4 ≤ b.0) × (b.0 ≤ b.1) × (b.1 ≤ length bytes)

  -- The digits of the Content-Length, if there are any, fit into `cl_header`.
  unfoldable pub ShortLength : List ℕ → Type 0
  ShortLength bytes =
      (digits : List ℕ) → regex.content_length bytes ≡ some digits → length digits < cl_header_size

  unfoldable Checked : List ℕ → Packet → Option (Verdict × Packet) → Type 0
  unfolding Outcome
  Checked bytes p run = (r : Verdict × Packet) × (run ≡ some r) × Outcome bytes p r

  check_body-Checked :
      (bytes : List ℕ) (p : Packet) (len so eo : ℕ)
      → 4 ≤ so
      → eo ≤ length bytes
      → Checked bytes p (check_body regex p bytes len so eo)
  unfolding check_body Checked Outcome
  check_body-Checked bytes p len so eo low high = elim (Bool-cases (ltb (eo - so) len)) [
    | inl t ↦ rw t (((partial_sip, p), refl, refl))
    | inr f ↦ elim (Bool-cases (ltb len (eo - so))) [
      | inr g ↦ rw (f, g) (((complete_sip, p), refl, refl))
      | inl t ↦
          let inside : so + len < eo = ground arith in
          let (x, ex) = payload_byte-lt bytes (so + len - 1) (omega arith) in
          let (y, ey) = payload_byte-lt bytes (so + len - 2) (omega arith) in
          rw (f, t, ex, ey)
            (elim (Bool-cases (x == 10)) [
              | inr g ↦ rw g (((not_sip, p), refl, refl))
              | inl u ↦ rw u (elim (Bool-cases (y == 13)) [
                | inr g ↦ rw g (((not_sip, p), refl, refl))
                | inl w ↦ rw w ((_, refl, (so + len, omega arith, omega arith, refl)))
              ])
            ])
    ]
  ]

  check_texts-Checked :
      (bytes : List ℕ) (p : Packet)
      → BodyBounds bytes
      → ShortLength bytes
      → Checked bytes p (check_texts regex p bytes)
  unfolding check_texts Checked Outcome BodyBounds ShortLength
  check_texts-Checked bytes p bounds short = elim (Bool-cases (regex.valid bytes)) [
    | inr f ↦ rw (f, check_texts) (((not_sip, p), refl, refl))
    | inl t ↦
        rw (t, check_texts)
          (elim (Option-cases (regex.content_length bytes)) [
            | inl n ↦ rw n (((partial_sip, p), refl, refl))
            | inr (digits, e) ↦
                let few : leb cl_header_size (length digits) ≡ false =
                  let h = short digits e in ground arith in
                rw (e, few)
                  (elim (Option-cases (regex.body bytes)) [
                    | inl n ↦ rw n (((partial_sip, p), refl, refl))
                    | inr (b, eb) ↦
                        let h = bounds b eb in
                        rw eb (check_body-Checked bytes p (regex.atoi digits) b.0 b.1 h.0 h.2)
                  ])
          ])
  ]

  pub sip_validate_packet-Outcome :
      (bytes : List ℕ) (p : Packet)
      → length bytes < max_sip_payload
      → BodyBounds bytes
      → ShortLength bytes
      → (r : Verdict × Packet) × (sip_validate_packet regex (packet_set_payload p (some bytes))
          ≡ some r)
        × Outcome bytes (packet_set_payload p (some bytes)) r
  unfolding sip_validate_packet packet_set_payload Checked Outcome
  sip_validate_packet-Outcome bytes p h bounds short =
      let small : ltb max_sip_payload (length bytes) ≡ false = ground arith in
      rw (small, lt→ltb (length bytes) max_sip_payload h)
        (elim (Bool-cases (length bytes == 0)) [
          | inl t ↦ rw t (((not_sip, _), refl, refl))
          | inr f ↦ rw f (check_texts-Checked bytes _ bounds short)
        ])
