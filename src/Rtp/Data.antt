-- ===== src/Rtp/Data.antt =====
-- src/rtp.c: whether a payload is RTP or RTCP. The buffer of a payload has one byte 0 after it.
use sngrep.Common.{
  ℕ, ◌/◌, ◌%◌, ◌≤◌, ◌<◌, ◌≡◌, sym, ◌∙◌, ap, Bool, true, false, Option, some, List, [], ◌∷◌, ◌++◌,
  ◌==◌, ◌&&◌, ◌||◌, ltb, leb, if◌then◌else◌, ◌>>=◌, length, get_elem?, arith, Bool-cases, inl, inr,
  All,
}

-- The byte of the buffer of a payload; a read behind it is a fault.
unfoldable pub byte : List ℕ → ℕ → Option ℕ
byte payload i = get_elem? (payload ++ 0 ∷ []) i

-- `RTP_VERSION` and `RTP_PAYLOAD_TYPE` of a byte
abbrev pub rtp_version : ℕ → ℕ
rtp_version octet = octet / 64

abbrev pub rtp_payload_type : ℕ → ℕ
rtp_payload_type octet = octet % 128

-- The tests of `data_is_rtp` on the first two bytes. (The function returns 0 for yes.)
unfoldable pub rtp_bytes : ℕ → ℕ → ℕ → Bool
rtp_bytes len b0 b1 =
    leb 12 len
    && (rtp_version b0 == 2
        && ((ltb 127 b0 && ltb b0 192)
            && (leb (rtp_payload_type b1) 64 || leb 96 (rtp_payload_type b1))))

-- `data_is_rtp`
unfoldable pub data_is_rtp : List ℕ → Option Bool
unfolding rtp_bytes byte
data_is_rtp payload =
    byte payload 1 >>= λ b1. byte payload 0 >>= λ b0. some (rtp_bytes (length payload) b0 b1)

unfoldable pub rtcp_bytes : ℕ → ℕ → ℕ → Bool
rtcp_bytes len b0 b1 =
    leb 4 len && (rtp_version b0 == 2 && ((ltb 127 b0 && ltb b0 192) && (leb 192 b1 && leb b1 223)))

-- `data_is_rtcp`; the bytes are read if the payload is long enough.
unfoldable pub data_is_rtcp : List ℕ → Option Bool
unfolding rtcp_bytes byte
data_is_rtcp payload =
    if leb 4 (length payload)
    then (byte payload 0 >>= λ b0.
        byte payload 1 >>= λ b1. some (rtcp_bytes (length payload) b0 b1))
    else some false

rtp_bytes-rtcp_bytes :
    (len b0 b1 : ℕ) → b1 < 256 → rtp_bytes len b0 b1 ≡ true → rtcp_bytes len b0 b1 ≡ true → b1 ≡ 192
unfolding rtp_bytes rtcp_bytes
rtp_bytes-rtcp_bytes len b0 b1 small r c =
    let r' : (leb (rtp_payload_type b1) 64 || leb 96 (rtp_payload_type b1)) ≡ true =
      ground (arith, r) in
    let c' : (leb 192 b1 && leb b1 223) ≡ true = ground (arith, c) in
    let low : 192 ≤ b1 = ground (arith, c') in
    let high : b1 ≤ 223 = ground (arith, c') in
    elim (Bool-cases (leb (rtp_payload_type b1) 64)) [
      | inl y ↦ let le : b1 % 128 ≤ 64 = ground (arith, y) in omega arith
      | inr n ↦ let ge : 96 ≤ b1 % 128 = ground (arith, r', n) in absurd (omega arith)
    ]

-- A payload of bytes that both `data_is_rtp` and `data_is_rtcp` accept has 192 as its second byte.
pub data_is_rtp-data_is_rtcp :
    (payload : List ℕ)
    → All (λ b. b < 256) payload
    → data_is_rtp payload ≡ some true
    → data_is_rtcp payload ≡ some true
    → byte payload 1 ≡ some 192
unfolding data_is_rtp data_is_rtcp byte
data_is_rtp-data_is_rtcp [] bytes r c = cc
data_is_rtp-data_is_rtcp (x ∷ []) bytes r c = cc
data_is_rtp-data_is_rtcp (x ∷ y ∷ l) bytes r c = elim (Bool-cases (leb 4 (length (x ∷ y ∷ l)))) [
  | inl long ↦
      let r' : rtp_bytes (length (x ∷ y ∷ l)) x y ≡ true = cc in
      let c0 : some (rtcp_bytes (length (x ∷ y ∷ l)) x y) ≡ some true =
        sym (ap (λ b. if b then some (rtcp_bytes (length (x ∷ y ∷ l)) x y) else some false) long)
        ∙ c in
      let c' : rtcp_bytes (length (x ∷ y ∷ l)) x y ≡ true = cc in
      ap some (rtp_bytes-rtcp_bytes (length (x ∷ y ∷ l)) x y bytes.1.0 r' c')
  | inr short ↦
      let c0 : some false ≡ some true =
        sym (ap (λ b. if b then some (rtcp_bytes (length (x ∷ y ∷ l)) x y) else some false) short)
        ∙ c in
      cc
]
