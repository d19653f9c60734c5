-- ===== src/Capture/Ip/Loops.antt =====
-- src/capture.c, `capture_packet_reasm_ip`: when the loops over headers end.
use sngrep.Common.{
  Returns, bind-Returns, ℕ, zero, suc, ◌+◌, ◌*◌, ◌%◌, ◌≤◌, ◌<◌, ◌≡◌, ◌≢◌, refl, sym, ◌∙◌, ap, subst,
  Bool, true, false, Option, none, some, List, ◌==◌, ltb, leb, le→ltb, if◌then◌else◌, ◌>>=◌, length,
  get_elem?, arith, Bool-cases, Option-cases, inl, inr, ==_iff,
}
use sngrep.Capture.Sizes.{max_capture_len}
use sngrep.Capture.Ip.Header.{
  Ip4, ip4_fields, ip4_at, be16, le16, sub_u32, Loop, starved, fault, done, Found, skip_nflog,
  nfula_payload, ip_headers, ip_header_size, ipproto_ipip,
}

-- A header that is read lies in the buffer, and has at most 60 bytes.
ip4_at-Returns :
    (packet : List ℕ) (at : ℕ)
    → Returns (λ h. (h.ip_hl ≤ 60) × (at + 20 ≤ length packet)) (ip4_at packet at)
unfolding ip4_at
ip4_at-Returns packet at =
    bind-Returns P (get_elem? packet at) (λ first. with_len first)
      λ first.
        bind-Returns P (be16 packet (at + 2)) (λ len. with_id first len)
          λ len.
            bind-Returns P (be16 packet (at + 4)) (λ id. with_off first len id)
              λ id.
                bind-Returns P (be16 packet (at + 6)) (λ off. with_p first len id off)
                  λ off.
                    bind-Returns P (get_elem? packet (at + 9)) (λ p. checked first len id off p)
                      λ p.
                        guarded (leb (at + 20) (length packet))
                          (ip4_fields packet at first len id off p) (λ t. (hl first, ground arith))
  where
    P : Ip4 → Type 0
    P h = (h.ip_hl ≤ 60) × (at + 20 ≤ length packet)

    checked : ℕ → ℕ → ℕ → ℕ → ℕ → Option Ip4
    checked first len id off p =
        if leb (at + 20) (length packet)
        then some (ip4_fields packet at first len id off p)
        else none

    with_p : ℕ → ℕ → ℕ → ℕ → Option Ip4
    with_p first len id off = get_elem? packet (at + 9) >>= λ p. checked first len id off p

    with_off : ℕ → ℕ → ℕ → Option Ip4
    with_off first len id = be16 packet (at + 6) >>= λ off. with_p first len id off

    with_id : ℕ → ℕ → Option Ip4
    with_id first len = be16 packet (at + 4) >>= λ id. with_off first len id

    with_len : ℕ → Option Ip4
    with_len first = be16 packet (at + 2) >>= λ len. with_id first len

    hl : (first : ℕ) → first % 16 * 4 ≤ 60
    hl first = omega arith

    guarded : (b : Bool) (h : Ip4) → (b ≡ true → P h) → Returns P (if b then some h else none)
    guarded true h p = p refl
    guarded false h p = tt

ip4_at_bounds :
    (packet : List ℕ) (at : ℕ) (h : Ip4)
    → ip4_at packet at ≡ some h
    → (h.ip_hl ≤ 60) × (at + 20 ≤ length packet)
ip4_at_bounds packet at h e =
    subst (λ o. Returns (λ h. (h.ip_hl ≤ 60) × (at + 20 ≤ length packet)) o) e
      (ip4_at-Returns packet at)

-- The places where the loop over IP headers may read one: behind a header stands the next.
pub data Reach (packet : List ℕ) : ℕ → ℕ → Type 0 where
  here : (at : ℕ) → Reach packet at at
  inner :
      (at to : ℕ) (h : Ip4)
      → ip4_at packet at ≡ some h
      → Reach packet ((at + h.ip_hl) % 65536) to
      → Reach packet at to

-- The loop of `capture_packet_reasm_ip` over IP headers ends, by a result or a fault, if each
-- header that it reads has at least 20 bytes, the buffer has at most MAX_CAPTURE_LEN, the loop
-- starts at most 40 bytes behind its end, and it has a round for each 20 bytes of the buffer and
-- three more.
pub ip_headers_ends :
    (fuel : ℕ) (packet : List ℕ) (link_hl size : ℕ) (before : Option Found)
    → ((at : ℕ) (h : Ip4) → Reach packet link_hl at → ip4_at packet at ≡ some h → 20 ≤ h.ip_hl)
    → length packet ≤ max_capture_len
    → link_hl ≤ length packet + 40
    → length packet + 60 < link_hl + 20 * fuel
    → ip_headers fuel packet link_hl size before ≢ starved
unfolding ip_headers
ip_headers_ends zero packet link_hl size before full small low enough = omega arith
ip_headers_ends (suc fuel) packet link_hl size before full small low enough =
    elim (Bool-cases (ltb size ip_header_size)) [
      | inl t ↦ rw (t, ip_headers) (ended before)
      | inr f ↦
          rw (f, ip_headers)
            (elim (Option-cases (ip4_at packet link_hl)) [
              | inl n ↦ rw n (λ e. cc)
              | inr (h, e) ↦
                  let (high, inside) = ip4_at_bounds packet link_hl h e in
                  let long = full link_hl h (here link_hl) e in
                  rw e (elim (Bool-cases (h.ip_v == 4)) [
                    | inr g ↦ rw g (λ e. cc)
                    | inl v ↦ elim (Bool-cases (h.ip_p == ipproto_ipip)) [
                      | inr g ↦ rw (v, g) (λ e. cc)
                      | inl p ↦
                          rw (v, p)
                            (ip_headers_ends fuel packet ((link_hl + h.ip_hl) % 65536) _ _
                              (λ at g r e'. full at g (inner link_hl at h e r) e') small
                              (omega arith) (omega arith))
                    ]
                  ])
            ])
    ]
  where
    ended :
        (before : Option Found)
        → elim before as (λ _. Loop (Option Found)) [
          | none ↦ fault
          | some found ↦ done (some found)
        ]
          ≢ starved
    ended none e = cc
    ended (some found) e = cc

sub_u32_zero : (n : ℕ) → n < 65536 → sub_u32 n 0 ≡ n
sub_u32_zero n h = omega arith

-- If the IPv4 header at a place below 2^16 gives itself no bytes, its protocol as IP in IP and its
-- length as at least 20 and below 2^16, then the loop of `capture_packet_reasm_ip` over IP headers
-- that is there with a size of at least 20 is not at its end after any number of rounds.
pub ip_headers_endless :
    (packet : List ℕ) (link_hl : ℕ) (h : Ip4)
    → ip4_at packet link_hl ≡ some h
    → h.ip_v ≡ 4
    → h.ip_hl ≡ 0
    → h.ip_p ≡ ipproto_ipip
    → ip_header_size ≤ h.ip_len
    → h.ip_len < 65536
    → link_hl < 65536
    → (fuel size : ℕ) (before : Option Found) → ip_header_size ≤ size
    → ip_headers fuel packet link_hl size before ≡ starved
unfolding ip_headers
ip_headers_endless packet link_hl h e v hl p long short low zero size before enough = refl
ip_headers_endless packet link_hl h e v hl p long short low (suc fuel) size before enough =
    let stays : (link_hl + h.ip_hl) % 65536 ≡ link_hl = omega (arith, hl) in
    let size_eq : sub_u32 h.ip_len h.ip_hl ≡ h.ip_len =
      ap (λ (n : ℕ). sub_u32 h.ip_len n) hl ∙ sub_u32_zero h.ip_len short in
    let version : (h.ip_v == 4) ≡ true = (==_iff h.ip_v 4).1 v in
    let ipip : (h.ip_p == ipproto_ipip) ≡ true = (==_iff h.ip_p ipproto_ipip).1 p in
    let read : Option Found = some (record {
      ip4 = h;
      link_hl = (link_hl + h.ip_hl) % 65536;
      size = sub_u32 h.ip_len h.ip_hl;
      caplen = link_hl + h.ip_len;
    }) in
    rw (le→ltb size ip_header_size enough, ip_headers, e, version, ipip)
      (subst (λ (at : ℕ). ip_headers fuel packet at (sub_u32 h.ip_len h.ip_hl) read ≡ starved)
        (sym stays)
        (ip_headers_endless packet link_hl h e v hl p long short low fuel _ _
          (subst (λ (n : ℕ). ip_header_size ≤ n) (sym size_eq) long)))

-- The same of the NFLOG loop: a TLV header that gives a length below its own is not passed.
pub skip_nflog_endless :
    (packet : List ℕ) (caplen link_hl len type : ℕ)
    → le16 packet link_hl ≡ some len
    → le16 packet (link_hl + 2) ≡ some type
    → len < 4
    → type ≢ nfula_payload
    → link_hl + 8 ≤ caplen
    → (fuel : ℕ) → skip_nflog fuel packet caplen link_hl ≡ starved
unfolding skip_nflog
skip_nflog_endless packet caplen link_hl len type el et short other inside zero = refl
skip_nflog_endless packet caplen link_hl len type el et short other inside (suc fuel) =
    let t : (type == nfula_payload) ≡ false = ground arith in
    let s : leb 4 len ≡ false = ground arith in
    rw (le→ltb caplen (link_hl + 8) inside, skip_nflog, el, et, t, s)
      (skip_nflog_endless packet caplen link_hl len type el et short other inside fuel)
