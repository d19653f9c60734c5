-- ===== src/Capture/Held.antt =====
-- src/capture.c, `capture_packet_reasm_tcp`: what waits for a connection after a packet is returned,
-- split or kept.
use sngrep.Common.{
  ℕ, zero, suc, ◌+◌, ◌-◌, ◌≤◌, ◌<◌, ◌≡◌, refl, sym, ◌∙◌, ap, Option, none, some, List, [], ◌∷◌,
  ◌++◌, lt→ltb, length, take, drop, length-append, length-take, arith, Bool-cases, inl, inr, subst,
}
use mathlib.Core.List.{append-nil}
use sngrep.Packet.{
  Packet, Frame, add_frames, packet_add_frame, packet_clone, packet_create, packet_set_payload,
}
use sngrep.Capture.Sizes.{max_capture_len}
use sngrep.Capture.Validate.{Verdict, not_sip, partial_sip, complete_sip, multiple_sip}
use sngrep.Capture.Verdict.{Outcome}
use sngrep.Capture.Tcp.{TcpHdr, find_conn, put_conn, drop_conn, keep_rest, dispatch}
use sngrep.Capture.Conn.{
  Peers, Unique, find_conn_right, find_conn-put_conn, find_conn-drop_conn, find_conn-append,
  put_conn-Unique, drop_conn-Unique, append-Unique,
}

-- The payload of a packet; no packet has none.
unfoldable pub bytes_of : Option Packet → List ℕ
bytes_of none = []
bytes_of (some p) = elim p.payload [ none ↦ [] | some bytes ↦ bytes ]

-- What waits for a connection: these bytes, of segments up to this sequence number.
unfoldable pub Held : List ℕ → ℕ → Option Packet → Type 0
Held bytes seq none = bytes ≡ []
Held bytes seq (some q) =
    (q.payload ≡ some bytes)
    × (q.payload_len ≡ length bytes)
    × (0 < length q.frames)
    × (0 < q.tcp_seq)
    × (q.tcp_seq ≤ seq)

pub bytes_of-Held :
    (bytes : List ℕ) (seq : ℕ) (o : Option Packet) → Held bytes seq o → bytes_of o ≡ bytes
unfolding bytes_of Held
bytes_of-Held bytes seq none h = sym h
bytes_of-Held bytes seq (some q) h =
    ap (λ o. elim o as (λ _. List ℕ) [ none ↦ [] | some b ↦ b ]) h.0

pub length-add_frames :
    (fs : List Frame) (p : Packet) → length (add_frames p fs).frames ≡ length p.frames + length fs
unfolding add_frames packet_add_frame
length-add_frames [] p = omega arith
length-add_frames (f ∷ fs) p =
    omega (arith, length-add_frames fs (packet_add_frame p f), length-append p.frames (f ∷ []))

-- Frames leave everything else of the packet.
pub add_frames_keeps :
    (fs : List Frame) (p : Packet)
    → add_frames p fs ≡ record p { frames = (add_frames p fs).frames }
unfolding add_frames packet_add_frame
add_frames_keeps [] p = refl
add_frames_keeps (f ∷ fs) p = add_frames_keeps fs (packet_add_frame p f)

pub packet_clone-frames : (p : Packet) → length (packet_clone p).frames ≡ length p.frames
unfolding packet_clone packet_create
packet_clone-frames p = length-add_frames p.frames _ ∙ omega arith

pub packet_clone_keeps :
    (p : Packet) → Peers (packet_clone p) p × ((packet_clone p).tcp_seq ≡ p.tcp_seq)
unfolding packet_clone packet_create Peers
packet_clone_keeps p =
    let e = add_frames_keeps p.frames _ in
    ((ap (λ (q : Packet). q.src) e, ap (λ (q : Packet). q.dst) e), ap (λ (q : Packet). q.tcp_seq) e)

pub take-drop : (n : ℕ) (xs : List ℕ) → take n xs ++ drop n xs ≡ xs
take-drop zero xs = refl
take-drop (suc n) [] = refl
take-drop (suc n) (x ∷ xs) = ap (λ r. x ∷ r) (take-drop n xs)

-- What one segment does to the bytes of its connection.
unfoldable pub Delivered : List ℕ → ℕ → Packet → Option Packet × List Packet → Type 0
unfolding bytes_of Held
Delivered bytes seq packet (out, r) =
    Unique r
    × ((rest : List ℕ) × Held rest seq (find_conn r packet) × (bytes_of out ++ rest ≡ bytes))

pub length-take_lt : (n : ℕ) (xs : List ℕ) → n < length xs → length (take n xs) ≡ n
length-take_lt n xs h = omega (arith, length-take n xs)

-- A packet that may wait for its connection.
unfoldable pub Ready : List ℕ → ℕ → Packet → Packet → Type 0
unfolding Held
Ready bytes seq packet q = Held bytes seq (some q) × Peers q packet

pub put-Delivered :
    (bytes : List ℕ) (seq : ℕ) (packet : Packet) (r : List Packet) (q : Packet)
    → Unique r
    → Ready bytes seq packet q
    → Delivered bytes seq packet (none, put_conn r q)
unfolding Delivered Ready
put-Delivered bytes seq packet r q u h =
    (put_conn-Unique r q u, (bytes, rw (find_conn-put_conn r q packet h.1) h.0, refl))

pub drop-Delivered :
    (bytes : List ℕ) (seq : ℕ) (packet : Packet) (r : List Packet) (q : Packet)
    → Unique r
    → Ready bytes seq packet q
    → Delivered bytes seq packet (some q, drop_conn r q)
unfolding Delivered Ready
drop-Delivered bytes seq packet r q u h = (
  drop_conn-Unique r q u,
  (
    [],
    rw (find_conn-drop_conn r q packet u h.1) refl,
    ap (λ o. elim o as (λ _. List ℕ) [ none ↦ [] | some b ↦ b ] ++ []) h.0.0 ∙ append-nil bytes,
  ),
)

-- The clone that keeps the rest of the payload.
unfoldable pub rest_packet : Packet → List ℕ → Packet
unfolding packet_set_payload packet_clone
rest_packet w bytes = packet_set_payload (packet_clone w) (some (drop w.payload_len bytes))

pub keep_rest_part :
    (r : List Packet) (w : Packet) (bytes : List ℕ)
    → 0 < w.payload_len
    → w.payload_len < length bytes
    → length bytes < max_capture_len
    → keep_rest r w bytes ≡ r ++ rest_packet w bytes ∷ []
unfolding keep_rest rest_packet
keep_rest_part r w bytes pos inside small =
    rw
      (
        lt→ltb 0 (length bytes - w.payload_len) (omega arith),
        lt→ltb (length bytes - w.payload_len) max_capture_len (omega arith),
      )
      refl

pub rest_packet-Ready :
    (w packet : Packet) (bytes : List ℕ) (seq : ℕ)
    → Peers w packet
    → 0 < length w.frames
    → 0 < w.tcp_seq
    → w.tcp_seq ≤ seq
    → Ready (drop w.payload_len bytes) seq packet (rest_packet w bytes)
unfolding Ready rest_packet packet_set_payload Peers
rest_packet-Ready w packet bytes seq e f low high =
    let kept = packet_clone_keeps w in
    (
      (
        refl,
        refl,
        omega (arith, packet_clone-frames w),
        subst (λ (v : ℕ). 0 < v) (sym kept.1) low,
        subst (λ (v : ℕ). v ≤ seq) (sym kept.1) high,
      ),
      (kept.0.0 ∙ e.0, kept.0.1 ∙ e.1),
    )

pub split-Delivered :
    (bytes : List ℕ) (seq : ℕ) (packet : Packet) (r : List Packet) (q : Packet) (n : ℕ)
    → Unique r
    → Ready bytes seq packet q
    → 0 < n
    → n < length bytes
    → length bytes < max_capture_len
    → let w = packet_set_payload q (some (take n bytes)) in
      Delivered bytes seq packet (some w, keep_rest (drop_conn r w) w bytes)
unfolding Delivered Ready packet_set_payload Peers
split-Delivered bytes seq packet r q n u h pos inside small =
    let w : Packet = packet_set_payload q (some (take n bytes)) in
    let c : Packet = rest_packet w bytes in
    let cut : w.payload_len ≡ n = length-take_lt n bytes inside in
    let ready : Ready (drop w.payload_len bytes) seq packet c =
      rest_packet-Ready w packet bytes seq h.1 h.0.2 h.0.3 h.0.4 in
    let left : List Packet = drop_conn r w in
    let gone : find_conn left packet ≡ none = find_conn-drop_conn r w packet u h.1 in
    let none_c : find_conn left c ≡ none = find_conn_right left c packet ready.1 ∙ gone in
    subst (λ l. Delivered bytes seq packet (some w, l))
      (sym (keep_rest_part left w bytes (omega arith) (omega arith) small))
      (
        append-Unique left c (drop_conn-Unique r w u) none_c,
        (
          drop w.payload_len bytes,
          rw (find_conn-append left c packet gone ready.1) ready.0,
          ap (λ (k : ℕ). take n bytes ++ drop k bytes) cut ∙ take-drop n bytes,
        ),
      )

pub dispatch-Delivered :
    (bytes : List ℕ) (seq : ℕ) (packet : Packet) (r : List Packet) (tcp : TcpHdr) (q : Packet)
    → Unique r
    → Ready bytes seq packet q
    → length bytes < max_capture_len
    → (v : Verdict) (w : Packet) → Outcome bytes q (v, w)
    → Delivered bytes seq packet (dispatch r tcp bytes (v, w))
unfolding dispatch Outcome
dispatch-Delivered bytes seq packet r tcp q u h small complete_sip w o =
    subst (λ (w : Packet). Delivered bytes seq packet (some w, drop_conn r w)) (sym o)
      (drop-Delivered bytes seq packet r q u h)
dispatch-Delivered bytes seq packet r tcp q u h small multiple_sip w (n, pos, inside, e) =
    subst (λ (w : Packet). Delivered bytes seq packet (some w, keep_rest (drop_conn r w) w bytes))
      (sym e) (split-Delivered bytes seq packet r q n u h pos inside small)
dispatch-Delivered bytes seq packet r tcp q u h small partial_sip w o =
    subst (λ (w : Packet). Delivered bytes seq packet (none, put_conn r w)) (sym o)
      (put-Delivered bytes seq packet r q u h)
dispatch-Delivered bytes seq packet r tcp q u h small not_sip w o =
    subst (λ (w : Packet). Delivered bytes seq packet (dispatch r tcp bytes (not_sip, w))) (sym o)
      (elim (Bool-cases tcp.push) [
        | inl t ↦ rw t (drop-Delivered bytes seq packet r q u h)
        | inr f ↦ rw f (put-Delivered bytes seq packet r q u h)
      ])
