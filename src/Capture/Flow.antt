-- ===== src/Capture/Flow.antt =====
-- src/capture.c, `capture_packet_reasm_tcp` called for one segment after another.
use sngrep.Common.{
  ℕ, ◌+◌, ◌<◌, ◌≡◌, refl, sym, ◌∙◌, ap, subst, Option, some, List, [], ◌∷◌, ◌++◌, ◌>>=◌, length,
  length-append, arith,
}
use mathlib.Core.List.{append_assoc, append-nil}
use sngrep.Packet.{Packet}
use sngrep.Capture.Validate.{Regex, max_sip_payload}
use sngrep.Capture.Verdict.{BodyBounds, ShortLength}
use sngrep.Capture.Tcp.{TcpHdr, find_conn, capture_packet_reasm_tcp}
use sngrep.Capture.Conn.{Peers, Unique, find_conn_right}
use sngrep.Capture.Stream.{Fresh, capture_packet_reasm_tcp-Delivered}
use sngrep.Capture.Held.{bytes_of, bytes_of-Held, Held, Delivered}

-- A captured segment: its packet, its header, and its bytes, of which there is at least one.
pub record Segment : Type 0 where
  pub packet : Packet
  pub tcp : TcpHdr
  pub head : ℕ
  pub tail : List ℕ

unfoldable pub segment_bytes : Segment → List ℕ
segment_bytes s = s.head ∷ s.tail

-- All the bytes that were sent.
unfoldable pub sent : List Segment → List ℕ
unfolding segment_bytes
sent [] = []
sent (s ∷ segments) = segment_bytes s ++ sent segments

-- One segment after another: the bytes of the packets that are returned, and what waits in the end.
unfoldable pub reasm_all : Regex → List Packet → List Segment → Option (List ℕ × List Packet)
unfolding capture_packet_reasm_tcp bytes_of
reasm_all regex r [] = some ([], r)
reasm_all regex r (s ∷ segments) =
    capture_packet_reasm_tcp regex r s.packet s.tcp (s.head ∷ s.tail) >>= λ res.
    reasm_all regex res.1 segments >>= λ rest. some (bytes_of res.0 ++ rest.0, rest.1)

-- Segments of the connection of `p`, each with a higher sequence number than the one before.
abbrev pub InOrder : Packet → ℕ → List Segment → Type 0
InOrder p seq [] = Unit
InOrder p seq (s ∷ segments) =
    Peers s.packet p × Fresh s.packet × (seq < s.tcp.th_seq) × InOrder p s.tcp.th_seq segments

-- Of each part of the bytes, what regexec documents, and a Content-Length that fits.
unfoldable pub Clean : Regex → List ℕ → Type 0
Clean regex bytes =
    (a b c : List ℕ) → a ++ (b ++ c) ≡ bytes → BodyBounds regex b × ShortLength regex b

Clean-suffix :
    (regex : Regex) (a bytes whole : List ℕ)
    → a ++ bytes ≡ whole
    → Clean regex whole
    → Clean regex bytes
unfolding Clean
Clean-suffix regex a bytes whole e clean x b y h =
    clean (a ++ x) b y (append_assoc a x (b ++ y) ∙ ap (λ t. a ++ t) h ∙ e)

module _ (regex : Regex) where
  -- Let segments of one connection come one after another with rising sequence numbers, each of at
  -- least one byte and in a packet of one frame that has no sequence number yet, let at most one
  -- packet wait for each connection, and let all the bytes be fewer than MAX_SIP_PAYLOAD, and each
  -- part of them have a Content-Length of at most 9 digits, if any, and a body as regexec
  -- documents it. Then `capture_packet_reasm_tcp` returns for each, and the payloads that it
  -- returned, in order, with what waits at the end are what waited before and the segments, byte
  -- for byte.
  pub reasm_all_lem :
      (segments : List Segment) (old : List ℕ) (seq : ℕ) (r : List Packet) (p : Packet)
      → Unique r
      → Held old seq (find_conn r p)
      → InOrder p seq segments
      → length (old ++ sent segments) < max_sip_payload
      → Clean regex (old ++ sent segments)
      → (out : List ℕ) × (r' : List Packet) × (rest : List ℕ) × (reasm_all regex r segments
          ≡ some (out, r'))
        × Unique r'
        × (bytes_of (find_conn r' p) ≡ rest)
        × (out ++ rest ≡ old ++ sent segments)
  unfolding reasm_all sent Clean Delivered
  reasm_all_lem [] old seq r p u held order small clean =
      ([], r, old, refl, u, bytes_of-Held old seq (find_conn r p) held, sym (append-nil old))
  reasm_all_lem (s ∷ segments) old seq r p u held (peers, fresh, later, order) small clean =
      let joined : List ℕ = old ++ s.head ∷ s.tail in
      let split : joined ++ sent segments ≡ old ++ (s.head ∷ s.tail ++ sent segments) =
        append_assoc old (s.head ∷ s.tail) (sent segments) in
      let lens = length-append joined (sent segments) in
      let fit : length joined + length (sent segments) < max_sip_payload =
        subst (λ (n : ℕ). n < max_sip_payload) (ap length (sym split) ∙ lens) small in
      let ok = clean [] joined (sent segments) split in
      let ((got, r1), run, done) =
        capture_packet_reasm_tcp-Delivered regex old seq r s.packet s.tcp s.head s.tail u
          (subst (λ o. Held old seq o) (sym (find_conn_right r s.packet p peers)) held) fresh later
          (omega (arith, fit)) ok.0 ok.1 in
      let (u1, (rest, held1, e1)) = done in
      let whole : bytes_of got ++ (rest ++ sent segments)
          ≡ old ++ (s.head ∷ s.tail ++ sent segments) =
        sym (append_assoc (bytes_of got) rest (sent segments))
        ∙ ap (λ t. t ++ sent segments) e1
        ∙ split in
      let lens' = length-append (bytes_of got) (rest ++ sent segments) in
      let fit' : length (bytes_of got) + length (rest ++ sent segments) < max_sip_payload =
        subst (λ (n : ℕ). n < max_sip_payload) (ap length (sym whole) ∙ lens') small in
      let (out, r', last, run', u', held', e') =
        reasm_all_lem segments rest s.tcp.th_seq r1 p u1
          (subst (λ o. Held rest s.tcp.th_seq o) (find_conn_right r1 s.packet p peers) held1) order
          (omega (arith, fit')) (Clean-suffix regex (bytes_of got) _ _ whole clean) in
      (
        bytes_of got ++ out,
        r',
        last,
        ap
              (λ o. o >>= λ (res : Option Packet × List Packet).
                reasm_all regex res.1 segments >>= λ rest. some (bytes_of res.0 ++ rest.0, rest.1))
              run
            ∙ ap (λ o. o >>= λ (rest : List ℕ × List Packet). some (bytes_of got ++ rest.0, rest.1))
                run',
        u',
        held',
        append_assoc (bytes_of got) out last ∙ ap (λ t. bytes_of got ++ t) e' ∙ whole,
      )
