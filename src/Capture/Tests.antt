-- ===== src/Capture/Tests.antt =====
-- Runs of the capture of packets, and examples.
use sngrep.Common.{
  replicate, Returns, ℕ, ◌≤◌, ◌<◌, ◌≡◌, refl, true, false, Option, none, some, List, [], ◌∷◌, ◌++◌,
  leb, length, subst, if◌then◌else◌, Bool-cases, inl, inr, arith,
}
use sngrep.Address.{Address}
use sngrep.Packet.{
  Packet, Frame, packet_create, packet_add_frame, packet_set_payload, packet_set_type,
}
use sngrep.Capture.Ip.{done, en10mb}
use sngrep.Capture.Ws.{ws_type, capture_ws_check_packet}
use sngrep.Capture.WsFrame.{len16, masked, ws_frame, capture_ws_check_packet-ws_frame}
use sngrep.Capture.Frame.{ignored, packet_of_frame}
use sngrep.Capture.Udp.{received, packet_of_frame-frame_bytes}
use sngrep.Capture.Sent.{Sent, frame_bytes}
use sngrep.Capture.Validate.{Regex}
use sngrep.Capture.Verdict.{BodyBounds, ShortLength}
use sngrep.Capture.Tcp.{find_conn, capture_packet_reasm_tcp}
use sngrep.Capture.Conn.{Peers, Unique}
use sngrep.Capture.Held.{bytes_of, Held}
use sngrep.Capture.Flow.{Segment, Clean, sent, reasm_all, reasm_all_lem}
use sngrep.Capture.Isolated.{Isolated, capture_packet_reasm_tcp-Isolated}

-- Every text is a message with a body of two bytes, whose header is the first four bytes.
abbrev two_bytes : Regex
two_bytes = record {
  valid = λ bytes. true;
  content_length = λ bytes. some (50 ∷ []);
  body = λ bytes. if leb 4 (length bytes) then some (4, length bytes) else none;
  atoi = λ digits. 2;
}

abbrev client : Address
client = record { ip = 49 ∷ []; port = 40000 }

abbrev server : Address
server = record { ip = 50 ∷ []; port = 5060 }

abbrev other : Address
other = record { ip = 51 ∷ []; port = 40000 }

abbrev frame : Frame
frame = record { time = record { tv_sec = 1; tv_usec = 0 }; bytes = some [] }

abbrev packet_of : Address → Packet
packet_of src = packet_add_frame (packet_create 4 6 src server 1) frame

abbrev one : Segment
one = record {
  packet = packet_of client;
  tcp = record { th_seq = 100; push = false };
  head = 1;
  tail = 2 ∷ 3 ∷ 4 ∷ 13 ∷ [];
}

abbrev two : Segment
two = record {
  packet = packet_of client;
  tcp = record { th_seq = 105; push = true };
  head = 10;
  tail = 9 ∷ [];
}

two_bytes-BodyBounds : (bytes : List ℕ) → BodyBounds two_bytes bytes
unfolding BodyBounds
two_bytes-BodyBounds bytes b e = elim (Bool-cases (leb 4 (length bytes))) [
  | inl t ↦
      let found : some (4, length bytes) ≡ some b = rw t at e in
      let same : (4, length bytes) ≡ b = cc in
      subst (λ (b : ℕ × ℕ). (4 ≤ b.0) × (b.0 ≤ b.1) × (b.1 ≤ length bytes)) same (ground arith)
  | inr f ↦ let impossible : none ≡ some b = rw f at e in cc
]

two_bytes-ShortLength : (bytes : List ℕ) → ShortLength two_bytes bytes
unfolding ShortLength
two_bytes-ShortLength bytes digits e =
    let same : 50 ∷ [] ≡ digits = cc in subst (λ (d : List ℕ). length d < 10) same (omega arith)

abbrev map_bytes : Option (List ℕ × List Packet) → Option (List ℕ)
map_bytes none = none
map_bytes (some r) = some r.0

-- The first segment ends inside the body; the second one ends it and begins another message.
reasm_two :
    map_bytes (reasm_all two_bytes [] (one ∷ two ∷ [])) ≡ some (1 ∷ 2 ∷ 3 ∷ 4 ∷ 13 ∷ 10 ∷ [])
unfolding reasm_all
reasm_two = refl

reasm_all_lem_example :
    (out : List ℕ) × (r' : List Packet) × (rest : List ℕ) × (reasm_all two_bytes [] (one ∷ two ∷ [])
      ≡ some (out, r'))
    × Unique r'
    × (bytes_of (find_conn r' one.packet) ≡ rest)
    × (out ++ rest ≡ 1 ∷ 2 ∷ 3 ∷ 4 ∷ 13 ∷ 10 ∷ 9 ∷ [])
unfolding Peers Held sent Clean find_conn packet_add_frame packet_create
reasm_all_lem_example =
    reasm_all_lem two_bytes (one ∷ two ∷ []) [] 0 [] one.packet tt refl
      (
        (refl, refl),
        record { one_frame = refl; no_seq = refl },
        omega arith,
        ((refl, refl), record { one_frame = refl; no_seq = refl }, omega arith, tt),
      )
      (omega arith) (λ a b c e. (two_bytes-BodyBounds b, two_bytes-ShortLength b))

capture_packet_reasm_tcp-Isolated_example :
    Returns (Isolated (packet_of other ∷ []) (packet_of client)) (
      capture_packet_reasm_tcp two_bytes
        (packet_of other ∷ [])
        (packet_of client)
        one.tcp
        (1 ∷ 2 ∷ []))
unfolding find_conn
capture_packet_reasm_tcp-Isolated_example =
    capture_packet_reasm_tcp-Isolated (packet_of other ∷ []) (packet_of client) (refl, tt) two_bytes
      one.tcp (1 ∷ 2 ∷ [])

-- A masked text of three bytes.
capture_ws_check_packet-ws_frame_example :
    capture_ws_check_packet (
      packet_set_payload
        (packet_of client)
        (some (ws_frame 8 (len16 0 3) (masked 1 2 3 4) (83 ∷ 73 ∷ 80 ∷ []))))
    ≡ some (
      true,
      packet_set_type
          (packet_set_payload (packet_of client) (some (83 ∷ 73 ∷ 80 ∷ [])))
          (ws_type (packet_of client).type),
    )
capture_ws_check_packet-ws_frame_example =
    capture_ws_check_packet-ws_frame (packet_of client) 8 (len16 0 3) (masked 1 2 3 4)
      (83 ∷ 73 ∷ 80 ∷ []) (omega arith, omega arith, omega arith, omega arith)
      (omega arith, (omega arith, (omega arith, tt))) (omega arith)

abbrev tagged : Sent
tagged = record {
  macs = replicate 12 0;
  vlan = some (0, 5);
  id = 77;
  src = record { b0 = 10; b1 = 0; b2 = 0; b3 = 1 };
  sport = 5060;
  dst = record { b0 = 10; b1 = 0; b2 = 0; b3 = 2 };
  dport = 5061;
  payload = 83 ∷ 73 ∷ 80 ∷ [];
}

packet_of_frame-frame_bytes_example :
    packet_of_frame two_bytes
      (λ bytes. bytes)
      1
      (record { paused = false; limit = 0; rotate = false })
      0
      (record { link = en10mb; link_hl = 14; ip_reasm = []; tcp_reasm = [] })
      (record {
        time = record { tv_sec = 1; tv_usec = 0 };
        bytes = frame_bytes tagged;
        behind = 9 ∷ [];
      })
    ≡ done (
      some (
          received tagged
            (λ bytes. bytes)
            (record {
              time = record { tv_sec = 1; tv_usec = 0 };
              bytes = some (frame_bytes tagged);
            })),
      record { link = en10mb; link_hl = 14; ip_reasm = []; tcp_reasm = [] },
    )
unfolding ignored frame_bytes
packet_of_frame-frame_bytes_example =
    packet_of_frame-frame_bytes two_bytes (λ bytes. bytes) 0
      (record { paused = false; limit = 0; rotate = false }) 0 [] [] tagged
      (record { tv_sec = 1; tv_usec = 0 }) (9 ∷ []) refl refl (omega arith)
