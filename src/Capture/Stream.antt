-- ===== src/Capture/Stream.antt =====
-- src/capture.c, `capture_packet_reasm_tcp`: one segment that comes in its order.
use sngrep.Common.{
  ℕ, ◌+◌, ◌<◌, ◌≡◌, refl, sym, ◌∙◌, ap, true, false, Option, none, some, List, [], ◌∷◌, ◌++◌, ◌==◌,
  ltb, lt→ltb, le→ltb, ◌>>=◌, length, length-append, arith, Option-cases, inl, inr, subst,
}
use sngrep.Packet.{Packet, Frame, add_frames, packet_set_payload}
use sngrep.Capture.Sizes.{max_capture_len}
use sngrep.Capture.Validate.{Regex, max_sip_payload}
use sngrep.Capture.Verdict.{BodyBounds, ShortLength, sip_validate_packet-Outcome}
use sngrep.Capture.Tcp.{
  TcpHdr, find_conn, drop_conn, collect, first_seq, join_segment, dispatch, deliver,
  capture_packet_reasm_tcp,
}
use sngrep.Capture.Conn.{Peers, Unique, find_conn-Peers}
use sngrep.Capture.Held.{
  Held, length-add_frames, add_frames_keeps, Delivered, Ready, dispatch-Delivered,
}

-- A captured packet with one segment: one frame, and no sequence number yet.
pub record Fresh (packet : Packet) : Type 0 where
  pub one_frame : length packet.frames ≡ 1
  pub no_seq : packet.tcp_seq ≡ 0

-- The segment is joined behind what waits.
Joined : List ℕ → ℕ → Packet → Option Packet → Type 0
Joined bytes seq packet joined =
    (q : Packet) × (joined ≡ some (packet_set_payload q (some bytes)))
    × Ready bytes seq packet (packet_set_payload q (some bytes))

join_segment_first :
    (th_seq : ℕ) (packet : Packet) (segment : List ℕ)
    → Fresh packet
    → 0 < th_seq
    → Joined segment th_seq packet (join_segment (first_seq packet th_seq) th_seq segment)
unfolding Joined join_segment first_seq Ready packet_set_payload Peers
join_segment_first th_seq packet segment fresh pos =
    let zero_seq : (packet.tcp_seq == 0) ≡ true = let e = fresh.no_seq in ground arith in
    let one : (length packet.frames == 1) ≡ true = let e = fresh.one_frame in ground arith in
    let q : Packet = record packet { tcp_seq = th_seq } in
    rw (zero_seq, one)
      (
        q,
        refl,
        ((refl, refl, let e = fresh.one_frame in omega arith, pos, omega arith), (refl, refl)),
      )

join_segment_next :
    (old : List ℕ) (seq th_seq : ℕ) (q packet : Packet) (segment : List ℕ)
    → Fresh packet
    → Ready old seq packet q
    → seq < th_seq
    → length (old ++ segment) < max_sip_payload
    → Joined
        (old ++ segment)
        th_seq
        packet
        (join_segment (first_seq (add_frames q packet.frames) th_seq) th_seq segment)
unfolding Joined join_segment first_seq Ready packet_set_payload Peers
join_segment_next old seq th_seq q packet segment fresh h later small =
    let more = length-add_frames packet.frames q in
    let fs : List Frame = (add_frames q packet.frames).frames in
    let kept : add_frames q packet.frames ≡ record q { frames = fs } =
      add_frames_keeps packet.frames q in
    let one = fresh.one_frame in
    let many : (length fs == 1) ≡ false = let l = h.0.2 in ground (arith, more, one) in
    let seen : (q.tcp_seq == 0) ≡ false = let l = h.0.3 in ground arith in
    let fits : ltb max_capture_len (q.payload_len + length segment) ≡ false =
      le→ltb _ _ (omega (arith, h.0.1, length-append old segment, small)) in
    let order : ltb q.tcp_seq th_seq ≡ true = lt→ltb _ _ (omega (arith, h.0.4, later)) in
    (
      record q { frames = fs; tcp_seq = th_seq },
      subst
          (λ (p : Packet).
            join_segment (first_seq p th_seq) th_seq segment
            ≡ some (
                packet_set_payload (record q { frames = fs; tcp_seq = th_seq })
                  (some (old ++ segment))))
          (sym kept) (rw (seen, many, fits, order, h.0.0) refl),
      ((refl, refl, omega (arith, more, one), omega (arith, later), omega arith), h.1),
    )

join_segment-Joined :
    (old : List ℕ) (seq th_seq : ℕ) (r : List Packet) (packet : Packet) (segment : List ℕ)
    → Held old seq (find_conn r packet)
    → Fresh packet
    → seq < th_seq
    → length (old ++ segment) < max_sip_payload
    → Joined
        (old ++ segment)
        th_seq
        packet
        (join_segment (first_seq (collect r packet) th_seq) th_seq segment)
unfolding collect Ready
join_segment-Joined old seq th_seq r packet segment held fresh later small =
    elim (Option-cases (find_conn r packet)) [
      | inl e ↦
          let empty : old ≡ [] = subst (λ o. Held old seq o) e held in
          rw (e, collect, empty)
            (join_segment_first th_seq packet segment fresh (omega (arith, later)))
      | inr (q, e) ↦
          let h : Held old seq (some q) = subst (λ o. Held old seq o) e held in
          rw (e, collect)
            (join_segment_next old seq th_seq q packet segment fresh
              (h, find_conn-Peers r packet q e) later small)
    ]

module _ (regex : Regex) where
  deliver-Delivered :
      (bytes : List ℕ) (seq : ℕ) (packet : Packet) (r : List Packet) (tcp : TcpHdr) (q : Packet)
      → Unique r
      → Ready bytes seq packet (packet_set_payload q (some bytes))
      → length bytes < max_sip_payload
      → BodyBounds regex bytes
      → ShortLength regex bytes
      → (res : Option Packet × List Packet) × (deliver regex r tcp
            (packet_set_payload q (some bytes))
          ≡ some res)
        × Delivered bytes seq packet res
  unfolding deliver packet_set_payload
  deliver-Delivered bytes seq packet r tcp q u h small bounds short =
      let ((v, w), run, o) = sip_validate_packet-Outcome regex bytes q small bounds short in
      (
        dispatch r tcp bytes (v, w),
        rw (le→ltb max_capture_len (length bytes) (omega arith))
            (ap (λ o. o >>= λ checked. some (dispatch r tcp bytes checked)) run),
        dispatch-Delivered bytes seq packet r tcp (packet_set_payload q (some bytes)) u h
            (omega arith) v w o,
      )

  -- Segments of a connection that come in order: what `capture_packet_reasm_tcp` returns and what
  -- still waits are together the bytes that waited and those of the segment.
  pub capture_packet_reasm_tcp-Delivered :
      (old : List ℕ) (seq : ℕ) (r : List Packet) (packet : Packet) (tcp : TcpHdr) (b : ℕ)
      (bytes : List ℕ)
      → Unique r
      → Held old seq (find_conn r packet)
      → Fresh packet
      → seq < tcp.th_seq
      → length (old ++ b ∷ bytes) < max_sip_payload
      → BodyBounds regex (old ++ b ∷ bytes)
      → ShortLength regex (old ++ b ∷ bytes)
      → (res : Option Packet × List Packet) × (capture_packet_reasm_tcp regex r packet tcp
            (b ∷ bytes)
          ≡ some res)
        × Delivered (old ++ b ∷ bytes) tcp.th_seq packet res
  unfolding capture_packet_reasm_tcp collect Joined
  capture_packet_reasm_tcp-Delivered old seq r packet tcp b bytes u held fresh later small bounds
        short =
      let segment : List ℕ = b ∷ bytes in
      let (q, joined, ready) =
        join_segment-Joined old seq tcp.th_seq r packet segment held fresh later small in
      let (res, run, done) =
        deliver-Delivered (old ++ segment) tcp.th_seq packet r tcp q u ready small bounds short in
      (
        res,
        ap
              (λ (o : Option Packet). elim o as (λ _. Option (Option Packet × List Packet)) [
                | none ↦ some (none, drop_conn r packet)
                | some pkt ↦ deliver regex r tcp pkt
              ])
              joined
            ∙ run,
        done,
      )
