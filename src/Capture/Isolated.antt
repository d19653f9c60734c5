-- ===== src/Capture/Isolated.antt =====
-- src/capture.c, `capture_packet_reasm_tcp`: what a segment does to the packets of all connections.
use sngrep.Common.{
  Returns, if-elim, ℕ, ◌+◌, ◌-◌, ◌≡◌, refl, ◌∙◌, ap, false, Option, none, some, List, [], ◌∷◌, ◌==◌,
  ◌&&◌, ltb, ◌>>=◌, length, drop, Option-cases, inl, inr,
}
use sngrep.Packet.{Packet, packet_clone, packet_set_payload}
use sngrep.Capture.Sizes.{max_capture_len}
use sngrep.Capture.Validate.{
  Verdict, not_sip, partial_sip, complete_sip, multiple_sip, Regex, sip_validate_packet,
}
use sngrep.Capture.Tcp.{
  TcpHdr, same_conn, find_conn, put_conn, drop_conn, collect, first_seq, join_segment, keep_rest,
  dispatch, deliver, capture_packet_reasm_tcp,
}
use sngrep.Capture.Conn.{
  Peers, Unique, same_conn_left, find_conn_right, find_conn-Peers, find_conn-put_conn_other,
  find_conn-drop_conn, find_conn-drop_conn_other, find_conn-append_other, put_conn-Unique,
  drop_conn-Unique, append-Unique,
}
use sngrep.Capture.Kept.{Same, Whole, sip_validate_packet-Whole}
use sngrep.Capture.Held.{packet_clone_keeps, add_frames_keeps}

-- A step for `packet` leaves at most one packet for each connection, and nothing of another
-- connection changes.
unfoldable pub Isolated : List Packet → Packet → Option Packet × List Packet → Type 0
Isolated r packet res =
    Unique res.1 × ((q : Packet) → same_conn packet q ≡ false → find_conn res.1 q ≡ find_conn r q)

module _ (r : List Packet) (packet : Packet) (u : Unique r) where
  put-Isolated :
      (out : Option Packet) (w : Packet) → Peers w packet → Isolated r packet (out, put_conn r w)
  unfolding Isolated
  put-Isolated out w e = (
    put_conn-Unique r w u,
    λ q d. find_conn-put_conn_other r w q (same_conn_left w packet q e ∙ d),
  )

  drop-Isolated :
      (out : Option Packet) (w : Packet) → Peers w packet → Isolated r packet (out, drop_conn r w)
  unfolding Isolated
  drop-Isolated out w e = (
    drop_conn-Unique r w u,
    λ q d. find_conn-drop_conn_other r w q (same_conn_left w packet q e ∙ d),
  )

  keep_rest-Isolated :
      (w : Packet) (bytes : List ℕ)
      → Peers w packet
      → Isolated r packet (some w, keep_rest (drop_conn r w) w bytes)
  unfolding keep_rest Isolated packet_set_payload Peers
  keep_rest-Isolated w bytes e =
      let left : List Packet = drop_conn r w in
      let c : Packet = packet_set_payload (packet_clone w) (some (drop w.payload_len bytes)) in
      let kept = packet_clone_keeps w in
      let peers : Peers c packet = (kept.0.0 ∙ e.0, kept.0.1 ∙ e.1) in
      let dropped = drop-Isolated (some w) w e in
      let none_c : find_conn left c ≡ none =
        find_conn_right left c packet peers ∙ find_conn-drop_conn r w packet u e in
      if-elim (λ l. Isolated r packet (some w, l))
        (ltb 0 (length bytes - w.payload_len) && ltb (length bytes - w.payload_len) max_capture_len)
        _ _
        (
          append-Unique left c dropped.0 none_c,
          λ q d.
              find_conn-append_other left c q (same_conn_left c packet q peers ∙ d) ∙ dropped.1 q d,
        )
        dropped

  dispatch-Isolated :
      (tcp : TcpHdr) (bytes : List ℕ) (v : Verdict) (w : Packet)
      → Peers w packet
      → Isolated r packet (dispatch r tcp bytes (v, w))
  unfolding dispatch
  dispatch-Isolated tcp bytes complete_sip w e = drop-Isolated (some w) w e
  dispatch-Isolated tcp bytes multiple_sip w e = keep_rest-Isolated w bytes e
  dispatch-Isolated tcp bytes partial_sip w e = put-Isolated none w e
  dispatch-Isolated tcp bytes not_sip w e =
      if-elim (Isolated r packet) tcp.push _ _ (drop-Isolated (some w) w e) (put-Isolated none w e)

  deliver-Isolated :
      (regex : Regex) (tcp : TcpHdr) (w : Packet)
      → Peers w packet
      → Returns (Isolated r packet) (deliver regex r tcp w)
  unfolding deliver Whole Same Peers
  deliver-Isolated regex tcp w e =
      if-elim (Returns (Isolated r packet)) (ltb max_capture_len w.payload_len) _ _
        (drop-Isolated none w e)
        (elim w.payload
          as (λ o. Returns (Isolated r packet) (
            o >>= λ full.
            sip_validate_packet regex w >>= λ checked. some (dispatch r tcp full checked))) [
              | none ↦ tt
              | some full ↦
                  checked full (sip_validate_packet regex w) (sip_validate_packet-Whole regex w)
            ])
    where
      checked :
          (full : List ℕ) (o : Option (Verdict × Packet))
          → Whole w o
          → Returns (Isolated r packet) (o >>= λ checked. some (dispatch r tcp full checked))
      checked full none h = tt
      checked full (some (v, q)) h = dispatch-Isolated tcp full v q (h.0 ∙ e.0, h.1 ∙ e.1)

  collect-Peers : Peers (collect r packet) packet
  unfolding Peers collect
  collect-Peers = elim (Option-cases (find_conn r packet)) [
    | inl n ↦ rw (n, collect) ((refl, refl))
    | inr (q, s) ↦
        let e = find_conn-Peers r packet q s in
        let k = add_frames_keeps packet.frames q in
        rw (s, collect) ((ap (λ (p : Packet). p.src) k ∙ e.0, ap (λ (p : Packet). p.dst) k ∙ e.1))
  ]

  join_segment-Peers :
      (pkt : Packet) (th_seq : ℕ) (segment : List ℕ)
      → Peers pkt packet
      → Returns (λ q. Peers q packet) (join_segment (first_seq pkt th_seq) th_seq segment)
  unfolding join_segment first_seq packet_set_payload Peers
  join_segment-Peers pkt th_seq segment e =
      if-elim (λ p. Returns (λ q. Peers q packet) (join_segment p th_seq segment))
        (pkt.tcp_seq == 0) _ _ (joined (record pkt { tcp_seq = th_seq }) e) (joined pkt e)
    where
      P : Option Packet → Type 0
      P o = Returns (λ q. Peers q packet) o

      joined : (p : Packet) → Peers p packet → P (join_segment p th_seq segment)
      joined p e = if-elim P (length p.frames == 1) _ _ e (
          if-elim P (ltb max_capture_len (p.payload_len + length segment)) _ _ tt
            (if-elim P (ltb p.tcp_seq th_seq) _ _ e e))

  -- If at most one packet waits for each connection, then whatever packet, header and segment
  -- come, when `capture_packet_reasm_tcp` does not fault, at most one packet waits for each
  -- connection afterwards, and what waits for every other connection is unchanged.
  pub capture_packet_reasm_tcp-Isolated :
      (regex : Regex) (tcp : TcpHdr) (segment : List ℕ)
      → Returns (Isolated r packet) (capture_packet_reasm_tcp regex r packet tcp segment)
  unfolding capture_packet_reasm_tcp Isolated Peers
  capture_packet_reasm_tcp-Isolated regex tcp [] = (u, λ q d. refl)
  capture_packet_reasm_tcp-Isolated regex tcp (b ∷ bytes) =
      joined (join_segment (first_seq (collect r packet) tcp.th_seq) tcp.th_seq (b ∷ bytes))
        (join_segment-Peers (collect r packet) tcp.th_seq (b ∷ bytes) collect-Peers)
    where
      joined :
          (o : Option Packet)
          → Returns (λ q. Peers q packet) o
          → Returns (Isolated r packet) (elim o as (λ _. Option (Option Packet × List Packet)) [
            | none ↦ some (none, drop_conn r packet)
            | some pkt ↦ deliver regex r tcp pkt
          ])
      joined none h = drop-Isolated none packet (refl, refl)
      joined (some q) h = deliver-Isolated regex tcp q h
