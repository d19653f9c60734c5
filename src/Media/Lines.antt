-- ===== src/Media/Lines.antt =====
-- src/sip.c, `sip_parse_msg_media`: what each line does to the streams of the call.
use sngrep.Codes.{codes}
use sngrep.Common.{
  leb, false, ◌-◌, if-elim, ℕ, ◌+◌, ◌*◌, ◌<◌, ◌≡◌, ◌≢◌, inl, inr, refl, sym, ◌∙◌, ap, subst, Option,
  none, some, List, [], ◌∷◌, ◌==◌, not, ◌>>=◌, fold_steps, length, All, Bool-cases, arith,
}
use sngrep.Vector.{Ptr, null, Vector}
use sngrep.Vector.Holds.{Holds}
use sngrep.Address.{Address}
use sngrep.Call.{Call}
use sngrep.CallList.{update}
use sngrep.Rtp.{Stream}
use sngrep.Media.Streams.{All-map, Distinct, Streams, SameCall, SameCall-trans}
use sngrep.Media.Sdp.{
  addresslen, or_else, starts, Scan, Parser, add_streams, new_media, media_line, connection_line,
  rtpmap_line, rtcp_line, parse_line, set_ip, sip_parse_msg_media, split_lines,
}
use sngrep.Media.Ready.{
  Agree, Agree-Streams, Outside, update-Agree, Agree-trans, Ready, Gathered, add_streams-Gathered,
}

module _ (run : Ptr → Vector → Ptr → Option Vector) (scan : Scan) (msg : Ptr) (msg_src : Address)
    (short : (line old : List ℕ)
      → leb (addresslen - 1) (length (or_else (scan.connection line).value old)) ≡ false) where
  -- What a line does: the call stays the same but for its streams, and the next line can come.
  unfoldable pub Kept : Parser → ℕ → Option Parser → Type 0
  Kept s rounds result =
      (s' : Parser) × (ys : List Ptr) × (result ≡ some s')
      × SameCall s.call s'.call
      × Ready s' rounds ys

  same : {c : Call} → SameCall c c
  same = record { same_callid = refl; same_msgs = refl }

  fewer :
      {c : Call} {st : Ptr → Stream} {rounds : ℕ} {xs : List Ptr}
      → Streams c st (3 + rounds) xs
      → Streams c st rounds xs
  fewer h = record {
    holds = h.holds;
    plain = h.plain;
    room = omega (arith, h.room);
    apart = h.apart;
  }

  -- A change of the streams of the last `m=` line.
  changed-Ready :
      (s s' : Parser) (rounds : ℕ) (xs : List Ptr)
      → Ready s (3 + rounds) xs
      → s'.call ≡ s.call
      → Agree s.streams s'.streams xs
      → s'.next ≡ s.next
      → s'.msg_rtp_stream ≡ s.msg_rtp_stream
      → s'.rtp_stream ≡ s.rtp_stream
      → s'.rtcp_stream ≡ s.rtcp_stream
      → Ready s' rounds xs
  changed-Ready s s' rounds xs h c a n m r t = record {
    streams =
        subst (λ d. Streams d s'.streams rounds xs) (sym c)
          (Agree-Streams s.streams s'.streams a (fewer h.streams));
    old = subst (λ k. All (λ q. q < k) xs) (sym n) h.old;
    msg_rtp_old = omega (arith, m, n, h.msg_rtp_old);
    rtp_old = omega (arith, r, n, h.rtp_old);
    rtcp_old = omega (arith, t, n, h.rtcp_old);
    rtp_out = subst (λ p. Outside p xs) (sym r) h.rtp_out;
    rtcp_out = subst (λ p. Outside p xs) (sym t) h.rtcp_out;
  }

  unchanged : (st : Ptr → Stream) (xs : List Ptr) → Agree st st xs
  unchanged st [] = tt
  unchanged st (x ∷ xs) = (refl, unchanged st xs)

  new_media-Ready :
      (s : Parser) (rounds : ℕ) (ys : List Ptr)
      → Streams s.call s.streams rounds ys
      → All (λ q. q < s.next) ys
      → Ready (new_media run scan msg msg_src s) rounds ys
  unfolding new_media
  new_media-Ready s rounds ys h old =
      let p = s.next in
      let out : (k : ℕ) → Outside (p + k) ys =
        λ k. All-map (λ q. q < p) (λ q. q ≢ p + k) ys (λ q lt. omega (arith, lt)) old in
      record {
        streams =
            Agree-Streams s.streams _
              (Agree-trans _ _ _ ys (update-Agree s.streams (p + 1) _ ys (out 1)) (
                Agree-trans _ _ _ ys (update-Agree _ (p + 2) _ ys (out 2))
                  (update-Agree _ (p + 3) _ ys (out 3))))
              h;
        old = All-map (λ q. q < p) (λ q. q < p + 4) ys (λ q lt. omega (arith, lt)) old;
        msg_rtp_old = omega arith;
        rtp_old = omega arith;
        rtcp_old = omega arith;
        rtp_out = out 2;
        rtcp_out = out 3;
      }

  media_line-Kept :
      (s : Parser) (rounds : ℕ) (xs : List Ptr) (line : List ℕ)
      → Ready s (3 + rounds) xs
      → Kept s rounds (media_line run scan msg msg_src s line)
  unfolding media_line Kept Gathered
  media_line-Kept s rounds xs line h =
      let read = scan.media line in
      let s' : Parser = record s {
        media_type = or_else read.type s.media_type;
        dst = record s.dst { port = or_else read.port s.dst.port };
        fmt_pref = or_else read.format s.fmt_pref;
      } in
      let h' : Ready s' (3 + rounds) xs = record {
        streams = h.streams;
        old = h.old;
        msg_rtp_old = h.msg_rtp_old;
        rtp_old = h.rtp_old;
        rtcp_old = h.rtcp_old;
        rtp_out = h.rtp_out;
        rtcp_out = h.rtcp_out;
      } in
      let (c, ys, e, m, k, o) = add_streams-Gathered run s' rounds xs h' in
      let t : Parser = record s' { call = c } in
      elim (Bool-cases read.complete) [
        | inl b ↦ (
          new_media run scan msg msg_src t,
          ys,
          rw b (ap (λ o. o >>= λ (u : Parser). some (new_media run scan msg msg_src u)) e),
          m,
          new_media-Ready t rounds ys k o,
        )
        | inr b ↦ (
          s',
          xs,
          rw b refl,
          same,
          changed-Ready s s' rounds xs h refl (unchanged s.streams xs) refl refl refl refl,
        )
      ]

  kept :
      (s s' : Parser) (rounds : ℕ)
      → SameCall s.call s'.call
      → (xs : List Ptr) → Ready s' rounds xs
      → Kept s rounds (some s')
  unfolding Kept
  kept s s' rounds m xs h = (s', xs, refl, m, h)

  connection_line-Kept :
      (s : Parser) (rounds : ℕ) (xs : List Ptr) (line : List ℕ)
      → Ready s (3 + rounds) xs
      → Kept s rounds (connection_line run scan msg msg_src s line)
  unfolding connection_line set_ip
  connection_line-Kept s rounds xs line h = rw (short line s.address) (
      if-elim (Kept s rounds) (not (scan.connection line).answered) _ _
        (kept s s rounds same xs
          (changed-Ready s s rounds xs h refl (unchanged s.streams xs) refl refl refl refl))
        (if-elim (λ t. Kept s rounds (some t)) (s.media == null) _ _
          (kept s _ rounds same xs
            (changed-Ready s _ rounds xs h refl (unchanged s.streams xs) refl refl refl refl))
          (kept s _ rounds same xs (
            changed-Ready s _ rounds xs h refl
              (Agree-trans _ _ _ xs (update-Agree s.streams s.rtp_stream _ xs h.rtp_out)
                (update-Agree _ s.rtcp_stream _ xs h.rtcp_out))
              refl refl refl refl))))

  rtpmap_line-Kept :
      (s : Parser) (rounds : ℕ) (xs : List Ptr) (line : List ℕ)
      → Ready s (3 + rounds) xs
      → Kept s rounds (some (rtpmap_line run scan msg msg_src s line))
  unfolding rtpmap_line
  rtpmap_line-Kept s rounds xs line h =
      if-elim (λ t. Kept s rounds (some t)) (s.media == null) _ _
        (kept s s rounds same xs
          (changed-Ready s s rounds xs h refl (unchanged s.streams xs) refl refl refl refl))
        (if-elim (λ t. Kept s rounds (some t)) (scan.rtpmap line).answered _ _
          (kept s _ rounds same xs
            (changed-Ready s _ rounds xs h refl (unchanged s.streams xs) refl refl refl refl))
          (kept s _ rounds same xs
            (changed-Ready s _ rounds xs h refl (unchanged s.streams xs) refl refl refl refl)))

  rtcp_line-Kept :
      (s : Parser) (rounds : ℕ) (xs : List Ptr) (line : List ℕ)
      → Ready s (3 + rounds) xs
      → Kept s rounds (some (rtcp_line run scan msg msg_src s line))
  unfolding rtcp_line
  rtcp_line-Kept s rounds xs line h =
      let none_read : Kept s rounds (some s) =
        kept s s rounds same xs
          (changed-Ready s s rounds xs h refl (unchanged s.streams xs) refl refl refl refl) in
      if-elim (λ t. Kept s rounds (some t)) (s.rtcp_stream == null) _ _ none_read
        (elim (scan.rtcp line) as (λ o. Kept s rounds (some (with_port o))) [
          | none ↦ none_read
          | some port ↦ kept s _ rounds same xs (
              changed-Ready s _ rounds xs h refl
                (update-Agree s.streams s.rtcp_stream _ xs h.rtcp_out) refl refl refl refl)
        ])
    where
      with_port : Option ℕ → Parser
      with_port none = s
      with_port (some port) =
          let stream = s.streams s.rtcp_stream in
          record s {
            streams =
                update s.streams s.rtcp_stream
                  (record stream { dst = record stream.dst { port = port } });
          }

  parse_line-Kept :
      (s : Parser) (rounds : ℕ) (xs : List Ptr) (line : List ℕ)
      → Ready s (3 + rounds) xs
      → Kept s rounds (parse_line run scan msg msg_src s line)
  unfolding parse_line
  parse_line-Kept s rounds xs line h =
      if-elim (Kept s rounds) (starts (codes "m=") line) _ _ (media_line-Kept s rounds xs line h) (
        if-elim (Kept s rounds) (starts (codes "c=") line) _ _
          (connection_line-Kept s rounds xs line h)
          (if-elim (Kept s rounds) (starts (codes "a=rtpmap:") line) _ _
            (rtpmap_line-Kept s rounds xs line h)
            (if-elim (Kept s rounds) (starts (codes "a=rtcp:") line) _ _
              (rtcp_line-Kept s rounds xs line h)
              (kept s s rounds same xs (
                changed-Ready s s rounds xs h refl (unchanged s.streams xs) refl refl refl refl)))))

  parse_lines-Kept :
      (lines : List (List ℕ)) (s : Parser) (xs : List Ptr)
      → Ready s (3 * length lines + 3) xs
      → Kept s 3 (fold_steps (parse_line run scan msg msg_src) s lines)
  unfolding Kept
  parse_lines-Kept [] s xs h = (s, xs, refl, same, subst (λ n. Ready s n xs) (omega arith) h)
  parse_lines-Kept (line ∷ lines) s xs h =
      let h' : Ready s (3 + (3 * length lines + 3)) xs =
        subst (λ n. Ready s n xs) (omega arith) h in
      let (s1, y1, e1, m1, k1) = parse_line-Kept s (3 * length lines + 3) xs line h' in
      let (s2, y2, e2, m2, k2) = parse_lines-Kept lines s1 y1 k1 in
      (
        s2,
        y2,
        ap (λ o. o >>= λ t. fold_steps (parse_line run scan msg msg_src) t lines) e1 ∙ e2,
        SameCall-trans m1 m2,
        k2,
      )

  -- The streams of a call before its message is parsed: they lead to different places, and can grow
  -- by three for each line and three more.
  pub record Start (s : Parser) (payload : List ℕ) (xs : List Ptr) : Type 0 where
    pub streams : Streams s.call s.streams (3 * length (split_lines payload).1 + 6) xs
    pub old : All (λ q. q < s.next) xs
    pub no_media : s.media ≡ null
    pub no_msg_rtp : s.msg_rtp_stream ≡ null
    pub no_rtp : s.rtp_stream ≡ null
    pub no_rtcp : s.rtcp_stream ≡ null
    pub allocates : 0 < s.next

  Start-Ready :
      (s : Parser) (payload : List ℕ) (xs : List Ptr)
      → Start s payload xs
      → Ready s (3 * length (split_lines payload).1 + 6) xs
  Start-Ready s payload xs h = record {
    streams = h.streams;
    old = h.old;
    msg_rtp_old = omega (arith, h.no_msg_rtp, h.allocates);
    rtp_old = omega (arith, h.no_rtp, h.allocates);
    rtcp_old = omega (arith, h.no_rtcp, h.allocates);
    rtp_out = subst (λ p. Outside p xs) (sym h.no_rtp) h.streams.holds.non_null;
    rtcp_out = subst (λ p. Outside p xs) (sym h.no_rtcp) h.streams.holds.non_null;
  }

  -- If sscanf reads no address of 15 characters or more, the parsing returns, and the streams of
  -- the call still lead to different places.
  pub sip_parse_msg_media-Distinct :
      (repeated : Option ℕ) (s : Parser) (payload : List ℕ) (xs : List Ptr)
      → Start s payload xs
      → (s' : Parser) × (ys : List Ptr) × (sip_parse_msg_media run scan msg msg_src repeated s
            payload
          ≡ some s')
        × SameCall s.call s'.call
        × Holds s'.call.streams ys
        × Distinct s'.streams ys
  unfolding sip_parse_msg_media Kept Gathered
  sip_parse_msg_media-Distinct (some n) s payload xs h =
      (record s { media_count = n }, xs, refl, same, h.streams.holds, h.streams.apart)
  sip_parse_msg_media-Distinct none s payload xs h =
      let lines = split_lines payload in
      let ready = Start-Ready s payload xs h in
      let (s1, y1, e1, m1, k1) =
        parse_lines-Kept (lines.0 ∷ lines.1) s xs (subst (λ n. Ready s n xs) (omega arith) ready) in
      let (c, y2, e2, m2, k2, o2) = add_streams-Gathered run s1 0 y1 k1 in
      (
        record s1 { call = c },
        y2,
        ap (λ o. o >>= add_streams run) e1 ∙ e2,
        SameCall-trans m1 m2,
        k2.holds,
        k2.apart,
      )
