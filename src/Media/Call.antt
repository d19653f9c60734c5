-- ===== src/Media/Call.antt =====
-- src/sip.c: the call that `sip_check_packet` parses the media of a message into.
use sngrep.Common.{
  Returns, bind-Returns, if-elim, ◌≡◌, refl, Option, none, some, List, [], ◌∷◌, ◌==◌, not, ◌>>=◌,
  fold_steps, ℕ, leb, length,
}
use sngrep.Vector.{Ptr, null, Vector, append}
use sngrep.Address.{Address}
use sngrep.Codes.{codes}
use sngrep.Call.{Call, call_add_stream}
use sngrep.Msg.{Msg}
use sngrep.CallList.{update, Packet}
use sngrep.Rtp.{no_address, rtp_find_call_stream}
use sngrep.Media.Streams.{SameCall, SameCall-trans}
use sngrep.Media.Sdp.{
  Scan, Parser, add_stream, add_streams, new_media, media_line, connection_line, rtpmap_line,
  rtcp_line, parse_line, starts, or_else, split_lines, sip_parse_msg_media,
}

module _ (run : Ptr → Vector → Ptr → Option Vector) where
  -- The call of a parser that returns is the same but for its streams.
  abbrev Keeps : Call → Option Parser → Type 0
  Keeps c o = Returns (λ (s : Parser). SameCall c s.call) o

  same : (c : Call) → SameCall c c
  same c = record { same_callid = refl; same_msgs = refl }

  call_add_stream-Keeps :
      (c : Call) (p : Ptr) → Returns (λ d. SameCall c d) (call_add_stream run c p)
  unfolding call_add_stream
  call_add_stream-Keeps c p =
      bind-Returns (λ d. SameCall c d) (append run c.streams p) _
        (λ r. record { same_callid = refl; same_msgs = refl })

  -- A step after one that keeps the call.
  then_Keeps :
      (c : Call) (o : Option Parser) (k : Parser → Option Parser)
      → Keeps c o
      → ((t : Parser) → Keeps t.call (k t))
      → Keeps c (o >>= k)
  then_Keeps c none k h f = tt
  then_Keeps c (some t) k h f = trans_Keeps (k t) (f t)
    where
      trans_Keeps : (o : Option Parser) → Keeps t.call o → Keeps c o
      trans_Keeps none e = tt
      trans_Keeps (some u) e = SameCall-trans h e

  add_stream-Keeps : (s : Parser) (p : Ptr) → Keeps s.call (add_stream run s p)
  unfolding add_stream
  add_stream-Keeps s p = if-elim (Keeps s.call) (p == null) _ _ (same s.call) (
      bind-Returns (λ (t : Parser). SameCall s.call t.call)
        (rtp_find_call_stream s.streams s.call no_address (s.streams p).dst) _
        (λ known.
          if-elim (Keeps s.call) (not (known == null)) _ _ (same s.call)
            (added (call_add_stream run s.call p) (call_add_stream-Keeps s.call p))))
    where
      added :
          (o : Option Call)
          → Returns (λ d. SameCall s.call d) o
          → Keeps s.call (o >>= λ c. some (record s { call = c }))
      added none h = tt
      added (some c) h = h

  add_streams-Keeps : (s : Parser) → Keeps s.call (add_streams run s)
  unfolding add_streams
  add_streams-Keeps s =
      then_Keeps s.call (add_stream run s s.msg_rtp_stream)
        (λ t. add_stream run t t.rtp_stream >>= λ u. add_stream run u u.rtcp_stream)
        (add_stream-Keeps s s.msg_rtp_stream)
        (λ t.
          then_Keeps t.call (add_stream run t t.rtp_stream) (λ u. add_stream run u u.rtcp_stream)
            (add_stream-Keeps t t.rtp_stream) (λ u. add_stream-Keeps u u.rtcp_stream))

  module _ (scan : Scan) (msg : Ptr) (msg_src : Address) where
    media_line-Keeps :
        (s : Parser) (line : List ℕ) → Keeps s.call (media_line run scan msg msg_src s line)
    unfolding media_line new_media
    media_line-Keeps s line =
        let read = scan.media line in
        let s' : Parser = record s {
          media_type = or_else read.type s.media_type;
          dst = record s.dst { port = or_else read.port s.dst.port };
          fmt_pref = or_else read.format s.fmt_pref;
        } in
        if-elim (Keeps s.call) read.complete _ _
          (then_Keeps s.call (add_streams run s') (λ t. some (new_media run scan msg msg_src t))
            (add_streams-Keeps s') (λ t. same t.call))
          (same s.call)

    parse_line-Keeps :
        (s : Parser) (line : List ℕ) → Keeps s.call (parse_line run scan msg msg_src s line)
    unfolding parse_line connection_line rtpmap_line rtcp_line
    parse_line-Keeps s line =
        if-elim (Keeps s.call) (starts (codes "m=") line) _ _ (media_line-Keeps s line) (
          if-elim (Keeps s.call) (starts (codes "c=") line) _ _
            (if-elim (Keeps s.call) (not (scan.connection line).answered) _ _ (same s.call) (
              if-elim (Keeps s.call)
                (leb 15 (length (or_else (scan.connection line).value s.address))) _ _ tt
                (if-elim (λ (t : Parser). SameCall s.call t.call) (s.media == null) _ _
                  (same s.call) (same s.call))))
            (if-elim (Keeps s.call) (starts (codes "a=rtpmap:") line) _ _
              (if-elim (λ (t : Parser). SameCall s.call t.call) (s.media == null) _ _ (same s.call)
                (if-elim (λ (t : Parser). SameCall s.call t.call) (scan.rtpmap line).answered _ _
                  (same s.call) (same s.call)))
              (if-elim (Keeps s.call) (starts (codes "a=rtcp:") line) _ _
                (if-elim (λ (t : Parser). SameCall s.call t.call) (s.rtcp_stream == null) _ _
                  (same s.call)
                  (elim (scan.rtcp line) as (λ o. SameCall s.call (with_port o).call) [
                    | none ↦ same s.call
                    | some port ↦ same s.call
                  ]))
                (same s.call))))
      where
        with_port : Option ℕ → Parser
        with_port none = s
        with_port (some port) =
            let stream = s.streams s.rtcp_stream in
            record s {
              streams =
                  update s.streams s.rtcp_stream
                    (record stream { dst = record stream.dst { port = port } });
            }

    parse_lines-Keeps :
        (lines : List (List ℕ)) (s : Parser)
        → Keeps s.call (fold_steps (parse_line run scan msg msg_src) s lines)
    parse_lines-Keeps [] s = same s.call
    parse_lines-Keeps (line ∷ lines) s =
        then_Keeps s.call (parse_line run scan msg msg_src s line)
          (λ t. fold_steps (parse_line run scan msg msg_src) t lines) (parse_line-Keeps s line)
          (parse_lines-Keeps lines)

    pub sip_parse_msg_media-Keeps :
        (repeated : Option ℕ) (s : Parser) (payload : List ℕ)
        → Keeps s.call (sip_parse_msg_media run scan msg msg_src repeated s payload)
    unfolding sip_parse_msg_media
    sip_parse_msg_media-Keeps (some n) s payload = same s.call
    sip_parse_msg_media-Keeps none s payload =
        let lines = split_lines payload in
        then_Keeps s.call _ (add_streams run) (parse_lines-Keeps (lines.0 ∷ lines.1) s)
          add_streams-Keeps

-- What `sip_check_packet` sees of the parsing: the call, and the message with its number of media.
-- `memory` is what else the parser needs: the number of media of the message that this one repeats,
-- where the message lies, and the state that the parser starts in.
unfoldable pub parse_media :
    (Ptr → Vector → Ptr → Option Vector)
    → Scan
    → (Call → Msg → Packet → Option ℕ × Ptr × Parser)
    → Call
    → Msg
    → Packet
    → Option (Call × Msg)
unfolding sip_parse_msg_media
parse_media run scan memory c m packet =
    let (repeated, msg, start) = memory c m packet in
    sip_parse_msg_media run scan msg packet.src repeated (record start { call = c }) packet.payload
    >>= λ s. some (s.call, record m { media_count = s.media_count })

-- What the call list asks of a parsing of media that returns.
parse_media_keeps :
    (run : Ptr → Vector → Ptr → Option Vector) (scan : Scan)
    (memory : Call → Msg → Packet → Option ℕ × Ptr × Parser) (d : Call) (m : Msg) (packet : Packet)
    → Returns
        (λ (r : Call × Msg). (r.0.callid ≡ d.callid) × (r.0.msgs ≡ d.msgs))
        (parse_media run scan memory d m packet)
unfolding parse_media
parse_media_keeps run scan memory d m packet =
    let (repeated, msg, start) = memory d m packet in
    let s : Parser = record start { call = d } in
    result (sip_parse_msg_media run scan msg packet.src repeated s packet.payload)
      (sip_parse_msg_media-Keeps run scan msg packet.src repeated s packet.payload)
  where
    result :
        (o : Option Parser)
        → Keeps run d o
        → Returns
            (λ (r : Call × Msg). (r.0.callid ≡ d.callid) × (r.0.msgs ≡ d.msgs))
            (o >>= λ s. some (s.call, record m { media_count = s.media_count }))
    result none k = tt
    result (some t) k = (k.same_callid, k.same_msgs)
