-- ===== src/Media/Sdp.antt =====
-- src/sip.c, `sip_parse_msg_media`: the lines of a payload that describe media, and the streams that
-- the call of the message gets of them.
use sngrep.Common.{
  ℕ, ◌+◌, ◌-◌, ◌%◌, Bool, true, false, Option, none, some, List, [], ◌∷◌, ◌==◌, ◌&&◌, ◌||◌, not,
  leb, length, if◌then◌else◌, ◌>>=◌, fold_steps, take,
}
use sngrep.Vector.{Ptr, null, Vector}
use sngrep.Address.{Address}
use sngrep.Codes.{codes}
use sngrep.Call.{Call, call_add_stream}
use sngrep.CallList.{update}
use sngrep.Rtp.{Stream, packet_rtp, packet_rtcp, no_address, stream_create, rtp_find_call_stream}
use sngrep.Media.{
  Media, media_create, media_set_type, media_set_address, media_set_prefered_format,
  media_add_format,
}

-- What sscanf made of an `m=` line: whether one of the two calls read all three, and what they wrote.
pub record MediaLine : Type 0 where
  pub complete : Bool
  pub type : Option (List ℕ)
  pub port : Option ℕ
  pub format : Option ℕ

-- What sscanf made of a line: whether its answer is not 0 (that is so at the end of the line too),
-- and what it wrote.
pub record Answer (A : Type 0) : Type 0 where
  pub answered : Bool
  pub value : Option A

-- sscanf with the formats of the code, of the C library.
pub record Scan : Type 0 where
  pub media : List ℕ → MediaLine
  pub connection : List ℕ → Answer (List ℕ)
  pub rtpmap : List ℕ → Answer (Option ℕ × Option (List ℕ))
  pub rtcp : List ℕ → Option ℕ

-- `ADDRESSLEN`, without USE_IPV6.
abbrev pub addresslen : ℕ
addresslen = 16

-- The variables of the loop, the call of the message with its number of media, and the memory. `next`
-- is the memory that malloc gives next.
pub record Parser : Type 0 where
  pub dst : Address
  pub media_type : List ℕ
  pub media_format : List ℕ
  pub address : List ℕ
  pub fmt_pref : ℕ
  pub fmt_code : ℕ
  pub media : Ptr
  pub msg_rtp_stream : Ptr
  pub rtp_stream : Ptr
  pub rtcp_stream : Ptr
  pub call : Call
  pub media_count : ℕ
  pub medias : Ptr → Media
  pub streams : Ptr → Stream
  pub next : Ptr

-- `strsep` with both bytes as ends of a line.

unfoldable pub split_lines : List ℕ → List ℕ × List (List ℕ)
split_lines [] = ([], [])
split_lines (b ∷ payload) =
    let rest = split_lines payload in
    if (b == 13) || (b == 10) then ([], rest.0 ∷ rest.1) else (b ∷ rest.0, rest.1)

-- `strncmp` with the length of the prefix.
unfoldable pub starts : List ℕ → List ℕ → Bool
starts [] line = true
starts (p ∷ prefix) [] = false
starts (p ∷ prefix) (b ∷ line) = (p == b) && starts prefix line

-- A value that sscanf may have written.
unfoldable pub or_else : {A : Type 0} → Option A → A → A
or_else none old = old
or_else (some a) old = a

module _ (run : Ptr → Vector → Ptr → Option Vector) where
  -- The macro `ADD_STREAM`. It frees a stream that it does not add; each of the variables is set
  -- again, or not read any more, after it.
  unfoldable pub add_stream : Parser → Ptr → Option Parser
  unfolding rtp_find_call_stream call_add_stream
  add_stream s stream =
      if stream == null
      then some s
      else (rtp_find_call_stream s.streams s.call no_address (s.streams stream).dst >>= λ known.
          if not (known == null)
          then some s
          else (call_add_stream run s.call stream >>= λ c. some (record s { call = c })))

  -- The three streams of the last `m=` line.
  unfoldable pub add_streams : Parser → Option Parser
  unfolding add_stream
  add_streams s = add_stream s s.msg_rtp_stream >>= λ s1.
      add_stream s1 s1.rtp_stream >>= λ s2. add_stream s2 s2.rtcp_stream

  module _ (scan : Scan) (msg : Ptr) (msg_src : Address) where
    -- A new media, and its three streams.
    unfoldable pub new_media : Parser → Parser
    unfolding media_create media_set_type media_set_address media_set_prefered_format stream_create
    new_media s =
        let p = s.next in
        let media =
          media_set_prefered_format
            (media_set_address (media_set_type (media_create (s.medias p) msg) s.media_type) s.dst)
            s.fmt_pref in
        let from_msg = stream_create p (record msg_src { port = s.dst.port }) packet_rtp in
        let rtp = stream_create p s.dst packet_rtp in
        let rtcp = stream_create p (record s.dst { port = (s.dst.port + 1) % 65536 }) packet_rtcp in
        record s {
          media = p;
          msg_rtp_stream = p + 1;
          rtp_stream = p + 2;
          rtcp_stream = p + 3;
          media_count = s.media_count + 1;
          medias = update s.medias p media;
          streams = update (update (update s.streams (p + 1) from_msg) (p + 2) rtp) (p + 3) rtcp;
          next = p + 4;
        }

    -- An `m=` line.
    unfoldable pub media_line : Parser → List ℕ → Option Parser
    unfolding or_else add_streams new_media
    media_line s line =
        let read = scan.media line in
        let s' : Parser = record s {
          media_type = or_else read.type s.media_type;
          dst = record s.dst { port = or_else read.port s.dst.port };
          fmt_pref = or_else read.format s.fmt_pref;
        } in
        if read.complete then (add_streams s' >>= λ s''. some (new_media s'')) else some s'

    -- The address of a stream.
    unfoldable pub set_ip : (Ptr → Stream) → Ptr → List ℕ → Ptr → Stream
    set_ip streams p ip =
        update streams p (record (streams p) { dst = record (streams p).dst { ip = ip } })

    -- A `c=` line. strncpy writes no end behind an address that fills the 15 bytes, and the byte
    -- after them was never written, so the strcpy that follows, or a later one, reads on: a fault.
    unfoldable pub connection_line : Parser → List ℕ → Option Parser
    unfolding or_else media_set_address set_ip
    connection_line s line =
        let read = scan.connection line in
        if not read.answered
        then some s
        else (let address = or_else read.value s.address in
            let ip = take (addresslen - 1) address in
            let dst = record s.dst { ip = ip } in
            let s' : Parser = record s { address = address; dst = dst } in
            if leb (addresslen - 1) (length address)
            then none
            else some (
                if s.media == null then s' else record s' {
                  medias = update s.medias s.media (media_set_address (s.medias s.media) dst);
                  streams = set_ip (set_ip s.streams s.rtp_stream ip) s.rtcp_stream ip;
                }))

    -- An `a=rtpmap:` line.
    unfoldable pub rtpmap_line : Parser → List ℕ → Parser
    unfolding or_else media_add_format
    rtpmap_line s line =
        if s.media == null
        then s
        else (let read = scan.rtpmap line in
            let code : ℕ = elim read.value [
              | none ↦ s.fmt_code
              | some v ↦ or_else v.0 s.fmt_code
            ] in
            let format : List ℕ = elim read.value [
              | none ↦ s.media_format
              | some v ↦ or_else v.1 s.media_format
            ] in
            let s' : Parser = record s { fmt_code = code; media_format = format } in
            if read.answered
            then record s' {
              medias = update s.medias s.media (media_add_format (s.medias s.media) code format);
            }
            else s')

    -- An `a=rtcp:` line.
    unfoldable pub rtcp_line : Parser → List ℕ → Parser
    rtcp_line s line = if s.rtcp_stream == null then s else elim (scan.rtcp line) [
      | none ↦ s
      | some port ↦
          let stream = s.streams s.rtcp_stream in
          record s {
            streams =
                update s.streams s.rtcp_stream
                  (record stream { dst = record stream.dst { port = port } });
          }
    ]

    -- One round of the loop. A line starts with at most one of the prefixes.
    unfoldable pub parse_line : Parser → List ℕ → Option Parser
    unfolding starts media_line connection_line rtpmap_line rtcp_line
    parse_line s line =
        if starts (codes "m=") line
        then media_line s line
        else (if starts (codes "c=") line
            then connection_line s line
            else (if starts (codes "a=rtpmap:") line
                then some (rtpmap_line s line)
                else (if starts (codes "a=rtcp:") line then some (rtcp_line s line) else some s)))

    -- `sip_parse_msg_media`. A message that repeats another one has its media; `repeated` is their
    -- number. The variables that are not initialised are those of `start`: the address of `dst` is
    -- the text that is read there, by whatever lies in the stack.
    unfoldable pub sip_parse_msg_media : Option ℕ → Parser → List ℕ → Option Parser
    unfolding split_lines parse_line add_streams
    sip_parse_msg_media (some repeated) start payload =
        some (record start { media_count = repeated })
    sip_parse_msg_media none start payload =
        let lines = split_lines payload in
        fold_steps parse_line start (lines.0 ∷ lines.1) >>= add_streams
