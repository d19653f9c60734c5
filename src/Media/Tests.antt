-- ===== src/Media/Tests.antt =====
-- Runs of the parsing of media, and examples.
use sngrep.Common.{ℕ, ◌≡◌, refl, Option, none, some, true, List, []}
use sngrep.Common.Int.{◌-ℤ◌}
use sngrep.Vector.{Ptr, null, Vector, create, item}
use sngrep.Codes.{codes}
use sngrep.Call.{call_create}
use sngrep.Rtp.{stream_create, no_address, packet_rtp}
use sngrep.Media.{Media}
use sngrep.Media.Sdp.{Scan, Parser, sip_parse_msg_media}

-- Each `m=` line is read as one for port 4000, and each `c=` line as one for the address 1.
abbrev same_place : Scan
same_place = record {
  media = λ line. record {
    complete = true;
    type = some (codes "audio");
    port = some 4000;
    format = some 8;
  };
  connection = λ line. record { answered = true; value = some (codes "1") };
  rtpmap = λ line. record { answered = true; value = some (some 8, some (codes "PCMA")) };
  rtcp = λ line. some 4001;
}

abbrev no_media : Media
no_media = record { address = no_address; type = []; fmtcode = 0; formats = []; msg = null }

abbrev start : Parser
start = record {
  dst = no_address;
  media_type = [];
  media_format = [];
  address = [];
  fmt_pref = 0;
  fmt_code = 0;
  media = null;
  msg_rtp_stream = null;
  rtp_stream = null;
  rtcp_stream = null;
  call =
      record (call_create
        (record { msg_destroyer = 1; packet_destroyer = 2; generic_destroyer = 3 }) true
        (codes "id") []) { streams = create 0 5 };
  media_count = 0;
  medias = λ p. no_media;
  streams = λ p. stream_create null no_address packet_rtp;
  next = 100;
}

no_sorter : Ptr → Vector → Ptr → Option Vector
no_sorter f v p = none

abbrev two_medias : List ℕ
two_medias = codes "m=a\r\nc=1\r\na=rtpmap:8\r\nm=b\r\nc=1"

-- Two descriptions of one place: one stream from the message, and two to the place.
abbrev stream_count : Option Parser → Option ℕ
stream_count none = none
stream_count (some s) = some s.call.streams.count

parse_two_medias :
    stream_count (sip_parse_msg_media no_sorter same_place 7 no_address none start two_medias)
    ≡ some 3
unfolding sip_parse_msg_media create item ◌-ℤ◌
parse_two_medias = refl
