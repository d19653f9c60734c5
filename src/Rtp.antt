-- ===== src/Rtp.antt =====
-- src/rtp.c: the streams of the calls, how a packet finds its stream, and what an RTP packet does.
-- A search that finds nothing is NULL; `none` is a fault or fuel that ran out.
pub mod Data
pub mod Packet
pub mod Search
mod Tests
use sngrep.Common.{
  ℕ, zero, suc, ◌+◌, ◌-◌, ◌*◌, ◌%◌, ◌/◌, ◌^◌, Bool, true, false, Option, none, some, List, [], ◌∷◌,
  ◌++◌, ◌==◌, ◌&&◌, ◌||◌, not, ltb, leb, if◌then◌else◌, ◌>>=◌, length, get_elem?,
}
use sngrep.Common.Int.{ℤ, pos, negsuc, ltb_ℤ, ◌-ℤ◌}
use sngrep.Vector.{Ptr, null, Vector, u32}
use sngrep.Vector.Iter.{
  last_such, Iter, iterator, prev, set_last, set_current, iterator_count, count_of,
}
use sngrep.Address.{Address, addressport_equals}
use sngrep.Util.{Timeval, timeval_is_older}
use sngrep.Codes.{codes}
use sngrep.Call.{Call, call_add_stream}
use sngrep.CallList.{update}

-- `encodings`, to its sentinel: the code, the name and the format.
abbrev pub encodings : List (ℕ × List ℕ × List ℕ)
encodings =
    (0, codes "PCMU/8000", codes "g711u")
    ∷ (3, codes "GSM/8000", codes "gsm")
    ∷ (4, codes "G723/8000", codes "g723")
    ∷ (5, codes "DVI4/8000", codes "dvi")
    ∷ (6, codes "DVI4/16000", codes "dvi")
    ∷ (7, codes "LPC/8000", codes "lpc")
    ∷ (8, codes "PCMA/8000", codes "g711a")
    ∷ (9, codes "G722/8000", codes "g722")
    ∷ (10, codes "L16/44100", codes "l16")
    ∷ (11, codes "L16/44100", codes "l16")
    ∷ (12, codes "QCELP/8000", codes "qcelp")
    ∷ (13, codes "CN/8000", codes "cn")
    ∷ (14, codes "MPA/90000", codes "mpa")
    ∷ (15, codes "G728/8000", codes "g728")
    ∷ (16, codes "DVI4/11025", codes "dvi")
    ∷ (17, codes "DVI4/22050", codes "dvi")
    ∷ (18, codes "G729/8000", codes "g729")
    ∷ (25, codes "CelB/90000", codes "celb")
    ∷ (26, codes "JPEG/90000", codes "jpeg")
    ∷ (28, codes "nv/90000", codes "nv")
    ∷ (31, codes "H261/90000", codes "h261")
    ∷ (32, codes "MPV/90000", codes "mpv")
    ∷ (33, codes "MP2T/90000", codes "mp2t")
    ∷ (34, codes "H263/90000", codes "h263")
    ∷ []

-- `rtp_stream_t`. The format and the packet count of a sender are one word of a union, `word`.
pub record Stream : Type 0 where
  pub type : ℕ
  pub src : Address
  pub dst : Address
  pub media : Ptr
  pub pktcnt : ℕ
  pub payload_bytes_count : ℕ
  pub time : Timeval
  pub lasttm : ℤ
  pub word : ℕ

abbrev pub packet_rtp : ℕ
packet_rtp = 5

abbrev pub packet_rtcp : ℕ
packet_rtcp = 6

-- An address of zero bytes.
abbrev pub no_address : Address
no_address = record { ip = []; port = 0 }

-- `stream_create`
unfoldable pub stream_create : Ptr → Address → ℕ → Stream
stream_create media dst type = record {
  type = type;
  src = no_address;
  dst = dst;
  media = media;
  pktcnt = 0;
  payload_bytes_count = 0;
  time = record { tv_sec = 0; tv_usec = 0 };
  lasttm = pos 0;
  word = 0;
}

-- `stream_complete`
unfoldable pub stream_complete : Stream → Address → Stream
stream_complete stream src = record stream { src = src }

-- `stream_set_format`
unfoldable pub stream_set_format : Stream → ℕ → Stream
stream_set_format stream format = record stream { word = format }

-- `stream_add_packet`; `now` is `time(NULL)`.
unfoldable pub stream_add_packet : ℤ → Stream → Timeval → ℕ → Stream
stream_add_packet now stream time payload_len = record stream {
  time = (if stream.pktcnt == 0 then time else stream.time);
  lasttm = now;
  pktcnt = (stream.pktcnt + 1) % u32;
  payload_bytes_count = (stream.payload_bytes_count + payload_len) % u32;
}

-- `stream_get_count`
unfoldable pub stream_get_count : Stream → ℕ
stream_get_count stream = stream.pktcnt

-- `stream_is_complete`
unfoldable pub stream_is_complete : Stream → Bool
stream_is_complete stream = not (stream.pktcnt == 0)

-- `stream_is_active`
unfoldable pub stream_is_active : ℤ → Stream → Bool
stream_is_active now stream = not (ltb_ℤ (pos 3) (now -ℤ stream.lasttm))

-- `stream_is_older` of two addresses
unfoldable pub stream_is_older : (Ptr → Stream) → Ptr → Ptr → Bool
unfolding timeval_is_older
stream_is_older streams one two =
    if two == null
    then true
    else (if one == two then false else timeval_is_older (streams one).time (streams two).time)

-- `rtp_get_standard_format`
unfoldable pub format_loop : List (ℕ × List ℕ × List ℕ) → ℕ → Option (List ℕ)
format_loop [] code = none
format_loop ((id, name, format) ∷ rows) code =
    if id == code then some format else format_loop rows code

unfoldable pub rtp_get_standard_format : ℕ → Option (List ℕ)
unfolding format_loop
rtp_get_standard_format = format_loop encodings

-- The loop over a whole vector from its end.
unfoldable pub from_last : (Ptr → Bool) → Vector → Option Ptr
unfolding last_such set_last iterator
from_last test v = last_such (suc v.count) test (set_last (iterator (some v)))

module _ (streams : Ptr → Stream) where
  -- `rtp_find_call_exact_stream`
  unfoldable pub rtp_find_call_exact_stream : Call → Address → Address → Option Ptr
  unfolding from_last addressport_equals
  rtp_find_call_exact_stream call src dst =
      from_last
        (λ p. addressport_equals src (streams p).src && addressport_equals dst (streams p).dst)
        call.streams

  -- `rtp_find_call_stream`
  unfoldable pub rtp_find_call_stream : Call → Address → Address → Option Ptr
  unfolding from_last addressport_equals rtp_find_call_exact_stream
  rtp_find_call_stream call src dst =
      from_last
        (λ p. addressport_equals dst (streams p).dst && (src.port == 0 || (streams p).pktcnt == 0))
        call.streams
      >>= λ found.
          if not (found == null)
          then some found
          else (if not (src.port == 0) then rtp_find_call_exact_stream call src dst else some null)

  -- The loop of `rtp_find_rtcp_stream` over the calls.
  unfoldable pub rtcp_loop : ℕ → (Ptr → Call) → Address → Address → Iter → Option Ptr
  unfolding prev rtp_find_call_stream
  rtcp_loop zero calls src dst it = none
  rtcp_loop (suc k) calls src dst it = prev it >>= λ (c, it'). elim (c == null) [
    | true ↦ some null
    | false ↦ rtp_find_call_stream (calls c) src dst >>= λ p.
        elim (not (p == null) && (streams p).type == packet_rtcp) [
          | true ↦ some p
          | false ↦ rtcp_loop k calls src dst it'
        ]
  ]

  -- `vector_iterator_set_current(&calls, vector_iterator_count(&calls))`
  unfoldable pub calls_backward : Vector → Option Iter
  unfolding iterator iterator_count set_current
  calls_backward list = iterator_count (iterator (some list)) >>= λ (n, it). some (set_current it n)

  -- `rtp_find_rtcp_stream`
  unfoldable pub rtp_find_rtcp_stream : Vector → (Ptr → Call) → Address → Address → Option Ptr
  unfolding rtcp_loop calls_backward
  rtp_find_rtcp_stream list calls src dst =
      calls_backward list >>= rtcp_loop (suc list.count) calls src dst

  -- What the loop of `rtp_find_stream_format` does with a stream: whether it returns it, or else
  -- whether it is a candidate.
  unfoldable pub returns_stream : Address → Address → ℕ → Ptr → Bool
  unfolding stream_is_complete addressport_equals
  returns_stream src dst format p =
      (streams p).type == packet_rtp
      && (if stream_is_complete (streams p)
          then addressport_equals (streams p).src src
            && (addressport_equals (streams p).dst dst && (streams p).word == format)
          else addressport_equals (streams p).dst dst)

  unfoldable pub is_candidate : Address → Address → ℕ → Ptr → Bool
  unfolding stream_is_complete addressport_equals
  is_candidate src dst format p =
      (streams p).type == packet_rtp
      && (stream_is_complete (streams p)
          && (addressport_equals (streams p).src src
              && (addressport_equals (streams p).dst dst && not ((streams p).word == format))))

  -- The inner loop: the stream that is returned or NULL, and the candidate.
  unfoldable pub format_streams : ℕ → Address → Address → ℕ → Ptr → Iter → Option (Ptr × Ptr)
  unfolding prev returns_stream is_candidate
  format_streams zero src dst format candidate it = none
  format_streams (suc k) src dst format candidate it = prev it >>= λ (p, it'). elim (p == null) [
    | true ↦ some (null, candidate)
    | false ↦ elim (returns_stream src dst format p) [
      | true ↦ some (p, candidate)
      | false ↦
          format_streams k src dst format (if is_candidate src dst format p then p else candidate)
            it'
    ]
  ]

  -- The outer loop, over the calls.
  unfoldable pub format_calls : ℕ → (Ptr → Call) → Address → Address → ℕ → Ptr → Iter → Option Ptr
  unfolding prev format_streams set_last iterator
  format_calls zero calls src dst format candidate it = none
  format_calls (suc k) calls src dst format candidate it = prev it >>= λ (c, it').
      elim (c == null) [
        | true ↦ some candidate
        | false ↦
            format_streams (suc (calls c).streams.count) src dst format candidate
              (set_last (iterator (some (calls c).streams)))
            >>= λ (p, candidate'). elim (p == null) [
              | true ↦ format_calls k calls src dst format candidate' it'
              | false ↦ some p
            ]
      ]

  -- `rtp_find_stream_format`
  unfoldable pub rtp_find_stream_format : Vector → (Ptr → Call) → Address → Address → ℕ → Option Ptr
  unfolding format_calls calls_backward
  rtp_find_stream_format list calls src dst format =
      calls_backward list >>= format_calls (suc list.count) calls src dst format null
