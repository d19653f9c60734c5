-- ===== src/Rtp/Tests.antt =====
-- src/rtp.c: the theorems at a call with two streams and at short payloads.
use sngrep.Common.{ℕ, ◌≡◌, refl, none, some, List, [], ◌∷◌, arith, ◌==◌, if◌then◌else◌, false}
use sngrep.Vector.{Ptr, null, Vector}
use sngrep.Vector.Holds.{Holds, allocated}
use sngrep.Address.{Address, addressport_equals}
use sngrep.Call.{Call, call_create}
use sngrep.Rtp.{Stream, packet_rtp, stream_create, stream_complete, rtp_find_call_stream}
use sngrep.Rtp.Search.{rtp_find_call_stream-first}
use sngrep.Rtp.Data.{byte, data_is_rtp, data_is_rtcp, data_is_rtp-data_is_rtcp}

abbrev east : Address
east = record { ip = b'e' ∷ []; port = 4000 }

abbrev west : Address
west = record { ip = b'w' ∷ []; port = 4002 }

-- Both streams lead to the west; the one at 8 had packets from the east.
abbrev streams : Ptr → Stream
unfolding stream_create stream_complete
streams p =
    if p == 8
    then record (stream_complete (stream_create 3 west packet_rtp) east) { pktcnt = 2 }
    else stream_create 3 west packet_rtp

abbrev listed : Vector
listed = record {
  count = 2;
  limit = 4;
  step = 4;
  list = some (some 7 ∷ some 8 ∷ none ∷ none ∷ []);
  destroyer = null;
  sorter = null;
}

abbrev call : Call
unfolding call_create
call =
    record (call_create (record { msg_destroyer = 4; packet_destroyer = 5; generic_destroyer = 6 })
      false [] []) { streams = listed }

call-Holds : Holds call.streams (7 ∷ 8 ∷ [])
unfolding call
call-Holds = record {
  storage = allocated (none ∷ none ∷ []) refl refl;
  counted = refl;
  non_null = (omega arith, (omega arith, tt));
  step_pos = omega arith;
  step_small = omega arith;
  small = omega arith;
  within = omega arith;
  few = omega arith;
}

rtp_find_call_stream-first_example : rtp_find_call_stream streams call east west ≡ some 7
unfolding streams addressport_equals
rtp_find_call_stream-first_example = rtp_find_call_stream-first streams call call-Holds east west

-- A full intra-frame request of RTCP, of twelve bytes.
abbrev request : List ℕ
request = 128 ∷ 192 ∷ 0 ∷ 2 ∷ 0 ∷ 0 ∷ 0 ∷ 0 ∷ 0 ∷ 0 ∷ 0 ∷ 0 ∷ []

data_is_rtp-data_is_rtcp_example : byte request 1 ≡ some 192
unfolding data_is_rtp data_is_rtcp
data_is_rtp-data_is_rtcp_example =
    data_is_rtp-data_is_rtcp request
      (
        omega arith,
        (
          omega arith,
          (
            omega arith,
            (
              omega arith,
              (
                omega arith,
                (
                  omega arith,
                  (
                    omega arith,
                    (omega arith, (omega arith, (omega arith, (omega arith, (omega arith, tt))))),
                  ),
                ),
              ),
            ),
          ),
        ),
      )
      refl refl
