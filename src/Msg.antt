-- ===== src/Msg.antt =====
-- src/sip_msg.c: a SIP message with what the other components read of its packet. The heap gives
-- the message at an address; an item of a message vector is such an address.
use sngrep.Common.{ℕ, Bool, true, false, List, ◌==◌, ltb, not, if◌then◌else◌}
use sngrep.Vector.{Ptr, null}
use sngrep.Address.{Address}
use sngrep.Util.{Timeval, timeval_is_older}

-- `payload`, `src`, `dst` and `time` are those of `msg->packet`; `time` is that of its first frame,
-- or zero. `media_count` is the length of `msg->medias`.
pub record Msg : Type 0 where
  pub reqresp : ℕ
  pub cseq : ℕ
  pub index : ℕ
  pub call : Ptr
  pub retrans : Ptr
  pub media_count : ℕ
  pub payload : List ℕ
  pub src : Address
  pub dst : Address
  pub time : Timeval

abbrev pub Msgs : Type 0
Msgs = Ptr → Msg

-- `msg_get_time`: NULL has the time zero.
unfoldable pub msg_get_time : Msgs → Ptr → Timeval
msg_get_time heap m = if m == null then record { tv_sec = 0; tv_usec = 0 } else (heap m).time

unfoldable pub msg_has_sdp : Msgs → Ptr → Bool
msg_has_sdp heap m = not ((heap m).media_count == 0)

unfoldable pub msg_is_request : Msg → Bool
msg_is_request m = ltb m.reqresp 100

unfoldable pub msg_is_older : Msgs → Ptr → Ptr → Bool
unfolding msg_get_time timeval_is_older
msg_is_older heap one two =
    if two == null
    then true
    else (if one == two
        then false
        else timeval_is_older (msg_get_time heap one) (msg_get_time heap two))
