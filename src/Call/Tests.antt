-- ===== src/Call/Tests.antt =====
-- src/sip_call.c: the theorems at concrete messages and calls.
use sngrep.Common.{some, ℕ, ◌≡◌, refl, false, List, [], ◌∷◌, arith, ◌==◌, if◌then◌else◌}
use sngrep.Vector.{Ptr, null}
use sngrep.Vector.Holds.{Holds, allocated}
use sngrep.Hash.{key_eq}
use sngrep.Address.{Address}
use sngrep.Msg.{Msg}
use sngrep.Call.{Call, call_create, same_route, call_msg_retrans_check}
use sngrep.Call.Retrans.{call_msg_retrans_check-latest}
use sngrep.Call.State.{method_invite, method_ack, method_bye}
use sngrep.Call.History.{
  Signal, start, replay, Seen, needs, codes_after, replay-Seen, Marked, after, replay-Marked,
}

-- A call with an answer, that is then hung up.
abbrev talk : List Signal
talk =
    record { code = method_invite; cseq = 1; msg = 10 }
    ∷ record { code = 180; cseq = 1; msg = 11 }
    ∷ record { code = method_ack; cseq = 1; msg = 12 }
    ∷ record { code = method_bye; cseq = 2; msg = 13 }
    ∷ []

replay-Seen_example : Seen (needs (replay start talk).state) (codes_after [] talk)
replay-Seen_example = replay-Seen talk

replay-Marked_example : Marked (replay start talk) (after [] talk)
replay-Marked_example = replay-Marked talk

-- The names of two calls, and of the others none.
abbrev names : ℕ → List ℕ
names n = if n == 1 then b'a' ∷ [] else (if n == 2 then b'a' ∷ b'b' ∷ [] else [])

-- The messages at 7 and 9 have the same addresses and the same payload.
abbrev here : Address
here = record { ip = b'1' ∷ []; port = 5060 }

abbrev alike : Ptr → Msg
alike p = record {
  reqresp = method_invite;
  cseq = 1;
  index = 0;
  call = 50;
  retrans = null;
  media_count = 0;
  payload = b'I' ∷ [];
  src = here;
  dst = here;
  time = record { tv_sec = p; tv_usec = 0 };
}

abbrev two_msgs : Call
unfolding call_create
two_msgs =
    record (call_create (record { msg_destroyer = 4; packet_destroyer = 5; generic_destroyer = 6 })
      false [] []) {
        msgs = record {
          count = 2;
          limit = 2;
          step = 2;
          list = some (some 7 ∷ some 9 ∷ []);
          destroyer = null;
          sorter = null;
        };
      }

two_msgs-Holds : Holds two_msgs.msgs (7 ∷ 9 ∷ [])
unfolding two_msgs
two_msgs-Holds = record {
  storage = allocated [] refl refl;
  counted = refl;
  non_null = (omega arith, (omega arith, tt));
  step_pos = omega arith;
  step_small = omega arith;
  small = omega arith;
  within = omega arith;
  few = omega arith;
}

call_msg_retrans_check-latest_example :
    call_msg_retrans_check key_eq alike two_msgs 9 ≡ some (record (alike 9) { retrans = 7 })
unfolding same_route
call_msg_retrans_check-latest_example =
    call_msg_retrans_check-latest key_eq alike two_msgs (7 ∷ []) [] 9 two_msgs-Holds
      (omega arith, tt)
