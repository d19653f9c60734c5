-- ===== src/CallList/Tests.antt =====
-- src/sip.c: the theorems at a list of at most three calls.
use sngrep.Common.{ℕ, ◌≡◌, refl, true, false, Option, none, some, List, [], ◌∷◌, arith, subst, sym}
use sngrep.Vector.{Ptr, null, Vector}
use sngrep.Vector.Holds.{Holds}
use sngrep.Util.{Timeval}
use sngrep.Address.{Address}
use sngrep.Msg.{Msg}
use sngrep.Call.{Call, Destroyers, call_create}
use sngrep.CallList.{
  Sip, Packet, Env, sip_init, sip_calls_rotate, sip_calls_clear, sip_find_by_callid, add_call,
  list_call,
}
use sngrep.CallList.Invariant.{IsValid}
use sngrep.CallList.Rotate.{Rotated, sip_calls_rotate-IsValid}
use sngrep.CallList.Check.{sip_find_by_callid-listed}
use sngrep.CallList.NewCall.{Pending, add_call-Pending, list_call-IsValid}
use sngrep.CallList.NewCall.{created}
use sngrep.CallList.Clear.{sip_init-IsValid, sip_calls_clear-IsValid}

abbrev destroyers : Destroyers
destroyers = record { msg_destroyer = 4; packet_destroyer = 5; generic_destroyer = 6 }

abbrev env : Env
env = record {
  attribute = λ a c. c.callid;
  filter_check_call = λ c. true;
  destroyers = destroyers;
  capture_rtp = false;
  same_payload = λ a b. false;
  parse_media = λ c m p. some (c, m);
}

abbrev no_callid : Ptr → Call
no_callid p = call_create destroyers false [] []

abbrev here : Address
here = record { ip = b'1' ∷ []; port = 5060 }

abbrev noon : Timeval
noon = record { tv_sec = 43200; tv_usec = 0 }

abbrev invite : List ℕ → Packet
invite callid = record {
  payload = callid;
  payload_len = 1;
  callid = callid;
  xcallid = [];
  reqresp = 2;
  cseq = 1;
  cseq_len = 1;
  warning_len = 0;
  matches = true;
  src = here;
  dst = here;
  time = noon;
}

abbrev no_msg : Ptr → Msg
no_msg p = record {
  reqresp = 0;
  cseq = 0;
  index = 0;
  call = null;
  retrans = null;
  media_count = 0;
  payload = [];
  src = here;
  dst = here;
  time = noon;
}

-- A list that has room for one call.
abbrev fresh : Sip
unfolding call_create
fresh = sip_init 1 false false 0 true no_callid no_msg

sip_init-IsValid_one : IsValid fresh []
unfolding fresh sip_init
sip_init-IsValid_one =
    sip_init-IsValid 1 false false 0 true no_callid no_msg (omega arith) (omega arith)

abbrev call_x : List ℕ
call_x = b'x' ∷ []

abbrev call_y : List ℕ
call_y = b'y' ∷ []

abbrev from_some : Option Sip → Sip
from_some none = fresh
from_some (some s) = s

-- The list after an INVITE of the call at 40: first only indexed, then listed.
unfoldable pending : Sip
unfolding add_call
pending = from_some (add_call env fresh (invite call_x) 40)

unfoldable one : Sip
unfolding list_call pending
one = from_some (list_call env pending 40)

pending-Pending : Pending pending 40 []
unfolding pending fresh sip_init
pending-Pending =
    let (s, run, p, _, _, _, _, _, _) =
      add_call-Pending env (invite call_x) 40 sip_init-IsValid_one refl refl (omega arith) in
    subst (λ o. Pending (from_some o) 40 []) (sym run) p

one-IsValid : IsValid one (40 ∷ [])
unfolding one pending sip_init
one-IsValid =
    let (s, run, v, _, _) =
      list_call-IsValid env pending-Pending (omega arith) (omega arith) (omega arith) in
    subst (λ o. IsValid (from_some o) (40 ∷ [])) (sym run) v

-- The list is full, so the call at 40 makes room for a new one, at the same address.
add_call-Pending_example :
    (s : Sip) × (add_call env one (invite call_y) 40 ≡ some s)
    × Pending s 40 []
    × (s.last_index ≡ 2)
    × (s.calls 40 ≡ created env (invite call_y) 40 one)
    × ((p : Ptr) → false ≡ true → s.calls p ≡ one.calls p)
    × (s.destroyed ≡ 40 ∷ [])
    × (s.list.limit ≡ 200)
    × (s.list.step ≡ 50)
unfolding one sip_init
add_call-Pending_example =
    add_call-Pending env (invite call_y) 40 one-IsValid refl refl (omega arith)

sip_calls_rotate-IsValid_example :
    (s : Sip) × (sip_calls_rotate one ≡ some s) × IsValid s [] × Rotated one s [] (40 ∷ [])
unfolding one sip_init
sip_calls_rotate-IsValid_example = sip_calls_rotate-IsValid one-IsValid

sip_find_by_callid-listed_example : sip_find_by_callid one call_x ≡ some 40
unfolding one sip_init
sip_find_by_callid-listed_example = sip_find_by_callid-listed one-IsValid call_x

sip_calls_clear-IsValid_example :
    (s : Sip) × (sip_calls_clear one ≡ some s) × IsValid s [] × (s.last_index ≡ 1)
unfolding one sip_init
sip_calls_clear-IsValid_example = sip_calls_clear-IsValid one-IsValid (omega arith) (omega arith)
