-- ===== src/Group/Tests.antt =====
-- src/group.c: the messages of a group of two calls.
use mathlib.Core.List.{Perm}
use sngrep.Common.{
  ℕ, ◌≡◌, ◌≢◌, refl, none, some, List, [], ◌∷◌, arith, ◌==◌, if◌then◌else◌, false, ◌++◌, ◌<◌,
  length,
}
use sngrep.Vector.{Ptr, null, Vector}
use sngrep.Vector.Holds.{Holds, allocated}
use sngrep.Vector.Order.{Sorted}
use sngrep.Vector.Sorting.{Distinct}
use sngrep.Address.{Address}
use sngrep.Msg.{Msg}
use sngrep.Call.{Call, call_create}
use sngrep.Group.{Group, Memory, merged, get_next_msg}
use sngrep.Group.Step.{first_shown, get_next_msg-shown}
use sngrep.Group.Merge.{NotLater, merged-Sorted}

abbrev here : Address
here = record { ip = b'1' ∷ []; port = 5060 }

-- The message at an address was captured at that second.
abbrev msg : Ptr → Msg
msg p = record {
  reqresp = 2;
  cseq = 1;
  index = 0;
  call = null;
  retrans = null;
  media_count = 0;
  payload = [];
  src = here;
  dst = here;
  time = record { tv_sec = p; tv_usec = 0 };
}

abbrev pair : Ptr → Ptr → Vector
pair a b = record {
  count = 2;
  limit = 2;
  step = 2;
  list = some (some a ∷ some b ∷ []);
  destroyer = null;
  sorter = null;
}

-- The messages of the call at 70, and those of any other.
abbrev msgs_of : Ptr → List Ptr
msgs_of c = if c == 70 then 10 ∷ 30 ∷ [] else 20 ∷ 40 ∷ []

abbrev call : Ptr → Call
unfolding call_create
call c =
    record (call_create (record { msg_destroyer = 4; packet_destroyer = 5; generic_destroyer = 6 })
      false [] []) { msgs = (if c == 70 then pair 10 30 else pair 20 40) }

abbrev memory : Memory
memory = record { msgs = msg; calls = call }

abbrev group : Group
group = record { callid = none; calls = pair 70 80; sdp_only = false }

pair-Holds : (a b : Ptr) → a ≢ null → b ≢ null → Holds (pair a b) (a ∷ b ∷ [])
pair-Holds a b p q = record {
  storage = allocated [] refl refl;
  counted = refl;
  non_null = (p, (q, tt));
  step_pos = omega arith;
  step_small = omega arith;
  small = omega arith;
  within = omega arith;
  few = omega arith;
}

merged-Sorted_example :
    (w : Vector) × (ms : List Ptr) × (merged memory group ≡ some w)
    × Holds w ms
    × Sorted (NotLater msg) ms
    × Perm ms (10 ∷ 30 ∷ 20 ∷ 40 ∷ [])
    × Distinct ms
unfolding call
merged-Sorted_example =
    merged-Sorted memory msgs_of group (70 ∷ 80 ∷ []) (pair-Holds 70 80 (omega arith) (omega arith))
      (
        pair-Holds 10 30 (omega arith) (omega arith),
        (pair-Holds 20 40 (omega arith) (omega arith), tt),
      )
      (
        (omega arith, (omega arith, (omega arith, tt))),
        ((omega arith, (omega arith, tt)), ((omega arith, tt), (tt, tt))),
      )
      (omega arith)

get_next_msg-shown_example :
    (ms : List Ptr) × Sorted (NotLater msg) ms
    × Perm ms (10 ∷ 30 ∷ 20 ∷ 40 ∷ [])
    × ((k : ℕ)
        → length ms < k
        → get_next_msg k memory group null ≡ some (first_shown memory group ms))
    × ((k : ℕ) (pre post : List Ptr) (x : Ptr)
        → pre ++ x ∷ post ≡ ms
        → length post < k
        → get_next_msg k memory group x ≡ some (first_shown memory group post))
unfolding call
get_next_msg-shown_example =
    get_next_msg-shown memory msgs_of group (70 ∷ 80 ∷ [])
      (pair-Holds 70 80 (omega arith) (omega arith))
      (
        pair-Holds 10 30 (omega arith) (omega arith),
        (pair-Holds 20 40 (omega arith) (omega arith), tt),
      )
      (
        (omega arith, (omega arith, (omega arith, tt))),
        ((omega arith, (omega arith, tt)), ((omega arith, tt), (tt, tt))),
      )
      (omega arith) (omega arith)
