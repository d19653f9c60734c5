-- ===== src/Save/Tests.antt =====
-- A call with two messages, the first of which was captured later, and examples.
use mathlib.Core.List.{Perm}
use sngrep.Common.{ℕ, ◌+◌, ◌≡◌, refl, false, none, some, List, [], ◌∷◌, ◌==◌, if◌then◌else◌, arith}
use sngrep.Vector.{Ptr, Vector, create}
use sngrep.Vector.Holds.{Holds, create-Holds, allocated}
use sngrep.Vector.Sorting.{Distinct}
use sngrep.Vector.Order.{Sorted}
use sngrep.Address.{Address}
use sngrep.Packet.{Packet, packet_create, packet_add_frame}
use sngrep.Call.{call_create}
use sngrep.Save.{Memory, save_to_file}
use sngrep.Save.Order.{NotLater, CallHolds, save_to_file-Sorted}

abbrev nowhere : Address
nowhere = record { ip = []; port = 0 }

abbrev captured_at : ℕ → Packet
captured_at sec =
    packet_add_frame (packet_create 4 17 nowhere nowhere 1)
      (record { time = record { tv_sec = sec; tv_usec = 0 }; bytes = none })

abbrev listed : Vector
listed = record {
  count = 2;
  limit = 4;
  step = 4;
  list = some (some 1 ∷ some 2 ∷ none ∷ none ∷ []);
  destroyer = 0;
  sorter = 0;
}

abbrev memory : Memory
memory = record {
  packets = λ p. if p == 11 then captured_at 5 else captured_at 3;
  calls = λ c.
      record (call_create
        (record { msg_destroyer = 1; packet_destroyer = 2; generic_destroyer = 3 }) false [] []) {
          msgs = listed;
        };
  packet_of = λ m. m + 10;
}

two_messages : Holds listed (1 ∷ 2 ∷ [])
two_messages = record {
  storage = allocated (none ∷ none ∷ []) refl refl;
  counted = refl;
  non_null = (omega arith, (omega arith, tt));
  step_pos = omega arith;
  step_small = omega arith;
  small = omega arith;
  within = omega arith;
  few = omega arith;
}

call-CallHolds : CallHolds memory false (λ c. 1 ∷ 2 ∷ []) (λ c. []) 1
call-CallHolds = record {
  msgs = two_messages;
  rtp_vector = create 0 1;
  has_rtp = λ e. cc;
  rtp = create-Holds 0 1 (omega arith) (omega arith) (omega arith);
}

-- The list of calls, here with the calls 1 and 2, of which the filter passes the first.
save_to_file-Sorted_example :
    (out : List Ptr) × (save_to_file memory false listed (some (λ c. c == 1)) ≡ some out)
    × Sorted (NotLater memory) out
    × Perm out (11 ∷ 12 ∷ [])
    × Distinct out
save_to_file-Sorted_example =
    save_to_file-Sorted memory false (λ c. 1 ∷ 2 ∷ []) (λ c. []) listed (1 ∷ 2 ∷ [])
      (some (λ c. c == 1)) two_messages (call-CallHolds, tt) (omega arith, (omega arith, tt))
      ((omega arith, tt), (tt, tt)) (omega arith)
