-- ===== src/CallList/Packets.antt =====
-- src/sip.c, `sip_check_packet` as a whole.
use mathlib.Core.List.{Perm}
use mathlib.Core.List.Perm
use sngrep.Common.{◌+◌, ◌<◌, ◌≡◌, true, none, some, List, ◌∷◌, ◌==◌, ◌||◌, ltb, if◌then◌else◌, ◌^◌}
use sngrep.Vector.{Ptr, null, Vector}
use sngrep.Vector.Holds.{Holds}
use sngrep.Vector.Remove.{has}
use sngrep.Vector.Sorting.{Fresh}
use sngrep.Call.{Call}
use sngrep.CallList.{Sip, Env, Packet, wanted, max_sip_payload}
use sngrep.CallList.Check.{with_callid}
use sngrep.CallList.NewCall.{left}
use sngrep.CallList.Message.{HasRoom}

-- The vectors of the calls have room for one more item, and no listed call has the message `m`.
pub record Ready (s : Sip) (xs : List Ptr) (m : Ptr) : Type 0 where
  pub xcalls_room : (p : Ptr) → HasRoom (s.calls p).xcalls
  pub msgs_room :
      (p : Ptr)
      → has p xs ≡ true
      → (ms : List Ptr) × Holds (s.calls p).msgs ms
        × Fresh m ms
        × ((s.calls p).msgs.sorter ≡ null)
        × ((s.calls p).msgs.limit + (s.calls p).msgs.step < 2 ^ 31)

-- The calls that are listed after a packet, up to their order.
abbrev pub listed_after : Env → Sip → Packet → Ptr → List Ptr → List Ptr
listed_after env s packet c xs =
    if ltb max_sip_payload packet.payload_len || packet.reqresp == 0
    then xs
    else elim (with_callid s.calls packet.callid xs) [
      | some q ↦ xs
      | none ↦ if wanted env s packet then c ∷ left env packet c s xs else xs
    ]
