-- ===== src/Save.antt =====
-- src/curses/ui_save.c, `save_to_file`: the packets of calls are saved in the order of time, which the
-- sorter of src/capture.c keeps.
pub mod Order
mod Tests
use sngrep.Common.{
  ℕ, ◌-◌, Bool, Option, none, some, List, [], ◌∷◌, ◌++◌, ◌==◌, if◌then◌else◌, ◌>>=◌,
}
use sngrep.Vector.{Ptr, Vector, create, set_sorter, append}
use sngrep.Vector.Iter.{Iter, iterator, set_filter, each, for_each}
use sngrep.Vector.Copy.{append_item}
use sngrep.Vector.Settle.{settle}
use sngrep.Util.{timeval_is_older}
use sngrep.Packet.{Packet, packet_time}
use sngrep.Call.{Call}

-- The memory: packets, calls, and `msg->packet`.
pub record Memory : Type 0 where
  pub packets : Ptr → Packet
  pub calls : Ptr → Call
  pub packet_of : Ptr → Ptr

abbrev pub stays_behind : Memory → Ptr → Ptr → Bool
stays_behind mem cur prev =
    timeval_is_older (packet_time (some (mem.packets cur))) (packet_time (some (mem.packets prev)))

-- `capture_packet_time_sorter`
unfoldable pub capture_packet_time_sorter : Memory → Vector → Ptr → Option Vector
unfolding settle
capture_packet_time_sorter mem v x = settle (stays_behind mem) v x (v.count - 1)

-- The address of the sorter, and what a call through a pointer runs here.
abbrev pub time_sorter : Ptr
time_sorter = 1

unfoldable pub run_sorter : Memory → Ptr → Vector → Ptr → Option Vector
unfolding capture_packet_time_sorter
run_sorter mem f v x = if f == time_sorter then capture_packet_time_sorter mem v x else none

-- The body of the loop over messages.
unfoldable pub save_msg : Memory → Vector → Ptr → Option Vector
unfolding append_item run_sorter
save_msg mem sorted m = append_item (run_sorter mem) sorted (mem.packet_of m)

-- The body of the loop over calls; `with_rtp` is the format SAVE_PCAP_RTP.
unfoldable pub save_call : Memory → Bool → Vector → Ptr → Option Vector
unfolding save_msg append_item run_sorter for_each iterator
save_call mem with_rtp sorted c =
    each (save_msg mem) (iterator (some (mem.calls c).msgs)) sorted >>= λ sorted'.
    if with_rtp
    then each (append_item (run_sorter mem)) (iterator (mem.calls c).rtp_packets) sorted'
    else some sorted'

-- All packets of the calls that pass the filter, in a vector in the order of time.
unfoldable pub sorted_packets : Memory → Bool → Vector → Option (Ptr → Bool) → Option Vector
unfolding save_call set_sorter create iterator for_each
sorted_packets mem with_rtp calls filter =
    each (save_call mem with_rtp) (record (iterator (some calls)) { filter = filter })
      (set_sorter (create 100 50) time_sorter)

-- The packets in the order in which `dump_packet` writes them.
unfoldable pub save_to_file : Memory → Bool → Vector → Option (Ptr → Bool) → Option (List Ptr)
unfolding sorted_packets iterator for_each
save_to_file mem with_rtp calls filter = sorted_packets mem with_rtp calls filter >>= λ sorted.
    each (λ out p. some (out ++ p ∷ [])) (iterator (some sorted)) []
