-- ===== src/Group.antt =====
-- src/group.c: calls shown together. The heap gives the call at an address and the message at one.
pub mod Merge
pub mod Step
mod Tests
use sngrep.Common.{
  ℕ, zero, suc, ◌+◌, ◌-◌, ◌*◌, ◌%◌, Bool, true, false, Option, none, some, List, [], ◌∷◌, ◌==◌,
  ◌&&◌, ◌||◌, not, ltb, if◌then◌else◌, ◌>>=◌,
}
use sngrep.Common.Int.{ℤ, pos, negsuc, to_int, ◌+ℤ◌, ◌-ℤ◌}
use sngrep.Vector.{Ptr, null, Vector, create, set_sorter, append, remove, index, item, first, last}
use sngrep.Vector.Iter.{
  Iter, iterator, set_current, set_filter, next, prev, each, for_each, iterator_count,
}
use sngrep.Vector.Copy.{append_vector, clone}
use sngrep.Vector.Settle.{settle}
use sngrep.Util.{timeval_is_older}
use sngrep.Msg.{Msgs, msg_get_time, msg_has_sdp, msg_is_older}
use sngrep.Call.{Call}
use sngrep.Hash.{key_eq}

-- `sip_call_group_t`, less the colour.
pub record Group : Type 0 where
  pub callid : Option (List ℕ)
  pub calls : Vector
  pub sdp_only : Bool

pub record Memory : Type 0 where
  pub msgs : Msgs
  pub calls : Ptr → Call

unfoldable pub call_group_create : Group
unfolding create
call_group_create = record { callid = none; calls = create 5 2; sdp_only = false }

-- A message may follow one whose time is not greater than its own.
abbrev pub stays_behind : Msgs → Ptr → Ptr → Bool
stays_behind heap cur prev = timeval_is_older (msg_get_time heap cur) (msg_get_time heap prev)

unfoldable pub call_group_msg_sorter : Msgs → Vector → Ptr → Option Vector
unfolding settle
call_group_msg_sorter heap v x = settle (stays_behind heap) v x (v.count - 1)

-- The address of `call_group_msg_sorter`, and what a call through a pointer runs here: the vectors
-- of this component have that sorter or none.
abbrev pub msg_sorter : Ptr
msg_sorter = 1

unfoldable pub run_sorter : Msgs → Ptr → Vector → Ptr → Option Vector
run_sorter heap f v x = if f == msg_sorter then call_group_msg_sorter heap v x else none

-- `call_group_exists`
unfoldable pub call_group_exists : Group → Ptr → Option Bool
unfolding index
call_group_exists g c = index g.calls c >>= λ i. some (elim i [ pos n ↦ true | negsuc n ↦ false ])

-- `vector_index(…) % 7 + 1`: C's remainder of -1 is -1.
unfoldable pub call_group_color : Group → Ptr → Option ℤ
unfolding index
call_group_color g c =
    index g.calls c >>= λ i. some (elim i [ pos n ↦ pos (n % 7 + 1) | negsuc n ↦ pos 0 ])

-- A call set `locked` in memory.
abbrev pub lock : Bool → Memory → Ptr → Memory
lock b mem p = record mem {
  calls = λ q. if q == p then record (mem.calls p) { locked = b } else mem.calls q;
}

unfoldable pub call_group_add : Memory → Group → Ptr → Option (Memory × Group)
unfolding call_group_exists append
call_group_add mem g c =
    if c == null
    then some (mem, g)
    else call_group_exists g c >>= λ there.
        if there
        then some (mem, g)
        else append (run_sorter mem.msgs) g.calls c >>= λ (v, _).
            some (lock true mem c, record g { calls = v })

-- The body of the loop of `call_group_add_calls`: the lock comes before the test.
unfoldable pub add_one : Memory × Group → Ptr → Option (Memory × Group)
unfolding call_group_exists append
add_one (mem, g) c = call_group_exists g c >>= λ there.
    if there
    then some (lock true mem c, g)
    else append (run_sorter mem.msgs) g.calls c >>= λ (v, _).
        some (lock true mem c, record g { calls = v })

unfoldable pub call_group_add_calls : Memory → Group → Vector → Option (Memory × Group)
unfolding add_one iterator for_each
call_group_add_calls mem g calls = each add_one (iterator (some calls)) (mem, g)

unfoldable pub call_group_del : Memory → Group → Ptr → Option (Memory × Group)
unfolding remove
call_group_del mem g c =
    if c == null
    then some (mem, g)
    else remove g.calls c >>= λ (v, _). some (lock false mem c, record g { calls = v })

unfoldable pub call_group_count : Group → ℤ
call_group_count g = to_int g.calls.count

-- The clone has neither the Call-Id nor the SDP mark of the original.
unfoldable pub call_group_clone : Msgs → Option Group → Option (Option Group)
unfolding clone
call_group_clone heap none = some none
call_group_clone heap (some g) = clone (run_sorter heap) (some g.calls) >>= λ v.
    v >>= λ w. some (some (record { callid = none; calls = w; sdp_only = false }))

-- The body of the loop that collects the messages of all calls.
unfoldable pub collect : Memory → Vector → Ptr → Option Vector
unfolding append_vector
collect mem v c =
    append_vector (run_sorter mem.msgs) (some v) (some (mem.calls c).msgs) >>= λ (_, w). w

-- The vector that `call_group_get_next_msg` and `call_group_get_prev_msg` build and destroy.
unfoldable pub merged : Memory → Group → Option Vector
unfolding collect create set_sorter iterator for_each
merged mem g = each (collect mem) (iterator (some g.calls)) (set_sorter (create 1 10) msg_sorter)

-- One step of `call_group_get_next_msg`, before the test for SDP.
unfoldable pub following : Memory → Group → Ptr → Option Ptr
unfolding merged next set_current index first item
following mem g m =
    if g.calls.count == 1
    then (first g.calls >>= λ c.
        let msgs = (mem.calls c).msgs in
        index msgs m >>= λ i. next (set_current (iterator (some msgs)) i) >>= λ (x, _). some x)
    else merged mem g >>= λ v. if m == null then first v else index v m >>= λ i. item v (i +ℤ pos 1)

-- `call_group_get_next_msg` on fuel: with `sdp_only` it goes on to a message with SDP. Parsing the
-- message it answers does not change which one it is.
unfoldable pub get_next_msg : ℕ → Memory → Group → Ptr → Option Ptr
unfolding following msg_has_sdp
get_next_msg zero mem g m = none
get_next_msg (suc k) mem g m = following mem g m >>= λ x.
    elim (not (x == null) && (g.sdp_only && not (msg_has_sdp mem.msgs x))) [
      | true ↦ get_next_msg k mem g x
      | false ↦ some x
    ]

-- One step of `call_group_get_prev_msg`, before the test for SDP.
unfoldable pub preceding : Memory → Group → Ptr → Option Ptr
unfolding merged prev set_current index first last item
preceding mem g m =
    if g.calls.count == 1
    then (first g.calls >>= λ c.
        let msgs = (mem.calls c).msgs in
        index msgs m >>= λ i. prev (set_current (iterator (some msgs)) i) >>= λ (x, _). some x)
    else merged mem g >>= λ v. if m == null then last v else index v m >>= λ i. item v (i -ℤ pos 1)

unfoldable pub get_prev_msg : ℕ → Memory → Group → Ptr → Option Ptr
unfolding preceding msg_has_sdp
get_prev_msg zero mem g m = none
get_prev_msg (suc k) mem g m = preceding mem g m >>= λ x.
    elim (not (x == null) && (g.sdp_only && not (msg_has_sdp mem.msgs x))) [
      | true ↦ get_prev_msg k mem g x
      | false ↦ some x
    ]

-- The loop of `call_group_get_next`: the first other call whose first message `msg_is_older`
-- accepts ends it.
unfoldable pub get_next_loop : Memory → Group → Ptr → ℕ → ℕ → Option Ptr
unfolding first item msg_is_older
get_next_loop mem g c zero i = some null
get_next_loop mem g c (suc k) i = item g.calls (pos i) >>= λ d.
    if d == c
    then get_next_loop mem g c k (i + 1)
    else first (mem.calls d).msgs >>= λ m. first (mem.calls c).msgs >>= λ n.
        elim (msg_is_older mem.msgs m n) [
          | true ↦ some (if m == null then null else (mem.msgs m).call)
          | false ↦ get_next_loop mem g c k (i + 1)
        ]

-- `call_group_get_next`; `fuel` is for the search of the first message.
unfoldable pub call_group_get_next : ℕ → Memory → Group → Ptr → Option Ptr
unfolding get_next_loop get_next_msg
call_group_get_next fuel mem g c =
    if c == null
    then (get_next_msg fuel mem g null >>= λ m.
        some (if m == null then null else (mem.msgs m).call))
    else get_next_loop mem g c g.calls.count 0

-- `call_group_msg_count`: the messages of all calls, or those with SDP.
unfoldable pub msg_count_loop : Memory → Group → ℕ → ℕ → ℤ → Option ℤ
unfolding item iterator_count iterator set_filter
msg_count_loop mem g zero i n = some n
msg_count_loop mem g (suc k) i n = item g.calls (pos i) >>= λ c.
    let it = iterator (some (mem.calls c).msgs) in
    iterator_count (if g.sdp_only then set_filter it (some (msg_has_sdp mem.msgs)) else it)
    >>= λ (m, _). msg_count_loop mem g k (i + 1) (n +ℤ m)

unfoldable pub call_group_msg_count : Memory → Group → Option ℤ
unfolding msg_count_loop
call_group_msg_count mem g = msg_count_loop mem g g.calls.count 0 (pos 0)
