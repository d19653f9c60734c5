-- ===== src/CallList.antt =====
-- src/sip.c: the list of all calls, its index by Call-Id, and what a captured packet does to them.
-- The global `calls` and the memory of calls and messages are one record.
pub mod Sort
pub mod Invariant
pub mod Rotate
pub mod Clear
pub mod Check
pub mod NewCall
pub mod Message
pub mod Packets
mod Tests
use sngrep.Common.{
  ℕ, zero, suc, ◌+◌, ◌-◌, Bool, true, false, Option, none, some, List, [], ◌∷◌, ◌==◌, ◌&&◌, ◌||◌,
  not, ltb, leb, length, ◌++◌, if◌then◌else◌, ◌>>=◌,
}
use sngrep.Common.Int.{ℤ, pos, negsuc, ltb_ℤ, next_int}
use sngrep.Vector.{
  Ptr, null, Vector, set_destroyer, set_sorter, append, remove, index, destroy, clear, u32,
}
use sngrep.Vector
use sngrep.Vector.Iter.{Iter, iterator, next, each, for_each}
use sngrep.Vector.Copy.{clone, copy_if}
use sngrep.Vector.Settle.{settle}
use sngrep.Hash
use sngrep.Hash.{Table}
use sngrep.Address.{Address}
use sngrep.Util.{Timeval}
use sngrep.Msg.{Msg}
use sngrep.Call.{
  Call, Destroyers, call_create, call_is_invite, call_is_active, call_update_state,
  call_add_message, call_add_xcall, call_msg_retrans_check,
}
use sngrep.Call.State.{method_invite}
use sngrep.Call.Compare.{Column, numbers, texts, call_attr_compare}

-- `destroyed` has the calls that were handed to `call_destroyer`, the first one first. What lay at
-- the address of such a call, and its messages, are no longer the program's, whatever `calls` and
-- `msgs` have there; the address may come back with a new call. The two counters are an `int` each.
pub record Sip : Type 0 where
  pub list : Vector
  pub active : Vector
  pub changed : Bool
  pub sort_by : ℕ
  pub sort_asc : Bool
  pub last_index : ℕ
  pub callids : Table
  pub call_count_unrotated : ℕ
  pub limit : ℕ
  pub only_calls : Bool
  pub ignore_incomplete : Bool
  pub calls : Ptr → Call
  pub msgs : Ptr → Msg
  pub destroyed : List Ptr

-- The addresses of `sip_list_sorter` and `call_destroyer`.
abbrev pub list_sorter : Ptr
list_sorter = 2

abbrev pub call_destroyer : Ptr
call_destroyer = 3

-- A write to one address.
abbrev pub update {ℓ} : {A : Type ℓ} → (Ptr → A) → Ptr → A → Ptr → A
update f p a q = if q == p then a else f q

-- The constants of the source that the list reads.
abbrev pub attr_msgcnt : ℕ
attr_msgcnt = 13

abbrev pub method_message : ℕ
method_message = 11

abbrev pub max_sip_payload : ℕ
max_sip_payload = 10240

-- A packet after the regular expressions of `sip_init` and the match expression of the user were
-- run on its payload: those are of the C library. Without a Call-ID header `callid` is empty;
-- `reqresp` is 0 if it is no SIP message. `cseq_len` and `warning_len` are the lengths of the texts
-- that were matched as CSeq number and as warning code, 0 without such a header.
pub record Packet : Type 0 where
  pub payload : List ℕ
  pub payload_len : ℕ
  pub callid : List ℕ
  pub xcallid : List ℕ
  pub reqresp : ℕ
  pub cseq : ℕ
  pub cseq_len : ℕ
  pub warning_len : ℕ
  pub matches : Bool
  pub src : Address
  pub dst : Address
  pub time : Timeval

-- `sip_init` with the sort settings read. The memory is what it was.
unfoldable pub sip_init : ℕ → Bool → Bool → ℕ → Bool → (Ptr → Call) → (Ptr → Msg) → Sip
unfolding Vector.create set_destroyer set_sorter Hash.create
sip_init limit only_calls no_incomplete by asc calls msgs = record {
  list = set_sorter (set_destroyer (Vector.create 200 50) call_destroyer) list_sorter;
  active = Vector.create 10 10;
  changed = false;
  sort_by = by;
  sort_asc = asc;
  last_index = 0;
  callids = Hash.create limit;
  call_count_unrotated = 0;
  limit = limit;
  only_calls = only_calls;
  ignore_incomplete = no_incomplete;
  calls = calls;
  msgs = msgs;
  destroyed = [];
}

-- `sip_calls_has_changed`
unfoldable pub sip_calls_has_changed : Sip → Bool × Sip
sip_calls_has_changed s = (s.changed, record s { changed = false })

-- `sip_call_is_active`
unfoldable pub sip_call_is_active : Sip → Ptr → Option Bool
unfolding index
sip_call_is_active s c = index s.active c >>= λ i. some (elim i [ pos n ↦ true | negsuc n ↦ false ])

-- `sip_find_by_callid`; NULL if there is none.
unfoldable pub sip_find_by_callid : Sip → List ℕ → Option Ptr
unfolding Hash.find
sip_find_by_callid s callid =
    Hash.find s.callids callid >>= λ found. some (elim found [ none ↦ null | some p ↦ p ])

-- `sip_calls_rotate`: the first call of the list that is not locked goes, and is destroyed. The
-- vector of active calls has no destroyer.
unfoldable pub rotate_loop : ℕ → Iter → Sip → Option Sip
unfolding next Hash.remove remove
rotate_loop zero it s = none
rotate_loop (suc k) it s = next it >>= λ (c, it'). elim (c == null) [
  | true ↦ some s
  | false ↦ elim (s.calls c).locked [
    | true ↦ rotate_loop k it' s
    | false ↦ Hash.remove s.callids (s.calls c).callid >>= λ t. remove s.active c >>= λ (a, _).
        remove s.list c >>= λ (l, gone).
        some (record s { callids = t; active = a; list = l; destroyed = s.destroyed ++ gone })
  ]
]

unfoldable pub sip_calls_rotate : Sip → Option Sip
unfolding rotate_loop iterator
sip_calls_rotate s = rotate_loop (suc s.list.count) (iterator (some s.list)) s

-- `sip_calls_clear`
unfoldable pub sip_calls_clear : Sip → Option Sip
unfolding Hash.create clear
sip_calls_clear s = clear s.list >>= λ (l, gone). clear s.active >>= λ (a, _). some (record s {
  callids = Hash.create s.limit;
  list = l;
  active = a;
  destroyed = s.destroyed ++ gone;
})

-- The loop that fills the index again.
unfoldable pub reindex : (Ptr → Call) → Table → Ptr → Option Table
unfolding Hash.insert
reindex calls t c = Hash.insert t (calls c).callid c

-- `sip_parse_extra_headers`: the warning code is copied into `warning[10]`. The fields that it
-- sets, the texts of reason and identity and the warning, are no part of a call here.
unfoldable pub sip_parse_extra_headers : Call → Packet → Option Call
sip_parse_extra_headers c packet = if ltb 9 packet.warning_len then none else some c

-- Whether a byte of the payload ends it as a text.
abbrev pub has_end : List ℕ → Bool
has_end [] = false
has_end (b ∷ bytes) = (b == 0) || has_end bytes

-- What `sip_check_packet` does before it looks for the call overruns a buffer: the copy of the
-- payload has no end as a text, the Call-ID is longer than `callid[1024]` with its end, or the
-- CSeq number than `cseq[11]`.
unfoldable pub overruns : Packet → Bool
overruns packet =
    (leb max_sip_payload packet.payload_len && not (has_end packet.payload))
    || (ltb 1023 (length packet.callid) || ltb 10 packet.cseq_len)

-- What the list uses of other components: `attribute` is the text that `call_get_attribute` writes,
-- `filter_check_call` the filter of the user, `destroyers` the functions that a new call installs,
-- `same_payload` is `!strcasecmp`. `parse_media` is `sip_parse_msg_media`, on
-- the call and the message; none is a fault.
pub record Env : Type 0 where
  pub attribute : ℕ → Call → List ℕ
  pub filter_check_call : Call → Bool
  pub destroyers : Destroyers
  pub capture_rtp : Bool
  pub same_payload : List ℕ → List ℕ → Bool
  pub parse_media : Call → Msg → Packet → Option (Call × Msg)

module _ (env : Env) where
  -- The column that `call_attr_compare` reads for the sort attribute.
  unfoldable pub column : Sip → Column
  column s =
      if s.sort_by == 0
      then numbers (λ p. (s.calls p).index)
      else (if s.sort_by == attr_msgcnt
          then numbers (λ p. (s.calls p).msgs.count)
          else texts (λ p. env.attribute s.sort_by (s.calls p)))

  -- `(asc && cmp > 0) || (!asc && cmp < 0)`
  unfoldable pub sorts_behind : Sip → Ptr → Ptr → Bool
  unfolding column call_attr_compare
  sorts_behind s cur prev =
      let cmp = call_attr_compare (column s) cur prev in
      (s.sort_asc && ltb_ℤ (pos 0) cmp) || (not s.sort_asc && ltb_ℤ cmp (pos 0))

  unfoldable pub sip_list_sorter : Sip → Vector → Ptr → Option Vector
  unfolding settle sorts_behind
  sip_list_sorter s v x = if v.count == 1 then some v else settle (sorts_behind s) v x (v.count - 1)

  -- What a call through a pointer runs: the vectors of this component have that sorter or none.
  unfoldable pub run_sorter : Sip → Ptr → Vector → Ptr → Option Vector
  unfolding sip_list_sorter
  run_sorter s f v x = if f == list_sorter then sip_list_sorter s v x else none

  -- `sip_sort_list`: the list is cloned, which sorts it.
  unfoldable pub sip_sort_list : Sip → Option Sip
  unfolding run_sorter clone
  sip_sort_list s =
      clone (run_sorter s) (some s.list) >>= λ v. v >>= λ w. some (record s { list = w })

  unfoldable pub sip_set_sort_options : Sip → ℕ → Bool → Option Sip
  unfolding sip_sort_list
  sip_set_sort_options s by asc = sip_sort_list (record s { sort_by = by; sort_asc = asc })

  -- `sip_calls_clear_soft`: the calls that pass the filter stay.
  unfoldable pub sip_calls_clear_soft : Sip → Option Sip
  unfolding run_sorter copy_if Hash.create reindex iterator for_each
  sip_calls_clear_soft s =
      let passes = λ (p : Ptr). env.filter_check_call (s.calls p) in
      copy_if (run_sorter s) (some s.list) (some passes) >>= λ l'. l' >>= λ l.
      copy_if (run_sorter s) (some s.active) (some passes) >>= λ a'. a' >>= λ a.
      each (reindex s.calls) (iterator (some l)) (Hash.create s.limit) >>= λ t.
      some (record s { callids = t; list = l; active = a })

  -- A new call, indexed and numbered, but not yet listed. `p` is the memory that it is given.
  unfoldable pub add_call : Sip → Packet → Ptr → Option Sip
  unfolding sip_calls_rotate call_create Hash.insert
  add_call s packet p = (if s.limit == s.list.count then sip_calls_rotate s else some s) >>= λ s'.
      Hash.insert s'.callids packet.callid p >>= λ t. next_int s'.last_index >>= λ n.
      some (record s' {
        callids = t;
        last_index = n;
        calls =
            update s'.calls p
              (record (call_create env.destroyers env.capture_rtp packet.callid packet.xcallid) {
                index = n;
              });
      })

  -- The checks on the first message of a call that is not known yet.
  unfoldable pub wanted : Sip → Packet → Bool
  wanted s packet =
      packet.matches
      && (not (s.only_calls && not (packet.reqresp == method_invite))
          && not (s.ignore_incomplete && ltb method_message packet.reqresp))

  -- The message as it is before it is added to its call.
  unfoldable pub new_msg : Packet → Msg
  new_msg packet = record {
    reqresp = packet.reqresp;
    cseq = packet.cseq;
    index = 0;
    call = null;
    retrans = null;
    media_count = 0;
    payload = packet.payload;
    src = packet.src;
    dst = packet.dst;
    time = packet.time;
  }

  -- The first message of a call with an X-Call-ID adds the call to its parent, if that is known.
  unfoldable pub link_parent : Sip → Ptr → Option Sip
  unfolding sip_find_by_callid call_add_xcall run_sorter
  link_parent s c =
      if (s.calls c).msgs.count == 0 && not (Hash.key_eq (s.calls c).xcallid [])
      then (sip_find_by_callid s (s.calls c).xcallid >>= λ parent.
          call_add_xcall (run_sorter s) (if parent == null then none else some (s.calls parent)) c
          >>= λ parent'.
              some
                (elim parent' [ none ↦ s | some d ↦ record s { calls = update s.calls parent d } ]))
      else some s

  -- The list of active calls after an INVITE dialog changed, as the code has it.
  unfoldable pub update_active : Sip → Ptr → Option Sip
  unfolding sip_call_is_active call_is_active append remove run_sorter
  update_active s c = sip_call_is_active s c >>= λ listed.
      if call_is_active (s.calls c)
      then (if listed
          then (append (run_sorter s) s.active c >>= λ (a, _). some (record s { active = a }))
          else some s)
      else (if listed
          then (remove s.active c >>= λ (a, _). some (record s { active = a }))
          else some s)

  -- What an INVITE dialog does with its message.
  unfoldable pub handle_invite : Sip → Ptr → Ptr → Packet → Option Sip
  unfolding call_update_state update_active sip_parse_extra_headers
  handle_invite s c m packet = env.parse_media (s.calls c) (s.msgs m) packet >>= λ (c', m').
      call_update_state (update s.msgs m m') c' m >>= λ c''.
      sip_parse_extra_headers c'' packet >>= λ c3.
      update_active (record s { calls = update s.calls c c3; msgs = update s.msgs m m' }) c

  -- What follows once the message is in its call.
  unfoldable pub check_message : Sip → Ptr → Ptr → Packet → Option Sip
  unfolding call_msg_retrans_check call_is_invite handle_invite
  check_message s c m packet =
      call_msg_retrans_check env.same_payload s.msgs (s.calls c) m >>= λ m'.
      let s' = record s { msgs = update s.msgs m m' } in
      call_is_invite s'.msgs (s'.calls c) >>= λ invite.
      if invite then handle_invite s' c m packet else some s'

  -- The message is added to its call.
  unfoldable pub add_message : Sip → Ptr → Ptr → Packet → Option Sip
  unfolding link_parent call_add_message run_sorter new_msg check_message
  add_message s c m packet = link_parent s c >>= λ s1.
      call_add_message (run_sorter s1) c (s1.calls c) m (new_msg packet) >>= λ (c', m').
      check_message (record s1 { calls = update s1.calls c c'; msgs = update s1.msgs m m' }) c m
        packet

  -- A new call is listed at last, in its place.
  unfoldable pub list_call : Sip → Ptr → Option Sip
  unfolding append run_sorter
  list_call s c = append (run_sorter s) s.list c >>= λ (l, _).
      next_int s.call_count_unrotated >>= λ n.
      some (record s { list = l; call_count_unrotated = n })

  -- What follows in `sip_check_packet` for a SIP message. A longer X-Call-ID than `xcallid[1024]`
  -- with its end overruns that buffer.
  unfoldable pub check_sip : Sip → Packet → Ptr → Ptr → Option (Sip × Ptr)
  unfolding sip_find_by_callid add_call wanted add_message list_call
  check_sip s packet m c = sip_find_by_callid s packet.callid >>= λ known.
      if known == null
      then (if wanted s packet
          then (if ltb 1023 (length packet.xcallid)
              then none
              else (add_call s packet c >>= λ s1. add_message s1 c m packet >>= λ s2.
                  list_call s2 c >>= λ s3. some (record s3 { changed = true }, m)))
          else some (s, null))
      else (add_message s known m packet >>= λ s2. some (record s2 { changed = true }, m))

  -- `sip_check_packet`: the state and the message, NULL if the packet was skipped. `m` and `c` are
  -- the memory that a new message and a new call are given.
  unfoldable pub sip_check_packet : Sip → Packet → Ptr → Ptr → Option (Sip × Ptr)
  unfolding check_sip overruns
  sip_check_packet s packet m c =
      if ltb max_sip_payload packet.payload_len
      then some (s, null)
      else (if overruns packet
          then none
          else (if packet.reqresp == 0 then some (s, null) else check_sip s packet m c))
