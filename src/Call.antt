-- ===== src/Call.antt =====
-- src/sip_call.c: a dialog, its messages and its state.
pub mod State
pub mod Transitions
pub mod History
pub mod Compare
pub mod Preorder
pub mod Retrans
mod Tests
use sngrep.Common.{
  ℕ, zero, suc, ◌+◌, Bool, true, false, Option, none, some, List, [], ◌∷◌, ◌==◌, ◌&&◌, ◌||◌,
  if◌then◌else◌, ◌>>=◌,
}
use sngrep.Common.Int.{ℤ, pos, negsuc, to_int, to_u32}
use sngrep.Vector.{Ptr, null, Vector, create, set_destroyer, append, first, index}
use sngrep.Vector.Iter.{last_such, Iter, iterator, set_current, prev, count_of}
use sngrep.Address.{Address, addressport_equals}
use sngrep.Msg.{Msg, Msgs}
use sngrep.Call.State.{Progress, CallState, unset, is_active, update_state, method_invite}

-- `sip_call_t`. Texts of attributes that only the interface shows are left out.
pub record Call : Type 0 where
  pub callid : List ℕ
  pub xcallid : List ℕ
  pub index : ℕ
  pub filtered : ℤ
  pub progress : Progress
  pub changed : Bool
  pub locked : Bool
  pub msgs : Vector
  pub streams : Vector
  pub rtp_packets : Option Vector
  pub xcalls : Vector

-- The destroyers that `call_create` installs, as function pointers.
pub record Destroyers : Type 0 where
  pub msg_destroyer : Ptr
  pub packet_destroyer : Ptr
  pub generic_destroyer : Ptr

-- `capture_rtp` is the setting of that name.
unfoldable pub call_create : Destroyers → Bool → List ℕ → List ℕ → Call
unfolding create set_destroyer
call_create d capture_rtp callid xcallid = record {
  callid = callid;
  xcallid = xcallid;
  index = 0;
  filtered = negsuc 0;
  progress = record { state = unset; invitecseq = 0; cstart_msg = null; cend_msg = null };
  changed = false;
  locked = false;
  msgs = set_destroyer (create 2 2) d.msg_destroyer;
  streams = set_destroyer (create 0 2) d.generic_destroyer;
  rtp_packets = if capture_rtp then some (set_destroyer (create 0 40) d.packet_destroyer) else none;
  xcalls = create 0 1;
}

-- `call_has_changed`
unfoldable pub call_has_changed : Call → Bool
call_has_changed c = c.changed

unfoldable pub call_is_active : Call → Bool
unfolding is_active
call_is_active c = is_active c.progress.state

unfoldable pub call_msg_count : Call → ℤ
call_msg_count c = to_int c.msgs.count

-- Of a call with no message it is false.
unfoldable pub call_is_invite : Msgs → Call → Option Bool
unfolding first
call_is_invite heap c =
    first c.msgs >>= λ m. some (if m == null then false else (heap m).reqresp == method_invite)

-- `call_update_state`
unfoldable pub call_update_state : Msgs → Call → Ptr → Option Call
unfolding call_is_invite update_state
call_update_state heap c msg = call_is_invite heap c >>= λ invite.
    some (record c {
      progress = update_state invite c.progress (heap msg).reqresp (heap msg).cseq msg;
    })

module _ (call : Ptr → Vector → Ptr → Option Vector) where
  -- `call_add_message`, of the call at address `owner`: the call and the message, changed.
  unfoldable pub call_add_message : Ptr → Call → Ptr → Msg → Option (Call × Msg)
  unfolding append
  call_add_message owner c p m = append call c.msgs p >>= λ (v, i).
      some (record c { msgs = v; changed = true }, record m { call = owner; index = to_u32 i })

  unfoldable pub call_add_stream : Call → Ptr → Option Call
  unfolding append
  call_add_stream c stream =
      append call c.streams stream >>= λ (v, _). some (record c { streams = v; changed = true })

  -- With no vector for packets this is a write through NULL.
  unfoldable pub call_add_rtp_packet : Call → Ptr → Option Call
  unfolding append
  call_add_rtp_packet c packet = c.rtp_packets >>= λ packets.
      append call packets packet >>= λ (v, _).
      some (record c { rtp_packets = some v; changed = true })

  -- `call_add_xcall`; a parent that was not found is NULL.
  unfoldable pub call_add_xcall : Option Call → Ptr → Option (Option Call)
  unfolding append
  call_add_xcall none xcall = some none
  call_add_xcall (some c) xcall =
      if xcall == null
      then some (some c)
      else append call c.xcalls xcall >>= λ (v, _).
          some (some (record c { changed = true; xcalls = v }))

-- Whether the message at an address has the addresses of `m`.
unfoldable pub same_route : Msgs → Msg → Ptr → Bool
unfolding addressport_equals
same_route heap m p = addressport_equals (heap p).src m.src && addressport_equals (heap p).dst m.dst

-- `call_msg_retrans_check`: the message with its mark. `same_payload` is `!strcasecmp`.
unfoldable pub call_msg_retrans_check : (List ℕ → List ℕ → Bool) → Msgs → Call → Ptr → Option Msg
unfolding same_route last_such iterator index set_current
call_msg_retrans_check same_payload heap c p =
    let m = heap p in
    index c.msgs p >>= λ i.
    last_such (suc c.msgs.count) (same_route heap m) (set_current (iterator (some c.msgs)) i)
    >>= λ q. some (
        if q == null
        then m
        else (if same_payload m.payload (heap q).payload then record m { retrans = q } else m))
