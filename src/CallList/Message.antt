-- ===== src/CallList/Message.antt =====
-- src/sip.c, `sip_check_packet`: a message that is added to its call leaves list and index alone.
mod Linked
use sngrep.Common.{ℕ, ◌≤◌, ◌≡◌, true, Option, none, some, ==_iff, ◌&&◌, not, ◌>>=◌}
use sngrep.Vector.{Ptr, Vector}
use sngrep.Vector.Holds.{Holds}
use sngrep.Hash.{key_eq}
use sngrep.Hash.View.{find-view, view, oldest}
use sngrep.Msg.{Msg}
use sngrep.Call.{Call, call_add_xcall, call_update_state}
use sngrep.CallList.{
  Sip, Env, Packet, update, sip_find_by_callid, update_active, sip_parse_extra_headers,
}
pub use sngrep.CallList.Message.Linked.{HasRoom, SameList}

-- The parsing of the packet's media returns, and keeps the Call-Id and the messages of its call.
abbrev pub KeepsCall : Env → Packet → Type 0
KeepsCall env packet =
    (d : Call) (m : Msg)
    → (r : Call × Msg) × (env.parse_media d m packet ≡ some r)
      × (r.0.callid ≡ d.callid)
      × (r.0.msgs ≡ d.msgs)

-- What follows once the media are parsed.
parsed_invite : Env → Sip → Ptr → Ptr → Packet → Option (Call × Msg) → Option Sip
parsed_invite env s c m packet o = o >>= λ (c', m').
    call_update_state (update s.msgs m m') c' m >>= λ c''.
    sip_parse_extra_headers c'' packet >>= λ c3.
    update_active env (record s { calls = update s.calls c c3; msgs = update s.msgs m m' }) c

module _ (env : Env) (packet : Packet) (keeps : KeepsCall env packet)
    (warning : packet.warning_len ≤ 9) where
  -- What `add_message` does after the message entered the vector of its call.
  with_msg : Sip → Ptr → Ptr → Vector → Msg → Sip
  with_msg s c m w m' = record s {
    calls = update s.calls c (record (s.calls c) { msgs = w; changed = true });
    msgs = update s.msgs m m';
  }
