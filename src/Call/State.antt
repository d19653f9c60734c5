-- ===== src/Call/State.antt =====
-- src/sip_call.c: the state of a call, moved by each message of a dialog that begins with INVITE.
use sngrep.Common.{ℕ, Bool, ◌==◌, ltb, ◌&&◌, ◌||◌, if◌then◌else◌}
use sngrep.Vector.{Ptr}

-- `enum call_state`; `unset` is the 0 of a call that is no INVITE dialog.
pub data CallState : Type 0 where
  unset callsetup incall cancelled rejected diverted busy completed : CallState

-- `enum sip_methods`
abbrev pub method_invite : ℕ
method_invite = 2

abbrev pub method_cancel : ℕ
method_cancel = 12

abbrev pub method_bye : ℕ
method_bye = 13

abbrev pub method_ack : ℕ
method_ack = 14

-- The fields of `sip_call_t` that `call_update_state` reads and writes.
pub record Progress : Type 0 where
  pub state : CallState
  pub invitecseq : ℕ
  pub cstart_msg : Ptr
  pub cend_msg : Ptr

-- The branch of a call that is being set up.
unfoldable pub update_setup : Progress → ℕ → ℕ → Ptr → Progress
update_setup c reqresp cseq msg =
    if reqresp == method_ack && c.invitecseq == cseq
    then record c { state = incall; cstart_msg = msg }
    else (if reqresp == method_cancel
        then record c { state = cancelled }
        else (if reqresp == 480 || (reqresp == 486 || reqresp == 600)
            then record c { state = busy }
            else (if ltb 400 reqresp && c.invitecseq == cseq
                then record c { state = rejected }
                else (if reqresp == 181 || (reqresp == 302 || reqresp == 301)
                    then record c { state = diverted }
                    else c))))

unfoldable pub update_incall : Progress → ℕ → Ptr → Progress
update_incall c reqresp msg =
    if reqresp == method_bye then record c { state = completed; cend_msg = msg } else c

-- The branch of every other call: an INVITE sets it up, after authentication for the second time.
unfoldable pub update_other : Progress → ℕ → ℕ → Progress
update_other c reqresp cseq =
    if reqresp == method_invite then record c { state = callsetup; invitecseq = cseq } else c

unfoldable pub update_in : CallState → Progress → ℕ → ℕ → Ptr → Progress
unfolding update_setup update_incall update_other
update_in callsetup c reqresp cseq msg = update_setup c reqresp cseq msg
update_in incall c reqresp cseq msg = update_incall c reqresp msg
update_in _ c reqresp cseq msg = update_other c reqresp cseq

-- `call_update_state`; `invite` is what `call_is_invite` says of the call.
unfoldable pub update_state : Bool → Progress → ℕ → ℕ → Ptr → Progress
unfolding update_in
update_state invite c reqresp cseq msg = if invite then update_in c.state c reqresp cseq msg else c

-- `call_is_active`
unfoldable pub is_active : CallState → Bool
is_active callsetup = Bool.true
is_active incall = Bool.true
is_active _ = Bool.false
