-- ===== src/Call/History.antt =====
-- src/sip_call.c, `call_update_state` over the messages of a dialog: what a state says of the past.
use sngrep.Common.{
  ℕ, ◌≡◌, refl, ◌⊎◌, inl, inr, true, arith, List, [], ◌∷◌, ◌==◌, ◌&&◌, ◌||◌, ltb, if-elim, if-case,
}
use sngrep.Vector.{Ptr, null}
use sngrep.Call.State.{
  CallState, unset, callsetup, incall, cancelled, rejected, diverted, busy, completed, Progress,
  method_invite, method_cancel, method_bye, method_ack, update_state, update_in, update_setup,
  update_incall, update_other,
}
use sngrep.Call.Transitions.{
  Step, invite, answer, cancel, be_busy, reject, divert, hang_up, update_state-Step,
}

-- A message as `call_update_state` sees it.
pub record Signal : Type 0 where
  pub code : ℕ
  pub cseq : ℕ
  pub msg : Ptr

-- What `call_create` leaves in these fields.
abbrev pub start : Progress
start = record { state = unset; invitecseq = 0; cstart_msg = null; cend_msg = null }

-- The messages of an INVITE dialog, one after another.
unfoldable pub replay : Progress → List Signal → Progress
unfolding update_state
replay c [] = c
replay c (s ∷ ss) = replay (update_state true c s.code s.cseq s.msg) ss

-- The codes of the first list occur in the second in this order. The latest comes first in both.
abbrev pub Seen : List ℕ → List ℕ → Type 0
Seen [] past = Unit
Seen (c ∷ cs) [] = ⊥
Seen (c ∷ cs) (m ∷ past) = ((m ≡ c) × Seen cs past) ⊎ Seen (c ∷ cs) past

-- What must have come before a state, the latest first.
abbrev pub needs : CallState → List ℕ
needs unset = []
needs callsetup = method_invite ∷ []
needs incall = method_ack ∷ method_invite ∷ []
needs cancelled = method_cancel ∷ method_invite ∷ []
needs rejected = method_invite ∷ []
needs diverted = method_invite ∷ []
needs busy = method_invite ∷ []
needs completed = method_bye ∷ method_ack ∷ method_invite ∷ []

Seen-cons : (cs past : List ℕ) (m : ℕ) → Seen cs past → Seen cs (m ∷ past)
Seen-cons [] past m h = tt
Seen-cons (c ∷ cs) past m h = inr h

Step-Seen :
    {code cseq inv : ℕ} {s t : CallState} (past : List ℕ)
    → Step code cseq inv s t
    → Seen (needs s) past
    → Seen (needs t) (code ∷ past)
Step-Seen past (invite p q e) h = inl (e, tt)
Step-Seen past (answer e f) h = inl (e, h)
Step-Seen past (cancel e) h = inl (e, h)
Step-Seen past (be_busy e) h = inr h
Step-Seen past (reject a p q r e) h = inr h
Step-Seen past (divert e) h = inr h
Step-Seen past (hang_up e) h = inl (e, h)

-- The codes of the messages, put before those of the past.
abbrev pub codes_after : List ℕ → List Signal → List ℕ
codes_after past [] = past
codes_after past (s ∷ ss) = codes_after (s.code ∷ past) ss

replay_from :
    (ss : List Signal) (c : Progress) (past : List ℕ)
    → Seen (needs c.state) past
    → Seen (needs (replay c ss).state) (codes_after past ss)
unfolding replay
replay_from [] c past h = h
replay_from (s ∷ ss) c past h =
    let c' = update_state true c s.code s.cseq s.msg in
    let moved : Seen (needs c'.state) (s.code ∷ past) =
      elim (update_state-Step c s.code s.cseq s.msg).0 [
        | inl e ↦ rw e (Seen-cons (needs c.state) past s.code h)
        | inr st ↦ Step-Seen past st h
      ] in
    replay_from ss c' (s.code ∷ past) moved

-- Whatever messages a new INVITE dialog gets, the state it has then had its needed messages before
-- it, in their order: a completed call saw INVITE, ACK and BYE.
pub replay-Seen : (ss : List Signal) → Seen (needs (replay start ss).state) (codes_after [] ss)
replay-Seen ss = replay_from ss start [] tt

-- A message with that code and that address is among the past ones, the latest of which is first.
abbrev pub Had : ℕ → Ptr → List Signal → Type 0
Had code p [] = ⊥
Had code p (s ∷ past) = ((s.code ≡ code) × (s.msg ≡ p)) ⊎ Had code p past

-- The BYE at `last`, and before it the ACK at `begun`.
abbrev pub Ended : Ptr → Ptr → List Signal → Type 0
Ended begun last [] = ⊥
Ended begun last (s ∷ past) =
    ((s.code ≡ method_bye) × (s.msg ≡ last) × Had method_ack begun past) ⊎ Ended begun last past

-- What `cstart_msg` and `cend_msg` point to in a call in progress and in a completed one.
abbrev pub Marked : Progress → List Signal → Type 0
Marked c past =
    (c.state ≡ incall → Had method_ack c.cstart_msg past)
    × (c.state ≡ completed → Ended c.cstart_msg c.cend_msg past)

Marked-later :
    (c : Progress) (past : List Signal) (s : Signal) → Marked c past → Marked c (s ∷ past)
Marked-later c past s h = (λ e. inr (h.0 e), λ e. inr (h.1 e))

setup-Marked :
    (c : Progress) (past : List Signal) (s : Signal)
    → c.state ≡ callsetup
    → Marked (update_setup c s.code s.cseq s.msg) (s ∷ past)
unfolding update_setup
setup-Marked c past s e =
    let Good : Progress → Type 0 = λ d. Marked d (s ∷ past) in
    if-case Good (s.code == method_ack && c.invitecseq == s.cseq) _ _
      (λ t. (λ z. inl (ground arith, refl), λ z. cc))
      (λ f.
        if-elim Good (s.code == method_cancel) _ _ (λ z. cc, λ z. cc)
          (if-elim Good (s.code == 480 || (s.code == 486 || s.code == 600)) _ _ (λ z. cc, λ z. cc)
            (if-elim Good (ltb 400 s.code && c.invitecseq == s.cseq) _ _ (λ z. cc, λ z. cc)
              (if-elim Good (s.code == 181 || (s.code == 302 || s.code == 301)) _ _
                (λ z. cc, λ z. cc) (λ z. cc, λ z. cc)))))

incall-Marked :
    (c : Progress) (past : List Signal) (s : Signal)
    → c.state ≡ incall
    → Marked c past
    → Marked (update_incall c s.code s.msg) (s ∷ past)
unfolding update_incall
incall-Marked c past s e h =
    if-case (λ d. Marked d (s ∷ past)) (s.code == method_bye) _ _
      (λ t. (λ z. cc, λ z. inl (ground arith, refl, h.0 e))) (λ f. Marked-later c past s h)

other-Marked :
    (c : Progress) (past : List Signal) (s : Signal)
    → Marked c past
    → Marked (update_other c s.code s.cseq) (s ∷ past)
unfolding update_other
other-Marked c past s h =
    if-elim (λ d. Marked d (s ∷ past)) (s.code == method_invite) _ _ (λ z. cc, λ z. cc)
      (Marked-later c past s h)

in-Marked :
    (t : CallState) (c : Progress) (past : List Signal) (s : Signal)
    → c.state ≡ t
    → Marked c past
    → Marked (update_in t c s.code s.cseq s.msg) (s ∷ past)
unfolding update_in
in-Marked callsetup c past s e h = setup-Marked c past s e
in-Marked incall c past s e h = incall-Marked c past s e h
in-Marked _ c past s e h = other-Marked c past s h

-- The messages, put before those of the past.
abbrev pub after : List Signal → List Signal → List Signal
after past [] = past
after past (s ∷ ss) = after (s ∷ past) ss

replay_from-Marked :
    (ss : List Signal) (c : Progress) (past : List Signal)
    → Marked c past
    → Marked (replay c ss) (after past ss)
unfolding replay update_state
replay_from-Marked [] c past h = h
replay_from-Marked (s ∷ ss) c past h =
    replay_from-Marked ss (update_state true c s.code s.cseq s.msg) (s ∷ past)
      (in-Marked c.state c past s refl h)

-- Whatever messages a new INVITE dialog gets: if the call is in progress then, `cstart_msg` is one
-- of these messages with code ACK; if it is completed, `cend_msg` is one with code BYE, and
-- `cstart_msg` one with code ACK that came before it.
pub replay-Marked : (ss : List Signal) → Marked (replay start ss) (after [] ss)
replay-Marked ss = replay_from-Marked ss start [] (λ e. cc, λ e. cc)
