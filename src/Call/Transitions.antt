-- ===== src/Call/Transitions.antt =====
-- src/sip_call.c, `call_update_state` as a step relation.
use sngrep.Common.{
  ℕ, ◌<◌, ◌≡◌, refl, ◌≢◌, ◌⊎◌, inl, inr, true, arith, ◌==◌, ltb, ◌&&◌, ◌||◌, Bool-cases,
}
use sngrep.Vector.{Ptr}
use sngrep.Call.State.{
  CallState, unset, callsetup, incall, cancelled, rejected, diverted, busy, completed, Progress,
  method_invite, method_cancel, method_bye, method_ack, update_setup, update_incall, update_other,
  update_in, update_state,
}

-- What a message with a code and a sequence number does to a call whose INVITE has `inv`.
pub data Step (code cseq inv : ℕ) : CallState → CallState → Type 0 where
  invite :
      {s : CallState}
      → s ≢ callsetup
      → s ≢ incall
      → code ≡ method_invite
      → Step code cseq inv s callsetup
  answer : code ≡ method_ack → inv ≡ cseq → Step code cseq inv callsetup incall
  cancel : code ≡ method_cancel → Step code cseq inv callsetup cancelled
  be_busy : (code ≡ 480) ⊎ ((code ≡ 486) ⊎ (code ≡ 600)) → Step code cseq inv callsetup busy
  reject :
      400 < code
      → code ≢ 480
      → code ≢ 486
      → code ≢ 600
      → inv ≡ cseq
      → Step code cseq inv callsetup rejected
  divert : (code ≡ 181) ⊎ ((code ≡ 302) ⊎ (code ≡ 301)) → Step code cseq inv callsetup diverted
  hang_up : code ≡ method_bye → Step code cseq inv incall completed

setup_sound :
    (c : Progress) (code cseq : ℕ) (m : Ptr)
    → c.state ≡ callsetup
    → ((update_setup c code cseq m).state ≡ callsetup)
      ⊎ Step code cseq c.invitecseq callsetup (update_setup c code cseq m).state
unfolding update_setup
setup_sound c code cseq m e = elim (Bool-cases (code == method_ack && c.invitecseq == cseq)) [
  | inl t ↦ rw t (inr (answer (ground arith) (ground arith)))
  | inr f ↦ rw f (elim (Bool-cases (code == method_cancel)) [
    | inl t ↦ rw t (inr (cancel (ground arith)))
    | inr f ↦ rw f (elim (Bool-cases (code == 480 || (code == 486 || code == 600))) [
      | inl t ↦ rw t (inr (be_busy (ground arith)))
      | inr g ↦ rw g (elim (Bool-cases (ltb 400 code && c.invitecseq == cseq)) [
        | inl t ↦ rw t (
            inr (reject (ground arith) (ground arith) (ground arith) (ground arith) (ground arith)))
        | inr f ↦ rw f (elim (Bool-cases (code == 181 || (code == 302 || code == 301))) [
          | inl t ↦ rw t (inr (divert (ground arith)))
          | inr f ↦ rw f (inl e)
        ])
      ])
    ])
  ])
]

other_sound :
    (s : CallState) (c : Progress) (code cseq : ℕ)
    → c.state ≡ s
    → s ≢ callsetup
    → s ≢ incall
    → ((update_other c code cseq).state ≡ s)
      ⊎ Step code cseq c.invitecseq s (update_other c code cseq).state
unfolding update_other
other_sound s c code cseq e p q = elim (Bool-cases (code == method_invite)) [
  | inl t ↦ rw t (inr (invite p q (ground arith)))
  | inr f ↦ rw f (inl e)
]

incall_sound :
    (c : Progress) (code cseq : ℕ) (m : Ptr)
    → c.state ≡ incall
    → ((update_incall c code m).state ≡ incall)
      ⊎ Step code cseq c.invitecseq incall (update_incall c code m).state
unfolding update_incall
incall_sound c code cseq m e = elim (Bool-cases (code == method_bye)) [
  | inl t ↦ rw t (inr (hang_up (ground arith)))
  | inr f ↦ rw f (inl e)
]

in_sound :
    (s : CallState) (c : Progress) (code cseq : ℕ) (m : Ptr)
    → c.state ≡ s
    → ((update_in s c code cseq m).state ≡ s)
      ⊎ Step code cseq c.invitecseq s (update_in s c code cseq m).state
unfolding update_in
in_sound callsetup c code cseq m e = setup_sound c code cseq m e
in_sound incall c code cseq m e = incall_sound c code cseq m e
in_sound unset c code cseq m e = other_sound unset c code cseq e (λ q. cc) (λ q. cc)
in_sound cancelled c code cseq m e = other_sound cancelled c code cseq e (λ q. cc) (λ q. cc)
in_sound rejected c code cseq m e = other_sound rejected c code cseq e (λ q. cc) (λ q. cc)
in_sound diverted c code cseq m e = other_sound diverted c code cseq e (λ q. cc) (λ q. cc)
in_sound busy c code cseq m e = other_sound busy c code cseq e (λ q. cc) (λ q. cc)
in_sound completed c code cseq m e = other_sound completed c code cseq e (λ q. cc) (λ q. cc)

other_complete :
    (s : CallState) (c : Progress) (cseq : ℕ) (m : Ptr)
    → s ≢ callsetup
    → s ≢ incall
    → (update_in s c method_invite cseq m).state ≡ callsetup
unfolding update_in update_other
other_complete callsetup c cseq m p q = absurd (p refl)
other_complete incall c cseq m p q = absurd (q refl)
other_complete _ c cseq m p q = refl

in_complete :
    {s t : CallState} (c : Progress) (code cseq : ℕ) (m : Ptr)
    → Step code cseq c.invitecseq s t
    → (update_in s c code cseq m).state ≡ t
unfolding update_in update_setup update_incall
in_complete {s} c code cseq m (invite p q e) = rw e (other_complete s c cseq m p q)
in_complete c code cseq m (answer e f) = ground arith
in_complete c code cseq m (cancel e) = ground arith
in_complete c code cseq m (be_busy e) = ground arith
in_complete c code cseq m (reject a p q r e) = ground arith
in_complete c code cseq m (divert e) = ground arith
in_complete c code cseq m (hang_up e) = ground arith

-- `call_update_state` of an INVITE dialog keeps the state or takes a step of the relation, and it
-- takes every step that the relation allows.
pub update_state-Step :
    (c : Progress) (code cseq : ℕ) (m : Ptr)
    → (((update_state true c code cseq m).state ≡ c.state)
        ⊎ Step code cseq c.invitecseq c.state (update_state true c code cseq m).state)
      × ((t : CallState)
          → Step code cseq c.invitecseq c.state t
          → (update_state true c code cseq m).state ≡ t)
unfolding update_state
update_state-Step c code cseq m =
    (in_sound c.state c code cseq m refl, λ t s. in_complete c code cseq m s)
