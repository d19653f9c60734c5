-- ===== src/CallList/Check.antt =====
-- src/sip.c, the parts of `sip_check_packet` that change the list of calls and its index.
use sngrep.Common.{
  ℕ, ◌≡◌, refl, sym, ◌∙◌, true, false, Option, none, some, List, [], ◌∷◌, ◌==◌, ==_refl, ==_iff,
  ◌&&◌, if◌then◌else◌, arith, Bool-cases, Option-cases, inl, inr, ◌>>=◌, subst,
}
use sngrep.Vector.{Ptr, null}
use sngrep.Vector.Remove.{has}
use sngrep.Hash.{key_eq}
use sngrep.Hash.View.{view, find-view, oldest}
use sngrep.Call.{Call}
use sngrep.CallList.{Sip, sip_find_by_callid}
use sngrep.CallList.Invariant.{IsValid}
use sngrep.Vector.Once.{single_view}

-- The first call of a list with a Call-Id.
abbrev pub with_callid : (Ptr → Call) → List ℕ → List Ptr → Option Ptr
with_callid calls k [] = none
with_callid calls k (p ∷ ps) = if key_eq (calls p).callid k then some p else with_callid calls k ps

abbrev pub or_null : Option Ptr → Ptr
or_null none = null
or_null (some p) = p

pub with_callid-some :
    (calls : Ptr → Call) (k : List ℕ) (xs : List Ptr) (q : Ptr)
    → with_callid calls k xs ≡ some q
    → (has q xs && key_eq (calls q).callid k) ≡ true
with_callid-some calls k [] q e = cc
with_callid-some calls k (p ∷ ps) q e = elim (Bool-cases (key_eq (calls p).callid k)) [
  | inl y ↦
      let e' : some p ≡ some q = rw y at e in
      let same : p ≡ q = ground (arith, e') in
      subst (λ z. (has z (p ∷ ps) && key_eq (calls z).callid k) ≡ true) same
        (rw (==_refl p, y) refl)
  | inr n ↦ ground (arith, with_callid-some calls k ps q (rw n at e))
]

pub with_callid-none :
    (calls : Ptr → Call) (k : List ℕ) (xs : List Ptr) (q : Ptr)
    → with_callid calls k xs ≡ none
    → (has q xs && key_eq (calls q).callid k) ≡ false
with_callid-none calls k [] q e = refl
with_callid-none calls k (p ∷ ps) q e = elim (Bool-cases (key_eq (calls p).callid k)) [
  | inl y ↦ cc (rw y at e)
  | inr n ↦
      let rest = with_callid-none calls k ps q (rw n at e) in
      elim (Bool-cases (p == q)) [
        | inl same ↦
            let n' : key_eq (calls q).callid k ≡ false =
              subst (λ z. key_eq (calls z).callid k ≡ false) ((==_iff p q).0 same) n in
            rw n' (ground arith)
        | inr other ↦ rw other rest
      ]
]

module _ {s : Sip} {xs : List Ptr} (h : IsValid s xs) where
  oldest-with_callid : (k : List ℕ) → oldest (view s.callids k) ≡ with_callid s.calls k xs
  oldest-with_callid k = elim (Option-cases (with_callid s.calls k xs)) [
    | inl none_e ↦ rw none_e (empty (view s.callids k) refl none_e)
    | inr (q, e) ↦
        let there = h.indexed k q ∙ with_callid-some s.calls k xs q e in
        rw (single_view q (view s.callids k) (h.single k) there, e) refl
  ]
    where
      empty :
          (l : List Ptr) → view s.callids k ≡ l → with_callid s.calls k xs ≡ none → oldest l ≡ none
      empty [] e n = refl
      empty (p ∷ l) e n =
          let yes_p : has p (view s.callids k) ≡ true = rw (e, ==_refl p) refl in
          cc (sym yes_p ∙ (h.indexed k p ∙ with_callid-none s.calls k xs p n))

  -- If list and index agree, `sip_find_by_callid` answers the listed call with that Call-Id, and
  -- NULL if there is none.
  pub sip_find_by_callid-listed :
      (k : List ℕ) → sip_find_by_callid s k ≡ some (or_null (with_callid s.calls k xs))
  unfolding sip_find_by_callid
  sip_find_by_callid-listed k =
      rw (find-view h.table k, ◌>>=◌, oldest-with_callid k)
        (elim (with_callid s.calls k xs)
          as (λ o. some (elim o as (λ z. Ptr) [ none ↦ null | some p ↦ p ]) ≡ some (or_null o)) [
            | none ↦ refl
            | some p ↦ refl
          ])
