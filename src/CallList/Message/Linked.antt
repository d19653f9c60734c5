-- ===== src/CallList/Message/Linked.antt =====
-- src/sip.c, `sip_check_packet`: the first message of a call with an X-Call-ID links it to its parent.
use sngrep.Common.{
  ℕ, ◌+◌, ◌<◌, ◌≡◌, refl, ◌≢◌, sym, ◌∙◌, ap, true, false, Option, none, some, List, [], ◌==◌,
  ==_iff, ◌&&◌, not, if◌then◌else◌, ◌>>=◌, ◌^◌, arith, Bool-cases, inl, inr,
}
use sngrep.Vector.{Ptr, null, Vector, append}
use sngrep.Vector.Holds.{Holds}
use sngrep.Vector.Append.{append-place, no_sorter-Places}
use sngrep.Hash.{key_eq}
use sngrep.Hash.View.{IsTable, find-view, view, oldest}
use sngrep.Call.{Call, call_add_xcall}
use sngrep.CallList.{Sip, Env, update, run_sorter, sip_find_by_callid, link_parent}

-- A vector without a sorter that can grow once.
abbrev pub HasRoom : Vector → Type 0
HasRoom v = ((xs : List Ptr) × Holds v xs) × (v.sorter ≡ null) × (v.limit + v.step < 2 ^ 31)

-- `s'` has the list, the index and the Call-Ids of `s`.
pub record SameList (s s' : Sip) : Type 0 where
  pub same_list : s'.list ≡ s.list
  pub same_active : s'.active ≡ s.active
  pub same_table : s'.callids ≡ s.callids
  pub same_index : s'.last_index ≡ s.last_index
  pub same_total : s'.call_count_unrotated ≡ s.call_count_unrotated
  pub same_callid : (p : Ptr) → (s'.calls p).callid ≡ (s.calls p).callid

pub update-keeps {ℓ} :
    {A : Type ℓ} (f : Call → A) (calls : Ptr → Call) (q : Ptr) (d : Call) (p : Ptr)
    → f d ≡ f (calls q)
    → f (update calls q d p) ≡ f (calls p)
update-keeps f calls q d p e = elim (Bool-cases (p == q)) [
  | inl y ↦ rw y (e ∙ ap (λ r. f (calls r)) (sym ((==_iff p q).0 y)))
  | inr n ↦ rw n refl
]

add_xcall-HasRoom :
    (run : Ptr → Vector → Ptr → Option Vector) (d : Call) (c : Ptr)
    → HasRoom d.xcalls
    → c ≢ null
    → (w : Vector) × (call_add_xcall run (some d) c
        ≡ some (some (record d { changed = true; xcalls = w })))
unfolding call_add_xcall
add_xcall-HasRoom run d c ((ys, held), plain, fits) ne =
    let (w, go, b) =
      append-place (no_sorter-Places run) held plain (omega (arith, fits))
        (omega (arith, fits, held.counted, held.within, held.step_pos)) c ne tt in
    let real : (c == null) ≡ false = ground (arith, ne) in
    (
      w,
      ap
            (λ b.
              if b
              then some (some d)
              else append run d.xcalls c >>= λ (v, _).
                  some (some (record d { changed = true; xcalls = v })))
            real
          ∙ ap (λ o. o >>= λ (v, _). some (some (record d { changed = true; xcalls = v }))) go,
    )

-- What `link_parent` makes of the parent that it found.
linked : Sip → Ptr → Option Call → Sip
linked s q found = elim found [ none ↦ s | some d ↦ record s { calls = update s.calls q d } ]

module _ (env : Env) where
  link_found :
      (s : Sip) (c q : Ptr)
      → ((s.calls c).msgs.count == 0 && not (key_eq (s.calls c).xcallid [])) ≡ true
      → sip_find_by_callid s (s.calls c).xcallid ≡ some q
      → link_parent env s c ≡ (
          call_add_xcall (run_sorter env s) (if q == null then none else some (s.calls q)) c
          >>= λ d. some (linked s q d))
  unfolding link_parent linked
  link_found s c q y found = rw (y, found, ◌>>=◌) refl

  find-oldest :
      (s : Sip) (k : List ℕ)
      → IsTable s.callids
      → sip_find_by_callid s k
        ≡ some (elim (oldest (view s.callids k)) [ none ↦ null | some p ↦ p ])
  unfolding sip_find_by_callid
  find-oldest s k table = rw (find-view table k, ◌>>=◌) refl

  pub link_parent-SameList :
      (s : Sip) (c : Ptr)
      → IsTable s.callids
      → ((p : Ptr) → HasRoom (s.calls p).xcalls)
      → c ≢ null
      → (s' : Sip) × (link_parent env s c ≡ some s')
        × SameList s s'
        × ((p : Ptr) → (s'.calls p).msgs ≡ (s.calls p).msgs)
        × (s'.msgs ≡ s.msgs)
  unfolding link_parent linked
  link_parent-SameList s c table room ne =
      let nothing : SameList s s = record {
        same_list = refl;
        same_active = refl;
        same_table = refl;
        same_index = refl;
        same_total = refl;
        same_callid = λ p. refl;
      } in
      elim (Bool-cases ((s.calls c).msgs.count == 0 && not (key_eq (s.calls c).xcallid []))) [
        | inr n ↦ (s, rw n refl, nothing, (λ p. refl), refl)
        | inl y ↦
            let q : Ptr = elim (oldest (view s.callids (s.calls c).xcallid)) [
              | none ↦ null
              | some p ↦ p
            ] in
            let found : sip_find_by_callid s (s.calls c).xcallid ≡ some q =
              find-oldest s (s.calls c).xcallid table in
            elim (Bool-cases (q == null)) [
              | inl z ↦
                  (s, link_found s c q y found ∙ rw (z, ◌>>=◌) refl, nothing, (λ p. refl), refl)
              | inr z ↦
                  let (w, run) = add_xcall-HasRoom (run_sorter env s) (s.calls q) c (room q) ne in
                  let parent : Call = record (s.calls q) { changed = true; xcalls = w } in
                  (
                    record s { calls = update s.calls q parent },
                    link_found s c q y found ∙ rw (z, run, ◌>>=◌) refl,
                    record {
                      same_list = refl;
                      same_active = refl;
                      same_table = refl;
                      same_index = refl;
                      same_total = refl;
                      same_callid = λ p. update-keeps (λ d. d.callid) s.calls q parent p refl;
                    },
                    (λ p. update-keeps (λ d. d.msgs) s.calls q parent p refl),
                    refl,
                  )
            ]
      ]
