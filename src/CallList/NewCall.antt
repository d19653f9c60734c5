-- ===== src/CallList/NewCall.antt =====
-- src/sip.c, `sip_check_packet`: how a new call enters the index and then the list.
use mathlib.Core.List.{append-nil}
use sngrep.Common.{
  ℕ, ◌+◌, ◌≤◌, ◌<◌, ◌≡◌, refl, ◌≢◌, sym, ap, ◌∙◌, true, false, Option, none, some, List, [], ◌∷◌,
  ◌++◌, ◌==◌, ==_refl, ==_iff, ◌&&◌, ◌||◌, if◌then◌else◌, arith, length, Bool-cases, inl, inr,
  ◌>>=◌, ◌^◌, subst,
}
use sngrep.Common.Int.{next_int-small}
use sngrep.Vector.{Ptr, null}
use sngrep.Vector.Holds.{Holds}
use sngrep.Vector.Append.{append-place}
use sngrep.Vector.Remove.{has, erase}
use sngrep.Vector.Settle.{place}
use sngrep.Vector.Sorting.{Distinct}
use sngrep.Hash
use sngrep.Hash.{key_eq, Table}
use sngrep.Hash.View.{IsTable, view, insert-view, key_eq→eq}
use sngrep.Call.{Call, call_create}
use sngrep.CallList.{Sip, Env, Packet, list_sorter, sorts_behind, list_call, update, add_call}
use sngrep.CallList.Invariant.{IsValid}
use sngrep.Vector.Once.{Fresh-has, has-place, has-erase, Distinct-place}
use sngrep.CallList.Rotate.{
  rotated, first_unlocked, dropped, SameMemory, sip_calls_rotate-SameMemory,
}
use sngrep.CallList.Check.{with_callid, with_callid-none}
use sngrep.CallList.Sort.{sorter-Places}

-- The call `c` is in the index, and not yet in the list.
pub record Pending (s : Sip) (c : Ptr) (xs : List Ptr) : Type 0 where
  pub listed : Holds s.list xs
  pub distinct : Distinct xs
  pub sorter : s.list.sorter ≡ list_sorter
  pub none_active : Holds s.active []
  pub table : IsTable s.callids
  pub fresh : has c xs ≡ false
  pub indexed :
      (k : List ℕ) (p : Ptr)
      → has p (view s.callids k) ≡ ((c == p || has p xs) && key_eq (s.calls p).callid k)
  pub single : (k : List ℕ) → length (view s.callids k) ≤ 1

module _ (env : Env) {s : Sip} {c : Ptr} {xs : List Ptr} (h : Pending s c xs) where
  pub list_call-IsValid :
      c ≢ null
      → s.list.limit + s.list.step < 2 ^ 31
      → s.call_count_unrotated + 1 < 2 ^ 31
      → (s' : Sip) × (list_call env s c ≡ some s')
        × IsValid s' (place (sorts_behind env s) c xs)
        × (s'.call_count_unrotated ≡ s.call_count_unrotated + 1)
        × (s'.list.count ≡ s.list.count + 1)
  unfolding list_call
  list_call-IsValid ne room few =
      let fresh = Fresh-has c xs h.fresh in
      let places = sorter-Places env s in
      let (w, run, b) =
        append-place places h.listed h.sorter (omega (arith, room))
          (omega (arith, room, h.listed.counted, h.listed.within, h.listed.step_pos)) c ne fresh in
      (
        record s { list = w; call_count_unrotated = s.call_count_unrotated + 1 },
        rw (run, ◌>>=◌, next_int-small s.call_count_unrotated few) refl,
        record {
          listed = b.holds;
          distinct = Distinct-place (sorts_behind env s) c xs fresh h.distinct;
          sorter = b.same_sorter ∙ h.sorter;
          none_active = h.none_active;
          table = h.table;
          indexed = λ k p. h.indexed k p ∙ rw (has-place (sorts_behind env s) p c xs) refl;
          single = h.single;
        },
        refl,
        omega (arith, b.holds.counted, h.listed.counted, places.length-place c xs),
      )

-- No call of the list has the Call-Id.
Unknown : Sip → List Ptr → List ℕ → Type 0
Unknown s xs k = (q : Ptr) → (has q xs && key_eq (s.calls q).callid k) ≡ false

module _ (env : Env) (packet : Packet) (c : Ptr) where
  unfoldable pub created : Sip → Call
  created s = record (call_create env.destroyers env.capture_rtp packet.callid packet.xcallid) {
    index = s.last_index + 1;
  }

  indexed_call : Sip → Table → Sip
  unfolding created
  indexed_call s t = record s {
    callids = t;
    last_index = s.last_index + 1;
    calls = update s.calls c (created s);
  }

  length_short : (l : List Ptr) → ((q : Ptr) → has q l ≡ false) → l ≡ []
  length_short [] h = refl
  length_short (x ∷ l) h =
      let there : has x (x ∷ l) ≡ true = rw (==_refl x) refl in cc (sym there ∙ h x)

  insert_single :
      (s : Sip) (t : Table) (k : List ℕ)
      → length (view s.callids k) ≤ 1
      → view s.callids packet.callid ≡ []
      → view t k ≡ (if key_eq packet.callid k then view s.callids k ++ c ∷ [] else view s.callids k)
      → length (view t k) ≤ 1
  insert_single s t k short empty changed = elim (Bool-cases (key_eq packet.callid k)) [
    | inl e ↦
        let none_before : view s.callids k ≡ [] =
          subst (λ j. view s.callids j ≡ []) (key_eq→eq packet.callid k e) empty in
        rw (changed, e, none_before) (omega arith)
    | inr n ↦ rw (changed, n) short
  ]

  -- The view after the insertion, at a key that is that of the new call and at any other.
  insert-indexed :
      {s : Sip} {xs : List Ptr} (t : Table)
      → IsValid s xs
      → has c xs ≡ false
      → Unknown s xs packet.callid
      → view s.callids packet.callid ≡ []
      → ((j : List ℕ)
          → view t j
            ≡ (if key_eq packet.callid j then view s.callids j ++ c ∷ [] else view s.callids j))
      → (k : List ℕ) (p : Ptr)
      → has p (view t k)
        ≡ ((c == p || has p xs) && key_eq (update s.calls c (created s) p).callid k)
  unfolding created call_create Unknown
  insert-indexed {s} {xs} t h fresh unknown empty changed k p =
      elim (Bool-cases (key_eq packet.callid k)) [
        | inl e ↦
            let same : packet.callid ≡ k = key_eq→eq packet.callid k e in
            let none_before : view s.callids k ≡ [] =
              subst (λ j. view s.callids j ≡ []) same empty in
            let other : (has p xs && key_eq (s.calls p).callid k) ≡ false =
              subst (λ j. (has p xs && key_eq (s.calls p).callid j) ≡ false) same (unknown p) in
            rw (changed k, e, none_before)
              (elim (Bool-cases (p == c)) [
                | inl y ↦ rw (y, e) (ground (arith, y))
                | inr n ↦ rw n (ground (arith, n, other))
              ])
        | inr n ↦
            rw (changed k, n, h.indexed k p)
              (elim (Bool-cases (p == c)) [
                | inl y ↦
                    let out : has p xs ≡ false =
                      subst (λ q. has q xs ≡ false) (sym ((==_iff p c).0 y)) fresh in
                    rw (y, n, out) (ground arith)
                | inr m ↦ rw m (ground (arith, m))
              ])
      ]

  insert-Pending :
      {s : Sip} {xs : List Ptr}
      → IsValid s xs
      → has c xs ≡ false
      → Unknown s xs packet.callid
      → (t : Table) × (Hash.insert s.callids packet.callid c ≡ some t)
        × Pending (indexed_call s t) c xs
  unfolding indexed_call created call_create Unknown
  insert-Pending {s} {xs} h fresh unknown =
      let (t, run, table, changed) = insert-view h.table packet.callid c in
      let before : view s.callids packet.callid ≡ [] =
        length_short (view s.callids packet.callid) (λ q. h.indexed packet.callid q ∙ unknown q) in
      (
        t,
        run,
        record {
          listed = h.listed;
          distinct = h.distinct;
          sorter = h.sorter;
          none_active = h.none_active;
          table = table;
          fresh = fresh;
          indexed = insert-indexed t h fresh unknown before changed;
          single = λ k. insert_single s t k (h.single k) before (changed k);
        },
      )

  -- Rotation only takes calls away.
  rotated-has :
      (calls : Ptr → Call) (xs : List Ptr) (q : Ptr)
      → Distinct xs
      → has q xs ≡ false
      → has q (rotated calls xs) ≡ false
  rotated-has calls xs q d out = go (first_unlocked calls xs)
    where
      go : (f : Option Ptr) → has q (elim f [ none ↦ xs | some u ↦ erase u xs ]) ≡ false
      go none = out
      go (some u) = has-erase q u xs d ∙ rw out refl

  rotated-Unknown :
      (s s1 : Sip) (xs : List Ptr)
      → Distinct xs
      → SameMemory s s1
      → Unknown s xs packet.callid
      → Unknown s1 (rotated s.calls xs) packet.callid
  unfolding Unknown
  rotated-Unknown s s1 xs d same unknown q = elim (Bool-cases (has q xs)) [
    | inl e ↦
        let other : key_eq (s.calls q).callid packet.callid ≡ false = rw e at (unknown q) in
        rw (same.same_calls, other) (ground arith)
    | inr n ↦ rw (rotated-has s.calls xs q d n) refl
  ]

  -- The calls that are listed once there is room for one more, and those destroyed for it.
  abbrev pub left : Sip → List Ptr → List Ptr
  left s xs = if s.limit == s.list.count then rotated s.calls xs else xs

  abbrev pub destroyed_for : Sip → List Ptr → List Ptr
  destroyed_for s xs = if s.limit == s.list.count then dropped s xs else []

  -- The code for a new call, with what the model has at every address.
  pub add_call-Added :
      {s : Sip} {xs : List Ptr}
      → IsValid s xs
      → has c (left s xs) ≡ false
      → with_callid s.calls packet.callid xs ≡ none
      → s.last_index + 1 < 2 ^ 31
      → (s' : Sip) × (add_call env s packet c ≡ some s')
        × Pending s' c (left s xs)
        × (s'.last_index ≡ s.last_index + 1)
        × (s'.calls ≡ update s.calls c (created s))
        × (s'.destroyed ≡ s.destroyed ++ destroyed_for s xs)
        × (s'.call_count_unrotated ≡ s.call_count_unrotated)
        × (s'.list.limit ≡ s.list.limit)
        × (s'.list.step ≡ s.list.step)
  unfolding add_call indexed_call created Unknown
  add_call-Added {s} {xs} h fresh missing few =
      let unknown : Unknown s xs packet.callid =
        λ q. with_callid-none s.calls packet.callid xs q missing in
      let number = next_int-small s.last_index few in
      elim (Bool-cases (s.limit == s.list.count)) [
        | inl full ↦
            let (s1, turn, v, same, log) = sip_calls_rotate-SameMemory h in
            let gone : has c (rotated s.calls xs) ≡ false = rw full at fresh in
            let (t, run, p) =
              insert-Pending v gone (rotated-Unknown s s1 xs h.distinct same unknown) in
            (
              indexed_call s1 t,
              rw (full, turn, ◌>>=◌, run, same.same_index, number) refl,
              rw full p,
              rw same.same_index refl,
              rw (same.same_calls, same.same_index) refl,
              rw full log,
              same.same_total,
              same.same_size,
              same.same_step,
            )
        | inr room ↦
            let out : has c xs ≡ false = rw room at fresh in
            let (t, run, p) = insert-Pending h out unknown in
            (
              indexed_call s t,
              rw (room, ◌>>=◌, run, number) refl,
              rw room p,
              refl,
              refl,
              rw room (sym (append-nil s.destroyed)),
              refl,
              refl,
              refl,
            )
      ]

  -- For a Call-Id that no listed call has, with the last number below INT_MAX and memory for the
  -- call at which, once there is room, no call is listed, the code of `sip_check_packet` for a new
  -- call returns: if the list is full, the first call that is not locked leaves list and index and
  -- is handed to the list's destroyer, if that is set; then the new call is indexed under its
  -- Call-Id, with the next number, so that index and list agree but for the new call, which is not
  -- listed yet. The new call is as `call_create` made it, the listed calls and the size of the
  -- list's block stay.
  pub add_call-Pending :
      {s : Sip} {xs : List Ptr}
      → IsValid s xs
      → has c (left s xs) ≡ false
      → with_callid s.calls packet.callid xs ≡ none
      → s.last_index + 1 < 2 ^ 31
      → (s' : Sip) × (add_call env s packet c ≡ some s')
        × Pending s' c (left s xs)
        × (s'.last_index ≡ s.last_index + 1)
        × (s'.calls c ≡ created s)
        × ((p : Ptr) → has p (left s xs) ≡ true → s'.calls p ≡ s.calls p)
        × (s'.destroyed ≡ s.destroyed ++ destroyed_for s xs)
        × (s'.list.limit ≡ s.list.limit)
        × (s'.list.step ≡ s.list.step)
  add_call-Pending {s} {xs} h fresh missing few =
      let (s', run, p, number, calls, log, _, limit, step) = add_call-Added h fresh missing few in
      (
        s',
        run,
        p,
        number,
        ap (λ f. f c) calls ∙ rw (==_refl c) refl,
        (λ q there. ap (λ f. f q) calls ∙ (elim (Bool-cases (q == c)) [
          | inl y ↦
              let out : has q (left s xs) ≡ false =
                subst (λ z. has z (left s xs) ≡ false) (sym ((==_iff q c).0 y)) fresh in
              cc (sym there ∙ out)
          | inr n ↦ rw n refl
        ])),
        log,
        limit,
        step,
      )
