-- ===== src/CallList/Rotate.antt =====
-- src/sip.c, `sip_calls_rotate`: room is made by dropping the first call that is not locked.
use mathlib.Core.List.{append_assoc, append-nil}
use sngrep.Common.{
  ℕ, zero, suc, ◌≤◌, ◌<◌, ◌≡◌, refl, sym, ◌∙◌, ap, true, false, Option, none, some, List, [], ◌∷◌,
  ◌++◌, ◌==◌, ==_refl, ◌&&◌, if◌then◌else◌, arith, length, length-append, ==_iff, Bool-cases, inl,
  inr, ◌>>=◌, subst,
}
use sngrep.Vector.{Ptr, null, Vector, remove}
use sngrep.Vector.Iter.{iterator}
use sngrep.Vector.Remove.{has, erase, remove-erase, handed}
use sngrep.Vector.Walk.{iter_at, next-seek, next-cons_take, item_ne_null}
use sngrep.Hash
use sngrep.Hash.{key_eq, Table}
use sngrep.Hash.View.{view, tail, remove-view}
use sngrep.CallList.{Sip, rotate_loop, sip_calls_rotate}
use sngrep.Call.{Call}
use sngrep.CallList.Invariant.{IsValid}
use sngrep.Vector.Once.{has-erase, Distinct-erase, single_view}

-- The first call of a list that is not locked.
abbrev pub first_unlocked : (Ptr → Call) → List Ptr → Option Ptr
first_unlocked calls [] = none
first_unlocked calls (c ∷ cs) = if (calls c).locked then first_unlocked calls cs else some c

-- What is left of a list without that call.
abbrev pub rotated : (Ptr → Call) → List Ptr → List Ptr
rotated calls xs = elim (first_unlocked calls xs) [ none ↦ xs | some c ↦ erase c xs ]

-- What the destroyer of the list is handed when that call goes.
abbrev pub dropped : Sip → List Ptr → List Ptr
dropped s xs = elim (first_unlocked s.calls xs) [ none ↦ [] | some c ↦ handed s.list c ]

-- `s'` is `s` but for its list, its active calls, its index and the calls that are destroyed.
pub record SameMemory (s s' : Sip) : Type 0 where
  pub same_calls : s'.calls ≡ s.calls
  pub same_msgs : s'.msgs ≡ s.msgs
  pub same_index : s'.last_index ≡ s.last_index
  pub same_total : s'.call_count_unrotated ≡ s.call_count_unrotated
  pub same_limit : s'.limit ≡ s.limit
  pub same_size : s'.list.limit ≡ s.list.limit
  pub same_step : s'.list.step ≡ s.list.step

-- `s'` comes from `s` by dropping a call: the calls `ys` that stay are as they were, and so are
-- the numbers and limits; `gone` are destroyed.
pub record Rotated (s s' : Sip) (ys gone : List Ptr) : Type 0 where
  pub kept : (p : Ptr) → has p ys ≡ true → s'.calls p ≡ s.calls p
  pub destroyed : s'.destroyed ≡ s.destroyed ++ gone
  pub last_index : s'.last_index ≡ s.last_index
  pub total : s'.call_count_unrotated ≡ s.call_count_unrotated
  pub limit : s'.limit ≡ s.limit

module _ {s : Sip} {xs : List Ptr} (h : IsValid s xs) (c : Ptr) (there : has c xs ≡ true) where
  same :
      (k : List ℕ) (p : Ptr)
      → key_eq (s.calls c).callid k ≡ false
      → p ≡ c
      → key_eq (s.calls p).callid k ≡ false
  same k p n e = subst (λ q. key_eq (s.calls q).callid k ≡ false) (sym e) n

  -- The index after the Call-Id of a listed call was removed.
  removed-indexed :
      (t : Table)
      → ((j : List ℕ)
          → view t j
            ≡ (if key_eq (s.calls c).callid j then tail (view s.callids j) else view s.callids j))
      → (k : List ℕ) (p : Ptr)
      → has p (view t k) ≡ (has p (erase c xs) && key_eq (s.calls p).callid k)
  removed-indexed t changed k p = elim (Bool-cases (key_eq (s.calls c).callid k)) [
    | inl e ↦
        let only : view s.callids k ≡ c ∷ [] =
          single_view c (view s.callids k) (h.single k) (h.indexed k c ∙ rw (there, e) refl) in
        let old : has p (c ∷ []) ≡ (has p xs && key_eq (s.calls p).callid k) =
          ap (has p) (sym only) ∙ h.indexed k p in
        rw (changed k, e, only, has-erase p c xs h.distinct) (ground (arith, old))
    | inr n ↦
        rw (changed k, n, h.indexed k p, has-erase p c xs h.distinct)
          (elim (Bool-cases (p == c)) [
            | inl e ↦ rw (e, same k p n ((==_iff p c).0 e)) (ground arith)
            | inr f ↦ rw f (ground arith)
          ])
  ]

  length-tail-le : (l : List ℕ) → length (tail l) ≤ length l
  length-tail-le [] = omega arith
  length-tail-le (x ∷ l) = omega arith

  -- What `sip_calls_rotate` makes of the state for that call.
  pub without : Table → Vector → Vector → Sip
  without t a l = record s {
    callids = t;
    active = a;
    list = l;
    destroyed = s.destroyed ++ handed s.list c;
  }

  -- One call is dropped from the index and from both lists.
  pub drop-IsValid :
      (t : Table) × (a : Vector) × (l : Vector) × (Hash.remove s.callids (s.calls c).callid
        ≡ some t)
      × (remove s.active c ≡ some (a, []))
      × (remove s.list c ≡ some (l, handed s.list c))
      × IsValid (without t a l) (erase c xs)
      × SameMemory s (without t a l)
  unfolding without
  drop-IsValid =
      let (t, run_t, table, changed) = remove-view h.table (s.calls c).callid in
      let (a, run_a, ka) = remove-erase c h.none_active in
      let (l, run_l, kl) = remove-erase c h.listed in
      (
        t,
        a,
        l,
        run_t,
        run_a,
        rw there at run_l,
        record {
          listed = kl.holds;
          distinct = Distinct-erase c xs h.distinct;
          sorter = kl.same_sorter ∙ h.sorter;
          none_active = ka.holds;
          table = table;
          indexed = removed-indexed t changed;
          single =
              λ k. rw (changed k) (ground (arith, h.single k, length-tail-le (view s.callids k)));
        },
        record {
          same_calls = refl;
          same_msgs = refl;
          same_index = refl;
          same_total = refl;
          same_limit = refl;
          same_size = kl.same_limit;
          same_step = kl.same_step;
        },
      )

module _ {s : Sip} {xs : List Ptr} (h : IsValid s xs) where
  has-append : (pre post : List Ptr) (c : Ptr) → has c (pre ++ c ∷ post) ≡ true
  has-append [] post c = rw ==_refl refl
  has-append (x ∷ pre) post c = ground (arith, has-append pre post c)

  rotate_loop-IsValid :
      (ys pre : List Ptr) (k i : ℕ)
      → pre ++ ys ≡ xs
      → i ≡ length pre
      → length ys < k
      → first_unlocked s.calls xs ≡ first_unlocked s.calls ys
      → (s' : Sip) × (rotate_loop k (iter_at s.list none i) s ≡ some s')
        × IsValid s' (elim (first_unlocked s.calls xs) [ none ↦ xs | some c ↦ erase c xs ])
        × SameMemory s s'
        × (s'.destroyed ≡ s.destroyed ++ dropped s xs)
  unfolding rotate_loop without
  rotate_loop-IsValid ys pre zero i e l m f = absurd (omega arith)
  rotate_loop-IsValid [] pre (suc k) i e l m f = (
    s,
    rw (next-seek h.listed none pre [] i e l, ◌>>=◌) refl,
    rw f h,
    record {
      same_calls = refl;
      same_msgs = refl;
      same_index = refl;
      same_total = refl;
      same_limit = refl;
      same_size = refl;
      same_step = refl;
    },
    rw (dropped, f) (sym (append-nil s.destroyed)),
  )
  rotate_loop-IsValid (c ∷ ys) pre (suc k) i e l m f =
      let step = next-cons_take h.listed none pre ys c i e l refl in
      let ne : (c == null) ≡ false = ground (arith, item_ne_null h.listed none pre ys c e) in
      elim (Bool-cases (s.calls c).locked) [
        | inl y ↦
            let (s', run, v, same, log) =
              rotate_loop-IsValid ys (pre ++ c ∷ []) k (suc i) (append_assoc pre (c ∷ []) ys ∙ e)
                (omega (arith, length-append pre (c ∷ []))) (omega arith) (f ∙ rw y refl) in
            (s', rw (step, ◌>>=◌, ne, y) run, v, same, log)
        | inr n ↦
            let there : has c xs ≡ true = rw (← e) (has-append pre ys c) in
            let (t, a, u, run_t, run_a, run_l, v, same) = drop-IsValid h c there in
            (
              without h c there t a u,
              rw (step, ◌>>=◌, ne, n, run_t, run_a, run_l) refl,
              rw (f, n) v,
              same,
              rw (dropped, f, n) refl,
            )
      ]

  -- The same with what the model has at every address, for the code that adds a new call.
  pub sip_calls_rotate-SameMemory :
      (s' : Sip) × (sip_calls_rotate s ≡ some s')
      × IsValid s' (rotated s.calls xs)
      × SameMemory s s'
      × (s'.destroyed ≡ s.destroyed ++ dropped s xs)
  unfolding sip_calls_rotate iterator
  sip_calls_rotate-SameMemory =
      rotate_loop-IsValid xs [] (suc s.list.count) 0 refl refl (omega (arith, h.listed.counted))
        refl

  -- In a list that agrees with its index `sip_calls_rotate` returns, drops the first call that is
  -- not locked from list and index and hands just that call to the list's destroyer, if that is
  -- set, and changes nothing if all are locked; list and index go on to agree, and the calls that
  -- stay listed, the numbers and the limit are the same.
  pub sip_calls_rotate-IsValid :
      (s' : Sip) × (sip_calls_rotate s ≡ some s')
      × IsValid s' (rotated s.calls xs)
      × Rotated s s' (rotated s.calls xs) (dropped s xs)
  sip_calls_rotate-IsValid =
      let (s', run, v, same, log) = sip_calls_rotate-SameMemory in
      (
        s',
        run,
        v,
        record {
          kept = λ p there. ap (λ f. f p) same.same_calls;
          destroyed = log;
          last_index = same.same_index;
          total = same.same_total;
          limit = same.same_limit;
        },
      )
