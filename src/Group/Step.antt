-- ===== src/Group/Step.antt =====
-- src/group.c, `call_group_get_next_msg` of a group of several calls.
use mathlib.Core.List.{append_assoc, Perm}
use sngrep.Common.{
  ℕ, zero, suc, ◌<◌, ◌≡◌, refl, ◌≢◌, sym, ◌∙◌, ap, Bool, false, none, some, List, [], ◌∷◌, ◌++◌,
  ◌==◌, ◌||◌, not, if◌then◌else◌, arith, length, All, All-split, ◌>>=◌, ◌^◌, Bool-cases, inl, inr,
  subst,
}
use sngrep.Common.Int.{pos}
use sngrep.Vector.{Ptr, null, Vector, item}
use sngrep.Vector.Holds.{Holds, at, item-at, first-at, index-position, position, position-append}
use sngrep.Vector.Walk.{item_ne_null, pos-next}
use sngrep.Vector.Sorting.{Distinct}
use sngrep.Vector.Order.{Sorted}
use sngrep.Msg.{msg_has_sdp}
use sngrep.Group.{Group, Memory, merged, following, get_next_msg}
use sngrep.Group.Merge.{NotLater, all_msgs, CallsHold, merged-Sorted}

-- The first item, NULL if there is none.
abbrev pub first_of : List Ptr → Ptr
first_of [] = null
first_of (x ∷ xs) = x

-- Whether the group shows a message.
abbrev pub shown : Memory → Group → Ptr → Bool
shown mem g x = not g.sdp_only || msg_has_sdp mem.msgs x

-- The first message that the group shows.
abbrev pub first_shown : Memory → Group → List Ptr → Ptr
first_shown mem g [] = null
first_shown mem g (x ∷ xs) = if shown mem g x then x else first_shown mem g xs

at-next :
    (pre post : List Ptr) (x : Ptr) → at (pre ++ x ∷ post) (pos (suc (length pre))) ≡ first_of post
at-next [] [] x = refl
at-next [] (y ∷ post) x = refl
at-next (z ∷ pre) post x = at-next pre post x

before-Fresh : (x : Ptr) (pre post : List Ptr) → Distinct (pre ++ x ∷ post) → All (λ y. y ≢ x) pre
before-Fresh x [] post d = tt
before-Fresh x (z ∷ pre) post d =
    let other : x ≢ z = (All-split (λ y. y ≢ z) pre (x ∷ post) d.0).1.0 in
    ((λ e. other (sym e)), before-Fresh x pre post d.1)

at-first : (xs : List Ptr) → at xs (pos 0) ≡ first_of xs
at-first [] = refl
at-first (x ∷ xs) = refl

module _ (mem : Memory) (g : Group) {w : Vector} {ms : List Ptr}
    (several : (g.calls.count == 1) ≡ false) (built : merged mem g ≡ some w) (h : Holds w ms)
    (d : Distinct ms) where
  following-first : following mem g null ≡ some (first_of ms)
  unfolding following
  following-first = rw (several, built, ◌>>=◌, first-at h) (ap some (at-first ms))

  following-next :
      (pre post : List Ptr) (x : Ptr)
      → pre ++ x ∷ post ≡ ms
      → following mem g x ≡ some (first_of post)
  unfolding following
  following-next pre post x e =
      let there : (x == null) ≡ false = ground (arith, item_ne_null h none pre post x e) in
      let once : All (λ y. y ≢ x) pre = before-Fresh x pre post (subst Distinct (sym e) d) in
      let place : position x ms 0 ≡ pos (length pre) =
        ap (λ l. position x l 0) (sym e)
        ∙ position-append x pre post 0 once
        ∙ ap pos (omega arith) in
      let read : item w (pos (suc (length pre))) ≡ some (first_of post) =
        item-at h (pos (suc (length pre)))
        ∙ ap (λ l. some (at l (pos (suc (length pre))))) (sym e)
        ∙ ap some (at-next pre post x) in
      rw (several, built, ◌>>=◌, there, index-position h x, place, pos-next (length pre)) read

  -- From a message whose follower in the merged order is the first of `post`.
  get_next_msg_from :
      (k : ℕ) (pre post : List Ptr) (m : Ptr)
      → pre ++ post ≡ ms
      → following mem g m ≡ some (first_of post)
      → length post < k
      → get_next_msg k mem g m ≡ some (first_shown mem g post)
  unfolding get_next_msg
  get_next_msg_from zero pre post m e f l = absurd (omega arith)
  get_next_msg_from (suc k) pre [] m e f l = rw (f, ◌>>=◌) refl
  get_next_msg_from (suc k) pre (y ∷ post) m e f l =
      let ne : (y == null) ≡ false = ground (arith, item_ne_null h none pre post y e) in
      let rest =
        get_next_msg_from k (pre ++ y ∷ []) post y (append_assoc pre (y ∷ []) post ∙ e)
          (following-next pre post y e) (omega arith) in
      rw (f, ◌>>=◌, ne)
        (elim (Bool-cases g.sdp_only) [
          | inr all ↦ rw all refl
          | inl only ↦ elim (Bool-cases (msg_has_sdp mem.msgs y)) [
            | inl yes_sdp ↦ rw (only, yes_sdp) refl
            | inr no_sdp ↦ rw (only, no_sdp) rest
          ]
        ])

module _ (mem : Memory) (of : Ptr → List Ptr) where
  -- For a group of no or several calls that hold different messages, fewer than 2^28, there is one
  -- order of all their messages, none later than the next, that `call_group_get_next_msg` walks:
  -- with a round for each message and one more it returns from NULL the first message, and from
  -- each message the first behind it, that has SDP or, without `sdp_only`, is any; at the end
  -- NULL.
  pub get_next_msg-shown :
      (g : Group) (cs : List Ptr)
      → Holds g.calls cs
      → CallsHold mem of cs
      → Distinct (all_msgs of cs)
      → length (all_msgs of cs) < 2 ^ 28
      → length cs ≢ 1
      → (ms : List Ptr) × Sorted (NotLater mem.msgs) ms
        × Perm ms (all_msgs of cs)
        × ((k : ℕ) → length ms < k → get_next_msg k mem g null ≡ some (first_shown mem g ms))
        × ((k : ℕ) (pre post : List Ptr) (x : Ptr)
            → pre ++ x ∷ post ≡ ms
            → length post < k
            → get_next_msg k mem g x ≡ some (first_shown mem g post))
  get_next_msg-shown g cs h k d small many =
      let (w, ms, built, held, sorted, perm, once) = merged-Sorted mem of g cs h k d small in
      let several : (g.calls.count == 1) ≡ false = ground (arith, h.counted, many) in
      (
        ms,
        sorted,
        perm,
        (λ n l.
            get_next_msg_from mem g several built held once n [] ms null refl
              (following-first mem g several built held once) l),
        λ n pre post x e l.
            get_next_msg_from mem g several built held once n (pre ++ x ∷ []) post x
              (append_assoc pre (x ∷ []) post ∙ e)
              (following-next mem g several built held once pre post x e) l,
      )
