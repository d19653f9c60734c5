-- ===== src/Call/Retrans.antt =====
-- src/sip_call.c, `call_msg_retrans_check`: which earlier message a message repeats.
use sngrep.Common.{
  ℕ, suc, ◌≡◌, refl, ◌∙◌, ap, Bool, some, List, [], ◌∷◌, ◌++◌, ◌==◌, if◌then◌else◌, ◌>>=◌, arith,
  length, length-append,
}
use sngrep.Common.Int.{pos}
use sngrep.Vector.{Ptr, null, index}
use sngrep.Vector.Holds.{Holds, index-position, position-append}
use sngrep.Vector.Iter.{iterator, set_current}
use sngrep.Vector.Back.{rev_onto, first_such, rev_onto-rev_onto, length-rev_onto, last_such-first}
use sngrep.Vector.Sorting.{Fresh}
use sngrep.Msg.{Msgs}
use sngrep.Call.{Call, same_route, call_msg_retrans_check}

-- The latest of some messages with the addresses of the message at `p`, NULL if there is none.
abbrev pub latest_alike : Msgs → Ptr → List Ptr → Ptr
latest_alike heap p pre = first_such (same_route heap (heap p)) (rev_onto pre [])

module _ (same_payload : List ℕ → List ℕ → Bool) (heap : Msgs) (c : Call) where
  -- For a message that stands once among those of its call, up to itself, `call_msg_retrans_check`
  -- returns, and marks it as a repetition of the latest message before it with the same addresses,
  -- if there is one and the payloads are the same; else it leaves the message as it is.
  pub call_msg_retrans_check-latest :
      (pre post : List Ptr) (p : Ptr)
      → Holds c.msgs (pre ++ p ∷ post)
      → Fresh p pre
      → call_msg_retrans_check same_payload heap c p
        ≡ some (
            let q = latest_alike heap p pre in
            if q == null
            then heap p
            else (if same_payload (heap p).payload (heap q).payload
                then record (heap p) { retrans = q }
                else heap p))
  unfolding call_msg_retrans_check iterator set_current
  call_msg_retrans_check-latest pre post p h fresh =
      let place : index c.msgs p ≡ some (pos (length (rev_onto pre []))) =
        index-position h p
        ∙ ap some
            (position-append p pre post 0 fresh ∙ ap pos (omega (arith, length-rev_onto pre []))) in
      let turned : rev_onto (rev_onto pre []) (p ∷ post) ≡ pre ++ p ∷ post =
        rev_onto-rev_onto pre [] (p ∷ post) in
      let found =
        last_such-first h (same_route heap (heap p)) (rev_onto pre []) (p ∷ post) (suc c.msgs.count)
          turned (omega (arith, h.counted, length-rev_onto pre [], length-append pre (p ∷ post))) in
      rw (place, ◌>>=◌, found) refl
