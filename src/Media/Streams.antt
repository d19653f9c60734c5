-- ===== src/Media/Streams.antt =====
-- src/sip.c, `sip_parse_msg_media`: the places that the streams of a call lead to, and `ADD_STREAM`.
use sngrep.Common.{
  ℕ, suc, ◌+◌, ◌*◌, ◌^◌, ◌<◌, ◌≡◌, ◌≢◌, ◌⊎◌, inl, inr, refl, ◌∙◌, ap, Bool, true, false, Option,
  some, List, [], ◌∷◌, ◌++◌, ◌==◌, ==_iff, ◌&&◌, ◌||◌, not, if◌then◌else◌, ◌>>=◌, All, All-append,
  Bool-cases, arith,
}
use sngrep.Common.Int.{ℤ}
use sngrep.Vector.{Ptr, null, Vector, append}
use sngrep.Vector.Holds.{Holds}
use sngrep.Vector.Back.{rev_onto, first_such}
use sngrep.Vector.Append.{append-place, no_sorter-Places}
use sngrep.Address.{Address, addressport_equals}
use sngrep.Call.{Call, call_add_stream}
use sngrep.Rtp.{Stream, no_address, rtp_find_call_stream}
use sngrep.Rtp.Search.{rtp_find_call_stream-first}
use sngrep.Hash.View.{key_eq_sym}
use sngrep.Media.Sdp.{Parser, add_stream}

All-rev_onto : (P : Ptr → Type 0) (xs ys : List Ptr) → All P (rev_onto xs ys) → All P xs × All P ys
All-rev_onto P [] ys h = (tt, h)
All-rev_onto P (x ∷ xs) ys h = let (a, b) = All-rev_onto P xs (x ∷ ys) h in ((b.0, a), b.1)

rev_onto-All : (P : Ptr → Type 0) (xs ys : List Ptr) → All P xs → All P ys → All P (rev_onto xs ys)
rev_onto-All P [] ys h k = k
rev_onto-All P (x ∷ xs) ys h k = rev_onto-All P xs (x ∷ ys) h.1 (h.0, k)

first_such-null :
    (test : Ptr → Bool) (xs : List Ptr)
    → All (λ x. x ≢ 0) xs
    → first_such test xs ≡ null
    → All (λ x. test x ≡ false) xs
first_such-null test [] h e = tt
first_such-null test (x ∷ xs) h e = elim (Bool-cases (test x)) [
  | inl t ↦ let here : x ≡ null = rw t at e in elim (h.0 here) [ ]
  | inr f ↦ (f, first_such-null test xs h.1 (rw f at e))
]

addressport_equals_sym : (a b : Address) → addressport_equals a b ≡ addressport_equals b a
unfolding addressport_equals
addressport_equals_sym a b =
    let port : (a.port == b.port) ≡ (b.port == a.port) = ground arith in
    rw (port, key_eq_sym a.ip b.ip) refl

-- `rtp_find_call_stream` without a source finds NULL only if no stream leads to the place.
unfoldable Search : (Ptr → Stream) → List Ptr → Address → Option Ptr → Type 0
Search streams xs d run =
    (q : Ptr) × (run ≡ some q)
    × (q ≡ null → All (λ x. addressport_equals d (streams x).dst ≡ false) xs)

pub All-map : (P Q : Ptr → Type 0) (xs : List Ptr) → ((x : Ptr) → P x → Q x) → All P xs → All Q xs
All-map P Q [] f h = tt
All-map P Q (x ∷ xs) f h = (f x h.0, All-map P Q xs f h.1)

rtp_find_call_stream-Search :
    (streams : Ptr → Stream) (call : Call) (xs : List Ptr) (d : Address)
    → Holds call.streams xs
    → Search streams xs d (rtp_find_call_stream streams call no_address d)
unfolding Search
rtp_find_call_stream-Search streams call xs d h =
    let test : Ptr → Bool =
      λ q. addressport_equals d (streams q).dst && (0 == 0 || (streams q).pktcnt == 0) in
    let found : Ptr = first_such test (rev_onto xs []) in
    let pick : (if not (found == null) then found else null) ≡ found = ground arith in
    (
      found,
      rtp_find_call_stream-first streams call h no_address d ∙ ap some pick,
      λ e.
          All-map (λ x. test x ≡ false) (λ x. addressport_equals d (streams x).dst ≡ false) xs
            (λ x k. ground arith)
            (All-rev_onto (λ x. test x ≡ false) xs []
              (first_such-null test (rev_onto xs []) (rev_onto-All (λ x. x ≢ 0) xs [] h.non_null tt)
                e)).0,
    )

module _ (streams : Ptr → Stream) where
  -- The stream leads to another place than these.
  abbrev pub Apart : Ptr → List Ptr → Type 0
  Apart p qs = All (λ q. addressport_equals (streams p).dst (streams q).dst ≡ false) qs

  -- No two of the streams lead to the same place.
  abbrev pub Distinct : List Ptr → Type 0
  Distinct [] = Unit
  Distinct (p ∷ ps) = Apart p ps × Distinct ps

  pub append-Distinct :
      (xs : List Ptr) (p : Ptr) → Distinct xs → Apart p xs → Distinct (xs ++ p ∷ [])
  append-Distinct [] p d a = (tt, tt)
  append-Distinct (x ∷ xs) p d a = (
    All-append _ xs (p ∷ []) d.0 (addressport_equals_sym (streams x).dst (streams p).dst ∙ a.0, tt),
    append-Distinct xs p d.1 a.1,
  )

-- The streams of a call: these, which lead to different places. The vector can grow `rounds` times.
pub record Streams (call : Call) (streams : Ptr → Stream) (rounds : ℕ) (xs : List Ptr)
    : Type 0 where
  pub holds : Holds call.streams xs
  pub plain : call.streams.sorter ≡ null
  pub room : call.streams.limit + 256 * rounds < 2 ^ 31
  pub apart : Distinct streams xs

-- What the parsing keeps of a call.
pub record SameCall (c d : Call) : Type 0 where
  pub same_callid : d.callid ≡ c.callid
  pub same_msgs : d.msgs ≡ c.msgs

pub SameCall-trans : {c d e : Call} → SameCall c d → SameCall d e → SameCall c e
SameCall-trans a b = record {
  same_callid = b.same_callid ∙ a.same_callid;
  same_msgs = b.same_msgs ∙ a.same_msgs;
}

module _ (run : Ptr → Vector → Ptr → Option Vector) where
  call_add_stream-append :
      (c : Call) (p : Ptr) (w : Vector) (n : ℤ)
      → append run c.streams p ≡ some (w, n)
      → call_add_stream run c p ≡ some (record c { streams = w; changed = true })
  unfolding call_add_stream
  call_add_stream-append c p w n e =
      ap (λ o. o >>= λ (r : Vector × ℤ). some (record c { streams = r.0; changed = true })) e

  if-false : {A : Type 0} (b : Bool) (x y : A) → b ≡ false → (if b then x else y) ≡ y
  if-false b x y e = rw e refl

  -- The stream is not NULL, and no other one leads to its place.
  add_stream_new :
      (s : Parser) (p q : Ptr) (c : Call)
      → (p == null) ≡ false
      → rtp_find_call_stream s.streams s.call no_address (s.streams p).dst ≡ some q
      → not (q == null) ≡ false
      → call_add_stream run s.call p ≡ some c
      → add_stream run s p ≡ some (record s { call = c })
  unfolding add_stream
  add_stream_new s p q c f found none_such added =
      let add : Option Parser =
        call_add_stream run s.call p >>= λ c. some (record s { call = c }) in
      let K : Ptr → Option Parser = λ known. if not (known == null) then some s else add in
      if-false (p == null) (some s)
        (rtp_find_call_stream s.streams s.call no_address (s.streams p).dst >>= K) f
      ∙ ap (λ o. o >>= K) found
      ∙ if-false (not (q == null)) (some s) add none_such
      ∙ ap (λ o. o >>= λ (c : Call). some (record s { call = c })) added

  -- `ADD_STREAM` adds the stream, if no other one of the call leads to its place.
  unfoldable pub Added : Parser → Ptr → ℕ → List Ptr → Type 0
  Added s p rounds xs =
      (c : Call) × (ys : List Ptr) × (add_stream run s p ≡ some (record s { call = c }))
      × SameCall s.call c
      × Streams c s.streams rounds ys
      × ((ys ≡ xs) ⊎ (ys ≡ xs ++ p ∷ []))

  pub add_stream-Added :
      (s : Parser) (p : Ptr) (rounds : ℕ) (xs : List Ptr)
      → Streams s.call s.streams (suc rounds) xs
      → Added s p rounds xs
  unfolding add_stream call_add_stream Added Search
  add_stream-Added s p rounds xs h =
      let kept : Streams s.call s.streams rounds xs = record {
        holds = h.holds;
        plain = h.plain;
        room = omega (arith, h.room);
        apart = h.apart;
      } in
      let same : SameCall s.call s.call = record { same_callid = refl; same_msgs = refl } in
      elim (Bool-cases (p == null)) [
        | inl t ↦ (s.call, xs, rw t refl, same, kept, inl refl)
        | inr f ↦
            let (q, run_q, none_such) =
              rtp_find_call_stream-Search s.streams s.call xs (s.streams p).dst h.holds in
            elim (Bool-cases (q == null)) [
              | inr g ↦ (s.call, xs, rw (f, run_q, g) refl, same, kept, inl refl)
              | inl g ↦
                  let (w, appended, b) =
                    append-place (no_sorter-Places (run)) h.holds h.plain
                      (omega (arith, h.room, h.holds.step_small))
                      (omega (arith, h.room, h.holds.counted, h.holds.within)) p (ground arith)
                      tt in
                  let apart = none_such ((==_iff q null).0 g) in
                  (
                    record s.call { streams = w; changed = true },
                    xs ++ p ∷ [],
                    add_stream_new s p q _ f run_q (rw g refl)
                        (call_add_stream-append s.call p w _ appended),
                    record { same_callid = refl; same_msgs = refl },
                    record {
                      holds = b.holds;
                      plain = b.same_sorter ∙ h.plain;
                      room = omega (arith, b.limit_le, h.room, h.holds.step_small);
                      apart = append-Distinct s.streams xs p h.apart apart;
                    },
                    inr refl,
                  )
            ]
      ]
