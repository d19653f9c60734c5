-- ===== src/Media/Ready.antt =====
-- src/sip.c, `sip_parse_msg_media`: the streams of a call between two lines, and what adding those of
-- an `m=` line does.
use sngrep.Common.{
  ℕ, suc, ◌+◌, ◌<◌, ◌≡◌, ◌≢◌, inl, inr, refl, sym, ◌∙◌, ap, subst, false, Option, some, List, [],
  ◌∷◌, ◌==◌, ◌>>=◌, All, All-append, arith,
}
use sngrep.Vector.{Ptr, Vector}
use sngrep.Address.{addressport_equals}
use sngrep.Call.{Call}
use sngrep.CallList.{update}
use sngrep.Rtp.{Stream}
use sngrep.Media.Streams.{
  All-map, Apart, Distinct, Streams, SameCall, SameCall-trans, Added, add_stream-Added,
}
use sngrep.Media.Sdp.{Parser, add_stream, add_streams}

-- Streams that are the same at these places.
abbrev pub Agree : (Ptr → Stream) → (Ptr → Stream) → List Ptr → Type 0
Agree st st' xs = All (λ q. st' q ≡ st q) xs

pub Agree-Apart :
    (st st' : Ptr → Stream) (p : Ptr) (xs : List Ptr)
    → st' p ≡ st p
    → Agree st st' xs
    → Apart st p xs
    → Apart st' p xs
Agree-Apart st st' p [] e a h = tt
Agree-Apart st st' p (x ∷ xs) e a h = (
  ap (λ (t : Stream). addressport_equals t.dst (st' x).dst) e
      ∙ ap (λ (t : Stream). addressport_equals (st p).dst t.dst) a.0
      ∙ h.0,
  Agree-Apart st st' p xs e a.1 h.1,
)

pub Agree-Distinct :
    (st st' : Ptr → Stream) (xs : List Ptr) → Agree st st' xs → Distinct st xs → Distinct st' xs
Agree-Distinct st st' [] a d = tt
Agree-Distinct st st' (x ∷ xs) a d =
    (Agree-Apart st st' x xs a.0 a.1 d.0, Agree-Distinct st st' xs a.1 d.1)

pub Agree-Streams :
    {c : Call} {rounds : ℕ} {xs : List Ptr} (st st' : Ptr → Stream)
    → Agree st st' xs
    → Streams c st rounds xs
    → Streams c st' rounds xs
Agree-Streams {xs = xs} st st' a h = record {
  holds = h.holds;
  plain = h.plain;
  room = h.room;
  apart = Agree-Distinct st st' xs a h.apart;
}

-- None of these is `p`.
abbrev pub Outside : Ptr → List Ptr → Type 0
Outside p xs = All (λ q. q ≢ p) xs

pub update-Agree :
    (st : Ptr → Stream) (p : Ptr) (t : Stream) (xs : List Ptr)
    → Outside p xs
    → Agree st (update st p t) xs
update-Agree st p t xs h =
    All-map (λ q. q ≢ p) (λ q. update st p t q ≡ st q) xs
      (λ q ne. let f : (q == p) ≡ false = ground arith in rw f refl) h

pub Agree-trans :
    (a b c : Ptr → Stream) (xs : List Ptr) → Agree a b xs → Agree b c xs → Agree a c xs
Agree-trans a b c [] h k = tt
Agree-trans a b c (x ∷ xs) h k = (k.0 ∙ h.0, Agree-trans a b c xs h.1 k.1)

-- The streams of the call before a line: they are older than the memory that malloc gives next, and
-- the streams of the last `m=` line are not among them.
pub record Ready (s : Parser) (rounds : ℕ) (xs : List Ptr) : Type 0 where
  pub streams : Streams s.call s.streams rounds xs
  pub old : All (λ q. q < s.next) xs
  pub msg_rtp_old : s.msg_rtp_stream < s.next
  pub rtp_old : s.rtp_stream < s.next
  pub rtcp_old : s.rtcp_stream < s.next
  pub rtp_out : Outside s.rtp_stream xs
  pub rtcp_out : Outside s.rtcp_stream xs

module _ (run : Ptr → Vector → Ptr → Option Vector) where
  -- What `add_streams` does: only the call changes.
  unfoldable pub Gathered : Parser → ℕ → Option Parser → Type 0
  Gathered s rounds result =
      (c : Call) × (ys : List Ptr) × (result ≡ some (record s { call = c }))
      × SameCall s.call c
      × Streams c s.streams rounds ys
      × All (λ q. q < s.next) ys

  pub add_stream-Gathered :
      (s : Parser) (p : Ptr) (rounds : ℕ) (xs : List Ptr)
      → Streams s.call s.streams (suc rounds) xs
      → All (λ q. q < s.next) xs
      → p < s.next
      → Gathered s rounds (add_stream run s p)
  unfolding Gathered Added
  add_stream-Gathered s p rounds xs h old lt =
      let (c, ys, e, same, k, which) = add_stream-Added run s p rounds xs h in
      (
        c,
        ys,
        e,
        same,
        k,
        elim which [
          | inl y ↦ subst (λ l. All (λ q. q < s.next) l) (sym y) old
          | inr y ↦
              subst (λ l. All (λ q. q < s.next) l) (sym y)
                (All-append (λ q. q < s.next) xs (p ∷ []) old (lt, tt))
        ],
      )

  pub add_streams-Gathered :
      (s : Parser) (rounds : ℕ) (xs : List Ptr)
      → Ready s (3 + rounds) xs
      → Gathered s rounds (add_streams run s)
  unfolding add_streams Gathered
  add_streams-Gathered s rounds xs h =
      let (c1, y1, e1, m1, k1, o1) =
        add_stream-Gathered s s.msg_rtp_stream (2 + rounds) xs
          (subst (λ n. Streams s.call s.streams n xs) (omega arith) h.streams) h.old
          h.msg_rtp_old in
      let s1 : Parser = record s { call = c1 } in
      let (c2, y2, e2, m2, k2, o2) =
        add_stream-Gathered s1 s.rtp_stream (1 + rounds) y1
          (subst (λ n. Streams c1 s.streams n y1) (omega arith) k1) o1 h.rtp_old in
      let s2 : Parser = record s { call = c2 } in
      let (c3, y3, e3, m3, k3, o3) =
        add_stream-Gathered s2 s.rtcp_stream rounds y2
          (subst (λ n. Streams c2 s.streams n y2) (omega arith) k2) o2 h.rtcp_old in
      (
        c3,
        y3,
        ap
              (λ o. o >>= λ (t : Parser).
                add_stream run t t.rtp_stream >>= λ u. add_stream run u u.rtcp_stream)
              e1
            ∙ ap (λ o. o >>= λ (u : Parser). add_stream run u u.rtcp_stream) e2
            ∙ e3,
        SameCall-trans (SameCall-trans m1 m2) m3,
        k3,
        o3,
      )
