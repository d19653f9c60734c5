-- ===== src/Rtp/Search.antt =====
-- src/rtp.c: the searches for a stream of a call, from the last stream to the first.
use mathlib.Core.List.{append-nil}
use sngrep.Common.{
  suc, ◌≡◌, ◌∙◌, ap, Bool, none, some, List, [], ◌==◌, ◌&&◌, ◌||◌, not, if◌then◌else◌, ◌>>=◌, arith,
  length, subst,
}
use sngrep.Common.Int.{ℤ, to_int-small}
use sngrep.Vector.{Ptr, null, Vector}
use sngrep.Vector.Holds.{Holds}
use sngrep.Vector.Iter.{last_such, iterator, set_last, count_of}
use sngrep.Address.{Address, addressport_equals}
use sngrep.Call.{Call}
use sngrep.Rtp.{Stream, from_last, rtp_find_call_exact_stream, rtp_find_call_stream}
use sngrep.Vector.Back.{
  rev_onto, first_such, rev_onto-rev_onto, length-rev_onto, last_such-first, behind_items,
}

module _ {v : Vector} {xs : List Ptr} (h : Holds v xs) where
  pub from_last-first :
      (test : Ptr → Bool) → from_last test v ≡ some (first_such test (rev_onto xs []))
  unfolding from_last set_last iterator count_of
  from_last-first test =
      let all : length (rev_onto xs []) ≡ v.count =
        omega (arith, length-rev_onto xs [], h.counted) in
      ap
        (λ (c : ℤ).
          last_such (suc v.count) test (record { current = c; vector = some v; filter = none }))
        (to_int-small v.count h.few)
      ∙ subst
          (λ n.
            last_such (suc v.count) test (behind_items h n)
            ≡ some (first_such test (rev_onto xs [])))
          all
          (last_such-first h test (rev_onto xs []) [] (suc v.count)
            (rev_onto-rev_onto xs [] [] ∙ append-nil xs) (omega (arith, all)))

module _ (streams : Ptr → Stream) (call : Call) {xs : List Ptr} (h : Holds call.streams xs) where
  -- Whether a stream leads from `src` to `dst`.
  abbrev pub exact : Address → Address → Ptr → Bool
  exact src dst p = addressport_equals src (streams p).src && addressport_equals dst (streams p).dst

  -- Whether a stream leads to `dst` and waits for its source; if the source has no port, any does.
  abbrev pub waiting : Address → Address → Ptr → Bool
  waiting src dst p =
      addressport_equals dst (streams p).dst && (src.port == 0 || (streams p).pktcnt == 0)

  -- `rtp_find_call_exact_stream` returns, and finds the last added stream with both addresses,
  -- NULL if there is none.
  pub rtp_find_call_exact_stream-first :
      (src dst : Address)
      → rtp_find_call_exact_stream streams call src dst
        ≡ some (first_such (exact src dst) (rev_onto xs []))
  unfolding rtp_find_call_exact_stream
  rtp_find_call_exact_stream-first src dst = from_last-first h (exact src dst)

  -- `rtp_find_call_stream` returns, and finds the last added stream to the destination that has
  -- had no packet (or any one to it, if the source has no port); only if there is none, and the
  -- source has a port, the last added stream with both addresses; else NULL.
  pub rtp_find_call_stream-first :
      (src dst : Address)
      → rtp_find_call_stream streams call src dst
        ≡ some (
            let idle = first_such (waiting src dst) (rev_onto xs []) in
            if not (idle == null)
            then idle
            else (if not (src.port == 0)
                then first_such (exact src dst) (rev_onto xs [])
                else null))
  unfolding rtp_find_call_stream
  rtp_find_call_stream-first src dst =
      rw (from_last-first h (waiting src dst), ◌>>=◌, rtp_find_call_exact_stream-first src dst)
        (ground arith)
