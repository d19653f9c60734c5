-- ===== src/CallList/Clear.antt =====
-- src/sip.c: the list of calls as the program starts it and after the user cleared it.
use sngrep.Common.{ℕ, ◌<◌, ◌≡◌, refl, ◌∙◌, ap, Bool, some, List, [], ◌++◌, ◌>>=◌, ◌^◌, arith}
use sngrep.Vector.{Ptr, create, set_destroyer, set_sorter}
use sngrep.Vector.Holds.{create-Holds}
use sngrep.Vector.Remove.{has}
use sngrep.Vector.Clear.{clear-Keeps, handed_all}
use sngrep.Hash
use sngrep.Hash.View.{create-IsTable, view-create}
use sngrep.Msg.{Msg}
use sngrep.Call.{Call}
use sngrep.CallList.{Sip, sip_init, sip_calls_clear}
use sngrep.CallList.Invariant.{IsValid}

-- For a positive limit of calls below 2^64, `sip_init` starts with an empty list that agrees with
-- its index.
pub sip_init-IsValid :
    (limit : ℕ) (only_calls no_incomplete : Bool) (by : ℕ) (asc : Bool) (calls : Ptr → Call)
    (msgs : Ptr → Msg)
    → 0 < limit
    → limit < 2 ^ 64
    → IsValid (sip_init limit only_calls no_incomplete by asc calls msgs) []
unfolding sip_init set_destroyer set_sorter create
sip_init-IsValid limit only_calls no_incomplete by asc calls msgs low high =
    let fresh = create-Holds 200 50 (omega arith) (omega arith) (omega arith) in
    record {
      listed = record {
        storage = fresh.storage;
        counted = fresh.counted;
        non_null = fresh.non_null;
        step_pos = fresh.step_pos;
        step_small = fresh.step_small;
        small = fresh.small;
        within = fresh.within;
        few = fresh.few;
      };
      distinct = tt;
      sorter = refl;
      none_active = create-Holds 10 10 (omega arith) (omega arith) (omega arith);
      table = create-IsTable limit low high;
      indexed = λ k p. ap (has p) (view-create limit k);
      single = λ k. rw (view-create limit k) (omega arith);
    }

-- If list and index agree and the limit of calls is positive and below 2^64, `sip_calls_clear`
-- returns an empty list that agrees with its index, and the last number of a call stays.
pub sip_calls_clear-IsValid :
    {s : Sip} {xs : List Ptr}
    → IsValid s xs
    → 0 < s.limit
    → s.limit < 2 ^ 64
    → (s' : Sip) × (sip_calls_clear s ≡ some s') × IsValid s' [] × (s'.last_index ≡ s.last_index)
unfolding sip_calls_clear
sip_calls_clear-IsValid {s} {xs} h low high =
    let (l, run_l, kl) = clear-Keeps h.listed in
    let (a, run_a, ka) = clear-Keeps h.none_active in
    (
      record s {
        callids = Hash.create s.limit;
        list = l;
        active = a;
        destroyed = s.destroyed ++ handed_all s.list xs;
      },
      rw (run_l, ◌>>=◌, run_a) refl,
      record {
        listed = kl.holds;
        distinct = tt;
        sorter = kl.same_sorter ∙ h.sorter;
        none_active = ka.holds;
        table = create-IsTable s.limit low high;
        indexed = λ k p. ap (has p) (view-create s.limit k);
        single = λ k. rw (view-create s.limit k) (omega arith);
      },
      refl,
    )
