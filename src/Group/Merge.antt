-- ===== src/Group/Merge.antt =====
-- src/group.c: the messages of several calls, merged by time.
use mathlib.Core.List.{Perm}
use sngrep.Common.{
  ◌+◌, ◌*◌, ◌-◌, ◌≤◌, ◌<◌, ◌≡◌, refl, ◌∙◌, ap, none, some, List, [], ◌∷◌, ◌++◌, arith, length,
  length-append, All, ◌>>=◌, ◌^◌, fold_steps, subst,
}
use sngrep.Vector.{Ptr, Vector, create, set_sorter}
use sngrep.Vector.Iter.{iterator}
use sngrep.Vector.Holds.{Holds, create-Holds}
use sngrep.Vector.Append.{Places}
use sngrep.Vector.Build.{
  place_all, ReadyAll, append_vector-place_all, length-place_all, filter-none,
}
use sngrep.Vector.Walk.{each-filter}
use sngrep.Vector.Settle.{place, settle}
use sngrep.Vector.Order.{Sorted, Decides, place_all-Sorted, place_all-perm}
use sngrep.Vector.Once.{place_all-Distinct}
use sngrep.Vector.Sorting.{Fresh, Distinct, settle-Places, Distinct-ReadyAll}
use sngrep.Util.{timeval_is_older, micros}
use sngrep.Msg.{Msgs, msg_get_time}
use sngrep.Group.{
  Group, Memory, stays_behind, call_group_msg_sorter, msg_sorter, run_sorter, collect, merged,
}

-- Not later than.
abbrev pub NotLater : Msgs → Ptr → Ptr → Type 0
NotLater heap x y = micros (msg_get_time heap x) ≤ micros (msg_get_time heap y)

stays_behind-Decides : (heap : Msgs) → Decides (NotLater heap) (stays_behind heap)
unfolding timeval_is_older
stays_behind-Decides heap = record {
  trans = λ x y z p q. omega arith;
  follows = λ x y e. ground arith;
  precedes = λ x y e. ground arith;
}

sorter-Places :
    (heap : Msgs) → Places (run_sorter heap) msg_sorter Fresh (place (stays_behind heap))
unfolding run_sorter call_group_msg_sorter
sorter-Places heap =
    settle-Places (stays_behind heap) (λ e. omega arith)
      (λ v xs x h.
        let n : v.count - 1 ≡ length xs = omega (arith, h.counted, length-append xs (x ∷ [])) in
        ap (settle (stays_behind heap) v x) n)

-- The messages of some calls, call after call.
abbrev pub all_msgs : (Ptr → List Ptr) → List Ptr → List Ptr
all_msgs of [] = []
all_msgs of (c ∷ cs) = of c ++ all_msgs of cs

-- Each call's vector holds its messages.
abbrev pub CallsHold : Memory → (Ptr → List Ptr) → List Ptr → Type 0
CallsHold mem of = All (λ c. Holds (mem.calls c).msgs (of c))

place_all-append :
    (put : Ptr → List Ptr → List Ptr) (xs ys zs : List Ptr)
    → place_all put (place_all put xs ys) zs ≡ place_all put xs (ys ++ zs)
place_all-append put xs [] zs = refl
place_all-append put xs (y ∷ ys) zs = place_all-append put (put y xs) ys zs

ReadyAll-split :
    (R : Ptr → List Ptr → Type 0) (put : Ptr → List Ptr → List Ptr) (xs ys zs : List Ptr)
    → ReadyAll R put xs (ys ++ zs)
    → ReadyAll R put xs ys × ReadyAll R put (place_all put xs ys) zs
ReadyAll-split R put xs [] zs r = (tt, r)
ReadyAll-split R put xs (y ∷ ys) zs r =
    let (a, b) = ReadyAll-split R put (put y xs) ys zs r.1 in ((r.0, a), b)

module _ (mem : Memory) (of : Ptr → List Ptr) where
  put : Ptr → List Ptr → List Ptr
  put = place (stays_behind mem.msgs)

  collect_all :
      (cs xs : List Ptr) (v : Vector)
      → Holds v xs
      → v.sorter ≡ msg_sorter
      → v.step ≡ 10
      → v.limit + 10 * length (all_msgs of cs) < 2 ^ 32
      → length xs + length (all_msgs of cs) < 2 ^ 31
      → CallsHold mem of cs
      → ReadyAll Fresh put xs (all_msgs of cs)
      → (w : Vector) × (fold_steps (collect mem) v cs ≡ some w)
        × Holds w (place_all put xs (all_msgs of cs))
  unfolding collect put
  collect_all [] xs v h e s room few k r = (v, refl, h)
  collect_all (c ∷ cs) xs v h e s room few k r =
      let size = length-append (of c) (all_msgs of cs) in
      let (r', rest) = ReadyAll-split Fresh put xs (of c) (all_msgs of cs) r in
      let (u, run, f) =
        append_vector-place_all (sorter-Places mem.msgs) h k.0 e (rw s (omega (arith, size)))
          (omega (arith, size)) r' in
      let le : u.limit ≤ v.limit + 10 * length (of c) = rw s at f.limit_le in
      let (w, more, g) =
        collect_all cs (place_all put xs (of c)) u f.holds (f.same_sorter ∙ e) (f.same_step ∙ s)
          (omega (arith, size, le))
          (omega (arith, size, length-place_all (sorter-Places mem.msgs) xs (of c))) k.1 rest in
      (w, rw (run, ◌>>=◌) more, subst (Holds w) (place_all-append put xs (of c) (all_msgs of cs)) g)

  -- For a group whose calls hold different messages, fewer than 2^28, the vector that
  -- `call_group_get_next_msg` builds exists, and has every message of every call just once, none
  -- later than the next.
  pub merged-Sorted :
      (g : Group) (cs : List Ptr)
      → Holds g.calls cs
      → CallsHold mem of cs
      → Distinct (all_msgs of cs)
      → length (all_msgs of cs) < 2 ^ 28
      → (w : Vector) × (ms : List Ptr) × (merged mem g ≡ some w)
        × Holds w ms
        × Sorted (NotLater mem.msgs) ms
        × Perm ms (all_msgs of cs)
        × Distinct ms
  unfolding merged iterator create set_sorter put
  merged-Sorted g cs h k d small =
      let ys : List Ptr = all_msgs of cs in
      let start = create-Holds 1 10 (omega arith) (omega arith) (omega arith) in
      let (w, run, held) =
        collect_all cs [] (set_sorter (create 1 10) msg_sorter)
          (record {
            storage = start.storage;
            counted = start.counted;
            non_null = start.non_null;
            step_pos = start.step_pos;
            step_small = start.step_small;
            small = start.small;
            within = start.within;
            few = start.few;
          })
          refl refl (omega arith) (omega arith) k
          (Distinct-ReadyAll (stays_behind mem.msgs) ys d) in
      (
        w,
        place_all (place (stays_behind mem.msgs)) [] ys,
        rw (each-filter h none (collect mem) (set_sorter (create 1 10) msg_sorter), filter-none cs)
            run,
        held,
        place_all-Sorted (stays_behind-Decides mem.msgs) ys [] tt,
        place_all-perm (stays_behind mem.msgs) ys [],
        place_all-Distinct (stays_behind mem.msgs) ys []
            (Distinct-ReadyAll (stays_behind mem.msgs) ys d) tt,
      )
