-- ===== src/Save/Order.antt =====
-- src/curses/ui_save.c, `save_to_file`: which packets are saved, and in which order.
use mathlib.Core.List.{Perm, append-nil, append_assoc}
use sngrep.Common.{
  ◌-◌, ◌^◌, ◌≤◌, ◌<◌, ◌≡◌, ◌≢◌, refl, sym, ◌∙◌, ap, Bool, true, Option, none, some, List, [], ◌∷◌,
  ◌++◌, map, filter, if◌then◌else◌, ◌>>=◌, length, length-append, fold_steps, fold_steps-append,
  All, Bool-cases, inl, inr, arith,
}
use sngrep.Vector.{Ptr, Vector, create, set_sorter}
use sngrep.Vector.Iter.{each, iterator, passes}
use sngrep.Vector.Copy.{append_item}
use sngrep.Vector.Holds.{Holds, create-Holds}
use sngrep.Vector.Settle.{place, settle}
use sngrep.Vector.Sorting.{Fresh, Distinct, settle-Places, Distinct-ReadyAll}
use sngrep.Vector.Append.{Places}
use sngrep.Vector.Build.{place_all, fold-place_all, filter-none}
use sngrep.Vector.Once.{place_all-Distinct}
use sngrep.Vector.Order.{Sorted, Decides, place_all-Sorted, place_all-perm}
use sngrep.Vector.Walk.{each-filter}
use sngrep.Util.{micros, timeval_is_older}
use sngrep.Packet.{packet_time}
use sngrep.Save.{
  Memory, stays_behind, capture_packet_time_sorter, time_sorter, run_sorter, save_msg, save_call,
  sorted_packets, save_to_file,
}

-- Not captured later than.
abbrev pub NotLater : Memory → Ptr → Ptr → Type 0
NotLater mem x y =
    micros (packet_time (some (mem.packets x))) ≤ micros (packet_time (some (mem.packets y)))

stays_behind-Decides : (mem : Memory) → Decides (NotLater mem) (stays_behind mem)
unfolding timeval_is_older
stays_behind-Decides mem = record {
  trans = λ x y z p q. omega arith;
  follows = λ x y e. ground arith;
  precedes = λ x y e. ground arith;
}

time_sorter-Places :
    (mem : Memory) → Places (run_sorter mem) time_sorter Fresh (place (stays_behind mem))
unfolding run_sorter capture_packet_time_sorter
time_sorter-Places mem =
    settle-Places (stays_behind mem) (λ e. omega arith)
      (λ v xs x h.
        let n : v.count - 1 ≡ length xs = omega (arith, h.counted, length-append xs (x ∷ [])) in
        ap (settle (stays_behind mem) v x) n)

module _ (mem : Memory) (with_rtp : Bool) (msgs_of rtp_of : Ptr → List Ptr) where
  -- What the vectors of a call hold; without the RTP format its RTP packets are not read.
  pub record CallHolds (c : Ptr) : Type 0 where
    pub msgs : Holds (mem.calls c).msgs (msgs_of c)
    pub rtp_vector : Vector
    pub has_rtp : with_rtp ≡ true → (mem.calls c).rtp_packets ≡ some rtp_vector
    pub rtp : Holds rtp_vector (rtp_of c)

  -- The packets of a call.
  abbrev pub packets_of : Ptr → List Ptr
  packets_of c = map mem.packet_of (msgs_of c) ++ (if with_rtp then rtp_of c else [])

  abbrev pub all_packets : List Ptr → List Ptr
  all_packets [] = []
  all_packets (c ∷ cs) = packets_of c ++ all_packets cs

  run : Vector → Ptr → Option Vector
  unfolding append_item
  run = append_item (run_sorter mem)

  fold-save_msg :
      (ms : List Ptr) (v : Vector)
      → fold_steps (save_msg mem) v ms ≡ fold_steps run v (map mem.packet_of ms)
  unfolding save_msg run
  fold-save_msg [] v = refl
  fold-save_msg (m ∷ ms) v =
      elim (run v (mem.packet_of m))
        as (λ o.
          (o >>= λ w. fold_steps (save_msg mem) w ms)
          ≡ (o >>= λ w. fold_steps run w (map mem.packet_of ms))) [
            | none ↦ refl
            | some w ↦ fold-save_msg ms w
          ]

  rtp_loop : (b : Bool) → Option Vector → Vector → Option Vector
  rtp_loop b packets v = if b then each run (iterator packets) v else some v

  rtp_loop-fold :
      (c : Ptr) (h : CallHolds c) (v : Vector)
      → rtp_loop with_rtp (mem.calls c).rtp_packets v
        ≡ fold_steps run v (if with_rtp then rtp_of c else [])
  unfolding rtp_loop iterator run
  rtp_loop-fold c h v = elim (Bool-cases with_rtp) [
    | inr f ↦ rw f refl
    | inl t ↦
        rw (t, h.has_rtp t)
          (each-filter h.rtp none run v ∙ ap (fold_steps run v) (filter-none (rtp_of c)))
  ]

  save_call-fold :
      (c : Ptr) (h : CallHolds c) (v : Vector)
      → save_call mem with_rtp v c ≡ fold_steps run v (packets_of c)
  unfolding save_call rtp_loop run iterator
  save_call-fold c h v =
      ap (λ o. o >>= rtp_loop with_rtp (mem.calls c).rtp_packets)
        (each-filter h.msgs none (save_msg mem) v
          ∙ ap (fold_steps (save_msg mem) v) (filter-none (msgs_of c))
          ∙ fold-save_msg (msgs_of c) v)
      ∙ after (fold_steps run v (map mem.packet_of (msgs_of c)))
      ∙ sym (
          fold_steps-append run v (map mem.packet_of (msgs_of c))
            (if with_rtp then rtp_of c else []))
    where
      after :
          (o : Option Vector)
          → (o >>= rtp_loop with_rtp (mem.calls c).rtp_packets)
            ≡ (o >>= λ w. fold_steps run w (if with_rtp then rtp_of c else []))
      after none = refl
      after (some w) = rtp_loop-fold c h w

  fold-save_call :
      (cs : List Ptr) (v : Vector)
      → All CallHolds cs
      → fold_steps (save_call mem with_rtp) v cs ≡ fold_steps run v (all_packets cs)
  fold-save_call [] v h = refl
  fold-save_call (c ∷ cs) v h =
      ap (λ o. o >>= λ w. fold_steps (save_call mem with_rtp) w cs) (save_call-fold c h.0 v)
      ∙ elim (fold_steps run v (packets_of c))
          as (λ o.
            (o >>= λ w. fold_steps (save_call mem with_rtp) w cs)
            ≡ (o >>= λ w. fold_steps run w (all_packets cs))) [
              | none ↦ refl
              | some w ↦ fold-save_call cs w h.1
            ]
      ∙ sym (fold_steps-append run v (packets_of c) (all_packets cs))

  dump-all :
      (ps out : List Ptr)
      → fold_steps (λ (out : List Ptr) (p : Ptr). some (out ++ p ∷ [])) out ps ≡ some (out ++ ps)
  dump-all [] out = ap some (sym (append-nil out))
  dump-all (p ∷ ps) out = dump-all ps (out ++ p ∷ []) ∙ ap some (append_assoc out (p ∷ []) ps)

  -- If the vectors of the calls that pass the filter hold their messages and, for SAVE_PCAP_RTP,
  -- their RTP packets, and these packets are different, not NULL and fewer than 2^26, then saving
  -- them returns: the packets that are written are those of these calls, each once, none captured
  -- later than the next.
  pub save_to_file-Sorted :
      (calls : Vector) (cs : List Ptr) (f : Option (Ptr → Bool))
      → Holds calls cs
      → let saved = all_packets (filter (passes f) cs) in
        All CallHolds (filter (passes f) cs)
        → All (λ p. p ≢ 0) saved
        → Distinct saved
        → length saved < 2 ^ 26
        → (out : List Ptr) × (save_to_file mem with_rtp calls f ≡ some out)
          × Sorted (NotLater mem) out
          × Perm out saved
          × Distinct out
  unfolding save_to_file sorted_packets iterator create set_sorter run
  save_to_file-Sorted calls cs f h held non_null d small =
      let ys : List Ptr = all_packets (filter (passes f) cs) in
      let start = create-Holds 100 50 (omega arith) (omega arith) (omega arith) in
      let empty : Vector = set_sorter (create 100 50) time_sorter in
      let (w, run_w, k) =
        fold-place_all (time_sorter-Places mem) ys [] empty
          (record {
            storage = start.storage;
            counted = start.counted;
            non_null = start.non_null;
            step_pos = start.step_pos;
            step_small = start.step_small;
            small = start.small;
            within = start.within;
            few = start.few;
          })
          refl (omega arith) (omega arith) non_null (Distinct-ReadyAll (stays_behind mem) ys d) in
      let out : List Ptr = place_all (place (stays_behind mem)) [] ys in
      let sorted : sorted_packets mem with_rtp calls f ≡ some w =
        each-filter h f (save_call mem with_rtp) empty
        ∙ fold-save_call (filter (passes f) cs) empty held
        ∙ run_w in
      let written =
        each-filter k.holds none (λ (out : List Ptr) (p : Ptr). some (out ++ p ∷ [])) []
        ∙ ap (fold_steps (λ (out : List Ptr) (p : Ptr). some (out ++ p ∷ [])) []) (filter-none out)
        ∙ dump-all out [] in
      (
        out,
        ap
              (λ o. o >>= λ (v : Vector).
                each (λ (out : List Ptr) (p : Ptr). some (out ++ p ∷ [])) (iterator (some v)) [])
              sorted
            ∙ written,
        place_all-Sorted (stays_behind-Decides mem) ys [] tt,
        place_all-perm (stays_behind mem) ys [],
        place_all-Distinct (stays_behind mem) ys [] (Distinct-ReadyAll (stays_behind mem) ys d) tt,
      )
