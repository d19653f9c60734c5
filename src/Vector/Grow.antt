-- ===== src/Vector/Grow.antt =====
-- src/vector.c, `vector_append` without a sorter: the block grows and the item is stored last.
use mathlib.Core.List.{append-nil}
use sngrep.Common.{
  ℕ, zero, suc, ◌+◌, ◌-◌, ◌/◌, ◌%◌, ◌≤◌, ◌<◌, ◌≡◌, refl, ◌≢◌, ◌∙◌, ap, Option, none, some, List, [],
  ◌∷◌, ◌++◌, map, true, false, Bool-cases, inl, inr, arith, length, length-append, length-map,
  length-drop, length-replicate, take, drop, replicate, ltb, ◌==◌, ◌^◌, le→ltb, take-append,
}
use sngrep.Vector.{Ptr, null, Slot, Vector, realloc, wipe, grow, grow_block}
use sngrep.Vector.Holds.{Storage, unallocated, allocated, Holds}

-- What `grow` promises: the same items, and room for one more.
pub record Grown (v w : Vector) (xs : List Ptr) : Type 0 where
  pub holds : Holds w xs
  pub room : w.count < w.limit
  pub has_block : w.list ≢ none
  pub limit_le : w.limit ≤ v.limit + v.step
  pub same_step : w.step ≡ v.step
  pub same_destroyer : w.destroyer ≡ v.destroyer
  pub same_sorter : w.sorter ≡ v.sorter

take_all : (n : ℕ) (b : List Slot) → length b ≤ n → take n b ≡ b
take_all zero [] h = refl
take_all zero (x ∷ b) h = absurd (omega arith)
take_all (suc n) [] h = refl
take_all (suc n) (x ∷ b) h = ap (λ r. x ∷ r) (take_all n b (omega arith))

-- `realloc` and `memset` keep what the block held, and add `step` slots.
wipe-realloc :
    (b : List Slot) (s : ℕ)
    → (rest : List Slot) × (wipe (realloc b (length b + s)) (length b) s ≡ b ++ rest)
      × (length rest ≡ s)
unfolding wipe realloc
wipe-realloc b s =
    let fresh : List Slot = replicate (length b + s - length b) none in
    let grown : List Slot = b ++ fresh in
    let tail : List Slot = drop (length b + (s + 7) / 8) grown in
    let mid : List Slot = replicate ((s + 7) / 8 - s / 8) none in
    let kept = take_all (length b + s) b (omega arith) in
    (
      replicate (s / 8) (some null) ++ (mid ++ tail),
      rw (kept, take-append b fresh) refl,
      omega (
        arith,
        length-append (replicate (s / 8) (some null)) (mid ++ tail),
        length-append mid tail,
        length-replicate (s / 8) (some null),
        length-replicate {A = Slot} ((s + 7) / 8 - s / 8) none,
        length-drop (length b + (s + 7) / 8) grown,
        length-append b fresh,
        length-replicate {A = Slot} (length b + s - length b) none,
      ),
    )

nil_of_length : (r : List Slot) → length r ≡ 0 → r ≡ []
nil_of_length [] e = refl
nil_of_length (x ∷ r) e = absurd (omega arith)

module _ {v : Vector} {xs : List Ptr} (h : Holds v xs) (fits : v.limit + v.step < 2 ^ 32) where
  grow_block-full :
      (b rest : List Slot)
      → b ≡ map some xs ++ rest
      → v.limit ≡ length xs + length rest
      → v.count ≡ v.limit
      → (w : Vector) × (grow_block v b ≡ some w) × Grown v w xs
  unfolding grow_block
  grow_block-full b rest e l full =
      let size : length b ≡ v.limit =
        rw e (omega (arith, length-append (map some xs) rest, length-map some xs)) in
      let (new, block, long) = wipe-realloc b v.step in
      let n : ℕ = (v.limit + v.step) % 2 ^ 32 in
      let n_eq : n ≡ length b + v.step = omega (arith, h.small) in
      let from : n - v.step ≡ length b = omega (arith, n_eq) in
      let big : ltb n v.step ≡ false = le→ltb n v.step (omega (arith, n_eq)) in
      let test : (v.count == v.limit) ≡ true = ground arith in
      let items : b ≡ map some xs =
        e
        ∙ ap (λ r. map some xs ++ r) (nil_of_length rest (omega (arith, h.counted)))
        ∙ append-nil (map some xs) in
      let kept : wipe (realloc b n) (n - v.step) v.step ≡ map some xs ++ new =
        rw (from, n_eq, block, items) in
      let w : Vector = record v {
        limit = n;
        list = some (wipe (realloc b n) (n - v.step) v.step);
      } in
      (
        w,
        rw (test, big) refl,
        record {
          holds = record {
            storage = allocated new kept (omega arith);
            counted = h.counted;
            non_null = h.non_null;
            step_pos = h.step_pos;
            step_small = h.step_small;
            small = omega arith;
            within = omega (arith, h.within);
            few = h.few;
          };
          room = omega (arith, h.step_pos);
          has_block = λ e. cc;
          limit_le = omega arith;
          same_step = refl;
          same_destroyer = refl;
          same_sorter = refl;
        },
      )

  grow_block-Grown :
      (b rest : List Slot)
      → b ≡ map some xs ++ rest
      → v.limit ≡ length xs + length rest
      → (w : Vector) × (grow_block v b ≡ some w) × Grown v w xs
  unfolding grow_block
  grow_block-Grown b rest e l = elim (Bool-cases (v.count == v.limit)) [
    | inl full ↦ grow_block-full b rest e l (ground arith)
    | inr free ↦ (
      record v { list = some b },
      rw free refl,
      record {
        holds = record {
          storage = allocated rest e l;
          counted = h.counted;
          non_null = h.non_null;
          step_pos = h.step_pos;
          step_small = h.step_small;
          small = h.small;
          within = h.within;
          few = h.few;
        };
        room = ground (arith, h.within);
        has_block = λ e. cc;
        limit_le = omega arith;
        same_step = refl;
        same_destroyer = refl;
        same_sorter = refl;
      },
    )
  ]

grow_cases :
    {v : Vector} {xs : List Ptr} {l : Option (List Slot)}
    → Storage l xs v.limit
    → Holds v xs
    → v.limit + v.step < 2 ^ 32
    → (w : Vector) × (grow_block v (elim l [ none ↦ replicate v.limit (some null) | some b ↦ b ])
        ≡ some w)
      × Grown v w xs
grow_cases {v} unallocated h fits =
    grow_block-Grown h fits (replicate v.limit (some null)) (replicate v.limit (some null)) refl
      (omega (arith, length-replicate {A = Slot} v.limit (some null)))
grow_cases (allocated {b} rest e n) h fits = grow_block-Grown h fits b rest e n

-- There is room for one more item after `grow`.
pub grow-Grown :
    {v : Vector} {xs : List Ptr}
    → Holds v xs
    → v.limit + v.step < 2 ^ 32
    → (w : Vector) × (grow v ≡ some w) × Grown v w xs
unfolding grow
grow-Grown h fits = grow_cases h.storage h fits
