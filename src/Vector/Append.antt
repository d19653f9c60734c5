-- ===== src/Vector/Append.antt =====
-- src/vector.c, `vector_append` of a vector that holds a list.
use mathlib.Core.List.{append_assoc, map-append}
use sngrep.Common.{
  ℕ, suc, ◌+◌, ◌-◌, ◌%◌, ◌≤◌, ◌<◌, ◌≡◌, refl, ◌≢◌, sym, ◌∙◌, Option, none, some, List, [], ◌∷◌,
  ◌++◌, map, false, arith, length, length-append, length-map, set, set-append, ◌==◌, All-append,
  ◌>>=◌, ◌^◌, lt→ltb,
}
use sngrep.Common.Int.{pos, to_int-small}
use sngrep.Vector.{Ptr, null, Slot, Vector, u32, store, append_last, call_sorter, append}
use sngrep.Vector.Holds.{Storage, unallocated, allocated, Holds}
use sngrep.Vector.Grow.{grow-Grown}

-- `w` holds `xs`, needed at most one enlargement, and is otherwise set up like `v`.
pub record Becomes (v w : Vector) (xs : List Ptr) : Type 0 where
  pub holds : Holds w xs
  pub limit_le : w.limit ≤ v.limit + v.step
  pub same_step : w.step ≡ v.step
  pub same_destroyer : w.destroyer ≡ v.destroyer
  pub same_sorter : w.sorter ≡ v.sorter

-- A store behind the items of a block with room.
store-last :
    {l : Option (List Slot)} {xs : List Ptr} {n : ℕ} (x : Ptr)
    → Storage l xs n
    → l ≢ none
    → length xs < n
    → (b : List Slot) × (store l (length xs) x ≡ some b) × Storage (some b) (xs ++ x ∷ []) n
store-last x unallocated some_block h = absurd (some_block refl)
store-last x (allocated [] e l) some_block h = absurd (omega arith)
store-last x (allocated {b} {xs} (s ∷ rest) e l) some_block h =
    let size : length b ≡ length xs + suc (length rest) =
      rw e (omega (arith, length-append (map some xs) (s ∷ rest), length-map some xs)) in
    let put : set b (length xs) (some x) ≡ map some (xs ++ x ∷ []) ++ rest =
      rw (e, map-append)
        ((rw length-map at (set-append (map some xs) rest s (some x)))
          ∙ sym (append_assoc (map some xs) (some x ∷ []) rest)) in
    (
      set b (length xs) (some x),
      rw (lt→ltb (length xs) (length b) (omega arith)) refl,
      allocated rest put (omega (arith, length-append xs (x ∷ []))),
    )

module _ {v : Vector} {xs : List Ptr} (h : Holds v xs) (fits : v.limit + v.step < 2 ^ 32)
    (few : suc (length xs) < 2 ^ 31) where
  -- Up to its sorter, `vector_append` adds the item behind the others.
  pub append_last-Becomes :
      (x : Ptr) → x ≢ null → (w : Vector) × (append_last v x ≡ some w) × Becomes v w (xs ++ x ∷ [])
  unfolding append_last
  append_last-Becomes x p =
      let (w, run, g) = grow-Grown h fits in
      let (b, stored, storage) =
        store-last x g.holds.storage g.has_block (omega (arith, g.room, g.holds.counted)) in
      (
        record w { count = (w.count + 1) % u32; list = some b },
        rw (run, ◌>>=◌, g.holds.counted, stored) refl,
        record {
          holds = record {
            storage = storage;
            counted =
                omega (arith, length-append xs (x ∷ []), g.holds.counted, g.room, g.holds.small);
            non_null = All-append (λ y. y ≢ 0) xs (x ∷ []) g.holds.non_null (p, tt);
            step_pos = g.holds.step_pos;
            step_small = g.holds.step_small;
            small = g.holds.small;
            within = omega (arith, g.room, g.holds.small);
            few = omega (arith, g.room, g.holds.small, g.holds.counted, few);
          };
          limit_le = g.limit_le;
          same_step = g.same_step;
          same_destroyer = g.same_destroyer;
          same_sorter = g.same_sorter;
        },
      )

-- `w` holds `xs` in the block of `v`, and is set up like `v`.
pub record Keeps (v w : Vector) (xs : List Ptr) : Type 0 where
  pub holds : Holds w xs
  pub same_limit : w.limit ≡ v.limit
  pub same_step : w.step ≡ v.step
  pub same_destroyer : w.destroyer ≡ v.destroyer
  pub same_sorter : w.sorter ≡ v.sorter

-- What a sorter does with the item that was just added behind `xs`, if `Ready` holds of them.
pub record Places (call : Ptr → Vector → Ptr → Option Vector) (f : Ptr)
    (Ready : Ptr → List Ptr → Type 0) (place : Ptr → List Ptr → List Ptr) : Type 0 where
  pub law :
      (v : Vector) (xs : List Ptr) (x : Ptr)
      → v.sorter ≡ f
      → Holds v (xs ++ x ∷ [])
      → Ready x xs
      → (w : Vector) × (call_sorter call v x ≡ some w) × Keeps v w (place x xs)
  pub length-place : (x : Ptr) (xs : List Ptr) → length (place x xs) ≡ suc (length xs)

abbrev pub Always : Ptr → List Ptr → Type 0
Always x xs = Unit

abbrev pub behind : Ptr → List Ptr → List Ptr
behind x xs = xs ++ x ∷ []

-- With no sorter the item stays last.
pub no_sorter-Places : (call : Ptr → Vector → Ptr → Option Vector) → Places call null Always behind
unfolding call_sorter
no_sorter-Places call = record {
  law = λ v xs x e h _. (
    v,
    rw e refl,
    record {
      holds = h;
      same_limit = refl;
      same_step = refl;
      same_destroyer = refl;
      same_sorter = refl;
    },
  );
  length-place = λ x xs. omega (arith, length-append xs (x ∷ []));
}

module _ {call : Ptr → Vector → Ptr → Option Vector} {f : Ptr} {Ready : Ptr → List Ptr → Type 0}
    {place : Ptr → List Ptr → List Ptr} (sorts : Places call f Ready place) {v : Vector}
    {xs : List Ptr} (h : Holds v xs) (sorter : v.sorter ≡ f) (fits : v.limit + v.step < 2 ^ 32)
    (few : suc (length xs) < 2 ^ 31) where
  -- `vector_append` of an item that is not NULL to a vector whose limit can grow once, with fewer
  -- than 2^31 - 1 items, puts the item where the vector's sorter places it, if the sorter does
  -- place items, and returns the former count, wherever that is.
  pub append-place :
      (x : Ptr)
      → x ≢ null
      → Ready x xs
      → (w : Vector) × (append call v x ≡ some (w, pos (length xs))) × Becomes v w (place x xs)
  unfolding append
  append-place x p r =
      let (u, run, b) = append_last-Becomes h fits few x p in
      let (w, sorted, k) = sorts.law u xs x (b.same_sorter ∙ sorter) b.holds r in
      let not_null : (x == null) ≡ false = ground arith in
      let i : (w.count + u32 - 1) % u32 ≡ length xs =
        omega (arith, k.holds.counted, k.holds.small, k.holds.within, sorts.length-place x xs) in
      (
        w,
        rw (not_null, run, ◌>>=◌, sorted, i, to_int-small (length xs) (omega arith)) refl,
        record {
          holds = k.holds;
          limit_le = omega (arith, k.same_limit, b.limit_le);
          same_step = k.same_step ∙ b.same_step;
          same_destroyer = k.same_destroyer ∙ b.same_destroyer;
          same_sorter = k.same_sorter ∙ b.same_sorter;
        },
      )
