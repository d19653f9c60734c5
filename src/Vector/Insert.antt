-- ===== src/Vector/Insert.antt =====
-- src/vector.c, `vector_insert` of the item that was just appended: it moves to its place.
use mathlib.Core.List.{append_assoc, map-append}
use sngrep.Common.{
  ℕ, suc, ◌+◌, ◌-◌, ◌%◌, ◌<◌, ◌≡◌, refl, ◌≢◌, sym, ◌∙◌, ap, Option, some, List, [], ◌∷◌, ◌++◌, map,
  true, false, arith, length, length-append, length-map, set, ltb, ◌==◌, All, All-append, All-split,
  ◌>>=◌, lt→ltb, le→ltb, le→leb, ◌||◌, ==_refl,
}
use sngrep.Common.Int.{pos, to_int}
use sngrep.Vector.{Ptr, null, Slot, Vector, memmove, u32, insert, load}
use sngrep.Vector.Holds.{Storage, unallocated, allocated, Holds, load-mid}
use sngrep.Vector.Append.{Keeps}
use sngrep.Vector.Remove.{take_split, drop_past}

-- `memmove` one place up opens a gap, and drops the slot behind those that move.
memmove_up :
    (pre post rest : List Slot) (q x : Slot) (i n : ℕ)
    → i ≡ length pre
    → n ≡ suc (length post)
    → memmove (some (pre ++ q ∷ (post ++ x ∷ rest))) (i + 1) i n
      ≡ some ((pre ++ q ∷ []) ++ ((q ∷ post) ++ rest))
unfolding memmove
memmove_up pre post rest q x i n e l =
    let b : List Slot = pre ++ q ∷ (post ++ x ∷ rest) in
    let size : length b ≡ length pre + suc (length post + suc (length rest)) =
      omega (arith, length-append pre (q ∷ (post ++ x ∷ rest)), length-append post (x ∷ rest)) in
    rw
      (
        le→leb (i + n) (length b) (omega arith),
        le→leb (i + 1 + n) (length b) (omega arith),
        take_split (i + 1) (pre ++ q ∷ []) (post ++ x ∷ rest) b
            (sym (append_assoc pre (q ∷ []) (post ++ x ∷ rest)))
            (omega (arith, length-append pre (q ∷ []))),
        drop_past pre (q ∷ (post ++ x ∷ rest)) i 0 (omega arith),
        take_split n (q ∷ post) (x ∷ rest) ((q ∷ post) ++ x ∷ rest) refl (omega arith),
        drop_past pre (q ∷ (post ++ x ∷ rest)) (i + 1 + n) (suc n) (omega arith),
        drop_past (q ∷ post) (x ∷ rest) (suc n) 1 (omega arith),
      )
      refl

set-map :
    (pre : List Ptr) (rest : List Slot) (old new : Slot)
    → set (map some pre ++ old ∷ rest) (length pre) new ≡ map some pre ++ new ∷ rest
set-map [] rest old new = refl
set-map (p ∷ pre) rest old new = ap (λ l. some p ∷ l) (set-map pre rest old new)

module _ (v : Vector) (b rest : List Slot) (pre post : List Ptr) (q x : Ptr)
    (block : b ≡ map some (pre ++ q ∷ (post ++ x ∷ [])) ++ rest)
    (h : Holds v (pre ++ q ∷ (post ++ x ∷ []))) (list : v.list ≡ some b)
    (size : v.limit ≡ length (pre ++ q ∷ (post ++ x ∷ [])) + length rest) (other : q ≢ x) where
  count : v.count ≡ length pre + suc (suc (length post))
  count =
      omega
        (arith, h.counted, length-append pre (q ∷ (post ++ x ∷ [])), length-append post (x ∷ []))

  parts : b ≡ map some pre ++ some q ∷ (map some post ++ some x ∷ rest)
  parts =
      block
      ∙ ap (λ l. l ++ rest)
          (map-append some pre (q ∷ (post ++ x ∷ []))
            ∙ ap (λ l. map some pre ++ some q ∷ l) (map-append some post (x ∷ [])))
      ∙ append_assoc (map some pre) (some q ∷ (map some post ++ some x ∷ [])) rest
      ∙ ap (λ l. map some pre ++ some q ∷ l) (append_assoc (map some post) (some x ∷ []) rest)

  opened : List Slot
  opened = (map some pre ++ some q ∷ []) ++ ((some q ∷ map some post) ++ rest)

  moved :
      memmove v.list (length pre + 1) (length pre) ((v.count + u32 - length pre - 1) % u32)
      ≡ some opened
  unfolding opened
  moved =
      rw (list, parts)
        (memmove_up (map some pre) (map some post) rest (some q) (some x) (length pre) _
          (sym (length-map some pre))
          (omega (arith, count, h.small, h.within, length-map some post)))

  stored : set opened (length pre) (some x) ≡ map some (pre ++ x ∷ q ∷ post) ++ rest
  unfolding opened
  stored =
      let tail : List Slot = (some q ∷ map some post) ++ rest in
      ap (λ l. set l (length pre) (some x)) (append_assoc (map some pre) (some q ∷ []) tail)
      ∙ set-map pre tail (some q) (some x)
      ∙ sym (append_assoc (map some pre) (some x ∷ some q ∷ map some post) rest)
      ∙ ap (λ l. l ++ rest) (sym (map-append some pre (x ∷ q ∷ post)))

  length-opened : length pre < length opened
  unfolding opened
  length-opened = omega (
    arith,
    length-append (map some pre ++ some q ∷ []) ((some q ∷ map some post) ++ rest),
    length-append (map some pre) (some q ∷ []),
    length-map some pre,
  )

  old : load v.list (length pre) ≡ some q
  old = load-mid h pre (post ++ x ∷ []) q (length pre) refl refl

  non_null : All (λ y. y ≢ 0) (pre ++ x ∷ q ∷ post)
  non_null =
      let (p, r) = All-split (λ y. y ≢ 0) pre (q ∷ (post ++ x ∷ [])) h.non_null in
      let (t, u) = All-split (λ y. y ≢ 0) (q ∷ post) (x ∷ []) r in
      All-append (λ y. y ≢ 0) pre (x ∷ q ∷ post) p (u.0, t)

  tests :
      ((x == null || ltb ((v.count + u32 - 2) % u32) (length pre)) ≡ false)
      × ((q == x) ≡ false)
      × ((q == null) ≡ false)
  tests =
      let (p, r) = All-split (λ y. y ≢ 0) pre (x ∷ q ∷ post) non_null in
      let e : (v.count + u32 - 2) % u32 ≡ length pre + length post =
        omega (arith, count, h.small, h.within) in
      (
        rw (e, le→ltb (length pre + length post) (length pre) (omega arith)) (ground (arith, r.0)),
        ground (arith, other),
        ground (arith, r.1.0),
      )

  insert_block-Keeps :
      (w : Vector) × (insert v x (pos (length pre)) ≡ some (w, to_int v.count))
      × Keeps v w (pre ++ x ∷ q ∷ post)
  unfolding insert
  insert_block-Keeps =
      let (t, ne, nn) = tests in
      let b' : List Slot = set opened (length pre) (some x) in
      (
        record v { list = some b' },
        rw (t, old, ◌>>=◌, ne, nn, moved, lt→ltb (length pre) (length opened) length-opened) refl,
        record {
          holds = record {
            storage = allocated rest stored (
                omega (
                  arith,
                  size,
                  length-append pre (x ∷ q ∷ post),
                  length-append pre (q ∷ (post ++ x ∷ [])),
                  length-append post (x ∷ []),
                ));
            counted = omega (arith, count, length-append pre (x ∷ q ∷ post));
            non_null = non_null;
            step_pos = h.step_pos;
            step_small = h.step_small;
            small = h.small;
            within = h.within;
            few = h.few;
          };
          same_limit = refl;
          same_step = refl;
          same_destroyer = refl;
          same_sorter = refl;
        },
      )

-- The item that was appended last, moved to the place behind `pre`.
insert-Storage :
    {v : Vector} {l : Option (List Slot)} {xs : List Ptr} (pre post : List Ptr) (q x : Ptr)
    → xs ≡ pre ++ q ∷ (post ++ x ∷ [])
    → Storage l xs v.limit
    → v.list ≡ l
    → Holds v (pre ++ q ∷ (post ++ x ∷ []))
    → q ≢ x
    → (w : Vector) × (insert v x (pos (length pre)) ≡ some (w, to_int v.count))
      × Keeps v w (pre ++ x ∷ q ∷ post)
insert-Storage pre post q x e unallocated same h ne = absurd (not_nil pre e)
  where
    not_nil : (pre : List Ptr) → [] ≡ pre ++ q ∷ (post ++ x ∷ []) → ⊥
    not_nil [] e = cc
    not_nil (y ∷ pre) e = cc
insert-Storage {v} pre post q x e (allocated {b} rest block size) same h ne =
    insert_block-Keeps v b rest pre post q x (block ∙ ap (λ l. map some l ++ rest) e) h same
      (size ∙ ap (λ l. length l + length rest) e) ne

pub insert_last :
    (v : Vector) (pre : List Ptr) (x : Ptr)
    → Holds v (pre ++ x ∷ [])
    → insert v x (pos (length pre)) ≡ some (v, to_int v.count)
unfolding insert
insert_last v [] x h = rw (load-mid h [] [] x 0 refl refl, ◌>>=◌, ==_refl) (ground arith)
insert_last v (p ∷ pre) x h =
    let e : ltb ((v.count + u32 - 2) % u32) (suc (length pre)) ≡ true =
      lt→ltb _ _ (omega (arith, h.counted, h.small, h.within, length-append pre (x ∷ []))) in
    rw e (ground arith)

-- In a vector of fewer than 2^31 items, `vector_insert` of the last item at an index, where it
-- does not stand already, moves the items from there on up by one and puts the item before them;
-- it returns the count, and count and limit stay.
pub insert-Keeps :
    {v : Vector} (pre post : List Ptr) (x : Ptr)
    → Holds v (pre ++ (post ++ x ∷ []))
    → All (λ y. y ≢ x) post
    → (w : Vector) × (insert v x (pos (length pre)) ≡ some (w, to_int v.count))
      × Keeps v w (pre ++ x ∷ post)
insert-Keeps {v} pre [] x h n = (
  v,
  insert_last v pre x h,
  record {
    holds = h;
    same_limit = refl;
    same_step = refl;
    same_destroyer = refl;
    same_sorter = refl;
  },
)
insert-Keeps pre (q ∷ post) x h n = insert-Storage pre post q x refl h.storage refl h n.0
