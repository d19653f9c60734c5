-- ===== src/Vector/Remove.antt =====
-- src/vector.c, `vector_remove`, `vector_clear` and `vector_destroy`.
use mathlib.Core.List.{append_assoc, map-append}
use sngrep.Common.{
  ℕ, zero, suc, ◌+◌, ◌-◌, ◌%◌, ◌<◌, ◌≡◌, refl, ◌≢◌, sym, ◌∙◌, ap, Option, some, List, [], ◌∷◌, ◌++◌,
  map, true, false, arith, length, length-append, length-map, set, set-append, ◌==◌, if◌then◌else◌,
  All, All-append, All-split, ◌>>=◌, lt→ltb, le→leb, subst, ==_refl, Bool, take, drop, take-append,
  drop-append,
}
use sngrep.Common.Int.{pos}
use sngrep.Vector.{Ptr, null, Slot, Vector, memmove, u32, remove_at, remove}
use sngrep.Vector.Holds.{
  Storage, unallocated, allocated, Holds, find, absent, split, position, position-absent,
  position-append, index-position,
}
use sngrep.Vector.Append.{Keeps}

pub take_split :
    (n : ℕ) (pre post b : List Slot) → b ≡ pre ++ post → n ≡ length pre → take n b ≡ pre
take_split n pre post b e l = rw (e, l) (take-append pre post)

pub drop_split :
    (n : ℕ) (pre post b : List Slot) → b ≡ pre ++ post → n ≡ length pre → drop n b ≡ post
drop_split n pre post b e l = rw (e, l) (drop-append pre post)

-- The last slot before `rest`, once the others are counted off.
last_slot :
    (x : Slot) (post rest : List Slot)
    → (s : Slot) × (drop (length post) (x ∷ (post ++ rest)) ≡ s ∷ rest)
last_slot x [] rest = (x, refl)
last_slot x (y ∷ post) rest = last_slot y post rest

pub drop_past : (pre l : List Slot) (k n : ℕ) → k ≡ length pre + n → drop k (pre ++ l) ≡ drop n l
drop_past [] l k n e = ap (λ (m : ℕ). drop m l) (omega arith)
drop_past (x ∷ pre) l zero n e = absurd (omega arith)
drop_past (x ∷ pre) l (suc k) n e = drop_past pre l k n (omega arith)

-- `memmove` one place down closes the gap, and leaves the last slot twice.
memmove_down :
    (pre post rest : List Slot) (x : Slot) (i n : ℕ)
    → i ≡ length pre
    → n ≡ length post
    → (s : Slot) × (memmove (some (pre ++ x ∷ (post ++ rest))) i (i + 1) n
        ≡ some (pre ++ (post ++ s ∷ rest)))
unfolding memmove
memmove_down pre post rest x i n e l =
    let b : List Slot = pre ++ x ∷ (post ++ rest) in
    let size : length b ≡ length pre + suc (length post + length rest) =
      omega (arith, length-append pre (x ∷ (post ++ rest)), length-append post rest) in
    let (s, tail) = last_slot x post rest in
    (
      s,
      rw
          (
            le→leb (i + 1 + n) (length b) (omega arith),
            le→leb (i + n) (length b) (omega arith),
            take_split i pre (x ∷ (post ++ rest)) b refl e,
            drop_past pre (x ∷ (post ++ rest)) (i + 1) 1 (omega arith),
            take_split n post rest (post ++ rest) refl l,
            drop_past pre (x ∷ (post ++ rest)) (i + n) n (omega arith),
            l,
            tail,
          )
          refl,
    )

-- The items handed to the destroyer of `v` when `x` is removed.
abbrev pub handed : Vector → Ptr → List Ptr
handed v x = if v.destroyer == null then [] else x ∷ []

-- What `vector_remove` makes of a block whose items are `pre`, `x` and `post`.
module _ (v : Vector) (b rest : List Slot) (pre post : List Ptr) (x : Ptr)
    (block : b ≡ map some (pre ++ x ∷ post) ++ rest) (h : Holds v (pre ++ x ∷ post))
    (list : v.list ≡ some b) (size : v.limit ≡ length (pre ++ x ∷ post) + length rest) where
  n : ℕ
  n = (v.count + u32 - 1) % u32

  n_eq : n ≡ length pre + length post
  unfolding n
  n_eq = omega (arith, h.counted, h.small, h.within, length-append pre (x ∷ post))

  parts : b ≡ map some pre ++ some x ∷ (map some post ++ rest)
  parts =
      block
      ∙ ap (λ l. l ++ rest) (map-append some pre (x ∷ post))
      ∙ append_assoc (map some pre) (some x ∷ map some post) rest

  moved :
      (s : Slot) × (memmove v.list (length pre) (length pre + 1) (n - length pre)
        ≡ some (map some pre ++ (map some post ++ s ∷ rest)))
  moved =
      rw (list, parts)
        (memmove_down (map some pre) (map some post) rest (some x) (length pre) (n - length pre)
          (sym (length-map some pre)) (omega (arith, n_eq, length-map some post)))

  cleared :
      (s : Slot)
      → set (map some pre ++ (map some post ++ s ∷ rest)) n (some null)
        ≡ map some (pre ++ post) ++ some null ∷ rest
  cleared s =
      rw (← append_assoc (map some pre) (map some post) (s ∷ rest), map-append)
        (rw
          (
            n_eq,
            ← length-map some pre,
            ← length-map some post,
            ← length-append (map some pre) (map some post),
          )
          (set-append (map some pre ++ map some post) rest s (some null)))

  remove_at-Keeps :
      (w : Vector) × (remove_at v x (pos (length pre)) ≡ some (w, handed v x))
      × Keeps v w (pre ++ post)
  unfolding remove_at n
  remove_at-Keeps =
      let (s, run) = moved in
      let b' : List Slot = map some pre ++ (map some post ++ s ∷ rest) in
      let long : n < length b' = omega (
        arith,
        n_eq,
        length-append (map some pre) (map some post ++ s ∷ rest),
        length-append (map some post) (s ∷ rest),
        length-map some pre,
        length-map some post,
      ) in
      (
        record v { count = n; list = some (set b' n (some null)) },
        rw (run, ◌>>=◌, lt→ltb n (length b') long) refl,
        record {
          holds = record {
            storage =
                allocated (some null ∷ rest) (cleared s)
                  (omega (arith, size, length-append pre (x ∷ post), length-append pre post));
            counted = omega (arith, n_eq, length-append pre post);
            non_null =
                let (p, q) = All-split (λ y. y ≢ 0) pre (x ∷ post) h.non_null in
                All-append (λ y. y ≢ 0) pre post p q.1;
            step_pos = h.step_pos;
            step_small = h.step_small;
            small = h.small;
            within = omega (arith, n_eq, size, length-append pre (x ∷ post));
            few = omega (arith, n_eq, h.few, h.counted, length-append pre (x ∷ post));
          };
          same_limit = refl;
          same_step = refl;
          same_destroyer = refl;
          same_sorter = refl;
        },
      )

-- The list without the first occurrence of an item.
abbrev pub erase : Ptr → List Ptr → List Ptr
erase x [] = []
erase x (y ∷ ys) = if y == x then ys else y ∷ erase x ys

abbrev pub has : Ptr → List Ptr → Bool
has x [] = false
has x (y ∷ ys) = if y == x then true else has x ys

erase-absent :
    (x : Ptr) (xs : List Ptr) → All (λ y. y ≢ x) xs → (erase x xs ≡ xs) × (has x xs ≡ false)
erase-absent x [] h = (refl, refl)
erase-absent x (y ∷ ys) h =
    let (p, q) = erase-absent x ys h.1 in
    let ne : (y == x) ≡ false = ground (arith, h.0) in (rw (ne, p) refl, rw (ne, q) refl)

erase-split :
    (x : Ptr) (pre post : List Ptr)
    → All (λ y. y ≢ x) pre
    → (erase x (pre ++ x ∷ post) ≡ pre ++ post) × (has x (pre ++ x ∷ post) ≡ true)
erase-split x [] post h = (rw ==_refl refl, rw ==_refl refl)
erase-split x (y ∷ pre) post h =
    let (p, q) = erase-split x pre post h.1 in
    let ne : (y == x) ≡ false = ground (arith, h.0) in (rw (ne, p) refl, rw (ne, q) refl)

-- What the destroyer is handed when `x` is taken out of `xs`.
abbrev pub taken : Vector → Ptr → List Ptr → List Ptr
taken v x xs = if has x xs then handed v x else []

remove_split :
    {v : Vector} {l : Option (List Slot)} {xs : List Ptr} (x : Ptr) (pre post : List Ptr)
    → xs ≡ pre ++ x ∷ post
    → Storage l xs v.limit
    → v.list ≡ l
    → Holds v (pre ++ x ∷ post)
    → (w : Vector) × (remove_at v x (pos (length pre)) ≡ some (w, handed v x))
      × Keeps v w (pre ++ post)
remove_split x pre post e unallocated same h = absurd (not_nil pre post e)
  where
    not_nil : (pre post : List Ptr) → [] ≡ pre ++ x ∷ post → ⊥
    not_nil [] post e = cc
    not_nil (y ∷ pre) post e = cc
remove_split {v} x pre post e (allocated {b} rest block size) same h =
    remove_at-Keeps v b rest pre post x (block ∙ ap (λ l. map some l ++ rest) e) h same
      (size ∙ ap (λ l. length l + length rest) e)

-- In a vector of fewer than 2^31 items, `vector_remove` takes out the first occurrence of the item
-- and closes the gap, hands just that item to the destroyer if there is one, and changes nothing
-- if the item is not there.
pub remove-erase :
    {v : Vector} {xs : List Ptr} (x : Ptr)
    → Holds v xs
    → (w : Vector) × (remove v x ≡ some (w, taken v x xs)) × Keeps v w (erase x xs)
unfolding remove remove_at
remove-erase {v} {xs} x h = elim (find x xs) [
  | absent n ↦
      let (p, q) = erase-absent x xs n in
      (
        v,
        rw (index-position h x, ◌>>=◌, position-absent x xs 0 n, q) refl,
        rw p (record {
          holds = h;
          same_limit = refl;
          same_step = refl;
          same_destroyer = refl;
          same_sorter = refl;
        }),
      )
  | split pre post n e ↦
      let (p, q) = erase-split x pre post n in
      let (w, run, k) =
        remove_split {v = v} {l = v.list} {xs = xs} x pre post e h.storage refl
          (subst (Holds v) e h) in
      let at : position x xs 0 ≡ pos (length pre) =
        ap (λ l. position x l 0) e ∙ position-append x pre post 0 n ∙ ap pos (omega arith) in
      (w, rw (index-position h x, ◌>>=◌, at, e, q) run, rw (e, p) k)
]
