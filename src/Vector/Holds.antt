-- ===== src/Vector/Holds.antt =====
-- What a vector stands for: the list of its items.
use mathlib.Core.List.{append_assoc}
use native.Mathlib.Decide.{ℕ_discrete}
use sngrep.Common.{
  ℕ, zero, suc, ◌+◌, ◌≤◌, ◌<◌, ◌≡◌, refl, ◌≢◌, ◌∙◌, ap, Option, none, some, List, [], ◌∷◌, ◌++◌,
  map, Bool-cases, inl, inr, arith, length, length-append, leb, ◌==◌, ==_refl, if◌then◌else◌, All,
  ◌^◌, sym, ◌>>=◌,
}
use sngrep.Common.Int.{ℤ, pos, negsuc, next_int-small}
use sngrep.Vector.{Ptr, null, Slot, Vector, load, item, first, index_loop, index, create}

-- The block starts with the items; what follows is spare. There is no block before the first append.
pub data Storage : Option (List Slot) → List Ptr → ℕ → Type 0 where
  unallocated : {n : ℕ} → Storage none [] n
  allocated :
      {b : List Slot} {xs : List Ptr} {n : ℕ} (rest : List Slot)
      → b ≡ map some xs ++ rest
      → n ≡ length xs + length rest
      → Storage (some b) xs n

-- `v` has the items `xs`, which are few enough to be counted by an `int`.
pub record Holds (v : Vector) (xs : List Ptr) : Type 0 where
  pub storage : Storage v.list xs v.limit
  pub counted : v.count ≡ length xs
  pub non_null : All (λ x. x ≢ 0) xs
  pub step_pos : 0 < v.step
  pub step_small : v.step < 256
  pub small : v.limit < 2 ^ 32
  pub within : v.count ≤ v.limit
  pub few : v.count < 2 ^ 31

-- The item at an index, NULL out of range.
abbrev pub at : List Ptr → ℤ → Ptr
at xs (negsuc n) = null
at [] (pos i) = null
at (x ∷ xs) (pos zero) = x
at (x ∷ xs) (pos (suc i)) = at xs (pos i)

-- The first index of an item, from `i` on; -1 if there is none.
abbrev pub position : Ptr → List Ptr → ℕ → ℤ
position x [] i = negsuc 0
position x (y ∷ ys) i = if y == x then pos i else position x ys (i + 1)

load-map :
    (xs : List Ptr) (rest : List Slot) (i : ℕ)
    → i < length xs
    → load (some (map some xs ++ rest)) i ≡ some (at xs (pos i))
load-map [] rest i h = absurd (omega arith)
load-map (x ∷ xs) rest zero h = refl
load-map (x ∷ xs) rest (suc i) h = load-map xs rest i (omega arith)

pub load-Storage :
    {b : Option (List Slot)} {xs : List Ptr} {n : ℕ} (i : ℕ)
    → Storage b xs n
    → i < length xs
    → load b i ≡ some (at xs (pos i))
load-Storage i unallocated h = absurd (omega arith)
load-Storage i (allocated {xs} rest e _) h = rw e (load-map xs rest i h)

at_beyond : (xs : List Ptr) (i : ℕ) → length xs ≤ i → at xs (pos i) ≡ null
at_beyond [] i h = refl
at_beyond (x ∷ xs) zero h = absurd (omega arith)
at_beyond (x ∷ xs) (suc i) h = at_beyond xs i (omega arith)

pub at_ne_null :
    (xs : List Ptr) (i : ℕ) → All (λ x. x ≢ 0) xs → i < length xs → at xs (pos i) ≢ null
at_ne_null [] i h l = absurd (omega arith)
at_ne_null (x ∷ xs) zero h l = h.0
at_ne_null (x ∷ xs) (suc i) h l = at_ne_null xs i h.1 (omega arith)

pub at-append : (pre post : List Ptr) (y : Ptr) → at (pre ++ y ∷ post) (pos (length pre)) ≡ y
at-append [] post y = refl
at-append (x ∷ pre) post y = at-append pre post y

module _ {v : Vector} {xs : List Ptr} (h : Holds v xs) where
  -- `vector_item` reads the list, and answers NULL at every other index.
  pub item-at : (i : ℤ) → item v i ≡ some (at xs i)
  unfolding item
  item-at (negsuc n) = refl
  item-at (pos i) = elim (Bool-cases (leb v.count i)) [
    | inl e ↦ rw (e, at_beyond xs i (ground (arith, h.counted))) refl
    | inr e ↦ rw e (load-Storage i h.storage (ground (arith, h.counted)))
  ]

  pub first-at : first v ≡ some (at xs (pos 0))
  unfolding first
  first-at = item-at (pos 0)

  pub load-mid :
      (pre ys : List Ptr) (y : Ptr) (i : ℕ)
      → pre ++ y ∷ ys ≡ xs
      → i ≡ length pre
      → load v.list i ≡ some y
  load-mid pre ys y i e l =
      rw (load-Storage i h.storage (ground (arith, length-append pre (y ∷ ys))), ← e, l)
        (ap some (at-append pre ys y))

  pub item-mid :
      (pre ys : List Ptr) (y : Ptr) (i : ℕ)
      → pre ++ y ∷ ys ≡ xs
      → i ≡ length pre
      → item v (pos i) ≡ some y
  item-mid pre ys y i e l = item-at (pos i) ∙ rw (← e, l) (ap some (at-append pre ys y))

  pub item-end : (i : ℕ) → length xs ≤ i → item v (pos i) ≡ some null
  item-end i l = item-at (pos i) ∙ ap some (at_beyond xs i l)

  -- The loop of `vector_index`, in the middle of the list.
  index_loop-position :
      (x : Ptr) (ys pre : List Ptr) (i : ℕ)
      → pre ++ ys ≡ xs
      → i ≡ length pre
      → index_loop v.list x (length ys) i ≡ some (position x ys i)
  unfolding index_loop
  index_loop-position x [] pre i e l = refl
  index_loop-position x (y ∷ ys) pre i e l =
      rw (load-mid pre ys y i e l, ◌>>=◌)
        (elim (Bool-cases (y == x)) [
          | inl t ↦ rw t
          | inr f ↦
              let size : length pre + suc (length ys) ≡ length xs =
                sym (length-append pre (y ∷ ys)) ∙ ap length e in
              let fits : i + 1 < 2 ^ 31 = omega (arith, h.counted, h.few) in
              rw (f, next_int-small i fits, ◌>>=◌)
                (index_loop-position x ys (pre ++ y ∷ []) (i + 1) (append_assoc pre (y ∷ []) ys ∙ e)
                  (omega (arith, length-append pre (y ∷ []))))
        ])

  -- `vector_index` is the first position of the item.
  pub index-position : (x : Ptr) → index v x ≡ some (position x xs 0)
  unfolding index
  index-position x = rw h.counted (index_loop-position x xs [] 0 refl refl)

-- What a prefix does to a position.
pub position-append :
    (x : Ptr) (pre post : List Ptr) (i : ℕ)
    → All (λ y. y ≢ x) pre
    → position x (pre ++ x ∷ post) i ≡ pos (i + length pre)
position-append x [] post i h = rw ==_refl (ap pos (omega arith))
position-append x (y ∷ pre) post i h = ground (arith, position-append x pre post (i + 1) h.1, h.0)

-- A list either lacks an item or splits at its first occurrence.
pub data Found (x : Ptr) (xs : List Ptr) : Type 0 where
  absent : All (λ y. y ≢ x) xs → Found x xs
  split : (pre post : List Ptr) → All (λ y. y ≢ x) pre → xs ≡ pre ++ x ∷ post → Found x xs

pub find : (x : Ptr) (xs : List Ptr) → Found x xs
find x [] = absent tt
find x (y ∷ ys) = elim (ℕ_discrete y x) [
  | yes e ↦ split [] ys tt (rw e)
  | no n ↦ elim (find x ys) [
    | absent h ↦ absent (n, h)
    | split pre post h e ↦ split (y ∷ pre) post (n, h) (rw e)
  ]
]

pub position-absent :
    (x : Ptr) (xs : List Ptr) (i : ℕ) → All (λ y. y ≢ x) xs → position x xs i ≡ negsuc 0
position-absent x [] i h = refl
position-absent x (y ∷ xs) i h = ground (arith, position-absent x xs (i + 1) h.1, h.0)

pub create-Holds :
    (limit step : ℕ) → 0 < step → step < 256 → limit < 2 ^ 32 → Holds (create limit step) []
unfolding create
create-Holds limit step p q r = record {
  storage = unallocated;
  counted = refl;
  non_null = tt;
  step_pos = omega arith;
  step_small = omega arith;
  small = omega arith;
  within = omega arith;
  few = omega arith;
}
